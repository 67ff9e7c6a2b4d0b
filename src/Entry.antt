-- ===== src/Entry.antt =====
-- src/shared/entry_timing.js and src/shared/entry_confirmation.js: when an entry waits, and the bar it fills at. An
-- instant that does not parse is `none`.
pub mod Step
mod Bars
mod Confirmed
mod Settled
mod Ends
mod Tests
use news_market_ai.Common.{
  ℕ, ◌+◌, ◌*◌, ◌/◌, Bool, true, false, not, ◌&&◌, ◌||◌, Option, none, some, List, [], ◌∷◌, leb, ltb,
  if◌then◌else◌,
}
use news_market_ai.Exit.Numbers.{Numbers, Direction, long, short, gross_return}
use news_market_ai.Exit.Bars.{Bar}
use news_market_ai.Book.Guards.{ratio}

abbrev pub entry_fresh_max_age_ms : ℕ
entry_fresh_max_age_ms = 30 * 60 * 1000

abbrev pub pending_entry_expiry_ms : ℕ
pending_entry_expiry_ms = 5 * (24 * 60 * 60 * 1000)

-- What `resolveCurrentPrice` says of a price: whether it is of an intraday bar, and when that bar closed, where
-- there is a bar and its instant parses.
pub record Resolved : Type 0 where
  pub is_intraday : Bool
  pub closed_ms : Option ℕ

abbrev older_than : ℕ → Option ℕ → Option ℕ → Bool
older_than max_age as_of none = true
older_than max_age none (some closed) = true
older_than max_age (some as_of) (some closed) = ltb (closed + max_age) as_of

-- `isEntryPriceStale`
unfoldable pub is_entry_price_stale : Resolved → Option ℕ → ℕ → Bool
is_entry_price_stale resolved as_of max_age =
    not resolved.is_intraday || older_than max_age as_of resolved.closed_ms

-- `pendingEntryExpiresAt`
unfoldable pub pending_entry_expires_at : Option ℕ → ℕ → Option ℕ
pending_entry_expires_at none expiry = none
pending_entry_expires_at (some as_of) expiry = some (as_of + expiry)

-- `isPendingEntryExpired`
unfoldable pub is_pending_entry_expired : Option ℕ → Option ℕ → Bool
is_pending_entry_expired none now = true
is_pending_entry_expired (some expires) none = true
is_pending_entry_expired (some expires) (some now) = leb expires now

-- The identity of the bar of a fill: a date, or an instant in seconds.
pub data BarTs : Type 0 where
  on_day : ℕ → BarTs
  at_second : ℕ → BarTs

module _ (numbers : Numbers) where
  pub record Fill : Type 0 where
    pub price : numbers.Num
    -- `source === "daily"`
    pub is_daily : Bool
    pub bar_ts : BarTs
    pub opened_at : ℕ

  abbrev pub fill_at : Bar numbers → Fill
  fill_at bar = record {
    price = bar.open_price;
    is_daily = bar.is_daily;
    bar_ts =
        if bar.is_daily then on_day (bar.open_ms / 86400000) else at_second (bar.open_ms / 1000);
    opened_at = bar.open_ms;
  }

  -- A bar that the loop does not pass over.
  abbrev pub can_fill : ℕ → Bar numbers → Bool
  can_fill as_of bar =
      leb as_of bar.open_ms
      && numbers.is_finite bar.open_price
      && not (numbers.at_most bar.open_price numbers.zero)

  -- The loop of `findFillBar`
  abbrev pub first_fill : ℕ → List (Bar numbers) → Option Fill
  first_fill as_of [] = none
  first_fill as_of (bar ∷ bars) =
      if can_fill as_of bar then some (fill_at bar) else first_fill as_of bars

  -- `findFillBar`
  unfoldable pub find_fill_bar : List (Bar numbers) → Option ℕ → Option Fill
  find_fill_bar bars none = none
  find_fill_bar bars (some as_of) = first_fill as_of bars

  -- The switches of the confirmation, where they are set.
  pub record ConfirmationConfig : Type 0 where
    pub move_pct : Option numbers.Num
    pub hours : Option numbers.Num

  abbrev pub move_or_default : Option numbers.Num → numbers.Num
  move_or_default none = ratio numbers 5 1000
  move_or_default (some y) =
      if numbers.is_finite y
        && numbers.less numbers.zero y
        && numbers.at_most y (ratio numbers 2 10)
      then y
      else ratio numbers 5 1000

  abbrev pub hours_or_default : Option numbers.Num → numbers.Num
  hours_or_default none = numbers.of_nat 6
  hours_or_default (some h) =
      if numbers.is_finite h
        && numbers.at_most numbers.one h
        && numbers.at_most h (numbers.of_nat 72)
      then h
      else numbers.of_nat 6

  -- `entryConfirmationParams`
  unfoldable pub entry_confirmation_params : ConfirmationConfig → numbers.Num × numbers.Num
  entry_confirmation_params config =
      (move_or_default config.move_pct, hours_or_default config.hours)

  -- `debate.evidence.entryConfirmation`, by its numbers
  pub record Spec : Type 0 where
    pub ref_price : numbers.Num
    pub move_pct : numbers.Num

  abbrev pub is_spec : Spec → Bool
  is_spec spec =
      numbers.is_finite spec.ref_price
      && numbers.less numbers.zero spec.ref_price
      && numbers.is_finite spec.move_pct
      && numbers.less numbers.zero spec.move_pct

  -- `confirmationSpecOf`
  unfoldable pub confirmation_spec_of : Option Spec → Option Spec
  confirmation_spec_of none = none
  confirmation_spec_of (some spec) = if is_spec spec then some spec else none

  pub record Confirmation : Type 0 where
    pub closed_at : ℕ
    pub close : numbers.Num
    pub move_pct : numbers.Num
    pub is_daily : Bool

  abbrev pub confirmation_at : numbers.Num → Bar numbers → Confirmation
  confirmation_at move bar = record {
    closed_at = bar.available_at;
    close = bar.close;
    move_pct = move;
    is_daily = bar.is_daily;
  }

  abbrev pub is_usable_close : Bar numbers → Bool
  is_usable_close bar = numbers.is_finite bar.close && numbers.less numbers.zero bar.close

  -- The loop of `findConfirmationBar`: a bar that closes at the deadline ends it.
  abbrev pub first_confirmation :
      ℕ → ℕ → Direction → Spec → List (Bar numbers) → Option Confirmation
  first_confirmation from expires direction spec [] = none
  first_confirmation from expires direction spec (bar ∷ bars) =
      let rest = first_confirmation from expires direction spec bars in
      let move = gross_return numbers direction spec.ref_price bar.close in
      if not (leb from bar.open_ms)
      then rest
      else if leb expires bar.available_at
      then none
      else if is_usable_close bar && numbers.at_most spec.move_pct move
      then some (confirmation_at move bar)
      else rest

  -- `findConfirmationBar`
  unfoldable pub find_confirmation_bar :
      List (Bar numbers) → Option ℕ → Option ℕ → Option Direction → Spec → Option Confirmation
  unfolding gross_return
  find_confirmation_bar bars none expires direction spec = none
  find_confirmation_bar bars (some from) none direction spec = none
  find_confirmation_bar bars (some from) (some expires) none spec = none
  find_confirmation_bar bars (some from) (some expires) (some direction) spec =
      if is_spec spec then first_confirmation from expires direction spec bars else none
