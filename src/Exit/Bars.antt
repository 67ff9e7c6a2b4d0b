-- ===== src/Exit/Bars.antt =====
-- src/agents/risk_mgmt/exit_bars.js: the walk over an open position's bars to the first one that touches its
-- stop or its target. Instants are numbers of milliseconds.

use news_market_ai.Common.{ℕ, Bool, true, false, not, ◌&&◌, ◌||◌, Option, none, some, if◌then◌else◌}
use news_market_ai.Exit.Numbers.{Numbers, Direction, long, short, lower, higher, Split}
use news_market_ai.Exit.Trailing.{Reason, Trailing, worse_by, better_by}

module _ (numbers : Numbers) where
  pub record Bar : Type 0 where
    -- `kind === "daily"`
    pub is_daily : Bool
    pub open_ms : ℕ
    pub available_at : ℕ
    pub open_price : numbers.Num
    pub high : numbers.Num
    pub low : numbers.Num
    pub close : numbers.Num

  -- `none` for the direction is one that is neither "long" nor "short".
  pub record Position : Type 0 where
    pub direction : Option Direction
    pub entry_price : numbers.Num
    pub stop_loss_pct : Option numbers.Num
    pub take_profit_pct : Option numbers.Num
    pub peak_price : Option numbers.Num

  pub record Options : Type 0 where
    pub split_guard_tolerance : numbers.Num
    pub trailing : Option (Trailing numbers)
    -- `dailyBothTouchedNearestOpen > 0`
    pub nearest_open : Bool

  pub record Exit : Type 0 where
    pub reason : Reason
    pub exit_price : numbers.Num
    pub closed_at : ℕ
    pub gapped : Bool
    pub bar : Bar
    pub ambiguous : Bool

  pub record Extremes : Type 0 where
    pub mae_pct : Option numbers.Num
    pub mfe_pct : Option numbers.Num

  -- What the walk counts.
  pub record Counted : Type 0 where
    pub extremes : Extremes
    pub last_bar_available_at : Option ℕ
    pub last_close : Option numbers.Num
    pub bars_walked : ℕ
    pub invalid_bars : ℕ
    pub peak : Option numbers.Num

  pub data Outcome : Type 0 where
    no_exit : Outcome
    exits : Exit → Outcome
    split_at : Split numbers → Bar → Outcome

  -- `isFiniteBar`
  unfoldable pub is_finite_bar : Bar → Bool
  is_finite_bar bar =
      numbers.is_finite bar.open_price
      && (numbers.is_finite bar.high
          && (numbers.is_finite bar.low
              && (numbers.is_finite bar.close && numbers.at_most bar.low bar.high)))

  -- A price at or past a level, against the position and in its favour.
  abbrev pub at_or_worse : Direction → numbers.Num → numbers.Num → Bool
  at_or_worse long price level = numbers.at_most price level
  at_or_worse short price level = numbers.at_most level price

  abbrev pub at_or_better : Direction → numbers.Num → numbers.Num → Bool
  at_or_better long price level = numbers.at_most level price
  at_or_better short price level = numbers.at_most price level

  abbrev pub adverse_price : Direction → Bar → numbers.Num
  adverse_price long bar = bar.low
  adverse_price short bar = bar.high

  abbrev pub favorable_price : Direction → Bar → numbers.Num
  favorable_price long bar = bar.high
  favorable_price short bar = bar.low

  abbrev pub worse_of : Direction → numbers.Num → numbers.Num → numbers.Num
  worse_of long a b = lower numbers a b
  worse_of short a b = higher numbers a b

  abbrev pub best_of : Direction → numbers.Num → numbers.Num → numbers.Num
  best_of long a b = higher numbers a b
  best_of short a b = lower numbers a b

  -- `bar.open_price < stop` of a long stop, `bar.open > target` of a long target, and the reverse of each
  abbrev pub is_past_stop : Direction → numbers.Num → numbers.Num → Bool
  is_past_stop long at stop = numbers.less at stop
  is_past_stop short at stop = numbers.less stop at

  abbrev pub is_past_target : Direction → numbers.Num → numbers.Num → Bool
  is_past_target long at target = numbers.less target at
  is_past_target short at target = numbers.less at target

  -- `targetResolvesFirst`
  unfoldable pub target_resolves_first : Direction → numbers.Num → numbers.Num → numbers.Num → Bool
  target_resolves_first direction at stop target =
      if at_or_worse direction at stop
      then false
      else if at_or_better direction at target
      then true
      else numbers.less (numbers.abs (numbers.minus target at))
          (numbers.abs (numbers.minus at stop))

  -- `exitLevels`, with a direction: the stop and the target.
  unfoldable pub exit_levels :
      Direction → Position → Option (Option numbers.Num × Option numbers.Num)
  exit_levels direction position =
      if not (numbers.is_finite position.entry_price)
        || numbers.at_most position.entry_price numbers.zero
      then none
      else some (
        map_usable (worse_by numbers direction position.entry_price) position.stop_loss_pct,
        map_usable (better_by numbers direction position.entry_price) position.take_profit_pct,
      )
    where
      map_usable : (numbers.Num → numbers.Num) → Option numbers.Num → Option numbers.Num
      map_usable f none = none
      map_usable f (some a) = if numbers.is_finite a then some (f a) else none
