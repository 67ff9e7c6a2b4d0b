-- ===== src/Entry/Step.antt =====
-- src/graph/bar_fill.js and src/graph/entry_fill.js: the step that fills, expires or keeps every pending entry.
use news_market_ai.Common.{
  ℕ, suc, String, Bool, true, false, not, ◌&&◌, ◌||◌, ◌==◌, keyed_string, Option, none, some, List,
  [], ◌∷◌, ◌++◌, map, contains, ltb, if◌then◌else◌,
}
use news_market_ai.Exit.Numbers.{Numbers, Direction, gross_return}
use news_market_ai.Exit.Bars.{Bar}
use news_market_ai.Book.{Row, Db, Decision, same_direction, is_null}
use news_market_ai.Book.Guards.{Thesis}
use news_market_ai.Book.Commit.{commit_thesis, is_pending}
use news_market_ai.Book.Lifecycle.{expire_pending_entry}
use news_market_ai.Book.Reads.{get_open_position_for_ticker_as_of, get_unsettled_replaced_positions}
use news_market_ai.Entry.{
  Fill, Spec, Confirmation, find_fill_bar, find_confirmation_bar, confirmation_spec_of,
  is_pending_entry_expired,
}

module _ (numbers : Numbers) where
  -- A fill, and the bar that confirmed it where it needed one.
  abbrev pub Filling : Type 0
  Filling = Fill numbers × Option (Confirmation numbers)

  abbrev pub with_no_confirmation : Option (Fill numbers) → Option Filling
  with_no_confirmation none = none
  with_no_confirmation (some fill) = some (fill, none)

  abbrev pub with_confirmation : Confirmation numbers → Option (Fill numbers) → Option Filling
  with_confirmation confirm none = none
  with_confirmation confirm (some fill) = some (fill, some confirm)

  -- `findFirstBarOpenAtOrAfter`, on the bars of its window
  unfoldable pub find_first_bar_open_at_or_after : List (Bar numbers) → Option ℕ → Option Filling
  unfolding find_fill_bar
  find_first_bar_open_at_or_after bars from = with_no_confirmation (find_fill_bar numbers bars from)

  abbrev pub fill_after : List (Bar numbers) → Option (Confirmation numbers) → Option Filling
  fill_after bars none = none
  fill_after bars (some confirm) =
      with_confirmation confirm (find_fill_bar numbers bars (some confirm.closed_at))

  -- `findConfirmedEntryFill`
  unfoldable pub find_confirmed_entry_fill :
      List (Bar numbers) → Option ℕ → Option ℕ → Option Direction → Spec numbers → Option Filling
  unfolding find_confirmation_bar find_fill_bar gross_return
  find_confirmed_entry_fill bars from expires direction spec =
      fill_after bars (find_confirmation_bar numbers bars from expires direction spec)

  -- A row of `listPendingEntriesAsOf`, by what the step reads of it. The commit's fields that a fill sets are
  -- those of `at_fill`.
  pub record Pending (D : Type 0) : Type 0 where
    pub thesis : Thesis numbers
    pub as_of : Option ℕ
    pub fill_expires_at : Option ℕ
    pub confirmation : Option (Spec numbers)
    pub content : D

  -- What a step reads and calls outside this file, where each call may throw: `none`, or `false` for one without
  -- an answer. `excursion` is `recordExcursionBeforeClose`, `check_exits` is `checkOpenPositionExits` with the
  -- ids that it closed, `settle` is `settlePositionOutcome`.
  pub record Engine (W D : Type 0) : Type 0 where
    -- The bars from an instant on that have closed by another.
    pub bars : String → Option ℕ → ℕ → W → Option (List (Bar numbers)) × W
    pub check_exits :
        String → ℕ → List (Row numbers) → W → Option (List String) × List (Row numbers) × W
    pub excursion :
        Row numbers → Fill numbers → List (Row numbers) → W → Bool × List (Row numbers) × W
    pub settle : Row numbers → W → Bool × W
    -- The theses that the decision memory has.
    pub settled : W → List String
    -- The content of a decision with the outcome of its confirmation.
    pub set_outcome : Spec numbers → Option Filling → D → D

  pub record State (W D S : Type 0) : Type 0 where
    pub db : Db numbers D S
    pub world : W

  pub record Filled : Type 0 where
    pub id : String
    pub ticker : String
    pub opened_at : ℕ

  -- What the step returns.
  pub record Report : Type 0 where
    pub filled : List Filled
    pub expired : List (String × String)
    pub waiting : ℕ

  -- A fill that opened before the deadline.
  abbrev pub in_time : Option ℕ → Option Filling → Option Filling
  in_time expires none = none
  in_time none (some filling) = none
  in_time (some expires) (some filling) =
      if ltb filling.0.opened_at expires then some filling else none

  module _ {D : Type 0} where
    abbrev pub search_fill : List (Bar numbers) → Pending D → Option (Spec numbers) → Option Filling
    search_fill bars p none = find_first_bar_open_at_or_after bars p.as_of
    search_fill bars p (some spec) =
        find_confirmed_entry_fill bars p.as_of p.fill_expires_at p.thesis.direction spec

    -- The fill of a pending entry, where there is one in time.
    unfoldable pub find_fill : List (Bar numbers) → Pending D → Option Filling
    unfolding find_first_bar_open_at_or_after find_confirmed_entry_fill confirmation_spec_of
        find_confirmation_bar find_fill_bar gross_return
    find_fill bars p =
        in_time p.fill_expires_at (search_fill bars p (confirmation_spec_of numbers p.confirmation))

    abbrev pub set_content : String → String → (D → D) → Decision D → Decision D
    set_content run id change d =
        if d.run_id == run && d.id == id && is_pending d.status
        then record d { content = change d.content }
        else d

    -- `recordEntryConfirmation`
    unfoldable pub record_entry_confirmation :
        String → String → (D → D) → List (Decision D) → List (Decision D)
    record_entry_confirmation run id change ds = map (set_content run id change) ds

    -- The commit's arguments at a fill.
    abbrev pub at_fill : Pending D → Fill numbers → Thesis numbers
    at_fill p fill = record p.thesis {
      entry_price = some fill.price;
      as_of = fill.opened_at;
      exit_price = some fill.price;
      drawdown_breaker_pct = numbers.zero;
      drawdown_breaker_window_days = none;
      trade_cost_bps = some numbers.zero;
    }

  -- `confidence < flipMinConfidence`, where a missing confidence counts as 0
  abbrev pub is_below_flip : Option numbers.Num → numbers.Num → Bool
  is_below_flip none minimum = numbers.less numbers.zero minimum
  is_below_flip (some confidence) minimum = numbers.less confidence minimum

  -- `heldByRule`
  abbrev pub is_held_by_rule : Row numbers → Thesis numbers → Bool
  is_held_by_rule existing t =
      not (is_null existing.direction)
      && (same_direction existing.direction t.direction
          || is_below_flip t.confidence t.flip_min_confidence)

  -- A throw ends what follows.
  abbrev pub and_then : {A : Type 0} → Bool × A → (A → Bool × A) → Bool × A
  and_then (false, a) next = (false, a)
  and_then (true, a) next = next a

  -- The loop that settles what a commit replaced
  abbrev pub settle_all : {W D : Type 0} → Engine W D → List (Row numbers) → W → Bool × W
  settle_all engine [] world = (true, world)
  settle_all engine (r ∷ rows) world =
      and_then (engine.settle r world) (λ after. settle_all engine rows after)

  -- Whether the step came to its end, and what it made of the state and the report.
  abbrev pub Stepped : Type 0 → Type 0 → Type 0 → Type 0
  Stepped W D S = Bool × State W D S × Report

  -- The entries that a throw left, the one that it broke off first; and the state and the report.
  abbrev pub Looped : Type 0 → Type 0 → Type 0 → Type 0
  Looped W D S = List (Pending D) × State W D S × Report

  abbrev pub add_filled : {D : Type 0} → Pending D → Fill numbers → Report → Report
  add_filled p fill report = record report {
    filled =
        report.filled
        ++ (record { id = p.thesis.id; ticker = p.thesis.ticker; opened_at = fill.opened_at } ∷ []);
  }

  module _ {W D S : Type 0} (engine : Engine W D) where
    abbrev pub set_positions : List (Row numbers) → W → State W D S → State W D S
    set_positions rows world st = record st {
      db = record st.db { positions = rows };
      world = world;
    }

    abbrev pub after_exit_check :
        Row numbers
        → Fill numbers
        → Option (List String) × List (Row numbers) × W
        → State W D S
        → Bool × State W D S
    after_exit_check existing fill (none, rows, world) st = (false, set_positions rows world st)
    after_exit_check existing fill (some ids, rows, world) st =
        let marked = engine.excursion existing fill rows world in
        if contains existing.id ids
        then (true, set_positions rows world st)
        else (marked.0, set_positions marked.1 marked.2 st)

    -- What comes before the commit, for a position that it may close.
    abbrev pub before_commit :
        Option (Row numbers) → Thesis numbers → Fill numbers → State W D S → Bool × State W D S
    before_commit none t fill st = (true, st)
    before_commit (some existing) t fill st =
        if existing.id == t.trade_thesis_id || is_held_by_rule existing t
        then (true, st)
        else after_exit_check existing fill
            (engine.check_exits t.ticker fill.opened_at st.db.positions st.world) st

    abbrev pub settle_replaced : Thesis numbers → State W D S → Bool × State W D S
    settle_replaced t st =
        let out =
          settle_all engine
            (get_unsettled_replaced_positions numbers t.run_id t.ticker t.as_of
              (engine.settled st.world) st.db.positions)
            st.world in
        (out.0, record st { world = out.1 })

    abbrev pub note_outcome :
        Option (Spec numbers) → Option Filling → Pending D → State W D S → State W D S
    note_outcome none filling p st = st
    note_outcome (some spec) filling p st = record st {
      db = record st.db {
        decisions =
            record_entry_confirmation p.thesis.run_id p.thesis.id (engine.set_outcome spec filling)
              st.db.decisions;
      };
    }

    abbrev pub commit_fill : Pending D → Fill numbers → State W D S → State W D S
    commit_fill p fill st = record st {
      db = commit_thesis numbers (at_fill p fill) p.content none st.db;
    }

    -- The commit of a fill and the settlement of what it replaced
    abbrev pub with_ready : Pending D → Fill numbers → Report → Bool × State W D S → Stepped W D S
    with_ready p fill report (false, st) = (false, st, report)
    with_ready p fill report (true, st) =
        let out = settle_replaced (at_fill p fill) (commit_fill p fill st) in
        (out.0, out.1, add_filled p fill report)

    -- The branch of an entry with a fill in time
    unfoldable pub fill_pending : Pending D → Filling → State W D S × Report → Stepped W D S
    unfolding record_entry_confirmation get_open_position_for_ticker_as_of commit_thesis
        get_unsettled_replaced_positions confirmation_spec_of
    fill_pending p filling (st, report) =
        let noted =
          note_outcome (confirmation_spec_of numbers p.confirmation) (some filling) p st in
        with_ready p filling.0 report (
          before_commit
            (get_open_position_for_ticker_as_of numbers p.thesis.run_id p.thesis.ticker
              filling.0.opened_at noted.db.positions)
            p.thesis filling.0 noted)

    -- The branch of an entry whose deadline has passed
    unfoldable pub expire_pending : Pending D → State W D S × Report → Stepped W D S
    unfolding record_entry_confirmation expire_pending_entry confirmation_spec_of
    expire_pending p (st, report) =
        let noted = note_outcome (confirmation_spec_of numbers p.confirmation) none p st in
        let written = expire_pending_entry p.thesis.run_id p.thesis.id noted.db.decisions in
        (
          true,
          record noted { db = record noted.db { decisions = written.1 } },
          if written.0
              then record report {
                expired = report.expired ++ ((p.thesis.id, p.thesis.ticker) ∷ []);
              }
              else report,
        )

    abbrev pub with_fill : Option Filling → ℕ → Pending D → State W D S × Report → Stepped W D S
    with_fill (some filling) as_of p done = fill_pending p filling done
    with_fill none as_of p done =
        if is_pending_entry_expired p.fill_expires_at (some as_of)
        then expire_pending p done
        else (true, done.0, record done.1 { waiting = suc done.1.waiting })

    abbrev pub with_bars :
        Option (List (Bar numbers)) → ℕ → Pending D → State W D S × Report → Stepped W D S
    with_bars none as_of p done = (false, done.0, done.1)
    with_bars (some bars) as_of p done = with_fill (find_fill bars p) as_of p done

    -- The body of the loop
    unfoldable pub step_pending : ℕ → Pending D → State W D S × Report → Stepped W D S
    unfolding find_fill fill_pending expire_pending is_pending_entry_expired
    step_pending as_of p (st, report) =
        let read = engine.bars p.thesis.ticker p.as_of as_of st.world in
        with_bars read.0 as_of p (record st { world = read.1 }, report)

    abbrev pub after_step :
        List (Pending D) → (State W D S × Report → Looped W D S) → Stepped W D S → Looped W D S
    after_step ps loop (true, st, report) = loop (st, report)
    after_step ps loop (false, st, report) = (ps, st, report)

    -- `fillPendingEntries`, on the entries that the store lists
    unfoldable pub fill_pending_entries : ℕ → List (Pending D) → State W D S × Report → Looped W D S
    unfolding step_pending
    fill_pending_entries as_of [] (st, report) = ([], st, report)
    fill_pending_entries as_of (p ∷ ps) done =
        after_step (p ∷ ps) (λ next. fill_pending_entries as_of ps next) (step_pending as_of p done)
