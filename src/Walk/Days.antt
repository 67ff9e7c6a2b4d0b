-- ===== src/Walk/Days.antt =====
-- src/backtest/onSignalRunner.js: what the walk over tickers and days finished and what its cursor leaves
-- make up what was left before it.
use mathlib.Core.List.{append_assoc}
use news_market_ai.Common.{
  ℕ, zero, suc, ◌+◌, ◌≤◌, ◌≡◌, ◌∙◌, sym, refl, ap, String, true, false, Option, none, some, List,
  [], ◌∷◌, ◌++◌, arith, keyed_nat, All, drop, length,
}
use news_market_ai.Walk.{
  Item, Key, Cursor, Ran, ran, threw, Engine, Window, Stop, for_budget, for_exhausted,
  for_transient, throws, Finished, exits_done, Result, complete, complete_early, paused, failed,
  unknown_day, prepend, walk_items, after_items, after_read, walk_tickers, stop_at, at_day,
  from_day,
}
use news_market_ai.Walk.Schedule.{
  IsSorted, pending, item_units, ticker_units, day_units, units_left,
}
use news_market_ai.Walk.DayList.{IsAscending, from_day-past, from_day-first}
use news_market_ai.Walk.Resume.{ItemsSpec, walk_items-ItemsSpec}

drop-next {ℓ} :
    {A : Type ℓ}
    → (n : ℕ) (all : List A) (x : A) (xs : List A) → drop n all ≡ x ∷ xs
    → drop (suc n) all ≡ xs
drop-next zero (y ∷ ys) x xs h = cc
drop-next (suc n) [] x xs h = cc
drop-next (suc n) (y ∷ ys) x xs h = drop-next n ys x xs h
drop-next zero [] x xs h = cc

next : (n : ℕ) → n + 1 ≡ suc n
next n = omega arith

drop-after {ℓ} :
    {A : Type ℓ}
    → (n : ℕ) (all : List A) (x : A) (xs : List A) → drop n all ≡ x ∷ xs
    → drop (n + 1) all ≡ xs
drop-after n all x xs h = ap (λ k. drop k all) (next n) ∙ drop-next n all x xs h

module _ {W : Type 0} (engine : Engine W) (window : Window) (news : String → ℕ → List Item)
    (sorted : (t : String) (d : ℕ) → IsSorted (news t d)) where
  -- A read that answers, answers with the news.
  abbrev pub ReadsNews : String → ℕ → Ran (List Item) × W → Type 0
  ReadsNews ticker day (ran its, w) = its ≡ news ticker day
  ReadsNews ticker day (threw e, w) = Unit

  abbrev pub TickersSpec :
      ℕ → List String → Option Key → Option (Stop × ℕ × Option Key) × (W × List Finished) → Type 0
  TickersSpec day ts after (none, (w, events)) = ticker_units news day ts after ≡ events
  TickersSpec day ts after (some (why, index, later), (w, events)) =
      ticker_units news day ts after
      ≡ events ++ ticker_units news day (drop index window.tickers) later

  TickersSpec-prepend :
      (day : ℕ) (t : String) (ts : List String) (after : Option Key) (before : List Finished)
      (r : Option (Stop × ℕ × Option Key) × (W × List Finished))
      → item_units t day (pending after (news t day)) ≡ before
      → TickersSpec day ts none r
      → TickersSpec day (t ∷ ts) after (prepend before r)
  unfolding ticker_units
  TickersSpec-prepend day t ts after before (none, (w, events)) b h = rw (b, h) refl
  TickersSpec-prepend day t ts after before (some (why, index, later), (w, events)) b h =
      rw (b, h)
        (sym (append_assoc before events (ticker_units news day (drop index window.tickers) later)))

  after_items-TickersSpec :
      (day index : ℕ) (t : String) (ts : List String) (after : Option Key)
      (r : Option (Stop × Option Key) × (W × List Finished))
      (rest : W → Option (Stop × ℕ × Option Key) × (W × List Finished))
      → drop index window.tickers ≡ t ∷ ts
      → ItemsSpec engine window t day (news t day) after r
      → ((w : W) → TickersSpec day ts none (rest w))
      → TickersSpec day (t ∷ ts) after (after_items engine window index r rest)
  unfolding ticker_units
  after_items-TickersSpec day index t ts after (none, (w, events)) rest at h k =
      TickersSpec-prepend day t ts after events (rest w) h (k w)
  after_items-TickersSpec day index t ts after (some (why, later), (w, events)) rest at h k =
      rw (at, h.0)
        (append_assoc events (item_units t day (pending later (news t day)))
          (ticker_units news day ts none))

  after_read-TickersSpec :
      (day index : ℕ) (t : String) (ts : List String) (after : Option Key) (r : Ran (List Item) × W)
      (rest : W → Option (Stop × ℕ × Option Key) × (W × List Finished))
      → drop index window.tickers ≡ t ∷ ts
      → ReadsNews t day r
      → ((w : W) → TickersSpec day ts none (rest w))
      → TickersSpec day (t ∷ ts) after (after_read engine window t day index after r rest)
  after_read-TickersSpec day index t ts after (threw e, w) rest at h k = rw at refl
  after_read-TickersSpec day index t ts after (ran its, w) rest at h k = rw h (
      after_items-TickersSpec day index t ts after
        (walk_items engine window t day (news t day) after w) rest at
        (walk_items-ItemsSpec engine window t day (news t day) after w (sorted t day)) k)

  pub walk_tickers-TickersSpec :
      ((t : String) (d : ℕ) (w : W) → ReadsNews t d (engine.read_items t d w))
      → (day index : ℕ) (ts : List String) (after : Option Key) (w : W)
      → drop index window.tickers ≡ ts
      → TickersSpec day ts after (walk_tickers engine window day index ts after w)
  unfolding walk_tickers ticker_units
  walk_tickers-TickersSpec reads day index [] after w at = refl
  walk_tickers-TickersSpec reads day index (t ∷ ts) after w at =
      after_read-TickersSpec day index t ts after (engine.read_items t day w)
        (λ v. walk_tickers engine window day (index + 1) ts none v) at (reads t day w)
        (λ v.
          walk_tickers-TickersSpec reads day (index + 1) ts none v
            (drop-after index window.tickers t ts at))

  -- What the walk of the days finished, and what is left at its cursor or past its early end. A
  -- cursor's day is no earlier than the first day.
  abbrev pub DaysSpec : List ℕ → Cursor → Result × (W × List Finished) → Type 0
  DaysSpec days pos (complete, (w, events)) = units_left news window.tickers days pos ≡ events
  DaysSpec days pos (complete_early skipped, (w, events)) =
      (rest : List ℕ) × (length rest ≡ skipped)
      × (units_left news window.tickers days pos ≡ events ++ day_units news window.tickers rest)
  DaysSpec days pos (paused why later, (w, events)) =
      (units_left news window.tickers days pos
        ≡ events ++ units_left news window.tickers (from_day later.day days) later)
      × ((d : ℕ) → All (λ e. d ≤ e) days → d ≤ later.day)
  DaysSpec days pos (failed e, (w, events)) =
      (rest : List Finished) × (units_left news window.tickers days pos ≡ events ++ rest)
  DaysSpec days pos (unknown_day, (w, events)) = Unit

  -- A day before all the days that are left counts for none of them.
  pub units_left-past :
      (pos : Cursor) (days : List ℕ)
      → All (λ e. suc pos.day ≤ e) days
      → units_left news window.tickers days pos ≡ day_units news window.tickers days
  unfolding units_left day_units
  units_left-past pos [] h = refl
  units_left-past pos (d ∷ ds) h = ground arith

  -- A day's units before what the rest of the walk finished.
  pub DaysSpec-prepend :
      (day : ℕ) (days : List ℕ) (pos at : Cursor) (before : List Finished)
      (r : Result × (W × List Finished))
      → IsAscending (day ∷ days)
      → units_left news window.tickers (day ∷ days) pos
        ≡ before ++ units_left news window.tickers days at
      → DaysSpec days at r
      → DaysSpec (day ∷ days) pos (prepend before r)
  DaysSpec-prepend day days pos at before (complete, (w, events)) asc b h = rw (b, h) refl
  DaysSpec-prepend day days pos at before (complete_early n, (w, events)) asc b (rest, l, h) = (
    rest,
    l,
    b
        ∙ ap (λ z. before ++ z) h
        ∙ sym (append_assoc before events (day_units news window.tickers rest)),
  )
  DaysSpec-prepend day days pos at before (paused why later, (w, events)) asc b h = (
    b
        ∙ ap (λ z. before ++ z) h.0
        ∙ sym (
            append_assoc before events
              (units_left news window.tickers (from_day later.day days) later))
        ∙ ap (λ ds. (before ++ events) ++ units_left news window.tickers ds later)
            (sym (from_day-past later.day day days (h.1 (suc day) asc.0))),
    λ d k. h.1 d k.1,
  )
  DaysSpec-prepend day days pos at before (failed e, (w, events)) asc b (rest, h) =
      (rest, b ∙ ap (λ z. before ++ z) h ∙ sym (append_assoc before events rest))
  DaysSpec-prepend day days pos at before (unknown_day, (w, events)) asc b h = tt

  -- The same, on the same days.
  pub DaysSpec-before :
      (days : List ℕ) (pos at : Cursor) (before : List Finished) (r : Result × (W × List Finished))
      → units_left news window.tickers days pos ≡ before ++ units_left news window.tickers days at
      → DaysSpec days at r
      → DaysSpec days pos (prepend before r)
  DaysSpec-before days pos at before (complete, (w, events)) b h = rw (b, h) refl
  DaysSpec-before days pos at before (complete_early n, (w, events)) b (rest, l, h) = (
    rest,
    l,
    b
        ∙ ap (λ z. before ++ z) h
        ∙ sym (append_assoc before events (day_units news window.tickers rest)),
  )
  DaysSpec-before days pos at before (paused why later, (w, events)) b h = (
    b
        ∙ ap (λ z. before ++ z) h.0
        ∙ sym (
            append_assoc before events
              (units_left news window.tickers (from_day later.day days) later)),
    h.1,
  )
  DaysSpec-before days pos at before (failed e, (w, events)) b (rest, h) =
      (rest, b ∙ ap (λ z. before ++ z) h ∙ sym (append_assoc before events rest))
  DaysSpec-before days pos at before (unknown_day, (w, events)) b h = tt

  -- A stop on the first day, by its cursor.
  pub stop_at-DaysSpec :
      (why : Stop) (day : ℕ) (days : List ℕ) (pos later : Cursor) (w : W) (events : List Finished)
      → later.day ≡ day
      → units_left news window.tickers (day ∷ days) pos
        ≡ events ++ units_left news window.tickers (day ∷ days) later
      → DaysSpec (day ∷ days) pos (stop_at why later, (w, events))
  stop_at-DaysSpec for_budget day days pos later w events e h =
      (rw (from_day-first later.day day days e) h, λ d k. rw e k.0)
  stop_at-DaysSpec for_exhausted day days pos later w events e h =
      (rw (from_day-first later.day day days e) h, λ d k. rw e k.0)
  stop_at-DaysSpec (for_transient retry) day days pos later w events e h =
      (rw (from_day-first later.day day days e) h, λ d k. rw e k.0)
  stop_at-DaysSpec (throws _) day days pos later w events e h =
      (units_left news window.tickers (day ∷ days) later, h)

  pub units_left-exits :
      (day : ℕ) (days : List ℕ) (pos : Cursor)
      → pos.day ≡ day
      → pos.exits ≡ true
      → units_left news window.tickers (day ∷ days) pos
        ≡ exits_done day ∷ day_units news window.tickers days
  unfolding units_left
  units_left-exits day days pos e x = ground arith

  pub units_left-items :
      (day : ℕ) (days : List ℕ) (pos : Cursor)
      → pos.day ≡ day
      → pos.exits ≡ false
      → units_left news window.tickers (day ∷ days) pos
        ≡ ticker_units news day (drop pos.ticker window.tickers) pos.after
          ++ (exits_done day ∷ day_units news window.tickers days)
  unfolding units_left
  units_left-items day days pos e x = ground arith

  pub units_left-at_day :
      (day : ℕ) (days : List ℕ) (pos : Cursor)
      → units_left news window.tickers (day ∷ days) pos
        ≡ units_left news window.tickers (day ∷ days) (at_day day pos)
  unfolding units_left day_units
  units_left-at_day day days pos = ground arith
