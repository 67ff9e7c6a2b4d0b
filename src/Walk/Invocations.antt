-- ===== src/Walk/Invocations.antt =====
-- src/backtest/onSignalRunner.js: a chain of invocations of the walk, each resumed at the cursor of the one
-- before, makes up the schedule of the window.
use mathlib.Core.List.{append_assoc, append-nil}
use mathlib.Core.Path.{subst}
use news_market_ai.Common.{
  ℕ, ◌≡◌, ◌∙◌, sym, refl, ap, String, Option, none, some, List, [], ◌∷◌, ◌++◌, arith, keyed_nat,
  length,
}
use news_market_ai.Walk.{
  Item, Cursor, Engine, Window, Stop, Finished, Result, complete, complete_early, paused, failed,
  unknown_day, walk_days, from_day, start_of, walk_found, walk_window,
}
use news_market_ai.Walk.Schedule.{IsSorted, day_units, units_left}
use news_market_ai.Walk.Days.{ReadsNews, DaysSpec}
use news_market_ai.Walk.DayList.{
  IsAscending, IsAscending-All, from_day-IsAscending, from_day-head, from_day-from_day,
}
use news_market_ai.Walk.Whole.{walk_days-Good}

module _ {W : Type 0} (engine : Engine W) (window : Window) (news : String → ℕ → List Item)
    (sorted : (t : String) (d : ℕ) → IsSorted (news t d)) where
  -- What is left of a window at a cursor, and at its start.
  abbrev pub window_units : List ℕ → Option Cursor → List Finished
  window_units days none = day_units news window.tickers days
  window_units days (some pos) = units_left news window.tickers (from_day pos.day days) pos

  -- What an invocation finished, and what it leaves.
  abbrev pub WindowSpec : List ℕ → Option Cursor → Result × (W × List Finished) → Type 0
  WindowSpec days at (complete, (w, events)) = window_units days at ≡ events
  WindowSpec days at (complete_early skipped, (w, events)) =
      (rest : List ℕ) × (length rest ≡ skipped)
      × (window_units days at ≡ events ++ day_units news window.tickers rest)
  WindowSpec days at (paused why later, (w, events)) =
      window_units days at ≡ events ++ window_units days (some later)
  WindowSpec days at (failed e, (w, events)) =
      (rest : List Finished) × (window_units days at ≡ events ++ rest)
  WindowSpec days at (unknown_day, (w, events)) = Unit

  start-WindowSpec :
      (days : List ℕ) (pos : Cursor) (r : Result × (W × List Finished))
      → units_left news window.tickers days pos ≡ day_units news window.tickers days
      → DaysSpec engine window news sorted days pos r
      → WindowSpec days none r
  start-WindowSpec days pos (complete, (w, events)) u h = sym u ∙ h
  start-WindowSpec days pos (complete_early n, (w, events)) u (rest, l, h) = (rest, l, sym u ∙ h)
  start-WindowSpec days pos (paused why later, (w, events)) u h = sym u ∙ h.0
  start-WindowSpec days pos (failed e, (w, events)) u (rest, h) = (rest, sym u ∙ h)
  start-WindowSpec days pos (unknown_day, (w, events)) u h = tt

  resumed-WindowSpec :
      (days : List ℕ) (pos : Cursor) (d : ℕ) (ds : List ℕ) (r : Result × (W × List Finished))
      → IsAscending days
      → from_day pos.day days ≡ d ∷ ds
      → DaysSpec engine window news sorted (d ∷ ds) pos r
      → WindowSpec days (some pos) r
  resumed-WindowSpec days pos d ds (complete, (w, events)) asc e h = rw e h
  resumed-WindowSpec days pos d ds (complete_early n, (w, events)) asc e (rest, l, h) =
      (rest, l, rw e h)
  resumed-WindowSpec days pos d ds (paused why later, (w, events)) asc e h =
      let first = from_day-head pos.day days d ds e in
      let ascending = subst (λ l. IsAscending l) e (from_day-IsAscending pos.day days asc) in
      let before = h.1 d (IsAscending-All d ds ascending) in
      let same =
        ap (from_day later.day) (sym e)
        ∙ from_day-from_day pos.day later.day days d ds asc e (rw first before) in
      ap (λ l. units_left news window.tickers l pos) e
      ∙ h.0
      ∙ ap (λ l. events ++ units_left news window.tickers l later) same
  resumed-WindowSpec days pos d ds (failed e, (w, events)) asc e' (rest, h) = (rest, rw e' h)
  resumed-WindowSpec days pos d ds (unknown_day, (w, events)) asc e h = tt

  walk_found-WindowSpec :
      ((t : String) (d : ℕ) (w : W)
        → ReadsNews engine window news sorted t d (engine.read_items t d w))
      → (days : List ℕ) (pos : Cursor) (found : List ℕ) (w : W) → IsAscending days
      → from_day pos.day days ≡ found
      → WindowSpec days (some pos) (walk_found engine window found pos w)
  walk_found-WindowSpec reads days pos [] w asc e = tt
  walk_found-WindowSpec reads days pos (d ∷ ds) w asc e =
      resumed-WindowSpec days pos d ds (walk_days engine window (d ∷ ds) pos w) asc e (
        walk_days-Good engine window news sorted reads (d ∷ ds) pos w
          (subst (λ l. IsAscending l) e (from_day-IsAscending pos.day days asc)))

  start_of-units :
      (days : List ℕ)
      → units_left news window.tickers days (start_of days) ≡ day_units news window.tickers days
  unfolding units_left day_units
  start_of-units [] = refl
  start_of-units (d ∷ ds) = ground arith

  -- What one invocation finished is the whole of what was left at its cursor when it completes, all but
  -- the days it counts as skipped when it ends early, and with what its own cursor leaves the whole
  -- when it pauses; on a thrown error it is a beginning of what was left. This takes ascending days,
  -- news sorted by (published_at, id) and reads that answer with the news.
  pub walk_window-WindowSpec :
      ((t : String) (d : ℕ) (w : W)
        → ReadsNews engine window news sorted t d (engine.read_items t d w))
      → (days : List ℕ) (at : Option Cursor) (w : W) → IsAscending days
      → WindowSpec days at (walk_window engine window days at w)
  unfolding walk_window
  walk_window-WindowSpec reads days none w asc =
      start-WindowSpec days (start_of days) (walk_days engine window days (start_of days) w)
        (start_of-units days)
        (walk_days-Good engine window news sorted reads days (start_of days) w asc)
  walk_window-WindowSpec reads days (some pos) w asc =
      walk_found-WindowSpec reads days pos (from_day pos.day days) w asc refl

-- A chain of invocations from a cursor, the last of which completes: the days that it skips, and all that
-- the chain finished. Any state may stand between two of them.
pub data Chain {W : Type 0} (engine : Engine W) (window : Window) (days : List ℕ)
    : Option Cursor → ℕ → List Finished → Type 0 where
  completes :
      {at : Option Cursor} {events : List Finished} (w w' : W)
      → walk_window engine window days at w ≡ (complete, (w', events))
      → Chain engine window days at 0 events
  completes_early :
      {at : Option Cursor} {skipped : ℕ} {events : List Finished} (w w' : W)
      → walk_window engine window days at w ≡ (complete_early skipped, (w', events))
      → Chain engine window days at skipped events
  resumes :
      {at : Option Cursor} {later : Cursor} {skipped : ℕ} {events rest : List Finished} (why : Stop)
      (w w' : W)
      → walk_window engine window days at w ≡ (paused why later, (w', events))
      → Chain engine window days (some later) skipped rest
      → Chain engine window days at skipped (events ++ rest)

module _ {W : Type 0} (engine : Engine W) (window : Window) (news : String → ℕ → List Item)
    (sorted : (t : String) (d : ℕ) → IsSorted (news t d)) where
  Chain-units :
      ((t : String) (d : ℕ) (w : W)
        → ReadsNews engine window news sorted t d (engine.read_items t d w))
      → (days : List ℕ) → IsAscending days
      → {at : Option Cursor} {skipped : ℕ} {events : List Finished}
      → Chain engine window days at skipped events
      → (rest : List ℕ) × (length rest ≡ skipped)
        × (window_units engine window news sorted days at
            ≡ events ++ day_units news window.tickers rest)
  unfolding day_units
  Chain-units reads days asc {at} {events = events} (completes w w' e) = (
    [],
    refl,
    subst (λ r. WindowSpec engine window news sorted days at r) e
          (walk_window-WindowSpec engine window news sorted reads days at w asc)
        ∙ sym (append-nil events),
  )
  Chain-units reads days asc {at} (completes_early w w' e) =
      subst (λ r. WindowSpec engine window news sorted days at r) e
        (walk_window-WindowSpec engine window news sorted reads days at w asc)
  Chain-units reads days asc {at} (resumes {later} {events} {rest} why w w' e chain) =
      let one =
        subst (λ r. WindowSpec engine window news sorted days at r) e
          (walk_window-WindowSpec engine window news sorted reads days at w asc) in
      let (left, l, h) = Chain-units reads days asc chain in
      (
        left,
        l,
        one
            ∙ ap (λ z. events ++ z) h
            ∙ sym (append_assoc events rest (day_units news window.tickers left)),
      )

  -- A window walked by any chain of invocations, wherever the pauses fell and whatever happened in
  -- between, finished each item of each ticker of each day, then that day's exit check, exactly once
  -- and in this order, up to the days that an early end of the grace tail skipped. This takes ascending
  -- days, news sorted by (published_at, id) and reads that answer with the news.
  pub walk_window-units :
      ((t : String) (d : ℕ) (w : W)
        → ReadsNews engine window news sorted t d (engine.read_items t d w))
      → (days : List ℕ) → IsAscending days
      → {skipped : ℕ} {events : List Finished} → Chain engine window days none skipped events
      → (rest : List ℕ) × (length rest ≡ skipped)
        × (day_units news window.tickers days ≡ events ++ day_units news window.tickers rest)
  walk_window-units reads days asc chain = Chain-units reads days asc chain
