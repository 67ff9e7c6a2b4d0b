-- ===== src/Walk/Whole.antt =====
-- src/backtest/onSignalRunner.js: the walk of a whole window, and a chain of walks, each resumed at the cursor
-- of the one before.
use mathlib.Core.List.{append_assoc}
use news_market_ai.Common.{
  ℕ, ◌≡◌, ◌∙◌, sym, refl, ap, String, Bool, true, false, not, ◌&&◌, Option, none, some, List, [],
  ◌∷◌, ◌++◌, arith, if◌then◌else◌, keyed_nat, drop, length, inl, inr, Bool-cases,
}
use news_market_ai.Walk.{
  Item, Key, Cursor, Ran, ran, threw, exits, Engine, Window, Stop, for_budget, Finished, exits_done,
  escape, Result, complete_early, paused, prepend, walk_tickers, check_exits, in_tail, after_exits,
  after_tail, after_tickers, at_day, items_done, walk_days,
}
use news_market_ai.Walk.Schedule.{IsSorted, ticker_units, day_units, units_left}
use news_market_ai.Walk.DayList.{IsAscending}
use news_market_ai.Walk.Days.{
  ReadsNews, TickersSpec, DaysSpec, walk_tickers-TickersSpec, units_left-past, DaysSpec-prepend,
  DaysSpec-before, stop_at-DaysSpec, units_left-exits, units_left-items, units_left-at_day,
}

abbrev item_cursor : ℕ → ℕ → Option Key → Cursor
item_cursor day index later = record { day = day; ticker = index; after = later; exits = false }

module _ {W : Type 0} (engine : Engine W) (window : Window) (news : String → ℕ → List Item)
    (sorted : (t : String) (d : ℕ) → IsSorted (news t d)) where
  abbrev pub Good : List ℕ → Cursor → Result × (W × List Finished) → Type 0
  Good days pos r = DaysSpec engine window news sorted days pos r

  if-Good :
      (c : Bool) (days : List ℕ) (pos : Cursor) (p q : Result × (W × List Finished))
      → Good days pos p
      → Good days pos q
      → Good days pos (if c then p else q)
  if-Good true days pos p q h k = h
  if-Good false days pos p q h k = k

  after_tail-Good :
      (days : List ℕ) (pos : Cursor) (r : Option Bool × W) (rest : W → Result × (W × List Finished))
      → units_left news window.tickers days pos ≡ day_units news window.tickers days
      → ((w : W) → Good days pos (rest w))
      → Good days pos (after_tail engine window days r rest)
  after_tail-Good days pos (none, w) rest u k = (units_left news window.tickers days pos, refl)
  after_tail-Good days pos (some left, w) rest u k =
      if-Good left days pos (complete_early (length days), (w, [])) (rest w) (days, refl, u) (k w)

  after_exits-Good :
      (day : ℕ) (days : List ℕ) (pos : Cursor) (r : Ran ℕ × W)
      (rest : W → Result × (W × List Finished))
      → IsAscending (day ∷ days)
      → pos.day ≡ day
      → pos.exits ≡ true
      → ((w : W) → Good days pos (rest w))
      → Good (day ∷ days) pos (after_exits engine window day days pos r rest)
  after_exits-Good day days pos (threw e, w) rest asc d x k =
      stop_at-DaysSpec engine window news sorted (escape e) day days pos pos w [] d refl
  after_exits-Good day days pos (ran waiting, w) rest asc d x k =
      let past = units_left-past engine window news sorted pos days (rw d asc.0) in
      let one =
        units_left-exits engine window news sorted day days pos d x
        ∙ ap (λ z. exits_done day ∷ z) (sym past) in
      if-Good (in_tail engine window day waiting days) (day ∷ days) pos
        (prepend (exits_done day ∷ [])
          (after_tail engine window days (engine.nothing_left day w) rest))
        (prepend (exits_done day ∷ []) (rest w))
        (DaysSpec-prepend engine window news sorted day days pos pos (exits_done day ∷ [])
          (after_tail engine window days (engine.nothing_left day w) rest) asc one
          (after_tail-Good days pos (engine.nothing_left day w) rest past k))
        (DaysSpec-prepend engine window news sorted day days pos pos (exits_done day ∷ []) (rest w)
          asc one (k w))

  -- What a day's tickers finished, where the day's units before its exit check are `units`.
  abbrev TriedDay :
      ℕ → List Finished → Option (Stop × ℕ × Option Key) × (W × List Finished) → Type 0
  TriedDay day units (none, (w, events)) = units ≡ events
  TriedDay day units (some (why, index, later), (w, events)) =
      units ≡ events ++ ticker_units news day (drop index window.tickers) later

  TickersSpec-TriedDay :
      (day : ℕ) (ts : List String) (after : Option Key)
      (r : Option (Stop × ℕ × Option Key) × (W × List Finished))
      → TickersSpec engine window news sorted day ts after r
      → TriedDay day (ticker_units news day ts after) r
  TickersSpec-TriedDay day ts after (none, (w, events)) h = h
  TickersSpec-TriedDay day ts after (some (why, index, later), (w, events)) h = h

  after_tickers-Good :
      (day : ℕ) (days : List ℕ) (at done : Cursor) (units : List Finished)
      (r : Option (Stop × ℕ × Option Key) × (W × List Finished))
      (rest : W → Result × (W × List Finished))
      → done.day ≡ day
      → done.exits ≡ true
      → units_left news window.tickers (day ∷ days) at
        ≡ units ++ (exits_done day ∷ day_units news window.tickers days)
      → TriedDay day units r
      → ((w : W) → Good (day ∷ days) done (rest w))
      → Good (day ∷ days) at (after_tickers engine window day done r rest)
  after_tickers-Good day days at done units (some (why, index, later), (w, events)) rest d x u t k =
      let c = item_cursor day index later in
      stop_at-DaysSpec engine window news sorted why day days at c w events refl (
        u
        ∙ ap (λ z. z ++ (exits_done day ∷ day_units news window.tickers days)) t
        ∙ append_assoc events (ticker_units news day (drop index window.tickers) later)
            (exits_done day ∷ day_units news window.tickers days)
        ∙ ap (λ z. events ++ z)
            (sym (units_left-items engine window news sorted day days c refl refl)))
  after_tickers-Good day days at done units (none, (w, events)) rest d x u t k =
      let left =
        u
        ∙ ap (λ z. z ++ (exits_done day ∷ day_units news window.tickers days)) t
        ∙ ap (λ z. events ++ z)
            (sym (units_left-exits engine window news sorted day days done d x)) in
      if-Good (window.budgeted && not (engine.can_start exits w)) (day ∷ days) at
        (paused for_budget done, (w, events)) (prepend events (rest w))
        (stop_at-DaysSpec engine window news sorted for_budget day days at done w events d left)
        (DaysSpec-before engine window news sorted (day ∷ days) at done events (rest w) left (k w))

  walk_day-TriedDay :
      ((t : String) (d : ℕ) (w : W)
        → ReadsNews engine window news sorted t d (engine.read_items t d w))
      → (day : ℕ) (days : List ℕ) (at : Cursor) (w : W) → at.day ≡ day
      → (units : List Finished) × (units_left news window.tickers (day ∷ days) at
          ≡ units ++ (exits_done day ∷ day_units news window.tickers days))
        × TriedDay day units (
            if at.exits
            then (none, (w, []))
            else walk_tickers engine window day at.ticker
                (drop at.ticker window.tickers)
                at.after
                w)
  walk_day-TriedDay reads day days at w d = elim (Bool-cases at.exits) [
    | inl x ↦ ([], units_left-exits engine window news sorted day days at d x, rw x refl)
    | inr x ↦ (
      ticker_units news day (drop at.ticker window.tickers) at.after,
      units_left-items engine window news sorted day days at d x,
      rw x (
          TickersSpec-TriedDay day (drop at.ticker window.tickers) at.after
            (walk_tickers engine window day at.ticker (drop at.ticker window.tickers) at.after w)
            (walk_tickers-TickersSpec engine window news sorted reads day at.ticker
              (drop at.ticker window.tickers) at.after w refl)),
    )
  ]

  at_day-day : (day : ℕ) (pos : Cursor) → (at_day day pos).day ≡ day
  at_day-day day pos = ground arith

  items_done-day : (pos : Cursor) (ts : List String) → (items_done pos ts).day ≡ pos.day
  items_done-day pos ts = ground arith

  items_done-exits : (pos : Cursor) (ts : List String) → (items_done pos ts).exits ≡ true
  items_done-exits pos ts = ground arith

  pub walk_days-Good :
      ((t : String) (d : ℕ) (w : W)
        → ReadsNews engine window news sorted t d (engine.read_items t d w))
      → (days : List ℕ) (pos : Cursor) (w : W) → IsAscending days
      → Good days pos (walk_days engine window days pos w)
  unfolding walk_days units_left
  walk_days-Good reads [] pos w asc = refl
  walk_days-Good reads (day ∷ days) pos w asc =
      let at = at_day day pos in
      let done = items_done at window.tickers in
      let d = items_done-day at window.tickers ∙ at_day-day day pos in
      let (units, u, t) = walk_day-TriedDay reads day days at w (at_day-day day pos) in
      after_tickers-Good day days pos done units
        (if at.exits
          then (none, (w, []))
          else walk_tickers engine window day at.ticker (drop at.ticker window.tickers) at.after w)
        (λ v.
          after_exits engine window day days done (check_exits engine window day v)
            (λ v'. walk_days engine window days done v'))
        d (items_done-exits at window.tickers)
        (units_left-at_day engine window news sorted day days pos ∙ u) t
        (λ v.
          after_exits-Good day days done (check_exits engine window day v)
            (λ v'. walk_days engine window days done v') asc d (items_done-exits at window.tickers)
            (λ v'. walk_days-Good reads days done v' asc.1))
