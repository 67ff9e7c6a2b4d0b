-- ===== src/Walk/Tests.antt =====
-- src/backtest/onSignalRunner.js: a window of two days and two tickers, walked in two invocations.
use news_market_ai.Common.{
  ℕ, zero, suc, ◌≡◌, refl, String, true, false, none, some, List, [], ◌∷◌, ◌++◌, length, arith,
}
use news_market_ai.Walk.{
  Item, Cursor, Ran, ran, threw, Engine, Window, out_of_budget, for_exhausted, Finished, item_done,
  exits_done, complete, paused, is_after_cursor_key, is_behind, walk_window,
}
use news_market_ai.Walk.Dates.{each_day, compute_walk_end, each_day-windows}
use news_market_ai.Walk.Schedule.{IsSorted, day_units}
use news_market_ai.Walk.Invocations.{
  Chain, completes, resumes, walk_window-units, WindowSpec, walk_window-WindowSpec,
}

abbrev first_item : Item
first_item = record { published_at = 5; id = 1 }

abbrev second_item : Item
second_item = record { published_at = 5; id = 2 }

abbrev two_items : String → ℕ → List Item
two_items ticker day = first_item ∷ second_item ∷ []

two_items-IsSorted : (t : String) (d : ℕ) → IsSorted (two_items t d)
unfolding is_after_cursor_key
two_items-IsSorted t d = ((refl, tt), (tt, tt))

-- Its state is the number of items that the invocation may still run.
abbrev run_counted : ℕ → Ran (Unit {0}) × ℕ
run_counted zero = (threw out_of_budget, 0)
run_counted (suc n) = (ran tt, n)

abbrev counted_engine : Engine ℕ
counted_engine = record {
  read_items = λ t d w. (ran (two_items t d), w);
  run_item = λ t x w. run_counted w;
  on_item_skipped = λ t d x w. (ran tt, w);
  run_exits = λ d w. (ran 0, w);
  nothing_left = λ d w. (some false, w);
  can_start = λ k w. true;
  mark = λ w. record { external = 0; total = 0 };
  record_unit = λ k c w. w;
}

abbrev two_days : Window
two_days = record {
  tickers = "AAPL" ∷ "MSFT" ∷ [];
  test_end = 101;
  is_last_window = true;
  budgeted = true;
  skips = false;
}

abbrev pause_point : Cursor
pause_point = record {
  day = 100;
  ticker = 1;
  after = some (record { published_at = 5; id = 1 });
  exits = false;
}

abbrev before_pause : List Finished
before_pause =
    item_done "AAPL" 100 first_item
    ∷ item_done "AAPL" 100 second_item
    ∷ item_done "MSFT" 100 first_item
    ∷ []

abbrev after_pause : List Finished
after_pause =
    item_done "MSFT" 100 second_item
    ∷ exits_done 100
    ∷ item_done "AAPL" 101 first_item
    ∷ item_done "AAPL" 101 second_item
    ∷ item_done "MSFT" 101 first_item
    ∷ item_done "MSFT" 101 second_item
    ∷ exits_done 101
    ∷ []

first_part :
    walk_window counted_engine two_days (100 ∷ 101 ∷ []) none 3
    ≡ (paused for_exhausted pause_point, (0, before_pause))
unfolding walk_window is_behind
first_part = refl

second_part :
    walk_window counted_engine two_days (100 ∷ 101 ∷ []) (some pause_point) 9
    ≡ (complete, (4, after_pause))
unfolding walk_window is_behind
second_part = refl

two_parts : Chain counted_engine two_days (100 ∷ 101 ∷ []) none 0 (before_pause ++ after_pause)
two_parts = resumes for_exhausted 3 0 first_part (completes 9 4 second_part)

walk_window-units_example :
    (rest : List ℕ) × (length rest ≡ 0)
    × (day_units two_items ("AAPL" ∷ "MSFT" ∷ []) (100 ∷ 101 ∷ [])
        ≡ (before_pause ++ after_pause) ++ day_units two_items ("AAPL" ∷ "MSFT" ∷ []) rest)
walk_window-units_example =
    walk_window-units counted_engine two_days two_items two_items-IsSorted (λ t d w. refl)
      (100 ∷ 101 ∷ []) (((omega arith, tt), (tt, tt))) two_parts

walk_window-WindowSpec_example :
    WindowSpec counted_engine two_days two_items two_items-IsSorted
      (100 ∷ 101 ∷ [])
      (some pause_point)
      (walk_window counted_engine two_days (100 ∷ 101 ∷ []) (some pause_point) 2)
walk_window-WindowSpec_example =
    walk_window-WindowSpec counted_engine two_days two_items two_items-IsSorted (λ t d w. refl)
      (100 ∷ 101 ∷ []) (some pause_point) 2 (((omega arith, tt), (tt, tt)))

each_day-windows_example :
    each_day 1767225600000 (compute_walk_end none 1767484800000 none none false)
      ++ each_day 1767484800000 1767700800000
    ≡ each_day 1767225600000 1767700800000
each_day-windows_example =
    each_day-windows none none none 1767225600000 1767484800000 1767700800000 (omega arith)
      (omega arith) (omega arith)
