-- ===== src/Exit/Tests.antt =====
-- src/agents/risk_mgmt: positions and bars of small numbers, where prices and fractions are whole hundredths.
use news_market_ai.Common.{
  ℕ, ◌⊎◌, ◌+◌, ◌-◌, ◌*◌, ◌/◌, ◌≤◌, ◌<◌, ◌≡◌, refl, true, false, none, some, List, [], ◌∷◌, ltb, leb,
  arith, codes, if◌then◌else◌,
}
use news_market_ai.Exit.{
  is_seven_day, trading_days_between, calendar_days_covering, time_exit_due_at, count_days, due_day,
}
use news_market_ai.Exit.Due.{time_exit_due_at-first}
use news_market_ai.Exit.Numbers.{Numbers, long, detect_split_jump, gross_return}
use news_market_ai.Exit.Trailing.{
  stop_loss, time_based, trailing_stop, Trailing, ratcheted_stop, worse_by, more_protective,
}
use news_market_ai.Exit.Bars.{Bar, Position, Options, Exit, Counted, exits, is_finite_bar}
use news_market_ai.Exit.Walk.{step_bar, walk_bars, first_counted, levels_at, count_bar, hits_stop}
use news_market_ai.Exit.Walked.{WalkedSpec, walk_bars-WalkedSpec}
use news_market_ai.Exit.Decided.{decides, find, deciding_bar, walk_bars-first}
use news_market_ai.Exit.Fill.{InRange, walk_bars-exit_price}
use news_market_ai.Exit.Ratchet.{ratcheted_stop-tightens}
use news_market_ai.Exit.Evaluate.{Open, Check, evaluate_exit, evaluate_exit-due}

-- From Thursday 2026-01-01 to Thursday 2026-01-15.
two_weeks : trading_days_between (some 20454) (some 20468) none ≡ some 10
unfolding trading_days_between count_days is_seven_day
two_weeks = refl

first_week : trading_days_between (some 20454) (some 20461) none ≡ some 5
unfolding trading_days_between count_days is_seven_day
first_week = refl

second_week : trading_days_between (some 20461) (some 20468) none ≡ some 5
unfolding trading_days_between count_days is_seven_day
second_week = refl

crypto_two_weeks : trading_days_between (some 20454) (some 20468) (some (codes "btcusd")) ≡ some 14
unfolding trading_days_between count_days is_seven_day
crypto_two_weeks = refl

due_in_two_weeks : time_exit_due_at (some 20454) 10 none ≡ some 20468
unfolding time_exit_due_at due_day calendar_days_covering is_seven_day
due_in_two_weeks = refl

time_exit_due_at-first_example :
    (due : ℕ) × (time_exit_due_at (some 20454) 10 none ≡ some due)
    × (20454 < due)
    × (due ≤ 20454 + calendar_days_covering 10)
    × ((as_of count : ℕ)
        → trading_days_between (some 20454) (some as_of) none ≡ some count
        → leb 10 count ≡ leb due as_of)
time_exit_due_at-first_example = time_exit_due_at-first 20454 10 none (omega arith) (omega arith)

abbrev hundredths : Numbers
hundredths = record {
  Num = ℕ;
  is_finite = λ a. ltb a 1000000;
  zero = 0;
  one = 100;
  of_nat = λ n. n * 100;
  plus = λ a b. a + b;
  minus = λ a b. a - b;
  times = λ a b. a * b / 100;
  over = λ a b. a * 100 / b;
  abs = λ a. a;
  less = ltb;
  at_most = leb;
}

less_at_most : (a b : ℕ) → ltb a b ≡ true → leb a b ≡ true
less_at_most a b h = ground arith

at_most_trans : (a b c : ℕ) → leb a b ≡ true → leb b c ≡ true → leb a c ≡ true
at_most_trans a b c h k = ground arith

less_trans : (a b c : ℕ) → ltb a b ≡ true → ltb b c ≡ true → ltb a c ≡ true
less_trans a b c h k = ground arith

abbrev held_check : Check hundredths
held_check = record {
  current_price = some 50;
  as_of = some 20470;
  max_hold_days = some 10;
  skip_price_exits = true;
}

abbrev held_position : Open hundredths
held_position = record {
  direction = some long;
  entry_price = some 100;
  stop_loss_pct = some 5;
  take_profit_pct = some 10;
  opened_at = some 20454;
  ticker = none;
}

evaluate_exit-due_example :
    (due : ℕ) × (time_exit_due_at (some 20454) 10 none ≡ some due)
    × (evaluate_exit hundredths held_position held_check
        ≡ (if leb due 20470 then some time_based else none))
evaluate_exit-due_example =
    evaluate_exit-due hundredths held_position held_check 20454 20470 10 refl refl refl refl
      (omega arith) (omega arith)

abbrev bar_at : ℕ → ℕ → ℕ → ℕ → ℕ → Bar hundredths
bar_at time first top bottom last = record {
  is_daily = false;
  open_ms = time;
  available_at = time + 5;
  open_price = first;
  high = top;
  low = bottom;
  close = last;
}

abbrev long_position : Position hundredths
long_position = record {
  direction = some long;
  entry_price = 100;
  stop_loss_pct = some 5;
  take_profit_pct = some 10;
  peak_price = none;
}

abbrev static_options : Options hundredths
static_options = record { split_guard_tolerance = 0; trailing = none; nearest_open = false }

abbrev quiet_bar : Bar hundredths
quiet_bar = bar_at 0 101 104 98 99

abbrev gap_bar : Bar hundredths
gap_bar = bar_at 5 93 94 90 92

abbrev late_bar : Bar hundredths
late_bar = bar_at 10 92 120 91 110

abbrev three_bars : List (Bar hundredths)
three_bars = quiet_bar ∷ gap_bar ∷ late_bar ∷ []

abbrev gap_exit : Exit hundredths
gap_exit = record {
  reason = stop_loss;
  exit_price = 93;
  closed_at = 10;
  gapped = true;
  bar = gap_bar;
  ambiguous = false;
}

abbrev after_gap : Counted hundredths
after_gap =
    (walk_bars hundredths long long_position static_options (some 95) (some 110) three_bars
      (first_counted hundredths none)).1

gap_run :
    walk_bars hundredths long long_position static_options
      (some 95)
      (some 110)
      three_bars
      (first_counted hundredths none)
    ≡ (exits gap_exit, after_gap)
unfolding walk_bars step_bar is_finite_bar detect_split_jump levels_at hits_stop count_bar
gap_run = refl

walk_bars-exit_price_example : InRange hundredths less_at_most at_most_trans gap_bar 93
walk_bars-exit_price_example =
    walk_bars-exit_price hundredths less_at_most at_most_trans long long_position static_options
      (some 95) (some 110) three_bars (first_counted hundredths none) after_gap gap_exit gap_run
      (refl, refl)

walk_bars-WalkedSpec_example : WalkedSpec hundredths three_bars (first_counted hundredths none) (
    walk_bars hundredths long long_position static_options
      (some 95)
      (some 110)
      three_bars
      (first_counted hundredths none))
walk_bars-WalkedSpec_example =
    walk_bars-WalkedSpec hundredths long long_position static_options (some 95) (some 110)
      three_bars (first_counted hundredths none)

walk_bars-first_example :
    deciding_bar hundredths
      (walk_bars hundredths long long_position static_options
        (some 95)
        (some 110)
        three_bars
        (first_counted hundredths none)).0
    ≡ find hundredths
        (decides hundredths long long_position static_options (some 95) (some 110))
        three_bars
walk_bars-first_example =
    walk_bars-first hundredths long long_position static_options refl (some 95) (some 110)
      three_bars (first_counted hundredths none)

abbrev trail_on : Trailing hundredths
trail_on = record {
  break_even_trigger_r = 0;
  trail_activation_r = 100;
  trail_distance_r = 100;
  trail_removes_target = true;
  cost_fraction = 0;
}

trailed :
    ratcheted_stop hundredths long 100 (some 5) (some 120) trail_on ≡ some (114, trailing_stop)
unfolding ratcheted_stop gross_return
trailed = refl

ratcheted_stop-tightens_example :
    ((114 ≡ worse_by hundredths long 100 5) × (trailing_stop ≡ stop_loss))
    ⊎ (more_protective hundredths long 114 (worse_by hundredths long 100 5) ≡ true)
ratcheted_stop-tightens_example =
    ratcheted_stop-tightens hundredths less_trans long 100 5 114 trailing_stop (some 120) trail_on
      trailed
