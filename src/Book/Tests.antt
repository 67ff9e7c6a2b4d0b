-- ===== src/Book/Tests.antt =====
-- src/storage/run_store.js: a book of small numbers, where sizes and prices are whole hundredths.
use news_market_ai.Common.{
  ℕ, ◌+◌, ◌-◌, ◌*◌, ◌/◌, ◌⊎◌, ◌≢◌, ◌≡◌, refl, String, true, not, none, some, List, [], ◌∷◌, ◌++◌,
  map, any, ltb, leb, arith, keyed_string,
}
use news_market_ai.Exit.Numbers.{
  Numbers, long, short, gross_return, side_cost_fraction, round_trip_cost_fraction,
}
use news_market_ai.Book.{Row, Db, opened, superseded, held, rejected, is_mine, has_key, exit_rule}
use news_market_ai.Book.Guards.{
  Thesis, exposure, stop_risk, group_exposure, book_return, group_peers, group_of_ticker,
  group_cap_of,
}
use news_market_ai.Book.Limits.{breaches, status_of, group_cap, fits_group, fits_breaker}
use news_market_ai.Book.Commit.{
  commit_thesis, commit_positions, close_old, open_new, find_decision, decision_of, close_row,
  new_row,
}
use news_market_ai.Book.Verdict.{commit_thesis-decision, commit_thesis-limits}
use news_market_ai.Book.Single.{IsSingle, keep, commit_thesis-IsSingle, commit_thesis-elsewhere}
use news_market_ai.Book.Retry.{commit_thesis-twice}
use news_market_ai.Book.Frozen.{commits, closes_one, advances, AreKept}
use news_market_ai.Book.Kept.{
  Call, updates, deletes, run_calls, rows_of, spare_all, run_calls-AreKept,
}

abbrev hundredths : Numbers
hundredths = record {
  Num = ℕ;
  is_finite = λ a. ltb a 1000000;
  zero = 0;
  one = 10000;
  of_nat = λ n. n * 10000;
  plus = λ a b. a + b;
  minus = λ a b. a - b;
  times = λ a b. a * b / 10000;
  over = λ a b. a * 10000 / b;
  abs = λ a. a;
  less = ltb;
  at_most = leb;
}

less_or_at_most : (a b : ℕ) → ltb b a ≡ not (leb a b)
less_or_at_most a b = ground arith

-- A thesis for 4% of the book.
abbrev thesis : String → String → ℕ → Thesis hundredths
thesis id ticker as_of = record {
  run_id = "live";
  id = id;
  ticker = ticker;
  trade_thesis_id = id;
  position_size_pct = 400;
  direction = some short;
  entry_price = some 1200000;
  entry_price_source = none;
  entry_price_bar_ts = none;
  stop_loss_pct = some 300;
  take_profit_pct = some 600;
  trail_knobs = none;
  as_of = as_of;
  exit_price = some 1200000;
  confidence = some 8000;
  flip_min_confidence = 7500;
  drawdown_breaker_pct = 0;
  drawdown_breaker_window_days = none;
  trade_cost_bps = some 0;
}

abbrev long_row : Row hundredths
long_row = record (new_row hundredths (thesis "AAPL|1" "AAPL" 1)) { direction = some long }

abbrev other_row : Row hundredths
other_row = new_row hundredths (thesis "USO|2" "USO" 2)

abbrev rows : List (Row hundredths)
rows = long_row ∷ other_row ∷ []

abbrev flip : Thesis hundredths
flip = thesis "AAPL|5" "AAPL" 5

-- A weaker thesis does not flip the position, and an older one comes too late.
holds : status_of hundredths (record flip { confidence = some 7000 }) rows ≡ held
unfolding status_of
holds = refl

too_late : status_of hundredths (record flip { as_of = 0 }) rows ≡ superseded
unfolding status_of
too_late = refl

too_large : status_of hundredths (record flip { position_size_pct = 4700 }) rows ≡ rejected
unfolding status_of breaches exposure stop_risk group_exposure book_return group_peers
    group_of_ticker group_cap group_cap_of round_trip_cost_fraction side_cost_fraction gross_return
too_large = refl

flips : status_of hundredths flip rows ≡ opened
unfolding status_of breaches exposure stop_risk group_exposure book_return group_peers
    group_of_ticker group_cap group_cap_of round_trip_cost_fraction side_cost_fraction gross_return
flips = refl

abbrev db : Db hundredths ℕ ℕ
db = record { positions = rows; decisions = []; checkpoints = [] }

commit_thesis-decision_example :
    (find_decision "live" "AAPL|5" (commit_thesis hundredths flip 7 none db).decisions
      ≡ some (decision_of hundredths flip 7 (status_of hundredths flip rows)))
    × (((status_of hundredths flip rows ≡ opened)
          × ((commit_thesis hundredths flip 7 none db).positions
              ≡ map (close_row hundredths flip) rows ++ (new_row hundredths flip ∷ [])))
        ⊎ ((status_of hundredths flip rows ≢ opened)
            × ((commit_thesis hundredths flip 7 none db).positions ≡ rows)))
commit_thesis-decision_example =
    commit_thesis-decision hundredths less_or_at_most {D = ℕ} {S = ℕ} flip 7 none db refl refl

opens : any (has_key "live" "AAPL|5") (commit_thesis hundredths flip 7 none db).positions ≡ true
unfolding commit_thesis commit_positions close_old open_new
opens = refl

commit_thesis-limits_example :
    (leb (exposure hundredths flip (commit_thesis hundredths flip 7 none db).positions + 400) 5000
      ≡ true)
    × (leb
          (stop_risk hundredths flip (commit_thesis hundredths flip 7 none db).positions
            + 400 * 300 / 10000)
          200
        ≡ true)
    × (fits_group hundredths flip
          (group_peers "AAPL")
          (commit_thesis hundredths flip 7 none db).positions
        ≡ true)
    × (fits_breaker hundredths flip none (commit_thesis hundredths flip 7 none db).positions ≡ true)
commit_thesis-limits_example =
    commit_thesis-limits hundredths less_or_at_most {D = ℕ} {S = ℕ} flip 7 none db refl opens

abbrev one : Db hundredths ℕ ℕ
one = record { positions = long_row ∷ []; decisions = []; checkpoints = [] }

one-IsSingle : IsSingle (long_row ∷ [])
one-IsSingle = (λ run ticker. ground arith, λ run id. ground arith)

commit_thesis-IsSingle_example : IsSingle (commit_thesis hundredths flip 7 none one).positions
commit_thesis-IsSingle_example =
    commit_thesis-IsSingle hundredths {D = ℕ} {S = ℕ} flip 7 none one one-IsSingle

commit_thesis-elsewhere_example :
    keep (λ r. not (is_mine "live" "AAPL" r)) (commit_thesis hundredths flip 7 none db).positions
    ≡ other_row ∷ []
commit_thesis-elsewhere_example = commit_thesis-elsewhere hundredths {D = ℕ} {S = ℕ} flip 7 none db

commit_thesis-twice_example :
    commit_thesis hundredths flip 7 none (commit_thesis hundredths flip 7 none db)
    ≡ commit_thesis hundredths flip 7 none db
commit_thesis-twice_example = commit_thesis-twice hundredths {D = ℕ} {S = ℕ} flip 7 none db

abbrev simulated : Row hundredths
simulated = record other_row { run_id = "sim" }

abbrev calls : List (Call hundredths)
calls =
    updates (commits flip)
    ∷ deletes "live" 500
    ∷ updates (advances "live" "AAPL|5" (some 9) (some 1100000) none)
    ∷ deletes "sim" 500
    ∷ updates (closes_one "live" "AAPL|5" 12 (some (exit_rule "stop_loss")) (some 1250000))
    ∷ updates (commits (thesis "AAPL|20" "AAPL" 20))
    ∷ []

run_calls-AreKept_example : AreKept hundredths rows (
    rows_of hundredths (spare_all hundredths calls) (run_calls hundredths calls (simulated ∷ rows)))
run_calls-AreKept_example = run_calls-AreKept hundredths calls (simulated ∷ rows)
