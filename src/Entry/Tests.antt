-- ===== src/Entry/Tests.antt =====
-- src/graph/entry_fill.js: entries over a few bars, in numbers of whole ten-thousandths.
use news_market_ai.Common.{
  ℕ, ◌+◌, ◌-◌, ◌*◌, ◌/◌, ◌≤◌, ◌<◌, ◌≡◌, refl, true, false, none, some, List, [], ◌∷◌, ltb, leb,
  arith,
}
use news_market_ai.Exit.Numbers.{Numbers, Direction, long, gross_return}
use news_market_ai.Exit.Bars.{Bar}
use news_market_ai.Book.{pending_entry}
use news_market_ai.Book.Guards.{Thesis}
use news_market_ai.Entry.{
  Spec, Confirmation, find_fill_bar, find_confirmation_bar, confirmation_spec_of, fill_at,
  confirmation_at,
}
use news_market_ai.Entry.Bars.{
  FindsFirst, OpensAt, Confirms, find_fill_bar-first, find_confirmation_bar-Confirms,
}
use news_market_ai.Entry.Step.{
  Filling, Pending, Engine, State, Report, find_fill, find_first_bar_open_at_or_after,
  find_confirmed_entry_fill, fill_pending_entries,
}
use news_market_ai.Entry.Confirmed.{AreBars, find_fill-opened_at}
use news_market_ai.Entry.Settled.{SettlesPast}
use news_market_ai.Entry.Ends.{Answers, fill_pending_entries-settles}

abbrev ten_thousandths : Numbers
ten_thousandths = record {
  Num = ℕ;
  is_finite = λ a. ltb a 1000000;
  zero = 0;
  one = 10000;
  of_nat = λ n. n * 10000;
  plus = λ a b. a + b;
  minus = λ a b. a - b;
  times = λ a b. a * b / 10000;
  over = λ a b. a * 10000 / b;
  abs = λ a. a;
  less = ltb;
  at_most = leb;
}

-- A bar of fifteen units that opens and closes at a price.
abbrev bar : ℕ → ℕ → ℕ → Bar ten_thousandths
bar at open_price close = record {
  is_daily = false;
  open_ms = at;
  available_at = at + 15;
  open_price = open_price;
  high = open_price;
  low = open_price;
  close = close;
}

abbrev bars : List (Bar ten_thousandths)
bars = bar 90 100000 100000 ∷ bar 105 0 100100 ∷ bar 120 100200 101000 ∷ bar 135 101100 101200 ∷ []

find_fill_bar-first_example :
    FindsFirst ten_thousandths 100 bars (find_fill_bar ten_thousandths bars (some 100))
find_fill_bar-first_example = find_fill_bar-first ten_thousandths 100 bars

-- A move of 0.5% from 10.
abbrev spec : Spec ten_thousandths
spec = record { ref_price = 100000; move_pct = 50 }

abbrev confirmed : Confirmation ten_thousandths
confirmed = confirmation_at ten_thousandths 100 (bar 120 100200 101000)

confirms :
    find_confirmation_bar ten_thousandths bars (some 100) (some 500) (some long) spec
    ≡ some confirmed
unfolding find_confirmation_bar gross_return
confirms = refl

find_confirmation_bar-Confirms_example :
    (start : ℕ) × (deadline : ℕ) × (way : Direction) × (some 100 ≡ some start)
    × (some 500 ≡ some deadline)
    × (some long ≡ some way)
    × Confirms ten_thousandths start deadline way spec bars confirmed
find_confirmation_bar-Confirms_example =
    find_confirmation_bar-Confirms ten_thousandths bars (some 100) (some 500) (some long) spec
      confirmed confirms

abbrev thesis : Thesis ten_thousandths
thesis = record {
  run_id = "live";
  id = "AAPL|100";
  ticker = "AAPL";
  trade_thesis_id = "AAPL|100";
  position_size_pct = 400;
  direction = some long;
  entry_price = none;
  entry_price_source = none;
  entry_price_bar_ts = none;
  stop_loss_pct = some 300;
  take_profit_pct = some 600;
  trail_knobs = none;
  as_of = 100;
  exit_price = none;
  confidence = some 8000;
  flip_min_confidence = 7500;
  drawdown_breaker_pct = 0;
  drawdown_breaker_window_days = none;
  trade_cost_bps = none;
}

abbrev pending : Pending ten_thousandths ℕ
pending = record {
  thesis = thesis;
  as_of = some 100;
  fill_expires_at = some 500;
  confirmation = some spec;
  content = 7;
}

abbrev filling : Filling ten_thousandths
filling = (fill_at ten_thousandths (bar 135 101100 101200), some confirmed)

fills : find_fill ten_thousandths bars pending ≡ some filling
unfolding find_fill find_first_bar_open_at_or_after find_confirmed_entry_fill confirmation_spec_of
    find_confirmation_bar find_fill_bar gross_return
fills = refl

bars-AreBars : AreBars ten_thousandths bars
bars-AreBars = (omega arith, (omega arith, (omega arith, (omega arith, tt))))

find_fill-opened_at_example :
    (start : ℕ) × (deadline : ℕ) × (some 100 ≡ some start)
    × (some 500 ≡ some deadline)
    × (start ≤ 135)
    × (135 < deadline)
    × OpensAt ten_thousandths bars filling.0
find_fill-opened_at_example =
    find_fill-opened_at ten_thousandths bars pending filling bars-AreBars fills

abbrev engine : Engine ten_thousandths ℕ ℕ
engine = record {
  bars = λ ticker from as_of world. (some [], world);
  check_exits = λ ticker as_of rows world. (some [], rows, world);
  excursion = λ row fill rows world. (true, rows, world);
  settle = λ row world. (true, world);
  settled = λ world. [];
  set_outcome = λ spec filling content. content;
}

abbrev start : State ten_thousandths ℕ ℕ ℕ × Report ten_thousandths
start = (
  record {
    db = record {
      positions = [];
      decisions =
          record {
            run_id = "live";
            id = "AAPL|100";
            ticker = "AAPL";
            as_of = 100;
            status = pending_entry;
            fill_expires_at = some 500;
            content = 7;
          }
          ∷ [];
      checkpoints = [];
    };
    world = 0;
  },
  record { filled = []; expired = []; waiting = 0 },
)

fill_pending_entries-settles_example :
    SettlesPast ten_thousandths engine 600
      (pending ∷ [])
      (fill_pending_entries ten_thousandths engine 600 (pending ∷ []) start)
    × (Answers ten_thousandths engine
        → (fill_pending_entries ten_thousandths engine 600 (pending ∷ []) start).0 ≡ [])
fill_pending_entries-settles_example =
    fill_pending_entries-settles ten_thousandths engine 600 (pending ∷ []) start
