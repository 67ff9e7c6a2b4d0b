-- ===== src/Pipeline/Tests.antt =====
-- src/graph/pipeline.js: runs of one item in numbers of whole ten-thousandths, with agents that answer at once.
use news_market_ai.Common.{
  ℕ, ◌+◌, ◌-◌, ◌*◌, ◌/◌, ◌≤◌, ◌⊎◌, ◌≡◌, ◌≢◌, refl, ap, true, false, not, List, none, some, [], ◌∷◌,
  ltb, leb, arith, Option,
}
use news_market_ai.Exit.Numbers.{Numbers, long}
use news_market_ai.Book.{Row, Db, rejected, Checkpoint, analyzed, debated, traded}
use news_market_ai.Book.Commit.{
  commit_thesis, new_row, get_checkpoint, save_checkpoint, insert_trade_decision,
}
use news_market_ai.Book.Guards.{Thesis, group_of_ticker, group_cap_of}
use news_market_ai.Book.Reads.{get_open_position_for_ticker_as_of, get_open_positions_risk_as_of}
use news_market_ai.Risk.{RiskDecision, evaluate_risk, compute_stop_and_target, compute_atr}
use news_market_ai.Pipeline.Inputs.{thesis_of, signed_off, load_drawdown_breaker_options}
use news_market_ai.Risk.Portfolio.{PortfolioDecision, within_ceiling, evaluate_portfolio, size_for}
use news_market_ai.Pipeline.{
  Kinds, Progress, Trade, Verdict, fresh, should_continue_debate, min_confidence_to_stop_debate,
  resume_from, next_stage, find_no_price_impact,
}
use news_market_ai.Pipeline.World.{
  Price, Answer, answered, threw, done, lost, Config, Args, Engine, State,
}
use news_market_ai.Pipeline.Finish.{finish, commit, before_flip, place, write_decision}
use news_market_ai.Pipeline.Stages.{
  debate, settled, broke_off, run_pipeline_stages, analyze, gate, argue, trade, check_risk, save,
}
use news_market_ai.Entry.{is_entry_price_stale, pending_entry_expires_at}
use news_market_ai.Book.Limits.{status_of}
use news_market_ai.Pipeline.Agrees.{signed_off-commit}
use news_market_ai.Pipeline.Debate.{WithinRounds, debate_terminates}
use news_market_ai.Pipeline.Resume.{IsSaved, run_pipeline_stages-once}
use news_market_ai.Pipeline.Skips.{
  other_analysts, other_debaters, other_trader, run_pipeline_stages-skips,
}

abbrev ten_thousandths : Numbers
ten_thousandths = record {
  Num = ℕ;
  is_finite = λ a. ltb a 1000000;
  zero = 0;
  one = 10000;
  of_nat = λ n. n * 10000;
  plus = λ a b. a + b;
  minus = λ a b. a - b;
  times = λ a b. a * b / 10000;
  over = λ a b. a * 10000 / b;
  abs = λ a. a;
  less = ltb;
  at_most = leb;
}

abbrev numbered : Kinds
numbered = record {
  Bars = ℕ;
  Macro = ℕ;
  Current = ℕ;
  Snapshot = ℕ;
  Lessons = ℕ;
  Side = ℕ;
  Judged = ℕ;
  Evidence = ℕ;
  Note = ℕ;
}

abbrev config : Config
config = record {
  intraday_technical = true;
  skips_no_price_impact = true;
  merged_verdict = false;
  max_debate_rounds = 3;
  range_location_filter = false;
  trend_filter_active = false;
  entry_confirmation = false;
  confirmation_expiry_ms = 0;
}

abbrev args : Args
args = record {
  run_id = "live";
  pipeline_run_id = "item";
  ticker = "AAPL";
  as_of = 5;
  trade_thesis_id = "AAPL|5";
}

abbrev approved : PortfolioDecision ten_thousandths
approved = record {
  trade_thesis_id = ("AAPL", 5);
  approved_for_execution = true;
  final_position_size_pct = 400;
  reason = within_ceiling;
}

abbrev quote : Price ten_thousandths numbered
quote = record {
  price = 50000;
  resolved = record { is_intraday = true; closed_ms = some 5 };
  source = some "intraday";
  bar_ts = none;
}

abbrev judged_well : Verdict ten_thousandths numbered
judged_well = record { confidence = 8000; judged = 7 }

abbrev a_long : Trade ten_thousandths numbered
a_long = record { direction = some long; note = 7 }

-- The world counts the calls; a verdict gains confidence with every call.
abbrev engine : Engine ten_thousandths numbered ℕ
engine = record {
  get_price_bars = λ w. (answered 7, w + 1);
  load_macro_context = λ w. (answered 7, w + 1);
  resolve_intraday = λ w. (answered none, w + 1);
  has_bars = λ bars. true;
  run_analyst_team = λ bars macro current w. (answered [], w + 1);
  compute_snapshot = λ bars current. 7;
  load_lessons = λ w. (answered 7, w + 1);
  run_merged_judge =
      λ opinions lessons w. (answered (record { confidence = 7000; judged = 7 }), w + 1);
  run_bull_researcher = λ opinions w. (answered 7, w + 1);
  run_bear_researcher = λ opinions w. (answered 7, w + 1);
  run_research_manager =
      λ bull bear lessons w. (answered (record { confidence = w * 1000; judged = 7 }), w + 1);
  collect_evidence = λ verdict opinions snapshot. 7;
  run_trader = λ verdict w. (answered (record { direction = some long; note = 7 }), w + 1);
  daily_bars = λ bars. [];
  floor = λ a. a / 10000 * 10000;
  read_book = λ w. (answered tt, w + 1);
  knobs = record {
    trail_knobs = none;
    flip_min_confidence = 7500;
    drawdown_breaker_pct = 0;
    drawdown_breaker_window_days = none;
    trade_cost_bps = none;
  };
  resolve_current_price = λ w. (answered (some quote), w + 1);
  evaluate_range_location = λ state price. (false, 7);
  evaluate_trend_filter = λ state price. (false, 7);
  pending_confirmation = λ state price. 7;
  check_exits = λ rows w. (answered ([], rows), w + 1);
  record_excursion = λ row price rows w. (answered rows, w + 1);
  settle_replaced = λ rows w. (answered tt, w + 1);
  write = λ w. (done, w + 1);
}

-- The second round is confident enough: the manager is asked after three and after six calls.
two_rounds :
    debate ten_thousandths numbered config args engine 4 [] 7 0 1
    ≡ (settled (record { confidence = 6000; judged = 7 }) 2, 7)
unfolding debate should_continue_debate
two_rounds = refl

debate_terminates_example :
    ((verdict : Verdict ten_thousandths numbered) × (rounds : ℕ) × ((debate ten_thousandths numbered
          config args engine 4 [] 7 0 1).0
        ≡ settled verdict rounds)
      × WithinRounds ten_thousandths numbered config args 0 rounds
      × ((3 ≤ rounds)
          ⊎ (ltb verdict.confidence (min_confidence_to_stop_debate ten_thousandths numbered)
              ≡ false)))
    ⊎ ((rounds : ℕ) × ((debate ten_thousandths numbered config args engine 4 [] 7 0 1).0
          ≡ broke_off rounds)
        × WithinRounds ten_thousandths numbered config args 0 rounds)
debate_terminates_example = debate_terminates ten_thousandths numbered config args engine [] 7 1

abbrev sized : RiskDecision ten_thousandths
sized = record {
  trade_thesis_id = ("AAPL", 5);
  approved = true;
  position_size_pct = 400;
  stop_loss_pct = some 300;
  take_profit_pct = some 600;
}

abbrev opening : Thesis ten_thousandths
opening =
    thesis_of ten_thousandths numbered args engine.knobs quote a_long judged_well sized approved

abbrev Table : Type 0
Table = Db ten_thousandths (Progress ten_thousandths numbered) (Progress ten_thousandths numbered)

abbrev empty : Table
empty = record { positions = []; decisions = []; checkpoints = [] }

abbrev start : State ten_thousandths numbered ℕ
start = record { db = empty; world = 0 }

abbrev ran : Answer (Option (PortfolioDecision ten_thousandths)) × State ten_thousandths numbered ℕ
ran = run_pipeline_stages ten_thousandths numbered config args engine 7 start

start-IsSaved : IsSaved ten_thousandths numbered config args engine start
unfolding get_checkpoint
start-IsSaved c h = absurd (ground arith)

approves : ran.0 ≡ answered (some approved)
unfolding run_pipeline_stages resume_from get_checkpoint next_stage analyze gate argue trade
    check_risk save finish place write_decision debate should_continue_debate find_no_price_impact
    insert_trade_decision save_checkpoint get_open_position_for_ticker_as_of
    get_open_positions_risk_as_of evaluate_portfolio size_for group_of_ticker group_cap_of
    signed_off load_drawdown_breaker_options evaluate_risk compute_stop_and_target compute_atr
    commit before_flip is_entry_price_stale pending_entry_expires_at commit_thesis
approves = refl

opens : ran.1.db.positions ≡ new_row ten_thousandths opening ∷ []
unfolding run_pipeline_stages resume_from get_checkpoint next_stage analyze gate argue trade
    check_risk save finish place write_decision debate should_continue_debate find_no_price_impact
    insert_trade_decision save_checkpoint get_open_position_for_ticker_as_of
    get_open_positions_risk_as_of evaluate_portfolio size_for group_of_ticker group_cap_of
    signed_off load_drawdown_breaker_options evaluate_risk compute_stop_and_target compute_atr
    commit before_flip is_entry_price_stale pending_entry_expires_at commit_thesis
opens = refl

-- An engine whose every call throws, and whose writes are lost.
abbrev broken : Engine ten_thousandths numbered ℕ
broken = record engine {
  get_price_bars = λ w. (threw, w + 1);
  load_macro_context = λ w. (threw, w + 1);
  run_analyst_team = λ bars macro current w. (threw, w + 1);
  load_lessons = λ w. (threw, w + 1);
  run_trader = λ verdict w. (threw, w + 1);
  read_book = λ w. (threw, w + 1);
  write = λ w. (lost, w + 1);
}

run_pipeline_stages-once_example :
    run_pipeline_stages ten_thousandths numbered config args broken 8 (record ran.1 { world = 90 })
    ≡ (answered (some approved), record ran.1 { world = 90 })
run_pipeline_stages-once_example =
    run_pipeline_stages-once ten_thousandths numbered config args engine broken 7 8 start ran.1
      (some approved) 90 start-IsSaved (ap (λ answer. (answer, ran.1)) approves)

abbrev saved : Checkpoint (Progress ten_thousandths numbered)
saved = record {
  run_id = "live";
  pipeline_run_id = "item";
  ticker = "AAPL";
  stage = traded;
  state = record (fresh ten_thousandths numbered) {
    verdict = some judged_well;
    thesis = some a_long;
  };
}

abbrev midway : State ten_thousandths numbered ℕ
midway = record { db = record empty { checkpoints = saved ∷ [] }; world = 0 }

is_found : get_checkpoint "live" "item" "AAPL" (saved ∷ []) ≡ some saved
unfolding get_checkpoint
is_found = refl

run_pipeline_stages-skips_example :
    (traded ≡ analyzed
      → run_pipeline_stages ten_thousandths numbered config args
          (other_analysts ten_thousandths numbered config args engine broken)
          7
          midway
        ≡ run_pipeline_stages ten_thousandths numbered config args engine 7 midway)
    × (traded ≡ debated
        → run_pipeline_stages ten_thousandths numbered config args
            (other_debaters ten_thousandths numbered config args engine broken)
            7
            midway
          ≡ run_pipeline_stages ten_thousandths numbered config args engine 7 midway)
    × (traded ≡ traded
        → run_pipeline_stages ten_thousandths numbered config args
            (other_trader ten_thousandths numbered config args engine broken)
            7
            midway
          ≡ run_pipeline_stages ten_thousandths numbered config args engine 7 midway)
run_pipeline_stages-skips_example =
    run_pipeline_stages-skips ten_thousandths numbered config args engine broken 7 midway saved
      is_found

-- The book of the next test: a position of another ticker of the group.
abbrev book : List (Row ten_thousandths)
book =
    new_row ten_thousandths
      (record opening { id = "MSFT|1"; ticker = "MSFT"; position_size_pct = 500; as_of = 1 })
    ∷ []

less_or_at_most : (a b : ℕ) → ltb b a ≡ not (leb a b)
less_or_at_most a b = ground arith

signed_off-commit_example : status_of ten_thousandths opening book ≢ rejected
unfolding signed_off evaluate_portfolio size_for group_of_ticker group_cap_of
    get_open_positions_risk_as_of load_drawdown_breaker_options
signed_off-commit_example =
    signed_off-commit ten_thousandths numbered args engine.knobs engine.floor less_or_at_most quote
      (some a_long) (some judged_well) (some sized) approved opening book refl refl refl refl refl
      refl
