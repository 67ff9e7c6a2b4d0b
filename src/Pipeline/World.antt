-- ===== src/Pipeline/World.antt =====
-- src/graph/pipeline.js: what a run calls. The agents and the reads may throw, and so may a write of the store, which
-- may have gone through all the same.
use news_market_ai.Common.{ℕ, String, Bool, Option, List}
use news_market_ai.Exit.Numbers.{Numbers}
use news_market_ai.Book.{Row, Db}
use news_market_ai.Risk.{DailyBar}
use news_market_ai.Entry.{Resolved}
use news_market_ai.Pipeline.{Kinds, Opinion, Verdict, Trade, Progress}

-- What a call comes to.
pub data Answer (A : Type 0) : Type 0 where
  answered : A → Answer A
  threw : Answer A

-- What becomes of a write: it is done, it fails, or it is done and its answer is lost.
pub data Written : Type 0 where
  done lost unseen : Written

-- The switches that the stages read.
pub record Config : Type 0 where
  pub intraday_technical : Bool
  -- `config.skipNoPriceImpact !== false`
  pub skips_no_price_impact : Bool
  pub merged_verdict : Bool
  pub max_debate_rounds : ℕ
  pub range_location_filter : Bool
  pub trend_filter_active : Bool
  pub entry_confirmation : Bool
  pub confirmation_expiry_ms : ℕ

pub record Args : Type 0 where
  -- The environment, `store.runId`
  pub run_id : String
  pub pipeline_run_id : String
  pub ticker : String
  pub as_of : ℕ
  -- `${ticker}|${asOf}`
  pub trade_thesis_id : String

module _ (numbers : Numbers) (kinds : Kinds) where
  -- What `resolveCurrentPrice` finds.
  pub record Price : Type 0 where
    pub price : numbers.Num
    pub resolved : Resolved
    pub source : Option String
    pub bar_ts : Option String

  -- The settings that the rules of the book read.
  pub record Knobs : Type 0 where
    pub trail_knobs : Option String
    pub flip_min_confidence : numbers.Num
    pub drawdown_breaker_pct : numbers.Num
    pub drawdown_breaker_window_days : Option ℕ
    pub trade_cost_bps : Option numbers.Num

  -- A filter's verdict: whether it blocks, and the evidence with its record.
  abbrev pub Filtered : Type 0
  Filtered = Bool × kinds.Evidence

  pub record Engine (W : Type 0) : Type 0 where
    pub get_price_bars : W → Answer kinds.Bars × W
    pub load_macro_context : W → Answer kinds.Macro × W
    pub resolve_intraday : W → Answer (Option kinds.Current) × W
    pub has_bars : kinds.Bars → Bool
    pub run_analyst_team :
        kinds.Bars
        → kinds.Macro
        → Option kinds.Current
        → W
        → Answer (List (Opinion numbers kinds)) × W
    pub compute_snapshot : kinds.Bars → Option kinds.Current → kinds.Snapshot
    pub load_lessons : W → Answer kinds.Lessons × W
    pub run_merged_judge :
        List (Opinion numbers kinds) → kinds.Lessons → W → Answer (Verdict numbers kinds) × W
    pub run_bull_researcher : List (Opinion numbers kinds) → W → Answer kinds.Side × W
    pub run_bear_researcher : List (Opinion numbers kinds) → W → Answer kinds.Side × W
    pub run_research_manager :
        kinds.Side → kinds.Side → kinds.Lessons → W → Answer (Verdict numbers kinds) × W
    pub collect_evidence :
        Verdict numbers kinds
        → List (Opinion numbers kinds)
        → Option kinds.Snapshot
        → kinds.Evidence
    pub run_trader : Option (Verdict numbers kinds) → W → Answer (Trade numbers kinds) × W
    -- The columns of the bars that the sizing reads
    pub daily_bars : kinds.Bars → List (DailyBar numbers)
    -- `Math.floor`
    pub floor : numbers.Num → numbers.Num
    -- The reads of the book for the sign-off, which may throw
    pub read_book : W → Answer Unit × W
    pub knobs : Knobs
    pub resolve_current_price : W → Answer (Option Price) × W
    pub evaluate_range_location : Progress numbers kinds → Price → Filtered
    pub evaluate_trend_filter : Progress numbers kinds → Price → Filtered
    -- The state's evidence with the record of a pending confirmation
    pub pending_confirmation : Progress numbers kinds → Price → kinds.Evidence
    -- `checkOpenPositionExits` for the ticker: the ids that it closed, and the positions after it
    pub check_exits : List (Row numbers) → W → Answer (List String × List (Row numbers)) × W
    -- `recordExcursionBeforeClose`
    pub record_excursion :
        Row numbers → Price → List (Row numbers) → W → Answer (List (Row numbers)) × W
    -- `settlePositionOutcome` for each replaced position that it finds
    pub settle_replaced : List (Row numbers) → W → Answer Unit × W
    -- What becomes of the next write of the store.
    pub write : W → Written × W

  pub record State (W : Type 0) : Type 0 where
    pub db : Db numbers (Progress numbers kinds) (Progress numbers kinds)
    pub world : W

  module _ {W : Type 0} where
    abbrev pub and_then :
        {A B : Type 0}
        → Answer A × State W
        → (A → State W → Answer B × State W)
        → Answer B × State W
    and_then (threw, st) next = (threw, st)
    and_then (answered a, st) next = next a st

    -- A call that leaves the database alone
    abbrev pub outside : {A : Type 0} → (W → Answer A × W) → State W → Answer A × State W
    outside f st = let out = f st.world in (out.0, record st { world = out.1 })

    abbrev pub after_write :
        Written × W
        → Db numbers (Progress numbers kinds) (Progress numbers kinds)
        → State W
        → Answer Unit × State W
    after_write (done, w) db st = (answered tt, record { db = db; world = w })
    after_write (lost, w) db st = (threw, record st { world = w })
    after_write (unseen, w) db st = (threw, record { db = db; world = w })

    -- A write that would make `db` of the database
    abbrev pub write_db :
        Engine W
        → Db numbers (Progress numbers kinds) (Progress numbers kinds)
        → State W
        → Answer Unit × State W
    write_db engine db st = after_write (engine.write st.world) db st
