-- ===== src/Pipeline.antt =====
-- src/graph/checkpointer.js and src/graph/conditional_logic.js: the order of the stages, where a run resumes, and when
-- a debate ends; and what src/graph/pipeline.js passes between its stages.
pub mod Stages
mod Debate
pub mod Finish
pub mod World
pub mod Inputs
mod Settles
mod Agrees
mod Resume
mod Skips
mod Tests
use news_market_ai.Common.{
  ℕ, ◌+◌, String, Bool, true, false, not, ◌&&◌, ◌==◌, keyed_string, Option, none, some, List, [],
  ◌∷◌, leb, if◌then◌else◌,
}
use news_market_ai.Exit.Numbers.{Numbers, Direction}
use news_market_ai.Book.{
  Stage, Db, Checkpoint, ingested, analyzed, debated, traded, risk_checked, portfolio_checked,
}
use news_market_ai.Book.Guards.{ratio}
use news_market_ai.Book.Commit.{get_checkpoint}
use news_market_ai.Risk.{RiskDecision}
use news_market_ai.Risk.Portfolio.{PortfolioDecision}

-- `nextStage`; `none` stands for null on both sides.
unfoldable pub next_stage : Option Stage → Option Stage
next_stage none = some ingested
next_stage (some ingested) = some analyzed
next_stage (some analyzed) = some debated
next_stage (some debated) = some traded
next_stage (some traded) = some risk_checked
next_stage (some risk_checked) = some portfolio_checked
next_stage (some portfolio_checked) = none

-- The values that the agents exchange and the pipeline only passes on.
pub record Kinds : Type 1 where
  pub Bars : Type 0
  pub Macro : Type 0
  pub Current : Type 0
  pub Snapshot : Type 0
  pub Lessons : Type 0
  pub Side : Type 0
  pub Judged : Type 0
  pub Evidence : Type 0
  pub Note : Type 0

module _ (numbers : Numbers) (kinds : Kinds) where
  -- One opinion of the analyst team
  pub record Opinion : Type 0 where
    pub agent : String
    pub relevance : Option String
    pub note : kinds.Note

  -- `DebateVerdict`
  pub record Verdict : Type 0 where
    pub confidence : numbers.Num
    pub judged : kinds.Judged

  -- The thesis of the trader; `none` for the direction is "flat".
  pub record Trade : Type 0 where
    pub direction : Option Direction
    pub note : kinds.Note

  -- `state`, which a checkpoint carries; `none` is a field that no stage has set.
  pub record Progress : Type 0 where
    pub opinions : List Opinion
    pub price_bars : Option kinds.Bars
    pub technical_snapshot : Option kinds.Snapshot
    pub verdict : Option Verdict
    pub evidence : Option kinds.Evidence
    pub thesis : Option Trade
    pub risk_decision : Option (RiskDecision numbers)
    pub portfolio_decision : Option (PortfolioDecision numbers)

  abbrev pub fresh : Progress
  fresh = record {
    opinions = [];
    price_bars = none;
    technical_snapshot = none;
    verdict = none;
    evidence = none;
    thesis = none;
    risk_decision = none;
    portfolio_decision = none;
  }

  abbrev pub min_confidence_to_stop_debate : numbers.Num
  min_confidence_to_stop_debate = ratio numbers 6 10

  -- `shouldContinueDebate`
  unfoldable pub should_continue_debate : Verdict → ℕ → ℕ → Bool
  should_continue_debate verdict rounds max_rounds =
      if leb max_rounds rounds
      then false
      else numbers.less verdict.confidence min_confidence_to_stop_debate

  -- `findNoPriceImpact`: whether the first verdict on the impact is a confident "none"
  unfoldable pub find_no_price_impact : List Opinion → Bool
  find_no_price_impact [] = false
  find_no_price_impact (o ∷ os) =
      let rest = find_no_price_impact os in
      if o.agent == "price_impact" then is_none o.relevance else rest
    where
      is_none : Option String → Bool
      is_none none = false
      is_none (some relevance) = relevance == "none"

  -- Where a run of a pipeline starts: a new run, a stage and the state to go on from, or a run that is complete.
  pub data Start : Type 0 where
    begins : Start
    resumes : Stage → Progress → Start
    is_complete : Progress → Start

  abbrev pub start_at : Option Stage → Progress → Start
  start_at none state = is_complete state
  start_at (some stage) state = resumes stage state

  abbrev pub start_from : Option (Checkpoint Progress) → Start
  start_from none = begins
  start_from (some c) = start_at (next_stage (some c.stage)) c.state

  -- `resumeFrom`, and the test of `runPipelineStages` on what it gives
  unfoldable pub resume_from : String → String → String → List (Checkpoint Progress) → Start
  unfolding get_checkpoint next_stage
  resume_from run pipeline_run ticker cs = start_from (get_checkpoint run pipeline_run ticker cs)
