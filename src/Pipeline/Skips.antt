-- ===== src/Pipeline/Skips.antt =====
-- src/graph/pipeline.js: a resumed run asks no agent of a stage that it has a checkpoint of.
use news_market_ai.Common.{◌≡◌, refl, some}
use news_market_ai.Exit.Numbers.{Numbers}
use news_market_ai.Book.{Checkpoint, analyzed, debated, traded}
use news_market_ai.Book.Commit.{get_checkpoint}
use news_market_ai.Pipeline.{Kinds, Progress, resume_from, next_stage}
use news_market_ai.Pipeline.World.{Config, Args, Engine, State}
use news_market_ai.Pipeline.Finish.{finish, place, write_decision, commit, before_flip}
use news_market_ai.Pipeline.Stages.{run_pipeline_stages, gate, argue, trade, check_risk, save}

module _ (numbers : Numbers) (kinds : Kinds) (config : Config) (args : Args) {W : Type 0} where
  -- An engine with the reads and the analysts of another.
  abbrev pub other_analysts :
      Engine numbers kinds W → Engine numbers kinds W → Engine numbers kinds W
  other_analysts engine other = record engine {
    get_price_bars = other.get_price_bars;
    load_macro_context = other.load_macro_context;
    resolve_intraday = other.resolve_intraday;
    has_bars = other.has_bars;
    run_analyst_team = other.run_analyst_team;
    compute_snapshot = other.compute_snapshot;
  }

  -- And with its debate.
  abbrev pub other_debaters :
      Engine numbers kinds W → Engine numbers kinds W → Engine numbers kinds W
  other_debaters engine other = record (other_analysts engine other) {
    load_lessons = other.load_lessons;
    run_merged_judge = other.run_merged_judge;
    run_bull_researcher = other.run_bull_researcher;
    run_bear_researcher = other.run_bear_researcher;
    run_research_manager = other.run_research_manager;
    collect_evidence = other.collect_evidence;
  }

  -- And with its trader.
  abbrev pub other_trader : Engine numbers kinds W → Engine numbers kinds W → Engine numbers kinds W
  other_trader engine other = record (other_debaters engine other) { run_trader = other.run_trader }

  -- A run with a checkpoint depends on no agent of the stages up to it: with the analysts of any other engine
  -- after "analyzed", with the debate too after "debated", and with the trader too after "traded",
  -- it gives the same answer and leaves the same database.
  pub run_pipeline_stages-skips :
      (engine other : Engine numbers kinds W) (note : kinds.Note) (st : State numbers kinds W)
      (c : Checkpoint (Progress numbers kinds))
      → get_checkpoint args.run_id args.pipeline_run_id args.ticker st.db.checkpoints ≡ some c
      → (c.stage ≡ analyzed
          → run_pipeline_stages numbers kinds config args (other_analysts engine other) note st
            ≡ run_pipeline_stages numbers kinds config args engine note st)
        × (c.stage ≡ debated
            → run_pipeline_stages numbers kinds config args (other_debaters engine other) note st
              ≡ run_pipeline_stages numbers kinds config args engine note st)
        × (c.stage ≡ traded
            → run_pipeline_stages numbers kinds config args (other_trader engine other) note st
              ≡ run_pipeline_stages numbers kinds config args engine note st)
  unfolding run_pipeline_stages resume_from next_stage gate argue trade check_risk save finish place
      write_decision commit before_flip
  run_pipeline_stages-skips engine other note st c found = (
    λ stage. rw found (rw stage refl),
    λ stage. rw found (rw stage refl),
    λ stage. rw found (rw stage refl),
  )
