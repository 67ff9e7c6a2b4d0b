-- ===== src/Pipeline/Stages.antt =====
-- src/graph/pipeline.js: the stages of a run, each with its checkpoint.
use news_market_ai.Common.{ℕ, zero, suc, ◌+◌, false, ◌&&◌, Option, none, some, List, if◌then◌else◌}
use news_market_ai.Exit.Numbers.{Numbers}
use news_market_ai.Book.{
  Stage, ingested, analyzed, debated, traded, risk_checked, portfolio_checked, skipped_irrelevant,
}
use news_market_ai.Book.Commit.{save_checkpoint, get_checkpoint}
use news_market_ai.Risk.{RiskDecision, evaluate_risk}
use news_market_ai.Risk.Portfolio.{refusal, not_approved}
use news_market_ai.Pipeline.{
  Kinds, Progress, Opinion, Verdict, Start, begins, resumes, is_complete, fresh, next_stage,
  should_continue_debate, find_no_price_impact, resume_from,
}
use news_market_ai.Pipeline.World.{
  Answer, answered, threw, Config, Args, Engine, State, and_then, outside, write_db,
}
use news_market_ai.Pipeline.Finish.{Result, checkpoint_at, finish, write_decision}
use news_market_ai.Pipeline.Inputs.{bars_for, risk_for}

module _ (numbers : Numbers) (kinds : Kinds) (config : Config) (args : Args) where
  -- What a debate comes to, and the rounds that it took.
  pub data Debated : Type 0 where
    settled : Verdict numbers kinds → ℕ → Debated
    broke_off : ℕ → Debated
    -- The fuel ran out.
    unfinished : Debated

  module _ {W : Type 0} (engine : Engine numbers kinds W) where
    -- `Promise.all` of the two researchers: both are asked, and one that throws is enough.
    abbrev pub both : {A B : Type 0} → Answer A → Answer B × W → Answer (A × B) × W
    both threw (b, w) = (threw, w)
    both (answered a) (threw, w) = (threw, w)
    both (answered a) (answered b, w) = (answered (a, b), w)

    abbrev pub ask_both : List (Opinion numbers kinds) → W → Answer (kinds.Side × kinds.Side) × W
    ask_both opinions w =
        let bull = engine.run_bull_researcher opinions w in
        both bull.0 (engine.run_bear_researcher opinions bull.1)

    abbrev pub judge :
        kinds.Lessons → Answer (kinds.Side × kinds.Side) × W → Answer (Verdict numbers kinds) × W
    judge lessons (threw, w) = (threw, w)
    judge lessons (answered (bull, bear), w) = engine.run_research_manager bull bear lessons w

    -- One round of the debate
    abbrev pub one_round :
        List (Opinion numbers kinds) → kinds.Lessons → W → Answer (Verdict numbers kinds) × W
    one_round opinions lessons w = judge lessons (ask_both opinions w)

    abbrev pub after_round :
        Answer (Verdict numbers kinds) × W → ℕ → (W → Debated × W) → Debated × W
    after_round (threw, w) rounds again = (broke_off rounds, w)
    after_round (answered verdict, w) rounds again =
        let more = again w in
        if should_continue_debate numbers kinds verdict rounds config.max_debate_rounds
        then more
        else (settled verdict rounds, w)

    -- The loop of the debate, with the rounds before this one
    unfoldable pub debate : ℕ → List (Opinion numbers kinds) → kinds.Lessons → ℕ → W → Debated × W
    unfolding should_continue_debate
    debate zero opinions lessons rounds w = (unfinished, w)
    debate (suc fuel) opinions lessons rounds w =
        after_round (one_round opinions lessons w) (rounds + 1)
          (λ w'. debate fuel opinions lessons (rounds + 1) w')

    abbrev pub verdict_of : Debated × W → Answer (Verdict numbers kinds) × W
    verdict_of (settled verdict rounds, w) = (answered verdict, w)
    verdict_of (broke_off rounds, w) = (threw, w)
    verdict_of (unfinished, w) = (threw, w)

    -- The verdict, of the merged judge or of a debate
    abbrev pub ask_verdict :
        List (Opinion numbers kinds) → kinds.Lessons → W → Answer (Verdict numbers kinds) × W
    ask_verdict opinions lessons w =
        if config.merged_verdict
        then engine.run_merged_judge opinions lessons w
        else verdict_of (debate (suc config.max_debate_rounds) opinions lessons 0 w)

    -- `checkpoint`, and then the next stage
    unfoldable pub save :
        Stage → Progress numbers kinds → State numbers kinds W → Answer Unit × State numbers kinds W
    unfolding save_checkpoint
    save stage state st =
        write_db numbers kinds engine
          (record st.db {
            checkpoints =
                save_checkpoint (checkpoint_at numbers kinds config args stage state)
                  st.db.checkpoints;
          })
          st

    abbrev pub Running : Type 0
    Running = State numbers kinds W → Result numbers kinds config args W

    abbrev pub with_risk : Option (RiskDecision numbers) → Progress numbers kinds → Running
    with_risk none state st = (threw, st)
    with_risk (some d) state st =
        finish numbers kinds config args engine (record state { risk_decision = some d }) st

    -- The stage "risk_checked", which is not saved
    unfoldable pub check_risk : Progress numbers kinds → Running
    unfolding finish evaluate_risk
    check_risk state st =
        with_risk
          (risk_for numbers kinds args state.thesis state.verdict
            (bars_for numbers kinds args engine.daily_bars state.price_bars))
          state st

    -- The stage "traded"
    unfoldable pub trade : Progress numbers kinds → Running
    unfolding check_risk save
    trade state st =
        and_then numbers kinds (outside numbers kinds (engine.run_trader state.verdict) st)
          (λ thesis asked.
            let next = record state { thesis = some thesis } in
            and_then numbers kinds (save traded next asked) (λ u saved. check_risk next saved))

    abbrev pub with_verdict : Progress numbers kinds → Verdict numbers kinds → Running
    with_verdict state verdict st =
        let next = record state {
          verdict = some verdict;
          evidence = some (engine.collect_evidence verdict state.opinions state.technical_snapshot);
        } in
        and_then numbers kinds (save debated next st) (λ u saved. trade next saved)

    -- The stage "debated", after the gate
    unfoldable pub argue : Progress numbers kinds → Running
    unfolding trade save debate
    argue state st =
        and_then numbers kinds (outside numbers kinds engine.load_lessons st) (λ lessons loaded.
          and_then numbers kinds (outside numbers kinds (ask_verdict state.opinions lessons) loaded)
            (λ verdict judged. with_verdict state verdict judged))

    -- The decision of `recordNoPriceImpact`
    abbrev pub without_impact : Progress numbers kinds → kinds.Note → Progress numbers kinds
    without_impact state note = record state {
      thesis = some (record { direction = none; note = note });
      risk_decision = some (record {
        trade_thesis_id = (args.ticker, args.as_of);
        approved = false;
        position_size_pct = numbers.zero;
        stop_loss_pct = none;
        take_profit_pct = none;
      });
      portfolio_decision = some (refusal numbers (args.ticker, args.as_of) not_approved);
    }

    -- The gate on the price impact, and the stage "debated"
    unfoldable pub gate : kinds.Note → Progress numbers kinds → Running
    unfolding argue find_no_price_impact write_decision
    gate note state st =
        if config.skips_no_price_impact && find_no_price_impact numbers kinds state.opinions
        then write_decision numbers kinds config args engine skipped_irrelevant none
            (without_impact state note) st
        else argue state st

    abbrev pub with_opinions :
        kinds.Note
        → kinds.Bars
        → Option kinds.Current
        → Progress numbers kinds
        → List (Opinion numbers kinds)
        → Running
    with_opinions note bars current state opinions st =
        let next = record state {
          opinions = opinions;
          price_bars = some bars;
          technical_snapshot = some (engine.compute_snapshot bars current);
        } in
        and_then numbers kinds (save analyzed next st) (λ u saved. gate note next saved)

    abbrev pub ask_current : kinds.Bars → W → Answer (Option kinds.Current) × W
    ask_current bars w =
        if engine.has_bars bars && config.intraday_technical
        then engine.resolve_intraday w
        else (answered none, w)

    -- The stage "ingested"
    unfoldable pub analyze : kinds.Note → Progress numbers kinds → Running
    unfolding gate save
    analyze note state st =
        and_then numbers kinds (outside numbers kinds engine.get_price_bars st) (λ bars st1.
          and_then numbers kinds (outside numbers kinds engine.load_macro_context st1) (λ macro st2.
            and_then numbers kinds (outside numbers kinds (ask_current bars) st2) (λ current st3.
              and_then numbers kinds
                (outside numbers kinds (engine.run_analyst_team bars macro current) st3)
                (λ opinions st4. with_opinions note bars current state opinions st4))))

    abbrev pub run_from : kinds.Note → Start numbers kinds → Running
    run_from note begins st = analyze note (fresh numbers kinds) st
    run_from note (is_complete state) st = (answered state.portfolio_decision, st)
    run_from note (resumes ingested state) st = analyze note state st
    run_from note (resumes analyzed state) st = (answered state.portfolio_decision, st)
    run_from note (resumes debated state) st = gate note state st
    run_from note (resumes traded state) st = trade state st
    run_from note (resumes risk_checked state) st = check_risk state st
    run_from note (resumes portfolio_checked state) st =
        finish numbers kinds config args engine state st

    -- `runPipelineStages`; `note` is the text of a decision without impact.
    unfoldable pub run_pipeline_stages : kinds.Note → Running
    unfolding analyze gate trade check_risk finish resume_from get_checkpoint next_stage
    run_pipeline_stages note st =
        run_from note
          (resume_from numbers kinds args.run_id args.pipeline_run_id args.ticker st.db.checkpoints)
          st
