-- ===== src/Pipeline/Resume.antt =====
-- src/graph/pipeline.js: where a run resumes, what it still calls, and that a run which answered is never repeated.
use news_market_ai.Common.{◌≡◌, refl, ◌≢◌, ◌&&◌, keyed_string, Option, none, some, List}
use mathlib.Core.Path.{subst}
use news_market_ai.Exit.Numbers.{Numbers}
use news_market_ai.Book.{
  Row, Checkpoint, Stage, rejected, skipped_irrelevant, ingested, analyzed, debated, traded,
  risk_checked, portfolio_checked,
}
use news_market_ai.Book.Commit.{get_checkpoint}
use news_market_ai.Risk.{RiskDecision}
use news_market_ai.Risk.Portfolio.{PortfolioDecision}
use news_market_ai.Book.Reads.{get_open_position_for_ticker_as_of}
use news_market_ai.Pipeline.{
  Kinds, Progress, Opinion, Verdict, Start, begins, resumes, is_complete, resume_from, start_from,
  start_at, next_stage, fresh, find_no_price_impact,
}
use news_market_ai.Pipeline.World.{answered, Config, Args, Engine, State, and_then, outside}
use news_market_ai.Pipeline.Finish.{write_decision, with_price, with_sign_off, if_signed, finish}
use news_market_ai.Pipeline.Stages.{
  with_risk, check_risk, trade, with_verdict, argue, gate, without_impact, with_opinions,
  ask_current, analyze, run_from, run_pipeline_stages, save, ask_verdict,
}
use news_market_ai.Pipeline.Settles.{
  IsMarked, IsComplete, then-IsComplete, if-IsComplete, write_decision-IsComplete,
  with_price-IsComplete,
}
use news_market_ai.Pipeline.Inputs.{bars_for, risk_for, signed_off}

module _ (numbers : Numbers) (kinds : Kinds) (config : Config) (args : Args) where
  module _ {W : Type 0} (engine : Engine numbers kinds W) where
    signed-IsComplete :
        (existing : Option (Row numbers)) (state : Progress numbers kinds)
        (d : PortfolioDecision numbers) (st : State numbers kinds W)
        → IsComplete numbers kinds config args
            (with_sign_off numbers kinds config args engine existing state d st)
    signed-IsComplete existing state d st =
        let signed = record state { portfolio_decision = some d } in
        if-IsComplete numbers kinds config args d.approved_for_execution
          (and_then numbers kinds (outside numbers kinds engine.resolve_current_price st)
            (λ price after.
              with_price numbers kinds config args engine existing price signed after))
          (write_decision numbers kinds config args engine rejected none signed st)
          (then-IsComplete numbers kinds config args
            (outside numbers kinds engine.resolve_current_price st)
            (λ price after. with_price numbers kinds config args engine existing price signed after)
            (λ price after.
              with_price-IsComplete numbers kinds config args engine existing price signed after))
          (write_decision-IsComplete numbers kinds config args engine rejected none signed st)

    if_signed-IsComplete :
        (existing : Option (Row numbers)) (state : Progress numbers kinds)
        (d : Option (PortfolioDecision numbers)) (st : State numbers kinds W)
        → IsComplete numbers kinds config args
            (if_signed numbers kinds config args engine existing state d st)
    if_signed-IsComplete existing state none st = tt
    if_signed-IsComplete existing state (some d) st = signed-IsComplete existing state d st

    finish-IsComplete :
        (state : Progress numbers kinds) (st : State numbers kinds W)
        → IsComplete numbers kinds config args (finish numbers kinds config args engine state st)
    unfolding finish
    finish-IsComplete state st =
        let existing =
          get_open_position_for_ticker_as_of numbers args.run_id args.ticker args.as_of
            st.db.positions in
        let d =
          signed_off numbers kinds args engine.knobs engine.floor state.thesis state.risk_decision
            st.db.positions in
        then-IsComplete numbers kinds config args (outside numbers kinds engine.read_book st)
          (λ u after. if_signed numbers kinds config args engine existing state d after)
          (λ u after. if_signed-IsComplete existing state d after)

    with_risk-IsComplete :
        (risk : Option (RiskDecision numbers)) (state : Progress numbers kinds)
        (st : State numbers kinds W)
        → IsComplete numbers kinds config args
            (with_risk numbers kinds config args engine risk state st)
    with_risk-IsComplete none state st = tt
    with_risk-IsComplete (some d) state st =
        finish-IsComplete (record state { risk_decision = some d }) st

    check_risk-IsComplete :
        (state : Progress numbers kinds) (st : State numbers kinds W)
        → IsComplete numbers kinds config args
            (check_risk numbers kinds config args engine state st)
    unfolding check_risk
    check_risk-IsComplete state st =
        with_risk-IsComplete
          (risk_for numbers kinds args state.thesis state.verdict
            (bars_for numbers kinds args engine.daily_bars state.price_bars))
          state st

    trade-IsComplete :
        (state : Progress numbers kinds) (st : State numbers kinds W)
        → IsComplete numbers kinds config args (trade numbers kinds config args engine state st)
    unfolding trade
    trade-IsComplete state st =
        then-IsComplete numbers kinds config args
          (outside numbers kinds (engine.run_trader state.verdict) st)
          (λ thesis asked.
            and_then numbers kinds
              (save numbers kinds config args engine traded (record state { thesis = some thesis })
                asked)
              (λ u saved.
                check_risk numbers kinds config args engine (record state { thesis = some thesis })
                  saved))
          (λ thesis asked.
            then-IsComplete numbers kinds config args
              (save numbers kinds config args engine traded (record state { thesis = some thesis })
                asked)
              (λ u saved.
                check_risk numbers kinds config args engine (record state { thesis = some thesis })
                  saved)
              (λ u saved. check_risk-IsComplete (record state { thesis = some thesis }) saved))

    verdict-IsComplete :
        (state : Progress numbers kinds) (verdict : Verdict numbers kinds)
        (st : State numbers kinds W)
        → IsComplete numbers kinds config args
            (with_verdict numbers kinds config args engine state verdict st)
    verdict-IsComplete state verdict st =
        let next = record state {
          verdict = some verdict;
          evidence = some (engine.collect_evidence verdict state.opinions state.technical_snapshot);
        } in
        then-IsComplete numbers kinds config args
          (save numbers kinds config args engine debated next st)
          (λ u saved. trade numbers kinds config args engine next saved)
          (λ u saved. trade-IsComplete next saved)

    argue-IsComplete :
        (state : Progress numbers kinds) (st : State numbers kinds W)
        → IsComplete numbers kinds config args (argue numbers kinds config args engine state st)
    unfolding argue
    argue-IsComplete state st =
        then-IsComplete numbers kinds config args (outside numbers kinds engine.load_lessons st)
          (λ lessons loaded.
            and_then numbers kinds
              (outside numbers kinds
                (ask_verdict numbers kinds config args engine state.opinions lessons) loaded)
              (λ verdict judged.
                with_verdict numbers kinds config args engine state verdict judged))
          (λ lessons loaded.
            then-IsComplete numbers kinds config args
              (outside numbers kinds
                (ask_verdict numbers kinds config args engine state.opinions lessons) loaded)
              (λ verdict judged. with_verdict numbers kinds config args engine state verdict judged)
              (λ verdict judged. verdict-IsComplete state verdict judged))

    gate-IsComplete :
        (note : kinds.Note) (state : Progress numbers kinds) (st : State numbers kinds W)
        → IsComplete numbers kinds config args (gate numbers kinds config args engine note state st)
    unfolding gate
    gate-IsComplete note state st =
        if-IsComplete numbers kinds config args
          (config.skips_no_price_impact && find_no_price_impact numbers kinds state.opinions)
          (write_decision numbers kinds config args engine skipped_irrelevant none
            (without_impact numbers kinds config args engine state note) st)
          (argue numbers kinds config args engine state st)
          (write_decision-IsComplete numbers kinds config args engine skipped_irrelevant none
            (without_impact numbers kinds config args engine state note) st)
          (argue-IsComplete state st)

    opinions-IsComplete :
        (note : kinds.Note) (bars : kinds.Bars) (current : Option kinds.Current)
        (state : Progress numbers kinds) (opinions : List (Opinion numbers kinds))
        (st : State numbers kinds W)
        → IsComplete numbers kinds config args
            (with_opinions numbers kinds config args engine note bars current state opinions st)
    opinions-IsComplete note bars current state opinions st =
        let next = record state {
          opinions = opinions;
          price_bars = some bars;
          technical_snapshot = some (engine.compute_snapshot bars current);
        } in
        then-IsComplete numbers kinds config args
          (save numbers kinds config args engine analyzed next st)
          (λ u saved. gate numbers kinds config args engine note next saved)
          (λ u saved. gate-IsComplete note next saved)

    analyze-IsComplete :
        (note : kinds.Note) (state : Progress numbers kinds) (st : State numbers kinds W)
        → IsComplete numbers kinds config args
            (analyze numbers kinds config args engine note state st)
    unfolding analyze
    analyze-IsComplete note state st =
        then-IsComplete numbers kinds config args (outside numbers kinds engine.get_price_bars st)
          (λ bars st1.
            and_then numbers kinds (outside numbers kinds engine.load_macro_context st1)
              (λ macro st2.
                and_then numbers kinds
                  (outside numbers kinds (ask_current numbers kinds config args engine bars) st2)
                  (λ current st3.
                    and_then numbers kinds
                      (outside numbers kinds (engine.run_analyst_team bars macro current) st3)
                      (λ opinions st4.
                        with_opinions numbers kinds config args engine note bars current state
                          opinions st4))))
          (λ bars st1.
            then-IsComplete numbers kinds config args
              (outside numbers kinds engine.load_macro_context st1)
              (λ macro st2.
                and_then numbers kinds
                  (outside numbers kinds (ask_current numbers kinds config args engine bars) st2)
                  (λ current st3.
                    and_then numbers kinds
                      (outside numbers kinds (engine.run_analyst_team bars macro current) st3)
                      (λ opinions st4.
                        with_opinions numbers kinds config args engine note bars current state
                          opinions st4)))
              (λ macro st2.
                then-IsComplete numbers kinds config args
                  (outside numbers kinds (ask_current numbers kinds config args engine bars) st2)
                  (λ current st3.
                    and_then numbers kinds
                      (outside numbers kinds (engine.run_analyst_team bars macro current) st3)
                      (λ opinions st4.
                        with_opinions numbers kinds config args engine note bars current state
                          opinions st4))
                  (λ current st3.
                    then-IsComplete numbers kinds config args
                      (outside numbers kinds (engine.run_analyst_team bars macro current) st3)
                      (λ opinions st4.
                        with_opinions numbers kinds config args engine note bars current state
                          opinions st4)
                      (λ opinions st4. opinions-IsComplete note bars current state opinions st4))))

    -- What a run starts from, where its checkpoint is one that a run saves, and is kept if it is complete.
    StartIs : Start numbers kinds → State numbers kinds W → Type 0
    StartIs (resumes analyzed state) st = ⊥
    StartIs (is_complete state) st =
        IsMarked numbers kinds config args st.db.checkpoints state.portfolio_decision
    StartIs start st = Unit

    run_from-IsComplete :
        (note : kinds.Note) (start : Start numbers kinds) (st : State numbers kinds W)
        → StartIs start st
        → IsComplete numbers kinds config args
            (run_from numbers kinds config args engine note start st)
    unfolding StartIs
    run_from-IsComplete note begins st h = analyze-IsComplete note (fresh numbers kinds) st
    run_from-IsComplete note (is_complete state) st h = h
    run_from-IsComplete note (resumes ingested state) st h = analyze-IsComplete note state st
    run_from-IsComplete note (resumes analyzed state) st h = absurd h
    run_from-IsComplete note (resumes debated state) st h = gate-IsComplete note state st
    run_from-IsComplete note (resumes traded state) st h = trade-IsComplete state st
    run_from-IsComplete note (resumes risk_checked state) st h = check_risk-IsComplete state st
    run_from-IsComplete note (resumes portfolio_checked state) st h = finish-IsComplete state st

    staged-StartIs :
        (c : Checkpoint (Progress numbers kinds)) (stage : Stage) (st : State numbers kinds W)
        → c.stage ≡ stage
        → get_checkpoint args.run_id args.pipeline_run_id args.ticker st.db.checkpoints ≡ some c
        → c.stage ≢ ingested
        → StartIs (start_at numbers kinds (next_stage (some stage)) c.state) st
    unfolding StartIs next_stage
    staged-StartIs c ingested st e h k = absurd (k e)
    staged-StartIs c analyzed st e h k = tt
    staged-StartIs c debated st e h k = tt
    staged-StartIs c traded st e h k = tt
    staged-StartIs c risk_checked st e h k = tt
    staged-StartIs c portfolio_checked st e h k = (c, h, e, refl)

    found-StartIs :
        (found : Option (Checkpoint (Progress numbers kinds))) (st : State numbers kinds W)
        → get_checkpoint args.run_id args.pipeline_run_id args.ticker st.db.checkpoints ≡ found
        → ((c : Checkpoint (Progress numbers kinds)) → found ≡ some c → c.stage ≢ ingested)
        → StartIs (start_from numbers kinds found) st
    unfolding StartIs
    found-StartIs none st e h = tt
    found-StartIs (some c) st e h = staged-StartIs c c.stage st refl e (h c refl)

    -- The checkpoint of a run, where there is one, is of a stage that a run saves.
    abbrev pub IsSaved : State numbers kinds W → Type 0
    IsSaved st =
        (c : Checkpoint (Progress numbers kinds))
        → get_checkpoint args.run_id args.pipeline_run_id args.ticker st.db.checkpoints ≡ some c
        → c.stage ≢ ingested

    run-IsComplete :
        (note : kinds.Note) (st : State numbers kinds W)
        → IsSaved st
        → IsComplete numbers kinds config args
            (run_pipeline_stages numbers kinds config args engine note st)
    unfolding run_pipeline_stages resume_from
    run-IsComplete note st h =
        run_from-IsComplete note
          (start_from numbers kinds
            (get_checkpoint args.run_id args.pipeline_run_id args.ticker st.db.checkpoints))
          st
          (found-StartIs
            (get_checkpoint args.run_id args.pipeline_run_id args.ticker st.db.checkpoints) st refl
            h)

    marked_run :
        (note : kinds.Note) (d : Option (PortfolioDecision numbers)) (st : State numbers kinds W)
        → IsMarked numbers kinds config args st.db.checkpoints d
        → run_pipeline_stages numbers kinds config args engine note st ≡ (answered d, st)
    unfolding run_pipeline_stages resume_from next_stage
    marked_run note d st (c, found, stage, decision) = rw found (rw stage (rw decision refl))

  module _ {W : Type 0} where
    -- A run that answers is never done twice: on the database that it left, any later run of the same item and
    -- ticker gives the same answer and changes nothing, whatever the agents, the reads and the writes
    -- then do, so it asks none of them. It holds from every checkpoint that a run saves.
    pub run_pipeline_stages-once :
        (engine later : Engine numbers kinds W) (note later_note : kinds.Note)
        (st after : State numbers kinds W) (d : Option (PortfolioDecision numbers)) (world : W)
        → IsSaved engine st
        → run_pipeline_stages numbers kinds config args engine note st ≡ (answered d, after)
        → run_pipeline_stages numbers kinds config args later later_note
            (record after { world = world })
          ≡ (answered d, record after { world = world })
    run_pipeline_stages-once engine later note later_note st after d world saved h =
        marked_run later later_note d (record after { world = world })
          (subst (λ result. IsComplete numbers kinds config args result) h
            (run-IsComplete engine note st saved))
