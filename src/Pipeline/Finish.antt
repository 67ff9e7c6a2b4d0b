-- ===== src/Pipeline/Finish.antt =====
-- src/graph/pipeline.js: the last stage, which signs the thesis off, prices it and writes its decision.
use news_market_ai.Common.{
  ℕ, String, Bool, true, false, not, ◌&&◌, ◌||◌, ◌==◌, keyed_string, Option, none, some, List,
  contains, if◌then◌else◌,
}
use news_market_ai.Exit.Numbers.{Numbers}
use news_market_ai.Book.{
  Row, Decision, Checkpoint, Stage, Status, rejected, skipped_no_price_data, pending_entry,
  portfolio_checked, is_null,
}
use news_market_ai.Book.Guards.{Thesis}
use news_market_ai.Book.Commit.{commit_thesis, insert_trade_decision, save_checkpoint}
use news_market_ai.Book.Reads.{get_open_position_for_ticker_as_of}
use news_market_ai.Risk.Portfolio.{PortfolioDecision}
use news_market_ai.Entry.{
  is_entry_price_stale, pending_entry_expires_at, pending_entry_expiry_ms, entry_fresh_max_age_ms,
}
use news_market_ai.Entry.Step.{is_held_by_rule}
use news_market_ai.Pipeline.{Kinds, Progress}
use news_market_ai.Pipeline.World.{
  Answer, answered, threw, Config, Args, Price, Filtered, Engine, State, and_then, outside,
  write_db,
}
use news_market_ai.Pipeline.Inputs.{thesis_for, signed_off}

module _ (numbers : Numbers) (kinds : Kinds) (config : Config) (args : Args) where
  abbrev pub Result : Type 0 → Type 0
  Result W = Answer (Option (PortfolioDecision numbers)) × State numbers kinds W

  abbrev pub checkpoint_at : Stage → Progress numbers kinds → Checkpoint (Progress numbers kinds)
  checkpoint_at stage state = record {
    run_id = args.run_id;
    pipeline_run_id = args.pipeline_run_id;
    ticker = args.ticker;
    stage = stage;
    state = state;
  }

  -- `finalCheckpoint`
  abbrev pub final_checkpoint : Progress numbers kinds → Checkpoint (Progress numbers kinds)
  final_checkpoint state = checkpoint_at portfolio_checked state

  abbrev pub decision_at :
      Status → Option ℕ → Progress numbers kinds → Decision (Progress numbers kinds)
  decision_at status expires state = record {
    run_id = args.run_id;
    id = args.trade_thesis_id;
    ticker = args.ticker;
    as_of = args.as_of;
    status = status;
    fill_expires_at = expires;
    content = state;
  }

  -- A blocked approval
  abbrev pub block : Progress numbers kinds → Progress numbers kinds
  block state = record state { portfolio_decision = blocked state.portfolio_decision }
    where
      blocked : Option (PortfolioDecision numbers) → Option (PortfolioDecision numbers)
      blocked none = none
      blocked (some d) =
          some (record d { approved_for_execution = false; final_position_size_pct = numbers.zero })

  -- What a filter that is on makes of the state.
  abbrev pub filtered :
      Bool → Filtered numbers kinds → Progress numbers kinds → Bool × Progress numbers kinds
  filtered false verdict state = (false, state)
  filtered true (false, evidence) state = (false, record state { evidence = some evidence })
  filtered true (true, evidence) state = (true, block (record state { evidence = some evidence }))

  module _ {W : Type 0} (engine : Engine numbers kinds W) where
    abbrev pub Finishing : Type 0
    Finishing = State numbers kinds W → Result W

    -- A decision with the completion marker in one batch
    unfoldable pub write_decision : Status → Option ℕ → Progress numbers kinds → Finishing
    unfolding insert_trade_decision save_checkpoint
    write_decision status expires state st =
        and_then numbers kinds
          (write_db numbers kinds engine
            (insert_trade_decision numbers (decision_at status expires state)
              (some (final_checkpoint state)) st.db)
            st)
          (λ u after. (answered state.portfolio_decision, after))

    abbrev pub set_positions : List (Row numbers) → State numbers kinds W → State numbers kinds W
    set_positions rows st = record st { db = record st.db { positions = rows } }

    abbrev pub after_flip_check :
        Row numbers
        → Price numbers kinds
        → List String × List (Row numbers)
        → State numbers kinds W
        → Answer Bool × State numbers kinds W
    after_flip_check existing price (ids, rows) st =
        if contains existing.id ids
        then (answered true, set_positions rows st)
        else and_then numbers kinds
            (outside numbers kinds (engine.record_excursion existing price rows)
              (set_positions rows st))
            (λ marked after. (answered false, set_positions marked after))

    -- `stoppedBeforeFlip`: the exits come first for a position that the commit may close.
    unfoldable pub before_flip :
        Option (Row numbers)
        → Thesis numbers
        → Price numbers kinds
        → State numbers kinds W
        → Answer Bool × State numbers kinds W
    before_flip none t price st = (answered false, st)
    before_flip (some existing) t price st =
        if existing.id == args.trade_thesis_id || is_held_by_rule numbers existing t
        then (answered false, st)
        else and_then numbers kinds (outside numbers kinds (engine.check_exits st.db.positions) st)
            (λ out after. after_flip_check existing price out after)

    -- The marker, where the commit did not carry it
    abbrev pub mark_complete : Bool → Progress numbers kinds → Finishing
    mark_complete true state st = (answered state.portfolio_decision, st)
    mark_complete false state st =
        and_then numbers kinds
          (write_db numbers kinds engine
            (record st.db {
              checkpoints = save_checkpoint (final_checkpoint state) st.db.checkpoints;
            })
            st)
          (λ u after. (answered state.portfolio_decision, after))

    abbrev pub if_folded :
        Bool → Progress numbers kinds → Option (Checkpoint (Progress numbers kinds))
    if_folded true state = some (final_checkpoint state)
    if_folded false state = none

    -- The commit, the settlement of what it replaced, and the marker
    unfoldable pub commit : Bool → Thesis numbers → Progress numbers kinds → Finishing
    unfolding commit_thesis save_checkpoint
    commit folded t state st =
        and_then numbers kinds
          (write_db numbers kinds engine
            (commit_thesis numbers t state (if_folded folded state) st.db) st)
          (λ u committed.
            and_then numbers kinds
              (outside numbers kinds (engine.settle_replaced committed.db.positions) committed)
              (λ v settled. mark_complete folded state settled))

    -- An entry at once, with the arguments of the commit
    abbrev pub execute_with :
        Option (Thesis numbers)
        → Option (Row numbers)
        → Price numbers kinds
        → Progress numbers kinds
        → Finishing
    execute_with none existing price state st = (threw, st)
    execute_with (some t) existing price state st =
        and_then numbers kinds (before_flip existing t price st)
          (λ stopped ready. commit (is_null existing && not stopped) t state ready)

    abbrev pub execute :
        Option (Row numbers) → Price numbers kinds → Progress numbers kinds → Finishing
    execute existing price state st =
        execute_with
          (thesis_for numbers kinds args engine.knobs price state.thesis state.verdict
            state.risk_decision state.portfolio_decision)
          existing price state st

    -- The branches of an approved thesis with a price
    unfoldable pub place :
        Option (Row numbers) → Price numbers kinds → Bool × Progress numbers kinds → Finishing
    unfolding write_decision before_flip commit is_entry_price_stale pending_entry_expires_at
    place existing price (true, state) st = write_decision rejected none state st
    place existing price (false, state) st =
        if is_entry_price_stale price.resolved (some args.as_of) entry_fresh_max_age_ms
        then write_decision pending_entry
            (pending_entry_expires_at (some args.as_of) pending_entry_expiry_ms) state st
        else if config.entry_confirmation
        then write_decision pending_entry
            (pending_entry_expires_at (some args.as_of) config.confirmation_expiry_ms)
            (record state { evidence = some (engine.pending_confirmation state price) }) st
        else execute existing price state st

    -- The trend filter, which a block of the range filter skips
    abbrev pub by_trend :
        Price numbers kinds → Bool × Progress numbers kinds → Bool × Progress numbers kinds
    by_trend price (true, state) = (true, state)
    by_trend price (false, state) =
        filtered config.trend_filter_active (engine.evaluate_trend_filter state price) state

    abbrev pub by_range :
        Price numbers kinds → Progress numbers kinds → Bool × Progress numbers kinds
    by_range price state =
        filtered config.range_location_filter (engine.evaluate_range_location state price) state

    abbrev pub with_price :
        Option (Row numbers) → Option (Price numbers kinds) → Progress numbers kinds → Finishing
    with_price existing none state st = write_decision skipped_no_price_data none state st
    with_price existing (some price) state st =
        place existing price (by_trend price (by_range price state)) st

    abbrev pub with_sign_off :
        Option (Row numbers) → Progress numbers kinds → PortfolioDecision numbers → Finishing
    with_sign_off existing state d st =
        let signed = record state { portfolio_decision = some d } in
        if d.approved_for_execution
        then and_then numbers kinds (outside numbers kinds engine.resolve_current_price st)
            (λ price after. with_price existing price signed after)
        else write_decision rejected none signed st

    abbrev pub if_signed :
        Option (Row numbers)
        → Progress numbers kinds
        → Option (PortfolioDecision numbers)
        → Finishing
    if_signed existing state none st = (threw, st)
    if_signed existing state (some d) st = with_sign_off existing state d st

    -- The stage "portfolio_checked"
    unfoldable pub finish : Progress numbers kinds → Finishing
    unfolding place write_decision get_open_position_for_ticker_as_of signed_off
    finish state st =
        let existing =
          get_open_position_for_ticker_as_of numbers args.run_id args.ticker args.as_of
            st.db.positions in
        and_then numbers kinds (outside numbers kinds engine.read_book st) (λ u after.
          if_signed existing state
            (signed_off numbers kinds args engine.knobs engine.floor state.thesis
              state.risk_decision st.db.positions)
            after)
