-- ===== src/Pipeline/Settles.antt =====
-- src/graph/pipeline.js: a run that answers has left its completion marker, so that another run of it calls nothing.
use news_market_ai.Common.{
  ℕ, ◌≡◌, refl, Bool, true, false, not, ◌&&◌, keyed_string, same_refl, Option, none, some, List, [],
  ◌∷◌, if◌then◌else◌, arith,
}
use news_market_ai.Exit.Numbers.{Numbers}
use news_market_ai.Book.{
  Row, Db, Checkpoint, Status, rejected, skipped_no_price_data, pending_entry, is_null,
  portfolio_checked,
}
use news_market_ai.Book.Guards.{Thesis}
use news_market_ai.Book.Commit.{
  commit_thesis, save_checkpoint, get_checkpoint, insert_trade_decision,
}
use news_market_ai.Risk.Portfolio.{PortfolioDecision}
use news_market_ai.Entry.{
  is_entry_price_stale, pending_entry_expires_at, pending_entry_expiry_ms, entry_fresh_max_age_ms,
}
use news_market_ai.Pipeline.{Kinds, Progress}
use news_market_ai.Pipeline.World.{
  Answer, answered, threw, Written, done, lost, unseen, Config, Args, Price, Engine, State,
  and_then, outside, after_write,
}
use news_market_ai.Pipeline.Inputs.{thesis_for}
use news_market_ai.Pipeline.Finish.{
  Result, final_checkpoint, decision_at, write_decision, before_flip, mark_complete, if_folded,
  commit, execute, execute_with, place, by_trend, by_range, with_price,
}

get_checkpoint-save_checkpoint :
    {S : Type 0} (c : Checkpoint S) (cs : List (Checkpoint S))
    → get_checkpoint c.run_id c.pipeline_run_id c.ticker (save_checkpoint c cs) ≡ some c
unfolding get_checkpoint save_checkpoint
get_checkpoint-save_checkpoint c [] =
    ground (arith, same_refl c.run_id, same_refl c.pipeline_run_id, same_refl c.ticker)
get_checkpoint-save_checkpoint c (d ∷ cs) = ground (
  arith,
  same_refl c.run_id,
  same_refl c.pipeline_run_id,
  same_refl c.ticker,
  get_checkpoint-save_checkpoint c cs,
)

module _ (numbers : Numbers) (kinds : Kinds) (config : Config) (args : Args) where
  -- The marker of this run, with the decision that the run answers.
  abbrev pub IsMarked :
      List (Checkpoint (Progress numbers kinds)) → Option (PortfolioDecision numbers) → Type 0
  IsMarked cs d =
      (c : Checkpoint (Progress numbers kinds)) × (get_checkpoint args.run_id args.pipeline_run_id
          args.ticker cs
        ≡ some c)
      × (c.stage ≡ portfolio_checked)
      × (c.state.portfolio_decision ≡ d)

  saved-IsMarked :
      (state : Progress numbers kinds) (cs : List (Checkpoint (Progress numbers kinds)))
      → IsMarked
          (save_checkpoint (final_checkpoint numbers kinds config args state) cs)
          state.portfolio_decision
  saved-IsMarked state cs = (
    final_checkpoint numbers kinds config args state,
    get_checkpoint-save_checkpoint (final_checkpoint numbers kinds config args state) cs,
    refl,
    refl,
  )

  module _ {W : Type 0} where
    abbrev pub IsComplete : Result numbers kinds config args W → Type 0
    IsComplete (threw, st) = Unit
    IsComplete (answered d, st) = IsMarked st.db.checkpoints d

    pub then-IsComplete :
        {A : Type 0} (out : Answer A × State numbers kinds W)
        (next : A → State numbers kinds W → Result numbers kinds config args W)
        → ((a : A) (st : State numbers kinds W) → IsComplete (next a st))
        → IsComplete (and_then numbers kinds out next)
    then-IsComplete (threw, st) next h = tt
    then-IsComplete (answered a, st) next h = h a st

    pub if-IsComplete :
        (b : Bool) (p q : Result numbers kinds config args W)
        → IsComplete p
        → IsComplete q
        → IsComplete (if b then p else q)
    if-IsComplete true p q h k = h
    if-IsComplete false p q h k = k

    -- A write that carries the marker, and then the answer of its state.
    marked-IsComplete :
        (state : Progress numbers kinds) (out : Written × W)
        (db : Db numbers (Progress numbers kinds) (Progress numbers kinds))
        (st : State numbers kinds W)
        → IsMarked db.checkpoints state.portfolio_decision
        → IsComplete (
            and_then numbers kinds
              (after_write numbers kinds out db st)
              (λ u after. (answered state.portfolio_decision, after)))
    marked-IsComplete state (done, w) db st h = h
    marked-IsComplete state (lost, w) db st h = tt
    marked-IsComplete state (unseen, w) db st h = tt

  module _ {W : Type 0} (engine : Engine numbers kinds W) where
    pub write_decision-IsComplete :
        (status : Status) (expires : Option ℕ) (state : Progress numbers kinds)
        (st : State numbers kinds W)
        → IsComplete (write_decision numbers kinds config args engine status expires state st)
    unfolding write_decision insert_trade_decision
    write_decision-IsComplete status expires state st =
        marked-IsComplete state (engine.write st.world)
          (insert_trade_decision numbers
            (decision_at numbers kinds config args status expires state)
            (some (final_checkpoint numbers kinds config args state)) st.db)
          st (saved-IsMarked state st.db.checkpoints)

    mark_complete-IsComplete :
        (state : Progress numbers kinds) (st : State numbers kinds W)
        → IsComplete (mark_complete numbers kinds config args engine false state st)
    mark_complete-IsComplete state st =
        marked-IsComplete state (engine.write st.world)
          (record st.db {
            checkpoints =
                save_checkpoint (final_checkpoint numbers kinds config args state)
                  st.db.checkpoints;
          })
          st (saved-IsMarked state st.db.checkpoints)

    -- After the write of the commit: the settlement leaves the marker that the batch carried.
    settled-IsComplete :
        (state : Progress numbers kinds) (st : State numbers kinds W)
        → IsMarked st.db.checkpoints state.portfolio_decision
        → IsComplete (
            and_then numbers kinds
              (outside numbers kinds (engine.settle_replaced st.db.positions) st)
              (λ v after. mark_complete numbers kinds config args engine true state after))
    settled-IsComplete state st h =
        answer-IsComplete (engine.settle_replaced st.db.positions st.world).0
      where
        answer-IsComplete :
            (out : Answer Unit)
            → IsComplete (
                and_then numbers kinds
                  (out, record st { world = (engine.settle_replaced st.db.positions st.world).1 })
                  (λ v after. mark_complete numbers kinds config args engine true state after))
        answer-IsComplete (answered v) = h
        answer-IsComplete threw = tt

    committed-IsComplete :
        (folded : Bool) (state : Progress numbers kinds) (out : Written × W)
        (db : Db numbers (Progress numbers kinds) (Progress numbers kinds))
        (st : State numbers kinds W)
        → (folded ≡ true → IsMarked db.checkpoints state.portfolio_decision)
        → IsComplete (
            and_then numbers kinds (after_write numbers kinds out db st) (λ u committed.
              and_then numbers kinds
                (outside numbers kinds (engine.settle_replaced committed.db.positions) committed)
                (λ v settled. mark_complete numbers kinds config args engine folded state settled)))
    committed-IsComplete folded state (lost, w) db st h = tt
    committed-IsComplete folded state (unseen, w) db st h = tt
    committed-IsComplete true state (done, w) db st h =
        settled-IsComplete state (record { db = db; world = w }) (h refl)
    committed-IsComplete false state (done, w) db st h =
        then-IsComplete
          (outside numbers kinds (engine.settle_replaced db.positions)
            (record { db = db; world = w }))
          (λ v settled. mark_complete numbers kinds config args engine false state settled)
          (λ v settled. mark_complete-IsComplete state settled)

    commit-IsMarked :
        (folded : Bool) (t : Thesis numbers) (state : Progress numbers kinds)
        (db : Db numbers (Progress numbers kinds) (Progress numbers kinds))
        → folded ≡ true
        → IsMarked
            (commit_thesis numbers t state
              (if_folded numbers kinds config args engine folded state)
              db).checkpoints
            state.portfolio_decision
    unfolding commit_thesis
    commit-IsMarked true t state db h = saved-IsMarked state db.checkpoints
    commit-IsMarked false t state db h = absurd (cc h)

    commit-IsComplete :
        (folded : Bool) (t : Thesis numbers) (state : Progress numbers kinds)
        (st : State numbers kinds W)
        → IsComplete (commit numbers kinds config args engine folded t state st)
    unfolding commit
    commit-IsComplete folded t state st =
        committed-IsComplete folded state (engine.write st.world)
          (commit_thesis numbers t state (if_folded numbers kinds config args engine folded state)
            st.db)
          st (commit-IsMarked folded t state st.db)

    execute_with-IsComplete :
        (t : Option (Thesis numbers)) (existing : Option (Row numbers))
        (price : Price numbers kinds) (state : Progress numbers kinds) (st : State numbers kinds W)
        → IsComplete (execute_with numbers kinds config args engine t existing price state st)
    execute_with-IsComplete none existing price state st = tt
    execute_with-IsComplete (some t) existing price state st =
        then-IsComplete (before_flip numbers kinds config args engine existing t price st)
          (λ stopped ready.
            commit numbers kinds config args engine (is_null existing && not stopped) t state ready)
          (λ stopped ready. commit-IsComplete (is_null existing && not stopped) t state ready)

    place-IsComplete :
        (existing : Option (Row numbers)) (price : Price numbers kinds)
        (blocked : Bool × Progress numbers kinds) (st : State numbers kinds W)
        → IsComplete (place numbers kinds config args engine existing price blocked st)
    unfolding place
    place-IsComplete existing price (true, state) st =
        write_decision-IsComplete rejected none state st
    place-IsComplete existing price (false, state) st =
        let pending = record state { evidence = some (engine.pending_confirmation state price) } in
        if-IsComplete (is_entry_price_stale price.resolved (some args.as_of) entry_fresh_max_age_ms)
          (write_decision numbers kinds config args engine pending_entry
            (pending_entry_expires_at (some args.as_of) pending_entry_expiry_ms) state st)
          (if config.entry_confirmation
            then write_decision numbers kinds config args engine pending_entry
                (pending_entry_expires_at (some args.as_of) config.confirmation_expiry_ms) pending
                st
            else execute numbers kinds config args engine existing price state st)
          (write_decision-IsComplete pending_entry
            (pending_entry_expires_at (some args.as_of) pending_entry_expiry_ms) state st)
          (if-IsComplete config.entry_confirmation
            (write_decision numbers kinds config args engine pending_entry
              (pending_entry_expires_at (some args.as_of) config.confirmation_expiry_ms) pending st)
            (execute numbers kinds config args engine existing price state st)
            (write_decision-IsComplete pending_entry
              (pending_entry_expires_at (some args.as_of) config.confirmation_expiry_ms) pending st)
            (execute_with-IsComplete
              (thesis_for numbers kinds args engine.knobs price state.thesis state.verdict
                state.risk_decision state.portfolio_decision)
              existing price state st))

    pub with_price-IsComplete :
        (existing : Option (Row numbers)) (price : Option (Price numbers kinds))
        (state : Progress numbers kinds) (st : State numbers kinds W)
        → IsComplete (with_price numbers kinds config args engine existing price state st)
    with_price-IsComplete existing none state st =
        write_decision-IsComplete skipped_no_price_data none state st
    with_price-IsComplete existing (some price) state st =
        place-IsComplete existing price
          (by_trend numbers kinds config args engine price
            (by_range numbers kinds config args engine price state))
          st
