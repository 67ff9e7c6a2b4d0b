-- ===== src/Book/Verdict.antt =====
-- src/storage/run_store.js, `commitThesis`: the positions and the decision that a commit writes agree.
use news_market_ai.Common.{
  ℕ, ◌≡◌, refl, ap, ◌≢◌, ◌↔◌, ◌⊎◌, String, true, false, not, keyed_string, same_refl, Option, none,
  some, List, [], ◌∷◌, ◌++◌, map, any, arith, inl, inr, Bool-cases,
}
use news_market_ai.Exit.Numbers.{Numbers}
use news_market_ai.Book.{Row, Db, Checkpoint, Decision, opened, has_key}
use news_market_ai.Book.Guards.{
  Thesis, group_peers, exposure, stop_risk, group_exposure, book_return, max_portfolio_risk_pct,
  max_portfolio_stop_risk_pct, or_fallback,
}
use news_market_ai.Book.Limits.{
  is_newer, newer_exists, hold_exists, is_holding, fits_group, breaches_group, fits_breaker,
  breaches_breaker, fits, breaches, admits, status_of, group_cap, with_size, with_stop,
  breaker_level,
}
use news_market_ai.Book.Commit.{
  close_row, close_old, new_row, open_new, commit_positions, upgrade_decision, find_decision,
  decision_of, commit_thesis,
}
use news_market_ai.Book.Closing.{any-map, any-append, close_row-newer, close_row-holding}
use news_market_ai.Book.Outcome.{closing-Agree, opening-Agree, Agree-fits, Agree-breaches}

module _ (numbers : Numbers) where
  admits-all :
      (t : Thesis numbers) (rows : List (Row numbers))
      → admits numbers t rows ≡ true
      → (newer_exists numbers t rows ≡ false)
        × (fits numbers t rows ≡ true)
        × (hold_exists numbers t rows ≡ false)
  unfolding admits
  admits-all t rows h = ground arith

  fits-all :
      (t : Thesis numbers) (rows : List (Row numbers))
      → fits numbers t rows ≡ true
      → (numbers.at_most
            (with_size numbers t (exposure numbers t rows))
            (max_portfolio_risk_pct numbers)
          ≡ true)
        × (numbers.at_most
              (with_stop numbers t (stop_risk numbers t rows))
              (max_portfolio_stop_risk_pct numbers)
            ≡ true)
        × (fits_group numbers t (group_peers t.ticker) rows ≡ true)
        × (fits_breaker numbers t t.drawdown_breaker_window_days rows ≡ true)
  unfolding fits
  fits-all t rows h = ground arith

  closing-newer :
      (t : Thesis numbers) (rows : List (Row numbers))
      → newer_exists numbers t rows ≡ false
      → newer_exists numbers t (map (close_row numbers t) rows) ≡ false
  closing-newer t rows h =
      any-map numbers (is_newer numbers t) (is_newer numbers t) (close_row numbers t)
        (close_row-newer numbers t) rows h

  closing-hold :
      (t : Thesis numbers) (rows : List (Row numbers))
      → newer_exists numbers t rows ≡ false
      → hold_exists numbers t (map (close_row numbers t) rows) ≡ false
  closing-hold t rows h =
      any-map numbers (is_holding numbers t) (is_newer numbers t) (close_row numbers t)
        (λ r b. close_row-holding numbers t r) rows h

  pub closing-key :
      (t : Thesis numbers) (run id : String) (rows : List (Row numbers))
      → any (has_key run id) (map (close_row numbers t) rows) ≡ any (has_key run id) rows
  closing-key t run id [] = refl
  closing-key t run id (r ∷ rows) = ground (arith, closing-key t run id rows)

  -- `closeOld` leaves the guard of `openNew` as it was.
  pub closing-admits :
      (t : Thesis numbers) (rows : List (Row numbers))
      → admits numbers t rows ≡ true
      → admits numbers t (map (close_row numbers t) rows) ≡ true
  unfolding admits
  closing-admits t rows h =
      let all = admits-all t rows h in
      rw (closing-newer t rows all.0) (
        rw (closing-hold t rows all.0) (
          rw
            (Agree-fits numbers t rows (map (close_row numbers t) rows)
              (closing-Agree numbers t rows all.0))
            (rw all.1 refl)))

  -- What a commit makes of the positions: nothing, a close, or a close and a new row.
  pub commit_positions-refused :
      (t : Thesis numbers) (rows : List (Row numbers))
      → admits numbers t rows ≡ false
      → commit_positions numbers t rows ≡ rows
  unfolding commit_positions close_old open_new
  commit_positions-refused t rows h = rw h (rw h refl)

  pub commit_positions-again :
      (t : Thesis numbers) (rows : List (Row numbers))
      → admits numbers t rows ≡ true
      → any (has_key t.run_id t.id) rows ≡ true
      → commit_positions numbers t rows ≡ map (close_row numbers t) rows
  unfolding commit_positions close_old open_new
  commit_positions-again t rows h k =
      rw h (rw (closing-admits t rows h) (rw (closing-key t t.run_id t.id rows) (rw k refl)))

  pub commit_positions-admitted :
      (t : Thesis numbers) (rows : List (Row numbers))
      → admits numbers t rows ≡ true
      → any (has_key t.run_id t.id) rows ≡ false
      → commit_positions numbers t rows ≡ map (close_row numbers t) rows ++ (new_row numbers t ∷ [])
  unfolding commit_positions close_old open_new
  commit_positions-admitted t rows h k =
      rw h (rw (closing-admits t rows h) (rw (closing-key t t.run_id t.id rows) (rw k refl)))

  opening-newer :
      (t : Thesis numbers) (rows : List (Row numbers))
      → newer_exists numbers t (rows ++ (new_row numbers t ∷ [])) ≡ newer_exists numbers t rows
  opening-newer t rows =
      ground (arith, any-append numbers (is_newer numbers t) (new_row numbers t) rows)

  opening-hold :
      (t : Thesis numbers) (rows : List (Row numbers))
      → hold_exists numbers t (rows ++ (new_row numbers t ∷ [])) ≡ hold_exists numbers t rows
  opening-hold t rows =
      ground
        (arith, any-append numbers (is_holding numbers t) (new_row numbers t) rows, same_refl t.id)

  -- A row that is added leaves the guard as it was.
  pub opening-admits :
      (t : Thesis numbers) (rows : List (Row numbers))
      → admits numbers t (rows ++ (new_row numbers t ∷ [])) ≡ admits numbers t rows
  unfolding admits
  opening-admits t rows = rw (opening-newer t rows) (
      rw (opening-hold t rows) (
        rw
          (Agree-fits numbers t rows (rows ++ (new_row numbers t ∷ []))
            (opening-Agree numbers t rows))
          refl))

  opening-status :
      (t : Thesis numbers) (rows : List (Row numbers))
      → status_of numbers t (rows ++ (new_row numbers t ∷ [])) ≡ status_of numbers t rows
  unfolding status_of
  opening-status t rows = rw (opening-newer t rows) (
      rw (opening-hold t rows) (
        rw
          (Agree-breaches numbers t rows (rows ++ (new_row numbers t ∷ []))
            (opening-Agree numbers t rows))
          refl))

  closing-status :
      (t : Thesis numbers) (rows : List (Row numbers))
      → admits numbers t rows ≡ true
      → status_of numbers t (map (close_row numbers t) rows) ≡ status_of numbers t rows
  unfolding status_of
  closing-status t rows h =
      let all = admits-all t rows h in
      rw (closing-newer t rows all.0) (
        rw (closing-hold t rows all.0) (
          rw
            (Agree-breaches numbers t rows (map (close_row numbers t) rows)
              (closing-Agree numbers t rows all.0))
            (rw all.0 (rw all.2 refl))))

  -- The status that is read after the other two statements is the one before them.
  pub commit_positions-status :
      (t : Thesis numbers) (rows : List (Row numbers))
      → status_of numbers t (commit_positions numbers t rows) ≡ status_of numbers t rows
  commit_positions-status t rows = elim (Bool-cases (admits numbers t rows)) [
    | inr e ↦ rw (commit_positions-refused t rows e) refl
    | inl e ↦ elim (Bool-cases (any (has_key t.run_id t.id) rows)) [
      | inl k ↦ rw (commit_positions-again t rows e k) (closing-status t rows e)
      | inr k ↦
          rw (commit_positions-admitted t rows e k)
            (rw (opening-status t (map (close_row numbers t) rows)) (closing-status t rows e))
    ]
  ]

  module _
      (less_or_at_most : (a b : numbers.Num) → numbers.less b a ≡ not (numbers.at_most a b)) where
    breaches-fits_group :
        (t : Thesis numbers) (peers : List String) (rows : List (Row numbers))
        → breaches_group numbers t peers rows ≡ not (fits_group numbers t peers rows)
    breaches-fits_group t [] rows = refl
    breaches-fits_group t (peer ∷ peers) rows = ground (
      arith,
      less_or_at_most (with_size numbers t (group_exposure numbers t (peer ∷ peers) rows))
          (group_cap numbers t.ticker),
    )

    breaches-fits_breaker :
        (t : Thesis numbers) (window : Option ℕ) (rows : List (Row numbers))
        → breaches_breaker numbers t window rows ≡ not (fits_breaker numbers t window rows)
    breaches-fits_breaker t none rows = refl
    breaches-fits_breaker t (some days) rows =
        ground (arith, less_or_at_most (book_return numbers t days rows) (breaker_level numbers t))

    breaches-fits :
        (t : Thesis numbers) (rows : List (Row numbers))
        → breaches numbers t rows ≡ not (fits numbers t rows)
    unfolding breaches fits
    breaches-fits t rows = ground (
      arith,
      less_or_at_most (with_size numbers t (exposure numbers t rows))
          (max_portfolio_risk_pct numbers),
      less_or_at_most (with_stop numbers t (stop_risk numbers t rows))
          (max_portfolio_stop_risk_pct numbers),
      breaches-fits_group t (group_peers t.ticker) rows,
      breaches-fits_breaker t t.drawdown_breaker_window_days rows,
    )

    -- The CASE of the decision says 'opened' where the WHERE of the other two statements holds.
    pub status_of-opened :
        (t : Thesis numbers) (rows : List (Row numbers))
        → (status_of numbers t rows ≡ opened) ↔ (admits numbers t rows ≡ true)
    unfolding status_of admits
    status_of-opened t rows = ground (arith, breaches-fits t rows)

    commit_positions-split :
        (t : Thesis numbers) (rows : List (Row numbers))
        → any (has_key t.run_id t.id) rows ≡ false
        → ((status_of numbers t rows ≡ opened)
            × (commit_positions numbers t rows
                ≡ map (close_row numbers t) rows ++ (new_row numbers t ∷ [])))
          ⊎ ((status_of numbers t rows ≢ opened) × (commit_positions numbers t rows ≡ rows))
    commit_positions-split t rows k = elim (Bool-cases (admits numbers t rows)) [
      | inl e ↦ inl ((status_of-opened t rows).1 e, commit_positions-admitted t rows e k)
      | inr e ↦ inr (λ o. cc ((status_of-opened t rows).0 o, e), commit_positions-refused t rows e)
    ]

    upgrade_decision-fresh :
        {D : Type 0} (d : Decision D) (es : List (Decision D))
        → find_decision d.run_id d.id es ≡ none
        → find_decision d.run_id d.id (upgrade_decision d es) ≡ some d
    upgrade_decision-fresh d [] h = ground (arith, same_refl d.run_id, same_refl d.id)
    upgrade_decision-fresh d (e ∷ es) h = ground (arith, upgrade_decision-fresh d es)

    -- A commit of a thesis that has neither a decision nor a position yet stores one decision. Where its
    -- status is opened, the ticker's other open positions are closed and the new one is added;
    -- where it is superseded, held or rejected, no position changes.
    pub commit_thesis-decision :
        {D S : Type 0} (t : Thesis numbers) (content : D) (checkpoint : Option (Checkpoint S))
        (db : Db numbers D S)
        → find_decision t.run_id t.id db.decisions ≡ none
        → any (has_key t.run_id t.id) db.positions ≡ false
        → (find_decision t.run_id t.id (commit_thesis numbers t content checkpoint db).decisions
            ≡ some (decision_of numbers t content (status_of numbers t db.positions)))
          × (((status_of numbers t db.positions ≡ opened)
                × ((commit_thesis numbers t content checkpoint db).positions
                    ≡ map (close_row numbers t) db.positions ++ (new_row numbers t ∷ [])))
              ⊎ ((status_of numbers t db.positions ≢ opened)
                  × ((commit_thesis numbers t content checkpoint db).positions ≡ db.positions)))
    unfolding commit_thesis
    commit_thesis-decision t content checkpoint db h k = (
      rw (commit_positions-status t db.positions) (
          upgrade_decision-fresh (decision_of numbers t content (status_of numbers t db.positions))
            db.decisions h),
      commit_positions-split t db.positions k,
    )

    -- A commit that adds the row of its thesis had the guard of its statements.
    commit_positions-opens :
        (t : Thesis numbers) (rows : List (Row numbers))
        → any (has_key t.run_id t.id) rows ≡ false
        → any (has_key t.run_id t.id) (commit_positions numbers t rows) ≡ true
        → admits numbers t rows ≡ true
    commit_positions-opens t rows k added = elim (Bool-cases (admits numbers t rows)) [
      | inl e ↦ e
      | inr e ↦
          absurd
            (cc (added, k, ap (any (has_key t.run_id t.id)) (commit_positions-refused t rows e)))
    ]

    -- A commit adds the position of its thesis to the table only within the limits: with the book as the commit
    -- leaves it, the exposure of the other tickers and the new size stay within the ceiling, so does
    -- the loss at their stops, and neither the cap of the ticker's group nor the drawdown breaker is
    -- against it.
    pub commit_thesis-limits :
        {D S : Type 0} (t : Thesis numbers) (content : D) (checkpoint : Option (Checkpoint S))
        (db : Db numbers D S)
        → any (has_key t.run_id t.id) db.positions ≡ false
        → any (has_key t.run_id t.id) (commit_thesis numbers t content checkpoint db).positions
          ≡ true
        → (numbers.at_most
              (numbers.plus
                (exposure numbers t (commit_thesis numbers t content checkpoint db).positions)
                t.position_size_pct)
              (max_portfolio_risk_pct numbers)
            ≡ true)
          × (numbers.at_most
                (numbers.plus
                  (stop_risk numbers t (commit_thesis numbers t content checkpoint db).positions)
                  (numbers.times t.position_size_pct (or_fallback numbers t.stop_loss_pct)))
                (max_portfolio_stop_risk_pct numbers)
              ≡ true)
          × (fits_group numbers t
                (group_peers t.ticker)
                (commit_thesis numbers t content checkpoint db).positions
              ≡ true)
          × (fits_breaker numbers t t.drawdown_breaker_window_days
                (commit_thesis numbers t content checkpoint db).positions
              ≡ true)
    unfolding commit_thesis
    commit_thesis-limits t content checkpoint db k added =
        let status =
          (status_of-opened t db.positions).1 (commit_positions-opens t db.positions k added) in
        fits-all t (commit_positions numbers t db.positions)
          (admits-all t (commit_positions numbers t db.positions) (
            (status_of-opened t (commit_positions numbers t db.positions)).0
              (rw (commit_positions-status t db.positions) status))).1
