-- ===== src/Book/Retry.antt =====
-- src/storage/run_store.js, `commitThesis`: a queue's second delivery of the same commit.
use news_market_ai.Common.{
  ◌≡◌, refl, ap, ◌∙◌, false, keyed_string, same_refl, Option, none, some, List, [], ◌∷◌, ◌++◌, map,
  any, arith, inl, inr, Bool-cases,
}
use news_market_ai.Exit.Numbers.{Numbers}
use news_market_ai.Book.{Row, Db, Checkpoint, Decision, has_key}
use news_market_ai.Book.Guards.{Thesis}
use news_market_ai.Book.Limits.{admits, status_of}
use news_market_ai.Book.Commit.{
  close_row, new_row, commit_positions, commit_thesis, save_checkpoint, save_some, upgrade_decision,
  decision_of, is_pending,
}
use news_market_ai.Book.Closing.{any-append}
use news_market_ai.Book.Verdict.{
  commit_positions-refused, commit_positions-again, commit_positions-admitted, closing-admits,
  opening-admits, closing-key,
}

module _ (numbers : Numbers) where
  close_row-twice :
      (t : Thesis numbers) (r : Row numbers)
      → close_row numbers t (close_row numbers t r) ≡ close_row numbers t r
  close_row-twice t r = ground arith

  closing-twice :
      (t : Thesis numbers) (rows : List (Row numbers))
      → map (close_row numbers t) (map (close_row numbers t) rows) ≡ map (close_row numbers t) rows
  closing-twice t [] = refl
  closing-twice t (r ∷ rows) = rw (close_row-twice t r) (rw (closing-twice t rows) refl)

  closing-append :
      (t : Thesis numbers) (rows : List (Row numbers))
      → map (close_row numbers t) (rows ++ (new_row numbers t ∷ []))
        ≡ map (close_row numbers t) rows ++ (new_row numbers t ∷ [])
  closing-append t [] = ground (arith, same_refl t.id)
  closing-append t (r ∷ rows) = rw (closing-append t rows) refl

  commit_positions-twice :
      (t : Thesis numbers) (rows : List (Row numbers))
      → commit_positions numbers t (commit_positions numbers t rows)
        ≡ commit_positions numbers t rows
  commit_positions-twice t rows = elim (Bool-cases (admits numbers t rows)) [
    | inr e ↦
        rw (commit_positions-refused numbers t rows e) (commit_positions-refused numbers t rows e)
    | inl e ↦ elim (Bool-cases (any (has_key t.run_id t.id) rows)) [
      | inl k ↦ rw (commit_positions-again numbers t rows e k) (
          commit_positions-again numbers t (map (close_row numbers t) rows)
            (closing-admits numbers t rows e) (rw (closing-key numbers t t.run_id t.id rows) k)
          ∙ closing-twice t rows)
      | inr k ↦ rw (commit_positions-admitted numbers t rows e k) (
          commit_positions-again numbers t
            (map (close_row numbers t) rows ++ (new_row numbers t ∷ []))
            (rw (opening-admits numbers t (map (close_row numbers t) rows))
              (closing-admits numbers t rows e))
            (ground (
              arith,
              any-append numbers (has_key t.run_id t.id) (new_row numbers t)
                  (map (close_row numbers t) rows),
              same_refl t.run_id,
              same_refl t.id,
            ))
          ∙ (closing-append t (map (close_row numbers t) rows)
              ∙ ap (λ x. x ++ (new_row numbers t ∷ [])) (closing-twice t rows)))
    ]
  ]

  pub status_of-not_pending :
      (t : Thesis numbers) (rows : List (Row numbers))
      → is_pending (status_of numbers t rows) ≡ false
  unfolding status_of
  status_of-not_pending t rows = ground arith

  upgrade_decision-twice :
      {D : Type 0} (d : Decision D) (es : List (Decision D))
      → is_pending d.status ≡ false
      → upgrade_decision d (upgrade_decision d es) ≡ upgrade_decision d es
  upgrade_decision-twice d [] h = ground (arith, same_refl d.run_id, same_refl d.id)
  upgrade_decision-twice d (e ∷ es) h = ground (arith, upgrade_decision-twice d es h)

  save_checkpoint-twice :
      {S : Type 0} (c : Checkpoint S) (cs : List (Checkpoint S))
      → save_checkpoint c (save_checkpoint c cs) ≡ save_checkpoint c cs
  unfolding save_checkpoint
  save_checkpoint-twice c [] =
      ground (arith, same_refl c.run_id, same_refl c.pipeline_run_id, same_refl c.ticker)
  save_checkpoint-twice c (d ∷ cs) = ground (
    arith,
    same_refl c.run_id,
    same_refl c.pipeline_run_id,
    same_refl c.ticker,
    save_checkpoint-twice c cs,
  )

  save_some-twice :
      {S : Type 0} (c : Option (Checkpoint S)) (cs : List (Checkpoint S))
      → save_some c (save_some c cs) ≡ save_some c cs
  save_some-twice none cs = refl
  save_some-twice (some c) cs = save_checkpoint-twice c cs

  -- Whatever the verdict, a second commit of the same thesis right after the first changes nothing: no
  -- position, no decision, no checkpoint.
  pub commit_thesis-twice :
      {D S : Type 0} (t : Thesis numbers) (content : D) (checkpoint : Option (Checkpoint S))
      (db : Db numbers D S)
      → commit_thesis numbers t content checkpoint (commit_thesis numbers t content checkpoint db)
        ≡ commit_thesis numbers t content checkpoint db
  unfolding commit_thesis
  commit_thesis-twice t content checkpoint db = rw (commit_positions-twice t db.positions) (
      rw
        (upgrade_decision-twice
          (decision_of numbers t content
            (status_of numbers t (commit_positions numbers t db.positions)))
          db.decisions (status_of-not_pending t (commit_positions numbers t db.positions)))
        (rw (save_some-twice checkpoint db.checkpoints) refl))
