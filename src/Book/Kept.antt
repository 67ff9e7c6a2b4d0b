-- ===== src/Book/Kept.antt =====
-- src/storage/run_store.js: what any sequence of writes leaves of the positions, `deleteRun` among them.
use news_market_ai.Common.{
  ℕ, zero, suc, ◌≡◌, ◌∙◌, refl, sym, ap, String, Bool, true, false, not, ◌&&◌, ◌||◌, ◌==◌,
  keyed_string, List, [], ◌∷◌, arith, inl, inr, Bool-cases,
}
use mathlib.Core.Path.{subst}
use news_market_ai.Exit.Numbers.{Numbers}
use news_market_ai.Book.{Row}
use news_market_ai.Book.Lifecycle.{drop_rows, delete_run}
use news_market_ai.Book.Single.{keep}
use news_market_ai.Book.Frozen.{
  Write, or_rows, run_write, AreKept, AreKept-refl, AreKept-trans, run_write-AreKept,
}

module _ (numbers : Numbers) where
  -- A write of the store to its positions: one that deletes none, or a chunk of `deleteRun`.
  pub data Call : Type 0 where
    updates : Write numbers → Call
    deletes : String → ℕ → Call

  abbrev pub run_call : Call → List (Row numbers) → List (Row numbers)
  run_call (updates w) rows = run_write numbers w rows
  run_call (deletes run limit) rows = or_rows numbers rows (delete_run numbers run limit rows)

  abbrev pub run_calls : List Call → List (Row numbers) → List (Row numbers)
  run_calls [] rows = rows
  run_calls (c ∷ cs) rows = run_calls cs (run_call c rows)

  -- The environment is not the one that is deleted, or it is "live".
  abbrev pub spares : Call → String → Bool
  spares (updates w) run = true
  spares (deletes deleted limit) run = not (deleted == run) || run == "live"

  abbrev pub spare_all : List Call → String → Bool
  spare_all [] run = true
  spare_all (c ∷ cs) run = spares c run && spare_all cs run

  -- The rows of the environments that pass a test.
  abbrev pub rows_of : (String → Bool) → List (Row numbers) → List (Row numbers)
  rows_of p rows = keep (λ r. p r.run_id) rows

  rows_of-AreKept :
      (p : String → Bool) (rows after : List (Row numbers))
      → AreKept numbers rows after
      → AreKept numbers (rows_of p rows) (rows_of p after)
  rows_of-AreKept p [] after h = tt
  rows_of-AreKept p (r ∷ rows) [] h = absurd h
  rows_of-AreKept p (r ∷ rows) (s ∷ after) h = elim (Bool-cases (p r.run_id)) [
    | inl b ↦
        let same : p s.run_id ≡ true = ap p h.0.0 ∙ b in
        rw b (rw same (h.0, rows_of-AreKept p rows after h.1))
    | inr b ↦
        let same : p s.run_id ≡ false = ap p h.0.0 ∙ b in
        rw b (rw same (rows_of-AreKept p rows after h.1))
  ]

  -- Dropping rows of one environment leaves the rows of the others.
  rows_of-drop :
      (p : String → Bool) (run : String) (limit : ℕ) (rows : List (Row numbers))
      → p run ≡ false
      → rows_of p (drop_rows numbers run limit rows) ≡ rows_of p rows
  rows_of-drop p run zero rows h = refl
  rows_of-drop p run (suc limit) [] h = refl
  rows_of-drop p run (suc limit) (r ∷ rows) h = elim (Bool-cases (r.run_id == run)) [
    | inl b ↦
        let same : p r.run_id ≡ false =
          subst (λ x. p x ≡ false) (sym ((keyed_string.same_iff r.run_id run).0 b)) h in
        rw b (rw same (rows_of-drop p run limit rows h))
    | inr b ↦ rw b (elim (Bool-cases (p r.run_id)) [
      | inl k ↦ rw k (ap (λ l. r ∷ l) (rows_of-drop p run (suc limit) rows h))
      | inr k ↦ rw k (rows_of-drop p run (suc limit) rows h)
    ])
  ]

  deletes-AreKept :
      (p : String → Bool) (run : String) (limit : ℕ) (rows : List (Row numbers))
      → ((other : String) → p other ≡ true → spares (deletes run limit) other ≡ true)
      → AreKept numbers (rows_of p rows) (rows_of p (run_call (deletes run limit) rows))
  unfolding delete_run
  deletes-AreKept p run limit rows h = elim (Bool-cases (run == "live")) [
    | inl b ↦ rw b (AreKept-refl numbers (rows_of p rows))
    | inr b ↦ rw b (elim (Bool-cases (p run)) [
      | inl k ↦ absurd (cc (h run k, b, (keyed_string.same_iff run run).1 refl))
      | inr k ↦
          subst (λ x. AreKept numbers (rows_of p rows) x) (sym (rows_of-drop p run limit rows k))
            (AreKept-refl numbers (rows_of p rows))
    ])
  ]

  run_calls-kept :
      (p : String → Bool) (cs : List Call) (rows : List (Row numbers))
      → ((run : String) → p run ≡ true → spare_all cs run ≡ true)
      → AreKept numbers (rows_of p rows) (rows_of p (run_calls cs rows))
  run_calls-kept p [] rows h = AreKept-refl numbers (rows_of p rows)
  run_calls-kept p (updates w ∷ cs) rows h =
      AreKept-trans numbers (rows_of p rows) (rows_of p (run_write numbers w rows))
        (rows_of p (run_calls cs (run_write numbers w rows)))
        (rows_of-AreKept p rows (run_write numbers w rows) (run_write-AreKept numbers w rows))
        (run_calls-kept p cs (run_write numbers w rows) h)
  run_calls-kept p (deletes deleted limit ∷ cs) rows h =
      let after = run_call (deletes deleted limit) rows in
      AreKept-trans numbers (rows_of p rows) (rows_of p after) (rows_of p (run_calls cs after))
        (deletes-AreKept p deleted limit rows (λ run k. first run (h run k)))
        (run_calls-kept p cs after (λ run k. rest run (h run k)))
    where
      first :
          (run : String)
          → (spares (deletes deleted limit) run && spare_all cs run) ≡ true
          → spares (deletes deleted limit) run ≡ true
      first run h = ground arith

      rest :
          (run : String)
          → (spares (deletes deleted limit) run && spare_all cs run) ≡ true
          → spare_all cs run ≡ true
      rest run h = ground arith

  -- Over any sequence of the store's writes to its positions, chunks of `deleteRun` among them, no row is lost of
  -- an environment that none of them deletes, nor any of "live": each stays in its order with its id, its
  -- ticker, its entry price and the instant it opened at, and a row that is closed stays exactly as it is.
  pub run_calls-AreKept :
      (cs : List Call) (rows : List (Row numbers))
      → AreKept numbers (rows_of (spare_all cs) rows) (rows_of (spare_all cs) (run_calls cs rows))
  run_calls-AreKept cs rows = run_calls-kept (spare_all cs) cs rows (λ run h. h)
