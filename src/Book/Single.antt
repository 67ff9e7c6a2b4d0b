-- ===== src/Book/Single.antt =====
-- src/storage/run_store.js, `commitThesis`: one open position per ticker, one row per id, and nothing outside the ticker.
use news_market_ai.Common.{
  ℕ, suc, ◌+◌, ◌≤◌, ◌≡◌, refl, String, Bool, true, false, not, ◌&&◌, keyed_string, same_refl,
  Option, List, [], ◌∷◌, ◌++◌, map, any, if◌then◌else◌, arith, inl, inr, Bool-cases,
}
use news_market_ai.Exit.Numbers.{Numbers}
use news_market_ai.Book.{Row, Db, Checkpoint, has_key, is_mine, is_open}
use news_market_ai.Book.Guards.{Thesis}
use news_market_ai.Book.Limits.{admits}
use news_market_ai.Book.Commit.{close_row, new_row, commit_positions, commit_thesis}
use news_market_ai.Book.Verdict.{
  commit_positions-refused, commit_positions-again, commit_positions-admitted,
}

module _ {numbers : Numbers} where
  abbrev pub count_where : (Row numbers → Bool) → List (Row numbers) → ℕ
  count_where p [] = 0
  count_where p (r ∷ rows) = let rest = count_where p rows in if p r then suc rest else rest

  abbrev pub keep : (Row numbers → Bool) → List (Row numbers) → List (Row numbers)
  keep p [] = []
  keep p (r ∷ rows) = let rest = keep p rows in if p r then r ∷ rest else rest

  -- At most one open position of a ticker in an environment, and at most one row of an id.
  abbrev pub IsSingle : List (Row numbers) → Type 0
  IsSingle rows =
      ((run ticker : String) → count_where (λ r. is_mine run ticker r && is_open r) rows ≤ 1)
      × ((run id : String) → count_where (has_key run id) rows ≤ 1)

module _ (numbers : Numbers) where
  count_where-append :
      (p : Row numbers → Bool) (new : Row numbers) (rows : List (Row numbers))
      → count_where p (rows ++ (new ∷ [])) ≡ count_where p rows + (if p new then 1 else 0)
  count_where-append p new [] = ground arith
  count_where-append p new (r ∷ rows) = ground (arith, count_where-append p new rows)

  count_where-none :
      (p : Row numbers → Bool) (rows : List (Row numbers))
      → any p rows ≡ false
      → count_where p rows ≡ 0
  count_where-none p [] h = refl
  count_where-none p (r ∷ rows) h = ground (arith, count_where-none p rows)

  count_where-closing :
      (t : Thesis numbers) (p q : Row numbers → Bool)
      → ((r : Row numbers) → p (close_row numbers t r) ≡ true → q r ≡ true)
      → (rows : List (Row numbers))
      → count_where p (map (close_row numbers t) rows) ≤ count_where q rows
  count_where-closing t p q h [] = omega arith
  count_where-closing t p q h (r ∷ rows) = ground (arith, h r, count_where-closing t p q h rows)

  -- After `closeOld` the ticker's open rows are the thesis' own.
  closing-own :
      (t : Thesis numbers) (r : Row numbers)
      → (is_mine t.run_id t.ticker (close_row numbers t r) && is_open (close_row numbers t r))
        ≡ true
      → has_key t.run_id t.id r ≡ true
  closing-own t r h = ground arith

  closing-open :
      (t : Thesis numbers) (run ticker : String) (r : Row numbers)
      → (is_mine run ticker (close_row numbers t r) && is_open (close_row numbers t r)) ≡ true
      → (is_mine run ticker r && is_open r) ≡ true
  closing-open t run ticker r h = ground arith

  closing-has_key :
      (t : Thesis numbers) (run id : String) (r : Row numbers)
      → has_key run id (close_row numbers t r) ≡ true
      → has_key run id r ≡ true
  closing-has_key t run id r h = ground arith

  closing-IsSingle :
      (t : Thesis numbers) (rows : List (Row numbers))
      → IsSingle rows
      → IsSingle (map (close_row numbers t) rows)
  closing-IsSingle t rows h = (
    λ run ticker. omega (
      arith,
      h.0 run ticker,
      count_where-closing t (λ r. is_mine run ticker r && is_open r)
          (λ r. is_mine run ticker r && is_open r) (closing-open t run ticker) rows,
    ),
    λ run id. omega (
      arith,
      h.1 run id,
      count_where-closing t (has_key run id) (has_key run id) (closing-has_key t run id) rows,
    ),
  )

  own-same :
      (t : Thesis numbers) (run ticker : String)
      → (is_mine run ticker (new_row numbers t) && is_open (new_row numbers t)) ≡ true
      → (run ≡ t.run_id) × (ticker ≡ t.ticker)
  own-same t run ticker h =
      ground (arith, keyed_string.same_iff t.run_id run, keyed_string.same_iff t.ticker ticker)

  key-same :
      (t : Thesis numbers) (run id : String)
      → has_key run id (new_row numbers t) ≡ true
      → (run ≡ t.run_id) × (id ≡ t.id)
  key-same t run id h =
      ground (arith, keyed_string.same_iff t.run_id run, keyed_string.same_iff t.id id)

  closing-own_none :
      (t : Thesis numbers) (rows : List (Row numbers))
      → any (has_key t.run_id t.id) rows ≡ false
      → count_where (λ r. is_mine t.run_id t.ticker r && is_open r) (map (close_row numbers t) rows)
        ≡ 0
  closing-own_none t rows h = omega (
    arith,
    count_where-none (has_key t.run_id t.id) rows h,
    count_where-closing t (λ r. is_mine t.run_id t.ticker r && is_open r) (has_key t.run_id t.id)
        (closing-own t) rows,
  )

  closing-key_none :
      (t : Thesis numbers) (rows : List (Row numbers))
      → any (has_key t.run_id t.id) rows ≡ false
      → count_where (has_key t.run_id t.id) (map (close_row numbers t) rows) ≡ 0
  closing-key_none t rows h = omega (
    arith,
    count_where-none (has_key t.run_id t.id) rows h,
    count_where-closing t (has_key t.run_id t.id) (has_key t.run_id t.id)
        (closing-has_key t t.run_id t.id) rows,
  )

  -- A new row keeps a count within one where it was zero, or where the row is not counted.
  append_within :
      (p : Row numbers → Bool) (new : Row numbers) (rows : List (Row numbers))
      → (p new ≡ true → count_where p rows ≡ 0)
      → count_where p rows ≤ 1
      → count_where p (rows ++ (new ∷ [])) ≤ 1
  append_within p new rows h k = ground (arith, count_where-append p new rows)

  opening-IsSingle :
      (t : Thesis numbers) (rows : List (Row numbers))
      → any (has_key t.run_id t.id) rows ≡ false
      → IsSingle rows
      → IsSingle (map (close_row numbers t) rows ++ (new_row numbers t ∷ []))
  opening-IsSingle t rows k h =
      let closed = closing-IsSingle t rows h in
      (
        λ run ticker.
            append_within (λ r. is_mine run ticker r && is_open r) (new_row numbers t)
              (map (close_row numbers t) rows)
              (λ b.
                let same = own-same t run ticker b in
                rw same.0 (rw same.1 (closing-own_none t rows k)))
              (closed.0 run ticker),
        λ run id.
            append_within (has_key run id) (new_row numbers t) (map (close_row numbers t) rows)
              (λ b.
                let same = key-same t run id b in rw same.0 (rw same.1 (closing-key_none t rows k)))
              (closed.1 run id),
      )

  commit_positions-IsSingle :
      (t : Thesis numbers) (rows : List (Row numbers))
      → IsSingle rows
      → IsSingle (commit_positions numbers t rows)
  commit_positions-IsSingle t rows h = elim (Bool-cases (admits numbers t rows)) [
    | inr e ↦ rw (commit_positions-refused numbers t rows e) h
    | inl e ↦ elim (Bool-cases (any (has_key t.run_id t.id) rows)) [
      | inl k ↦ rw (commit_positions-again numbers t rows e k) (closing-IsSingle t rows h)
      | inr k ↦ rw (commit_positions-admitted numbers t rows e k) (opening-IsSingle t rows k h)
    ]
  ]

  -- Every commit keeps it that an environment has at most one open position of a ticker, and at most one
  -- position of an id.
  pub commit_thesis-IsSingle :
      {D S : Type 0} (t : Thesis numbers) (content : D) (checkpoint : Option (Checkpoint S))
      (db : Db numbers D S)
      → IsSingle db.positions
      → IsSingle (commit_thesis numbers t content checkpoint db).positions
  unfolding commit_thesis
  commit_thesis-IsSingle t content checkpoint db h = commit_positions-IsSingle t db.positions h

  keep-closing :
      (t : Thesis numbers) (rows : List (Row numbers))
      → keep (λ r. not (is_mine t.run_id t.ticker r)) (map (close_row numbers t) rows)
        ≡ keep (λ r. not (is_mine t.run_id t.ticker r)) rows
  keep-closing t [] = refl
  keep-closing t (r ∷ rows) = ground (arith, keep-closing t rows)

  keep-append :
      (p : Row numbers → Bool) (new : Row numbers) (rows : List (Row numbers))
      → p new ≡ false
      → keep p (rows ++ (new ∷ [])) ≡ keep p rows
  keep-append p new [] h = rw h refl
  keep-append p new (r ∷ rows) h = ground (arith, keep-append p new rows h)

  commit_positions-elsewhere :
      (t : Thesis numbers) (rows : List (Row numbers))
      → keep (λ r. not (is_mine t.run_id t.ticker r)) (commit_positions numbers t rows)
        ≡ keep (λ r. not (is_mine t.run_id t.ticker r)) rows
  commit_positions-elsewhere t rows = elim (Bool-cases (admits numbers t rows)) [
    | inr e ↦ rw (commit_positions-refused numbers t rows e) refl
    | inl e ↦ elim (Bool-cases (any (has_key t.run_id t.id) rows)) [
      | inl k ↦ rw (commit_positions-again numbers t rows e k) (keep-closing t rows)
      | inr k ↦ rw (commit_positions-admitted numbers t rows e k) (
          rw
            (keep-append (λ r. not (is_mine t.run_id t.ticker r)) (new_row numbers t)
              (map (close_row numbers t) rows)
              (ground (arith, same_refl t.run_id, same_refl t.ticker)))
            (keep-closing t rows))
    ]
  ]

  -- A commit leaves the positions of every other ticker and of every other environment as they are, and in
  -- their order.
  pub commit_thesis-elsewhere :
      {D S : Type 0} (t : Thesis numbers) (content : D) (checkpoint : Option (Checkpoint S))
      (db : Db numbers D S)
      → keep
          (λ r. not (is_mine t.run_id t.ticker r))
          (commit_thesis numbers t content checkpoint db).positions
        ≡ keep (λ r. not (is_mine t.run_id t.ticker r)) db.positions
  unfolding commit_thesis
  commit_thesis-elsewhere t content checkpoint db = commit_positions-elsewhere t db.positions
