-- ===== src/Book/Frozen.antt =====
-- src/storage/run_store.js: what a write that deletes nothing leaves of the positions.
use news_market_ai.Common.{
  ℕ, ◌≡◌, refl, sym, ap, ◌∙◌, String, Bool, true, false, ◌&&◌, keyed_string, Option, none, some,
  List, [], ◌∷◌, ◌++◌, map, any, if◌then◌else◌, arith, inl, inr, Bool-cases,
}
use mathlib.Core.Path.{subst}
use news_market_ai.Exit.Numbers.{Numbers, usable}
use news_market_ai.Book.{Row, CloseReason, has_key, is_open, is_null}
use news_market_ai.Book.Guards.{Thesis}
use news_market_ai.Book.Limits.{admits}
use news_market_ai.Book.Commit.{close_row, closed_row, is_closing, new_row, commit_positions}
use news_market_ai.Book.Lifecycle.{
  update_where, is_open_row, bare_row, has_open, open_position, set_closed, close_position,
  moves_extremes, fold_extremes, record_position_excursion, record_position_excursion_range,
  advance_position_check, mark_row, checked_before, at_most_zero, at_least_zero, coalesce,
  if_positive,
}
use news_market_ai.Book.Verdict.{
  commit_positions-refused, commit_positions-again, commit_positions-admitted,
}

module _ (numbers : Numbers) where
  -- One write of the store to its positions, of those that delete none.
  pub data Write : Type 0 where
    commits : Thesis numbers → Write
    opens : Thesis numbers → Write
    closes_one : String → String → ℕ → Option CloseReason → Option numbers.Num → Write
    excursion : String → String → numbers.Num → Write
    excursion_range : String → String → Option numbers.Num → Option numbers.Num → Write
    advances : String → String → Option ℕ → Option numbers.Num → Option numbers.Num → Write

  -- A write that throws leaves the table as it was.
  abbrev pub or_rows : List (Row numbers) → Option (List (Row numbers)) → List (Row numbers)
  or_rows rows none = rows
  or_rows rows (some after) = after

  abbrev pub run_write : Write → List (Row numbers) → List (Row numbers)
  run_write (commits t) rows = commit_positions numbers t rows
  run_write (opens t) rows = or_rows rows (open_position numbers t rows)
  run_write (closes_one run id at reason exit_price) rows =
      (close_position numbers run id at reason exit_price rows).1
  run_write (excursion run id return_pct) rows =
      (record_position_excursion numbers run id return_pct rows).1
  run_write (excursion_range run id mae_pct mfe_pct) rows =
      (record_position_excursion_range numbers run id mae_pct mfe_pct rows).1
  run_write (advances run id at last_price peak_price) rows =
      (advance_position_check numbers run id at last_price peak_price rows).1

  -- What a later table keeps of a row: its identity, and all of it once it is closed.
  abbrev pub IsKept : Row numbers → Row numbers → Type 0
  IsKept r after =
      (after.run_id ≡ r.run_id)
      × (after.id ≡ r.id)
      × (after.ticker ≡ r.ticker)
      × (after.opened_at ≡ r.opened_at)
      × (after.entry_price ≡ r.entry_price)
      × (is_open r ≡ false → after ≡ r)

  IsKept-refl : (r : Row numbers) → IsKept r r
  IsKept-refl r = (refl, refl, refl, refl, refl, λ h. refl)

  IsKept-trans : (r s t : Row numbers) → IsKept r s → IsKept s t → IsKept r t
  IsKept-trans r s t (a, b, c, d, e, f) (a', b', c', d', e', f') =
      (a' ∙ a, b' ∙ b, c' ∙ c, d' ∙ d, e' ∙ e, λ h. f' (ap is_open (f h) ∙ h) ∙ f h)

  -- Every row of a table is kept at its place in a later one.
  abbrev pub AreKept : List (Row numbers) → List (Row numbers) → Type 0
  AreKept [] after = Unit
  AreKept (r ∷ rows) [] = ⊥
  AreKept (r ∷ rows) (s ∷ after) = IsKept r s × AreKept rows after

  -- The columns that no update sets.
  IsSame : Row numbers → Row numbers → Type 0
  IsSame r s =
      (s.run_id ≡ r.run_id)
      × (s.id ≡ r.id)
      × (s.ticker ≡ r.ticker)
      × (s.opened_at ≡ r.opened_at)
      × (s.entry_price ≡ r.entry_price)

  guarded-IsKept :
      (b : Bool) (r s : Row numbers)
      → (b ≡ true → is_open r ≡ true)
      → IsSame r s
      → IsKept r (if b then s else r)
  unfolding IsSame
  guarded-IsKept false r s open_only same = IsKept-refl r
  guarded-IsKept true r s open_only (a, b, c, d, e) =
      (a, b, c, d, e, λ h. absurd (cc (open_only refl, h)))

  map-AreKept :
      (f : Row numbers → Row numbers)
      → ((r : Row numbers) → IsKept r (f r))
      → (rows : List (Row numbers)) → AreKept rows (map f rows)
  map-AreKept f h [] = tt
  map-AreKept f h (r ∷ rows) = (h r, map-AreKept f h rows)

  append-AreKept :
      (new : Row numbers) (rows after : List (Row numbers))
      → AreKept rows after
      → AreKept rows (after ++ (new ∷ []))
  append-AreKept new [] after h = tt
  append-AreKept new (r ∷ rows) [] h = absurd h
  append-AreKept new (r ∷ rows) (s ∷ after) h = (h.0, append-AreKept new rows after h.1)

  pub AreKept-refl : (rows : List (Row numbers)) → AreKept rows rows
  AreKept-refl [] = tt
  AreKept-refl (r ∷ rows) = (IsKept-refl r, AreKept-refl rows)

  pub AreKept-trans :
      (rows mid after : List (Row numbers))
      → AreKept rows mid
      → AreKept mid after
      → AreKept rows after
  AreKept-trans [] mid after h k = tt
  AreKept-trans (r ∷ rows) [] after h k = absurd h
  AreKept-trans (r ∷ rows) (s ∷ mid) [] h k = absurd k
  AreKept-trans (r ∷ rows) (s ∷ mid) (t ∷ after) h k =
      (IsKept-trans r s t h.0 k.0, AreKept-trans rows mid after h.1 k.1)

  update-AreKept :
      (p : Row numbers → Bool) (change : Row numbers → Row numbers)
      → ((r : Row numbers) → p r ≡ true → is_open r ≡ true)
      → ((r : Row numbers) → IsSame r (change r))
      → (rows : List (Row numbers)) → AreKept rows (update_where p change rows).1
  update-AreKept p change open_only same rows =
      map-AreKept (λ r. if p r then change r else r)
        (λ r. guarded-IsKept (p r) r (change r) (open_only r) (same r)) rows

  closing-AreKept :
      (t : Thesis numbers) (rows : List (Row numbers))
      → AreKept rows (map (close_row numbers t) rows)
  unfolding IsSame
  closing-AreKept t rows =
      map-AreKept (close_row numbers t)
        (λ r.
          guarded-IsKept (is_closing numbers t r) r (closed_row numbers t r) (λ h. ground arith)
            (refl, refl, refl, refl, refl))
        rows

  commit-AreKept :
      (t : Thesis numbers) (rows : List (Row numbers))
      → AreKept rows (commit_positions numbers t rows)
  commit-AreKept t rows = elim (Bool-cases (admits numbers t rows)) [
    | inr e ↦
        subst (λ x. AreKept rows x) (sym (commit_positions-refused numbers t rows e))
          (AreKept-refl rows)
    | inl e ↦ elim (Bool-cases (any (has_key t.run_id t.id) rows)) [
      | inl k ↦
          subst (λ x. AreKept rows x) (sym (commit_positions-again numbers t rows e k))
            (closing-AreKept t rows)
      | inr k ↦
          subst (λ x. AreKept rows x) (sym (commit_positions-admitted numbers t rows e k))
            (append-AreKept (new_row numbers t) rows (map (close_row numbers t) rows)
              (closing-AreKept t rows))
    ]
  ]

  -- A test that guards an update, or nothing is written.
  if-AreKept :
      (b : Bool) (rows : List (Row numbers)) (written : Bool × List (Row numbers))
      → AreKept rows written.1
      → AreKept rows (if b then written else (false, rows)).1
  if-AreKept true rows written h = h
  if-AreKept false rows written h = AreKept-refl rows

  unless-AreKept :
      (b : Bool) (rows : List (Row numbers)) (written : Bool × List (Row numbers))
      → AreKept rows written.1
      → AreKept rows (if b then (false, rows) else written).1
  unless-AreKept true rows written h = AreKept-refl rows
  unless-AreKept false rows written h = h

  open-AreKept :
      (known occupied : Bool) (new : Row numbers) (rows : List (Row numbers))
      → AreKept rows (
          or_rows rows
            (if known then some rows else if occupied then none else some (rows ++ (new ∷ []))))
  open-AreKept true occupied new rows = AreKept-refl rows
  open-AreKept false true new rows = AreKept-refl rows
  open-AreKept false false new rows = append-AreKept new rows rows (AreKept-refl rows)

  extremes-AreKept :
      (run id : String) (mae mfe : numbers.Num) (rows : List (Row numbers))
      → AreKept rows
          (update_where
            (moves_extremes numbers run id mae mfe)
            (fold_extremes numbers mae mfe)
            rows).1
  unfolding IsSame
  extremes-AreKept run id mae mfe rows =
      update-AreKept (moves_extremes numbers run id mae mfe) (fold_extremes numbers mae mfe)
        (λ r h. ground arith) (λ r. (refl, refl, refl, refl, refl)) rows

  pub run_write-AreKept : (w : Write) (rows : List (Row numbers)) → AreKept rows (run_write w rows)
  unfolding IsSame open_position close_position record_position_excursion
      record_position_excursion_range advance_position_check
  run_write-AreKept (commits t) rows = commit-AreKept t rows
  run_write-AreKept (opens t) rows =
      open-AreKept (any (has_key t.run_id t.id) rows) (has_open numbers t rows) (bare_row numbers t)
        rows
  run_write-AreKept (closes_one run id at reason exit_price) rows =
      update-AreKept (is_open_row numbers run id) (set_closed numbers at reason exit_price)
        (λ r h. ground arith) (λ r. (refl, refl, refl, refl, refl)) rows
  run_write-AreKept (excursion run id return_pct) rows =
      if-AreKept (numbers.is_finite return_pct) rows
        (update_where (moves_extremes numbers run id return_pct return_pct)
          (fold_extremes numbers return_pct return_pct) rows)
        (extremes-AreKept run id return_pct return_pct rows)
  run_write-AreKept (excursion_range run id mae_pct mfe_pct) rows =
      let mae = at_most_zero numbers (usable numbers mae_pct) in
      let mfe = at_least_zero numbers (usable numbers mfe_pct) in
      unless-AreKept (is_null mae && is_null mfe) rows
        (update_where
          (moves_extremes numbers run id (coalesce numbers mae numbers.zero)
            (coalesce numbers mfe numbers.zero))
          (fold_extremes numbers (coalesce numbers mae numbers.zero)
            (coalesce numbers mfe numbers.zero))
          rows)
        (extremes-AreKept run id (coalesce numbers mae numbers.zero)
          (coalesce numbers mfe numbers.zero) rows)
  run_write-AreKept (advances run id none last_price peak_price) rows = AreKept-refl rows
  run_write-AreKept (advances run id (some at) last_price peak_price) rows =
      update-AreKept
        (λ r. is_open_row numbers run id r && checked_before numbers at r.last_checked_at)
        (mark_row numbers at (if_positive numbers last_price) (if_positive numbers peak_price))
        (λ r h. ground arith) (λ r. (refl, refl, refl, refl, refl)) rows
