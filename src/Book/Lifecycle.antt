-- ===== src/Book/Lifecycle.antt =====
-- src/storage/run_store.js: the writes that open, mark and close single positions. Each answers whether a row changed.
use news_market_ai.Common.{
  ℕ, zero, suc, String, Bool, true, false, ◌&&◌, ◌||◌, ◌==◌, keyed_string, Option, none, some, List,
  [], ◌∷◌, ◌++◌, map, any, ltb, if◌then◌else◌,
}
use news_market_ai.Exit.Numbers.{Numbers, Direction, short, lower, higher, usable}
use news_market_ai.Book.{
  Row, CloseReason, Decision, skipped_no_fill, has_key, is_mine, is_open, is_null,
}
use news_market_ai.Book.Guards.{Thesis}
use news_market_ai.Book.Commit.{new_row, is_pending}

-- `UPDATE positions SET ... WHERE ...`, and whether it changed a row
abbrev pub update_where :
    {numbers : Numbers}
    → (Row numbers → Bool)
    → (Row numbers → Row numbers)
    → List (Row numbers)
    → Bool × List (Row numbers)
update_where p change rows = (any p rows, map (λ r. if p r then change r else r) rows)

module _ (numbers : Numbers) where
  -- `run_id = ? AND id = ? AND closed_at IS NULL`
  abbrev pub is_open_row : String → String → Row numbers → Bool
  is_open_row run id r = has_key run id r && is_open r

  -- `openPosition`: its insert has neither confidence nor the origin of the price.
  abbrev pub bare_row : Thesis numbers → Row numbers
  bare_row t = record (new_row numbers t) {
    confidence = none;
    entry_price_source = none;
    entry_price_bar_ts = none;
  }

  -- The unique index on the open position of a ticker
  abbrev pub has_open : Thesis numbers → List (Row numbers) → Bool
  has_open t rows = any (λ r. is_mine t.run_id t.ticker r && is_open r) rows

  -- `openPosition`; `none` where the unique index lets the insert throw
  unfoldable pub open_position : Thesis numbers → List (Row numbers) → Option (List (Row numbers))
  open_position t rows =
      if any (has_key t.run_id t.id) rows
      then some rows
      else if has_open t rows
      then none
      else some (rows ++ (bare_row t ∷ []))

  -- The first rows of an environment, as many as the limit says, go.
  abbrev pub drop_rows : String → ℕ → List (Row numbers) → List (Row numbers)
  drop_rows run zero rows = rows
  drop_rows run (suc limit) [] = []
  drop_rows run (suc limit) (r ∷ rows) =
      let fewer = drop_rows run limit rows in
      let rest = drop_rows run (suc limit) rows in if r.run_id == run then fewer else r ∷ rest

  -- `deleteRun` on the positions; `none` where it refuses. SQL leaves open which rows its LIMIT takes; here they
  -- are the first.
  unfoldable pub delete_run : String → ℕ → List (Row numbers) → Option (List (Row numbers))
  delete_run run limit rows = if run == "live" then none else some (drop_rows run limit rows)

  abbrev pub set_closed : ℕ → Option CloseReason → Option numbers.Num → Row numbers → Row numbers
  set_closed at reason exit_price r = record r {
    closed_at = some at;
    close_reason = reason;
    exit_price = exit_price;
  }

  -- `closePosition`
  unfoldable pub close_position :
      String
      → String
      → ℕ
      → Option CloseReason
      → Option numbers.Num
      → List (Row numbers)
      → Bool × List (Row numbers)
  close_position run id at reason exit_price rows =
      update_where (is_open_row run id) (set_closed at reason exit_price) rows

  -- `COALESCE(column, ?)`
  abbrev pub coalesce : Option numbers.Num → numbers.Num → numbers.Num
  coalesce none b = b
  coalesce (some a) b = a

  abbrev pub fold_extremes : numbers.Num → numbers.Num → Row numbers → Row numbers
  fold_extremes mae mfe r = record r {
    mae_pct = some (lower numbers (coalesce r.mae_pct numbers.zero) mae);
    mfe_pct = some (higher numbers (coalesce r.mfe_pct numbers.zero) mfe);
  }

  -- `? < mae_pct`, `? > mfe_pct`, false on a NULL
  abbrev pub is_below : numbers.Num → Option numbers.Num → Bool
  is_below a none = false
  is_below a (some b) = numbers.less a b

  abbrev pub is_above : numbers.Num → Option numbers.Num → Bool
  is_above a none = false
  is_above a (some b) = numbers.less b a

  abbrev pub moves_extremes : String → String → numbers.Num → numbers.Num → Row numbers → Bool
  moves_extremes run id mae mfe r =
      is_open_row run id r
      && (is_null r.mae_pct
          || is_null r.mfe_pct
          || is_below mae r.mae_pct
          || is_above mfe r.mfe_pct)

  -- `recordPositionExcursion`
  unfoldable pub record_position_excursion :
      String → String → numbers.Num → List (Row numbers) → Bool × List (Row numbers)
  record_position_excursion run id return_pct rows =
      if numbers.is_finite return_pct
      then update_where (moves_extremes run id return_pct return_pct)
          (fold_extremes return_pct return_pct) rows
      else (false, rows)

  -- `Math.min(maePct, 0)` and `Math.max(mfePct, 0)` of a finite number
  abbrev pub at_most_zero : Option numbers.Num → Option numbers.Num
  at_most_zero none = none
  at_most_zero (some a) = some (lower numbers a numbers.zero)

  abbrev pub at_least_zero : Option numbers.Num → Option numbers.Num
  at_least_zero none = none
  at_least_zero (some a) = some (higher numbers a numbers.zero)

  abbrev pub fold_range :
      String
      → String
      → Option numbers.Num
      → Option numbers.Num
      → List (Row numbers)
      → Bool × List (Row numbers)
  fold_range run id mae mfe rows =
      if is_null mae && is_null mfe
      then (false, rows)
      else update_where
          (moves_extremes run id (coalesce mae numbers.zero) (coalesce mfe numbers.zero))
          (fold_extremes (coalesce mae numbers.zero) (coalesce mfe numbers.zero)) rows

  -- `recordPositionExcursionRange`
  unfoldable pub record_position_excursion_range :
      String
      → String
      → Option numbers.Num
      → Option numbers.Num
      → List (Row numbers)
      → Bool × List (Row numbers)
  record_position_excursion_range run id mae_pct mfe_pct rows =
      fold_range run id (at_most_zero (usable numbers mae_pct))
        (at_least_zero (usable numbers mfe_pct)) rows

  -- `Number.isFinite(price) && price > 0 ? price : null`
  abbrev pub if_positive : Option numbers.Num → Option numbers.Num
  if_positive none = none
  if_positive (some a) = if numbers.is_finite a && numbers.less numbers.zero a then some a else none

  abbrev pub keep_known : Option numbers.Num → Option numbers.Num → Option numbers.Num
  keep_known none old = old
  keep_known (some new) old = some new

  abbrev pub is_short : Option Direction → Bool
  is_short (some short) = true
  is_short direction = false

  -- The CASE of `peak_price`
  abbrev pub peak_after :
      Option Direction → Option numbers.Num → Option numbers.Num → Option numbers.Num
  peak_after direction none old = old
  peak_after direction (some peak) old = some (
      if is_short direction
      then lower numbers (coalesce old peak) peak
      else higher numbers (coalesce old peak) peak)

  abbrev pub mark_row : ℕ → Option numbers.Num → Option numbers.Num → Row numbers → Row numbers
  mark_row at price peak r = record r {
    last_checked_at = some at;
    last_price = keep_known price r.last_price;
    peak_price = peak_after r.direction peak r.peak_price;
  }

  -- `last_checked_at IS NULL OR last_checked_at < ?`
  abbrev pub checked_before : ℕ → Option ℕ → Bool
  checked_before at none = true
  checked_before at (some checked) = ltb checked at

  -- `advancePositionCheck`; `none` for the cursor is a missing one.
  unfoldable pub advance_position_check :
      String
      → String
      → Option ℕ
      → Option numbers.Num
      → Option numbers.Num
      → List (Row numbers)
      → Bool × List (Row numbers)
  advance_position_check run id none last_price peak_price rows = (false, rows)
  advance_position_check run id (some at) last_price peak_price rows =
      update_where (λ r. is_open_row run id r && checked_before at r.last_checked_at)
        (mark_row at (if_positive last_price) (if_positive peak_price)) rows

-- `expirePendingEntry`
unfoldable pub expire_pending_entry :
    {D : Type 0} → String → String → List (Decision D) → Bool × List (Decision D)
expire_pending_entry run id ds = (
  any (λ d. d.run_id == run && d.id == id && is_pending d.status) ds,
  map
      (λ d.
        if d.run_id == run && d.id == id && is_pending d.status
        then record d { status = skipped_no_fill }
        else d)
      ds,
)
