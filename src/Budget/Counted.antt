-- ===== src/Budget/Counted.antt =====
-- src/backtest/subrequestBudget.js: `countedD1` and `countedKv`, the wrappers that charge the budget
-- before each operation. The database and the namespace behind them are parameters: an operation
-- takes their state to a reply, `none` being a rejected promise, and a new state.
use news_market_ai.Common.{
  ℕ, ◌+◌, ◌≤◌, ◌≡◌, refl, String, true, Option, none, some, List, [], ◌∷◌, arith, ◌≢◌,
}
use news_market_ai.Budget.{
  Budget, Outcome, ok, refused, or_default, charge_internal, charge_rows_written, charge_rows_read,
}

-- The billing counts of a D1 reply; a driver may leave each out.
pub record Meta : Type 0 where
  pub rows_written : Option ℕ
  pub changes : Option ℕ
  pub rows_read : Option ℕ

-- `result?.meta?.rows_written ?? result?.meta?.changes ?? 0`
abbrev pub written_by : Option Meta → ℕ
written_by none = 0
written_by (some m) = or_default m.rows_written (or_default m.changes 0)

-- `result?.meta?.rows_read ?? 0`
abbrev pub read_by : Option Meta → ℕ
read_by none = 0
read_by (some m) = or_default m.rows_read 0

-- `chargeResult`
unfoldable pub charge_result : Option Meta → Budget → Budget
charge_result m b = charge_rows_read (read_by m) (charge_rows_written (written_by m) b)

-- `for (const r of results) chargeResult(r)`
unfoldable pub charge_results : List (Option Meta) → Budget → Budget
charge_results [] b = b
charge_results (m ∷ ms) b = charge_results ms (charge_result m b)

-- An operation behind the wrapper, and one through it.
abbrev pub Operation : Type 0 → Type 0 → Type 0
Operation S R = S → Option R × S

abbrev pub Counted : Type 0 → Type 0 → Type 0
Counted S R = Budget × S → Outcome (Option R) × (Budget × S)

-- What a reply bills after the operation has run.
abbrev pub Bill : Type 0 → Type 0
Bill R = Option R → Budget → Budget

abbrev no_bill {ℓ} : {R : Type ℓ} → Option R → Budget → Budget
no_bill r b = b

-- A rejected promise skips `.then(chargeResult)`.
abbrev bill_meta : {R : Type 0} → (R → Option Meta) → Bill R
bill_meta meta none b = b
bill_meta meta (some r) b = charge_result (meta r) b

abbrev bill_all : {R : Type 0} → (R → List (Option Meta)) → Bill R
bill_all metas none b = b
bill_all metas (some r) b = charge_results (metas r) b

abbrev after_charge :
    {S R : Type 0}
    → Bill R
    → Operation S R
    → S
    → Outcome (Unit {0}) × Budget
    → Outcome (Option R) × (Budget × S)
after_charge bill op s (refused why used, b) = (refused why used, (b, s))
after_charge bill op s (ok _, b) = let (r, s') = op s in (ok r, (bill r b, s'))

-- Charge, then send, then bill the reply.
unfoldable pub counted : {S R : Type 0} → String → Bill R → Operation S R → Counted S R
counted kind bill op (b, s) = after_charge bill op s (charge_internal kind b)

-- `first`, `raw` and `exec` of the D1 wrapper.
unfoldable pub d1_first : {S R : Type 0} → Operation S R → Counted S R
unfolding counted
d1_first op = counted "d1" no_bill op

-- `all` and `run` of the D1 wrapper.
unfoldable pub d1_run : {S R : Type 0} → (R → Option Meta) → Operation S R → Counted S R
unfolding counted
d1_run meta op = counted "d1" (bill_meta meta) op

-- `batch`: one subrequest, however many statements.
unfoldable pub d1_batch : {S R : Type 0} → (R → List (Option Meta)) → Operation S R → Counted S R
unfolding counted
d1_batch metas op = counted "d1" (bill_all metas) op

-- `get` and `list` of the KV wrapper.
unfoldable pub kv_get : {S R : Type 0} → Operation S R → Counted S R
unfolding counted
kv_get op = counted "kv_read" no_bill op

-- `put` and `delete` of the KV wrapper.
unfoldable pub kv_put : {S R : Type 0} → Operation S R → Counted S R
unfolding counted
kv_put op = counted "kv_write" no_bill op

-- The rows that a list of replies bills.
abbrev pub total_written : List (Option Meta) → ℕ
total_written [] = 0
total_written (m ∷ ms) = written_by m + total_written ms

abbrev pub total_read : List (Option Meta) → ℕ
total_read [] = 0
total_read (m ∷ ms) = read_by m + total_read ms

charge_result_lem :
    (m : Option Meta) (b : Budget)
    → let c = charge_result m b in
      (c.rows_written ≡ b.rows_written + written_by m)
      × (c.rows_read ≡ b.rows_read + read_by m)
      × (c.total ≡ b.total)
      × (c.d1 ≡ b.d1)
unfolding charge_result charge_rows_written charge_rows_read
charge_result_lem m b = ground arith

charge_results_lem :
    (ms : List (Option Meta)) (b : Budget)
    → let c = charge_results ms b in
      (c.rows_written ≡ b.rows_written + total_written ms)
      × (c.rows_read ≡ b.rows_read + total_read ms)
      × (c.total ≡ b.total)
      × (c.d1 ≡ b.d1)
unfolding charge_results
charge_results_lem [] b = (omega arith, omega arith, refl, refl)
charge_results_lem (m ∷ ms) b =
    let h = charge_result_lem m b in
    let k = charge_results_lem ms (charge_result m b) in
    (
      omega (arith, h.0, k.0),
      omega (arith, h.1, k.1),
      omega (arith, h.2, k.2),
      omega (arith, h.3, k.3),
    )

module _ {S R : Type 0} (b : Budget) (s : S) (op : S → Option R × S) where
  -- A wrapped operation that the budget refuses never reaches what is behind the wrapper: its state
  -- is what it was, the counters too, and the budget has halted.
  pub counted_refused :
      (kind : String) (bill : Option R → Budget → Budget)
      → b.suspend_depth ≡ 0
      → b.total ≡ b.total_limit
      → let (r, (c, s')) = counted kind bill op (b, s) in
        (s' ≡ s) × ((x : Option R) → r ≢ ok x) × (c.halted ≡ true) × (c.total ≡ b.total)
  unfolding counted charge_internal
  counted_refused kind bill h t = ground arith

  -- A batch within the limit runs once on the database, costs one subrequest, and bills the rows of
  -- all of its replies.
  pub d1_batch-counts :
      (metas : R → List (Option Meta)) {r : R}
      → (b.total + 1 ≤ b.total_limit)
      → (op s).0 ≡ some r
      → let (reply, (c, s')) = d1_batch metas op (b, s) in
        (reply ≡ ok (some r))
        × (s' ≡ (op s).1)
        × (c.total ≡ b.total + 1)
        × (c.d1 ≡ b.d1 + 1)
        × (c.rows_written ≡ b.rows_written + total_written (metas r))
        × (c.rows_read ≡ b.rows_read + total_read (metas r))
  unfolding d1_batch charge_internal
  d1_batch-counts metas {r} room e =
      ground (arith, charge_results_lem (metas r) (record b { total = b.total + 1; d1 = b.d1 + 1 }))
