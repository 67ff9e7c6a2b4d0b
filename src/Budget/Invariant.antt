-- ===== src/Budget/Invariant.antt =====
-- src/backtest/subrequestBudget.js: what holds of the counters after any sequence of calls.
use news_market_ai.Common.{
  ℕ, ◌+◌, ◌≤◌, ◌≡◌, ◌≢◌, refl, ◌∙◌, String, Bool, true, false, List, [], ◌∷◌, some, arith,
  if◌then◌else◌,
}
use news_market_ai.Budget.{
  Budget, Cost, Outcome, ok, refused, create, charge_external, charge_internal, charge_rows_written,
  charge_rows_read, charge_gemini, suspend, resume, set_estimate, record_unit, suspended,
}

-- A call of a method that changes the budget.
pub data Call : Type 0 where
  fetch suspending resuming : Call
  internal : String → Call
  rows_written rows_read : ℕ → Call
  gemini : String → ℕ → Call
  set_estimate_to : String → Cost → Call
  finish : String → Cost → Call

-- The budget after a call; a refusal is caught by the walk.
unfoldable pub step : Budget → Call → Budget
step b Call.fetch = (charge_external b).1
step b Call.suspending = suspend b
step b Call.resuming = resume b
step b (Call.internal kind) = (charge_internal kind b).1
step b (Call.rows_written n) = charge_rows_written n b
step b (Call.rows_read n) = charge_rows_read n b
step b (Call.gemini model key_index) = charge_gemini model key_index b
step b (Call.set_estimate_to kind cost) = set_estimate kind cost b
step b (Call.finish kind before) = record_unit kind before b

unfoldable pub run : List Call → Budget → Budget
run [] b = b
run (c ∷ cs) b = run cs (step b c)

-- How many of the calls are charges made inside an `unenforced` region.
unfoldable pub unenforced_charges : List Call → Budget → ℕ
unenforced_charges [] b = 0
unenforced_charges (Call.fetch ∷ cs) b =
    (if suspended b then 1 else 0) + unenforced_charges cs (step b Call.fetch)
unenforced_charges (Call.internal kind ∷ cs) b =
    (if suspended b then 1 else 0) + unenforced_charges cs (step b (Call.internal kind))
unenforced_charges (c ∷ cs) b = unenforced_charges cs (step b c)

-- The counters are within the limits, up to `slack`.
pub record IsWithin (slack : ℕ) (b : Budget) : Type 0 where
  pub external_within : b.external ≤ b.external_limit + slack
  pub total_within : b.total ≤ b.total_limit + slack

-- Every class of operation is part of the total.
pub record IsAccounted (b : Budget) : Type 0 where
  pub classes : b.external + b.kv + b.d1 ≤ b.total
  pub kv_classes : b.kv_reads + b.kv_writes ≤ b.kv

charge_external-IsWithin :
    (n : ℕ) (b : Budget)
    → IsWithin n b
    → IsWithin (n + (if suspended b then 1 else 0)) (charge_external b).1
unfolding charge_external
charge_external-IsWithin n b v = ground arith

charge_internal-IsWithin :
    (n : ℕ) (kind : String) (b : Budget)
    → IsWithin n b
    → IsWithin (n + (if suspended b then 1 else 0)) (charge_internal kind b).1
unfolding charge_internal
charge_internal-IsWithin n kind b v = ground arith

charge_external-IsAccounted : (b : Budget) → IsAccounted b → IsAccounted (charge_external b).1
unfolding charge_external
charge_external-IsAccounted b v = ground arith

charge_internal-IsAccounted :
    (kind : String) (b : Budget) → IsAccounted b → IsAccounted (charge_internal kind b).1
unfolding charge_internal
charge_internal-IsAccounted kind b v = ground arith

charge_external-limits :
    (b : Budget)
    → let c = (charge_external b).1 in
      (c.external_limit ≡ b.external_limit) × (c.total_limit ≡ b.total_limit)
unfolding charge_external
charge_external-limits b = ground arith

charge_internal-limits :
    (kind : String) (b : Budget)
    → let c = (charge_internal kind b).1 in
      (c.external_limit ≡ b.external_limit) × (c.total_limit ≡ b.total_limit)
unfolding charge_internal
charge_internal-limits kind b = ground arith

-- Only the constructor sets the limits.
pub step-limits :
    (b : Budget) (c : Call)
    → ((step b c).external_limit ≡ b.external_limit) × ((step b c).total_limit ≡ b.total_limit)
unfolding step charge_rows_written charge_rows_read charge_gemini suspend resume set_estimate
    record_unit
step-limits b Call.fetch = charge_external-limits b
step-limits b (Call.internal kind) = charge_internal-limits kind b
step-limits b _ = ground arith

step-IsAccounted : (b : Budget) (c : Call) → IsAccounted b → IsAccounted (step b c)
unfolding step charge_rows_written charge_rows_read charge_gemini suspend resume set_estimate
    record_unit
step-IsAccounted b Call.fetch v = charge_external-IsAccounted b v
step-IsAccounted b (Call.internal kind) v = charge_internal-IsAccounted kind b v
step-IsAccounted b _ v = ground arith

quiet-IsWithin :
    (n : ℕ) (b : Budget) (c : Call)
    → (c ≢ Call.fetch)
    → ((kind : String) → c ≢ Call.internal kind)
    → IsWithin n b
    → IsWithin n (step b c)
unfolding step charge_rows_written charge_rows_read charge_gemini suspend resume set_estimate
    record_unit
quiet-IsWithin n b Call.fetch h k v = absurd (h refl)
quiet-IsWithin n b (Call.internal kind) h k v = absurd (k kind refl)
quiet-IsWithin n b _ h k v = ground arith

run-IsWithin :
    (n : ℕ) (cs : List Call) (b : Budget)
    → IsWithin n b
    → IsWithin (n + unenforced_charges cs b) (run cs b)
unfolding run unenforced_charges step
run-IsWithin n [] b v = ground arith
run-IsWithin n (Call.fetch ∷ cs) b v = ground (
  arith,
  run-IsWithin (n + (if suspended b then 1 else 0)) cs (charge_external b).1
      (charge_external-IsWithin n b v),
)
run-IsWithin n (Call.internal kind ∷ cs) b v = ground (
  arith,
  run-IsWithin (n + (if suspended b then 1 else 0)) cs (charge_internal kind b).1
      (charge_internal-IsWithin n kind b v),
)
run-IsWithin n (c ∷ cs) b v =
    run-IsWithin n cs (step b c) (quiet-IsWithin n b c (λ e. cc) (λ kind e. cc) v)

run-IsAccounted : (cs : List Call) (b : Budget) → IsAccounted b → IsAccounted (run cs b)
unfolding run
run-IsAccounted [] b v = v
run-IsAccounted (c ∷ cs) b v = run-IsAccounted cs (step b c) (step-IsAccounted b c v)

run-limits :
    (cs : List Call) (b : Budget)
    → ((run cs b).external_limit ≡ b.external_limit) × ((run cs b).total_limit ≡ b.total_limit)
unfolding run
run-limits [] b = (refl, refl)
run-limits (c ∷ cs) b =
    let h = run-limits cs (step b c) in let k = step-limits b c in (h.0 ∙ k.0, h.1 ∙ k.1)

create-fresh :
    (external_limit total_limit : ℕ) {b : Budget}
    → create external_limit total_limit ≡ some b
    → (b.external_limit ≡ external_limit)
      × (b.total_limit ≡ total_limit)
      × (b.halted ≡ false)
      × IsWithin 0 b
      × IsAccounted b
unfolding create
create-fresh external_limit total_limit h = ground arith

-- After any sequence of calls on a new budget, the external and the total counter exceed their
-- limits by at most the number of charges made inside `unenforced` regions.
pub run_within_limits :
    (external_limit total_limit : ℕ) (cs : List Call) {b : Budget}
    → create external_limit total_limit ≡ some b
    → ((run cs b).external ≤ external_limit + unenforced_charges cs b)
      × ((run cs b).total ≤ total_limit + unenforced_charges cs b)
run_within_limits external_limit total_limit cs {b} h =
    let v = create-fresh external_limit total_limit h in
    let w = run-IsWithin 0 cs b v.3 in
    let l = run-limits cs b in
    (omega (arith, w.external_within, l.0, v.0), omega (arith, w.total_within, l.1, v.1))

-- After any sequence of calls on a new budget, the KV reads and writes are part of the KV
-- operations, and external fetches, KV and D1 operations together are part of the total.
pub run_accounts_for_classes :
    (external_limit total_limit : ℕ) (cs : List Call) {b : Budget}
    → create external_limit total_limit ≡ some b
    → let c = run cs b in (c.external + c.kv + c.d1 ≤ c.total) × (c.kv_reads + c.kv_writes ≤ c.kv)
run_accounts_for_classes external_limit total_limit cs {b} h =
    let v = run-IsAccounted cs b (create-fresh external_limit total_limit h).4 in
    (v.classes, v.kv_classes)

step_halted :
    (b : Budget) (c : Call)
    → b.halted ≡ true
    → ((step b c).halted ≡ true) × ((step b c).external ≡ b.external)
unfolding step charge_external charge_internal charge_rows_written charge_rows_read charge_gemini
    suspend resume set_estimate record_unit
step_halted b Call.fetch h = ground arith
step_halted b (Call.internal kind) h = ground arith
step_halted b _ h = ground arith

run_halted :
    (cs : List Call) (b : Budget)
    → b.halted ≡ true
    → ((run cs b).halted ≡ true) × ((run cs b).external ≡ b.external)
unfolding run
run_halted [] b h = (h, refl)
run_halted (c ∷ cs) b h =
    let s = step_halted b c h in let r = run_halted cs (step b c) s.0 in (r.0, r.1 ∙ s.1)

abbrev pub is_refused {ℓ} : {A : Type ℓ} → Outcome A → Bool
is_refused (ok a) = false
is_refused (refused why counters) = true

-- The call throws `SubrequestBudgetExhaustedError`.
abbrev pub refuses : Budget → Call → Bool
refuses b Call.fetch = is_refused (charge_external b).0
refuses b (Call.internal kind) = is_refused (charge_internal kind b).0
refuses b c = false

refused_halts :
    (b : Budget) (c : Call)
    → refuses b c ≡ true
    → ((step b c).halted ≡ true) × ((step b c).external ≡ b.external)
unfolding step charge_external charge_internal
refused_halts b Call.fetch h = ground arith
refused_halts b (Call.internal kind) h = ground arith
refused_halts b (Call.rows_written n) h = absurd (cc h)
refused_halts b (Call.rows_read n) h = absurd (cc h)
refused_halts b Call.suspending h = absurd (cc h)
refused_halts b Call.resuming h = absurd (cc h)
refused_halts b (Call.gemini model key_index) h = absurd (cc h)
refused_halts b (Call.set_estimate_to kind cost) h = absurd (cc h)
refused_halts b (Call.finish kind before) h = absurd (cc h)

refuses_more : (b : Budget) → b.halted ≡ true → refuses b Call.fetch ≡ true
unfolding charge_external
refuses_more b h = ground arith

-- Once a charge was refused, whatever is called next and inside `unenforced` regions too, the budget stays
-- halted, the next external fetch is refused too, and the count of external fetches stays as it was before the
-- refusal.
pub run_refused :
    (b : Budget) (c : Call) (cs : List Call)
    → refuses b c ≡ true
    → let after = run cs (step b c) in
      (after.halted ≡ true) × (after.external ≡ b.external) × (refuses after Call.fetch ≡ true)
run_refused b c cs h =
    let first = refused_halts b c h in
    let later = run_halted cs (step b c) first.0 in
    let more = refuses_more (run cs (step b c)) later.0 in (later.0, later.1 ∙ first.1, more)
