-- ===== src/Budget/Tests.antt =====
-- Runs of the budget at concrete inputs.
use news_market_ai.Common.{
  ℕ, ◌+◌, ◌≤◌, ◌≡◌, refl, true, false, Option, none, some, List, [], ◌∷◌, arith, keyed_string,
}
use news_market_ai.Budget.{
  Budget, ok, create, default_estimates, record_unit, mark, can_start, charge_internal,
  charge_external, charge_rows_written, charge_gemini, suspend, resume,
}
use news_market_ai.Budget.Invariant.{
  Call, step, run, unenforced_charges, run_within_limits, refuses, run_refused,
}
use news_market_ai.Budget.Units.{
  Charge, fetch, operation, spend, fetches, can_start_suffices, record_unit_repeats,
}
use news_market_ai.Budget.Counted.{Meta}

-- A new budget with 4 fetches and 9 subrequests.
abbrev fresh : Budget
fresh = record {
  external_limit = 4;
  total_limit = 9;
  external = 0;
  total = 0;
  kv = 0;
  d1 = 0;
  rows_written = 0;
  rows_read = 0;
  kv_reads = 0;
  kv_writes = 0;
  gemini_counts = [];
  halted = false;
  suspend_depth = 0;
  units_completed = 0;
  unit_counts = [];
  estimates = default_estimates;
  observed = [];
}

abbrev calls : List Call
calls =
    Call.fetch
    ∷ Call.internal "kv_read"
    ∷ Call.suspending
    ∷ Call.fetch
    ∷ Call.internal "d1"
    ∷ Call.resuming
    ∷ Call.rows_written 7
    ∷ Call.gemini "gemini-2.5-flash" 1
    ∷ []

abbrev item : List Charge
item = fetch ∷ operation "d1" ∷ operation "kv_write" ∷ []

-- One completed item that cost one fetch and three subrequests.
abbrev after_one : Budget
after_one = record fresh {
  external = 1;
  total = 3;
  units_completed = 1;
  observed = ("item", record { external = 1; total = 3 }) ∷ [];
}

abbrev full : Budget
full = record fresh { total = 9 }

abbrev batch_reply : List (Option Meta)
batch_reply =
    some (record { rows_written = some 4; changes = some 1; rows_read = none })
    ∷ some (record { rows_written = none; changes = some 2; rows_read = some 5 })
    ∷ none
    ∷ []

-- A database whose state counts the batches that reached it.
abbrev batches : ℕ → Option (List (Option Meta)) × ℕ
batches n = (some batch_reply, n + 1)

unenforced_charges_example : unenforced_charges calls fresh ≡ 2
unfolding unenforced_charges step charge_external charge_internal charge_rows_written charge_gemini
    suspend resume
unenforced_charges_example = refl

run_within_limits_example :
    ((run calls fresh).external ≤ 4 + unenforced_charges calls fresh)
    × ((run calls fresh).total ≤ 9 + unenforced_charges calls fresh)
unfolding create
run_within_limits_example = run_within_limits 4 9 calls {b = fresh} refl

-- All four fetches are made.
abbrev spent : Budget
spent = record fresh { external = 4; total = 4 }

run_refused_example :
    let after = run calls (step spent Call.fetch) in
    (after.halted ≡ true) × (after.external ≡ 4) × (refuses after Call.fetch ≡ true)
unfolding charge_external
run_refused_example = run_refused spent Call.fetch calls refl

can_start_suffices_example : (spend item after_one).0 ≡ ok tt
unfolding can_start fetches
can_start_suffices_example =
    can_start_suffices "item" item after_one refl (omega arith) (omega arith) (omega arith)
      (omega arith) (omega arith)

record_unit_repeats_example :
    (spend item (record_unit "item" (mark fresh) (spend item fresh).1)).0 ≡ ok tt
unfolding spend record_unit mark can_start charge_external charge_internal
record_unit_repeats_example =
    record_unit_repeats "item" item fresh refl (omega arith) (omega arith) refl
