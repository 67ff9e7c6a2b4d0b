-- ===== src/Budget.antt =====
-- src/backtest/subrequestBudget.js: the `SubrequestBudget` class. A method that may throw
-- `SubrequestBudgetExhaustedError` returns its outcome beside the budget, since `#refuse` sets
-- `halted` before it throws.
pub mod Units
pub mod Counted
mod Tests
pub mod Invariant
use news_market_ai.Common.{
  ℕ, ◌+◌, ◌-◌, ◌*◌, max, String, Bool, true, false, not, ◌&&◌, ◌||◌, Option, none, some, List, [],
  ◌∷◌, ltb, leb, if◌then◌else◌, ◌==◌, keyed_nat, keyed_string, keyed_pair, lookup, insert,
}

-- `{ external, total }`: a unit's cost, an estimate, a mark, or what is left.
pub record Cost : Type 0 where
  pub external : ℕ
  pub total : ℕ

pub record Budget : Type 0 where
  pub external_limit : ℕ
  pub total_limit : ℕ
  pub external : ℕ
  pub total : ℕ
  pub kv : ℕ
  pub d1 : ℕ
  pub rows_written : ℕ
  pub rows_read : ℕ
  pub kv_reads : ℕ
  pub kv_writes : ℕ
  pub gemini_counts : List ((String × ℕ) × ℕ)
  pub halted : Bool
  pub suspend_depth : ℕ
  pub units_completed : ℕ
  pub unit_counts : List (String × ℕ)
  pub estimates : List (String × Cost)
  pub observed : List (String × Cost)

-- The detail of a refusal: which limit, with the counters that the message quotes.
pub data Reason : Type 0 where
  was_halted external_reached total_reached : Reason
  total_reached_by : String → Reason

pub data Outcome {ℓ} (A : Type ℓ) : Type ℓ where
  ok : A → Outcome A
  refused : Reason → Cost → Outcome A

abbrev pub Action {ℓ} : Type ℓ → Type ℓ
Action A = Budget → Outcome A × Budget

abbrev exits_default_total : ℕ
exits_default_total = 13

abbrev exits_statements_per_position : ℕ
exits_statements_per_position = 4

-- `o[k] ?? d`
abbrev pub or_default {ℓ} : {A : Type ℓ} → Option A → A → A
or_default none d = d
or_default (some a) d = a

-- `exitsEstimate`: `none` is a position count that is not finite.
unfoldable pub exits_estimate : Option ℕ → Cost
exits_estimate max_open_positions =
    let n : ℕ = or_default max_open_positions 0 in
    record {
      external = 2;
      total = max exits_default_total (1 + exits_statements_per_position * n + 2);
    }

abbrev pub default_estimates : List (String × Cost)
default_estimates =
    ("item", record { external = 21; total = 35 })
    ∷ ("exits", record { external = 2; total = exits_default_total })
    ∷ ("score", record { external = 0; total = 25 })
    ∷ []

-- The constructor on integer limits; `none` is its throw for a limit below 1.
unfoldable pub create : ℕ → ℕ → Option Budget
create external_limit total_limit =
    if ltb external_limit 1 || ltb total_limit 1
    then none
    else some (record {
      external_limit = external_limit;
      total_limit = total_limit;
      external = 0;
      total = 0;
      kv = 0;
      d1 = 0;
      rows_written = 0;
      rows_read = 0;
      kv_reads = 0;
      kv_writes = 0;
      gemini_counts = [];
      halted = false;
      suspend_depth = 0;
      units_completed = 0;
      unit_counts = [];
      estimates = default_estimates;
      observed = [];
    })

abbrev pub suspended : Budget → Bool
suspended b = ltb 0 b.suspend_depth

-- `#refuse`
abbrev pub refuse {ℓ} : {A : Type ℓ} → Reason → Action A
refuse why b =
    (refused why (record { external = b.external; total = b.total }), record b { halted = true })

unfoldable pub charge_external : Action (Unit {0})
charge_external b =
    if b.halted
    then refuse was_halted b
    else if not (suspended b) && ltb b.external_limit (b.external + 1)
    then refuse external_reached b
    else if not (suspended b) && ltb b.total_limit (b.total + 1)
    then refuse total_reached b
    else (ok tt, record b { external = b.external + 1; total = b.total + 1 })

-- The breakdown by `kind` in `chargeInternal`.
abbrev count_kind : String → Budget → Budget
count_kind kind b =
    if kind == "kv"
    then record b { kv = b.kv + 1 }
    else if kind == "kv_read"
    then record b { kv = b.kv + 1; kv_reads = b.kv_reads + 1 }
    else if kind == "kv_write"
    then record b { kv = b.kv + 1; kv_writes = b.kv_writes + 1 }
    else if kind == "d1"
    then record b { d1 = b.d1 + 1 }
    else b

unfoldable pub charge_internal : String → Action (Unit {0})
charge_internal kind b =
    if not (suspended b) && ltb b.total_limit (b.total + 1)
    then refuse (total_reached_by kind) b
    else (ok tt, count_kind kind (record b { total = b.total + 1 }))

-- `chargeRowsWritten`, `chargeRowsRead`: a count that is not finite or not positive adds nothing;
-- rows are counted by naturals, so only zero is left of those.
unfoldable pub charge_rows_written : ℕ → Budget → Budget
charge_rows_written changes b =
    if ltb 0 changes then record b { rows_written = b.rows_written + changes } else b

unfoldable pub charge_rows_read : ℕ → Budget → Budget
charge_rows_read rows b = if ltb 0 rows then record b { rows_read = b.rows_read + rows } else b

-- The key `<model>|<keyIndex>` is read as the pair.
unfoldable pub charge_gemini : String → ℕ → Budget → Budget
charge_gemini model key_index b = record b {
  gemini_counts =
      insert (model, key_index) (or_default (lookup (model, key_index) b.gemini_counts) 0 + 1)
        b.gemini_counts;
}

unfoldable pub suspend : Budget → Budget
suspend b = record b { suspend_depth = b.suspend_depth + 1 }

-- `Math.max(0, depth - 1)` is the truncated subtraction.
unfoldable pub resume : Budget → Budget
resume b = record b { suspend_depth = b.suspend_depth - 1 }

-- `finally` runs `resume` also after a throw.
unfoldable pub unenforced {ℓ} : {A : Type ℓ} → Action A → Action A
unfolding suspend resume
unenforced fn b = let (r, b') = fn (suspend b) in (r, resume b')

-- `Math.max(0, limit - used)` is the truncated subtraction.
unfoldable pub remaining : Budget → Cost
remaining b = record { external = b.external_limit - b.external; total = b.total_limit - b.total }

unfoldable pub set_estimate : String → Cost → Budget → Budget
set_estimate kind cost b = record b { estimates = insert kind cost b.estimates }

unfoldable pub mark : Budget → Cost
mark b = record { external = b.external; total = b.total }

abbrev pub max_cost : Cost → Cost → Cost
max_cost a b = record { external = max a.external b.external; total = max a.total b.total }

abbrev pub cost_since : Cost → Budget → Cost
cost_since before b = record {
  external = b.external - before.external;
  total = b.total - before.total;
}

abbrev pub merge_seen : Option Cost → Cost → Cost
merge_seen none cost = cost
merge_seen (some seen) cost = max_cost seen cost

unfoldable pub record_unit : String → Cost → Budget → Budget
record_unit kind before b = record b {
  observed = insert kind (merge_seen (lookup kind b.observed) (cost_since before b)) b.observed;
  units_completed = b.units_completed + 1;
  unit_counts = insert kind (or_default (lookup kind b.unit_counts) 0 + 1) b.unit_counts;
}

-- `this.observed[kind] ?? this.estimates[kind] ?? { external: 0, total: 0 }`
abbrev pub estimate : String → Budget → Cost
estimate kind b =
    or_default (lookup kind b.observed)
      (or_default (lookup kind b.estimates) (record { external = 0; total = 0 }))

unfoldable pub can_start : String → Budget → Bool
unfolding remaining
can_start kind b =
    if b.halted
    then false
    else if b.units_completed == 0
    then true
    else leb (estimate kind b).external (remaining b).external
      && leb (estimate kind b).total (remaining b).total
