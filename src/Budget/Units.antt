-- ===== src/Budget/Units.antt =====
-- src/backtest/subrequestBudget.js: `canStart`, `recordUnit` and `unenforced`. A unit of work is read as
-- the sequence of charges that it makes.
use news_market_ai.Common.{
  ℕ, suc, ◌+◌, ◌-◌, ◌≤◌, ◌<◌, ◌≡◌, refl, String, true, false, not, ◌≢◌, Option-cases, List, [], ◌∷◌,
  some, arith, length, keyed_string, lookup, lookup-insert, same_refl, inl, inr, ◌⊎◌,
}
use news_market_ai.Budget.{
  Budget, Cost, ok, refused, Action, charge_external, charge_internal, unenforced, record_unit,
  mark, can_start, estimate, cost_since, suspend, merge_seen,
}

-- A charge that a unit makes.
pub data Charge : Type 0 where
  fetch : Charge
  operation : String → Charge

charge : Charge → Action (Unit {0})
charge fetch = charge_external
charge (operation kind) = charge_internal kind

-- A unit: its charges in turn, up to the first that throws.
unfoldable pub spend : List Charge → Action (Unit {0})
unfolding charge
spend [] b = (ok tt, b)
spend (c ∷ cs) b =
    let (r, b') = charge c b in
    elim r [ ok _ ↦ spend cs b' | refused why used ↦ (refused why used, b') ]

unfoldable pub fetches : List Charge → ℕ
fetches [] = 0
fetches (fetch ∷ cs) = suc (fetches cs)
fetches (operation _ ∷ cs) = fetches cs

-- What the charges cost when none is refused, and what they leave alone.
record Spent (b : Budget) (external total : ℕ) (c : Budget) : Type 0 where
  external_spent : c.external ≡ b.external + external
  total_spent : c.total ≡ b.total + total
  external_kept : c.external_limit ≡ b.external_limit
  total_kept : c.total_limit ≡ b.total_limit
  halted_kept : c.halted ≡ b.halted
  depth_kept : c.suspend_depth ≡ b.suspend_depth
  units_kept : c.units_completed ≡ b.units_completed
  observed_kept : c.observed ≡ b.observed

charge_external-Spent :
    (b : Budget)
    → b.halted ≡ false
    → ((0 < b.suspend_depth)
        ⊎ ((b.external + 1 ≤ b.external_limit) × (b.total + 1 ≤ b.total_limit)))
    → ((charge_external b).0 ≡ ok tt) × Spent b 1 1 (charge_external b).1
unfolding charge_external
charge_external-Spent b h room = ground arith

charge_internal-Spent :
    (kind : String) (b : Budget)
    → (0 < b.suspend_depth) ⊎ (b.total + 1 ≤ b.total_limit)
    → ((charge_internal kind b).0 ≡ ok tt) × Spent b 0 1 (charge_internal kind b).1
unfolding charge_internal
charge_internal-Spent kind b room = ground arith

-- There is room for the charges, or enforcement is suspended.
abbrev Fits : List Charge → Budget → Type 0
Fits cs b =
    (0 < b.suspend_depth)
    ⊎ ((b.external + fetches cs ≤ b.external_limit) × (b.total + length cs ≤ b.total_limit))

spend-Fits :
    (cs : List Charge) (b : Budget)
    → b.halted ≡ false
    → Fits cs b
    → ((spend cs b).0 ≡ ok tt) × Spent b (fetches cs) (length cs) (spend cs b).1
unfolding spend fetches
spend-Fits [] b h room = ground arith
spend-Fits (fetch ∷ cs) b h room =
    ground (arith, charge_external-Spent b h, spend-Fits cs (charge_external b).1)
spend-Fits (operation kind ∷ cs) b h room =
    ground (arith, charge_internal-Spent kind b, spend-Fits cs (charge_internal kind b).1)

charge_external_ok-Spent :
    (b : Budget) → (charge_external b).0 ≡ ok tt → Spent b 1 1 (charge_external b).1
unfolding charge_external
charge_external_ok-Spent b h = ground arith

charge_internal_ok-Spent :
    (kind : String) (b : Budget)
    → (charge_internal kind b).0 ≡ ok tt
    → Spent b 0 1 (charge_internal kind b).1
unfolding charge_internal
charge_internal_ok-Spent kind b h = ground arith

spend_ok-Spent :
    (cs : List Charge) (b : Budget)
    → (spend cs b).0 ≡ ok tt
    → Spent b (fetches cs) (length cs) (spend cs b).1
unfolding spend fetches
spend_ok-Spent [] b h = ground arith
spend_ok-Spent (fetch ∷ cs) b h =
    ground (arith, charge_external_ok-Spent b, spend_ok-Spent cs (charge_external b).1)
spend_ok-Spent (operation kind ∷ cs) b h =
    ground (arith, charge_internal_ok-Spent kind b, spend_ok-Spent cs (charge_internal kind b).1)

fetch_refused_halts :
    (b : Budget) → (charge_external b).0 ≢ ok tt → (charge_external b).1.halted ≡ true
unfolding charge_external
fetch_refused_halts b h = ground arith

-- What `canStart` read, when it said yes after a first unit.
can_start_room :
    (kind : String) (b : Budget)
    → can_start kind b ≡ true
    → 0 < b.units_completed
    → (b.halted ≡ false)
      × ((estimate kind b).external ≤ b.external_limit - b.external)
      × ((estimate kind b).total ≤ b.total_limit - b.total)
unfolding can_start
can_start_room kind b h u = ground arith

fetches-le-length : (cs : List Charge) → fetches cs ≤ length cs
unfolding fetches
fetches-le-length [] = omega arith
fetches-le-length (fetch ∷ cs) = omega (arith, fetches-le-length cs)
fetches-le-length (operation _ ∷ cs) = omega (arith, fetches-le-length cs)

-- Once a unit has completed and the counters are within their limits, a unit that `canStart` lets
-- start and that stays within the estimate for its kind makes all of its charges, in whatever order,
-- without a refusal.
pub can_start_suffices :
    (kind : String) (cs : List Charge) (b : Budget)
    → can_start kind b ≡ true
    → 0 < b.units_completed
    → b.external ≤ b.external_limit
    → b.total ≤ b.total_limit
    → fetches cs ≤ (estimate kind b).external
    → length cs ≤ (estimate kind b).total
    → (spend cs b).0 ≡ ok tt
can_start_suffices kind cs b h u e t f l =
    let room = can_start_room kind b h u in
    (spend-Fits cs b room.0 (inr (omega (arith, room.1, e, f), omega (arith, room.2, t, l)))).0

-- Before the first unit of an invocation has completed every kind of unit may start, unless
-- something was refused; after a refusal none may.
pub can_start_progress :
    (kind : String) (b : Budget) → b.units_completed ≡ 0 → can_start kind b ≡ not b.halted
unfolding can_start
can_start_progress kind b h = ground arith

-- A recorded unit's cost, and every cost seen before it, bound the estimate for the next unit of the
-- kind from below.
pub record_unit-estimate :
    (kind : String) (before : Cost) (b : Budget)
    → let e = estimate kind (record_unit kind before b) in
      (b.external - before.external ≤ e.external)
      × (b.total - before.total ≤ e.total)
      × ((seen : Cost)
          → lookup kind b.observed ≡ some seen
          → (seen.external ≤ e.external) × (seen.total ≤ e.total))
unfolding record_unit
record_unit-estimate kind before b =
    rw
      (lookup-insert kind kind (merge_seen (lookup kind b.observed) (cost_since before b))
        b.observed)
      (rw (same_refl kind) (elim (Option-cases (lookup kind b.observed)) [
        | inl e ↦ rw e (omega arith, omega arith, λ seen h. ground arith)
        | inr (s, e) ↦ rw e (omega arith, omega arith, λ seen h. ground arith)
      ]))

record_unit_counts :
    (kind : String) (before : Cost) (b : Budget) → 0 < (record_unit kind before b).units_completed
unfolding record_unit
record_unit_counts kind before b = omega arith

mark_lem : (b : Budget) → ((mark b).external ≡ b.external) × ((mark b).total ≡ b.total)
unfolding mark
mark_lem b = (refl, refl)

-- A unit that completed without a refusal and was recorded makes the same charges again without a
-- refusal whenever `canStart` then lets it start and the counters are within their limits.
pub record_unit_repeats :
    (kind : String) (cs : List Charge) (b : Budget)
    → (spend cs b).0 ≡ ok tt
    → let c = record_unit kind (mark b) (spend cs b).1 in
      c.external ≤ c.external_limit
      → c.total ≤ c.total_limit
      → can_start kind c ≡ true
      → (spend cs c).0 ≡ ok tt
record_unit_repeats kind cs b h e t start =
    let s = spend_ok-Spent cs b h in
    let before = mark b in
    let c = record_unit kind before (spend cs b).1 in
    let r = record_unit-estimate kind before (spend cs b).1 in
    can_start_suffices kind cs c start (record_unit_counts kind before (spend cs b).1) e t
      (omega (arith, r.0, s.external_spent, mark_lem b))
      (omega (arith, r.1, s.total_spent, mark_lem b))

-- Work under `unenforced` on a budget that has not halted is never refused; it is counted in full,
-- and enforcement is back as it was.
pub unenforced_completes :
    (cs : List Charge) (b : Budget)
    → b.halted ≡ false
    → let (r, c) = unenforced (spend cs) b in
      (r ≡ ok tt)
      × (c.external ≡ b.external + fetches cs)
      × (c.total ≡ b.total + length cs)
      × (c.suspend_depth ≡ b.suspend_depth)
      × (c.halted ≡ false)
unfolding unenforced
unenforced_completes cs b h = ground (arith, spend-Fits cs (suspend b) h (inl (omega arith)))
