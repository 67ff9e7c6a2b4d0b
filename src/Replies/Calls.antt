-- ===== src/Replies/Calls.antt =====
-- src/llm/budget.js: a run of calls under a cap.
use news_market_ai.Common.{
  ℕ, zero, suc, ◌+◌, ◌-◌, ◌<◌, ◌≡◌, min, false, Option, some, leb, if◌then◌else◌, arith, inl, inr,
  Bool-cases, leb→le,
}
use news_market_ai.Replies.{LlmBudget, create_llm_budget, charge_llm_call}

-- So many charges in a row: how many of them were let through, and the budget.
abbrev pub charge_calls : ℕ → Option LlmBudget → ℕ × Option LlmBudget
charge_calls zero b = (0, b)
charge_calls (suc n) b =
    let (passed, b') = charge_llm_call b in
    let (count, b'') = charge_calls n b' in (if passed then count + 1 else count, b'')

abbrev budget_at : ℕ → ℕ → Option LlmBudget
budget_at m u = some (record { max_calls = m; used = u })

not_leb : (a b : ℕ) → leb a b ≡ false → b < a
not_leb a b h = ground arith

-- How many calls are let through at a use: what the cap leaves.
charge_calls-min : (n m u : ℕ) → (charge_calls n (budget_at m u)).0 ≡ min n (m - u)
unfolding charge_llm_call
charge_calls-min zero m u = omega arith
charge_calls-min (suc n) m u = elim (Bool-cases (leb m u)) [
  | inl b ↦ let l = leb→le m u b in let h = charge_calls-min n m u in rw b (omega arith)
  | inr b ↦ let l = not_leb m u b in let h = charge_calls-min n m (u + 1) in rw b (omega arith)
]

-- A run capped at a positive number of calls is let exactly so many through, however many it tries, and
-- all of those it tries while they are no more than the cap.
pub charge_calls-capped :
    (n cap : ℕ)
    → 0 < cap
    → (b : LlmBudget) × (create_llm_budget cap ≡ some b) × ((charge_calls n (some b)).0 ≡ min n cap)
unfolding create_llm_budget
charge_calls-capped n cap p =
    let h = charge_calls-min n cap 0 in
    ((record { max_calls = cap; used = 0 }), ground arith, omega arith)
