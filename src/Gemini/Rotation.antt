-- ===== src/Gemini/Rotation.antt =====
-- src/llm/gemini/client.js: the order in which one cascade walks the keys.
use news_market_ai.Common.{
  ℕ, zero, suc, ◌+◌, ◌-◌, ◌%◌, ◌≤◌, ◌<◌, ◌≡◌, ◌∙◌, ap, refl, arith, if◌then◌else◌, keyed_nat, ltb,
  leb, get_elem?, some, none, Bool-cases, inl, inr,
}
use native.Mathlib.Nat.{mod-eq_of_lt, mod-eq-sub-mod}
use news_market_ai.Gemini.Cascade.{key_order}

-- The key of a step, with the wrap written out.
wrapped_small :
    (start count step : ℕ) → start + step < count → (start + step) % count ≡ start + step
wrapped_small start count step h = mod-eq_of_lt h

wrapped_large :
    (start count step : ℕ)
    → start < count
    → step < count
    → count ≤ start + step
    → (start + step) % count ≡ start + step - count
wrapped_large start count step h k l = mod-eq-sub-mod l ∙ mod-eq_of_lt (omega arith)

get_elem?-key_order :
    (start count left i : ℕ)
    → i < left
    → left ≤ count
    → get_elem? (key_order start count left) i ≡ some ((start + (count - left + i)) % count)
unfolding key_order
get_elem?-key_order start count zero i h l = absurd (omega arith)
get_elem?-key_order start count (suc left) zero h l =
    ap (λ n. some ((start + n) % count)) (omega arith)
get_elem?-key_order start count (suc left) (suc i) h l =
    get_elem?-key_order start count left i (omega arith) (omega arith)
    ∙ ap (λ n. some ((start + n) % count)) (omega arith)

get_elem?-key_order_beyond :
    (start count left i : ℕ) → left ≤ i → get_elem? (key_order start count left) i ≡ none
unfolding key_order
get_elem?-key_order_beyond start count zero i h = refl
get_elem?-key_order_beyond start count (suc left) zero h = absurd (omega arith)
get_elem?-key_order_beyond start count (suc left) (suc i) h =
    get_elem?-key_order_beyond start count left i (omega arith)

key_at :
    (start count i : ℕ)
    → i < count
    → get_elem? (key_order start count count) i ≡ some ((start + i) % count)
key_at start count i h =
    get_elem?-key_order start count count i h (omega arith)
    ∙ ap (λ n. some ((start + n) % count)) (omega arith)

-- The step at which a key is reached.
abbrev pub step_of : ℕ → ℕ → ℕ → ℕ
step_of start count k = if leb start k then k - start else k + count - start

step_of-lt : (start count k : ℕ) → start < count → k < count → step_of start count k < count
step_of-lt start count k h l = ground arith

key_at-step_of :
    (start count k : ℕ) → start < count → k < count → (start + step_of start count k) % count ≡ k
key_at-step_of start count k h l = elim (Bool-cases (leb start k)) [
  | inl e ↦ rw e (wrapped_small start count (k - start) (ground arith) ∙ ground arith)
  | inr e ↦
      rw e (
        wrapped_large start count (k + count - start) h (ground arith) (ground arith)
        ∙ ground arith)
]

step_unique :
    (start count k j : ℕ)
    → start < count
    → j < count
    → (start + j) % count ≡ k
    → j ≡ step_of start count k
step_unique start count k j h l e = elim (Bool-cases (ltb (start + j) count)) [
  | inl small ↦ ground (arith, wrapped_small start count j)
  | inr large ↦ ground (arith, wrapped_large start count j h l)
]

-- From any starting key, the walk of a cascade reaches every key at exactly one step.
pub key_order_visits_once :
    (start count k : ℕ)
    → start < count
    → k < count
    → (get_elem? (key_order start count count) (step_of start count k) ≡ some k)
      × ((j : ℕ) → get_elem? (key_order start count count) j ≡ some k → j ≡ step_of start count k)
key_order_visits_once start count k h l = (
  key_at start count (step_of start count k) (step_of-lt start count k h l)
      ∙ ap some (key_at-step_of start count k h l),
  λ j e. elim (Bool-cases (ltb j count)) [
    | inl inside ↦ ground (arith, key_at start count j, step_unique start count k j h)
    | inr outside ↦ ground (arith, get_elem?-key_order_beyond start count count j)
  ],
)
