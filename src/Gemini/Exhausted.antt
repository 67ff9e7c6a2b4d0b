-- ===== src/Gemini/Exhausted.antt =====
-- src/llm/gemini/client.js: `retryAfterFor`, the wait that an exhausted cascade advises.
use news_market_ai.Common.{ℕ, ◌≤◌, ◌≡◌, ◌≢◌, refl, max, min, List, [], ◌∷◌, arith, All, ◌⊎◌, inl}
use news_market_ai.Gemini.Step.{retry_after_for, minimum}

minimum-le : (n : ℕ) (ms : List ℕ) → minimum n ms ≤ n
minimum-le n [] = omega arith
minimum-le n (m ∷ ms) = omega (arith, minimum-le (min n m) ms)

minimum-All : (n : ℕ) (ms : List ℕ) → All (λ m. minimum n ms ≤ m) ms
minimum-All n [] = tt
minimum-All n (m ∷ ms) = (omega (arith, minimum-le (min n m) ms), minimum-All (min n m) ms)

-- A member of the list.
abbrev pub Among : ℕ → List ℕ → Type 0
Among n [] = ⊥
Among n (m ∷ ms) = (n ≡ m) ⊎ Among n ms

minimum-Among : (n : ℕ) (ms : List ℕ) → Among (minimum n ms) (n ∷ ms)
minimum-Among n [] = inl refl
minimum-Among n (m ∷ ms) = ground (arith, minimum-Among (min n m) ms)

All-max : (low : ℕ) (ms : List ℕ) → All (λ m. low ≤ m) ms → All (λ m. max 60 low ≤ max 60 m) ms
All-max low [] h = tt
All-max low (m ∷ ms) h = (omega (arith, h.0), All-max low ms h.1)

-- The advised wait is never below 60 seconds; no recorded cooldown, raised to 60 seconds, is shorter;
-- and when any was recorded the wait is one of those.
pub retry_after_for-shortest :
    (seconds : List ℕ)
    → (60 ≤ retry_after_for seconds)
      × All (λ s. retry_after_for seconds ≤ max 60 s) seconds
      × ((seconds ≢ []) → (s : ℕ) × Among s seconds × (retry_after_for seconds ≡ max 60 s))
unfolding retry_after_for
retry_after_for-shortest [] = (omega arith, tt, λ h. absurd (h refl))
retry_after_for-shortest (s ∷ ss) = (
  omega arith,
  (omega (arith, minimum-le s ss), All-max (minimum s ss) ss (minimum-All s ss)),
  λ h. (minimum s ss, minimum-Among s ss, refl),
)
