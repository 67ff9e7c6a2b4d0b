-- ===== src/Pacing/Tests.antt =====
-- src/shared/retry.js and src/shared/throttle.js on small worlds: one that counts the failures to come, and one
-- that is its own clock.
use news_market_ai.Common.{
  ℕ, zero, suc, ◌+◌, ◌≤◌, ◌≡◌, refl, Bool, true, some, List, [], ◌∷◌, arith,
}
use news_market_ai.Pacing.{Reply, gives, fails, retry_loop, with_retry, wait}
use news_market_ai.Pacing.Backoff.{RetrySpec, with_retry-RetrySpec}

abbrev flaky : ℕ → Reply Bool ℕ × ℕ
flaky zero = (gives 7, 0)
flaky (suc n) = (fails true, n)

abbrev is_transient : Bool → Bool
is_transient transient = transient

abbrev no_time : ℕ → ℕ → ℕ
no_time d w = w

two_failures : with_retry is_transient flaky no_time 500 3 2 ≡ some (gives 7, (0, 500 ∷ 1000 ∷ []))
unfolding with_retry retry_loop
two_failures = refl

three_failures :
    with_retry is_transient flaky no_time 500 3 3 ≡ some (fails true, (0, 500 ∷ 1000 ∷ []))
unfolding with_retry retry_loop
three_failures = refl

with_retry-RetrySpec_example :
    (r : Reply Bool ℕ × (ℕ × List ℕ)) × (with_retry is_transient flaky no_time 500 3 2 ≡ some r)
    × RetrySpec is_transient flaky no_time 500 2 1 2 r
with_retry-RetrySpec_example = with_retry-RetrySpec is_transient flaky no_time 500 2 2

abbrev read_clock : ℕ → ℕ × ℕ
read_clock w = (w, w + 1)

abbrev sleep_for : ℕ → ℕ → ℕ
sleep_for d w = w + d

abbrev clock_time : ℕ → ℕ
clock_time w = w

clock_after :
    (w : ℕ) → (clock_time w ≤ (read_clock w).0) × ((read_clock w).0 ≤ clock_time (read_clock w).1)
clock_after w = (omega arith, omega arith)

sleep_lasts : (d w : ℕ) → clock_time w + d ≤ clock_time (sleep_for d w)
sleep_lasts d w = omega arith

wait_run : wait read_clock sleep_for 100 (some 40) 60 ≡ (some 141, 142)
unfolding wait
wait_run = refl
