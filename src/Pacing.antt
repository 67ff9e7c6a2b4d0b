-- ===== src/Pacing.antt =====
-- src/shared/retry.js and src/shared/throttle.js: retries with backoff, and calls kept apart in time. Both take the
-- clock, the sleep and the call as parameters over a state of the world.
pub mod Backoff
pub mod Spacing
mod Tests
use news_market_ai.Common.{
  ℕ, zero, suc, ◌+◌, ◌-◌, ◌*◌, ◌^◌, Bool, true, false, Option, none, some, List, [], ◌∷◌, ltb,
  if◌then◌else◌, ◌==◌, keyed_nat,
}

-- What a call of `fn` gives: a value, or the error that it throws.
pub data Reply (E A : Type 0) : Type 0 where
  gives : A → Reply E A
  fails : E → Reply E A

module _ {E A W : Type 0} (should_retry : E → Bool) (fn : W → Reply E A × W) (sleep : ℕ → W → W)
    (base_delay : ℕ) where
  abbrev pub after_sleep : ℕ → Reply E A × (W × List ℕ) → Reply E A × (W × List ℕ)
  after_sleep delay (r, (w, sleeps)) = (r, (w, delay ∷ sleeps))

  -- The catch block of `withRetry`: `retry` is the next attempt, where one remains.
  abbrev pub after_call :
      ℕ → Reply E A × W → Option (W → Reply E A × (W × List ℕ)) → Reply E A × (W × List ℕ)
  after_call attempt (gives a, w) retry = (gives a, (w, []))
  after_call attempt (fails e, w) none = (fails e, (w, []))
  after_call attempt (fails e, w) (some retry) =
      let delay = base_delay * 2 ^ (attempt - 1) in
      if should_retry e then after_sleep delay (retry (sleep delay w)) else (fails e, (w, []))

  -- The loop of `withRetry`, by the attempts that remain after this one; also its sleeps.
  unfoldable pub retry_loop : ℕ → ℕ → W → Reply E A × (W × List ℕ)
  retry_loop zero attempt w = after_call attempt (fn w) none
  retry_loop (suc left) attempt w =
      after_call attempt (fn w) (some (λ v. retry_loop left (attempt + 1) v))

  -- `withRetry`: `none` is its refusal of `maxAttempts`.
  unfoldable pub with_retry : ℕ → W → Option (Reply E A × (W × List ℕ))
  unfolding retry_loop
  with_retry zero w = none
  with_retry (suc left) w = some (retry_loop left 1 w)

module _ {W : Type 0} (now : W → ℕ × W) (sleep : ℕ → W → W) (min_interval : ℕ) where
  -- The throttle's `lastCallAt`, and the world.
  abbrev pub record_call : ℕ × W → Option ℕ × W
  record_call (t, w) = (some t, w)

  -- The sleep of `wait` once the clock was read; the time that remains is `min_interval - (t - last)`.
  abbrev pub sleep_rest : ℕ → ℕ × W → W
  sleep_rest last (t, w) =
      if ltb t (min_interval + last) then sleep (min_interval + last - t) w else w

  -- `wait`
  unfoldable pub wait : Option ℕ → W → Option ℕ × W
  wait none w = record_call (now w)
  wait (some last) w =
      if min_interval == 0 then record_call (now w) else record_call (now (sleep_rest last (now w)))
