-- ===== src/Pacing/Backoff.antt =====
-- src/shared/retry.js: how many attempts `withRetry` makes and how long it waits.
use news_market_ai.Common.{
  ℕ, zero, suc, ◌+◌, ◌-◌, ◌*◌, ◌^◌, ◌≤◌, ◌≡◌, refl, ap, Bool, true, false, none, some, List, [],
  ◌∷◌, if◌then◌else◌, keyed_nat, arith, length,
}
use news_market_ai.Pacing.{Reply, gives, fails, after_sleep, after_call, retry_loop, with_retry}

-- The delays after so many attempts in turn, each twice the one before.
abbrev pub doubling : ℕ → ℕ → ℕ → List ℕ
doubling base attempt zero = []
doubling base attempt (suc n) = base * 2 ^ (attempt - 1) ∷ doubling base (attempt + 1) n

module _ {E A W : Type 0} (should_retry : E → Bool) (fn : W → Reply E A × W) (sleep : ℕ → W → W)
    (base_delay : ℕ) where
  -- What `fn` was asked and what it gave: each attempt but the last threw an error that is worth a retry, and
  -- the next one ran after a sleep. The list has the sleeps in their order.
  pub data Attempts : W → List ℕ → Reply E A × W → Type 0 where
    finished : {w : W} {out : Reply E A × W} → fn w ≡ out → Attempts w [] out
    retried :
        {w v : W} {e : E} {delay : ℕ} {delays : List ℕ} {out : Reply E A × W}
        → fn w ≡ (fails e, v)
        → should_retry e ≡ true
        → Attempts (sleep delay v) delays out
        → Attempts w (delay ∷ delays) out

  -- A failure is final when its error is not worth a retry, or when no attempt remains.
  abbrev pub GivesUp : ℕ → Reply E A → ℕ → Type 0
  GivesUp left (gives a) slept = Unit
  GivesUp left (fails e) slept = should_retry e ≡ true → slept ≡ left

  abbrev pub RetrySpec : ℕ → ℕ → W → Reply E A × (W × List ℕ) → Type 0
  RetrySpec left attempt w (r, (v, sleeps)) =
      Attempts w sleeps (r, v)
      × (length sleeps ≤ left)
      × (sleeps ≡ doubling base_delay attempt (length sleeps))
      × GivesUp left r (length sleeps)

  -- A failed attempt, its sleep, and what follows.
  after_sleep-RetrySpec :
      (left attempt : ℕ) (w v : W) (e : E) (r : Reply E A × (W × List ℕ))
      → fn w ≡ (fails e, v)
      → should_retry e ≡ true
      → RetrySpec left (attempt + 1) (sleep (base_delay * 2 ^ (attempt - 1)) v) r
      → RetrySpec
          (suc left)
          attempt
          w
          (after_sleep should_retry fn sleep base_delay (base_delay * 2 ^ (attempt - 1)) r)
  after_sleep-RetrySpec left attempt w v e (gives a, (u, sleeps)) call worth (run, b, d, g) =
      (retried call worth run, omega arith, ap (λ l. base_delay * 2 ^ (attempt - 1) ∷ l) d, tt)
  after_sleep-RetrySpec left attempt w v e (fails last, (u, sleeps)) call worth (run, b, d, g) = (
    retried call worth run,
    omega arith,
    ap (λ l. base_delay * 2 ^ (attempt - 1) ∷ l) d,
    λ h. ap (λ n. suc n) (g h),
  )

  if-RetrySpec :
      (b : Bool) (left attempt : ℕ) (w : W) (p q : Reply E A × (W × List ℕ))
      → (b ≡ true → RetrySpec left attempt w p)
      → (b ≡ false → RetrySpec left attempt w q)
      → RetrySpec left attempt w (if b then p else q)
  if-RetrySpec true left attempt w p q h k = h refl
  if-RetrySpec false left attempt w p q h k = k refl

  last-RetrySpec :
      (attempt : ℕ) (w : W) (r : Reply E A × W)
      → fn w ≡ r
      → RetrySpec 0 attempt w (after_call should_retry fn sleep base_delay attempt r none)
  last-RetrySpec attempt w (gives a, v) call = (finished call, omega arith, refl, tt)
  last-RetrySpec attempt w (fails e, v) call = (finished call, omega arith, refl, λ h. refl)

  after_call-RetrySpec :
      (left attempt : ℕ) (w : W) (r : Reply E A × W) (retry : W → Reply E A × (W × List ℕ))
      → fn w ≡ r
      → ((v : W) → RetrySpec left (attempt + 1) v (retry v))
      → RetrySpec
          (suc left)
          attempt
          w
          (after_call should_retry fn sleep base_delay attempt r (some retry))
  after_call-RetrySpec left attempt w (gives a, v) retry call k =
      (finished call, omega arith, refl, tt)
  after_call-RetrySpec left attempt w (fails e, v) retry call k =
      let delay = base_delay * 2 ^ (attempt - 1) in
      if-RetrySpec (should_retry e) (suc left) attempt w
        (after_sleep should_retry fn sleep base_delay delay (retry (sleep delay v)))
        (fails e, (v, []))
        (λ y.
          after_sleep-RetrySpec left attempt w v e (retry (sleep delay v)) call y
            (k (sleep delay v)))
        (λ n. (finished call, omega arith, refl, λ h. cc))

  retry_loop-RetrySpec :
      (left attempt : ℕ) (w : W)
      → RetrySpec left attempt w (retry_loop should_retry fn sleep base_delay left attempt w)
  unfolding retry_loop
  retry_loop-RetrySpec zero attempt w = last-RetrySpec attempt w (fn w) refl
  retry_loop-RetrySpec (suc left) attempt w =
      after_call-RetrySpec left attempt w (fn w)
        (λ v. retry_loop should_retry fn sleep base_delay left (attempt + 1) v) refl
        (λ v. retry_loop-RetrySpec left (attempt + 1) v)

  -- With a positive number of attempts `withRetry` returns the last answer of a run of attempts of `fn`, each
  -- after the sleep that follows the one before: there are at most that many, the sleeps are the base delay
  -- and then each time twice as long, every attempt but the last threw an error that is worth a
  -- retry, and the last throws one that is worth a retry only when no attempt remains.
  pub with_retry-RetrySpec :
      (left : ℕ) (w : W)
      → (r : Reply E A × (W × List ℕ)) × (with_retry should_retry fn sleep base_delay (suc left) w
          ≡ some r)
        × RetrySpec left 1 w r
  unfolding with_retry
  with_retry-RetrySpec left w =
      (retry_loop should_retry fn sleep base_delay left 1 w, refl, retry_loop-RetrySpec left 1 w)
