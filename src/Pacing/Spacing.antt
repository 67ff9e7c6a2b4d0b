-- ===== src/Pacing/Spacing.antt =====
-- src/shared/throttle.js: the calls that a throttle lets through keep their distance.
use news_market_ai.Common.{
  ℕ, ◌+◌, ◌-◌, ◌≤◌, ◌≡◌, refl, Bool, true, false, Option, none, some, ltb, if◌then◌else◌, ◌==◌,
  keyed_nat, arith, inl, inr, Bool-cases,
}
use news_market_ai.Pacing.{wait, sleep_rest, record_call}

-- The clock of a world: reading it and sleeping take time, and it never goes back.
module _ {W : Type 0} (now : W → ℕ × W) (sleep : ℕ → W → W) (time : W → ℕ)
    (now_after : (w : W) → (time w ≤ (now w).0) × ((now w).0 ≤ time (now w).1))
    (sleep_after : (d : ℕ) (w : W) → time w + d ≤ time (sleep d w)) (min_interval : ℕ) where
  slept :
      (last t : ℕ) (w : W)
      → t ≤ time w
      → min_interval + last ≤ time (sleep_rest now sleep min_interval last (t, w))
  slept last t w h = elim (Bool-cases (ltb t (min_interval + last))) [
    | inl b ↦ let s = sleep_after (min_interval + last - t) w in rw b (omega arith)
    | inr b ↦ let l = not_less t (min_interval + last) b in rw b (omega arith)
  ]
    where
      not_less : (a c : ℕ) → ltb a c ≡ false → c ≤ a
      not_less a c h = ground arith

  -- A call let through that is recorded, at or after an instant.
  abbrev pub IsCallAfter : ℕ → Option ℕ × W → Type 0
  IsCallAfter earliest (none, w) = ⊥
  IsCallAfter earliest (some t, w) = (earliest ≤ t) × (t ≤ time w)

  record_call-IsCallAfter :
      (earliest : ℕ) (w : W)
      → earliest ≤ time w
      → IsCallAfter earliest (record_call now sleep min_interval (now w))
  record_call-IsCallAfter earliest w h = let n = now_after w in (omega arith, n.1)

  if-IsCallAfter :
      (b : Bool) (earliest : ℕ) (p q : Option ℕ × W)
      → (b ≡ true → IsCallAfter earliest p)
      → IsCallAfter earliest q
      → IsCallAfter earliest (if b then p else q)
  if-IsCallAfter true earliest p q h k = h refl
  if-IsCallAfter false earliest p q h k = k

  is_zero : (n : ℕ) → (n == 0) ≡ true → n ≡ 0
  is_zero n h = ground arith

  -- On a clock that never goes back and a sleep that lasts, a call waited for after an earlier one goes
  -- through no sooner than the throttle's interval after it, however much time passed in between, and
  -- is recorded as the last call for the next wait.
  pub wait-IsCallAfter :
      (last : ℕ) (w : W)
      → last ≤ time w
      → IsCallAfter (last + min_interval) (wait now sleep min_interval (some last) w)
  unfolding wait
  wait-IsCallAfter last w h =
      if-IsCallAfter (min_interval == 0) (last + min_interval)
        (record_call now sleep min_interval (now w))
        (record_call now sleep min_interval (now (sleep_rest now sleep min_interval last (now w))))
        (λ z.
          let e = is_zero min_interval z in
          record_call-IsCallAfter (last + min_interval) w (omega arith))
        (let s = slept last (now w).0 (now w).1 (now_after w).1 in
          record_call-IsCallAfter (last + min_interval)
            (sleep_rest now sleep min_interval last (now w)) (omega arith))
