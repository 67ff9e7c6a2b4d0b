-- ===== src/Exit/Ratchet.antt =====
-- src/agents/risk_mgmt/trailing.js: the ratcheted stop never loosens the initial one.
use mathlib.Core.Path.{subst}
use news_market_ai.Common.{
  ◌≡◌, refl, Bool, true, false, not, ◌&&◌, ◌||◌, Option, none, some, if◌then◌else◌, arith, inl, inr,
  ◌⊎◌,
}
use news_market_ai.Exit.Numbers.{Numbers, Direction, long, short, gross_return}
use news_market_ai.Exit.Trailing.{
  Reason, stop_loss, breakeven_stop, trailing_stop, Trailing, ratcheted_stop, more_protective,
  worse_by, better_by, tighten, ratchet, peak_or, is_on,
}

module _ (numbers : Numbers)
    (less_trans : (a b c : numbers.Num)
      → numbers.less a b ≡ true
      → numbers.less b c ≡ true
      → numbers.less a c ≡ true) where
  -- A stop that is the initial one, with its reason, or protects better than it.
  abbrev pub Protects : Direction → numbers.Num → numbers.Num × Reason → Type 0
  Protects direction initial (level, why) =
      ((level ≡ initial) × (why ≡ stop_loss))
      ⊎ (more_protective numbers direction level initial ≡ true)

  more_protective_trans :
      (direction : Direction) (a b c : numbers.Num)
      → more_protective numbers direction a b ≡ true
      → more_protective numbers direction b c ≡ true
      → more_protective numbers direction a c ≡ true
  more_protective_trans long a b c h k = less_trans c b a k h
  more_protective_trans short a b c h k = less_trans a b c h k

  Protects-candidate :
      (direction : Direction) (initial candidate : numbers.Num) (why : Reason)
      (before : numbers.Num × Reason)
      → more_protective numbers direction candidate before.0 ≡ true
      → Protects direction initial before
      → Protects direction initial (candidate, why)
  Protects-candidate direction initial candidate why before h (inl (e, _)) =
      inr (subst (λ l. more_protective numbers direction candidate l ≡ true) e h)
  Protects-candidate direction initial candidate why before h (inr k) =
      inr (more_protective_trans direction candidate before.0 initial h k)

  if-Protects :
      (b : Bool) (direction : Direction) (initial : numbers.Num) (p q : numbers.Num × Reason)
      → (b ≡ true → Protects direction initial p)
      → Protects direction initial q
      → Protects direction initial (if b then p else q)
  if-Protects true direction initial p q h k = h refl
  if-Protects false direction initial p q h k = k

  and-second : (a b : Bool) → (a && b) ≡ true → b ≡ true
  and-second a b h = ground arith

  tighten-Protects :
      (direction : Direction) (initial : numbers.Num) (active : Bool)
      (candidate before : numbers.Num × Reason)
      → Protects direction initial before
      → Protects direction initial (tighten numbers direction active candidate before)
  tighten-Protects direction initial active (candidate, why) (level, reason) h =
      let m = more_protective numbers direction candidate level in
      if-Protects (active && m) direction initial (candidate, why) (level, reason)
        (λ k.
          Protects-candidate direction initial candidate why (level, reason) (and-second active m k)
            h)
        h

  ratchet-Protects :
      (direction : Direction) (entry r peak : numbers.Num) (trailing : Trailing numbers)
      → Protects direction
          (worse_by numbers direction entry r)
          (ratchet numbers direction entry r peak trailing)
  ratchet-Protects direction entry r peak trailing =
      let initial = worse_by numbers direction entry r in
      let favorable = gross_return numbers direction entry peak in
      let even_on =
        is_on numbers trailing.break_even_trigger_r
        && numbers.at_most (numbers.times trailing.break_even_trigger_r r) favorable in
      tighten-Protects direction initial
        (is_on numbers trailing.trail_distance_r
          && numbers.at_most (numbers.times trailing.trail_activation_r r) favorable)
        (worse_by numbers direction peak (numbers.times trailing.trail_distance_r r), trailing_stop)
        (tighten numbers direction even_on
          (better_by numbers direction entry trailing.cost_fraction, breakeven_stop)
          (initial, stop_loss))
        (tighten-Protects direction initial even_on
          (better_by numbers direction entry trailing.cost_fraction, breakeven_stop)
          (initial, stop_loss) (inl (refl, refl)))

  abbrev AllProtects : Direction → numbers.Num → Option (numbers.Num × Reason) → Type 0
  AllProtects direction initial none = Unit
  AllProtects direction initial (some stop) = Protects direction initial stop

  if-none-AllProtects :
      (b : Bool) (direction : Direction) (initial : numbers.Num) (r : Option (numbers.Num × Reason))
      → AllProtects direction initial r
      → AllProtects direction initial (if b then none else r)
  if-none-AllProtects true direction initial r h = tt
  if-none-AllProtects false direction initial r h = h

  ratcheted_stop-AllProtects :
      (direction : Direction) (entry r : numbers.Num) (peak : Option numbers.Num)
      (trailing : Trailing numbers)
      → AllProtects direction
          (worse_by numbers direction entry r)
          (ratcheted_stop numbers direction entry (some r) peak trailing)
  unfolding ratcheted_stop
  ratcheted_stop-AllProtects direction entry r peak trailing =
      let initial = worse_by numbers direction entry r in
      let stop = ratchet numbers direction entry r (peak_or numbers entry peak) trailing in
      if-none-AllProtects (not (numbers.is_finite entry) || numbers.at_most entry numbers.zero)
        direction initial
        (if not (numbers.is_finite r) || numbers.at_most r numbers.zero then none else some stop)
        (if-none-AllProtects (not (numbers.is_finite r) || numbers.at_most r numbers.zero) direction
          initial (some stop)
          (ratchet-Protects direction entry r (peak_or numbers entry peak) trailing))

  -- The break-even and the trailing rule only ever tighten: whatever the peak and the knobs, the stop in
  -- force is the initial one, given for a stop loss, or one strictly more protective, higher for a long
  -- and lower for a short. This takes that less is transitive.
  pub ratcheted_stop-tightens :
      (direction : Direction) (entry r level : numbers.Num) (why : Reason)
      (peak : Option numbers.Num) (trailing : Trailing numbers)
      → ratcheted_stop numbers direction entry (some r) peak trailing ≡ some (level, why)
      → ((level ≡ worse_by numbers direction entry r) × (why ≡ stop_loss))
        ⊎ (more_protective numbers direction level (worse_by numbers direction entry r) ≡ true)
  ratcheted_stop-tightens direction entry r level why peak trailing h =
      subst (λ s. AllProtects direction (worse_by numbers direction entry r) s) h
        (ratcheted_stop-AllProtects direction entry r peak trailing)
