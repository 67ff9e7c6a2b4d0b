-- ===== src/Entry/Bars.antt =====
-- src/shared/entry_timing.js, src/shared/entry_confirmation.js and src/graph/bar_fill.js: which bar an entry fills at.
use news_market_ai.Common.{
  ℕ, ◌≤◌, ◌<◌, ◌≡◌, refl, ap, ◌⊎◌, Bool, true, false, not, ◌&&◌, Option, none, some, List, [], ◌∷◌,
  ◌++◌, All, leb, leb→le, if◌then◌else◌, arith, inl, inr, Bool-cases,
}
use mathlib.Core.Path.{subst}
use news_market_ai.Exit.Numbers.{Numbers, Direction, gross_return}
use news_market_ai.Exit.Bars.{Bar}
use news_market_ai.Entry.{
  Fill, Spec, Confirmation, fill_at, can_fill, first_fill, find_fill_bar, first_confirmation,
  find_confirmation_bar, is_spec, is_usable_close, confirmation_at,
}

module _ (numbers : Numbers) where
  -- The bars before the one that is found, the bar, and those after it.
  pub record Found (wanted : Bar numbers → Bool) (bars : List (Bar numbers)) : Type 0 where
    pub before : List (Bar numbers)
    pub bar : Bar numbers
    pub after : List (Bar numbers)
    pub split : bars ≡ before ++ (bar ∷ after)
    pub passed : All (λ b. wanted b ≡ false) before
    pub is_wanted : wanted bar ≡ true

  abbrev skip-Found :
      (wanted : Bar numbers → Bool) (first : Bar numbers) (bars : List (Bar numbers))
      → wanted first ≡ false
      → Found wanted bars
      → Found wanted (first ∷ bars)
  skip-Found wanted first bars h found = record {
    before = first ∷ found.before;
    bar = found.bar;
    after = found.after;
    split = ap (λ rest. first ∷ rest) found.split;
    passed = (h, found.passed);
    is_wanted = found.is_wanted;
  }

  first_fill-cases :
      (as_of : ℕ) (bars : List (Bar numbers))
      → ((first_fill numbers as_of bars ≡ none) × All (λ b. can_fill numbers as_of b ≡ false) bars)
        ⊎ ((found : Found (can_fill numbers as_of) bars) × (first_fill numbers as_of bars
              ≡ some (fill_at numbers found.bar)))
  first_fill-cases as_of [] = inl (refl, tt)
  first_fill-cases as_of (bar ∷ bars) = elim (Bool-cases (can_fill numbers as_of bar)) [
    | inl b ↦ rw b (
        inr (
          record { before = []; bar = bar; after = bars; split = refl; passed = tt; is_wanted = b },
          refl,
        ))
    | inr b ↦ rw b (elim (first_fill-cases as_of bars) [
      | inl (e, all) ↦ inl (e, (refl, all))
      | inr (found, e) ↦ inr (skip-Found (can_fill numbers as_of) bar bars b found, e)
    ])
  ]

  -- The fill is at the open of the bar, which has a finite and positive price and opens at the instant or later.
  abbrev pub FillsAt : ℕ → Bar numbers → Fill numbers → Type 0
  FillsAt as_of bar fill =
      (as_of ≤ bar.open_ms)
      × (numbers.is_finite bar.open_price ≡ true)
      × (numbers.at_most bar.open_price numbers.zero ≡ false)
      × (fill.price ≡ bar.open_price)
      × (fill.opened_at ≡ bar.open_ms)
      × (fill.is_daily ≡ bar.is_daily)

  -- The bar opens before the instant, or its open is no finite and positive price.
  abbrev pub IsPassed : ℕ → Bar numbers → Type 0
  IsPassed as_of bar =
      (bar.open_ms < as_of)
      ⊎ (numbers.is_finite bar.open_price ≡ false)
      ⊎ (numbers.at_most bar.open_price numbers.zero ≡ true)

  can_fill-IsPassed :
      (as_of : ℕ) (bar : Bar numbers) → can_fill numbers as_of bar ≡ false → IsPassed as_of bar
  can_fill-IsPassed as_of bar h = ground arith

  All-IsPassed :
      (as_of : ℕ) (bars : List (Bar numbers))
      → All (λ b. can_fill numbers as_of b ≡ false) bars
      → All (IsPassed as_of) bars
  All-IsPassed as_of [] all = tt
  All-IsPassed as_of (bar ∷ bars) all =
      (can_fill-IsPassed as_of bar all.0, All-IsPassed as_of bars all.1)

  fill_at-FillsAt :
      (as_of : ℕ) (bar : Bar numbers)
      → can_fill numbers as_of bar ≡ true
      → FillsAt as_of bar (fill_at numbers bar)
  fill_at-FillsAt as_of bar h = (ground arith, ground arith, ground arith, refl, refl, refl)

  -- What `findFillBar` finds in a sequence of bars: its first bar that can fill.
  abbrev pub FindsFirst : ℕ → List (Bar numbers) → Option (Fill numbers) → Type 0
  FindsFirst as_of bars none = All (IsPassed as_of) bars
  FindsFirst as_of bars (some fill) =
      (before : List (Bar numbers)) × (bar : Bar numbers) × (after : List (Bar numbers)) × (bars
        ≡ before ++ (bar ∷ after))
      × All (IsPassed as_of) before
      × FillsAt as_of bar fill

  -- From an instant that parses, there is no fill exactly where every bar opens before it or at no finite and
  -- positive price; else the fill is at the instant and the open price of the first bar that opens then or
  -- later at a finite and positive price.
  pub find_fill_bar-first :
      (as_of : ℕ) (bars : List (Bar numbers))
      → FindsFirst as_of bars (find_fill_bar numbers bars (some as_of))
  unfolding find_fill_bar
  find_fill_bar-first as_of bars = elim (first_fill-cases as_of bars) [
    | inl (e, all) ↦ rw e (All-IsPassed as_of bars all)
    | inr (found, e) ↦ rw e (
      found.before,
      found.bar,
      found.after,
      found.split,
      All-IsPassed as_of found.before found.passed,
      fill_at-FillsAt as_of found.bar found.is_wanted,
    )
  ]

  pub find_fill_bar-opened_at :
      (from : Option ℕ) (bars : List (Bar numbers)) (fill : Fill numbers)
      → find_fill_bar numbers bars from ≡ some fill
      → (as_of : ℕ) × (from ≡ some as_of) × (as_of ≤ fill.opened_at)
  unfolding find_fill_bar
  find_fill_bar-opened_at none bars fill h = absurd (none_absurd h)
    where
      none_absurd : none ≡ some fill → ⊥
      none_absurd h = ground arith
  find_fill_bar-opened_at (some as_of) bars fill h = (as_of, refl, first_opened bars h)
    where
      first_opened :
          (bars : List (Bar numbers))
          → first_fill numbers as_of bars ≡ some fill
          → as_of ≤ fill.opened_at
      first_opened [] h = ground arith
      first_opened (bar ∷ bars) h = ground (arith, first_opened bars)

  -- The bar is one of the sequence.
  abbrev pub Among : Bar numbers → List (Bar numbers) → Type 0
  Among bar [] = ⊥
  Among bar (b ∷ bars) = (b ≡ bar) ⊎ Among bar bars

  -- The fill is at the open of one of the bars, at a finite and positive price.
  abbrev pub OpensAt : List (Bar numbers) → Fill numbers → Type 0
  OpensAt bars fill =
      (bar : Bar numbers) × Among bar bars
      × (fill.opened_at ≡ bar.open_ms)
      × (fill.price ≡ bar.open_price)
      × (numbers.is_finite bar.open_price ≡ true)
      × (numbers.at_most bar.open_price numbers.zero ≡ false)

  later-OpensAt :
      (first : Bar numbers) (bars : List (Bar numbers)) (fill : Fill numbers)
      → OpensAt bars fill
      → OpensAt (first ∷ bars) fill
  later-OpensAt first bars fill (bar, among, at, price, finite, positive) =
      (bar, inr among, at, price, finite, positive)

  first_fill-OpensAt :
      (as_of : ℕ) (bars : List (Bar numbers)) (fill : Fill numbers)
      → first_fill numbers as_of bars ≡ some fill
      → OpensAt bars fill
  first_fill-OpensAt as_of [] fill h = absurd (cc h)
  first_fill-OpensAt as_of (bar ∷ bars) fill h = elim (Bool-cases (can_fill numbers as_of bar)) [
    | inl b ↦
        let e : fill_at numbers bar ≡ fill = ground (arith, b, h) in
        let at = fill_at-FillsAt as_of bar b in
        subst (OpensAt (bar ∷ bars)) e (bar, inl refl, refl, refl, at.1, at.2)
    | inr b ↦
        later-OpensAt bar bars fill (first_fill-OpensAt as_of bars fill (ground (arith, b, h)))
  ]

  pub find_fill_bar-OpensAt :
      (from : Option ℕ) (bars : List (Bar numbers)) (fill : Fill numbers)
      → find_fill_bar numbers bars from ≡ some fill
      → OpensAt bars fill
  unfolding find_fill_bar
  find_fill_bar-OpensAt none bars fill h = absurd (cc h)
  find_fill_bar-OpensAt (some as_of) bars fill h = first_fill-OpensAt as_of bars fill h

  -- What a confirmation rests on.
  abbrev pub Confirms :
      ℕ → ℕ → Direction → Spec numbers → List (Bar numbers) → Confirmation numbers → Type 0
  Confirms from expires direction spec bars c =
      (bar : Bar numbers) × Among bar bars
      × (from ≤ bar.open_ms)
      × (bar.available_at < expires)
      × (numbers.at_most spec.move_pct (gross_return numbers direction spec.ref_price bar.close)
          ≡ true)
      × (c ≡ confirmation_at numbers (gross_return numbers direction spec.ref_price bar.close) bar)

  none_absurd : {A : Type 0} (a : A) → none ≡ some a → ⊥
  none_absurd a h = ground arith

  first_confirmation-Confirms :
      (from expires : ℕ) (direction : Direction) (spec : Spec numbers) (bars : List (Bar numbers))
      (c : Confirmation numbers)
      → first_confirmation numbers from expires direction spec bars ≡ some c
      → Confirms from expires direction spec bars c
  first_confirmation-Confirms from expires direction spec [] c h = absurd (none_absurd c h)
  first_confirmation-Confirms from expires direction spec (bar ∷ bars) c h =
      elim (pick (leb from bar.open_ms) (leb expires bar.available_at) (is_usable_close numbers bar)
        (numbers.at_most spec.move_pct (gross_return numbers direction spec.ref_price bar.close))
        (confirmation_at numbers (gross_return numbers direction spec.ref_price bar.close) bar)
        (first_confirmation numbers from expires direction spec bars) h) [
          | inl e ↦ later (first_confirmation-Confirms from expires direction spec bars c e)
          | inr (a, b, m, e) ↦
              (bar, inl refl, leb→le from bar.open_ms a, not_leb expires bar.available_at b, m, e)
        ]
    where
      later :
          Confirms from expires direction spec bars c
          → Confirms from expires direction spec (bar ∷ bars) c
      later (found, among, a, b, m, e) = (found, inr among, a, b, m, e)

      not_leb : (a b : ℕ) → leb a b ≡ false → b < a
      not_leb a b h = ground arith

      pick :
          (a b u m : Bool) (here : Confirmation numbers) (rest : Option (Confirmation numbers))
          → (if not a then rest else if b then none else if u && m then some here else rest)
            ≡ some c
          → (rest ≡ some c) ⊎ ((a ≡ true) × (b ≡ false) × (m ≡ true) × (c ≡ here))
      pick a b u m here rest h = ground arith

  -- A confirmation that is found is of a bar that opened at the decision or later, closed before the deadline,
  -- and whose close had moved as far as asked, in the direction of the trade.
  pub find_confirmation_bar-Confirms :
      (bars : List (Bar numbers)) (from expires : Option ℕ) (direction : Option Direction)
      (spec : Spec numbers) (c : Confirmation numbers)
      → find_confirmation_bar numbers bars from expires direction spec ≡ some c
      → (start : ℕ) × (deadline : ℕ) × (way : Direction) × (from ≡ some start)
        × (expires ≡ some deadline)
        × (direction ≡ some way)
        × Confirms start deadline way spec bars c
  unfolding find_confirmation_bar
  find_confirmation_bar-Confirms bars none expires direction spec c h = absurd (none_absurd c h)
  find_confirmation_bar-Confirms bars (some from) none direction spec c h = absurd (none_absurd c h)
  find_confirmation_bar-Confirms bars (some from) (some expires) none spec c h =
      absurd (none_absurd c h)
  find_confirmation_bar-Confirms bars (some from) (some expires) (some direction) spec c h = (
    from,
    expires,
    direction,
    refl,
    refl,
    refl,
    first_confirmation-Confirms from expires direction spec bars c (
        guarded (is_spec numbers spec) (first_confirmation numbers from expires direction spec bars)
          h),
  )
    where
      guarded :
          (b : Bool) (found : Option (Confirmation numbers))
          → (if b then found else none) ≡ some c
          → found ≡ some c
      guarded b found h = ground arith
