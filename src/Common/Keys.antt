-- ===== src/Common/Keys.antt =====
-- Keys with a Boolean equality, and the objects and `Map`s of the source as association lists.
use Prim.Native.Nat.{ℕ}
use Prim.Native.String.{String}
use mathlib.Core.Path.{◌≡◌, refl}
use mathlib.Core.Logic.{◌↔◌}
use mathlib.Core.Bool.{Bool, true, false, ◌&&◌, ◌||◌}
use mathlib.Core.List.{List, [], ◌∷◌}
use mathlib.Core.Option.{Option, none, some}
use native.Mathlib.Omega.{arith}
use text.Mathlib.Text.{◌==◌ as str_eq}
use text.Mathlib.TextEquality.{eq_iff}
use news_market_ai.Common.Tests.{if◌then◌else◌, nat_beq, nat_beq_iff}

-- A type whose values serve as keys: they are compared by `===`.
pub record Keyed {ℓ} (K : Type ℓ) : Type ℓ where
  pub same : K → K → Bool
  pub same_iff : (j k : K) → (same j k ≡ true) ↔ (j ≡ k)

-- Texts: model names, kinds of units, tickers.
instance abbrev pub keyed_string : Keyed String
keyed_string = record { same = str_eq; same_iff = eq_iff }

-- Numbers: indices of keys, statuses, days.
instance abbrev pub keyed_nat : Keyed ℕ
keyed_nat = record { same = nat_beq; same_iff = nat_beq_iff }

-- `a === b`
infix 50 ◌==◌
abbrev pub ◌==◌ {ℓ} : {K : Type ℓ} ⦃d : Keyed K⦄ → K → K → Bool
◌==◌ ⦃d⦄ j k = d.same j k

module _ {ℓ κ} {A : Type ℓ} {B : Type κ} ⦃e : Keyed A⦄ ⦃f : Keyed B⦄ where
  abbrev pub same_pair : A × B → A × B → Bool
  same_pair (a, b) (c, d) = a == c && b == d

  pub same_pair_iff : (p q : A × B) → (same_pair p q ≡ true) ↔ (p ≡ q)
  same_pair_iff (a, b) (c, d) = ground (arith, e.same_iff a c, f.same_iff b d)

  instance abbrev pub keyed_pair : Keyed (A × B)
  keyed_pair = record { same = same_pair; same_iff = same_pair_iff }

module _ {ℓ} {A : Type ℓ} ⦃e : Keyed A⦄ where
  abbrev pub same_list : List A → List A → Bool
  same_list [] [] = true
  same_list [] (y ∷ ys) = false
  same_list (x ∷ xs) [] = false
  same_list (x ∷ xs) (y ∷ ys) = x == y && same_list xs ys

  pub same_list_iff : (p q : List A) → (same_list p q ≡ true) ↔ (p ≡ q)
  same_list_iff [] [] = ground arith
  same_list_iff [] (y ∷ ys) = ground arith
  same_list_iff (x ∷ xs) [] = ground arith
  same_list_iff (x ∷ xs) (y ∷ ys) = ground (arith, e.same_iff x y, same_list_iff xs ys)

  instance abbrev pub keyed_list : Keyed (List A)
  keyed_list = record { same = same_list; same_iff = same_list_iff }

  -- `Array.prototype.includes`
  abbrev pub contains : A → List A → Bool
  contains a [] = false
  contains a (x ∷ xs) = x == a || contains a xs

module _ {ℓ κ} {K : Type ℓ} {V : Type κ} ⦃d : Keyed K⦄ where
  -- `map.get(key)`, `object[key]`
  abbrev pub lookup : K → List (K × V) → Option V
  lookup key [] = none
  lookup key ((other, value) ∷ rest) = if other == key then some value else lookup key rest

  -- `map.set(key, value)`, `object[key] = value`
  abbrev pub insert : K → V → List (K × V) → List (K × V)
  insert key value [] = (key, value) ∷ []
  insert key value ((other, old) ∷ rest) =
      if other == key then (key, value) ∷ rest else (other, old) ∷ insert key value rest

  -- `map.delete(key)`
  abbrev pub erase : K → List (K × V) → List (K × V)
  erase key [] = []
  erase key ((other, value) ∷ rest) =
      if other == key then erase key rest else (other, value) ∷ erase key rest

  pub lookup-insert :
      (key asked : K) (value : V) (m : List (K × V))
      → lookup asked (insert key value m) ≡ (if key == asked then some value else lookup asked m)
  lookup-insert key asked value [] = refl
  lookup-insert key asked value ((other, old) ∷ rest) = ground (
    arith,
    d.same_iff other asked,
    lookup-insert key asked value rest,
    d.same_iff key asked,
    d.same_iff other key,
  )

  pub lookup-erase :
      (key asked : K) (m : List (K × V))
      → lookup asked (erase key m) ≡ (if key == asked then none else lookup asked m)
  lookup-erase key asked [] = ground arith
  lookup-erase key asked ((other, value) ∷ rest) = ground (
    arith,
    lookup-erase key asked rest,
    d.same_iff other asked,
    d.same_iff other key,
    d.same_iff key asked,
  )

module _ {ℓ} {K : Type ℓ} ⦃e : Keyed K⦄ where
  pub same_refl : (k : K) → (k == k) ≡ true
  same_refl k = (e.same_iff k k).1 refl
