-- ===== src/Common/Decimal.antt =====
-- Texts as lists of character codes, and the decimal text of a number.
use Prim.Native.Nat.{ℕ, zero, suc, ◌+◌, ◌-◌, ◌*◌, ◌/◌, ◌%◌, ◌<◌}
use Prim.Native.Char.{code}
use Prim.Native.String.{String}
use mathlib.Core.Path.{◌≡◌, refl}
use mathlib.Core.Logic.{inl, inr}
use mathlib.Core.Bool.{Bool, ◌&&◌}
use mathlib.Core.List.{List, [], ◌∷◌, ◌++◌}
use mathlib.Core.Option.{Option, none, some}
use native.Mathlib.Omega.{arith}
use news_market_ai.Common.Tests.{ltb, leb, if◌then◌else◌, Bool-cases}
use news_market_ai.Common.Keys.{keyed_nat, ◌==◌}

abbrev pub Text : Type 0
Text = List ℕ

abbrev pub codes : String → Text
codes String.[] = []
codes (String.◌∷◌ c s) = code c ∷ codes s

abbrev pub is_digit : ℕ → Bool
is_digit c = leb b'0' c && leb c b'9'

-- `text.startsWith(prefix)` and `text.slice(prefix.length)` in one: what follows the prefix.
unfoldable pub strip_prefix : Text → Text → Option Text
strip_prefix [] t = some t
strip_prefix (c ∷ p) [] = none
strip_prefix (c ∷ p) (d ∷ t) = if c == d then strip_prefix p t else none

-- The decimal digits of a number, on fuel above it.
digits : ℕ → ℕ → Text
digits zero n = []
digits (suc f) n =
    let shorter = digits f (n / 10) in
    if ltb n 10 then (b'0' + n) ∷ [] else shorter ++ (b'0' + n % 10) ∷ []

-- `String(n)`
unfoldable pub decimal : ℕ → Text
unfolding digits
decimal n = digits (suc n) n

read_digits : ℕ → Text → Option ℕ
read_digits acc [] = some acc
read_digits acc (c ∷ t) = if is_digit c then read_digits (acc * 10 + (c - b'0')) t else none

-- `Number(text)` on a text of digits (the empty text is 0); any other text is read as not a number.
unfoldable pub to_number : Text → Option ℕ
unfolding read_digits
to_number t = read_digits 0 t

read_digits-snoc :
    (t : Text) (acc d v : ℕ)
    → d < 10
    → read_digits acc t ≡ some v
    → read_digits acc (t ++ (b'0' + d) ∷ []) ≡ some (v * 10 + d)
unfolding read_digits
read_digits-snoc [] acc d v h e = ground arith
read_digits-snoc (c ∷ t) acc d v h e =
    ground (arith, read_digits-snoc t (acc * 10 + (c - b'0')) d v h)

read_digits-digits : (f n : ℕ) → n < f → read_digits 0 (digits f n) ≡ some n
unfolding read_digits digits
read_digits-digits zero n h = elim h [ ]
read_digits-digits (suc f) n h = elim (Bool-cases (ltb n 10)) [
  | inl e ↦ ground arith
  | inr e ↦ rw e (
      ground (
        arith,
        read_digits-snoc (digits f (n / 10)) 0 (n % 10) (n / 10) (omega arith)
            (read_digits-digits f (n / 10) (ground arith)),
      ))
]

-- What `String(n)` writes, `Number` reads back.
pub to_number-decimal : (n : ℕ) → to_number (decimal n) ≡ some n
unfolding to_number decimal
to_number-decimal n = read_digits-digits (suc n) n (omega arith)

pub strip_prefix-append : (p t : Text) → strip_prefix p (p ++ t) ≡ some t
unfolding strip_prefix
strip_prefix-append [] t = refl
strip_prefix-append (c ∷ p) t = ground (arith, strip_prefix-append p t)
