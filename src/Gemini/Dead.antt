-- ===== src/Gemini/Dead.antt =====
-- src/llm/gemini/client.js: how many of the models are dead.
use news_market_ai.Common.{
  ℕ, ◌+◌, ◌≤◌, ◌<◌, ◌≡◌, String, true, false, List, [], ◌∷◌, arith, if◌then◌else◌, keyed_nat,
  keyed_string, contains, length,
}

-- How many of the models are among the dead ones.
abbrev pub count_in : List String → List String → ℕ
count_in dead [] = 0
count_in dead (m ∷ ms) = (if contains m dead then 1 else 0) + count_in dead ms

count_in-le : (dead models : List String) → count_in dead models ≤ length models
count_in-le dead [] = omega arith
count_in-le dead (n ∷ ns) = ground (arith, count_in-le dead ns)

-- A model that is alive leaves the dead ones short of all.
pub count_in-lt :
    (m : String) (dead models : List String)
    → contains m dead ≡ false
    → contains m models ≡ true
    → count_in dead models < length models
count_in-lt m dead [] alive h = cc
count_in-lt m dead (n ∷ ns) alive h =
    ground (arith, keyed_string.same_iff n m, count_in-lt m dead ns alive, count_in-le dead ns)

count_in-cons-le :
    (m : String) (dead models : List String) → count_in dead models ≤ count_in (m ∷ dead) models
count_in-cons-le m dead [] = omega arith
count_in-cons-le m dead (n ∷ ns) = ground (arith, count_in-cons-le m dead ns)

pub count_in-cons :
    (m : String) (dead models : List String)
    → contains m dead ≡ false
    → contains m models ≡ true
    → count_in dead models + 1 ≤ count_in (m ∷ dead) models
count_in-cons m dead [] h k = cc
count_in-cons m dead (n ∷ ns) h k = ground (
  arith,
  keyed_string.same_iff n m,
  keyed_string.same_iff m n,
  count_in-cons m dead ns h,
  count_in-cons-le m dead ns,
)
