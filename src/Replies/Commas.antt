-- ===== src/Replies/Commas.antt =====
-- src/llm/gemini/client.js: `stripTrailingCommas` drops commas outside strings and nothing else.
use news_market_ai.Common.{
  ℕ, ◌≡◌, ◌∙◌, ap, refl, Bool, true, false, not, ◌&&◌, ◌||◌, List, [], ◌∷◌, if◌then◌else◌, ◌==◌,
  keyed_nat, Text, arith, inl, inr, Bool-cases,
}
use news_market_ai.Replies.{
  Place, outside, in_string, escaped, next_place, is_trailing, is_space, closes, strip_from,
  strip_trailing_commas,
}

-- A comma outside strings.
abbrev pub is_separator : Place → ℕ → Bool
is_separator outside c = c == 44
is_separator in_string c = false
is_separator escaped c = false

-- A text without its commas outside strings.
unfoldable pub without_separators : Place → Text → Text
without_separators place [] = []
without_separators place (c ∷ cs) =
    let rest = without_separators (next_place place c) cs in
    if is_separator place c then rest else c ∷ rest

-- No comma outside strings stands right before a closing brace or bracket.
unfoldable pub has_no_trailing : Place → Text → Bool
has_no_trailing place [] = true
has_no_trailing place (c ∷ cs) =
    not (is_trailing place c cs) && has_no_trailing (next_place place c) cs

trailing-separator :
    (place : Place) (c : ℕ) (cs : Text)
    → is_trailing place c cs ≡ true
    → is_separator place c ≡ true
trailing-separator outside c cs h = ground arith
trailing-separator in_string c cs h = cc
trailing-separator escaped c cs h = cc

separator-place : (place : Place) (c : ℕ) → is_separator place c ≡ true → next_place place c ≡ place
separator-place outside c h = ground arith
separator-place in_string c h = cc
separator-place escaped c h = cc

strip_from-keeps :
    (place : Place) (t : Text)
    → without_separators place (strip_from place t) ≡ without_separators place t
unfolding strip_from without_separators
strip_from-keeps place [] = refl
strip_from-keeps place (c ∷ cs) = elim (Bool-cases (is_trailing place c cs)) [
  | inl b ↦
      let s = trailing-separator place c cs b in
      rw (b, s, separator-place place c s) (strip_from-keeps place cs)
  | inr b ↦ rw (b, strip_from-keeps (next_place place c) cs) refl
]

strip_from-unchanged :
    (place : Place) (t : Text) → has_no_trailing place t ≡ true → strip_from place t ≡ t
unfolding strip_from has_no_trailing
strip_from-unchanged place [] h = refl
strip_from-unchanged place (c ∷ cs) h = ground (arith, strip_from-unchanged (next_place place c) cs)

-- What is left of a text without the commas outside its strings stays the same.
pub strip_trailing_commas-keeps :
    (text : Text)
    → without_separators outside (strip_trailing_commas text) ≡ without_separators outside text
unfolding strip_trailing_commas
strip_trailing_commas-keeps text = strip_from-keeps outside text

-- A text without a trailing comma outside strings, as valid JSON is, stays as it is.
pub strip_trailing_commas-unchanged :
    (text : Text) → has_no_trailing outside text ≡ true → strip_trailing_commas text ≡ text
unfolding strip_trailing_commas
strip_trailing_commas-unchanged text h = strip_from-unchanged outside text h

-- What a string literal is made of: a character by itself, or a backslash with the one after it.
pub data Item : Type 0 where
  plain : ℕ → Item
  backslashed : ℕ → Item

-- What a text is made of: a character outside strings, or a string literal.
pub data Piece : Type 0 where
  char : ℕ → Piece
  quoted : List Item → Piece

abbrev pub render_items : List Item → Text → Text
render_items [] rest = rest
render_items (plain c ∷ items) rest = c ∷ render_items items rest
render_items (backslashed c ∷ items) rest = 92 ∷ c ∷ render_items items rest

-- The text of the pieces: a literal stands between quotes.
abbrev pub render : List Piece → Text
render [] = []
render (char c ∷ ps) = c ∷ render ps
render (quoted items ∷ ps) = 34 ∷ render_items items (34 ∷ render ps)

-- No bare quote or backslash stands inside a literal, and no quote outside one.
abbrev pub AreItems : List Item → Type 0
AreItems [] = Unit
AreItems (plain c ∷ items) = ((c == 34) ≡ false) × ((c == 92) ≡ false) × AreItems items
AreItems (backslashed c ∷ items) = AreItems items

abbrev pub ArePieces : List Piece → Type 0
ArePieces [] = Unit
ArePieces (char c ∷ ps) = ((c == 34) ≡ false) × ArePieces ps
ArePieces (quoted items ∷ ps) = AreItems items × ArePieces ps

-- The text goes on with spaces and then a closing brace or bracket.
abbrev pub goes_on_closing : Text → Bool
goes_on_closing [] = false
goes_on_closing (c ∷ cs) =
    let rest = goes_on_closing cs in if c == 125 || c == 93 then true else is_space c && rest

-- The pieces without the commas right before a closing brace or bracket.
abbrev pub drop_trailing : List Piece → List Piece
drop_trailing [] = []
drop_trailing (quoted items ∷ ps) = quoted items ∷ drop_trailing ps
drop_trailing (char c ∷ ps) =
    let rest = drop_trailing ps in
    if c == 44 && goes_on_closing (render ps) then rest else char c ∷ rest

closes-goes_on : (t : Text) → closes t ≡ goes_on_closing t
closes-goes_on [] = refl
closes-goes_on (c ∷ cs) = ground (arith, closes-goes_on cs)

strip_from-items :
    (items : List Item) (rest : Text)
    → AreItems items
    → strip_from in_string (render_items items (34 ∷ rest))
      ≡ render_items items (34 ∷ strip_from outside rest)
unfolding strip_from
strip_from-items [] rest are = refl
strip_from-items (plain c ∷ items) rest are =
    rw are.1 (rw are.0 (ap (λ t. c ∷ t) (strip_from-items items rest are.2)))
strip_from-items (backslashed c ∷ items) rest are =
    ap (λ t. 92 ∷ c ∷ t) (strip_from-items items rest are)

strip_from-pieces :
    (ps : List Piece) → ArePieces ps → strip_from outside (render ps) ≡ render (drop_trailing ps)
unfolding strip_from
strip_from-pieces [] are = refl
strip_from-pieces (quoted items ∷ ps) are =
    ap (λ t. 34 ∷ t)
      (strip_from-items items (render ps) are.0
        ∙ ap (λ t. render_items items (34 ∷ t)) (strip_from-pieces ps are.1))
strip_from-pieces (char c ∷ ps) are = elim (Bool-cases (c == 44 && goes_on_closing (render ps))) [
  | inl b ↦ rw are.0 (rw (closes-goes_on (render ps)) (rw b (strip_from-pieces ps are.1)))
  | inr b ↦
      rw are.0
        (rw (closes-goes_on (render ps)) (rw b (ap (λ t. c ∷ t) (strip_from-pieces ps are.1))))
]

-- On a text of string literals and of characters outside them, a backslash in a literal taking the next
-- character with it, the commas that go are exactly those outside literals with only spaces between
-- them and a closing brace or bracket: the literals and every other character stay, in order.
pub strip_trailing_commas-render :
    (ps : List Piece) → ArePieces ps → strip_trailing_commas (render ps) ≡ render (drop_trailing ps)
unfolding strip_trailing_commas
strip_trailing_commas-render ps are = strip_from-pieces ps are
