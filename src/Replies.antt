-- ===== src/Replies.antt =====
-- src/llm/gemini/client.js, the text of a model's reply, and src/llm/budget.js, the cap on calls. Texts are
-- lists of UTF-16 codes; `JSON.parse` is a parameter.
pub mod Commas
pub mod Parsing
pub mod Calls
mod Tests
use mathlib.Core.List.{reverse}
use news_market_ai.Common.{
  ℕ, ◌+◌, Bool, true, false, not, ◌&&◌, ◌||◌, Option, none, some, List, [], ◌∷◌, any, leb, ltb,
  if◌then◌else◌, ◌==◌, keyed_nat, keyed_list, Text, codes, strip_prefix,
}

-- The characters of `\s`, which are also those that `trim` removes.
abbrev pub is_space : ℕ → Bool
is_space c =
    (leb 9 c && leb c 13)
    || ((leb 8192 c && leb c 8202)
        || any (λ d. d == c) (32 ∷ 160 ∷ 5760 ∷ 8232 ∷ 8233 ∷ 8239 ∷ 8287 ∷ 12288 ∷ 65279 ∷ []))

abbrev pub drop_space : Text → Text
drop_space [] = []
drop_space (c ∷ cs) = let rest = drop_space cs in if is_space c then rest else c ∷ cs

-- `trim`
abbrev pub trim : Text → Text
trim t = reverse (drop_space (reverse (drop_space t)))

abbrev or_text : Text → Option Text → Text
or_text t none = t
or_text t (some u) = u

-- `replace(/^```json\n?/, "")`
abbrev drop_newline : Text → Text
drop_newline [] = []
drop_newline (c ∷ cs) = if c == 10 then cs else c ∷ cs

abbrev after_fence : Text → Option Text → Text
after_fence t none = t
after_fence t (some u) = drop_newline u

-- `stripJsonFence`
unfoldable pub strip_json_fence : Text → Text
unfolding strip_prefix
strip_json_fence text =
    let t = trim text in
    let opened = after_fence t (strip_prefix (codes "```json") t) in
    trim (reverse (or_text (reverse opened) (strip_prefix (codes "```") (reverse opened))))

-- Where the scan of `stripTrailingCommas` is: outside strings, in one, or after a backslash in one.
pub data Place : Type 0 where
  outside : Place
  in_string : Place
  escaped : Place

abbrev pub next_place : Place → ℕ → Place
next_place outside c = if c == 34 then in_string else outside
next_place in_string c = if c == 92 then escaped else if c == 34 then outside else in_string
next_place escaped c = in_string

-- The next character that is no space is a closing brace or bracket.
abbrev pub closes : Text → Bool
closes [] = false
closes (c ∷ cs) = let rest = closes cs in if is_space c then rest else c == 125 || c == 93

-- A comma outside strings right before a closing brace or bracket.
abbrev pub is_trailing : Place → ℕ → Text → Bool
is_trailing outside c cs = c == 44 && closes cs
is_trailing in_string c cs = false
is_trailing escaped c cs = false

-- The loop of `stripTrailingCommas`.
unfoldable pub strip_from : Place → Text → Text
strip_from place [] = []
strip_from place (c ∷ cs) =
    let rest = strip_from (next_place place c) cs in
    if is_trailing place c cs then rest else c ∷ rest

-- `stripTrailingCommas`
unfoldable pub strip_trailing_commas : Text → Text
unfolding strip_from
strip_trailing_commas text = strip_from outside text

-- `JSON.parse`: a value, or the error that it throws.
pub data Parsed (E V : Type 0) : Type 0 where
  value : V → Parsed E V
  error : E → Parsed E V

module _ {E V : Type 0} (parse : Text → Parsed E V) where
  abbrev pub or_error : E → Parsed E V → Parsed E V
  or_error e (value v) = value v
  or_error e (error _) = error e

  -- The catch block of `parseModelJson`.
  abbrev pub repair : Text → Parsed E V → Parsed E V
  repair stripped (value v) = value v
  repair stripped (error e) =
      let repaired = strip_trailing_commas stripped in
      if repaired == stripped then error e else or_error e (parse repaired)

  -- `parseModelJson`
  unfoldable pub parse_model_json : Text → Parsed E V
  unfolding strip_json_fence strip_trailing_commas
  parse_model_json text = let stripped = strip_json_fence text in repair stripped (parse stripped)

-- `createLlmBudget`'s budget of a run.
pub record LlmBudget : Type 0 where
  pub max_calls : ℕ
  pub used : ℕ

-- `createLlmBudget` on a number: `none` is its throw.
unfoldable pub create_llm_budget : ℕ → Option LlmBudget
create_llm_budget n = if ltb n 1 then none else some (record { max_calls = n; used = 0 })

-- `chargeLlmCall`: whether the call may go on, `false` being `LlmBudgetExceededError`, and the budget.
unfoldable pub charge_llm_call : Option LlmBudget → Bool × Option LlmBudget
charge_llm_call none = (true, none)
charge_llm_call (some b) =
    if leb b.max_calls b.used
    then (false, some b)
    else (true, some (record b { used = b.used + 1 }))
