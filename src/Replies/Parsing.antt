-- ===== src/Replies/Parsing.antt =====
-- src/llm/gemini/client.js: what `parseModelJson` gives, for any `JSON.parse`.
use news_market_ai.Common.{
  ◌≡◌, refl, sym, ◌==◌, keyed_nat, keyed_list, same_list_iff, Text, inl, inr, ◌⊎◌, Bool-cases,
}
use mathlib.Core.Path.{subst}
use news_market_ai.Replies.{
  outside, Parsed, value, error, or_error, repair, strip_json_fence, strip_trailing_commas,
  parse_model_json,
}
use news_market_ai.Replies.Commas.{without_separators, strip_trailing_commas-keeps}

module _ {E V : Type 0} (parse : Text → Parsed E V) where
  -- A value comes from the stripped text, or, when that does not parse, from the text without trailing
  -- commas; an error is the one of the stripped text, and the other text does not parse either.
  abbrev pub ParseSpec : Text → Parsed E V → Type 0
  ParseSpec stripped (value v) =
      (parse stripped ≡ value v)
      ⊎ ((e : E) × (parse stripped ≡ error e)
          × (parse (strip_trailing_commas stripped) ≡ value v)
          × (without_separators outside (strip_trailing_commas stripped)
              ≡ without_separators outside stripped))
  ParseSpec stripped (error e) =
      (parse stripped ≡ error e)
      × ((later : E) × (parse (strip_trailing_commas stripped) ≡ error later))

  or_error-ParseSpec :
      (stripped : Text) (e : E) (r : Parsed E V)
      → parse stripped ≡ error e
      → parse (strip_trailing_commas stripped) ≡ r
      → ParseSpec stripped (or_error parse e r)
  or_error-ParseSpec stripped e (value v) h k = inr (e, h, k, strip_trailing_commas-keeps stripped)
  or_error-ParseSpec stripped e (error later) h k = (h, (later, k))

  repair-ParseSpec :
      (stripped : Text) (r : Parsed E V)
      → parse stripped ≡ r
      → ParseSpec stripped (repair parse stripped r)
  repair-ParseSpec stripped (value v) h = inl h
  repair-ParseSpec stripped (error e) h =
      let repaired = strip_trailing_commas stripped in
      elim (Bool-cases (repaired == stripped)) [
        | inl b ↦
            rw b (
              h,
              (e, subst (λ x. parse x ≡ error e) (sym ((same_list_iff repaired stripped).0 b)) h),
            )
        | inr b ↦ rw b (or_error-ParseSpec stripped e (parse repaired) h refl)
      ]

  -- A reply that parses once its fence is off gives that value. One that does not gives the value of the
  -- text without its trailing commas, which differs from it by commas that the scan has outside strings
  -- only; and only where that text does not parse either it gives an error, the one that the first parse
  -- threw.
  pub parse_model_json-ParseSpec :
      (text : Text) → ParseSpec (strip_json_fence text) (parse_model_json parse text)
  unfolding parse_model_json
  parse_model_json-ParseSpec text =
      repair-ParseSpec (strip_json_fence text) (parse (strip_json_fence text)) refl

  repair-value :
      (stripped : Text) (v : V)
      → parse stripped ≡ value v
      → repair parse stripped (parse stripped) ≡ value v
  repair-value stripped v h = rw h refl

  -- Valid JSON in a fence or not is parsed as it is.
  pub parse_model_json-valid :
      (text : Text) (v : V)
      → parse (strip_json_fence text) ≡ value v
      → parse_model_json parse text ≡ value v
  unfolding parse_model_json
  parse_model_json-valid text v h = repair-value (strip_json_fence text) v h
