-- ===== src/Replies/Tests.antt =====
-- src/llm/gemini/client.js and src/llm/budget.js on short texts and a cap of two calls.
use news_market_ai.Common.{
  ℕ, ◌≡◌, refl, true, if◌then◌else◌, ◌==◌, keyed_nat, keyed_list, List, [], ◌∷◌, Text, codes,
  strip_prefix,
}
use news_market_ai.Replies.{
  outside, strip_from, strip_trailing_commas, strip_json_fence, Parsed, value, error,
  parse_model_json,
}
use news_market_ai.Replies.Commas.{
  Piece, char, quoted, plain, backslashed, render, has_no_trailing, strip_trailing_commas-render,
}
use news_market_ai.Replies.Parsing.{ParseSpec, parse_model_json-ParseSpec}

trailing : strip_trailing_commas (codes "[1, \", }\", 2, ]") ≡ codes "[1, \", }\", 2 ]"
unfolding strip_trailing_commas strip_from
trailing = refl

fenced : strip_json_fence (codes "```json\n[1]\n```") ≡ codes "[1]"
unfolding strip_json_fence strip_prefix
fenced = refl

-- Of a run of commas before a bracket only the last goes.
two_commas : strip_trailing_commas (codes "[1,,]") ≡ codes "[1,]"
unfolding strip_trailing_commas strip_from
two_commas = refl

-- [",]\"", 7 , ]
abbrev pieces : List Piece
pieces =
    char 91
    ∷ quoted (plain 44 ∷ plain 93 ∷ backslashed 34 ∷ [])
    ∷ char 44
    ∷ char 55
    ∷ char 44
    ∷ char 32
    ∷ char 93
    ∷ []

strip_trailing_commas-render_example :
    strip_trailing_commas (render pieces)
    ≡ 91 ∷ 34 ∷ 44 ∷ 93 ∷ 92 ∷ 34 ∷ 34 ∷ 44 ∷ 55 ∷ 32 ∷ 93 ∷ []
strip_trailing_commas-render_example =
    strip_trailing_commas-render pieces
      (refl, ((refl, refl, (refl, refl, tt)), (refl, (refl, (refl, (refl, (refl, tt)))))))

no_trailing : has_no_trailing outside (codes "[1, 2]") ≡ true
unfolding has_no_trailing
no_trailing = refl

-- A parser that knows one text.
abbrev parse_one : Text → Parsed Text ℕ
parse_one t = if t == codes "[1]" then value 1 else error t

parse_model_json-ParseSpec_example :
    ParseSpec parse_one
      (strip_json_fence (codes "[1,]"))
      (parse_model_json parse_one (codes "[1,]"))
parse_model_json-ParseSpec_example = parse_model_json-ParseSpec parse_one (codes "[1,]")
