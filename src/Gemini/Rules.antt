-- ===== src/Gemini/Rules.antt =====
-- src/llm/gemini/client.js: invariants and postconditions of the two loops, from the loop's body.
use news_market_ai.Common.{ℕ, String, Bool, true, false, List, [], ◌∷◌, ◌&&◌, keyed_nat}
use news_market_ai.Gemini.World.{World, End}
use news_market_ai.Gemini.Step.{
  State, Flow, next, skip_key, leave, is_empty, cascade_exhausted, try_model,
}
use news_market_ai.Gemini.Cascade.{try_models, try_keys}

-- An invariant `P` where the flow goes on, and a postcondition `Q` where it leaves.
abbrev pub Keeps {ℓ} :
    {W D : Type 0} → (State W → Type ℓ) → (End D → State W → Type ℓ) → Flow D × State W → Type ℓ
Keeps P Q (next, s) = P s
Keeps P Q (skip_key, s) = P s
Keeps P Q (leave end, s) = Q end s

module _ {ℓ} {W D : Type 0} (world : World W D) (models : List String) (P : State W → Type ℓ)
    (Q : End D → State W → Type ℓ)
    (body : (first : Bool) (model : String) (key_index : ℕ) (is_last : Bool) (s : State W)
      → P s
      → Keeps P Q (try_model world models first model key_index is_last s))
    (at_end : (s : State W) → P s → Q (cascade_exhausted s) s) where
  after_body :
      (is_last_key : Bool) (ms : List String) (key_index : ℕ) (r : Flow D × State W)
      → ((s : State W) → P s → Keeps P Q (try_models world models false key_index is_last_key ms s))
      → Keeps P Q r
      → Keeps P Q (elim r.0 [
        | next ↦ try_models world models false key_index is_last_key ms r.1
        | skip_key ↦ (skip_key, r.1)
        | leave end ↦ (leave end, r.1)
      ])
  after_body is_last_key ms key_index (next, s) ih h = ih s h
  after_body is_last_key ms key_index (skip_key, s) ih h = h
  after_body is_last_key ms key_index (leave end, s) ih h = h

  try_models-Keeps :
      (ms : List String) (first : Bool) (key_index : ℕ) (is_last_key : Bool) (s : State W)
      → P s
      → Keeps P Q (try_models world models first key_index is_last_key ms s)
  unfolding try_models
  try_models-Keeps [] first key_index is_last_key s h = h
  try_models-Keeps (m ∷ ms) first key_index is_last_key s h =
      after_body is_last_key ms key_index
        (try_model world models first m key_index (is_last_key && is_empty ms) s)
        (λ t. try_models-Keeps ms false key_index is_last_key t)
        (body first m key_index (is_last_key && is_empty ms) s h)

  after_key :
      (ks : List ℕ) (r : Flow D × State W)
      → ((s : State W) → P s → Q (try_keys world models ks s).0 (try_keys world models ks s).1)
      → Keeps P Q r
      → let t : End D × State W = elim r.0 [
        | next ↦ try_keys world models ks r.1
        | skip_key ↦ try_keys world models ks r.1
        | leave end ↦ (end, r.1)
      ] in
        Q t.0 t.1
  after_key ks (next, s) ih h = ih s h
  after_key ks (skip_key, s) ih h = ih s h
  after_key ks (leave end, s) ih h = h

  pub try_keys-Keeps :
      (ks : List ℕ) (s : State W)
      → P s
      → Q (try_keys world models ks s).0 (try_keys world models ks s).1
  unfolding try_keys
  try_keys-Keeps [] s h = at_end s h
  try_keys-Keeps (k ∷ ks) s h =
      after_key ks (try_models world models true k (is_empty ks) models s)
        (λ t. try_keys-Keeps ks t) (try_models-Keeps models true k (is_empty ks) s h)
