-- ===== src/Gemini/Cascade.antt =====
-- src/llm/gemini/client.js: the two loops of `geminiGenerateContent`, key by key and model by model.
use news_market_ai.Common.{
  ℕ, suc, zero, ◌+◌, ◌-◌, ◌%◌, String, Bool, true, false, ◌&&◌, Option, none, List, [], ◌∷◌,
  if◌then◌else◌, ◌==◌, keyed_nat, keyed_string, length,
}
use news_market_ai.Budget.{Budget}
use news_market_ai.Gemini.World.{World, End, no_key}
use news_market_ai.Gemini.Step.{
  State, Flow, next, skip_key, leave, is_empty, cascade_exhausted, add_dead, try_model,
}

module _ {W D : Type 0} (world : World W D) where
  -- The inner loop over the models that are left; `first` marks the primary model.
  unfoldable pub try_models :
      List String → Bool → ℕ → Bool → List String → State W → Flow D × State W
  unfolding try_model
  try_models models first key_index is_last_key [] s = (next, s)
  try_models models first key_index is_last_key (m ∷ ms) s =
      let (flow, s') = try_model world models first m key_index (is_last_key && is_empty ms) s in
      elim flow [
        | next ↦ try_models models false key_index is_last_key ms s'
        | skip_key ↦ (skip_key, s')
        | leave end ↦ (leave end, s')
      ]

  -- The outer loop over the keys that are left.
  unfoldable pub try_keys : List String → List ℕ → State W → End D × State W
  unfolding try_models
  try_keys models [] s = (cascade_exhausted s, s)
  try_keys models (k ∷ ks) s =
      let (flow, s') = try_models models true k (is_empty ks) models s in
      elim flow [
        | next ↦ try_keys models ks s'
        | skip_key ↦ try_keys models ks s'
        | leave end ↦ (end, s')
      ]

  -- The models that an earlier call marked as dead; the marks are ignored where they leave none.
  unfoldable pub marked_dead : List String → List String → W → List String × W
  marked_dead [] dead w = (dead, w)
  marked_dead (m ∷ ms) dead w =
      let (marked, w') = world.is_marked_dead m w in
      marked_dead ms (if marked then add_dead m dead else dead) w'

-- `[primaryModel, ...fallbacks.filter((m) => m !== primaryModel)]`
unfoldable pub without : String → List String → List String
without m [] = []
without m (n ∷ ns) = if n == m then without m ns else n ∷ without m ns

-- The keys from `start` on, each once: `(startIndex + step) % keyCount` for each step.
unfoldable pub key_order : ℕ → ℕ → ℕ → List ℕ
key_order start count zero = []
key_order start count (suc left) =
    ((start + (count - suc left)) % count) ∷ key_order start count left

abbrev pub start_state : {W : Type 0} → List String → Option Budget → List String → W → State W
start_state models budget marked w = record {
  world = w;
  budget = budget;
  attempts = [];
  cooldown_seconds = [];
  last_err = none;
  real_err = none;
  budgeted_attempts = 0;
  dead_models = if length marked == length models then [] else marked;
}

-- `geminiGenerateContent` with at least one key: the result, the state that the call leaves, and
-- the next `nextKeyStartIndex`. Without a key it throws before anything else (`no_key`).
unfoldable pub generate_content :
    {W D : Type 0}
    → World W D
    → ℕ
    → String
    → List String
    → Option Budget
    → ℕ
    → W
    → End D × (State W × ℕ)
unfolding marked_dead without key_order try_keys
generate_content world key_count primary fallbacks budget next_start w =
    let models = primary ∷ without primary fallbacks in
    let (marked, w') = marked_dead world models [] w in
    let s = start_state models budget marked w' in
    let start = next_start % key_count in
    let (end, s') = try_keys world models (key_order start key_count key_count) s in
    if key_count == 0
    then (no_key, (start_state models budget [] w, next_start))
    else (end, (s', (next_start + 1) % key_count))
