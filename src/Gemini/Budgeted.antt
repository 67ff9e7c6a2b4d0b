-- ===== src/Gemini/Budgeted.antt =====
-- src/llm/gemini/client.js: the calls of one cascade under a subrequest budget.
use news_market_ai.Common.{
  ℕ, ◌+◌, ◌%◌, ◌≤◌, ◌≡◌, ◌∙◌, refl, String, Bool, true, false, List, [], ◌∷◌, arith, if◌then◌else◌,
  keyed_nat, Option, some, none, keyed_string,
}
use news_market_ai.Budget.{Budget, Outcome, ok, refused, charge_external, charge_gemini}
use news_market_ai.Cooldown.{Cooling}
use news_market_ai.Gemini.World.{
  World, Attempt, noted_ok, noted_error, Reply, answered, failed, VendorError, call_once,
}
use news_market_ai.Gemini.Step.{
  State, Flow, next, skip_key, leave, try_model, cool_down, on_error, on_reply, charged,
  unless_cooling, skip, charge_budget, has_budget, tag_daily,
}
use news_market_ai.Gemini.Cascade.{generate_content, marked_dead, start_state, without, key_order}
use news_market_ai.Gemini.Rules.{Keeps, try_keys-Keeps}

-- An attempt that sent a request.
abbrev pub is_call : Attempt → Bool
is_call a = elim a.outcome [ noted_ok ↦ true | noted_error ↦ true | _ ↦ false ]

abbrev pub calls : List Attempt → ℕ
calls [] = 0
calls (a ∷ older) = (if is_call a then 1 else 0) + calls older

abbrev pub external_of : Option Budget → ℕ
external_of none = 0
external_of (some b) = b.external

-- What the locals say about the requests that were sent, from a budget that had `before` fetches.
abbrev Counts : {W : Type 0} → ℕ → State W → Type 0
Counts before s =
    (has_budget s.budget ≡ true)
    × (external_of s.budget ≡ before + calls s.attempts)
    × (s.budgeted_attempts ≡ calls s.attempts)
    × (calls s.attempts ≤ 3)

calls-tag_daily : (l : List Attempt) → calls (tag_daily l) ≡ calls l
calls-tag_daily [] = refl
calls-tag_daily (a ∷ l) = refl

-- One request was sent, and charged before.
abbrev OneCall : {W D : Type 0} → State W → Flow D × State W → Type 0
OneCall s (flow, t) =
    (calls t.attempts ≡ calls s.attempts + 1)
    × (has_budget t.budget ≡ has_budget s.budget)
    × (external_of t.budget ≡ external_of s.budget)
    × (t.budgeted_attempts ≡ s.budgeted_attempts)

abbrev NoCall : {W D : Type 0} → State W → Flow D × State W → Type 0
NoCall s (flow, t) =
    (calls t.attempts ≡ calls s.attempts)
    × (has_budget t.budget ≡ has_budget s.budget)
    × (external_of t.budget ≡ external_of s.budget)
    × (t.budgeted_attempts ≡ s.budgeted_attempts)

-- What `chargeExternal` did to the budget of the cascade.
abbrev Charged : Option Budget → Outcome (Unit {0}) × Option Budget → Type 0
Charged a (ok _, b) = (has_budget b ≡ has_budget a) × (external_of b ≡ external_of a + 1)
Charged a (refused _ _, b) = (has_budget b ≡ has_budget a) × (external_of b ≡ external_of a)

charge_budget-Charged : (a : Option Budget) → has_budget a ≡ true → Charged a (charge_budget a)
unfolding charge_external
charge_budget-Charged none h = cc
charge_budget-Charged (some b) h = ground arith

module _ {W D : Type 0} (world : World W D) (models : List String) where
  cool_down-NoCall :
      (e : VendorError) (model : String) (key_index : ℕ) (is_last : Bool) (s : State W)
      → NoCall s (cool_down world e model key_index is_last s)
  unfolding cool_down
  cool_down-NoCall e model key_index is_last s = ground (arith, calls-tag_daily s.attempts)

  on_error-OneCall :
      (e : VendorError) (model : String) (key_index : ℕ) (is_last : Bool) (s : State W)
      → OneCall s (on_error world models e model key_index is_last s)
  unfolding on_error
  on_error-OneCall e model key_index is_last s = ground (
    arith,
    cool_down-NoCall e model key_index is_last (record s {
      last_err = some e;
      real_err = some e;
      attempts =
          record {
            model = model;
            key_index = key_index;
            outcome = noted_error;
            status = e.status;
            daily = false;
          }
          ∷ s.attempts;
    }),
  )

  on_reply-OneCall :
      (first : Bool) (model : String) (key_index : ℕ) (is_last : Bool) (r : Reply D) (s : State W)
      → OneCall s (on_reply world models first model key_index is_last r s)
  unfolding on_reply charge_gemini
  on_reply-OneCall first model key_index is_last (answered d) s = ground arith
  on_reply-OneCall first model key_index is_last (failed e) s =
      on_error-OneCall e model key_index is_last s

  Counts-OneCall :
      (before : ℕ) (s : State W) (b : Option Budget) (r : Flow D × State W)
      → Counts before s
      → calls s.attempts ≤ 2
      → (has_budget b ≡ true)
      → (external_of b ≡ external_of s.budget + 1)
      → OneCall (record s { budget = b; budgeted_attempts = s.budgeted_attempts + 1 }) r
      → Counts before r.1
  Counts-OneCall before s b (flow, t) v h p e o = (
    o.1 ∙ p,
    omega (arith, o.0, o.2, e, v.1),
    omega (arith, o.0, o.3, v.2),
    omega (arith, o.0, h),
  )

  charged-Counts :
      (before : ℕ) (first : Bool) (model : String) (key_index : ℕ) (is_last : Bool)
      (o : Outcome (Unit {0}) × Option Budget) (s : State W)
      → Counts before s
      → calls s.attempts ≤ 2
      → Charged s.budget o
      → Counts before (charged world models first model key_index is_last o s).1
  charged-Counts before first model key_index is_last (refused why used, b) s v h c =
      (c.0 ∙ v.0, c.1 ∙ v.1, v.2, v.3)
  charged-Counts before first model key_index is_last (ok _, none) s v h c = ground arith
  charged-Counts before first model key_index is_last (ok _, some b) s v h c =
      let (r, w) = world.fetch model key_index s.world in
      let t : State W = record s {
        world = w;
        budget = some b;
        budgeted_attempts = s.budgeted_attempts + 1;
      } in
      let o = on_reply-OneCall first model key_index is_last (call_once model key_index r) t in
      (o.1, omega (arith, o.0, o.2, c.1, v.1), omega (arith, o.0, o.3, v.2), omega (arith, o.0, h))

  unless_cooling-Counts :
      (before : ℕ) (first : Bool) (model : String) (key_index : ℕ) (is_last : Bool)
      (c : Option Cooling × W) (s : State W)
      → Counts before s
      → calls s.attempts ≤ 2
      → Counts before (unless_cooling world models first model key_index is_last c s).1
  unfolding skip
  unless_cooling-Counts before first model key_index is_last (some cooling, w) s v h = ground arith
  unless_cooling-Counts before first model key_index is_last (none, w) s v h =
      charged-Counts before first model key_index is_last (charge_budget s.budget)
        (record s { world = w }) v h (charge_budget-Charged s.budget v.0)

  try_model-Counts :
      (before : ℕ) (first : Bool) (model : String) (key_index : ℕ) (is_last : Bool) (s : State W)
      → Counts before s
      → Counts before (try_model world models first model key_index is_last s).1
  unfolding try_model
  try_model-Counts before first model key_index is_last s v =
      let (elapsed, w) = world.elapsed s.world in
      let t : State W = record s { world = w } in
      ground (
        arith,
        unless_cooling-Counts before first model key_index is_last
            (world.get_cooldown model key_index w) t,
      )

  keep_flow :
      (before : ℕ) (r : Flow D × State W)
      → Counts before r.1
      → Keeps (Counts before) (λ _. Counts before) r
  keep_flow before (next, s) h = h
  keep_flow before (skip_key, s) h = h
  keep_flow before (leave end, s) h = h

-- Under a subrequest budget one cascade sends at most three requests, whatever the vendor and the
-- cooldown store answer, and charges the budget with exactly one external fetch for each of them;
-- no request goes uncharged and no skipped combination is charged.
pub generate_content_charges :
    {W D : Type 0} (world : World W D) (key_count : ℕ) (primary : String) (fallbacks : List String)
    (b : Budget) (next_start : ℕ) (w : W)
    → let s = (generate_content world key_count primary fallbacks (some b) next_start w).1.0 in
      (calls s.attempts ≤ 3) × (external_of s.budget ≡ b.external + calls s.attempts)
unfolding generate_content
generate_content_charges world key_count primary fallbacks b next_start w =
    let models = primary ∷ without primary fallbacks in
    let (marked, w') = marked_dead world models [] w in
    let s = start_state models (some b) marked w' in
    let v =
      try_keys-Keeps world models (Counts b.external) (λ _. Counts b.external)
        (λ first m k l t h.
          keep_flow world models b.external (try_model world models first m k l t)
            (try_model-Counts world models b.external first m k l t h))
        (λ t h. h) (key_order (next_start % key_count) key_count key_count) s
        (refl, omega arith, refl, omega arith) in
    ground (arith, v)
