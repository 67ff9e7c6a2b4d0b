-- ===== src/Gemini/Retired.antt =====
-- src/llm/gemini/client.js: a model that answered 404 is not asked again.
use news_market_ai.Common.{
  ℕ, ◌%◌, ◌≡◌, refl, String, Bool, true, false, ◌&&◌, ◌||◌, List, [], ◌∷◌, arith, if◌then◌else◌,
  ◌==◌, keyed_nat, keyed_string, same_refl, Bool-cases, inl, inr, not, Option, some, none, contains,
  length, leb,
}
use news_market_ai.Budget.{Budget, Outcome, ok, refused}
use news_market_ai.Cooldown.{Cooling}
use news_market_ai.Gemini.World.{
  World, rethrown, dead_model_cooldown_seconds, max_cascade_ms, max_attempts_under_budget, Attempt,
  noted_ok, noted_error, Reply, answered, failed, VendorError, call_once,
}
use news_market_ai.Gemini.Step.{
  State, Flow, next, skip_key, leave, try_model, cool_down, on_error, on_reply, skip, charged,
  unless_cooling, charge_budget, tag_daily, add_dead, status_is, is_overloaded,
  is_network_transient, has_budget,
}
use news_market_ai.Gemini.Cascade.{generate_content, marked_dead, start_state, without, key_order}
use news_market_ai.Gemini.Rules.{Keeps, try_keys-Keeps}
use news_market_ai.Gemini.Budgeted.{is_call}

abbrev is_404 : Option ℕ → Bool
is_404 none = false
is_404 (some status) = status == 404

-- An earlier attempt of the cascade at the model ended with status 404.
abbrev pub answered_404 : String → List Attempt → Bool
answered_404 m [] = false
answered_404 m (a ∷ older) = (is_404 a.status && a.model == m) || answered_404 m older

-- No request in the list, newest first, went to a model that had answered 404 before it.
abbrev pub AsksNoRetired : List Attempt → Type 0
AsksNoRetired [] = Unit
AsksNoRetired (a ∷ older) =
    (is_call a ≡ true → answered_404 a.model older ≡ false) × AsksNoRetired older

answered_404-tag_daily :
    (m : String) (l : List Attempt) → answered_404 m (tag_daily l) ≡ answered_404 m l
answered_404-tag_daily m [] = refl
answered_404-tag_daily m (a ∷ l) = refl

AsksNoRetired-tag_daily : (l : List Attempt) → AsksNoRetired l → AsksNoRetired (tag_daily l)
AsksNoRetired-tag_daily [] h = tt
AsksNoRetired-tag_daily (a ∷ l) h = h

-- Who answered 404 is among the dead models.
abbrev Remembers : {W : Type 0} → State W → Type 0
Remembers s =
    AsksNoRetired s.attempts
    × ((m : String) → answered_404 m s.attempts ≡ true → contains m s.dead_models ≡ true)

contains-add_dead :
    (m n : String) (dead : List String)
    → contains m dead ≡ true
    → contains m (add_dead n dead) ≡ true
contains-add_dead m n dead h = ground arith

contains-add_dead_self : (n : String) (dead : List String) → contains n (add_dead n dead) ≡ true
contains-add_dead_self n dead = ground (arith, same_refl n)

-- An attempt at a model that is not dead, with a status other than 404.
remember :
    {W : Type 0} (s : State W) (a : Attempt)
    → Remembers s
    → contains a.model s.dead_models ≡ false
    → AsksNoRetired (a ∷ s.attempts)
remember s a v alive = (
  λ c. elim (Bool-cases (answered_404 a.model s.attempts)) [
    | inl e ↦ cc (v.1 a.model e)
    | inr e ↦ e
  ],
  v.0,
)

tagged :
    {W : Type 0} (is_daily : Bool) (s : State W)
    → Remembers s
    → let l = if is_daily then tag_daily s.attempts else s.attempts in
      AsksNoRetired l × ((m : String) → answered_404 m l ≡ true → contains m s.dead_models ≡ true)
tagged true s v = (
  AsksNoRetired-tag_daily s.attempts v.0,
  λ m h. v.1 m (rw (answered_404-tag_daily m s.attempts) at h),
)
tagged false s v = v

other_status :
    (m model : String) (status : Option ℕ) (dead : List String) (older : List Attempt)
    → is_404 status ≡ false
    → (answered_404 m older ≡ true → contains m dead ≡ true)
    → ((is_404 status && model == m) || answered_404 m older) ≡ true
    → contains m dead ≡ true
other_status m model status dead older e h k = ground arith

gone_status :
    (m model : String) (status : Option ℕ) (dead : List String) (older : List Attempt)
    → (answered_404 m older ≡ true → contains m dead ≡ true)
    → ((is_404 status && model == m) || answered_404 m older) ≡ true
    → contains m (add_dead model dead) ≡ true
gone_status m model status dead older h k = ground (
  arith,
  keyed_string.same_iff model m,
  contains-add_dead m model dead,
  contains-add_dead_self model dead,
)

bad_key-not_404 :
    (e : VendorError) → (status_is 401 e || status_is 403 e) ≡ true → is_404 e.status ≡ false
bad_key-not_404 e h = ground arith

not_404 : (e : VendorError) → status_is 404 e ≡ false → is_404 e.status ≡ false
not_404 e h = ground arith

either-Remembers :
    {W D : Type 0} (b : Bool) (x y : Flow D × State W)
    → Remembers x.1
    → Remembers y.1
    → Remembers (if b then x else y).1
either-Remembers true x y h k = h
either-Remembers false x y h k = k

module _ {W D : Type 0} (world : World W D) (models : List String) where
  cool_down-Remembers :
      (e : VendorError) (model : String) (key_index : ℕ) (is_last : Bool) (s : State W)
      → Remembers s
      → Remembers (cool_down world e model key_index is_last s).1
  unfolding cool_down
  cool_down-Remembers e model key_index true s v = tagged _ s v
  cool_down-Remembers e model key_index false s v = tagged _ s v

  on_error-Remembers :
      (e : VendorError) (model : String) (key_index : ℕ) (is_last : Bool) (s : State W)
      → Remembers s
      → contains model s.dead_models ≡ false
      → Remembers (on_error world models e model key_index is_last s).1
  unfolding on_error
  on_error-Remembers e model key_index is_last s v alive =
      let a : Attempt = record {
        model = model;
        key_index = key_index;
        outcome = noted_error;
        status = e.status;
        daily = false;
      } in
      let asks = remember s a v alive in
      let s' : State W = record s {
        last_err = some e;
        real_err = some e;
        attempts = a ∷ s.attempts;
      } in
      let dead : State W = record s' {
        dead_models = add_dead model s.dead_models;
        world = world.mark_dead model dead_model_cooldown_seconds s.world;
      } in
      elim (Bool-cases (status_is 401 e || status_is 403 e)) [
        | inl bad ↦ rw bad (
          asks,
          λ m.
              other_status m model e.status s.dead_models s.attempts (bad_key-not_404 e bad)
                (v.1 m),
        )
        | inr good ↦ rw good (elim (Bool-cases (status_is 404 e)) [
          | inl gone ↦ rw gone (
              either-Remembers (length dead.dead_models == length models) (leave (rethrown e), dead)
                (next, dead)
                (asks, λ m. gone_status m model e.status s.dead_models s.attempts (v.1 m))
                (asks, λ m. gone_status m model e.status s.dead_models s.attempts (v.1 m)))
          | inr there ↦
              let kept = λ (m : String).
                other_status m model e.status s.dead_models s.attempts (not_404 e there) (v.1 m) in
              rw there (
                either-Remembers
                  (not (status_is 429 e) && (not (is_overloaded e) && not (is_network_transient e)))
                  (leave (rethrown e), s') (cool_down world e model key_index is_last s')
                  (asks, kept) (cool_down-Remembers e model key_index is_last s' (asks, kept)))
        ])
      ]

  on_reply-Remembers :
      (first : Bool) (model : String) (key_index : ℕ) (is_last : Bool) (r : Reply D) (s : State W)
      → Remembers s
      → contains model s.dead_models ≡ false
      → Remembers (on_reply world models first model key_index is_last r s).1
  unfolding on_reply
  on_reply-Remembers first model key_index is_last (answered d) s v alive =
      let a : Attempt = record {
        model = model;
        key_index = key_index;
        outcome = noted_ok;
        status = none;
        daily = false;
      } in
      (remember s a v alive, v.1)
  on_reply-Remembers first model key_index is_last (failed e) s v alive =
      on_error-Remembers e model key_index is_last s v alive

  charged-Remembers :
      (first : Bool) (model : String) (key_index : ℕ) (is_last : Bool)
      (o : Outcome (Unit {0}) × Option Budget) (s : State W)
      → Remembers s
      → contains model s.dead_models ≡ false
      → Remembers (charged world models first model key_index is_last o s).1
  charged-Remembers first model key_index is_last (refused why used, b) s v alive = v
  charged-Remembers first model key_index is_last (ok _, b) s v alive =
      on_reply-Remembers first model key_index is_last
        (call_once model key_index (world.fetch model key_index s.world).0) _ v alive

  unless_cooling-Remembers :
      (first : Bool) (model : String) (key_index : ℕ) (is_last : Bool) (c : Option Cooling × W)
      (s : State W)
      → Remembers s
      → contains model s.dead_models ≡ false
      → Remembers (unless_cooling world models first model key_index is_last c s).1
  unfolding skip
  unless_cooling-Remembers first model key_index is_last (some cooling, w) s v alive =
      ((λ c. cc c, v.0), v.1)
  unless_cooling-Remembers first model key_index is_last (none, w) s v alive =
      charged-Remembers first model key_index is_last (charge_budget s.budget)
        (record s { world = w }) v alive

  try_model-Remembers :
      (first : Bool) (model : String) (key_index : ℕ) (is_last : Bool) (s : State W)
      → Remembers s
      → Remembers (try_model world models first model key_index is_last s).1
  unfolding try_model
  try_model-Remembers first model key_index is_last s v =
      elim (Bool-cases (contains model s.dead_models)) [
        | inl dead ↦ rw dead v
        | inr alive ↦
            let t = world.elapsed s.world in
            rw alive (
              either-Remembers (leb max_cascade_ms t.0) _ _ ((λ c. cc c, v.0), v.1)
                (either-Remembers
                  (has_budget s.budget && leb max_attempts_under_budget s.budgeted_attempts) _ _
                  ((λ c. cc c, v.0), v.1)
                  (unless_cooling-Remembers first model key_index is_last
                    (world.get_cooldown model key_index t.1) (record s { world = t.1 }) v alive)))
      ]

  keep_flow : (r : Flow D × State W) → Remembers r.1 → Keeps Remembers (λ _. Remembers) r
  keep_flow (next, s) h = h
  keep_flow (skip_key, s) h = h
  keep_flow (leave end, s) h = h

-- In one cascade no request goes to a model that has answered 404 before in it, on whatever key, and
-- whatever the vendor and the cooldown store answer.
pub generate_content-AsksNoRetired :
    {W D : Type 0} (world : World W D) (key_count : ℕ) (primary : String) (fallbacks : List String)
    (budget : Option Budget) (next_start : ℕ) (w : W)
    → AsksNoRetired
        (generate_content world key_count primary fallbacks budget next_start w).1.0.attempts
unfolding generate_content
generate_content-AsksNoRetired world key_count primary fallbacks budget next_start w =
    let models = primary ∷ without primary fallbacks in
    let r = marked_dead world models [] w in
    let v =
      try_keys-Keeps world models Remembers (λ _. Remembers)
        (λ first m k l t h.
          keep_flow world models (try_model world models first m k l t)
            (try_model-Remembers world models first m k l t h))
        (λ t h. h) (key_order (next_start % key_count) key_count key_count)
        (start_state models budget r.0 r.1) (tt, λ m h. cc h) in
    elim (Bool-cases (key_count == 0)) [ inl e ↦ rw e tt | inr e ↦ rw e v.0 ]
