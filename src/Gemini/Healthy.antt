-- ===== src/Gemini/Healthy.antt =====
-- src/llm/gemini/client.js: a combination of model and key that works, and what the loop's body does on it and on the others.
use news_market_ai.Common.{
  ℕ, ◌≤◌, ◌<◌, ◌≡◌, ◌≢◌, refl, String, Bool, true, false, not, ◌&&◌, ◌||◌, ◌⊎◌, inl, inr, List, [],
  ◌∷◌, arith, ◌==◌, keyed_nat, keyed_string, Option, some, none, Bool-cases, leb, contains, length,
}
use news_market_ai.Budget.{Budget}
use news_market_ai.Cooldown.{Cooling}
use news_market_ai.Gemini.World.{
  World, End, done, noted_error, Reply, answered, failed, VendorError, call_once, max_cascade_ms,
}
use news_market_ai.Gemini.Step.{
  State, Flow, next, skip_key, leave, is_empty, status_is, is_overloaded, is_network_transient,
  add_dead, try_model, on_error, on_reply, cool_down, skip, has_budget, unless_cooling,
}
use news_market_ai.Gemini.Dead.{count_in, count_in-lt, count_in-cons}

-- A failure that the cascade goes on from, with the next model or the next key.
abbrev pub passes : VendorError → Bool
passes e = status_is 404 e || (status_is 429 e || (is_overloaded e || is_network_transient e))

bad_key-passes : (e : VendorError) → (status_is 401 e || status_is 403 e) ≡ true → passes e ≡ false
bad_key-passes e h = ground arith

-- The model `m` works on the key `k` and is not retired, and no other combination fails in a way
-- that ends the cascade.
pub record IsReachable {W D : Type 0} (world : World W D) (m : String) (k : ℕ) : Type 0 where
  pub quick : (w : W) → (world.elapsed w).0 < max_cascade_ms
  pub warm : (w : W) → (world.get_cooldown m k w).0 ≡ none
  pub unmarked : (w : W) → (world.is_marked_dead m w).0 ≡ false
  pub answers : (w : W) (e : VendorError) → call_once m k (world.fetch m k w).0 ≢ failed e
  pub falls_through :
      (n : String) (j : ℕ) (w : W) (e : VendorError)
      → call_once n j (world.fetch n j w).0 ≡ failed e
      → (passes e ≡ true) ⊎ (((status_is 401 e || status_is 403 e) ≡ true) × (j ≢ k))
  pub not_retired :
      (j : ℕ) (w : W) (e : VendorError)
      → call_once m j (world.fetch m j w).0 ≡ failed e
      → status_is 404 e ≡ false

abbrev pub IsDone : {D : Type 0} → End D → Type 0
IsDone (done _ _ _ _) = Unit
IsDone _ = ⊥

ne_beq : (a b : ℕ) → a ≢ b → (a == b) ≡ false
ne_beq a b h = ground arith

pub not_last :
    (is_last_key : Bool) (m : String) (ms : List String)
    → contains m ms ≡ true
    → (is_last_key && is_empty ms) ≡ false
not_last is_last_key m [] h = cc h
not_last true m (n ∷ ms) h = refl
not_last false m (n ∷ ms) h = refl

pub not_empty : (k : ℕ) (ks : List ℕ) → contains k ks ≡ true → is_empty ks ≡ false
not_empty k [] h = cc h
not_empty k (j ∷ ks) h = refl

no_budget : (b : Option Budget) → b ≡ none → has_budget b ≡ false
no_budget b h = ground arith

not_late : (elapsed : ℕ) → elapsed < max_cascade_ms → leb max_cascade_ms elapsed ≡ false
not_late elapsed h = ground arith

module _ {W D : Type 0} (world : World W D) (models : List String) (m : String) (k : ℕ)
    (offered : contains m models ≡ true) (reachable : IsReachable world m k) where
  abbrev pub Live : State W → Type 0
  Live s =
      (s.budget ≡ none)
      × (contains m s.dead_models ≡ false)
      × (length s.dead_models ≤ count_in s.dead_models models)

  -- How a combination that is not the last leaves the cascade.
  abbrev pub Progress : String → ℕ → Flow D × State W → Type 0
  Progress n j (next, t) = Live t × ((n ≡ m) → (j ≡ k) → ⊥)
  Progress n j (skip_key, t) = Live t × (j ≢ k)
  Progress n j (leave end, t) = IsDone end

  cool_down-Live :
      (e : VendorError) (n : String) (j : ℕ) (s : State W)
      → Live s
      → ((n ≡ m) → (j ≡ k) → ⊥)
      → Progress n j (cool_down world e n j false s)
  unfolding cool_down
  cool_down-Live e n j s v away = (v, away)

  add_dead-Live :
      (n : String) (dead : List String)
      → contains n models ≡ true
      → n ≢ m
      → contains m dead ≡ false
      → length dead ≤ count_in dead models
      → contains n dead ≡ false
      → (contains m (add_dead n dead) ≡ false)
        × (length (add_dead n dead) ≤ count_in (add_dead n dead) models)
        × (length (add_dead n dead) ≢ length models)
  add_dead-Live n dead known other alive le new = rw new (
      ground (
        arith,
        keyed_string.same_iff n m,
        count_in-cons n dead models new known,
        count_in-lt m (n ∷ dead) models,
      ))

  passes_on :
      (e : VendorError) (j : ℕ)
      → status_is 404 e ≡ false
      → (status_is 401 e || status_is 403 e) ≡ false
      → ((passes e ≡ true) ⊎ (((status_is 401 e || status_is 403 e) ≡ true) × (j ≢ k)))
      → (not (status_is 429 e) && (not (is_overloaded e) && not (is_network_transient e))) ≡ false
  passes_on e j there good (inl h) = ground arith
  passes_on e j there good (inr h) = cc h.0

  on_error-Live :
      (e : VendorError) (n : String) (j : ℕ) (s : State W)
      → Live s
      → contains n models ≡ true
      → contains n s.dead_models ≡ false
      → ((n ≡ m) → (j ≡ k) → ⊥)
      → ((n ≡ m) → status_is 404 e ≡ false)
      → ((passes e ≡ true) ⊎ (((status_is 401 e || status_is 403 e) ≡ true) × (j ≢ k)))
      → Progress n j (on_error world models e n j false s)
  unfolding on_error
  on_error-Live e n j s v known new away kept falls =
      elim (Bool-cases (status_is 401 e || status_is 403 e)) [
        | inl bad ↦ rw bad (v, ground (arith, bad_key-passes e bad))
        | inr good ↦ rw good (elim (Bool-cases (status_is 404 e)) [
          | inl gone ↦ rw gone (
              let d = add_dead-Live n s.dead_models known (λ p. cc (kept p)) v.1 v.2 new in
              rw (ne_beq _ _ d.2) ((v.0, d.0, d.1), away))
          | inr there ↦ rw there (
              rw (passes_on e j there good falls) (
                cool_down-Live e n j
                  (record s {
                    last_err = some e;
                    real_err = some e;
                    attempts =
                        record {
                          model = n;
                          key_index = j;
                          outcome = noted_error;
                          status = e.status;
                          daily = false;
                        }
                        ∷ s.attempts;
                  })
                  v away))
        ])
      ]

  -- The function returned an answer.
  abbrev pub Leaves : Flow D × State W → Type 0
  Leaves (leave end, t) = IsDone end
  Leaves (next, t) = ⊥
  Leaves (skip_key, t) = ⊥

  on_reply-Live :
      (first : Bool) (n : String) (j : ℕ) (r : Reply D) (s : State W)
      → Live s
      → contains n models ≡ true
      → contains n s.dead_models ≡ false
      → ((n ≡ m) → (j ≡ k) → (e : VendorError) → r ≢ failed e)
      → ((n ≡ m) → (e : VendorError) → r ≡ failed e → status_is 404 e ≡ false)
      → ((e : VendorError)
          → r ≡ failed e
          → (passes e ≡ true) ⊎ (((status_is 401 e || status_is 403 e) ≡ true) × (j ≢ k)))
      → Progress n j (on_reply world models first n j false r s)
  unfolding on_reply
  on_reply-Live first n j (answered d) s v known new works kept falls = tt
  on_reply-Live first n j (failed e) s v known new works kept falls =
      on_error-Live e n j s v known new (λ p q. works p q e refl) (λ p. kept p e refl)
        (falls e refl)

  unless_cooling-Live :
      (first : Bool) (n : String) (j : ℕ) (c : Option Cooling × W) (s : State W)
      → Live s
      → contains n models ≡ true
      → contains n s.dead_models ≡ false
      → ((n ≡ m) → (j ≡ k) → c.0 ≡ none)
      → Progress n j (unless_cooling world models first n j false c s)
  unfolding skip
  unless_cooling-Live first n j (some cooling, w) s v known new cold = (v, λ p q. cc (cold p q))
  unless_cooling-Live first n j (none, w) s v known new cold = rw v.0 (
      on_reply-Live first n j (call_once n j (world.fetch n j w).0) _ (refl, v.1, v.2) known new
        (λ p q e. rw (p, q) (reachable.answers w e)) (λ p e. rw p (reachable.not_retired j w e))
        (λ e h. reachable.falls_through n j w e h))

  -- A combination that is not the last one and not the healthy one.
  pub try_model-Live :
      (first : Bool) (n : String) (j : ℕ) (s : State W)
      → Live s
      → contains n models ≡ true
      → Progress n j (try_model world models first n j false s)
  unfolding try_model
  try_model-Live first n j s v known = elim (Bool-cases (contains n s.dead_models)) [
    | inl dead ↦ rw dead (v, λ p q. cc (rw p at dead))
    | inr new ↦
        rw
          (
            new,
            not_late (world.elapsed s.world).0 (reachable.quick s.world),
            no_budget s.budget v.0,
          )
          (unless_cooling-Live first n j (world.get_cooldown n j (world.elapsed s.world).1)
            (record s { world = (world.elapsed s.world).1 }) v known new
            (λ p q. rw (p, q) (reachable.warm (world.elapsed s.world).1)))
  ]

  on_reply_done :
      (first : Bool) (is_last : Bool) (r : Reply D) (s : State W)
      → ((e : VendorError) → r ≢ failed e)
      → Leaves (on_reply world models first m k is_last r s)
  unfolding on_reply
  on_reply_done first is_last (answered d) s h = tt
  on_reply_done first is_last (failed e) s h = absurd (h e refl)

  unless_cooling_done :
      (first is_last : Bool) (c : Option Cooling × W) (s : State W)
      → s.budget ≡ none
      → c.0 ≡ none
      → Leaves (unless_cooling world models first m k is_last c s)
  unless_cooling_done first is_last (some cooling, w) s v cold = cc cold
  unless_cooling_done first is_last (none, w) s v cold =
      rw v
        (on_reply_done first is_last (call_once m k (world.fetch m k w).0) _ (reachable.answers w))

  -- The healthy combination ends the cascade with its answer, also as the last one.
  pub try_model_done :
      (first is_last : Bool) (s : State W)
      → Live s
      → Leaves (try_model world models first m k is_last s)
  unfolding try_model
  try_model_done first is_last s v =
      let t = world.elapsed s.world in
      let c = world.get_cooldown m k t.1 in
      rw (v.1, not_late t.0 (reachable.quick s.world), no_budget s.budget v.0)
        (unless_cooling_done first is_last c (record s { world = t.1 }) v.0 (reachable.warm t.1))
