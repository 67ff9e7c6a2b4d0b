-- ===== src/Gemini/Keys.antt =====
-- src/llm/gemini/client.js: the loops over keys and models come to the combination that works.
use mathlib.Core.Path.{subst, sym}
use text.Mathlib.Text.{◌==◌ as str_eq}
use news_market_ai.Common.{
  ℕ, ◌≡◌, refl, String, Bool, true, false, ◌&&◌, inl, inr, List, [], ◌∷◌, arith, keyed_nat,
  keyed_string, Bool-cases, nat_beq, nat_beq_iff, contains, All,
}
use news_market_ai.Gemini.World.{World, End}
use news_market_ai.Gemini.Step.{State, Flow, next, skip_key, leave, is_empty, try_model}
use news_market_ai.Gemini.Cascade.{try_models, try_keys}
use news_market_ai.Gemini.Healthy.{
  IsReachable, IsDone, not_last, not_empty, Live, Progress, Leaves, try_model-Live, try_model_done,
}

module _ {W D : Type 0} (world : World W D) (models : List String) (m : String) (k : ℕ)
    (offered : contains m models ≡ true) (reachable : IsReachable world m k) where
  -- What the loops leave: an answer, or locals from which the cascade goes on.
  abbrev Continues : Flow D × State W → Type 0
  Continues (next, t) = Live world models m k offered reachable t
  Continues (skip_key, t) = Live world models m k offered reachable t
  Continues (leave end, t) = IsDone end

  -- A key other than the healthy one, which is not the last.
  other_after :
      (ms : List String) (j : ℕ) (n : String) (r : Flow D × State W)
      → ((s : State W)
          → Live world models m k offered reachable s
          → Continues (try_models world models false j false ms s))
      → Progress world models m k offered reachable n j r
      → Continues (elim r.0 [
        | next ↦ try_models world models false j false ms r.1
        | skip_key ↦ (skip_key, r.1)
        | leave end ↦ (leave end, r.1)
      ])
  other_after ms j n (next, t) ih h = ih t h.0
  other_after ms j n (skip_key, t) ih h = h.0
  other_after ms j n (leave end, t) ih h = h

  other_key :
      (ms : List String) (first : Bool) (j : ℕ) (s : State W)
      → All (λ n. contains n models ≡ true) ms
      → Live world models m k offered reachable s
      → Continues (try_models world models first j false ms s)
  unfolding try_models
  other_key [] first j s known v = v
  other_key (n ∷ ms) first j s known v =
      other_after ms j n (try_model world models first n j false s)
        (λ t. other_key ms false j t known.1)
        (try_model-Live world models m k offered reachable first n j s v known.0)

  healthy_after :
      (ms : List String) (is_last_key : Bool) (r : Flow D × State W) (n : String)
      → ((s : State W)
          → Live world models m k offered reachable s
          → Leaves world models m k offered reachable
              (try_models world models false k is_last_key ms s))
      → Progress world models m k offered reachable n k r
      → Leaves world models m k offered reachable (elim r.0 [
        | next ↦ try_models world models false k is_last_key ms r.1
        | skip_key ↦ (skip_key, r.1)
        | leave end ↦ (leave end, r.1)
      ])
  healthy_after ms is_last_key (next, t) n ih h = ih t h.0
  healthy_after ms is_last_key (skip_key, t) n ih h = absurd (h.1 refl)
  healthy_after ms is_last_key (leave end, t) n ih h = h

  healthy_now :
      (ms : List String) (is_last_key : Bool) (r : Flow D × State W)
      → Leaves world models m k offered reachable r
      → Leaves world models m k offered reachable (elim r.0 [
        | next ↦ try_models world models false k is_last_key ms r.1
        | skip_key ↦ (skip_key, r.1)
        | leave end ↦ (leave end, r.1)
      ])
  healthy_now ms is_last_key (next, t) h = absurd h
  healthy_now ms is_last_key (skip_key, t) h = absurd h
  healthy_now ms is_last_key (leave end, t) h = h

  -- On the healthy key the healthy model is reached.
  healthy_key :
      (ms : List String) (first : Bool) (is_last_key : Bool) (s : State W)
      → All (λ n. contains n models ≡ true) ms
      → contains m ms ≡ true
      → Live world models m k offered reachable s
      → Leaves world models m k offered reachable (try_models world models first k is_last_key ms s)
  unfolding try_models
  healthy_key [] first is_last_key s known h v = cc h
  healthy_key (n ∷ ms) first is_last_key s known h v = elim (Bool-cases (str_eq n m)) [
    | inl e ↦ rw ((keyed_string.same_iff n m).0 e) (
        healthy_now ms is_last_key (try_model world models first m k (is_last_key && is_empty ms) s)
          (try_model_done world models m k offered reachable first (is_last_key && is_empty ms) s
            v))
    | inr e ↦
        healthy_after ms is_last_key
          (try_model world models first n k (is_last_key && is_empty ms) s) n
          (λ t. healthy_key ms false is_last_key t known.1 (ground arith))
          (subst
            (λ l.
              Progress world models m k offered reachable n k
                (try_model world models first n k l s))
            (sym (not_last is_last_key m ms (ground arith)))
            (try_model-Live world models m k offered reachable first n k s v known.0))
  ]

  keys_now :
      (ks : List ℕ) (r : Flow D × State W)
      → Leaves world models m k offered reachable r
      → let t : End D × State W = elim r.0 [
        | next ↦ try_keys world models ks r.1
        | skip_key ↦ try_keys world models ks r.1
        | leave end ↦ (end, r.1)
      ] in
        IsDone t.0
  keys_now ks (next, t) h = absurd h
  keys_now ks (skip_key, t) h = absurd h
  keys_now ks (leave end, t) h = h

  keys_later :
      (ks : List ℕ) (r : Flow D × State W)
      → ((s : State W)
          → Live world models m k offered reachable s
          → IsDone (try_keys world models ks s).0)
      → Continues r
      → let t : End D × State W = elim r.0 [
        | next ↦ try_keys world models ks r.1
        | skip_key ↦ try_keys world models ks r.1
        | leave end ↦ (end, r.1)
      ] in
        IsDone t.0
  keys_later ks (next, t) ih h = ih t h
  keys_later ks (skip_key, t) ih h = ih t h
  keys_later ks (leave end, t) ih h = h

  -- Among the keys that are left the healthy one is reached.
  pub keys-IsDone :
      (ks : List ℕ) (s : State W)
      → All (λ n. contains n models ≡ true) models
      → contains k ks ≡ true
      → Live world models m k offered reachable s
      → IsDone (try_keys world models ks s).0
  unfolding try_keys
  keys-IsDone [] s known h v = cc h
  keys-IsDone (j ∷ ks) s known h v = elim (Bool-cases (nat_beq j k)) [
    | inl e ↦ rw ((nat_beq_iff j k).0 e) (
        keys_now ks (try_models world models true k (is_empty ks) models s)
          (healthy_key models true (is_empty ks) s known offered v))
    | inr e ↦
        keys_later ks (try_models world models true j (is_empty ks) models s)
          (λ t. keys-IsDone ks t known (ground arith))
          (subst (λ l. Continues (try_models world models true j l models s))
            (sym (not_empty k ks (ground arith))) (other_key models true j s known v))
  ]
