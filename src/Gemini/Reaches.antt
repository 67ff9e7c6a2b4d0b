-- ===== src/Gemini/Reaches.antt =====
-- src/llm/gemini/client.js: a model and key that work are reached.
use news_market_ai.Common.{
  ℕ, zero, suc, ◌%◌, ◌≤◌, ◌<◌, ◌≡◌, refl, String, Bool, true, false, List, [], ◌∷◌, arith,
  if◌then◌else◌, ◌==◌, keyed_nat, keyed_string, some, none, contains, length, All, same_refl,
  get_elem?,
}
use news_market_ai.Gemini.World.{World}
use news_market_ai.Gemini.Step.{add_dead}
use news_market_ai.Gemini.Cascade.{generate_content, marked_dead, start_state, without, key_order}
use news_market_ai.Gemini.Rotation.{step_of, key_order_visits_once}
use news_market_ai.Gemini.Dead.{count_in, count_in-cons}
use news_market_ai.Gemini.Healthy.{IsReachable, IsDone}
use news_market_ai.Gemini.Keys.{keys-IsDone}

-- The marks of earlier calls.
mark-alive :
    (m n : String) (dead models : List String) (b : Bool)
    → ((n ≡ m) → b ≡ false)
    → contains n models ≡ true
    → contains m dead ≡ false
    → length dead ≤ count_in dead models
    → let dead' = if b then add_dead n dead else dead in
      (contains m dead' ≡ false) × (length dead' ≤ count_in dead' models)
mark-alive m n dead models true kept known alive le =
    ground (arith, keyed_string.same_iff n m, count_in-cons n dead models)
mark-alive m n dead models false kept known alive le = (alive, le)

module _ {W D : Type 0} (world : World W D) (models : List String) (m : String)
    (unmarked : (w : W) → (world.is_marked_dead m w).0 ≡ false) where
  marked_dead-alive :
      (ms dead : List String) (w : W)
      → All (λ n. contains n models ≡ true) ms
      → contains m dead ≡ false
      → length dead ≤ count_in dead models
      → let dead' = (marked_dead world ms dead w).0 in
        (contains m dead' ≡ false) × (length dead' ≤ count_in dead' models)
  unfolding marked_dead
  marked_dead-alive [] dead w known alive le = (alive, le)
  marked_dead-alive (n ∷ ms) dead w known alive le =
      let r = world.is_marked_dead n w in
      let next_dead = if r.0 then add_dead n dead else dead in
      let v = mark-alive m n dead models r.0 (λ p. rw p (unmarked w)) known.0 alive le in
      marked_dead-alive ms next_dead r.1 known.1 v.0 v.1

contains_suffix :
    (ms models : List String)
    → ((n : String) → contains n ms ≡ true → contains n models ≡ true)
    → All (λ n. contains n models ≡ true) ms
contains_suffix [] models h = tt
contains_suffix (n ∷ ms) models h =
    (h n (ground (arith, same_refl n)), contains_suffix ms models (λ j e. h j (ground arith)))

no_keys : (count k : ℕ) → k < count → (count == 0) ≡ false
no_keys count k h = ground arith

start_alive :
    (m : String) (marked models : List String)
    → contains m marked ≡ false
    → contains m (if length marked == length models then [] else marked) ≡ false
start_alive m marked models h = ground arith

start_le :
    (marked models : List String)
    → length marked ≤ count_in marked models
    → let dead = if length marked == length models then [] else marked in
      length dead ≤ count_in dead models
start_le marked models h = ground arith

contains_of_get : (k i : ℕ) (ks : List ℕ) → get_elem? ks i ≡ some k → contains k ks ≡ true
contains_of_get k i [] h = cc h
contains_of_get k zero (j ∷ ks) h = ground arith
contains_of_get k (suc i) (j ∷ ks) h = ground (arith, contains_of_get k i ks h)

contains-key_order :
    (start count k : ℕ)
    → start < count
    → k < count
    → contains k (key_order start count count) ≡ true
contains-key_order start count k h l =
    contains_of_get k (step_of start count k) (key_order start count count)
      (key_order_visits_once start count k h l).0

contains_self : (ms : List String) → All (λ n. contains n ms ≡ true) ms
contains_self ms = contains_suffix ms ms (λ n h. h)

-- A cascade without a subrequest budget returns an answer whenever some offered model works on some
-- key: it is not cooling down there, answers there, is not retired anywhere, the time does not run
-- out, and no other combination fails in a way that is rethrown at once.
pub generate_content_reaches :
    {W D : Type 0} (world : World W D) (key_count : ℕ) (primary : String) (fallbacks : List String)
    (next_start : ℕ) (w : W) (m : String) (k : ℕ)
    → contains m (primary ∷ without primary fallbacks) ≡ true
    → k < key_count
    → IsReachable world m k
    → IsDone (generate_content world key_count primary fallbacks none next_start w).0
unfolding generate_content
generate_content_reaches world key_count primary fallbacks next_start w m k offered within
      reachable =
    let models = primary ∷ without primary fallbacks in
    let r = marked_dead world models [] w in
    let known = contains_self models in
    let alive =
      marked_dead-alive world models m reachable.unmarked models [] w known refl (omega arith) in
    rw (no_keys key_count k within) (
      keys-IsDone world models m k offered reachable
        (key_order (next_start % key_count) key_count key_count) (start_state models none r.0 r.1)
        known (contains-key_order (next_start % key_count) key_count k (omega arith) within)
        (refl, start_alive m r.0 models alive.0, start_le r.0 models alive.1))
