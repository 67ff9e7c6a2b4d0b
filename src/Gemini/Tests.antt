-- ===== src/Gemini/Tests.antt =====
-- The cascade at a small vendor: the model "pro" is retired, "flash" is out of quota on every key but
-- key 1, where it answers.
use news_market_ai.Common.{
  ℕ, ◌+◌, ◌≤◌, ◌≡◌, refl, String, true, false, List, [], ◌∷◌, none, some, arith, ◌==◌, keyed_nat,
  keyed_string, if◌then◌else◌, codes, get_elem?,
}
use news_market_ai.Budget.{Budget}
use news_market_ai.Gemini.World.{World, Fetched, replied, call_once, done}
use news_market_ai.Gemini.Cascade.{generate_content, key_order}
use news_market_ai.Gemini.Budgeted.{calls, external_of, generate_content_charges}
use news_market_ai.Gemini.Retired.{AsksNoRetired, generate_content-AsksNoRetired}
use news_market_ai.Gemini.Healthy.{IsReachable, IsDone}
use news_market_ai.Gemini.Reaches.{generate_content_reaches}
use news_market_ai.Gemini.Rotation.{step_of, key_order_visits_once}

abbrev script : String → ℕ → Fetched ℕ
script model key_index =
    if model == "flash"
    then (if key_index == 1 then replied 200 [] none 7 else replied 429 (codes "limit: 5") none 0)
    else replied 404 (codes "retired") none 0

-- The state counts the requests.
abbrev vendor : World ℕ ℕ
vendor = record {
  elapsed = λ w. (5, w);
  get_cooldown = λ m k w. (none, w);
  is_marked_dead = λ m w. (false, w);
  fetch = λ m k w. (script m k, w + 1);
  set_cooldown = λ m k seconds daily w. w;
  mark_dead = λ m seconds w. w;
  daily_quota_seconds = λ w. 300;
}

abbrev budget : Budget
budget = record {
  external_limit = 40;
  total_limit = 40;
  external = 2;
  total = 5;
  kv = 0;
  d1 = 3;
  rows_written = 0;
  rows_read = 0;
  kv_reads = 0;
  kv_writes = 0;
  gemini_counts = [];
  halted = false;
  suspend_depth = 0;
  units_completed = 0;
  unit_counts = [];
  estimates = [];
  observed = [];
}

flash_on_key_one :
    (generate_content vendor 3 "pro" ("flash" ∷ []) none 2 0).0 ≡ done 7 "flash" 1 true
unfolding generate_content call_once
flash_on_key_one = refl

flash-IsReachable : IsReachable vendor "flash" 1
unfolding call_once
flash-IsReachable = record {
  quick = λ w. omega arith;
  warm = λ w. refl;
  unmarked = λ w. refl;
  answers = λ w e h. cc h;
  falls_through = λ n j w e h. ground arith;
  not_retired = λ j w e h. ground arith;
}

generate_content_charges_example :
    let s = (generate_content vendor 3 "pro" ("flash" ∷ []) (some budget) 2 0).1.0 in
    (calls s.attempts ≤ 3) × (external_of s.budget ≡ 2 + calls s.attempts)
generate_content_charges_example = generate_content_charges vendor 3 "pro" ("flash" ∷ []) budget 2 0

generate_content-AsksNoRetired_example :
    AsksNoRetired (generate_content vendor 3 "pro" ("flash" ∷ []) none 2 0).1.0.attempts
generate_content-AsksNoRetired_example =
    generate_content-AsksNoRetired vendor 3 "pro" ("flash" ∷ []) none 2 0

generate_content_reaches_example :
    IsDone (generate_content vendor 3 "pro" ("flash" ∷ []) none 2 0).0
unfolding generate_content
generate_content_reaches_example =
    generate_content_reaches vendor 3 "pro" ("flash" ∷ []) 2 0 "flash" 1 refl (omega arith)
      flash-IsReachable

key_order_visits_once_example :
    (get_elem? (key_order 2 3 3) (step_of 2 3 1) ≡ some 1)
    × ((j : ℕ) → get_elem? (key_order 2 3 3) j ≡ some 1 → j ≡ step_of 2 3 1)
key_order_visits_once_example = key_order_visits_once 2 3 1 (omega arith) (omega arith)

abbrev waits : List ℕ
waits = 90 ∷ 75 ∷ []
