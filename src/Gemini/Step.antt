-- ===== src/Gemini/Step.antt =====
-- src/llm/gemini/client.js: the locals of `geminiGenerateContent`, what it throws, and the body of its
-- inner loop.
use news_market_ai.Common.{
  ℕ, ◌+◌, max, min, String, Bool, true, false, not, ◌&&◌, ◌||◌, Option, none, some, List, [], ◌∷◌,
  leb, ltb, if◌then◌else◌, ◌==◌, keyed_nat, keyed_string, contains, length,
}
use news_market_ai.Budget.{Budget, Outcome, ok, refused, charge_external, charge_gemini}
use news_market_ai.Cooldown.{Cooling, default_cooldown_seconds}
use news_market_ai.Cooldown.RateLimit.{Kind, minute, classify_rate_limit, parse_retry_delay_seconds}
use news_market_ai.Gemini.World.{
  max_cascade_ms, max_attempts_under_budget, dead_model_cooldown_seconds, VendorError, Reply,
  answered, failed, in_range, call_once, World, Noted, noted_ok, noted_skipped, noted_error,
  noted_budget_exceeded, noted_budget_capped, Attempt, End, done, paused, rethrown, over_time,
  capped, exhausted,
}

-- The locals of the call. `attempts` and `cooldown_seconds` are pushed to: newest first.
pub record State (W : Type 0) : Type 0 where
  pub world : W
  pub budget : Option Budget
  pub attempts : List Attempt
  pub cooldown_seconds : List ℕ
  pub last_err : Option VendorError
  pub real_err : Option VendorError
  pub budgeted_attempts : ℕ
  pub dead_models : List String

-- How the body of the inner loop leaves: to the next model, out of the loop over models, or out of
-- the function.
pub data Flow (D : Type 0) : Type 0 where
  next skip_key : Flow D
  leave : End D → Flow D

abbrev pub minimum : ℕ → List ℕ → ℕ
minimum n [] = n
minimum n (m ∷ ms) = minimum (min n m) ms

-- `retryAfterFor`
unfoldable pub retry_after_for : List ℕ → ℕ
retry_after_for [] = default_cooldown_seconds
retry_after_for (s ∷ ss) = max default_cooldown_seconds (minimum s ss)

abbrev pub is_daily : Attempt → Bool
is_daily a = a.daily

abbrev pub every {ℓ} : {A : Type ℓ} → (A → Bool) → List A → Bool
every p [] = true
every p (x ∷ xs) = p x && every p xs

abbrev pub is_empty {ℓ} : {A : Type ℓ} → List A → Bool
is_empty [] = true
is_empty (x ∷ xs) = false

-- `realErr ?? lastErr`
abbrev pub cause_of : Option VendorError → Option VendorError → Option VendorError
cause_of (some e) last = some e
cause_of none last = last

abbrev pub exhausted_by : {D : Type 0} → Option VendorError → List Attempt → List ℕ → End D
exhausted_by none attempts seconds = exhausted none false none false
exhausted_by (some cause) attempts seconds =
    exhausted cause.status cause.transient
      (if cause.transient then some (retry_after_for seconds) else none)
      (cause.transient && (not (is_empty attempts) && every is_daily attempts))

-- `cascadeExhaustedError`
unfoldable pub cascade_exhausted : {W D : Type 0} → State W → End D
unfolding retry_after_for
cascade_exhausted s = exhausted_by (cause_of s.real_err s.last_err) s.attempts s.cooldown_seconds

abbrev pub status_is : ℕ → VendorError → Bool
status_is n e = elim e.status [ none ↦ false | some status ↦ status == n ]

abbrev pub is_overloaded : VendorError → Bool
is_overloaded e = elim e.status [ none ↦ false | some status ↦ in_range 500 600 status ]

abbrev pub is_network_transient : VendorError → Bool
is_network_transient e = elim e.status [ none ↦ e.transient | some status ↦ false ]

-- `deadModels.add(model)`
abbrev pub add_dead : String → List String → List String
add_dead model dead = if contains model dead then dead else model ∷ dead

-- The model is a fallback where it is not the first, or the key not key 0.
abbrev pub is_fallback : Bool → ℕ → Bool
is_fallback first key_index = not first || ltb 0 key_index

-- Where the error of a call leads, after it was recorded.
unfoldable pub rate_limit_kind : VendorError → Kind
rate_limit_kind e = classify_rate_limit e.message e.quota_id

abbrev pub is_daily_kind : Kind → Bool
is_daily_kind Kind.daily = true
is_daily_kind minute = false

abbrev pub or_seconds : Option ℕ → ℕ → ℕ
or_seconds none d = d
or_seconds (some n) d = n

-- Tags the newest attempt as daily.
abbrev pub tag_daily : List Attempt → List Attempt
tag_daily [] = []
tag_daily (a ∷ older) = record a { daily = true } ∷ older

-- `cooling.remainingSeconds ? … : 60`
abbrev pub known_or_default : Option ℕ → ℕ
known_or_default none = default_cooldown_seconds
known_or_default (some n) = if n == 0 then default_cooldown_seconds else n

-- `config.subrequestBudget?.chargeExternal()`
abbrev pub charge_budget : Option Budget → Outcome (Unit {0}) × Option Budget
charge_budget none = (ok tt, none)
charge_budget (some b) = let (r, b') = charge_external b in (r, some b')

abbrev pub charge_success : String → ℕ → Option Budget → Option Budget
charge_success model key_index none = none
charge_success model key_index (some b) = some (charge_gemini model key_index b)

abbrev pub has_budget : Option Budget → Bool
has_budget none = false
has_budget (some _) = true

abbrev pub note_stop : {W : Type 0} → String → ℕ → Noted → State W → State W
note_stop model key_index outcome s = record s {
  attempts =
      record {
        model = model;
        key_index = key_index;
        outcome = outcome;
        status = none;
        daily = false;
      }
      ∷ s.attempts;
}

-- A recorded cooldown: the combination is skipped, at no call and no charge.
unfoldable pub skip : {W : Type 0} → Cooling → String → ℕ → State W → State W
skip cooling model key_index s = record s {
  last_err = some (record { status = some 429; transient = true; message = []; quota_id = none });
  attempts =
      record {
        model = model;
        key_index = key_index;
        outcome = noted_skipped;
        status = none;
        daily = cooling.daily;
      }
      ∷ s.attempts;
  cooldown_seconds = known_or_default cooling.remaining_seconds ∷ s.cooldown_seconds;
}

module _ {W D : Type 0} (world : World W D) where
  -- The cooldown that a failed call leaves, and whether the cascade ends here.
  unfoldable pub cool_down : VendorError → String → ℕ → Bool → State W → Flow D × State W
  unfolding rate_limit_kind cascade_exhausted
  cool_down e model key_index is_last s =
      let is_rate_limited = status_is 429 e in
      let is_daily_quota = is_rate_limited && is_daily_kind (rate_limit_kind e) in
      let seconds : ℕ =
        if is_daily_quota
        then world.daily_quota_seconds s.world
        else if is_rate_limited
        then or_seconds (parse_retry_delay_seconds e.message) default_cooldown_seconds
        else default_cooldown_seconds in
      let writes_cooldown = not (is_overloaded e && not (status_is 503 e)) in
      let s' : State W = record s {
        attempts = if is_daily_quota then tag_daily s.attempts else s.attempts;
        cooldown_seconds = seconds ∷ s.cooldown_seconds;
        world =
            if writes_cooldown
            then world.set_cooldown model key_index seconds is_daily_quota s.world
            else s.world;
      } in
      if is_last then (leave (cascade_exhausted s'), s') else (next, s')

  -- The `catch` block.
  unfoldable pub on_error :
      List String → VendorError → String → ℕ → Bool → State W → Flow D × State W
  unfolding cool_down
  on_error models e model key_index is_last s =
      let s' : State W = record s {
        last_err = some e;
        real_err = some e;
        attempts =
            record {
              model = model;
              key_index = key_index;
              outcome = noted_error;
              status = e.status;
              daily = false;
            }
            ∷ s.attempts;
      } in
      let dead : State W = record s' {
        dead_models = add_dead model s.dead_models;
        world = world.mark_dead model dead_model_cooldown_seconds s.world;
      } in
      if status_is 401 e || status_is 403 e
      then (skip_key, s')
      else if status_is 404 e
      then (if length dead.dead_models == length models
          then (leave (rethrown e), dead)
          else (next, dead))
      else if not (status_is 429 e) && (not (is_overloaded e) && not (is_network_transient e))
      then (leave (rethrown e), s')
      else cool_down e model key_index is_last s'

  -- The reply of a call that was charged for.
  unfoldable pub on_reply :
      List String → Bool → String → ℕ → Bool → Reply D → State W → Flow D × State W
  unfolding on_error
  on_reply models first model key_index is_last (answered d) s =
      let s' : State W = record s {
        attempts =
            record {
              model = model;
              key_index = key_index;
              outcome = noted_ok;
              status = none;
              daily = false;
            }
            ∷ s.attempts;
        budget = charge_success model key_index s.budget;
      } in
      (leave (done d model key_index (is_fallback first key_index)), s')
  on_reply models first model key_index is_last (failed e) s =
      on_error models e model key_index is_last s

  abbrev pub send : List String → Bool → String → ℕ → Bool → State W → Flow D × State W
  send models first model key_index is_last s =
      let (r, w) = world.fetch model key_index s.world in
      on_reply models first model key_index is_last (call_once model key_index r)
        (record s { world = w })

  abbrev pub charged :
      List String
      → Bool
      → String
      → ℕ
      → Bool
      → Outcome (Unit {0}) × Option Budget
      → State W
      → Flow D × State W
  charged models first model key_index is_last (refused why used, b) s =
      (leave (paused why used), record s { budget = b })
  charged models first model key_index is_last (ok _, b) s =
      send models first model key_index is_last (record s {
        budget = b;
        budgeted_attempts = if has_budget b then s.budgeted_attempts + 1 else s.budgeted_attempts;
      })

  abbrev pub unless_cooling :
      List String → Bool → String → ℕ → Bool → Option Cooling × W → State W → Flow D × State W
  unless_cooling models first model key_index is_last (some cooling, w) s =
      (next, skip cooling model key_index (record s { world = w }))
  unless_cooling models first model key_index is_last (none, w) s =
      charged models first model key_index is_last (charge_budget s.budget) (record s { world = w })

  -- The body of the inner loop.
  unfoldable pub try_model : List String → Bool → String → ℕ → Bool → State W → Flow D × State W
  unfolding skip on_reply
  try_model models first model key_index is_last s =
      if contains model s.dead_models
      then (next, s)
      else (let (elapsed, w) = world.elapsed s.world in
          let t : State W = record s { world = w } in
          if leb max_cascade_ms elapsed
          then (
            leave (over_time (retry_after_for s.cooldown_seconds)),
            note_stop model key_index noted_budget_exceeded t,
          )
          else if has_budget s.budget && leb max_attempts_under_budget s.budgeted_attempts
          then (
            leave (capped (retry_after_for s.cooldown_seconds)),
            note_stop model key_index noted_budget_capped t,
          )
          else unless_cooling models first model key_index is_last
              (world.get_cooldown model key_index w) t)
