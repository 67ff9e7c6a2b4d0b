-- ===== src/Gemini/World.antt =====
-- src/llm/gemini/client.js: what the cascade meets. What lies outside the file is the record `World`: the
-- clock, the cooldown store, the vendor's replies. Each of its operations takes the state of the
-- world to an answer and a new state, and nothing is assumed of it.
use news_market_ai.Common.{
  ℕ, ◌*◌, String, Bool, true, ◌&&◌, ◌||◌, Option, none, some, [], ◌++◌, leb, ltb, if◌then◌else◌,
  ◌==◌, keyed_nat, keyed_string, Text, codes, decimal,
}
use news_market_ai.Budget.{Cost, Reason}
use news_market_ai.Cooldown.{Cooling}

abbrev pub max_cascade_ms : ℕ
max_cascade_ms = 90000

abbrev pub max_attempts_under_budget : ℕ
max_attempts_under_budget = 3

abbrev pub dead_model_cooldown_seconds : ℕ
dead_model_cooldown_seconds = 6 * 60 * 60

-- What `fetch` and the reading of its reply come to in `callOnce`.
pub data Fetched (D : Type 0) : Type 0 where
  -- An abort or a network error.
  unreachable : Fetched D
  -- A status, the message of the error, and the quota id that its details name.
  replied : ℕ → Text → Option Text → D → Fetched D

-- `VendorError`, by what the cascade reads of it.
pub record VendorError : Type 0 where
  pub status : Option ℕ
  pub transient : Bool
  pub message : Text
  pub quota_id : Option Text

pub data Reply (D : Type 0) : Type 0 where
  answered : D → Reply D
  failed : VendorError → Reply D

abbrev pub in_range : ℕ → ℕ → ℕ → Bool
in_range lo hi n = leb lo n && ltb n hi

-- The text that `callOnce` puts before the vendor's message.
abbrev pub api_error : ℕ → String → ℕ → Text → Text
api_error status model key_index message =
    codes "Gemini API error ("
    ++ (decimal status
        ++ (codes ", model: "
            ++ (codes model
                ++ (codes ", key #" ++ (decimal key_index ++ (codes "): " ++ message))))))

-- `callOnce`: `res.ok` is a status from 200 to 299. The message of an unreachable vendor is only
-- logged, and left out.
unfoldable pub call_once : {D : Type 0} → String → ℕ → Fetched D → Reply D
call_once model key_index unreachable =
    failed (record { status = none; transient = true; message = []; quota_id = none })
call_once model key_index (replied status message quota_id body) =
    if in_range 200 300 status
    then answered body
    else failed (record {
      status = some status;
      transient = status == 429 || in_range 500 600 status;
      message = api_error status model key_index message;
      quota_id = quota_id;
    })

pub record World (W D : Type 0) : Type 0 where
  -- `Date.now() - cascadeStart`
  pub elapsed : W → ℕ × W
  -- `getCooldown(kv, model, keyIndex)`
  pub get_cooldown : String → ℕ → W → Option Cooling × W
  -- `getCooldown(kv, deadModelName(model), 0)`, whether there is one
  pub is_marked_dead : String → W → Bool × W
  pub fetch : String → ℕ → W → Fetched D × W
  -- `setCooldown(kv, model, keyIndex, seconds, { daily })`
  pub set_cooldown : String → ℕ → ℕ → Bool → W → W
  -- `setCooldown(kv, deadModelName(model), 0, seconds)`
  pub mark_dead : String → ℕ → W → W
  -- `dailyQuotaCooldownSeconds()`
  pub daily_quota_seconds : W → ℕ

-- The outcome that an attempt is noted with.
pub data Noted : Type 0 where
  noted_ok noted_skipped noted_error noted_budget_exceeded noted_budget_capped : Noted

pub record Attempt : Type 0 where
  pub model : String
  pub key_index : ℕ
  pub outcome : Noted
  pub status : Option ℕ
  pub daily : Bool

-- What the cascade ends with.
pub data End (D : Type 0) : Type 0 where
  -- the data, the model and the key that gave it, and whether they are marked as a fallback
  done : D → String → ℕ → Bool → End D
  no_key : End D
  -- `SubrequestBudgetExhaustedError`, which is not caught
  paused : Reason → Cost → End D
  -- the error of the call itself
  rethrown : VendorError → End D
  -- `retryAfterSeconds` of the two stops before a call
  over_time : ℕ → End D
  capped : ℕ → End D
  -- `cascadeExhaustedError`: status, transient, retryAfterSeconds, dailyQuota
  exhausted : Option ℕ → Bool → Option ℕ → Bool → End D
