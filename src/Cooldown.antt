-- ===== src/Cooldown.antt =====
-- src/shared/cooldown.js: cooldowns of a (model, key) pair and of a vendor in Cloudflare KV. The
-- namespace is a parameter: `get` answers `none` where the call throws, and `some none` for a key
-- that is not there; `put` answers whether the write went through.
pub mod RateLimit
pub mod Laws
mod Tests
use news_market_ai.Common.{
  ℕ, ◌+◌, ◌-◌, ◌*◌, ◌/◌, max, Bool, true, false, Option, none, some, ◌++◌, ◌∷◌, [], Text, codes,
  decimal, strip_prefix, to_number, if◌then◌else◌, String,
}

pub record Kv (S : Type 0) : Type 0 where
  pub get : Text → S → Option (Option Text) × S
  pub put : Text → Text → ℕ → S → Bool × S

abbrev pub default_cooldown_seconds : ℕ
default_cooldown_seconds = 60

abbrev pub kv_min_ttl_seconds : ℕ
kv_min_ttl_seconds = 60

unfoldable pub cooldown_key : String → ℕ → Text
cooldown_key model key_index =
    codes "gemini:cooldown:" ++ (codes model ++ (b':' ∷ decimal key_index))

unfoldable pub vendor_cooldown_key : String → String → Text
vendor_cooldown_key vendor key = codes vendor ++ (codes ":cooldown:" ++ codes key)

abbrev pub daily_prefix : Text
daily_prefix = codes "daily:"

abbrev pub minute_prefix : Text
minute_prefix = codes "min:"

-- `{ daily, remainingSeconds }`
pub record Cooling : Type 0 where
  pub daily : Bool
  pub remaining_seconds : Option ℕ

-- `Math.max(60, Math.ceil((expiresAt - now) / 1000))`: an expiry in the past gives 60.
unfoldable pub remaining_until : ℕ → ℕ → ℕ
remaining_until expires_at now = max kv_min_ttl_seconds ((expires_at - now + 999) / 1000)

-- `Number.isFinite(expiresAt) ? … : null`
abbrev remaining_of : ℕ → Option ℕ → Option ℕ
remaining_of now none = none
remaining_of now (some expires_at) = some (remaining_until expires_at now)

abbrev plain_or_minute : ℕ → Option Text → Cooling
plain_or_minute now none = record { daily = false; remaining_seconds = none }
plain_or_minute now (some rest) = record {
  daily = false;
  remaining_seconds = remaining_of now (to_number rest);
}

abbrev by_prefix : ℕ → Text → Option Text → Cooling
by_prefix now text none = plain_or_minute now (strip_prefix minute_prefix text)
by_prefix now text (some rest) = record {
  daily = true;
  remaining_seconds = remaining_of now (to_number rest);
}

-- What a stored value says.
unfoldable pub read_cooling : ℕ → Text → Cooling
read_cooling now text = by_prefix now text (strip_prefix daily_prefix text)

abbrev pub reading : ℕ → Option (Option Text) → Option Cooling
reading now none = none
reading now (some none) = none
reading now (some (some text)) = some (read_cooling now text)

-- `Math.max(60, Math.floor(seconds ?? 60))`
unfoldable pub ttl_of : Option ℕ → ℕ
ttl_of none = max kv_min_ttl_seconds default_cooldown_seconds
ttl_of (some seconds) = max kv_min_ttl_seconds seconds

-- `daily ? "daily:<expiry>" : "1"`
unfoldable pub stored_value : ℕ → Bool → ℕ → Text
stored_value ttl daily now = if daily then daily_prefix ++ decimal (now + ttl * 1000) else b'1' ∷ []

abbrev is_some_cooling : Option Cooling → Bool
is_some_cooling none = false
is_some_cooling (some _) = true

abbrev is_present : Option (Option Text) → Bool
is_present none = false
is_present (some none) = false
is_present (some (some _)) = true

module _ {S : Type 0} where
  unfoldable pub get_cooldown : Option (Kv S) → String → ℕ → ℕ → S → Option Cooling × S
  get_cooldown none model key_index now s = (none, s)
  get_cooldown (some kv) model key_index now s =
      let (r, s') = kv.get (cooldown_key model key_index) s in (reading now r, s')

  unfoldable pub is_cooling_down : Option (Kv S) → String → ℕ → ℕ → S → Bool × S
  unfolding get_cooldown
  is_cooling_down kv model key_index now s =
      let (r, s') = get_cooldown kv model key_index now s in (is_some_cooling r, s')

  -- A failed write is swallowed.
  unfoldable pub set_cooldown : Option (Kv S) → String → ℕ → Option ℕ → Bool → ℕ → S → S
  set_cooldown none model key_index seconds daily now s = s
  set_cooldown (some kv) model key_index seconds daily now s =
      let ttl = ttl_of seconds in
      (kv.put (cooldown_key model key_index) (stored_value ttl daily now) ttl s).1

  unfoldable pub is_vendor_cooling_down : Option (Kv S) → String → String → S → Bool × S
  is_vendor_cooling_down none vendor key s = (false, s)
  is_vendor_cooling_down (some kv) vendor key s =
      let (r, s') = kv.get (vendor_cooldown_key vendor key) s in (is_present r, s')

  unfoldable pub set_vendor_cooldown : Option (Kv S) → String → String → Option ℕ → S → S
  set_vendor_cooldown none vendor key seconds s = s
  set_vendor_cooldown (some kv) vendor key seconds s =
      (kv.put (vendor_cooldown_key vendor key) (b'1' ∷ []) (ttl_of seconds) s).1
