-- ===== src/CooldownMap.antt =====
-- src/shared/cooldown_map_kv.js: the wrapper that keeps every Gemini cooldown under one KV key. The JSON text
-- under that key is read as the entries that it lists, `none` where it is missing or garbled. The
-- namespace below is a parameter: an answer `none` is a call that throws.
pub mod Store
mod Cooling
mod Tests
use news_market_ai.Common.{
  ℕ, ◌+◌, ◌-◌, ◌*◌, ◌/◌, max, Bool, true, false, not, ◌&&◌, ◌||◌, Option, none, some, List, [], ◌∷◌,
  ◌++◌, Text, codes, decimal, strip_prefix, ltb, if◌then◌else◌, ◌==◌, keyed_nat, keyed_list, lookup,
  insert, erase,
}
use news_market_ai.Cooldown.{minute_prefix, kv_min_ttl_seconds}

pub record Entry : Type 0 where
  pub value : Text
  -- the expiry in milliseconds, `none` for never
  pub exp : Option ℕ

abbrev pub Entries : Type 0
Entries = List (Text × Entry)

-- The namespace under the wrapper: the map's key by itself, and any other key.
pub record Below (S : Type 0) : Type 0 where
  pub get_map : S → Option (Option Entries) × S
  pub put_map : Entries → Option ℕ → S → Bool × S
  pub get : Text → S → Option (Option Text) × S
  pub put : Text → Text → Option ℕ → S → Bool × S

-- `entries` and `loadedAt`
pub record Cache : Type 0 where
  pub entries : Option Entries
  pub loaded_at : ℕ

-- `alive`
abbrev pub alive : ℕ → Entry → Bool
alive now entry = elim entry.exp [ none ↦ true | some exp ↦ ltb now exp ]

-- The entries that are alive.
abbrev pub keep_alive : ℕ → Entries → Entries
keep_alive now [] = []
keep_alive now ((key, entry) ∷ rest) =
    let kept = keep_alive now rest in if alive now entry then (key, entry) ∷ kept else kept

-- `parse`
abbrev pub parsed : ℕ → Option Entries → Entries
parsed now none = []
parsed now (some entries) = keep_alive now entries

abbrev is_some : Option Text → Bool
is_some none = false
is_some (some _) = true

-- `isCooldownKey`
unfoldable pub is_cooldown_key : Text → Bool
is_cooldown_key key = is_some (strip_prefix (codes "gemini:cooldown:") key)

-- `entry.value === "1" && entry.exp !== null ? ... : entry.value`
abbrev pub shown_at : Text → Option ℕ → Text
shown_at value none = value
shown_at value (some exp) = if value == codes "1" then minute_prefix ++ decimal exp else value

-- What `get` answers from the entry of a key.
unfoldable pub answer : ℕ → Option Entry → Option Text
answer now none = none
answer now (some entry) = if alive now entry then some (shown_at entry.value entry.exp) else none

-- The longest expiry, and whether an entry never expires.
abbrev max_exp : Entries → ℕ
max_exp [] = 0
max_exp ((key, entry) ∷ rest) =
    let m = max_exp rest in elim entry.exp [ none ↦ m | some exp ↦ max exp m ]

abbrev is_forever : Entries → Bool
is_forever [] = false
is_forever ((key, entry) ∷ rest) = elim entry.exp [ none ↦ true | some exp ↦ is_forever rest ]

-- The TTL of the map's own key: `none` for none.
unfoldable pub map_ttl : ℕ → Entries → Option ℕ
map_ttl now entries =
    if is_forever entries
    then none
    else some (max kv_min_ttl_seconds ((max_exp entries - now + 999) / 1000))

module _ {S : Type 0} (below : Below S) (refresh_ms : Option ℕ) (exclusive_writer : Bool) where
  -- Whether the cached map may serve: `refreshMs` is `none` for Infinity.
  abbrev is_fresh : ℕ → Cache → Bool
  is_fresh now cache = elim refresh_ms [ none ↦ true | some ms ↦ ltb (now - cache.loaded_at) ms ]

  abbrev pub loaded : ℕ → Option (Option Entries) × S → Cache → Option Entries × (Cache × S)
  loaded now (none, s) cache = (none, (cache, s))
  loaded now (some raw, s) cache =
      (some (parsed now raw), ((record { entries = some (parsed now raw); loaded_at = now }), s))

  abbrev load_cached : Bool → ℕ → Option Entries → Cache → S → Option Entries × (Cache × S)
  load_cached force now none cache s = loaded now (below.get_map s) cache
  load_cached force now (some entries) cache s =
      if not force && is_fresh now cache
      then (some entries, (cache, s))
      else loaded now (below.get_map s) cache

  -- `load`, and the entries after it: `none` where the read throws.
  unfoldable pub load : Bool → ℕ → Cache → S → Option Entries × (Cache × S)
  load force now cache s = load_cached force now cache.entries cache s

  abbrev answered : Text → ℕ → Option Entries × (Cache × S) → Option (Option Text) × (Cache × S)
  answered key now (none, rest) = (none, rest)
  answered key now (some entries, rest) = (some (answer now (lookup key entries)), rest)

  -- `get` of one key
  unfoldable pub get : Text → ℕ → Cache → S → Option (Option Text) × (Cache × S)
  unfolding load is_cooldown_key answer
  get key now cache s =
      if is_cooldown_key key
      then answered key now (load false now cache s)
      else (let (r, s') = below.get key s in (r, (cache, s')))

  -- `persist`: the entries alive stay in memory whether the write goes through or not.
  unfoldable pub persist : ℕ → Entries → Cache → S → Bool × (Cache × S)
  unfolding map_ttl
  persist now entries cache s =
      let kept = keep_alive now entries in
      let (went, s') = below.put_map kept (map_ttl now kept) s in
      (went, (record cache { entries = some kept }, s'))

  abbrev exp_of : ℕ → Option ℕ → Option ℕ
  exp_of now none = none
  exp_of now (some ttl) = some (now + ttl * 1000)

  abbrev pub merged : Text → Text → Option ℕ → ℕ → Option Entries × (Cache × S) → Bool × (Cache × S)
  merged key value ttl now (none, rest) = (false, rest)
  merged key value ttl now (some entries, (cache, s)) =
      persist now (insert key (record { value = value; exp = exp_of now ttl }) entries) cache s

  -- `put`: whether it went through.
  unfoldable pub put : Text → Text → Option ℕ → ℕ → Cache → S → Bool × (Cache × S)
  unfolding load is_cooldown_key persist
  put key value ttl now cache s =
      if is_cooldown_key key
      then merged key value ttl now (load (not exclusive_writer) now cache s)
      else (let (went, s') = below.put key value ttl s in (went, (cache, s')))

  abbrev removed : Text → ℕ → Option Entries × (Cache × S) → Bool × (Cache × S)
  removed key now (none, rest) = (false, rest)
  removed key now (some entries, (cache, s)) = persist now (erase key entries) cache s

  -- `delete` of a cooldown key
  unfoldable pub delete_cooldown : Text → ℕ → Cache → S → Bool × (Cache × S)
  unfolding load persist
  delete_cooldown key now cache s = removed key now (load (not exclusive_writer) now cache s)
