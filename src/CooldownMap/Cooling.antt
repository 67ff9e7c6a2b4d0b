-- ===== src/CooldownMap/Cooling.antt =====
-- src/shared/cooldown.js over src/shared/cooldown_map_kv.js: a cooldown that is set through the map is read back until
-- it has run out.
use news_market_ai.Common.{
  ℕ, ◌+◌, ◌*◌, ◌≤◌, ◌<◌, ◌≡◌, ◌⊎◌, refl, String, Bool, true, false, Option, none, some, ◌∷◌, ◌++◌,
  codes, decimal, ltb, ltb→lt, if◌then◌else◌, keyed_nat, keyed_list, same_refl, strip_prefix-append,
  arith, inl, inr, Bool-cases,
}
use news_market_ai.Cooldown.{
  Kv, Cooling, reading, cooldown_key, get_cooldown, set_cooldown, ttl_of, stored_value,
  remaining_until,
}
use news_market_ai.Cooldown.Laws.{read_cooling-daily, read_cooling-minute}
use news_market_ai.CooldownMap.{Entries, Below, Cache, is_cooldown_key, answer, get, put}
use news_market_ai.CooldownMap.Store.{AllUnique, get-put}

-- The wall clock, the wrapper's memory and the namespace below it.
abbrev pub Clocked : Type 0 → Type 0
Clocked S = ℕ × Cache × S

-- The wrapper of the only writer, with no refresh, as a namespace
abbrev pub map_kv : {S : Type 0} → Below S → Kv (Clocked S)
map_kv below = record {
  get = λ key (now, cache, s).
      let out = get below none true key now cache s in (out.0, (now, out.1.0, out.1.1));
  put = λ key value ttl (now, cache, s).
      let out = put below none true key value (some ttl) now cache s in
      (out.0, (now, out.1.0, out.1.1));
}

-- The state at a later reading of the clock
abbrev pub at_time : {S : Type 0} → ℕ → Clocked S → Clocked S
at_time later (now, cache, s) = (later, cache, s)

-- The fewest whole seconds, 60 at least, that reach the expiry from an instant.
abbrev pub Reaches : ℕ → ℕ → Option ℕ → Type 0
Reaches expires later none = ⊥
Reaches expires later (some seconds) =
    (60 ≤ seconds)
    × (expires ≤ later + seconds * 1000)
    × ((seconds ≡ 60) ⊎ (later + seconds * 1000 < expires + 1000))

-- What is read of a cooldown with that expiry.
abbrev pub CoolsUntil : ℕ → ℕ → Bool → Option Cooling → Type 0
CoolsUntil expires later daily none = expires ≤ later
CoolsUntil expires later daily (some cooling) =
    (later < expires) × (cooling.daily ≡ daily) × Reaches expires later cooling.remaining_seconds

remaining_until-Reaches :
    (expires later : ℕ) → Reaches expires later (some (remaining_until expires later))
unfolding remaining_until
remaining_until-Reaches expires later = (ground arith, ground arith, ground arith)

cooldown_key-IsCooldown :
    (model : String) (key_index : ℕ) → is_cooldown_key (cooldown_key model key_index) ≡ true
unfolding is_cooldown_key cooldown_key
cooldown_key-IsCooldown model key_index =
    rw (strip_prefix-append (codes "gemini:cooldown:") (codes model ++ (b':' ∷ decimal key_index)))
      refl

not_before : (a b : ℕ) → ltb a b ≡ false → b ≤ a
not_before a b h = ground arith

-- What a stored cooldown answers, read as one.
stored-CoolsUntil :
    (daily : Bool) (ttl now later : ℕ)
    → CoolsUntil (now + ttl * 1000) later daily (
        reading later (
          some (
            answer later (
              some
                (record { value = stored_value ttl daily now; exp = some (now + ttl * 1000) })))))
unfolding answer stored_value
stored-CoolsUntil true ttl now later = elim (Bool-cases (ltb later (now + ttl * 1000))) [
  | inl b ↦ rw b (
      rw (read_cooling-daily ttl now later)
        (ltb→lt later (now + ttl * 1000) b, refl, remaining_until-Reaches (now + ttl * 1000) later))
  | inr b ↦ rw b (not_before later (now + ttl * 1000) b)
]
stored-CoolsUntil false ttl now later = elim (Bool-cases (ltb later (now + ttl * 1000))) [
  | inl b ↦ rw b (
      rw (read_cooling-minute (now + ttl * 1000) later)
        (ltb→lt later (now + ttl * 1000) b, refl, remaining_until-Reaches (now + ttl * 1000) later))
  | inr b ↦ rw b (not_before later (now + ttl * 1000) b)
]

-- The seconds that a cooldown lasts: those asked for, 60 where none or fewer are.
abbrev pub lasts : Option ℕ → ℕ
lasts none = 60
lasts (some seconds) = if ltb seconds 60 then 60 else seconds

ttl_of-lasts : (seconds : Option ℕ) → ttl_of seconds ≡ lasts seconds
unfolding ttl_of
ttl_of-lasts none = refl
ttl_of-lasts (some seconds) = ground arith

-- A cooldown that is set by the only writer of the map, its entries in memory and each key there once, is read at
-- any later instant as what it is, daily or not, with the fewest whole seconds, 60 at least, that reach its expiry, and not at all
-- from its expiry on; it expires after the seconds asked for, or after 60 where none or fewer are, and all that
-- whether or not the write below went through.
pub get_cooldown-set :
    {S : Type 0} (below : Below S) (model : String) (key_index : ℕ) (seconds : Option ℕ)
    (daily : Bool) (now later : ℕ) (es : Entries) (cache : Cache) (s : S)
    → cache.entries ≡ some es
    → AllUnique es
    → now ≤ later
    → CoolsUntil
        (now + lasts seconds * 1000)
        later
        daily
        (get_cooldown (some (map_kv below)) model key_index later (
          at_time later (
            set_cooldown
              (some (map_kv below))
              model
              key_index
              seconds
              daily
              now
              (now, cache, s)))).0
unfolding get_cooldown set_cooldown
get_cooldown-set below model key_index seconds daily now later es cache s c u l =
    let key = cooldown_key model key_index in
    let k = cooldown_key-IsCooldown model key_index in
    let value = stored_value (ttl_of seconds) daily now in
    let read = get-put below key key value (ttl_of seconds) now later es cache s c u k k l in
    rw⁻¹ (ttl_of-lasts seconds)
      (rw read (rw (same_refl key) (stored-CoolsUntil daily (ttl_of seconds) now later)))
