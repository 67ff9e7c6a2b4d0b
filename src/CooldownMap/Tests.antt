-- ===== src/CooldownMap/Tests.antt =====
-- src/shared/cooldown_map_kv.js over a namespace that holds the map alone and counts its reads.
use news_market_ai.Common.{
  ℕ, ◌+◌, ◌*◌, ◌≡◌, refl, true, Option, none, some, [], ◌∷◌, Text, codes, if◌then◌else◌, ◌==◌,
  keyed_nat, keyed_list, lookup, arith, strip_prefix,
}
use news_market_ai.CooldownMap.{
  Entry, Entries, Below, Cache, is_cooldown_key, answer, load, get, put,
}
use news_market_ai.Cooldown.{get_cooldown, set_cooldown}
use news_market_ai.CooldownMap.Store.{get-put}
use news_market_ai.CooldownMap.Cooling.{CoolsUntil, map_kv, at_time, get_cooldown-set}

abbrev counting : Below (Option Entries × ℕ)
counting = record {
  get_map = λ s. (some s.0, (s.0, s.1 + 1));
  put_map = λ es ttl s. (true, (some es, s.1));
  get = λ key s. (some none, s);
  put = λ key value ttl s. (true, s);
}

abbrev pro_key : Text
pro_key = codes "gemini:cooldown:pro:0"

abbrev flash_key : Text
flash_key = codes "gemini:cooldown:flash:0"

abbrev flash_entry : Entry
flash_entry = record { value = codes "1"; exp = some 9000 }

abbrev full_cache : Cache
full_cache = record { entries = some ((flash_key, flash_entry) ∷ []); loaded_at = 0 }

abbrev no_cache : Cache
no_cache = record { entries = none; loaded_at = 0 }

pro_key-IsCooldown : is_cooldown_key pro_key ≡ true
unfolding is_cooldown_key strip_prefix
pro_key-IsCooldown = refl

flash_key-IsCooldown : is_cooldown_key flash_key ≡ true
unfolding is_cooldown_key strip_prefix
flash_key-IsCooldown = refl

-- A first read loads the map, and an entry that expired answers nothing.
expired_answers_nothing :
    (get counting none true flash_key 9000 no_cache (some ((flash_key, flash_entry) ∷ []), 0)).0
    ≡ some none
unfolding get load answer is_cooldown_key strip_prefix
expired_answers_nothing = refl

get-put_example :
    let after =
      (put counting none true pro_key (codes "1") (some 60) 1000 full_cache (none, 0)).1 in
    get counting none true pro_key 2000 after.0 after.1 ≡ (
      some (
          answer 2000 (
            if pro_key == pro_key
            then some (record { value = codes "1"; exp = some (1000 + 60 * 1000) })
            else lookup pro_key ((flash_key, flash_entry) ∷ []))),
      after,
    )
get-put_example =
    get-put counting pro_key pro_key (codes "1") 60 1000 2000 ((flash_key, flash_entry) ∷ [])
      full_cache (none, 0) refl (refl, tt) pro_key-IsCooldown pro_key-IsCooldown (omega arith)

-- Two hours that are set at the instant 1000, read when one second has passed.
get_cooldown-set_example :
    CoolsUntil 7201000 2000 true
      (get_cooldown (some (map_kv counting)) "pro" 0 2000 (
        at_time 2000 (
          set_cooldown
            (some (map_kv counting))
            "pro"
            0
            (some 7200)
            true
            1000
            (1000, full_cache, (none, 0))))).0
get_cooldown-set_example =
    get_cooldown-set counting "pro" 0 (some 7200) true 1000 2000 ((flash_key, flash_entry) ∷ [])
      full_cache (none, 0) refl (refl, tt) (omega arith)
