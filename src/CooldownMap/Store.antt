-- ===== src/CooldownMap/Store.antt =====
-- src/shared/cooldown_map_kv.js: for its only writer the map under one key answers as a store of single keys
-- with their own expiry does.
use news_market_ai.Common.{
  ℕ, ◌+◌, ◌*◌, ◌≤◌, ◌≡◌, ◌∙◌, sym, refl, ap, true, false, none, some, [], ◌∷◌, Text, if◌then◌else◌,
  ◌==◌, keyed_nat, keyed_list, same_list_iff, lookup, insert, lookup-insert, arith, inl, inr,
  Bool-cases,
}
use news_market_ai.CooldownMap.{
  Entry, Entries, Below, Cache, alive, keep_alive, is_cooldown_key, answer, load, get, persist, put,
}

-- Each key once, as in a JavaScript map.
abbrev pub AllUnique : Entries → Type 0
AllUnique [] = Unit
AllUnique ((key, entry) ∷ rest) = (lookup key rest ≡ none) × AllUnique rest

dead_later :
    (now later : ℕ) (entry : Entry)
    → now ≤ later
    → alive now entry ≡ false
    → answer later (some entry) ≡ none
unfolding answer
dead_later now later entry l h = ground arith

other_none :
    (key other : Text) (entry : Entry) (rest : Entries)
    → (other == key) ≡ false
    → lookup other rest ≡ none
    → lookup other (insert key entry rest) ≡ none
other_none key other entry rest b h =
    ground
      (arith, lookup-insert key other entry rest, same_list_iff other key, same_list_iff key other)

insert-AllUnique :
    (key : Text) (entry : Entry) (es : Entries) → AllUnique es → AllUnique (insert key entry es)
insert-AllUnique key entry [] u = (refl, tt)
insert-AllUnique key entry ((other, old) ∷ rest) u = elim (Bool-cases (other == key)) [
  | inl b ↦
      rw b (let e = (same_list_iff other key).0 b in (ap (λ k. lookup k rest) (sym e) ∙ u.0, u.1))
  | inr b ↦ rw b (other_none key other entry rest b u.0, insert-AllUnique key entry rest u.1)
]

-- An entry that expired before an instant answers nothing from then on, kept or not.
answer-keep_alive :
    (now later : ℕ) (asked : Text) (es : Entries)
    → now ≤ later
    → AllUnique es
    → answer later (lookup asked (keep_alive now es)) ≡ answer later (lookup asked es)
unfolding answer
answer-keep_alive now later asked [] l u = refl
answer-keep_alive now later asked ((key, entry) ∷ rest) l u = elim (Bool-cases (alive now entry)) [
  | inl a ↦ rw a (elim (Bool-cases (key == asked)) [
    | inl e ↦ rw e refl
    | inr e ↦ rw e (answer-keep_alive now later asked rest l u.1)
  ])
  | inr a ↦ rw a (elim (Bool-cases (key == asked)) [
    | inl e ↦ rw e (
        answer-keep_alive now later asked rest l u.1
        ∙ ap (answer later) (ap (λ k. lookup k rest) (sym ((same_list_iff key asked).0 e)) ∙ u.0)
        ∙ sym (dead_later now later entry l a))
    | inr e ↦ rw e (answer-keep_alive now later asked rest l u.1)
  ])
]

module _ {S : Type 0} (below : Below S) where
  put-persist :
      (key value : Text) (ttl now : ℕ) (es : Entries) (cache : Cache) (s : S)
      → cache.entries ≡ some es
      → is_cooldown_key key ≡ true
      → put below none true key value (some ttl) now cache s
        ≡ persist below none true now
            (insert key (record { value = value; exp = some (now + ttl * 1000) }) es)
            cache
            s
  unfolding put load
  put-persist key value ttl now es cache s c k = rw (k, c) refl

  get-cached :
      (asked : Text) (later : ℕ) (es : Entries) (cache : Cache) (s : S)
      → cache.entries ≡ some es
      → is_cooldown_key asked ≡ true
      → get below none true asked later cache s
        ≡ (some (answer later (lookup asked es)), (cache, s))
  unfolding get load
  get-cached asked later es cache s c a = rw (a, c) refl

  -- With the map in memory, the only writer's map with no refresh answers after a `put` as a store of
  -- single keys with their own expiry does, at every later instant: the key that was put answers its value
  -- until its TTL has passed, a "1" with the instant of its expiry, and any other key what it answered
  -- before, whether or not the write below went through and with no read below.
  pub get-put :
      (key asked value : Text) (ttl now later : ℕ) (es : Entries) (cache : Cache) (s : S)
      → cache.entries ≡ some es
      → AllUnique es
      → is_cooldown_key key ≡ true
      → is_cooldown_key asked ≡ true
      → now ≤ later
      → let after = (put below none true key value (some ttl) now cache s).1 in
        get below none true asked later after.0 after.1 ≡ (
          some (
              answer later (
                if key == asked
                then some (record { value = value; exp = some (now + ttl * 1000) })
                else lookup asked es)),
          after,
        )
  unfolding put get load persist
  get-put key asked value ttl now later es cache s c u k a l =
      let entry : Entry = record { value = value; exp = some (now + ttl * 1000) } in
      let p = put-persist key value ttl now es cache s c k in
      let kept = keep_alive now (insert key entry es) in
      rw p (
        get-cached asked later kept (persist below none true now (insert key entry es) cache s).1.0
          (persist below none true now (insert key entry es) cache s).1.1 refl a
        ∙ ap (λ r. (some r, (persist below none true now (insert key entry es) cache s).1))
            (answer-keep_alive now later asked (insert key entry es) l
                (insert-AllUnique key entry es u)
              ∙ ap (answer later) (lookup-insert key asked entry es)))
