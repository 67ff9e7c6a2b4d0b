-- ===== src/Cooldown/Laws.antt =====
-- src/shared/cooldown.js: what a stored cooldown says, the daily wait, and the classification of a 429.
use news_market_ai.Common.{
  ℕ, ◌+◌, ◌-◌, ◌*◌, ◌≤◌, ◌<◌, ◌≡◌, refl, true, false, Option, none, some, [], ◌∷◌, ◌++◌, map, Text,
  codes, decimal, to_number-decimal, strip_prefix, strip_prefix-append, arith, keyed_nat,
}
use news_market_ai.Cooldown.{
  daily_prefix, minute_prefix, remaining_until, read_cooling, ttl_of, stored_value,
}
use news_market_ai.Cooldown.RateLimit.{
  lower, after_prefix, matches, limit_in, one_number, more_digits, skip_spaces, is_found,
  number_after, classify_message, classify_rate_limit, daily_quota_cooldown_seconds,
}

pub read_cooling-daily :
    (ttl now later : ℕ)
    → read_cooling later (stored_value ttl true now)
      ≡ record { daily = true; remaining_seconds = some (remaining_until (now + ttl * 1000) later) }
unfolding read_cooling stored_value
read_cooling-daily ttl now later = simp (strip_prefix-append daily_prefix, to_number-decimal) refl

pub read_cooling-minute :
    (expires later : ℕ)
    → read_cooling later (minute_prefix ++ decimal expires)
      ≡ record { daily = false; remaining_seconds = some (remaining_until expires later) }
unfolding read_cooling strip_prefix
read_cooling-minute expires later = simp (to_number-decimal) refl

-- Whatever was asked for, a cooldown lasts at least 60 seconds, and the whole of it is left at the
-- moment it is written.
pub ttl_of-remaining :
    (seconds : Option ℕ) (now : ℕ)
    → (60 ≤ ttl_of seconds) × (remaining_until (now + ttl_of seconds * 1000) now ≡ ttl_of seconds)
unfolding ttl_of remaining_until
ttl_of-remaining none now = (omega arith, omega arith)
ttl_of-remaining (some n) now = (omega arith, omega arith)

-- The wait for a daily quota ends five minutes after the next Pacific midnight, on any wall clock
-- reading, and is more than five minutes and at most a day and five minutes.
pub daily_quota_cooldown_bounds :
    (hour minutes seconds : ℕ)
    → hour < 24
    → minutes < 60
    → seconds < 60
    → let wait = daily_quota_cooldown_seconds hour minutes seconds in
      (hour * 3600 + minutes * 60 + seconds + wait ≡ 24 * 3600 + 300)
      × (300 < wait)
      × (wait ≤ 24 * 3600 + 300)
unfolding daily_quota_cooldown_seconds
daily_quota_cooldown_bounds hour minutes seconds h m s = ground arith

-- The classification ignores the case of letters.
abbrev pub lower_all : Text → Text
lower_all = map lower

abbrev pub lower_rest : Option Text → Option Text
lower_rest none = none
lower_rest (some t) = some (lower_all t)

lower_idem : (c : ℕ) → lower (lower c) ≡ lower c
lower_idem c = ground arith

after_prefix-lower : (p t : Text) → after_prefix p (lower_all t) ≡ lower_rest (after_prefix p t)
unfolding after_prefix
after_prefix-lower [] t = refl
after_prefix-lower (a ∷ p) [] = refl
after_prefix-lower (a ∷ p) (c ∷ t) = ground (arith, lower_idem c, after_prefix-lower p t)

is_found-lower : (r : Option Text) → is_found (lower_rest r) ≡ is_found r
is_found-lower none = refl
is_found-lower (some t) = refl

matches-lower : (p t : Text) → matches p (lower_all t) ≡ matches p t
unfolding matches
matches-lower p [] = refl
matches-lower p (c ∷ t) =
    rw (after_prefix-lower p (c ∷ t), is_found-lower (after_prefix p (c ∷ t)), matches-lower p t)

more_digits-lower : (acc : ℕ) (t : Text) → more_digits acc (lower_all t) ≡ more_digits acc t
unfolding more_digits
more_digits-lower acc [] = refl
more_digits-lower acc (c ∷ t) = ground (arith, more_digits-lower (acc * 10 + (c - b'0')) t)

skip_spaces-lower : (t : Text) → skip_spaces (lower_all t) ≡ lower_all (skip_spaces t)
unfolding skip_spaces
skip_spaces-lower [] = refl
skip_spaces-lower (c ∷ t) = ground (arith, skip_spaces-lower t)

one_number-lower : (t : Text) → one_number (lower_all t) ≡ one_number t
unfolding one_number
one_number-lower [] = refl
one_number-lower (c ∷ t) = ground (arith, more_digits-lower (c - b'0') t)

number_after-lower : (r : Option Text) → number_after (lower_rest r) ≡ number_after r
number_after-lower none = refl
number_after-lower (some t) = rw (skip_spaces-lower t, one_number-lower (skip_spaces t))

limit_in-lower : (t : Text) → limit_in (lower_all t) ≡ limit_in t
unfolding limit_in
limit_in-lower [] = refl
limit_in-lower (c ∷ t) = rw (
  after_prefix-lower (codes "limit:") (c ∷ t),
  number_after-lower (after_prefix (codes "limit:") (c ∷ t)),
  limit_in-lower t,
)

classify_message-lower : (t : Text) → classify_message (lower_all t) ≡ classify_message t
unfolding classify_message
classify_message-lower t = rw (
  matches-lower (codes "perday") t,
  matches-lower (codes "perminute") t,
  matches-lower (codes "token") t,
  limit_in-lower t,
)

-- A 429 is classified alike whatever the case of the letters in its message and its quota id.
pub classify_rate_limit_ignores_case :
    (message : Text) (quota_id : Option Text)
    → classify_rate_limit (lower_all message) (lower_rest quota_id)
      ≡ classify_rate_limit message quota_id
unfolding classify_rate_limit
classify_rate_limit_ignores_case message none = classify_message-lower message
classify_rate_limit_ignores_case message (some q) = rw (
  matches-lower (codes "perday") q,
  matches-lower (codes "perminute") q,
  classify_message-lower message,
)
