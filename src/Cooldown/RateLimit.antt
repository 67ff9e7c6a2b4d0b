-- ===== src/Cooldown/RateLimit.antt =====
-- src/shared/cooldown.js: what a 429's message and quota id say, by the regular expressions of
-- `classifyRateLimit` and `parseRetryDelaySeconds`, and the wait for a daily quota.
use news_market_ai.Common.{
  ℕ, ◌+◌, ◌-◌, ◌*◌, Bool, true, false, ◌&&◌, ◌||◌, Option, none, some, [], ◌∷◌, Text, codes,
  is_digit, leb, if◌then◌else◌, ◌==◌, keyed_nat,
}

-- The flag `i`: ASCII letters in lower case.
abbrev pub lower : ℕ → ℕ
lower c = if leb b'A' c && leb c b'Z' then c + 32 else c

-- What follows `pattern`, given in lower case, at the start of a text; any case matches.
unfoldable pub after_prefix : Text → Text → Option Text
after_prefix [] t = some t
after_prefix (p ∷ ps) [] = none
after_prefix (p ∷ ps) (c ∷ t) = if p == lower c then after_prefix ps t else none

abbrev pub is_found : Option Text → Bool
is_found none = false
is_found (some _) = true

-- `/pattern/i.test(text)`
unfoldable pub matches : Text → Text → Bool
unfolding after_prefix
matches pattern [] = is_found (after_prefix pattern [])
matches pattern (c ∷ t) = is_found (after_prefix pattern (c ∷ t)) || matches pattern t

-- `\s`, over ASCII.
abbrev pub is_space : ℕ → Bool
is_space c = c == 32 || (leb 9 c && leb c 13)

-- `\s*`
unfoldable pub skip_spaces : Text → Text
skip_spaces [] = []
skip_spaces (c ∷ t) = if is_space c then skip_spaces t else c ∷ t

-- The rest of `\d+` after its first digit.
unfoldable pub more_digits : ℕ → Text → ℕ
more_digits acc [] = acc
more_digits acc (c ∷ t) = if is_digit c then more_digits (acc * 10 + (c - b'0')) t else acc

-- `(\d+)`
unfoldable pub one_number : Text → Option ℕ
unfolding more_digits
one_number [] = none
one_number (c ∷ t) = if is_digit c then some (more_digits (c - b'0') t) else none

abbrev pub number_after : Option Text → Option ℕ
number_after none = none
number_after (some t) = one_number (skip_spaces t)

abbrev pub or_else : Option ℕ → Option ℕ → Option ℕ
or_else none o = o
or_else (some n) o = some n

-- `/limit:\s*(\d+)/i.exec(text)`: the number at the first place that matches.
unfoldable pub limit_in : Text → Option ℕ
unfolding after_prefix one_number skip_spaces
limit_in [] = none
limit_in (c ∷ t) = or_else (number_after (after_prefix (codes "limit:") (c ∷ t))) (limit_in t)

pub data Kind : Type 0 where
  daily minute : Kind

abbrev pub max_rpm_limit : ℕ
max_rpm_limit = 15

abbrev pub by_limit : Option ℕ → Kind
by_limit none = minute
by_limit (some n) = if leb n max_rpm_limit then minute else daily

-- Steps 2 to 4 of `classifyRateLimit`: the message alone.
unfoldable pub classify_message : Text → Kind
unfolding matches limit_in
classify_message text =
    if matches (codes "perday") text
    then daily
    else if matches (codes "perminute") text
    then minute
    else if matches (codes "token") text
    then minute
    else by_limit (limit_in text)

-- `classifyRateLimit(message, quotaId)`; a missing message is the empty text.
unfoldable pub classify_rate_limit : Text → Option Text → Kind
unfolding classify_message matches
classify_rate_limit message none = classify_message message
classify_rate_limit message (some quota_id) =
    if matches (codes "perday") quota_id
    then daily
    else if matches (codes "perminute") quota_id
    then minute
    else classify_message message

-- `[\d.]`
abbrev is_digit_or_dot : ℕ → Bool
is_digit_or_dot c = is_digit c || c == b'.'

-- The longest run of `[\d.]`, and what follows it.
unfoldable pub number_run : Text → Text × Text
number_run [] = ([], [])
number_run (c ∷ t) =
    let (run, rest) = number_run t in if is_digit_or_dot c then (c ∷ run, rest) else ([], c ∷ t)

-- Whether the digits at the start of a text are not all zero.
unfoldable pub some_nonzero : Text → Bool
some_nonzero [] = false
some_nonzero (c ∷ t) = if is_digit c then (if c == b'0' then some_nonzero t else true) else false

-- The value of the digits at the start of a text, and what follows them.
unfoldable pub whole_part : ℕ → Text → ℕ × Text
whole_part acc [] = (acc, [])
whole_part acc (c ∷ t) =
    let rest = whole_part (acc * 10 + (c - b'0')) t in if is_digit c then rest else (acc, c ∷ t)

abbrev fraction_nonzero : Text → Bool
fraction_nonzero [] = false
fraction_nonzero (c ∷ t) = c == b'.' && some_nonzero t

-- `.25`: the digits after a leading dot.
abbrev fraction_only : Text → Option ℕ
fraction_only [] = none
fraction_only (c ∷ t) = if is_digit c then some (if some_nonzero (c ∷ t) then 1 else 0) else none

-- `Math.ceil(parseFloat(run))` in exact decimals. A run of dots alone, which `parseFloat` reads as
-- not a number, is taken for no match.
unfoldable pub ceil_decimal : Text → Option ℕ
unfolding whole_part some_nonzero
ceil_decimal [] = none
ceil_decimal (c ∷ t) =
    let (n, rest) = whole_part 0 (c ∷ t) in
    if is_digit c then some (if fraction_nonzero rest then n + 1 else n) else fraction_only t

-- The letter that closes the match.
abbrev followed_by_s : Text → Text → Option ℕ
followed_by_s run [] = none
followed_by_s run (c ∷ t) = if lower c == b's' then ceil_decimal run else none

abbrev delay_at : Option Text → Option ℕ
delay_at none = none
delay_at (some t) = let (run, rest) = number_run t in followed_by_s run (skip_spaces rest)

-- `/retry in ([\d.]+)\s*s/i.exec(message)`, at the first place that matches.
unfoldable pub parse_retry_delay_seconds : Text → Option ℕ
unfolding after_prefix number_run skip_spaces ceil_decimal
parse_retry_delay_seconds [] = none
parse_retry_delay_seconds (c ∷ t) =
    or_else (delay_at (after_prefix (codes "retry in ") (c ∷ t))) (parse_retry_delay_seconds t)

-- `secondsUntilNextPacificMidnight` on the Pacific wall clock that `Intl.DateTimeFormat` reports;
-- it may report hour 24 for midnight.
unfoldable pub seconds_until_midnight : ℕ → ℕ → ℕ → ℕ
seconds_until_midnight hour minutes seconds =
    let h = if hour == 24 then 0 else hour in 24 * 3600 - (h * 3600 + minutes * 60 + seconds)

abbrev pub daily_quota_reset_buffer_seconds : ℕ
daily_quota_reset_buffer_seconds = 5 * 60

-- `dailyQuotaCooldownSeconds`
unfoldable pub daily_quota_cooldown_seconds : ℕ → ℕ → ℕ → ℕ
unfolding seconds_until_midnight
daily_quota_cooldown_seconds hour minutes seconds =
    seconds_until_midnight hour minutes seconds + daily_quota_reset_buffer_seconds
