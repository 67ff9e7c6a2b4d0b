-- ===== src/Cooldown/Tests.antt =====
-- Cooldowns at concrete inputs.
use news_market_ai.Common.{◌≡◌, refl, some, none, codes, keyed_list, keyed_nat}
use news_market_ai.Cooldown.RateLimit.{
  daily, minute, classify_rate_limit, parse_retry_delay_seconds,
}

retry_delay : parse_retry_delay_seconds (codes "Please retry in 52.395004654s.") ≡ some 53
unfolding parse_retry_delay_seconds
retry_delay = refl

retry_delay_whole : parse_retry_delay_seconds (codes "Retry in 7 S") ≡ some 7
unfolding parse_retry_delay_seconds
retry_delay_whole = refl

limit_20 : classify_rate_limit (codes "quota exceeded, limit: 20, model x") none ≡ daily
unfolding classify_rate_limit
limit_20 = refl

limit_15 : classify_rate_limit (codes "quota exceeded, limit: 15, model x") none ≡ minute
unfolding classify_rate_limit
limit_15 = refl

quota_id_wins :
    classify_rate_limit (codes "limit: 500") (some (codes "RequestsPerMinutePerProject")) ≡ minute
unfolding classify_rate_limit
quota_id_wins = refl
