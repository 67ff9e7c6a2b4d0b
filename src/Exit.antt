-- ===== src/Exit.antt =====
-- src/agents/risk_mgmt/exit.js: the calendar of hold days and the exit rules. An instant is given by the
-- number of its UTC day since 1970-01-01, a Thursday; an instant that does not parse is `none`.
pub mod Calendar
pub mod Due
pub mod Numbers
pub mod Trailing
pub mod Bars
pub mod Walk
pub mod Walked
pub mod Decided
pub mod Fill
pub mod Ratchet
pub mod Evaluate
pub mod Tests
use news_market_ai.Common.{
  ℕ, zero, suc, ◌+◌, ◌-◌, ◌*◌, ◌/◌, ◌%◌, ◌≤◌, ◌<◌, ◌≡◌, Bool, true, false, not, ◌&&◌, ◌||◌, Option,
  none, some, List, [], ◌∷◌, arith, ltb, leb, if◌then◌else◌, ◌==◌, keyed_nat, keyed_list, any, map,
  Text, codes,
}

-- `CRYPTO_24X7_TICKERS` of shared/intraday_sanity.js
abbrev pub crypto_tickers : List Text
crypto_tickers = codes "BTCUSD" ∷ []

-- `String.prototype.toUpperCase` on one ASCII letter
abbrev pub upper : ℕ → ℕ
upper c = if leb 97 c && leb c 122 then c - 32 else c

-- `isSevenDayTicker`
unfoldable pub is_seven_day : Option Text → Bool
is_seven_day none = false
is_seven_day (some ticker) = any (λ t. t == map upper ticker) crypto_tickers

-- `getUTCDay`
abbrev pub weekday : ℕ → ℕ
weekday day = (day + 4) % 7

-- `countsAsHoldDay`
abbrev pub counts_as_hold_day : ℕ → Bool → Bool
counts_as_hold_day day seven = seven || (not (weekday day == 0) && not (weekday day == 6))

-- The loop of `tradingDaysBetween` from a day on, over a number of days.
unfoldable pub count_days : Bool → ℕ → ℕ → ℕ → ℕ
count_days seven day zero count = count
count_days seven day (suc left) count =
    count_days seven (day + 1) left (if counts_as_hold_day day seven then count + 1 else count)

-- `tradingDaysBetween`: `none` is its NaN.
unfoldable pub trading_days_between : Option ℕ → Option ℕ → Option Text → Option ℕ
trading_days_between none to ticker = none
trading_days_between (some from) none ticker = none
trading_days_between (some from) (some to) ticker =
    some (count_days (is_seven_day ticker) (from + 1) (to - from) 0)

-- `calendarDaysCoveringTradingDays`, on a whole number of days.
unfoldable pub calendar_days_covering : ℕ → ℕ
calendar_days_covering n = ((n + 4) / 5) * 7

-- The loop of `timeExitDueAt`, on fuel.
unfoldable pub due_day : Bool → ℕ → ℕ → ℕ → ℕ → Option ℕ
due_day seven hold zero day count = none
due_day seven hold (suc fuel) day count =
    let count' = if counts_as_hold_day day seven then count + 1 else count in
    let rest = due_day seven hold fuel (day + 1) count' in
    if leb hold count' then some day else rest

-- `timeExitDueAt`: the day at whose midnight the time exit is due.
unfoldable pub time_exit_due_at : Option ℕ → ℕ → Option Text → Option ℕ
time_exit_due_at none hold ticker = none
time_exit_due_at (some opened) hold ticker =
    if hold == 0 || ltb 1000 hold
    then none
    else due_day (is_seven_day ticker) hold (calendar_days_covering hold) (opened + 1) 0
