-- ===== src/Exit/Evaluate.antt =====
-- src/agents/risk_mgmt/exit.js: `evaluateExit`, the exit of one position at one price.
use news_market_ai.Common.{
  ℕ, ◌≤◌, ◌<◌, ◌≡◌, refl, ap, Bool, true, false, Option, none, some, if◌then◌else◌, leb, Text,
  keyed_nat,
}
use news_market_ai.Exit.{trading_days_between, time_exit_due_at}
use news_market_ai.Exit.Due.{time_exit_due_at-first}
use news_market_ai.Exit.Numbers.{Numbers, Direction, gross_return}
use news_market_ai.Exit.Trailing.{Reason, stop_loss, take_profit, time_based}

module _ (numbers : Numbers) where
  -- The fields of a position that the check reads. Its instant of opening is given by its day.
  pub record Open : Type 0 where
    pub direction : Option Direction
    pub entry_price : Option numbers.Num
    pub stop_loss_pct : Option numbers.Num
    pub take_profit_pct : Option numbers.Num
    pub opened_at : Option ℕ
    pub ticker : Option Text

  pub record Check : Type 0 where
    pub current_price : Option numbers.Num
    pub as_of : Option ℕ
    pub max_hold_days : Option ℕ
    pub skip_price_exits : Bool

  abbrev falls_to : numbers.Num → Option numbers.Num → Bool
  falls_to change none = false
  falls_to change (some pct) = numbers.at_most change (numbers.minus numbers.zero pct)

  abbrev rises_to : numbers.Num → Option numbers.Num → Bool
  rises_to change none = false
  rises_to change (some pct) = numbers.at_most pct change

  abbrev by_change : numbers.Num → Open → Option Reason
  by_change change position =
      if falls_to change position.stop_loss_pct
      then some stop_loss
      else if rises_to change position.take_profit_pct
      then some take_profit
      else none

  -- The price exits, where direction and both prices are there.
  abbrev pub by_price :
      Option Direction → Option numbers.Num → Option numbers.Num → Open → Option Reason
  by_price none entry price position = none
  by_price (some direction) none price position = none
  by_price (some direction) (some entry) none position = none
  by_price (some direction) (some entry) (some price) position =
      by_change (gross_return numbers direction entry price) position

  abbrev has_held : Option ℕ → Option ℕ → Bool
  has_held none days = false
  has_held (some hold) none = false
  has_held (some hold) (some days) = leb hold days

  abbrev pub by_time : Open → Check → Option Reason
  by_time position check =
      if has_held check.max_hold_days
        (trading_days_between position.opened_at check.as_of position.ticker)
      then some time_based
      else none

  abbrev or_by_time : Option Reason → Option Reason → Option Reason
  or_by_time (some reason) time = some reason
  or_by_time none time = time

  -- `evaluateExit`
  unfoldable pub evaluate_exit : Open → Check → Option Reason
  evaluate_exit position check =
      or_by_time
        (if check.skip_price_exits
          then none
          else by_price position.direction position.entry_price check.current_price position)
        (by_time position check)

  -- With the price exits distrusted, a position held for 1 to 1000 days at most is closed by time exactly
  -- from the due day of `timeExitDueAt` on, whatever its prices, and by nothing else.
  pub evaluate_exit-due :
      (position : Open) (check : Check) (opened as_of hold : ℕ)
      → check.skip_price_exits ≡ true
      → position.opened_at ≡ some opened
      → check.as_of ≡ some as_of
      → check.max_hold_days ≡ some hold
      → 0 < hold
      → hold ≤ 1000
      → (due : ℕ) × (time_exit_due_at (some opened) hold position.ticker ≡ some due)
        × (evaluate_exit position check ≡ (if leb due as_of then some time_based else none))
  unfolding evaluate_exit trading_days_between
  evaluate_exit-due position check opened as_of hold s o a m p b =
      let (due, e, after, within, first) = time_exit_due_at-first opened hold position.ticker p b in
      (due, e, rw (s, o, a, m) (ap (λ t. if t then some time_based else none) (first as_of _ refl)))
