-- ===== src/Risk.antt =====
-- src/agents/risk_mgmt/risk.js and the true range of src/agents/analysts/technicalIndicators.js: the size of a position
-- and the distances of its stop and its target.
mod Bounds
pub mod Portfolio
pub mod Approved
pub mod Groups
mod Tests
use news_market_ai.Common.{
  ℕ, zero, suc, ◌+◌, String, Bool, true, false, not, ◌&&◌, ◌||◌, ◌==◌, keyed_string, Option, none,
  some, List, [], ◌∷◌, length, ltb, if◌then◌else◌,
}
use news_market_ai.Exit.Numbers.{Numbers, Direction, lower, higher}
use news_market_ai.Book.Guards.{ratio, fallback_stop_loss_pct}

abbrev pub atr_window : ℕ
atr_window = 14

module _ (numbers : Numbers) where
  -- A daily bar, by what is read of it; the newest comes first.
  pub record DailyBar : Type 0 where
    pub high : numbers.Num
    pub low : numbers.Num
    pub close : numbers.Num

  -- `Math.max` of the three distances
  abbrev pub true_range : DailyBar → DailyBar → numbers.Num
  true_range bar before =
      higher numbers
        (higher numbers (numbers.minus bar.high bar.low)
          (numbers.abs (numbers.minus bar.high before.close)))
        (numbers.abs (numbers.minus bar.low before.close))

  -- The loop of `computeATR`: as many bars as are left to count, each with the one before it.
  abbrev pub add_ranges : ℕ → List DailyBar → numbers.Num → numbers.Num
  add_ranges zero bars sum = sum
  add_ranges (suc n) [] sum = sum
  add_ranges (suc n) (bar ∷ []) sum = sum
  add_ranges (suc n) (bar ∷ before ∷ bars) sum =
      add_ranges n (before ∷ bars) (numbers.plus sum (true_range bar before))

  -- `computeATR`
  unfoldable pub compute_atr : ℕ → List DailyBar → Option numbers.Num
  compute_atr window bars =
      if ltb (length bars) (window + 1)
      then none
      else some (numbers.over (add_ranges window bars numbers.zero) (numbers.of_nat window))

  abbrev pub min_stop_loss_pct : numbers.Num
  min_stop_loss_pct = ratio numbers 1 100

  abbrev pub max_stop_loss_pct : numbers.Num
  max_stop_loss_pct = ratio numbers 8 100

  abbrev pub clamp : numbers.Num → numbers.Num → numbers.Num → numbers.Num
  clamp value least most = lower numbers most (higher numbers least value)

  -- A number that a test takes for true: neither 0 nor NaN.
  abbrev is_truthy : numbers.Num → Bool
  is_truthy a = numbers.less numbers.zero a || numbers.less a numbers.zero

  -- The stop and the target.
  abbrev pub Levels : Type 0
  Levels = numbers.Num × numbers.Num

  abbrev pub fallback_levels : Levels
  fallback_levels = (fallback_stop_loss_pct numbers, ratio numbers 6 100)

  abbrev pub scaled_stop : numbers.Num → numbers.Num → numbers.Num
  scaled_stop atr close =
      clamp (numbers.times (ratio numbers 3 2) (numbers.over atr close)) min_stop_loss_pct
        max_stop_loss_pct

  abbrev pub levels_from : Option numbers.Num → List DailyBar → Levels
  levels_from none bars = fallback_levels
  levels_from (some atr) [] = fallback_levels
  levels_from (some atr) (bar ∷ bars) =
      if is_truthy bar.close
      then (scaled_stop atr bar.close, numbers.times (scaled_stop atr bar.close) (numbers.of_nat 2))
      else fallback_levels

  -- `computeStopAndTarget`; no bars at all are an empty list.
  unfoldable pub compute_stop_and_target : List DailyBar → Levels
  unfolding compute_atr
  compute_stop_and_target bars = levels_from (compute_atr atr_window bars) bars

  -- The thesis, by what is read of it; `none` for the direction is "flat".
  pub record Proposal : Type 0 where
    pub ticker : String
    pub as_of : ℕ
    pub direction : Option Direction

  -- `RiskDecision`, less its text
  pub record RiskDecision : Type 0 where
    -- The ticker and the instant that `tradeThesisId` is made of.
    pub trade_thesis_id : String × ℕ
    pub approved : Bool
    pub position_size_pct : numbers.Num
    pub stop_loss_pct : Option numbers.Num
    pub take_profit_pct : Option numbers.Num

  -- `z.number().min(0).max(1)`
  abbrev pub is_fraction : numbers.Num → Bool
  is_fraction a = numbers.at_most numbers.zero a && numbers.at_most a numbers.one

  -- `z.number().min(0).optional()`
  abbrev pub is_distance : Option numbers.Num → Bool
  is_distance none = true
  is_distance (some a) = numbers.at_most numbers.zero a

  -- `RiskDecision.parse`, which throws on a number out of range
  abbrev pub parse_risk : RiskDecision → Option RiskDecision
  parse_risk d =
      if is_fraction d.position_size_pct
        && is_distance d.stop_loss_pct
        && is_distance d.take_profit_pct
      then some d
      else none

  -- `MAX_POSITION_PCT_BY_TICKER[ticker] ?? MAX_POSITION_PCT`
  abbrev pub max_position_pct : String → numbers.Num
  max_position_pct ticker =
      if ticker == "XAUUSD" || ticker == "BTCUSD" then ratio numbers 3 10 else ratio numbers 5 100

  abbrev pub min_confidence_to_act : numbers.Num
  min_confidence_to_act = ratio numbers 6 10

  abbrev pub is_directed : Option Direction → Bool
  is_directed none = false
  is_directed (some direction) = true

  abbrev pub is_approved : Proposal → numbers.Num → Bool
  is_approved thesis confidence =
      numbers.at_most min_confidence_to_act confidence && is_directed thesis.direction

  -- `evaluateRisk`
  unfoldable pub evaluate_risk : Proposal → numbers.Num → List DailyBar → Option RiskDecision
  unfolding compute_stop_and_target
  evaluate_risk thesis confidence bars =
      let approved = is_approved thesis confidence in
      let most = max_position_pct thesis.ticker in
      let levels = compute_stop_and_target bars in
      parse_risk (record {
        trade_thesis_id = (thesis.ticker, thesis.as_of);
        approved = approved;
        position_size_pct =
            if approved then lower numbers most (numbers.times confidence most) else numbers.zero;
        stop_loss_pct = if approved then some levels.0 else none;
        take_profit_pct = if approved then some levels.1 else none;
      })
