-- ===== src/Exit/Numbers.antt =====
-- The numbers of prices and returns: what src/agents/risk_mgmt, src/shared/returns.js and src/shared/split_guard.js
-- use of the language's arithmetic. `src/shared/returns.js` and `src/shared/split_guard.js` are modelled here.
use news_market_ai.Common.{
  ℕ, Bool, true, false, not, ◌&&◌, ◌||◌, Option, none, some, List, [], ◌∷◌, if◌then◌else◌,
}

pub record Numbers : Type 1 where
  pub Num : Type 0
  -- `Number.isFinite`
  pub is_finite : Num → Bool
  pub zero : Num
  pub one : Num
  pub of_nat : ℕ → Num
  pub plus : Num → Num → Num
  pub minus : Num → Num → Num
  pub times : Num → Num → Num
  pub over : Num → Num → Num
  pub abs : Num → Num
  pub less : Num → Num → Bool
  pub at_most : Num → Num → Bool

pub data Direction : Type 0 where
  long short : Direction

module _ (numbers : Numbers) where
  -- `Math.min` and `Math.max` of two numbers that compare
  abbrev pub lower : numbers.Num → numbers.Num → numbers.Num
  lower a b = if numbers.less b a then b else a

  abbrev pub higher : numbers.Num → numbers.Num → numbers.Num
  higher a b = if numbers.less a b then b else a

  -- A missing or unusable number, the `Number.isFinite` guard
  abbrev pub usable : Option numbers.Num → Option numbers.Num
  usable none = none
  usable (some a) = if numbers.is_finite a then some a else none

  -- `computeGrossReturn`, on prices that are there
  unfoldable pub gross_return : Direction → numbers.Num → numbers.Num → numbers.Num
  gross_return long entry price = numbers.over (numbers.minus price entry) entry
  gross_return short entry price = numbers.over (numbers.minus entry price) entry

  -- `sideCostFraction`
  unfoldable pub side_cost_fraction : Option numbers.Num → numbers.Num
  side_cost_fraction none = numbers.zero
  side_cost_fraction (some bps) =
      if numbers.is_finite bps && numbers.less numbers.zero bps
      then numbers.over bps (numbers.of_nat 10000)
      else numbers.zero

  -- `roundTripCostFraction`
  unfoldable pub round_trip_cost_fraction : Option numbers.Num → numbers.Num
  unfolding side_cost_fraction
  round_trip_cost_fraction bps = numbers.times (numbers.of_nat 2) (side_cost_fraction bps)

  -- `SPLIT_FACTORS`
  abbrev pub split_factors : List ℕ
  split_factors = 2 ∷ 3 ∷ 4 ∷ 5 ∷ 10 ∷ []

  pub record Split : Type 0 where
    pub is_reverse : Bool
    pub factor : ℕ
    pub ratio : numbers.Num

  abbrev near : numbers.Num → numbers.Num → Bool
  near r tolerance = numbers.at_most (numbers.abs (numbers.minus r numbers.one)) tolerance

  -- The loop of `detectSplitJump` over the factors.
  abbrev match_factor : List ℕ → numbers.Num → numbers.Num → Option Split
  match_factor [] ratio tolerance = none
  match_factor (n ∷ ns) ratio tolerance =
      let rest = match_factor ns ratio tolerance in
      if near (numbers.times ratio (numbers.of_nat n)) tolerance
      then some (record { is_reverse = false; factor = n; ratio = ratio })
      else if near (numbers.over ratio (numbers.of_nat n)) tolerance
      then some (record { is_reverse = true; factor = n; ratio = ratio })
      else rest

  -- `detectSplitJump`
  unfoldable pub detect_split_jump : numbers.Num → numbers.Num → numbers.Num → Option Split
  detect_split_jump entry price tolerance =
      if not (numbers.less numbers.zero tolerance)
        || (not (numbers.is_finite entry && numbers.is_finite price)
            || (numbers.at_most entry numbers.zero || numbers.at_most price numbers.zero))
      then none
      else match_factor split_factors (numbers.over price entry) tolerance
