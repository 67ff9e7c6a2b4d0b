-- ===== src/Exit/Trailing.antt =====
-- src/agents/risk_mgmt/trailing.js: the break-even and trailing stop as a function of the best price so far.
use news_market_ai.Common.{Bool, not, ◌&&◌, ◌||◌, Option, none, some, if◌then◌else◌}
use news_market_ai.Exit.Numbers.{
  Numbers, Direction, long, short, lower, higher, usable, gross_return, round_trip_cost_fraction,
}

-- `CLOSE_REASON`
pub data Reason : Type 0 where
  stop_loss take_profit time_based breakeven_stop trailing_stop : Reason

module _ (numbers : Numbers) where
  -- The knobs that `resolveTrailingConfig` reads.
  pub record Knobs : Type 0 where
    pub break_even_trigger_r : Option numbers.Num
    pub trail_activation_r : Option numbers.Num
    pub trail_distance_r : Option numbers.Num
    pub trail_removes_target : Bool
    pub trade_cost_bps : Option numbers.Num

  pub record Trailing : Type 0 where
    pub break_even_trigger_r : numbers.Num
    pub trail_activation_r : numbers.Num
    pub trail_distance_r : numbers.Num
    pub trail_removes_target : Bool
    pub cost_fraction : numbers.Num

  -- `pos`: a missing, non-finite or negative knob is off.
  abbrev knob : Option numbers.Num → numbers.Num
  knob none = numbers.zero
  knob (some v) = if numbers.is_finite v && numbers.less numbers.zero v then v else numbers.zero

  abbrev pub is_on : numbers.Num → Bool
  is_on v = numbers.less numbers.zero v

  -- `resolveTrailingConfig`
  unfoldable pub resolve_trailing_config : Knobs → Option Trailing
  unfolding round_trip_cost_fraction
  resolve_trailing_config knobs =
      let break_even = knob knobs.break_even_trigger_r in
      let activation = knob knobs.trail_activation_r in
      let distance = knob knobs.trail_distance_r in
      let trailing_on = is_on activation && is_on distance in
      if not (is_on break_even) && not trailing_on
      then none
      else some (record {
        break_even_trigger_r = break_even;
        trail_activation_r = if trailing_on then activation else numbers.zero;
        trail_distance_r = if trailing_on then distance else numbers.zero;
        trail_removes_target = trailing_on && knobs.trail_removes_target;
        cost_fraction = round_trip_cost_fraction numbers knobs.trade_cost_bps;
      })

  -- `better` of `ratchetedStop`
  abbrev pub more_protective : Direction → numbers.Num → numbers.Num → Bool
  more_protective long a b = numbers.less b a
  more_protective short a b = numbers.less a b

  -- A price away from another by a fraction, towards a worse or a better one.
  abbrev pub worse_by : Direction → numbers.Num → numbers.Num → numbers.Num
  worse_by long price f = numbers.times price (numbers.minus numbers.one f)
  worse_by short price f = numbers.times price (numbers.plus numbers.one f)

  abbrev pub better_by : Direction → numbers.Num → numbers.Num → numbers.Num
  better_by long price f = numbers.times price (numbers.plus numbers.one f)
  better_by short price f = numbers.times price (numbers.minus numbers.one f)

  -- A rule's level takes the place of a level that it protects better than.
  abbrev pub tighten :
      Direction → Bool → numbers.Num × Reason → numbers.Num × Reason → numbers.Num × Reason
  tighten direction active (candidate, why) (level, reason) =
      if active && more_protective direction candidate level
      then (candidate, why)
      else (level, reason)

  -- `Number.isFinite(peakPrice) && peakPrice > 0 ? peakPrice : entryPrice`
  abbrev pub peak_or : numbers.Num → Option numbers.Num → numbers.Num
  peak_or entry none = entry
  peak_or entry (some peak) =
      if numbers.is_finite peak && numbers.less numbers.zero peak then peak else entry

  abbrev pub ratchet :
      Direction → numbers.Num → numbers.Num → numbers.Num → Trailing → numbers.Num × Reason
  ratchet direction entry r peak trailing =
      let favorable = gross_return numbers direction entry peak in
      tighten direction
        (is_on trailing.trail_distance_r
          && numbers.at_most (numbers.times trailing.trail_activation_r r) favorable)
        (worse_by direction peak (numbers.times trailing.trail_distance_r r), trailing_stop)
        (tighten direction
          (is_on trailing.break_even_trigger_r
            && numbers.at_most (numbers.times trailing.break_even_trigger_r r) favorable)
          (better_by direction entry trailing.cost_fraction, breakeven_stop)
          (worse_by direction entry r, stop_loss))

  -- `ratchetedStop`, with trailing on and a direction
  unfoldable pub ratcheted_stop :
      Direction
      → numbers.Num
      → Option numbers.Num
      → Option numbers.Num
      → Trailing
      → Option (numbers.Num × Reason)
  ratcheted_stop direction entry none peak trailing = none
  ratcheted_stop direction entry (some r) peak trailing =
      if not (numbers.is_finite entry) || numbers.at_most entry numbers.zero
      then none
      else if not (numbers.is_finite r) || numbers.at_most r numbers.zero
      then none
      else some (ratchet direction entry r (peak_or entry peak) trailing)

  abbrev better_of : Direction → numbers.Num → numbers.Num → numbers.Num
  better_of long a b = higher numbers a b
  better_of short a b = lower numbers a b

  abbrev better_usable : Direction → Option numbers.Num → Option numbers.Num → Option numbers.Num
  better_usable direction none b = b
  better_usable direction (some a) none = some a
  better_usable direction (some a) (some b) = some (better_of direction a b)

  -- `betterPeak`
  unfoldable pub better_peak :
      Direction → Option numbers.Num → Option numbers.Num → Option numbers.Num
  better_peak direction a b = better_usable direction (usable numbers a) (usable numbers b)
