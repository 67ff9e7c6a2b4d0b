-- ===== src/Exit/Walk.antt =====
-- src/agents/risk_mgmt/exit_bars.js: `walkBarsForExit`.
use news_market_ai.Common.{
  ◌+◌, Bool, true, false, not, ◌&&◌, Option, none, some, List, [], ◌∷◌, if◌then◌else◌,
}
use news_market_ai.Exit.Numbers.{
  Numbers, Direction, lower, higher, gross_return, Split, detect_split_jump,
}
use news_market_ai.Exit.Trailing.{
  Reason, stop_loss, take_profit, time_based, breakeven_stop, trailing_stop, Trailing,
  ratcheted_stop, better_peak,
}
use news_market_ai.Exit.Bars.{
  Bar, Position, Options, Extremes, Counted, Outcome, no_exit, exits, split_at, is_finite_bar,
  at_or_worse, at_or_better, adverse_price, favorable_price, worse_of, best_of, is_past_stop,
  is_past_target, target_resolves_first, exit_levels,
}

module _ (numbers : Numbers) where
  -- A bar's levels: the stop, the reason it gives, and the target.
  pub record Levels : Type 0 where
    pub stop : Option numbers.Num
    pub stop_reason : Reason
    pub target : Option numbers.Num

  pub data Step : Type 0 where
    next : Counted numbers → Step
    done : Outcome numbers → Counted numbers → Step

  abbrev is_trailing_stop : Reason → Bool
  is_trailing_stop trailing_stop = true
  is_trailing_stop stop_loss = false
  is_trailing_stop take_profit = false
  is_trailing_stop time_based = false
  is_trailing_stop breakeven_stop = false

  -- The levels by the ratchet's rule, and the static ones without it.
  abbrev pub with_rule :
      Option (numbers.Num × Reason) → Bool → Option numbers.Num → Option numbers.Num → Levels
  with_rule none removes stop target = record {
    stop = stop;
    stop_reason = stop_loss;
    target = target;
  }
  with_rule (some (level, why)) removes stop target = record {
    stop = some level;
    stop_reason = why;
    target = if removes && is_trailing_stop why then none else target;
  }

  -- The levels for a bar, from the peak through the bar before it.
  unfoldable pub levels_at :
      Direction
      → Position numbers
      → Option (Trailing numbers)
      → Option numbers.Num
      → Option numbers.Num
      → Option numbers.Num
      → Levels
  levels_at direction position none peak stop target = with_rule none false stop target
  levels_at direction position (some trailing) peak stop target =
      with_rule
        (ratcheted_stop numbers direction position.entry_price position.stop_loss_pct peak trailing)
        trailing.trail_removes_target stop target

  abbrev lowest : Option numbers.Num → numbers.Num → numbers.Num
  lowest none a = a
  lowest (some m) a = lower numbers m a

  abbrev highest : Option numbers.Num → numbers.Num → numbers.Num
  highest none a = a
  highest (some m) a = higher numbers m a

  abbrev or_zero : Option numbers.Num → numbers.Num
  or_zero none = numbers.zero
  or_zero (some a) = a

  abbrev next_peak :
      Direction
      → numbers.Num
      → Option (Trailing numbers)
      → numbers.Num
      → Option numbers.Num
      → Option numbers.Num
  next_peak direction entry none favorable peak = peak
  next_peak direction entry (some trailing) favorable peak =
      better_peak numbers direction (better_peak numbers direction peak (some favorable))
        (some entry)

  -- The counters once a valid bar was evaluated.
  unfoldable pub count_bar :
      Direction
      → Position numbers
      → Option (Trailing numbers)
      → Bar numbers
      → Counted numbers
      → Counted numbers
  count_bar direction position trailing bar c = record {
    extremes = record {
      mae_pct = some (
          lowest c.extremes.mae_pct (
            gross_return numbers direction position.entry_price
              (adverse_price numbers direction bar)));
      mfe_pct = some (
          highest c.extremes.mfe_pct (
            gross_return numbers direction position.entry_price
              (favorable_price numbers direction bar)));
    };
    last_bar_available_at = some bar.available_at;
    last_close = some bar.close;
    bars_walked = c.bars_walked + 1;
    invalid_bars = c.invalid_bars;
    peak =
        next_peak direction position.entry_price trailing (favorable_price numbers direction bar)
          c.peak;
  }

  abbrev pub touches_stop : Direction → Bar numbers → Option numbers.Num → Bool
  touches_stop direction bar none = false
  touches_stop direction bar (some level) =
      at_or_worse numbers direction (adverse_price numbers direction bar) level

  abbrev pub touches_target : Direction → Bar numbers → Option numbers.Num → Bool
  touches_target direction bar none = false
  touches_target direction bar (some level) =
      at_or_better numbers direction (favorable_price numbers direction bar) level

  -- A daily bar that touched both levels.
  abbrev pub is_ambiguous : Direction → Bar numbers → Levels → Bool
  is_ambiguous direction bar levels =
      touches_stop direction bar levels.stop
      && (touches_target direction bar levels.target && bar.is_daily)

  abbrev target_first : Direction → Bar numbers → Option numbers.Num → Option numbers.Num → Bool
  target_first direction bar none target = false
  target_first direction bar (some stop) none = false
  target_first direction bar (some stop) (some target) =
      target_resolves_first numbers direction bar.open_price stop target

  unfoldable pub hits_stop : Direction → Bool → Bar numbers → Levels → Bool
  hits_stop direction nearest bar levels =
      touches_stop direction bar levels.stop
      && not (
          is_ambiguous direction bar levels
          && (nearest && target_first direction bar levels.stop levels.target))

  -- The exit at a stop that was touched, with MAE no worse than the fill.
  abbrev pub stop_exit :
      Direction
      → numbers.Num
      → Bar numbers
      → Levels
      → numbers.Num
      → Option numbers.Num
      → Counted numbers
      → Step
  stop_exit direction entry bar levels stop before c =
      let fill = worse_of numbers direction bar.open_price stop in
      done
        (exits (record {
          reason = levels.stop_reason;
          exit_price = fill;
          closed_at = bar.available_at;
          gapped = is_past_stop numbers direction bar.open_price stop;
          bar = bar;
          ambiguous = is_ambiguous direction bar levels;
        }))
        (record c {
          extremes = record {
            mae_pct =
                some (lower numbers (or_zero before) (gross_return numbers direction entry fill));
            mfe_pct = c.extremes.mfe_pct;
          };
        })

  -- The exit at a target that was touched, with MFE no better than the fill.
  abbrev pub target_exit :
      Direction
      → numbers.Num
      → Bar numbers
      → Levels
      → numbers.Num
      → Option numbers.Num
      → Counted numbers
      → Step
  target_exit direction entry bar levels target before c =
      let fill = best_of numbers direction bar.open_price target in
      done
        (exits (record {
          reason = take_profit;
          exit_price = fill;
          closed_at = bar.available_at;
          gapped = is_past_target numbers direction bar.open_price target;
          bar = bar;
          ambiguous = is_ambiguous direction bar levels;
        }))
        (record c {
          extremes = record {
            mae_pct = c.extremes.mae_pct;
            mfe_pct =
                some (higher numbers (or_zero before) (gross_return numbers direction entry fill));
          };
        })

  abbrev pub at_target :
      Direction
      → numbers.Num
      → Bar numbers
      → Levels
      → Option numbers.Num
      → Option numbers.Num
      → Counted numbers
      → Step
  at_target direction entry bar levels none before c = next c
  at_target direction entry bar levels (some target) before c =
      if touches_target direction bar (some target)
      then target_exit direction entry bar levels target before c
      else next c

  abbrev pub at_levels :
      Direction
      → numbers.Num
      → Bool
      → Bar numbers
      → Levels
      → Option numbers.Num
      → Extremes numbers
      → Counted numbers
      → Step
  at_levels direction entry nearest bar levels none before c =
      at_target direction entry bar levels levels.target before.mfe_pct c
  at_levels direction entry nearest bar levels (some stop) before c =
      if hits_stop direction nearest bar levels
      then stop_exit direction entry bar levels stop before.mae_pct c
      else at_target direction entry bar levels levels.target before.mfe_pct c

  abbrev or_else {ℓ} : {A : Type ℓ} → Option A → Option A → Option A
  or_else none b = b
  or_else (some a) b = some a

  -- The split that a bar's open or close suggests.
  abbrev pub split_of : numbers.Num → numbers.Num → Bar numbers → Option (Split numbers)
  split_of entry tolerance bar =
      or_else (detect_split_jump numbers entry bar.open_price tolerance)
        (detect_split_jump numbers entry bar.close tolerance)

  abbrev pub unless_split : Option (Split numbers) → Bar numbers → Counted numbers → Step → Step
  unless_split none bar c step = step
  unless_split (some split) bar c step = done (split_at split bar) c

  -- The body of the loop.
  unfoldable pub step_bar :
      Direction
      → Position numbers
      → Options numbers
      → Option numbers.Num
      → Option numbers.Num
      → Bar numbers
      → Counted numbers
      → Step
  unfolding levels_at count_bar hits_stop
  step_bar direction position options stop target bar c =
      let levels = levels_at direction position options.trailing c.peak stop target in
      let counted = count_bar direction position options.trailing bar c in
      if not (is_finite_bar numbers bar)
      then next (record c {
        last_bar_available_at = some bar.available_at;
        bars_walked = c.bars_walked + 1;
        invalid_bars = c.invalid_bars + 1;
      })
      else unless_split (split_of position.entry_price options.split_guard_tolerance bar) bar c (
          at_levels direction position.entry_price options.nearest_open bar levels levels.stop
            c.extremes counted)

  abbrev pub after_step :
      Step
      → (Counted numbers → Outcome numbers × Counted numbers)
      → Outcome numbers × Counted numbers
  after_step (next c) rest = rest c
  after_step (done outcome c) rest = (outcome, c)

  unfoldable pub walk_bars :
      Direction
      → Position numbers
      → Options numbers
      → Option numbers.Num
      → Option numbers.Num
      → List (Bar numbers)
      → Counted numbers
      → Outcome numbers × Counted numbers
  unfolding step_bar
  walk_bars direction position options stop target [] c = (no_exit, c)
  walk_bars direction position options stop target (bar ∷ bars) c =
      after_step (step_bar direction position options stop target bar c)
        (λ c'. walk_bars direction position options stop target bars c')

  abbrev pub first_counted : Option numbers.Num → Counted numbers
  first_counted peak = record {
    extremes = record { mae_pct = none; mfe_pct = none };
    last_bar_available_at = none;
    last_close = none;
    bars_walked = 0;
    invalid_bars = 0;
    peak = peak;
  }

  abbrev pub positive_peak : Option (Trailing numbers) → Option numbers.Num → Option numbers.Num
  positive_peak none peak = none
  positive_peak (some trailing) none = none
  positive_peak (some trailing) (some peak) =
      if numbers.is_finite peak && numbers.less numbers.zero peak then some peak else none

  abbrev pub with_levels :
      Direction
      → Position numbers
      → Options numbers
      → List (Bar numbers)
      → Option (Option numbers.Num × Option numbers.Num)
      → Outcome numbers × Counted numbers
  with_levels direction position options bars none = (no_exit, first_counted none)
  with_levels direction position options bars (some (stop, target)) =
      walk_bars direction position options stop target bars
        (first_counted (positive_peak options.trailing position.peak_price))

  abbrev pub with_direction :
      Option Direction
      → Position numbers
      → Options numbers
      → List (Bar numbers)
      → Outcome numbers × Counted numbers
  with_direction none position options bars = (no_exit, first_counted none)
  with_direction (some direction) position options [] = (no_exit, first_counted none)
  with_direction (some direction) position options (bar ∷ bars) =
      with_levels direction position options (bar ∷ bars) (exit_levels numbers direction position)

  -- `walkBarsForExit`
  unfoldable pub walk_bars_for_exit :
      Position numbers → Options numbers → List (Bar numbers) → Outcome numbers × Counted numbers
  walk_bars_for_exit position options bars = with_direction position.direction position options bars
