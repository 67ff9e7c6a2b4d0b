-- ===== src/Exit/Fill.antt =====
-- src/agents/risk_mgmt/exit_bars.js and trailing.js: the fill of an exit, and the ratchet.
use mathlib.Core.Path.{subst}
use news_market_ai.Common.{
  ◌+◌, ◌≡◌, refl, Bool, true, false, not, Option, none, some, List, [], ◌∷◌, if◌then◌else◌, arith,
  inl, inr, Bool-cases,
}
use news_market_ai.Exit.Numbers.{Numbers, Direction, long, short, lower, higher, Split}
use news_market_ai.Exit.Bars.{
  Bar, Position, Options, Exit, Extremes, Counted, Outcome, no_exit, exits, split_at, is_finite_bar,
  worse_of, best_of,
}
use news_market_ai.Exit.Walk.{
  Levels, Step, next, done, levels_at, count_bar, touches_stop, touches_target, hits_stop,
  stop_exit, target_exit, at_target, at_levels, split_of, unless_split, step_bar, after_step,
  walk_bars,
}

module _ (numbers : Numbers)
    (less_at_most : (a b : numbers.Num) → numbers.less a b ≡ true → numbers.at_most a b ≡ true)
    (at_most_trans : (a b c : numbers.Num)
      → numbers.at_most a b ≡ true
      → numbers.at_most b c ≡ true
      → numbers.at_most a c ≡ true) where
  -- A price in a bar's range.
  abbrev pub InRange : Bar numbers → numbers.Num → Type 0
  InRange bar price =
      (numbers.at_most bar.low price ≡ true) × (numbers.at_most price bar.high ≡ true)

  lower-InRange :
      (bar : Bar numbers) (stop : numbers.Num)
      → InRange bar bar.open_price
      → numbers.at_most bar.low stop ≡ true
      → InRange bar (lower numbers bar.open_price stop)
  lower-InRange bar stop h t = elim (Bool-cases (numbers.less stop bar.open_price)) [
    | inl b ↦
        rw b
          (t, at_most_trans stop bar.open_price bar.high (less_at_most stop bar.open_price b) h.1)
    | inr b ↦ rw b h
  ]

  higher-InRange :
      (bar : Bar numbers) (stop : numbers.Num)
      → InRange bar bar.open_price
      → numbers.at_most stop bar.high ≡ true
      → InRange bar (higher numbers bar.open_price stop)
  higher-InRange bar stop h t = elim (Bool-cases (numbers.less bar.open_price stop)) [
    | inl b ↦
        rw b (at_most_trans bar.low bar.open_price stop h.0 (less_at_most bar.open_price stop b), t)
    | inr b ↦ rw b h
  ]

  stop-InRange :
      (direction : Direction) (bar : Bar numbers) (stop : numbers.Num)
      → InRange bar bar.open_price
      → touches_stop numbers direction bar (some stop) ≡ true
      → InRange bar (worse_of numbers direction bar.open_price stop)
  stop-InRange long bar stop h t = lower-InRange bar stop h t
  stop-InRange short bar stop h t = higher-InRange bar stop h t

  target-InRange :
      (direction : Direction) (bar : Bar numbers) (target : numbers.Num)
      → InRange bar bar.open_price
      → touches_target numbers direction bar (some target) ≡ true
      → InRange bar (best_of numbers direction bar.open_price target)
  target-InRange long bar target h t = higher-InRange bar target h t
  target-InRange short bar target h t = lower-InRange bar target h t

  abbrev FillsInRange : Outcome numbers → Type 0
  FillsInRange no_exit = Unit
  FillsInRange (exits e) = InRange e.bar e.bar.open_price → InRange e.bar e.exit_price
  FillsInRange (split_at split bar) = Unit

  abbrev StepFills : Step numbers → Type 0
  StepFills (next c) = Unit
  StepFills (done outcome c) = FillsInRange outcome

  if-StepFills :
      (b : Bool) (p q : Step numbers)
      → (b ≡ true → StepFills p)
      → StepFills q
      → StepFills (if b then p else q)
  if-StepFills true p q h k = h refl
  if-StepFills false p q h k = k

  at_target-StepFills :
      (direction : Direction) (entry : numbers.Num) (bar : Bar numbers) (levels : Levels numbers)
      (target before : Option numbers.Num) (c : Counted numbers)
      → StepFills (at_target numbers direction entry bar levels target before c)
  at_target-StepFills direction entry bar levels none before c = tt
  at_target-StepFills direction entry bar levels (some target) before c =
      if-StepFills (touches_target numbers direction bar (some target))
        (target_exit numbers direction entry bar levels target before c) (next c)
        (λ t h. target-InRange direction bar target h t) tt

  hits-touches :
      (direction : Direction) (nearest : Bool) (bar : Bar numbers) (levels : Levels numbers)
      → hits_stop numbers direction nearest bar levels ≡ true
      → touches_stop numbers direction bar levels.stop ≡ true
  unfolding hits_stop
  hits-touches direction nearest bar levels h = ground arith

  at_levels-StepFills :
      (direction : Direction) (entry : numbers.Num) (nearest : Bool) (bar : Bar numbers)
      (levels : Levels numbers) (stop : Option numbers.Num) (before : Extremes numbers)
      (c : Counted numbers)
      → levels.stop ≡ stop
      → StepFills (at_levels numbers direction entry nearest bar levels stop before c)
  at_levels-StepFills direction entry nearest bar levels none before c e =
      at_target-StepFills direction entry bar levels levels.target before.mfe_pct c
  at_levels-StepFills direction entry nearest bar levels (some stop) before c e =
      if-StepFills (hits_stop numbers direction nearest bar levels)
        (stop_exit numbers direction entry bar levels stop before.mae_pct c)
        (at_target numbers direction entry bar levels levels.target before.mfe_pct c)
        (λ t h. stop-InRange direction bar stop h (
          subst (λ s. touches_stop numbers direction bar s ≡ true) e
            (hits-touches direction nearest bar levels t)))
        (at_target-StepFills direction entry bar levels levels.target before.mfe_pct c)

  unless_split-StepFills :
      (split : Option (Split numbers)) (bar : Bar numbers) (c : Counted numbers)
      (step : Step numbers)
      → StepFills step
      → StepFills (unless_split numbers split bar c step)
  unless_split-StepFills none bar c step h = h
  unless_split-StepFills (some split) bar c step h = tt

  step_bar-StepFills :
      (direction : Direction) (position : Position numbers) (options : Options numbers)
      (stop target : Option numbers.Num) (bar : Bar numbers) (c : Counted numbers)
      → StepFills (step_bar numbers direction position options stop target bar c)
  unfolding step_bar
  step_bar-StepFills direction position options stop target bar c =
      let levels = levels_at numbers direction position options.trailing c.peak stop target in
      let counted = count_bar numbers direction position options.trailing bar c in
      let step =
        at_levels numbers direction position.entry_price options.nearest_open bar levels levels.stop
          c.extremes counted in
      let split = split_of numbers position.entry_price options.split_guard_tolerance bar in
      if-StepFills (not (is_finite_bar numbers bar))
        (next (record c {
          last_bar_available_at = some bar.available_at;
          bars_walked = c.bars_walked + 1;
          invalid_bars = c.invalid_bars + 1;
        }))
        (unless_split numbers split bar c step) (λ h. tt)
        (unless_split-StepFills split bar c step (
          at_levels-StepFills direction position.entry_price options.nearest_open bar levels
            levels.stop c.extremes counted refl))

  after_step-FillsInRange :
      (step : Step numbers) (rest : Counted numbers → Outcome numbers × Counted numbers)
      → StepFills step
      → ((c : Counted numbers) → FillsInRange (rest c).0)
      → FillsInRange (after_step numbers step rest).0
  after_step-FillsInRange (next c) rest h k = k c
  after_step-FillsInRange (done outcome c) rest h k = h

  walk_bars-FillsInRange :
      (direction : Direction) (position : Position numbers) (options : Options numbers)
      (stop target : Option numbers.Num) (bars : List (Bar numbers)) (c : Counted numbers)
      → FillsInRange (walk_bars numbers direction position options stop target bars c).0
  unfolding walk_bars
  walk_bars-FillsInRange direction position options stop target [] c = tt
  walk_bars-FillsInRange direction position options stop target (bar ∷ bars) c =
      after_step-FillsInRange (step_bar numbers direction position options stop target bar c)
        (λ c'. walk_bars numbers direction position options stop target bars c')
        (step_bar-StepFills direction position options stop target bar c)
        (λ c'. walk_bars-FillsInRange direction position options stop target bars c')

  -- An exit never fills at a price that its bar did not trade at: if the bar opened within its own low and
  -- high, the fill lies there too, for a stop and a target, a long and a short, with trailing or not.
  -- Of the order of prices this takes that less implies at most, and that at most is transitive.
  pub walk_bars-exit_price :
      (direction : Direction) (position : Position numbers) (options : Options numbers)
      (stop target : Option numbers.Num) (bars : List (Bar numbers)) (c c' : Counted numbers)
      (e : Exit numbers)
      → walk_bars numbers direction position options stop target bars c ≡ (exits e, c')
      → InRange e.bar e.bar.open_price
      → InRange e.bar e.exit_price
  walk_bars-exit_price direction position options stop target bars c c' e h r =
      subst (λ w. FillsInRange w.0) h
        (walk_bars-FillsInRange direction position options stop target bars c) r
