-- ===== src/Exit/Decided.antt =====
-- src/agents/risk_mgmt/exit_bars.js: the bar that decides a walk without trailing.
use mathlib.Core.Path.{subst}
use news_market_ai.Common.{
  ◌+◌, ◌≡◌, sym, refl, Bool, true, false, not, ◌&&◌, ◌||◌, Option, none, some, List, [], ◌∷◌,
  if◌then◌else◌, arith,
}
use news_market_ai.Exit.Numbers.{Numbers, Direction, Split}
use news_market_ai.Exit.Trailing.{stop_loss}
use news_market_ai.Exit.Bars.{
  Bar, Position, Options, Extremes, Counted, Outcome, no_exit, exits, split_at, is_finite_bar,
}
use news_market_ai.Exit.Walk.{
  Levels, Step, next, done, levels_at, count_bar, touches_stop, touches_target, hits_stop,
  stop_exit, target_exit, at_target, at_levels, split_of, unless_split, step_bar, after_step,
  walk_bars,
}

module _ (numbers : Numbers) where
  abbrev pub is_some : Option (Split numbers) → Bool
  is_some none = false
  is_some (some split) = true

  -- The bars that decide a walk without trailing: valid ones that suggest a split or touch a level.
  abbrev pub decides :
      Direction
      → Position numbers
      → Options numbers
      → Option numbers.Num
      → Option numbers.Num
      → Bar numbers
      → Bool
  decides direction position options stop target bar =
      is_finite_bar numbers bar
      && (is_some (split_of numbers position.entry_price options.split_guard_tolerance bar)
          || (touches_stop numbers direction bar stop
              || touches_target numbers direction bar target))

  abbrev pub find : (Bar numbers → Bool) → List (Bar numbers) → Option (Bar numbers)
  find p [] = none
  find p (bar ∷ bars) = let rest = find p bars in if p bar then some bar else rest

  abbrev pub deciding_bar : Outcome numbers → Option (Bar numbers)
  deciding_bar no_exit = none
  deciding_bar (exits e) = some e.bar
  deciding_bar (split_at split bar) = some bar

  abbrev Decided : Bool → Bar numbers → Step numbers → Type 0
  Decided found bar (next c) = found ≡ false
  Decided found bar (done outcome c) = (found ≡ true) × (deciding_bar outcome ≡ some bar)

  Decided-cast :
      (f g : Bool) (bar : Bar numbers) (step : Step numbers)
      → f ≡ g
      → Decided f bar step
      → Decided g bar step
  Decided-cast f g bar step e h = subst (λ b. Decided b bar step) e h

  if-Decided :
      (b f : Bool) (bar : Bar numbers) (p q : Step numbers)
      → (b ≡ true → Decided f bar p)
      → (b ≡ false → Decided f bar q)
      → Decided f bar (if b then p else q)
  if-Decided true f bar p q h k = h refl
  if-Decided false f bar p q h k = k refl

  abbrev static_levels : Option numbers.Num → Option numbers.Num → Levels numbers
  static_levels stop target = record { stop = stop; stop_reason = stop_loss; target = target }

  module _ (direction : Direction) (entry : numbers.Num) (nearest : Bool) where
    at_target-Decided :
        (bar : Bar numbers) (levels : Levels numbers) (target before : Option numbers.Num)
        (c : Counted numbers)
        → Decided
            (touches_target numbers direction bar target)
            bar
            (at_target numbers direction entry bar levels target before c)
    at_target-Decided bar levels none before c = refl
    at_target-Decided bar levels (some target) before c =
        let t = touches_target numbers direction bar (some target) in
        if-Decided t t bar (target_exit numbers direction entry bar levels target before c) (next c)
          (λ h. (h, refl)) (λ h. h)

    -- A stop that was touched and does not hit gives way to a target that was touched.
    no_hit-target :
        (bar : Bar numbers) (stop : numbers.Num) (target : Option numbers.Num)
        → hits_stop numbers direction nearest bar (static_levels (some stop) target) ≡ false
        → touches_target numbers direction bar target ≡ (
            touches_stop numbers direction bar (some stop)
            || touches_target numbers direction bar target)
    unfolding hits_stop
    no_hit-target bar stop target h = ground arith

    hit-touched :
        (bar : Bar numbers) (stop : numbers.Num) (target : Option numbers.Num)
        → hits_stop numbers direction nearest bar (static_levels (some stop) target) ≡ true
        → (touches_stop numbers direction bar (some stop)
            || touches_target numbers direction bar target)
          ≡ true
    unfolding hits_stop
    hit-touched bar stop target h = ground arith

    at_levels-Decided :
        (bar : Bar numbers) (stop target : Option numbers.Num) (before : Extremes numbers)
        (c : Counted numbers)
        → Decided
            (touches_stop numbers direction bar stop || touches_target numbers direction bar target)
            bar
            (at_levels numbers direction entry nearest bar
              (static_levels stop target)
              stop
              before
              c)
    at_levels-Decided bar none target before c =
        at_target-Decided bar (static_levels none target) target before.mfe_pct c
    at_levels-Decided bar (some stop) target before c =
        let levels = static_levels (some stop) target in
        let f =
          touches_stop numbers direction bar (some stop)
          || touches_target numbers direction bar target in
        if-Decided (hits_stop numbers direction nearest bar levels) f bar
          (stop_exit numbers direction entry bar levels stop before.mae_pct c)
          (at_target numbers direction entry bar levels target before.mfe_pct c)
          (λ h. (hit-touched bar stop target h, refl))
          (λ h.
            Decided-cast (touches_target numbers direction bar target) f bar
              (at_target numbers direction entry bar levels target before.mfe_pct c)
              (no_hit-target bar stop target h)
              (at_target-Decided bar levels target before.mfe_pct c))

  unless_split-Decided :
      (split : Option (Split numbers)) (f : Bool) (bar : Bar numbers) (c : Counted numbers)
      (step : Step numbers)
      → Decided f bar step
      → Decided (is_some split || f) bar (unless_split numbers split bar c step)
  unless_split-Decided none f bar c step h = h
  unless_split-Decided (some split) f bar c step h = (refl, refl)

  module _ (direction : Direction) (position : Position numbers) (options : Options numbers)
      (static : options.trailing ≡ none) (stop target : Option numbers.Num) where
    levels_at-static :
        (peak : Option numbers.Num)
        → levels_at numbers direction position options.trailing peak stop target
          ≡ static_levels stop target
    unfolding levels_at
    levels_at-static peak = rw static refl

    step_bar-Decided :
        (bar : Bar numbers) (c : Counted numbers)
        → Decided
            (decides direction position options stop target bar)
            bar
            (step_bar numbers direction position options stop target bar c)
    unfolding step_bar
    step_bar-Decided bar c =
        let levels = levels_at numbers direction position options.trailing c.peak stop target in
        let counted = count_bar numbers direction position options.trailing bar c in
        let step = λ (l : Levels numbers).
          at_levels numbers direction position.entry_price options.nearest_open bar l l.stop
            c.extremes counted in
        let split = split_of numbers position.entry_price options.split_guard_tolerance bar in
        let touched =
          touches_stop numbers direction bar stop || touches_target numbers direction bar target in
        let decided = is_finite_bar numbers bar && (is_some split || touched) in
        let at =
          subst (λ l. Decided touched bar (step l)) (sym (levels_at-static c.peak))
            (at_levels-Decided direction position.entry_price options.nearest_open bar stop target
              c.extremes counted) in
        if-Decided (not (is_finite_bar numbers bar)) decided bar
          (next (record c {
            last_bar_available_at = some bar.available_at;
            bars_walked = c.bars_walked + 1;
            invalid_bars = c.invalid_bars + 1;
          }))
          (unless_split numbers split bar c (step levels)) (λ h. ground arith)
          (λ h.
            Decided-cast (is_some split || touched) decided bar
              (unless_split numbers split bar c (step levels)) (ground arith)
              (unless_split-Decided split touched bar c (step levels) at))

    after_step-find :
        (bar : Bar numbers) (bars : List (Bar numbers)) (step : Step numbers)
        (rest : Counted numbers → Outcome numbers × Counted numbers)
        → Decided (decides direction position options stop target bar) bar step
        → ((c : Counted numbers)
            → deciding_bar (rest c).0 ≡ find (decides direction position options stop target) bars)
        → deciding_bar (after_step numbers step rest).0
          ≡ find (decides direction position options stop target) (bar ∷ bars)
    after_step-find bar bars (next c) rest h k = rw h (k c)
    after_step-find bar bars (done outcome c) rest h k = rw h.0 h.1

    -- Without trailing the walk is decided by the first bar that is valid and suggests a split or touches
    -- the stop or the target, whatever else the bars are; with no such bar it has no exit.
    pub walk_bars-first :
        (bars : List (Bar numbers)) (c : Counted numbers)
        → deciding_bar (walk_bars numbers direction position options stop target bars c).0
          ≡ find (decides direction position options stop target) bars
    unfolding walk_bars
    walk_bars-first [] c = refl
    walk_bars-first (bar ∷ bars) c =
        after_step-find bar bars (step_bar numbers direction position options stop target bar c)
          (λ c'. walk_bars numbers direction position options stop target bars c')
          (step_bar-Decided bar c) (λ c'. walk_bars-first bars c')
