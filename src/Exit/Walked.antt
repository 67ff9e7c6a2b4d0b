-- ===== src/Exit/Walked.antt =====
-- src/agents/risk_mgmt/exit_bars.js: which bars the walk evaluates, and where it ends.
use news_market_ai.Common.{
  ℕ, ◌+◌, ◌≡◌, ◌∙◌, sym, refl, ap, Bool, true, false, not, Option, none, some, List, [], ◌∷◌, ◌++◌,
  length, if◌then◌else◌, arith,
}
use news_market_ai.Exit.Numbers.{Numbers, Direction, Split}
use news_market_ai.Exit.Bars.{
  Bar, Position, Options, Extremes, Counted, Outcome, no_exit, exits, split_at, is_finite_bar,
}
use news_market_ai.Exit.Walk.{
  Levels, Step, next, done, levels_at, count_bar, touches_target, hits_stop, stop_exit, target_exit,
  at_target, at_levels, split_of, unless_split, step_bar, after_step, walk_bars,
}

module _ (numbers : Numbers) where
  -- The instant at which the last of some bars closed.
  abbrev pub last_available : List (Bar numbers) → Option ℕ → Option ℕ
  last_available [] before = before
  last_available (bar ∷ bars) before = last_available bars (some bar.available_at)

  -- Where a walk ends: after every bar, on the last bar it evaluated, or before a bar it distrusts.
  abbrev pub EndsAt : Outcome numbers → List (Bar numbers) → List (Bar numbers) → Type 0
  EndsAt no_exit walked rest = rest ≡ []
  EndsAt (exits e) walked rest =
      (before : List (Bar numbers)) × (walked ≡ before ++ (e.bar ∷ []))
      × (e.closed_at ≡ e.bar.available_at)
  EndsAt (split_at split bar) walked rest = (after : List (Bar numbers)) × (rest ≡ bar ∷ after)

  abbrev pub WalkedSpec :
      List (Bar numbers) → Counted numbers → Outcome numbers × Counted numbers → Type 0
  WalkedSpec bars c (outcome, c') =
      (walked : List (Bar numbers)) × (rest : List (Bar numbers)) × (bars ≡ walked ++ rest)
      × (c'.bars_walked ≡ c.bars_walked + length walked)
      × (c'.last_bar_available_at ≡ last_available walked c.last_bar_available_at)
      × EndsAt outcome walked rest

  abbrev Counts : Bar numbers → Counted numbers → Counted numbers → Type 0
  Counts bar c c' =
      (c'.bars_walked ≡ c.bars_walked + 1) × (c'.last_bar_available_at ≡ some bar.available_at)

  -- What one bar adds.
  abbrev StepSpec : Bar numbers → Counted numbers → Step numbers → Type 0
  StepSpec bar c (next c') = Counts bar c c'
  StepSpec bar c (done no_exit c') = ⊥
  StepSpec bar c (done (exits e) c') =
      Counts bar c c' × (e.bar ≡ bar) × (e.closed_at ≡ bar.available_at)
  StepSpec bar c (done (split_at split b) c') = (b ≡ bar) × (c' ≡ c)

  if-StepSpec :
      (b : Bool) (bar : Bar numbers) (c : Counted numbers) (p q : Step numbers)
      → StepSpec bar c p
      → StepSpec bar c q
      → StepSpec bar c (if b then p else q)
  if-StepSpec true bar c p q h k = h
  if-StepSpec false bar c p q h k = k

  module _ (direction : Direction) (position : Position numbers) (options : Options numbers) where
    at_target-StepSpec :
        (bar : Bar numbers) (levels : Levels numbers) (target before : Option numbers.Num)
        (c c' : Counted numbers)
        → Counts bar c c'
        → StepSpec bar c
            (at_target numbers direction position.entry_price bar levels target before c')
    at_target-StepSpec bar levels none before c c' h = h
    at_target-StepSpec bar levels (some target) before c c' h =
        if-StepSpec (touches_target numbers direction bar (some target)) bar c
          (target_exit numbers direction position.entry_price bar levels target before c') (next c')
          (h, refl, refl) h

    at_levels-StepSpec :
        (bar : Bar numbers) (levels : Levels numbers) (stop : Option numbers.Num)
        (before : Extremes numbers) (c c' : Counted numbers)
        → Counts bar c c'
        → StepSpec bar c (
            at_levels numbers direction position.entry_price options.nearest_open bar levels stop
              before c')
    at_levels-StepSpec bar levels none before c c' h =
        at_target-StepSpec bar levels levels.target before.mfe_pct c c' h
    at_levels-StepSpec bar levels (some stop) before c c' h =
        if-StepSpec (hits_stop numbers direction options.nearest_open bar levels) bar c
          (stop_exit numbers direction position.entry_price bar levels stop before.mae_pct c')
          (at_target numbers direction position.entry_price bar levels levels.target before.mfe_pct
            c')
          (h, refl, refl) (at_target-StepSpec bar levels levels.target before.mfe_pct c c' h)

    unless_split-StepSpec :
        (split : Option (Split numbers)) (bar : Bar numbers) (c : Counted numbers)
        (step : Step numbers)
        → StepSpec bar c step
        → StepSpec bar c (unless_split numbers split bar c step)
    unless_split-StepSpec none bar c step h = h
    unless_split-StepSpec (some split) bar c step h = (refl, refl)

    step_bar-StepSpec :
        (stop target : Option numbers.Num) (bar : Bar numbers) (c : Counted numbers)
        → StepSpec bar c (step_bar numbers direction position options stop target bar c)
    unfolding step_bar count_bar
    step_bar-StepSpec stop target bar c =
        let levels = levels_at numbers direction position options.trailing c.peak stop target in
        let counted = count_bar numbers direction position options.trailing bar c in
        let step =
          at_levels numbers direction position.entry_price options.nearest_open bar levels
            levels.stop c.extremes counted in
        let split = split_of numbers position.entry_price options.split_guard_tolerance bar in
        if-StepSpec (not (is_finite_bar numbers bar)) bar c
          (next (record c {
            last_bar_available_at = some bar.available_at;
            bars_walked = c.bars_walked + 1;
            invalid_bars = c.invalid_bars + 1;
          }))
          (unless_split numbers split bar c step) (refl, refl)
          (unless_split-StepSpec split bar c step
            (at_levels-StepSpec bar levels levels.stop c.extremes c counted (refl, refl)))

    EndsAt-later :
        (outcome : Outcome numbers) (bar : Bar numbers) (walked rest : List (Bar numbers))
        → EndsAt outcome walked rest
        → EndsAt outcome (bar ∷ walked) rest
    EndsAt-later no_exit bar walked rest h = h
    EndsAt-later (exits e) bar walked rest (before, h, t) = (bar ∷ before, ap (λ l. bar ∷ l) h, t)
    EndsAt-later (split_at split b) bar walked rest h = h

    after_step-WalkedSpec :
        (bar : Bar numbers) (bars : List (Bar numbers)) (c : Counted numbers) (step : Step numbers)
        (rest : Counted numbers → Outcome numbers × Counted numbers)
        → StepSpec bar c step
        → ((c' : Counted numbers) → WalkedSpec bars c' (rest c'))
        → WalkedSpec (bar ∷ bars) c (after_step numbers step rest)
    after_step-WalkedSpec bar bars c (next c') rest h k =
        let (walked, left, e, n, l, s) = k c' in
        let one = h.0 in
        (
          bar ∷ walked,
          left,
          ap (λ z. bar ∷ z) e,
          omega arith,
          l ∙ ap (λ z. last_available walked z) h.1,
          EndsAt-later (rest c').0 bar walked left s,
        )
    after_step-WalkedSpec bar bars c (done no_exit c') rest h k = absurd h
    after_step-WalkedSpec bar bars c (done (exits e) c') rest (h, b, t) k = (
      bar ∷ [],
      bars,
      refl,
      h.0,
      h.1,
      ([], ap (λ z. z ∷ []) (sym b), t ∙ ap (λ z. z.available_at) (sym b)),
    )
    after_step-WalkedSpec bar bars c (done (split_at split b) c') rest (e, d) k =
        let m = ap (λ z. z.bars_walked) d in
        (
          [],
          bar ∷ bars,
          refl,
          omega arith,
          ap (λ z. z.last_bar_available_at) d,
          (bars, ap (λ z. z ∷ bars) (sym e)),
        )

    -- The walk evaluates the bars in order up to where it ends, counts each of them once and leaves the
    -- cursor at the close of the last: after every bar without an exit, on the exit's own bar, whose
    -- close is the exit's instant, or before a bar that suggests a split, at which the cursor stays.
    pub walk_bars-WalkedSpec :
        (stop target : Option numbers.Num) (bars : List (Bar numbers)) (c : Counted numbers)
        → WalkedSpec bars c (walk_bars numbers direction position options stop target bars c)
    unfolding walk_bars
    walk_bars-WalkedSpec stop target [] c = ([], [], refl, omega arith, refl, refl)
    walk_bars-WalkedSpec stop target (bar ∷ bars) c =
        after_step-WalkedSpec bar bars c
          (step_bar numbers direction position options stop target bar c)
          (λ c'. walk_bars numbers direction position options stop target bars c')
          (step_bar-StepSpec stop target bar c) (λ c'. walk_bars-WalkedSpec stop target bars c')
