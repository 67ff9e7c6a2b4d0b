-- ===== src/Pipeline/Debate.antt =====
-- src/graph/pipeline.js and src/graph/conditional_logic.js: a debate ends, after one round at least and the configured
-- number of rounds at most.
use news_market_ai.Common.{
  ℕ, zero, suc, ◌+◌, ◌≤◌, ◌<◌, max, ◌≡◌, refl, ◌⊎◌, true, false, List, arith, inl, inr, Bool-cases,
}
use news_market_ai.Exit.Numbers.{Numbers}
use news_market_ai.Pipeline.{
  Kinds, Opinion, Verdict, should_continue_debate, min_confidence_to_stop_debate,
}
use news_market_ai.Pipeline.World.{Answer, answered, threw, Config, Args, Engine}
use news_market_ai.Pipeline.Stages.{Debated, settled, broke_off, one_round, after_round, debate}

module _ (numbers : Numbers) (kinds : Kinds) (config : Config) (args : Args) where
  -- More rounds than there were, and no more than allowed; a first round is always played.
  abbrev pub WithinRounds : ℕ → ℕ → Type 0
  WithinRounds before rounds =
      (before < rounds) × (rounds ≤ max (before + 1) config.max_debate_rounds)

  -- How a debate ends after some rounds.
  abbrev pub Ends : ℕ → Debated numbers kinds config args → Type 0
  Ends before d =
      ((verdict : Verdict numbers kinds) × (rounds : ℕ) × (d ≡ settled verdict rounds)
        × WithinRounds before rounds
        × ((config.max_debate_rounds ≤ rounds)
            ⊎ (numbers.less verdict.confidence (min_confidence_to_stop_debate numbers kinds)
                ≡ false)))
      ⊎ ((rounds : ℕ) × (d ≡ broke_off rounds) × WithinRounds before rounds)

  stops :
      (verdict : Verdict numbers kinds) (rounds : ℕ)
      → should_continue_debate numbers kinds verdict rounds config.max_debate_rounds ≡ false
      → (config.max_debate_rounds ≤ rounds)
        ⊎ (numbers.less verdict.confidence (min_confidence_to_stop_debate numbers kinds) ≡ false)
  unfolding should_continue_debate
  stops verdict rounds h = ground arith

  continues :
      (verdict : Verdict numbers kinds) (rounds : ℕ)
      → should_continue_debate numbers kinds verdict rounds config.max_debate_rounds ≡ true
      → rounds < config.max_debate_rounds
  unfolding should_continue_debate
  continues verdict rounds h = ground arith

  first_round : (rounds : ℕ) → WithinRounds rounds (rounds + 1)
  first_round rounds = (omega arith, max_left (rounds + 1) config.max_debate_rounds)
    where
      max_left : (a b : ℕ) → a ≤ max a b
      max_left a b = omega arith

  later_round :
      (before rounds : ℕ)
      → before + 1 < config.max_debate_rounds
      → WithinRounds (before + 1) rounds
      → WithinRounds before rounds
  later_round before rounds h k = omega arith

  later-Ends :
      (before : ℕ) (d : Debated numbers kinds config args)
      → before + 1 < config.max_debate_rounds
      → Ends (before + 1) d
      → Ends before d
  later-Ends before d h (inl (verdict, rounds, e, within, sure)) =
      inl (verdict, rounds, e, later_round before rounds h within, sure)
  later-Ends before d h (inr (rounds, e, within)) =
      inr (rounds, e, later_round before rounds h within)

  module _ {W : Type 0} (engine : Engine numbers kinds W) where
    after_round-Ends :
        (before : ℕ) (out : Answer (Verdict numbers kinds) × W)
        (again : W → Debated numbers kinds config args × W)
        → (before + 1 < config.max_debate_rounds → (w : W) → Ends (before + 1) (again w).0)
        → Ends before (after_round numbers kinds config args engine out (before + 1) again).0
    after_round-Ends before (threw, w) again h = inr (before + 1, refl, first_round before)
    after_round-Ends before (answered verdict, w) again h =
        elim (Bool-cases
          (should_continue_debate numbers kinds verdict (before + 1) config.max_debate_rounds)) [
            | inl b ↦ rw b (
                later-Ends before (again w).0 (continues verdict (before + 1) b)
                  (h (continues verdict (before + 1) b) w))
            | inr b ↦
                rw b (
                  inl (verdict, before + 1, refl, first_round before, stops verdict (before + 1) b))
          ]

    debate-Ends :
        (fuel : ℕ) (opinions : List (Opinion numbers kinds)) (lessons : kinds.Lessons) (rounds : ℕ)
        (w : W)
        → (rounds ≡ 0) ⊎ (rounds < config.max_debate_rounds)
        → config.max_debate_rounds < rounds + fuel
        → Ends rounds (debate numbers kinds config args engine fuel opinions lessons rounds w).0
    unfolding debate
    debate-Ends zero opinions lessons rounds w (inl a) h = absurd (omega arith)
    debate-Ends zero opinions lessons rounds w (inr a) h = absurd (omega arith)
    debate-Ends (suc fuel) opinions lessons rounds w a h =
        after_round-Ends rounds (one_round numbers kinds config args engine opinions lessons w)
          (λ w'. debate numbers kinds config args engine fuel opinions lessons (rounds + 1) w')
          (λ b w'. debate-Ends fuel opinions lessons (rounds + 1) w' (inr b) (omega arith))

    -- With the fuel that a run gives it, a debate never runs out: it ends with a verdict after one to the
    -- configured number of rounds (one where that is 0), and before the last only with a confidence of
    -- at least 0.6, or a call of a round throws.
    pub debate_terminates :
        (opinions : List (Opinion numbers kinds)) (lessons : kinds.Lessons) (w : W)
        → ((verdict : Verdict numbers kinds) × (rounds : ℕ) × ((debate numbers kinds config args
                engine
                (suc config.max_debate_rounds)
                opinions
                lessons
                0
                w).0
              ≡ settled verdict rounds)
            × WithinRounds 0 rounds
            × ((config.max_debate_rounds ≤ rounds)
                ⊎ (numbers.less verdict.confidence (min_confidence_to_stop_debate numbers kinds)
                    ≡ false)))
          ⊎ ((rounds : ℕ) × ((debate numbers kinds config args engine
                  (suc config.max_debate_rounds)
                  opinions
                  lessons
                  0
                  w).0
                ≡ broke_off rounds)
              × WithinRounds 0 rounds)
    debate_terminates opinions lessons w =
        debate-Ends (suc config.max_debate_rounds) opinions lessons 0 w (inl refl) (omega arith)
