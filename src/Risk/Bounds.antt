-- ===== src/Risk/Bounds.antt =====
-- src/agents/risk_mgmt/risk.js: when a thesis is approved, and the bounds of its size and its stop.
use mathlib.Core.Path.{subst}
use news_market_ai.Common.{
  ◌≡◌, refl, ◌⊎◌, Bool, true, false, ◌&&◌, ◌||◌, Option, none, some, List, [], ◌∷◌, if◌then◌else◌,
  arith, inl, inr, Bool-cases,
}
use news_market_ai.Exit.Numbers.{Numbers, lower, higher}
use news_market_ai.Book.Guards.{ratio, fallback_stop_loss_pct}
use news_market_ai.Risk.{
  DailyBar, Proposal, RiskDecision, compute_atr, compute_stop_and_target, atr_window, levels_from,
  clamp, min_stop_loss_pct, max_stop_loss_pct, max_position_pct, min_confidence_to_act, is_approved,
  is_directed, parse_risk, is_fraction, evaluate_risk,
}

module _ (numbers : Numbers)
    (less_at_most : (a b : numbers.Num) → numbers.less a b ≡ true → numbers.at_most a b ≡ true)
    (at_most_refl : (a : numbers.Num) → numbers.at_most a a ≡ true)
    (min_at_most_max : numbers.at_most (min_stop_loss_pct numbers) (max_stop_loss_pct numbers)
      ≡ true) where
  lower-at_most : (a b : numbers.Num) → numbers.at_most (lower numbers a b) a ≡ true
  lower-at_most a b = ground (arith, less_at_most b a, at_most_refl a)

  clamp-at_most :
      (value : numbers.Num)
      → numbers.at_most
          (clamp numbers value (min_stop_loss_pct numbers) (max_stop_loss_pct numbers))
          (max_stop_loss_pct numbers)
        ≡ true
  clamp-at_most value =
      lower-at_most (max_stop_loss_pct numbers) (higher numbers (min_stop_loss_pct numbers) value)

  higher-at_least : (a b : numbers.Num) → numbers.at_most a (higher numbers a b) ≡ true
  higher-at_least a b = ground (arith, less_at_most a b, at_most_refl a)

  clamp-at_least :
      (value : numbers.Num)
      → numbers.at_most
          (min_stop_loss_pct numbers)
          (clamp numbers value (min_stop_loss_pct numbers) (max_stop_loss_pct numbers))
        ≡ true
  clamp-at_least value =
      elim (Bool-cases (
        numbers.less (higher numbers (min_stop_loss_pct numbers) value)
          (max_stop_loss_pct numbers))) [
            | inl b ↦ rw b (higher-at_least (min_stop_loss_pct numbers) value)
            | inr b ↦ rw b min_at_most_max
          ]

  abbrev pub IsStop : numbers.Num → Type 0
  IsStop stop =
      (stop ≡ fallback_stop_loss_pct numbers)
      ⊎ ((numbers.at_most (min_stop_loss_pct numbers) stop ≡ true)
          × (numbers.at_most stop (max_stop_loss_pct numbers) ≡ true))

  levels_from-IsStop :
      (atr : Option numbers.Num) (bars : List (DailyBar numbers))
      → IsStop (levels_from numbers atr bars).0
  levels_from-IsStop none bars = inl refl
  levels_from-IsStop (some atr) [] = inl refl
  levels_from-IsStop (some atr) (bar ∷ bars) =
      elim (Bool-cases
        (numbers.less numbers.zero bar.close || numbers.less bar.close numbers.zero)) [
          | inl b ↦ rw b (
              inr (
                clamp-at_least (numbers.times (ratio numbers 3 2) (numbers.over atr bar.close)),
                clamp-at_most (numbers.times (ratio numbers 3 2) (numbers.over atr bar.close)),
              ))
          | inr b ↦ rw b (inl refl)
        ]

  parse_risk-some :
      (raw d : RiskDecision numbers)
      → parse_risk numbers raw ≡ some d
      → (raw ≡ d) × (is_fraction numbers raw.position_size_pct ≡ true)
  parse_risk-some raw d h = ground arith

  abbrev pub Refused : RiskDecision numbers → Type 0
  Refused d = (d.approved ≡ false) × (d.position_size_pct ≡ numbers.zero) × (d.stop_loss_pct ≡ none)

  abbrev pub Sized : Proposal numbers → numbers.Num → RiskDecision numbers → Type 0
  Sized thesis confidence d =
      (d.approved ≡ true)
      × (numbers.at_most (min_confidence_to_act numbers) confidence ≡ true)
      × (is_directed numbers thesis.direction ≡ true)
      × (numbers.at_most numbers.zero d.position_size_pct ≡ true)
      × (numbers.at_most d.position_size_pct (max_position_pct numbers thesis.ticker) ≡ true)
      × ((stop : numbers.Num) × (d.stop_loss_pct ≡ some stop) × IsStop stop)

  levels-IsStop : (bars : List (DailyBar numbers)) → IsStop (compute_stop_and_target numbers bars).0
  unfolding compute_stop_and_target
  levels-IsStop bars = levels_from-IsStop (compute_atr numbers atr_window bars) bars

  raw_decision :
      Proposal numbers → numbers.Num → List (DailyBar numbers) → Bool → RiskDecision numbers
  raw_decision thesis confidence bars approved = record {
    trade_thesis_id = (thesis.ticker, thesis.as_of);
    approved = approved;
    position_size_pct =
        if approved
        then lower numbers (max_position_pct numbers thesis.ticker)
            (numbers.times confidence (max_position_pct numbers thesis.ticker))
        else numbers.zero;
    stop_loss_pct = if approved then some (compute_stop_and_target numbers bars).0 else none;
    take_profit_pct = if approved then some (compute_stop_and_target numbers bars).1 else none;
  }

  raw_decision-cases :
      (thesis : Proposal numbers) (confidence : numbers.Num) (bars : List (DailyBar numbers))
      (approved : Bool)
      → (approved ≡ true → is_approved numbers thesis confidence ≡ true)
      → is_fraction numbers (raw_decision thesis confidence bars approved).position_size_pct ≡ true
      → Refused (raw_decision thesis confidence bars approved)
        ⊎ Sized thesis confidence (raw_decision thesis confidence bars approved)
  unfolding raw_decision
  raw_decision-cases thesis confidence bars false h k = inl (refl, refl, refl)
  raw_decision-cases thesis confidence bars true h k =
      let approval =
        split_and (numbers.at_most (min_confidence_to_act numbers) confidence)
          (is_directed numbers thesis.direction) (h refl) in
      inr (
        refl,
        approval.0,
        approval.1,
        (split_and
            (numbers.at_most numbers.zero (
              lower numbers (max_position_pct numbers thesis.ticker)
                (numbers.times confidence (max_position_pct numbers thesis.ticker))))
            (numbers.at_most
              (lower numbers (max_position_pct numbers thesis.ticker)
                (numbers.times confidence (max_position_pct numbers thesis.ticker)))
              numbers.one)
            k).0,
        lower-at_most (max_position_pct numbers thesis.ticker)
            (numbers.times confidence (max_position_pct numbers thesis.ticker)),
        ((compute_stop_and_target numbers bars).0, refl, levels-IsStop bars),
      )
    where
      split_and : (a b : Bool) → (a && b) ≡ true → (a ≡ true) × (b ≡ true)
      split_and a b h = ground arith

  -- A risk decision that is produced either refuses, with the size 0 and no stop, or it has the confidence
  -- and the direction that it asks for, a size from 0 to the ticker's most, and a stop that is the
  -- fallback or lies from 1% to 8%. Stated for numbers whose order is reflexive and contains the
  -- strict one, and in which 1% is at most 8%.
  pub evaluate_risk-bounds :
      (thesis : Proposal numbers) (confidence : numbers.Num) (bars : List (DailyBar numbers))
      (d : RiskDecision numbers)
      → evaluate_risk numbers thesis confidence bars ≡ some d
      → Refused d ⊎ Sized thesis confidence d
  unfolding evaluate_risk raw_decision
  evaluate_risk-bounds thesis confidence bars d h =
      let raw = raw_decision thesis confidence bars (is_approved numbers thesis confidence) in
      let parsed = parse_risk-some raw d h in
      subst (λ x. Refused x ⊎ Sized thesis confidence x) parsed.0
        (raw_decision-cases thesis confidence bars (is_approved numbers thesis confidence) (λ b. b)
          parsed.1)
