-- ===== src/Risk/Approved.antt =====
-- src/agents/managers/portfolio_manager.js and src/storage/run_store.js: what a sign-off guarantees, and that the commit
-- which follows it checks the same ceilings.
use mathlib.Core.Path.{subst}
use news_market_ai.Common.{
  ℕ, ◌≡◌, refl, sym, ◌∙◌, ◌⊎◌, String, Bool, true, false, not, ◌&&◌, some, List, if◌then◌else◌,
  arith, inl, inr, Bool-cases,
}
use news_market_ai.Exit.Numbers.{Numbers}
use news_market_ai.Book.{Row, rejected}
use news_market_ai.Book.Guards.{
  Thesis, or_fallback, exposure, stop_risk, group_peers, max_portfolio_risk_pct,
  max_portfolio_stop_risk_pct,
}
use news_market_ai.Book.Limits.{
  breaches_group, breaches_breaker, breaches, status_of, with_size, with_stop,
}
use news_market_ai.Book.Reads.{get_open_positions_risk_as_of, get_open_positions_risk_as_of-sums}
use news_market_ai.Risk.{RiskDecision}
use news_market_ai.Risk.Portfolio.{
  Account, PortfolioDecision, Ground, not_approved, breaker_tripped, parse_portfolio, refusal,
  is_tripped, size_for, smaller_of, scaled_size, budget_left, exposure_ok, stop_risk_ok, group_ok,
  sign_off, evaluate_portfolio, min_scaled_position_pct,
}

module _ (numbers : Numbers) (floor : numbers.Num → numbers.Num) where
  -- What an approval rests on.
  abbrev pub Approves : RiskDecision numbers → Account numbers → PortfolioDecision numbers → Type 0
  Approves risk account d =
      (risk.approved ≡ true)
      × (is_tripped numbers account.drawdown_breaker_pct account.realized_pnl_pct ≡ false)
      × (exposure_ok numbers floor account d.final_position_size_pct ≡ true)
      × (stop_risk_ok numbers floor account d.final_position_size_pct
            (or_fallback numbers risk.stop_loss_pct)
          ≡ true)
      × (group_ok numbers floor account.ticker account.direction d.final_position_size_pct
            account.open_positions
          ≡ true)
      × ((d.final_position_size_pct ≡ risk.position_size_pct)
          ⊎ ((numbers.less d.final_position_size_pct risk.position_size_pct ≡ true)
              × (numbers.at_most (min_scaled_position_pct numbers) d.final_position_size_pct
                  ≡ true)))

  abbrev pub Refuses : PortfolioDecision numbers → Type 0
  Refuses d = (d.approved_for_execution ≡ false) × (d.final_position_size_pct ≡ numbers.zero)

  smaller_of-cases :
      (size scaled : numbers.Num)
      → (smaller_of numbers floor size scaled ≡ size)
        ⊎ ((numbers.less (smaller_of numbers floor size scaled) size ≡ true)
            × (numbers.at_most
                  (min_scaled_position_pct numbers)
                  (smaller_of numbers floor size scaled)
                ≡ true))
  smaller_of-cases size scaled =
      elim (Bool-cases
        (numbers.at_most (min_scaled_position_pct numbers) scaled && numbers.less scaled size)) [
          | inl b ↦ rw b (inr (ground arith))
          | inr b ↦ rw b (inl refl)
        ]

  size_for-cases :
      (account : Account numbers) (stop size : numbers.Num)
      → (size_for numbers floor account stop size ≡ size)
        ⊎ ((numbers.less (size_for numbers floor account stop size) size ≡ true)
            × (numbers.at_most
                  (min_scaled_position_pct numbers)
                  (size_for numbers floor account stop size)
                ≡ true))
  unfolding size_for
  size_for-cases account stop size =
      elim (Bool-cases (
        numbers.less numbers.zero stop
        && numbers.less (max_portfolio_stop_risk_pct numbers)
            (numbers.plus account.open_positions_stop_risk_pct (numbers.times size stop)))) [
              | inl b ↦ rw b (
                  smaller_of-cases size
                    (scaled_size numbers floor (budget_left numbers floor account) stop))
              | inr b ↦ rw b (inl refl)
            ]

  parse_portfolio-some :
      (raw d : PortfolioDecision numbers) → parse_portfolio numbers raw ≡ some d → raw ≡ d
  parse_portfolio-some raw d h = ground arith

  sign_off-cases :
      (id : String × ℕ) (account : Account numbers) (size stop : numbers.Num)
      → Refuses (sign_off numbers floor id account size stop)
        ⊎ (((sign_off numbers floor id account size stop).final_position_size_pct ≡ size)
            × (exposure_ok numbers floor account size ≡ true)
            × (stop_risk_ok numbers floor account size stop ≡ true)
            × (group_ok numbers floor account.ticker account.direction size account.open_positions
                ≡ true))
  sign_off-cases id account size stop = elim (Bool-cases (exposure_ok numbers floor account size)) [
    | inr a ↦ rw a (inl (refl, refl))
    | inl a ↦ elim (Bool-cases (stop_risk_ok numbers floor account size stop)) [
      | inr b ↦ rw a (rw b (inl (refl, refl)))
      | inl b ↦
          elim (Bool-cases
            (group_ok numbers floor account.ticker account.direction size account.open_positions)) [
              | inr c ↦ rw a (rw b (rw c (inl (refl, refl))))
              | inl c ↦ rw a (rw b (rw c (inr (refl, refl, refl, refl))))
            ]
    ]
  ]

  sign_off-Approves :
      (risk : RiskDecision numbers) (account : Account numbers)
      → risk.approved ≡ true
      → is_tripped numbers account.drawdown_breaker_pct account.realized_pnl_pct ≡ false
      → (d : PortfolioDecision numbers)
      → sign_off numbers floor risk.trade_thesis_id account
          (size_for numbers floor account
            (or_fallback numbers risk.stop_loss_pct)
            risk.position_size_pct)
          (or_fallback numbers risk.stop_loss_pct)
        ≡ d
      → Refuses d ⊎ Approves risk account d
  sign_off-Approves risk account approved calm d same =
      let stop = or_fallback numbers risk.stop_loss_pct in
      let size = size_for numbers floor account stop risk.position_size_pct in
      subst (λ x. Refuses x ⊎ Approves risk account x) same
        (elim (sign_off-cases risk.trade_thesis_id account size stop) [
          | inl r ↦ inl r
          | inr (e, a, b, c) ↦ inr (
            approved,
            calm,
            subst (λ x. exposure_ok numbers floor account x ≡ true) (sym e) a,
            subst (λ x. stop_risk_ok numbers floor account x stop ≡ true) (sym e) b,
            subst
                (λ x.
                  group_ok numbers floor account.ticker account.direction x account.open_positions
                  ≡ true)
                (sym e) c,
            subst
                (λ x.
                  (x ≡ risk.position_size_pct)
                  ⊎ ((numbers.less x risk.position_size_pct ≡ true)
                      × (numbers.at_most (min_scaled_position_pct numbers) x ≡ true)))
                (sym e) (size_for-cases account stop risk.position_size_pct),
          )
        ])

  refusal-Refuses :
      (risk : RiskDecision numbers) (account : Account numbers) (reason : Ground)
      (d : PortfolioDecision numbers)
      → parse_portfolio numbers (refusal numbers risk.trade_thesis_id reason) ≡ some d
      → Refuses d ⊎ Approves risk account d
  refusal-Refuses risk account reason d h = inl (
      subst (λ x. Refuses x)
        (parse_portfolio-some (refusal numbers risk.trade_thesis_id reason) d h) (refl, refl))

  evaluated-Approves :
      (risk : RiskDecision numbers) (account : Account numbers) (d : PortfolioDecision numbers)
      (approved tripped : Bool)
      → risk.approved ≡ approved
      → is_tripped numbers account.drawdown_breaker_pct account.realized_pnl_pct ≡ tripped
      → (if not approved
          then parse_portfolio numbers (refusal numbers risk.trade_thesis_id not_approved)
          else if tripped
          then parse_portfolio numbers (refusal numbers risk.trade_thesis_id breaker_tripped)
          else parse_portfolio numbers (
              sign_off numbers floor risk.trade_thesis_id account
                (size_for numbers floor account
                  (or_fallback numbers risk.stop_loss_pct)
                  risk.position_size_pct)
                (or_fallback numbers risk.stop_loss_pct)))
        ≡ some d
      → Refuses d ⊎ Approves risk account d
  evaluated-Approves risk account d false tripped a b h =
      refusal-Refuses risk account not_approved d h
  evaluated-Approves risk account d true true a b h =
      refusal-Refuses risk account breaker_tripped d h
  evaluated-Approves risk account d true false a b h = sign_off-Approves risk account a b d (
      parse_portfolio-some
        (sign_off numbers floor risk.trade_thesis_id account
          (size_for numbers floor account (or_fallback numbers risk.stop_loss_pct)
            risk.position_size_pct)
          (or_fallback numbers risk.stop_loss_pct))
        d h)

  -- A sign-off that is produced either refuses with the size 0, or the thesis was approved by the risk rules,
  -- the breaker is not tripped, the final size keeps the exposure, the loss at the stops and the
  -- group within their ceilings, and it is the size that the risk rules gave or a smaller one of
  -- at least 1% of the book.
  pub evaluate_portfolio-Approves :
      (risk : RiskDecision numbers) (account : Account numbers) (d : PortfolioDecision numbers)
      → evaluate_portfolio numbers floor risk account ≡ some d
      → Refuses d ⊎ Approves risk account d
  unfolding evaluate_portfolio
  evaluate_portfolio-Approves risk account d h =
      evaluated-Approves risk account d risk.approved
        (is_tripped numbers account.drawdown_breaker_pct account.realized_pnl_pct) refl refl h

  not_refused : (d : PortfolioDecision numbers) → d.approved_for_execution ≡ true → Refuses d → ⊥
  not_refused d a r = cc (a, r.0)

  module _
      (less_or_at_most : (a b : numbers.Num) → numbers.less b a ≡ not (numbers.at_most a b)) where
    rejected-breaches :
        (t : Thesis numbers) (rows : List (Row numbers))
        → status_of numbers t rows ≡ rejected
        → breaches numbers t rows ≡ true
    unfolding status_of
    rejected-breaches t rows h = ground arith

    breaches-others :
        (t : Thesis numbers) (rows : List (Row numbers))
        → numbers.at_most
            (with_size numbers t (exposure numbers t rows))
            (max_portfolio_risk_pct numbers)
          ≡ true
        → numbers.at_most
            (with_stop numbers t (stop_risk numbers t rows))
            (max_portfolio_stop_risk_pct numbers)
          ≡ true
        → breaches numbers t rows ≡ true
        → (breaches_group numbers t (group_peers t.ticker) rows ≡ true)
          ⊎ (breaches_breaker numbers t t.drawdown_breaker_window_days rows ≡ true)
    unfolding breaches
    breaches-others t rows a b h = ground (
      arith,
      less_or_at_most (with_size numbers t (exposure numbers t rows))
          (max_portfolio_risk_pct numbers),
      less_or_at_most (with_stop numbers t (stop_risk numbers t rows))
          (max_portfolio_stop_risk_pct numbers),
    )

    -- A thesis that is signed off against the sums of the book, and committed to that same book with the final
    -- size and the stop of its decisions, is not rejected for its exposure or its loss at the stops:
    -- where it is rejected, the cap of its group or the drawdown breaker is breached.
    pub evaluate_portfolio-commit :
        (risk : RiskDecision numbers) (account : Account numbers) (d : PortfolioDecision numbers)
        (t : Thesis numbers) (rows : List (Row numbers))
        → evaluate_portfolio numbers floor risk account ≡ some d
        → d.approved_for_execution ≡ true
        → account.open_positions_risk_pct
          ≡ (get_open_positions_risk_as_of numbers t.run_id t.as_of
              (some t.ticker)
              rows).exposure_pct
        → account.open_positions_stop_risk_pct
          ≡ (get_open_positions_risk_as_of numbers t.run_id t.as_of
              (some t.ticker)
              rows).stop_risk_pct
        → t.position_size_pct ≡ d.final_position_size_pct
        → t.stop_loss_pct ≡ risk.stop_loss_pct
        → status_of numbers t rows ≡ rejected
        → (breaches_group numbers t (group_peers t.ticker) rows ≡ true)
          ⊎ (breaches_breaker numbers t t.drawdown_breaker_window_days rows ≡ true)
    unfolding exposure stop_risk
    evaluate_portfolio-commit risk account d t rows h a e f size stop r =
        elim (evaluate_portfolio-Approves risk account d h) [
          | inl refuses ↦ absurd (not_refused d a refuses)
          | inr (approved, calm, exposed, stopped, grouped, sized) ↦
              breaches-others t rows
                (rw size (
                  subst
                    (λ x.
                      numbers.at_most (numbers.plus x d.final_position_size_pct)
                        (max_portfolio_risk_pct numbers)
                      ≡ true)
                    (e ∙ (get_open_positions_risk_as_of-sums numbers t rows).0) exposed))
                (rw size (
                  rw stop (
                    subst
                      (λ x.
                        numbers.at_most
                          (numbers.plus x (
                            numbers.times d.final_position_size_pct
                              (or_fallback numbers risk.stop_loss_pct)))
                          (max_portfolio_stop_risk_pct numbers)
                        ≡ true)
                      (f ∙ (get_open_positions_risk_as_of-sums numbers t rows).1) stopped)))
                (rejected-breaches t rows r)
        ]
