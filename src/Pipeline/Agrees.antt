-- ===== src/Pipeline/Agrees.antt =====
-- src/graph/pipeline.js, src/agents/managers/portfolio_manager.js and src/storage/run_store.js: the sign-off of a run
-- and the commit that follows it.
use mathlib.Core.Path.{subst}
use news_market_ai.Common.{
  ◌≡◌, refl, ◌≢◌, inl, inr, ℕ, String, Bool-cases, true, false, not, ◌&&◌, Option, none, some, List,
  [], ◌∷◌, any, contains, keyed_string, ltb, arith, if◌then◌else◌,
}
use news_market_ai.Exit.Numbers.{Numbers}
use news_market_ai.Book.{Row, rejected}
use news_market_ai.Book.Guards.{
  Thesis, group_peers, closed_here, in_book_at, price_at, breaker_term, sum_from, add_term,
  book_return, group_exposure,
}
use news_market_ai.Book.Limits.{breaches_group, breaches_breaker, status_of, group_cap, with_size}
use news_market_ai.Book.Reads.{
  Peer, read_peers, is_counted, counted_price, counted_term, get_realized_pnl_pct_as_of,
  get_open_positions_risk_as_of,
}
use news_market_ai.Risk.{RiskDecision}
use news_market_ai.Risk.Portfolio.{PortfolioDecision, is_tripped, group_sum, group_ok}
use news_market_ai.Risk.Approved.{evaluate_portfolio-commit, evaluate_portfolio-Approves}
use news_market_ai.Risk.Groups.{grouped_tickers, is_ungrouped, group_sum-exposure}
use news_market_ai.Pipeline.{Kinds, Trade, Verdict}
use news_market_ai.Pipeline.World.{Args, Price, Knobs}
use news_market_ai.Pipeline.Inputs.{
  days_of, account_of, load_drawdown_breaker_options, signed_off, thesis_of, thesis_for,
}

module _ (numbers : Numbers) where
  -- A row that the commit itself could not have closed counts for the breaker in SQL as it does in the read.
  in_book_at-is_counted :
      (t : Thesis numbers) (days : ℕ) (r : Row numbers)
      → closed_here numbers t r ≡ false
      → in_book_at numbers t days r ≡ is_counted numbers t.run_id t.as_of days true r
  in_book_at-is_counted t days r h = ground arith

  price_at-counted_price :
      (t : Thesis numbers) (r : Row numbers)
      → closed_here numbers t r ≡ false
      → price_at numbers t r ≡ counted_price numbers t.as_of r
  price_at-counted_price t r h = ground arith

  breaker_term-counted_term :
      (t : Thesis numbers) (r : Row numbers)
      → closed_here numbers t r ≡ false
      → breaker_term numbers t r ≡ counted_term numbers t.as_of t.trade_cost_bps r
  breaker_term-counted_term t r h = rw (price_at-counted_price t r h) refl

  sums-agree :
      (t : Thesis numbers) (days : ℕ) (sum : numbers.Num) (rows : List (Row numbers))
      → any (closed_here numbers t) rows ≡ false
      → sum_from numbers (in_book_at numbers t days) (breaker_term numbers t) sum rows
        ≡ sum_from numbers
            (is_counted numbers t.run_id t.as_of days true)
            (counted_term numbers t.as_of t.trade_cost_bps)
            sum
            rows
  sums-agree t days sum [] h = refl
  sums-agree t days sum (r ∷ rows) h =
      let here : closed_here numbers t r ≡ false = ground arith in
      rw (in_book_at-is_counted t days r here) (
        rw (breaker_term-counted_term t r here) (
          sums-agree t days
            (if is_counted numbers t.run_id t.as_of days true r
              then add_term numbers sum (counted_term numbers t.as_of t.trade_cost_bps r)
              else sum)
            rows (ground arith)))

  -- Where no row of the ticker closed at the instant itself, the return that the commit checks is the one that
  -- the breaker's options are read from.
  book_return-realized :
      (t : Thesis numbers) (days : ℕ) (rows : List (Row numbers))
      → any (closed_here numbers t) rows ≡ false
      → ltb 0 days ≡ true
      → book_return numbers t days rows
        ≡ get_realized_pnl_pct_as_of numbers t.run_id t.as_of days t.trade_cost_bps true rows
  unfolding book_return get_realized_pnl_pct_as_of
  book_return-realized t days rows h positive = rw positive (sums-agree t days numbers.zero rows h)

module _ (numbers : Numbers) (floor : numbers.Num → numbers.Num)
    (less_or_at_most : (a b : numbers.Num) → numbers.less b a ≡ not (numbers.at_most a b)) where
  breaker-quiet :
      (t : Thesis numbers) (window : Option ℕ) (rows : List (Row numbers))
      → any (closed_here numbers t) rows ≡ false
      → is_tripped numbers t.drawdown_breaker_pct (
          if numbers.less numbers.zero t.drawdown_breaker_pct
          then some (
              get_realized_pnl_pct_as_of numbers t.run_id t.as_of
                (days_of window)
                t.trade_cost_bps
                true
                rows)
          else none)
        ≡ false
      → breaches_breaker numbers t window rows ≡ false
  breaker-quiet t none rows h calm = refl
  breaker-quiet t (some days) rows h calm =
      elim (Bool-cases (numbers.less numbers.zero t.drawdown_breaker_pct && ltb 0 days)) [
        | inl b ↦ ground (arith, book_return-realized numbers t days rows h (ground arith))
        | inr b ↦ ground arith
      ]

  group-quiet :
      (t : Thesis numbers) (peers : List String) (shown : List (Peer numbers))
      (rows : List (Row numbers))
      → group_sum numbers floor t.ticker t.direction shown numbers.zero
        ≡ group_exposure numbers t peers rows
      → group_ok numbers floor t.ticker t.direction t.position_size_pct (some shown) ≡ true
      → breaches_group numbers t peers rows ≡ false
  unfolding group_cap
  group-quiet t [] shown rows same ok = refl
  group-quiet t (peer ∷ peers) shown rows same ok = ground (
    arith,
    same,
    less_or_at_most (with_size numbers t (group_exposure numbers t (peer ∷ peers) rows))
        (group_cap numbers t.ticker),
  )

module _ (numbers : Numbers) (kinds : Kinds) (args : Args) (knobs : Knobs numbers kinds)
    (floor : numbers.Num → numbers.Num)
    (less_or_at_most : (a b : numbers.Num) → numbers.less b a ≡ not (numbers.at_most a b)) where
  -- The thesis that a run makes of its parts.
  commit-admitted :
      (price : Price numbers kinds) (trade : Trade numbers kinds) (verdict : Verdict numbers kinds)
      (risk : RiskDecision numbers) (d : PortfolioDecision numbers) (rows : List (Row numbers))
      → signed_off numbers kinds args knobs floor (some trade) (some risk) rows ≡ some d
      → d.approved_for_execution ≡ true
      → contains args.ticker grouped_tickers ≡ true
      → any (is_ungrouped numbers floor) rows ≡ false
      → any
          (closed_here numbers (thesis_of numbers kinds args knobs price trade verdict risk d))
          rows
        ≡ false
      → status_of numbers (thesis_of numbers kinds args knobs price trade verdict risk d) rows
        ≢ rejected
  unfolding signed_off load_drawdown_breaker_options get_open_positions_risk_as_of
  commit-admitted price trade verdict risk d rows h a known grouped unclosed r =
      let t = thesis_of numbers kinds args knobs price trade verdict risk d in
      let account =
        account_of numbers kinds args knobs trade
          (get_open_positions_risk_as_of numbers args.run_id args.as_of (some args.ticker) rows)
          (load_drawdown_breaker_options numbers kinds args knobs rows) in
      elim (evaluate_portfolio-Approves numbers floor risk account d h) [
        | inl refuses ↦ absurd (cc (a, refuses.0))
        | inr (approved, calm, exposed, stopped, ok, sized) ↦
            let group : breaches_group numbers t (group_peers t.ticker) rows ≡ false =
              group-quiet numbers floor less_or_at_most t (group_peers t.ticker)
                (read_peers numbers t.run_id t.as_of (some t.ticker) rows) rows
                (group_sum-exposure numbers floor t rows known grouped) ok in
            let quiet : breaches_breaker numbers t t.drawdown_breaker_window_days rows ≡ false =
              breaker-quiet numbers floor less_or_at_most t t.drawdown_breaker_window_days rows
                unclosed calm in
            elim (evaluate_portfolio-commit numbers floor less_or_at_most risk account d t rows h a
              refl refl refl refl r) [
                | inl breach ↦ absurd (cc (breach, group))
                | inr breach ↦ absurd (cc (breach, quiet))
              ]
      ]

  -- What the portfolio manager of a run approves over the positions is not rejected, when the commit of the run
  -- meets the same positions: its exposure, its loss at the stops, its group and the drawdown breaker
  -- pass the checks in SQL as well, provided that the tickers are in the map of the groups and that no
  -- position of the ticker was closed at the very instant of the run.
  pub signed_off-commit :
      (price : Price numbers kinds) (trade : Option (Trade numbers kinds))
      (verdict : Option (Verdict numbers kinds)) (risk : Option (RiskDecision numbers))
      (d : PortfolioDecision numbers) (t : Thesis numbers) (rows : List (Row numbers))
      → signed_off numbers kinds args knobs floor trade risk rows ≡ some d
      → d.approved_for_execution ≡ true
      → thesis_for numbers kinds args knobs price trade verdict risk (some d) ≡ some t
      → contains args.ticker grouped_tickers ≡ true
      → any (is_ungrouped numbers floor) rows ≡ false
      → any (closed_here numbers t) rows ≡ false
      → status_of numbers t rows ≢ rejected
  unfolding signed_off
  signed_off-commit price trade verdict none d t rows h a g known grouped unclosed = absurd (cc h)
  signed_off-commit price none verdict (some risk) d t rows h a g known grouped unclosed =
      absurd (cc h)
  signed_off-commit price (some trade) none (some risk) d t rows h a g known grouped unclosed =
      absurd (cc g)
  signed_off-commit price (some trade) (some verdict) (some risk) d t rows h a g known grouped
        unclosed =
      subst (λ t. any (closed_here numbers t) rows ≡ false → status_of numbers t rows ≢ rejected)
        (cc g) (commit-admitted price trade verdict risk d rows h a known grouped) unclosed
