-- ===== src/Pipeline/Inputs.antt =====
-- src/graph/pipeline.js and src/graph/drawdown_breaker.js: what the stages hand to the risk rules, to the portfolio manager
-- and to the commit.
use news_market_ai.Common.{ℕ, true, Option, none, some, List, [], if◌then◌else◌}
use news_market_ai.Exit.Numbers.{Numbers}
use news_market_ai.Book.{Row}
use news_market_ai.Book.Guards.{Thesis}
use news_market_ai.Book.Reads.{Risk, get_open_positions_risk_as_of, get_realized_pnl_pct_as_of}
use news_market_ai.Risk.{DailyBar, RiskDecision, evaluate_risk}
use news_market_ai.Risk.Portfolio.{Account, PortfolioDecision, evaluate_portfolio}
use news_market_ai.Pipeline.{Kinds, Trade, Verdict}
use news_market_ai.Pipeline.World.{Args, Price, Knobs}

-- A window that is not set is no window.
abbrev pub days_of : Option ℕ → ℕ
days_of none = 0
days_of (some days) = days

module _ (numbers : Numbers) (kinds : Kinds) (args : Args) where
  -- The bars in the state, of which there are none in a checkpoint from before they were kept
  abbrev pub bars_for :
      (kinds.Bars → List (DailyBar numbers)) → Option kinds.Bars → List (DailyBar numbers)
  bars_for daily none = []
  bars_for daily (some bars) = daily bars

  -- The decision of `evaluateRisk` at the stage "risk_checked"; `none` where it throws
  abbrev pub risk_for :
      Option (Trade numbers kinds)
      → Option (Verdict numbers kinds)
      → List (DailyBar numbers)
      → Option (RiskDecision numbers)
  risk_for none verdict bars = none
  risk_for (some trade) none bars = none
  risk_for (some trade) (some verdict) bars =
      evaluate_risk numbers
        (record { ticker = args.ticker; as_of = args.as_of; direction = trade.direction })
        verdict.confidence bars

  module _ (knobs : Knobs numbers kinds) where
    -- `realizedPnlPct` of `loadDrawdownBreakerOptions`, `none` where the options are empty
    unfoldable pub load_drawdown_breaker_options : List (Row numbers) → Option numbers.Num
    unfolding get_realized_pnl_pct_as_of
    load_drawdown_breaker_options rows =
        if numbers.less numbers.zero knobs.drawdown_breaker_pct
        then some (
            get_realized_pnl_pct_as_of numbers args.run_id args.as_of
              (days_of knobs.drawdown_breaker_window_days) knobs.trade_cost_bps true rows)
        else none

    -- The options of `evaluatePortfolio`: the other tickers' positions, and the breaker's
    abbrev pub account_of :
        Trade numbers kinds → Risk numbers → Option numbers.Num → Account numbers
    account_of trade risk pnl = record {
      open_positions_risk_pct = risk.exposure_pct;
      open_positions_stop_risk_pct = risk.stop_risk_pct;
      realized_pnl_pct = pnl;
      drawdown_breaker_pct = knobs.drawdown_breaker_pct;
      ticker = args.ticker;
      direction = trade.direction;
      open_positions = some risk.positions;
    }

    -- `state.portfolioDecision` over the positions; `none` where it throws
    unfoldable pub signed_off :
        (numbers.Num → numbers.Num)
        → Option (Trade numbers kinds)
        → Option (RiskDecision numbers)
        → List (Row numbers)
        → Option (PortfolioDecision numbers)
    unfolding evaluate_portfolio get_open_positions_risk_as_of load_drawdown_breaker_options
    signed_off floor trade none rows = none
    signed_off floor none (some decision) rows = none
    signed_off floor (some trade) (some decision) rows = evaluate_portfolio numbers floor decision (
        account_of trade
          (get_open_positions_risk_as_of numbers args.run_id args.as_of (some args.ticker) rows)
          (load_drawdown_breaker_options rows))

    -- The arguments of `commitThesis`
    abbrev pub thesis_of :
        Price numbers kinds
        → Trade numbers kinds
        → Verdict numbers kinds
        → RiskDecision numbers
        → PortfolioDecision numbers
        → Thesis numbers
    thesis_of price trade verdict risk d = record {
      run_id = args.run_id;
      id = args.trade_thesis_id;
      ticker = args.ticker;
      trade_thesis_id = args.trade_thesis_id;
      position_size_pct = d.final_position_size_pct;
      direction = trade.direction;
      entry_price = some price.price;
      entry_price_source = price.source;
      entry_price_bar_ts = price.bar_ts;
      stop_loss_pct = risk.stop_loss_pct;
      take_profit_pct = risk.take_profit_pct;
      trail_knobs = knobs.trail_knobs;
      as_of = args.as_of;
      exit_price = some price.price;
      confidence = some verdict.confidence;
      flip_min_confidence = knobs.flip_min_confidence;
      drawdown_breaker_pct = knobs.drawdown_breaker_pct;
      drawdown_breaker_window_days = knobs.drawdown_breaker_window_days;
      trade_cost_bps = knobs.trade_cost_bps;
    }

    -- And `none` where the state lacks a part
    abbrev pub thesis_for :
        Price numbers kinds
        → Option (Trade numbers kinds)
        → Option (Verdict numbers kinds)
        → Option (RiskDecision numbers)
        → Option (PortfolioDecision numbers)
        → Option (Thesis numbers)
    thesis_for price (some trade) (some verdict) (some risk) (some d) =
        some (thesis_of price trade verdict risk d)
    thesis_for price trade verdict risk d = none
