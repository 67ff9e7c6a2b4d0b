-- ===== src/Risk/Portfolio.antt =====
-- src/agents/managers/portfolio_manager.js: the sign-off of a thesis against the book.
use news_market_ai.Common.{
  ℕ, String, Bool, true, false, not, ◌&&◌, ◌||◌, ◌==◌, keyed_string, Option, none, some, List, [],
  ◌∷◌, if◌then◌else◌,
}
use news_market_ai.Exit.Numbers.{Numbers, Direction}
use news_market_ai.Book.{is_null, same_direction}
use news_market_ai.Book.Guards.{
  ratio, or_fallback, max_portfolio_risk_pct, max_portfolio_stop_risk_pct, group_cap_epsilon,
  group_cap_of, group_of_ticker,
}
use news_market_ai.Book.Reads.{Peer}
use news_market_ai.Risk.{RiskDecision, is_fraction}

-- What the text of the reason says.
pub data Ground : Type 0 where
  not_approved breaker_tripped within_ceiling : Ground
  over_exposure over_stop_risk over_group : Ground

module _ (numbers : Numbers) where
  -- The options of `evaluatePortfolio`, less the one that only words the reason; `none` for the open positions
  -- are options that do not name them.
  pub record Account : Type 0 where
    pub open_positions_risk_pct : numbers.Num
    pub open_positions_stop_risk_pct : numbers.Num
    pub realized_pnl_pct : Option numbers.Num
    pub drawdown_breaker_pct : numbers.Num
    pub ticker : String
    pub direction : Option Direction
    pub open_positions : Option (List (Peer numbers))

  -- `PortfolioDecision`
  pub record PortfolioDecision : Type 0 where
    pub trade_thesis_id : String × ℕ
    pub approved_for_execution : Bool
    pub final_position_size_pct : numbers.Num
    pub reason : Ground

  -- `PortfolioDecision.parse`
  abbrev pub parse_portfolio : PortfolioDecision → Option PortfolioDecision
  parse_portfolio d = if is_fraction numbers d.final_position_size_pct then some d else none

  abbrev pub refusal : String × ℕ → Ground → PortfolioDecision
  refusal id reason = record {
    trade_thesis_id = id;
    approved_for_execution = false;
    final_position_size_pct = numbers.zero;
    reason = reason;
  }

  abbrev pub is_tripped : numbers.Num → Option numbers.Num → Bool
  is_tripped pct none = false
  is_tripped pct (some pnl) =
      numbers.less numbers.zero pct && numbers.at_most pnl (numbers.minus numbers.zero pct)

  abbrev pub stop_risk_scale_margin : numbers.Num
  stop_risk_scale_margin = ratio numbers 1 1000000000

  abbrev pub min_scaled_position_pct : numbers.Num
  min_scaled_position_pct = ratio numbers 1 100

  module _ (floor : numbers.Num → numbers.Num) where
    -- `scaledSizePct`, from what is left of the ceiling
    abbrev pub scaled_size : numbers.Num → numbers.Num → numbers.Num
    scaled_size budget stop =
        if numbers.less numbers.zero budget
        then numbers.over (floor (numbers.times (numbers.over budget stop) (numbers.of_nat 10000)))
            (numbers.of_nat 10000)
        else numbers.zero

    abbrev pub budget_left : Account → numbers.Num
    budget_left account =
        numbers.minus
          (numbers.minus (max_portfolio_stop_risk_pct numbers) account.open_positions_stop_risk_pct)
          stop_risk_scale_margin

    abbrev pub smaller_of : numbers.Num → numbers.Num → numbers.Num
    smaller_of size scaled =
        if numbers.at_most min_scaled_position_pct scaled && numbers.less scaled size
        then scaled
        else size

    -- `positionSizePct`, after the scaling
    unfoldable pub size_for : Account → numbers.Num → numbers.Num → numbers.Num
    size_for account stop size =
        if numbers.less numbers.zero stop
          && numbers.less (max_portfolio_stop_risk_pct numbers)
              (numbers.plus account.open_positions_stop_risk_pct (numbers.times size stop))
        then smaller_of size (scaled_size (budget_left account) stop)
        else size

    -- A position that counts for the group of the ticker.
    abbrev pub is_group_peer : String → Option Direction → Peer numbers → Bool
    is_group_peer ticker direction p =
        not (p.ticker == ticker)
        && group_of_ticker p.ticker == group_of_ticker ticker
        && (is_null p.direction || same_direction p.direction direction)

    abbrev pub group_sum :
        String → Option Direction → List (Peer numbers) → numbers.Num → numbers.Num
    group_sum ticker direction [] sum = sum
    group_sum ticker direction (p ∷ ps) sum =
        group_sum ticker direction ps
          (if is_group_peer ticker direction p then numbers.plus sum p.position_size_pct else sum)

    -- `groupOk`
    abbrev pub group_ok :
        String → Option Direction → numbers.Num → Option (List (Peer numbers)) → Bool
    group_ok ticker direction size none = true
    group_ok ticker none size (some ps) = true
    group_ok ticker (some d) size (some ps) =
        numbers.at_most (numbers.plus (group_sum ticker (some d) ps numbers.zero) size)
          (numbers.plus (group_cap_of numbers (group_of_ticker ticker)) (group_cap_epsilon numbers))

    abbrev pub exposure_ok : Account → numbers.Num → Bool
    exposure_ok account size =
        numbers.at_most (numbers.plus account.open_positions_risk_pct size)
          (max_portfolio_risk_pct numbers)

    abbrev pub stop_risk_ok : Account → numbers.Num → numbers.Num → Bool
    stop_risk_ok account size stop =
        numbers.at_most
          (numbers.plus account.open_positions_stop_risk_pct (numbers.times size stop))
          (max_portfolio_stop_risk_pct numbers)

    abbrev pub sign_off : String × ℕ → Account → numbers.Num → numbers.Num → PortfolioDecision
    sign_off id account size stop =
        if not (exposure_ok account size)
        then refusal id over_exposure
        else if not (stop_risk_ok account size stop)
        then refusal id over_stop_risk
        else if not (group_ok account.ticker account.direction size account.open_positions)
        then refusal id over_group
        else record {
          trade_thesis_id = id;
          approved_for_execution = true;
          final_position_size_pct = size;
          reason = within_ceiling;
        }

    -- `evaluatePortfolio`
    unfoldable pub evaluate_portfolio : RiskDecision numbers → Account → Option PortfolioDecision
    unfolding size_for group_of_ticker group_cap_of
    evaluate_portfolio risk account =
        let stop = or_fallback numbers risk.stop_loss_pct in
        let size = size_for account stop risk.position_size_pct in
        if not risk.approved
        then parse_portfolio (refusal risk.trade_thesis_id not_approved)
        else if is_tripped account.drawdown_breaker_pct account.realized_pnl_pct
        then parse_portfolio (refusal risk.trade_thesis_id breaker_tripped)
        else parse_portfolio (sign_off risk.trade_thesis_id account size stop)
