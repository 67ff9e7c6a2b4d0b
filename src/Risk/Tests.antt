-- ===== src/Risk/Tests.antt =====
-- src/agents/risk_mgmt/risk.js and src/agents/managers/portfolio_manager.js: theses in numbers of whole ten-thousandths.
use news_market_ai.Common.{
  ℕ, ◌+◌, ◌-◌, ◌*◌, ◌/◌, ◌⊎◌, ◌≡◌, refl, true, not, none, some, [], ltb, leb, arith,
}
use news_market_ai.Exit.Numbers.{Numbers, long}
use news_market_ai.Book.Guards.{Thesis, group_of_ticker, group_cap_of}
use news_market_ai.Risk.{
  Proposal, RiskDecision, evaluate_risk, compute_stop_and_target, compute_atr,
}
use news_market_ai.Risk.Bounds.{Refused, Sized, evaluate_risk-bounds}
use news_market_ai.Risk.Portfolio.{
  Account, PortfolioDecision, evaluate_portfolio, size_for, within_ceiling,
}
use news_market_ai.Risk.Approved.{Refuses, Approves, evaluate_portfolio-Approves}

abbrev ten_thousandths : Numbers
ten_thousandths = record {
  Num = ℕ;
  is_finite = λ a. ltb a 1000000;
  zero = 0;
  one = 10000;
  of_nat = λ n. n * 10000;
  plus = λ a b. a + b;
  minus = λ a b. a - b;
  times = λ a b. a * b / 10000;
  over = λ a b. a * 10000 / b;
  abs = λ a. a;
  less = ltb;
  at_most = leb;
}

less_at_most : (a b : ℕ) → ltb a b ≡ true → leb a b ≡ true
less_at_most a b h = ground arith

at_most_refl : (a : ℕ) → leb a a ≡ true
at_most_refl a = ground arith

less_or_at_most : (a b : ℕ) → ltb b a ≡ not (leb a b)
less_or_at_most a b = ground arith

abbrev proposal : Proposal ten_thousandths
proposal = record { ticker = "AAPL"; as_of = 5; direction = some long }

abbrev sized : RiskDecision ten_thousandths
sized = record {
  trade_thesis_id = ("AAPL", 5);
  approved = true;
  position_size_pct = 400;
  stop_loss_pct = some 300;
  take_profit_pct = some 600;
}

sizes : evaluate_risk ten_thousandths proposal 8000 [] ≡ some sized
unfolding evaluate_risk compute_stop_and_target compute_atr
sizes = refl

evaluate_risk-bounds_example :
    Refused ten_thousandths less_at_most at_most_refl refl sized
    ⊎ Sized ten_thousandths less_at_most at_most_refl refl proposal 8000 sized
evaluate_risk-bounds_example =
    evaluate_risk-bounds ten_thousandths less_at_most at_most_refl refl proposal 8000 [] sized sizes

-- The whole part of a number.
abbrev floor : ℕ → ℕ
floor a = a / 10000 * 10000

abbrev account : Account ten_thousandths
account = record {
  open_positions_risk_pct = 0;
  open_positions_stop_risk_pct = 0;
  realized_pnl_pct = none;
  drawdown_breaker_pct = 0;
  ticker = "AAPL";
  direction = some long;
  open_positions = some [];
}

abbrev signed : PortfolioDecision ten_thousandths
signed = record {
  trade_thesis_id = ("AAPL", 5);
  approved_for_execution = true;
  final_position_size_pct = 400;
  reason = within_ceiling;
}

signs : evaluate_portfolio ten_thousandths floor sized account ≡ some signed
unfolding evaluate_portfolio size_for group_of_ticker group_cap_of
signs = refl

-- 1.9% of the book is lost if the open positions hit their stops, so the size is cut from 4% to 3.33%.
abbrev crowded : Account ten_thousandths
crowded = record account { open_positions_stop_risk_pct = 190 }

abbrev cut : PortfolioDecision ten_thousandths
cut = record signed { final_position_size_pct = 333 }

cuts : evaluate_portfolio ten_thousandths floor sized crowded ≡ some cut
unfolding evaluate_portfolio size_for group_of_ticker group_cap_of
cuts = refl

evaluate_portfolio-Approves_example :
    Refuses ten_thousandths floor cut ⊎ Approves ten_thousandths floor sized crowded cut
evaluate_portfolio-Approves_example =
    evaluate_portfolio-Approves ten_thousandths floor sized crowded cut cuts

-- A peer of the group that the sign-off was not shown.
abbrev thesis : Thesis ten_thousandths
thesis = record {
  run_id = "live";
  id = "AAPL|5";
  ticker = "AAPL";
  trade_thesis_id = "AAPL|5";
  position_size_pct = 400;
  direction = some long;
  entry_price = some 1200000;
  entry_price_source = none;
  entry_price_bar_ts = none;
  stop_loss_pct = some 300;
  take_profit_pct = some 600;
  trail_knobs = none;
  as_of = 5;
  exit_price = some 1200000;
  confidence = some 8000;
  flip_min_confidence = 7500;
  drawdown_breaker_pct = 0;
  drawdown_breaker_window_days = none;
  trade_cost_bps = some 0;
}
