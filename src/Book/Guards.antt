-- ===== src/Book/Guards.antt =====
-- src/storage/run_store.js, `commitThesis`: the conditions that its three statements share: the sums, and the constants of
-- src/shared/constants.js that they read.
use news_market_ai.Common.{
  ℕ, ◌+◌, ◌*◌, String, Bool, false, not, ◌&&◌, ◌||◌, ◌==◌, keyed_string, keyed_nat, Option, none,
  some, List, [], ◌∷◌, contains, lookup, leb, ltb, if◌then◌else◌,
}
use news_market_ai.Exit.Numbers.{
  Numbers, Direction, gross_return, round_trip_cost_fraction, side_cost_fraction,
}
use news_market_ai.Book.{Row, is_open_at, closes_after, is_null, same_direction}

-- `TICKER_GROUPS`
abbrev pub ticker_groups : List (String × String)
ticker_groups =
    ("AAPL", "equity")
    ∷ ("MSFT", "equity")
    ∷ ("TSLA", "equity")
    ∷ ("USO", "energy")
    ∷ ("XAUUSD", "gold")
    ∷ ("BTCUSD", "crypto")
    ∷ []

abbrev or_self : String → Option String → String
or_self ticker none = ticker
or_self ticker (some group) = group

unfoldable pub group_of_ticker : String → String
group_of_ticker ticker = or_self ticker (lookup ticker ticker_groups)

-- The loop of the `filter` over the keys of `TICKER_GROUPS`.
abbrev pub peers_in : String → String → List (String × String) → List String
peers_in ticker group [] = []
peers_in ticker group ((other, its) ∷ rest) =
    let others = peers_in ticker group rest in
    if not (other == ticker) && its == group then other ∷ others else others

-- `groupPeers`
unfoldable pub group_peers : String → List String
unfolding group_of_ticker
group_peers ticker = peers_in ticker (group_of_ticker ticker) ticker_groups

module _ (numbers : Numbers) where
  -- A decimal constant of the source is the quotient nearest to it.
  abbrev pub ratio : ℕ → ℕ → numbers.Num
  ratio a b = numbers.over (numbers.of_nat a) (numbers.of_nat b)

  abbrev pub max_portfolio_risk_pct : numbers.Num
  max_portfolio_risk_pct = ratio 1 2

  abbrev pub max_portfolio_stop_risk_pct : numbers.Num
  max_portfolio_stop_risk_pct = ratio 2 100

  abbrev pub fallback_stop_loss_pct : numbers.Num
  fallback_stop_loss_pct = ratio 3 100

  abbrev pub group_cap_epsilon : numbers.Num
  group_cap_epsilon = ratio 1 1000000000

  -- `groupCapOf`
  unfoldable pub group_cap_of : String → numbers.Num
  group_cap_of group = if group == "gold" || group == "crypto" then ratio 3 10 else ratio 1 10

  abbrev pub or_fallback : Option numbers.Num → numbers.Num
  or_fallback none = fallback_stop_loss_pct
  or_fallback (some stop) = stop

  -- `SUM`, which passes over a NULL
  abbrev pub add_term : numbers.Num → Option numbers.Num → numbers.Num
  add_term sum none = sum
  add_term sum (some a) = numbers.plus sum a

  -- The rows that satisfy `p` are added to `sum` in their order.
  abbrev pub sum_from :
      (Row numbers → Bool)
      → (Row numbers → Option numbers.Num)
      → numbers.Num
      → List (Row numbers)
      → numbers.Num
  sum_from p term sum [] = sum
  sum_from p term sum (r ∷ rows) = sum_from p term (if p r then add_term sum (term r) else sum) rows

  -- `COALESCE(SUM(term), 0)` over the rows that satisfy `p`
  abbrev pub sum_where :
      (Row numbers → Bool) → (Row numbers → Option numbers.Num) → List (Row numbers) → numbers.Num
  sum_where p term rows = sum_from p term numbers.zero rows

  -- What `commitThesis` is called with, less what it only stores in the decision.
  pub record Thesis : Type 0 where
    pub run_id : String
    pub id : String
    pub ticker : String
    pub trade_thesis_id : String
    pub position_size_pct : numbers.Num
    pub direction : Option Direction
    pub entry_price : Option numbers.Num
    pub entry_price_source : Option String
    pub entry_price_bar_ts : Option String
    pub stop_loss_pct : Option numbers.Num
    pub take_profit_pct : Option numbers.Num
    pub trail_knobs : Option String
    pub as_of : ℕ
    pub exit_price : Option numbers.Num
    pub confidence : Option numbers.Num
    pub flip_min_confidence : numbers.Num
    pub drawdown_breaker_pct : numbers.Num
    pub drawdown_breaker_window_days : Option ℕ
    pub trade_cost_bps : Option numbers.Num

  -- The rows that P2 and P2b sum over.
  abbrev pub is_other_at : Thesis → Row numbers → Bool
  is_other_at t r = r.run_id == t.run_id && not (r.ticker == t.ticker) && is_open_at t.as_of r

  abbrev pub size_term : Row numbers → Option numbers.Num
  size_term r = some r.position_size_pct

  abbrev pub stop_term : Row numbers → Option numbers.Num
  stop_term r = some (numbers.times r.position_size_pct (or_fallback r.stop_loss_pct))

  abbrev pub is_peer_at : Thesis → List String → Row numbers → Bool
  is_peer_at t peers r =
      r.run_id == t.run_id
      && contains r.ticker peers
      && is_open_at t.as_of r
      && (is_null r.direction || same_direction r.direction t.direction)

  abbrev pub day_ms : ℕ
  day_ms = 86400000

  -- `closed_at IS NOT NULL AND closed_at <= ?`
  abbrev pub closed_by : ℕ → Option ℕ → Bool
  closed_by as_of none = false
  closed_by as_of (some closed) = leb closed as_of

  -- `closed_at = ?`
  abbrev pub closed_on : ℕ → Option ℕ → Bool
  closed_on as_of none = false
  closed_on as_of (some closed) = closed == as_of

  -- `ticker = ? AND closed_at = ?`, which is what `closeOld` itself closes
  abbrev pub closed_here : Thesis → Row numbers → Bool
  closed_here t r = r.ticker == t.ticker && closed_on t.as_of r.closed_at

  -- `closed_at > ?` on the start of the window
  abbrev pub in_window : ℕ → ℕ → Option ℕ → Bool
  in_window as_of days none = false
  in_window as_of days (some closed) = ltb as_of (closed + days * day_ms)

  -- The rows that the breaker sums over: closed in the window, or open as of the instant.
  abbrev pub in_book_at : Thesis → ℕ → Row numbers → Bool
  in_book_at t days r =
      r.run_id == t.run_id
      && (closed_by t.as_of r.closed_at
            && in_window t.as_of days r.closed_at
            && not (closed_here t r)
          || leb r.opened_at t.as_of && (closes_after t.as_of r.closed_at || closed_here t r))

  -- `last_price`, when it was seen by the instant
  abbrev pub mark_at : ℕ → Option ℕ → Option numbers.Num → Option numbers.Num
  mark_at as_of none last = none
  mark_at as_of (some checked) last = if leb checked as_of then last else none

  -- `q.px`
  abbrev pub price_at : Thesis → Row numbers → Option numbers.Num
  price_at t r =
      if closed_by t.as_of r.closed_at && not (closed_here t r)
      then r.exit_price
      else mark_at t.as_of r.last_checked_at r.last_price

  -- The return of one row, NULL when it has no direction or no price.
  abbrev pub return_term :
      Option Direction
      → Option numbers.Num
      → Option numbers.Num
      → numbers.Num
      → numbers.Num
      → Option numbers.Num
  return_term (some direction) (some entry) (some price) size cost =
      some (numbers.times size (numbers.minus (gross_return numbers direction entry price) cost))
  return_term direction entry price size cost = none

  abbrev pub breaker_term : Thesis → Row numbers → Option numbers.Num
  breaker_term t r =
      return_term r.direction r.entry_price (price_at t r) r.position_size_pct
        (round_trip_cost_fraction numbers t.trade_cost_bps)

  -- The sums of the four limits.
  unfoldable pub exposure : Thesis → List (Row numbers) → numbers.Num
  exposure t rows = sum_where (is_other_at t) size_term rows

  unfoldable pub stop_risk : Thesis → List (Row numbers) → numbers.Num
  stop_risk t rows = sum_where (is_other_at t) stop_term rows

  unfoldable pub group_exposure : Thesis → List String → List (Row numbers) → numbers.Num
  group_exposure t peers rows = sum_where (is_peer_at t peers) size_term rows

  unfoldable pub book_return : Thesis → ℕ → List (Row numbers) → numbers.Num
  unfolding round_trip_cost_fraction side_cost_fraction gross_return
  book_return t days rows = sum_where (in_book_at t days) (breaker_term t) rows
