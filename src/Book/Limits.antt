-- ===== src/Book/Limits.antt =====
-- src/storage/run_store.js, `commitThesis`: the conditions P1 to P3 of its three statements.
use news_market_ai.Common.{
  ℕ, String, Bool, true, false, not, ◌&&◌, ◌||◌, ◌==◌, keyed_string, Option, none, some, List, [],
  ◌∷◌, any, ltb, if◌then◌else◌,
}
use news_market_ai.Exit.Numbers.{Numbers}
use news_market_ai.Book.{
  Row, Status, opened, held, rejected, superseded, is_mine, is_open, is_null, same_direction,
}
use news_market_ai.Book.Guards.{
  Thesis, exposure, stop_risk, group_exposure, book_return, group_of_ticker, group_peers,
  group_cap_of, group_cap_epsilon, max_portfolio_risk_pct, max_portfolio_stop_risk_pct, or_fallback,
}

module _ (numbers : Numbers) where
  -- P1 fails: another open position of the ticker was opened later.
  abbrev pub is_newer : Thesis numbers → Row numbers → Bool
  is_newer t r = is_mine t.run_id t.ticker r && is_open r && ltb t.as_of r.opened_at

  abbrev pub newer_exists : Thesis numbers → List (Row numbers) → Bool
  newer_exists t rows = any (is_newer t) rows

  -- `? < ?` on a confidence that may be NULL
  abbrev pub is_weaker : Option numbers.Num → numbers.Num → Bool
  is_weaker none minimum = false
  is_weaker (some confidence) minimum = numbers.less confidence minimum

  -- P3: the row that the thesis does not replace.
  abbrev pub is_holding : Thesis numbers → Row numbers → Bool
  is_holding t h =
      is_mine t.run_id t.ticker h
      && not (h.id == t.id)
      && is_open h
      && not (is_null h.direction)
      && (same_direction h.direction t.direction || is_weaker t.confidence t.flip_min_confidence)

  abbrev pub hold_exists : Thesis numbers → List (Row numbers) → Bool
  hold_exists t rows = any (is_holding t) rows

  -- The right side of the comparison in P2, P2b and P2c
  abbrev pub with_size : Thesis numbers → numbers.Num → numbers.Num
  with_size t sum = numbers.plus sum t.position_size_pct

  abbrev pub with_stop : Thesis numbers → numbers.Num → numbers.Num
  with_stop t sum =
      numbers.plus sum (numbers.times t.position_size_pct (or_fallback numbers t.stop_loss_pct))

  -- `groupCapOf(groupOfTicker(ticker)) + GROUP_CAP_EPSILON`
  unfoldable pub group_cap : String → numbers.Num
  unfolding group_of_ticker group_cap_of
  group_cap ticker =
      numbers.plus (group_cap_of numbers (group_of_ticker ticker)) (group_cap_epsilon numbers)

  -- `groupAllowClause`: there are peers, and the thesis has a direction.
  abbrev pub fits_group : Thesis numbers → List String → List (Row numbers) → Bool
  fits_group t [] rows = true
  fits_group t (peer ∷ peers) rows =
      is_null t.direction
      || numbers.at_most (with_size t (group_exposure numbers t (peer ∷ peers) rows))
          (group_cap t.ticker)

  -- `groupRejectClause`
  abbrev pub breaches_group : Thesis numbers → List String → List (Row numbers) → Bool
  breaches_group t [] rows = false
  breaches_group t (peer ∷ peers) rows =
      not (is_null t.direction)
      && numbers.less (group_cap t.ticker)
          (with_size t (group_exposure numbers t (peer ∷ peers) rows))

  -- `checkBreaker`
  abbrev pub checks_breaker : Thesis numbers → ℕ → Bool
  checks_breaker t days = numbers.less numbers.zero t.drawdown_breaker_pct && ltb 0 days

  abbrev pub breaker_level : Thesis numbers → numbers.Num
  breaker_level t = numbers.minus numbers.zero t.drawdown_breaker_pct

  -- `breakerAllowClause`
  abbrev pub fits_breaker : Thesis numbers → Option ℕ → List (Row numbers) → Bool
  fits_breaker t none rows = true
  fits_breaker t (some days) rows =
      not (checks_breaker t days)
      || numbers.less (breaker_level t) (book_return numbers t days rows)

  -- `breakerRejectClause`
  abbrev pub breaches_breaker : Thesis numbers → Option ℕ → List (Row numbers) → Bool
  breaches_breaker t none rows = false
  breaches_breaker t (some days) rows =
      checks_breaker t days && numbers.at_most (book_return numbers t days rows) (breaker_level t)

  -- P2 to P2d, as `closeOld` and `openNew` have them
  unfoldable pub fits : Thesis numbers → List (Row numbers) → Bool
  unfolding exposure stop_risk group_exposure book_return group_cap group_peers
  fits t rows =
      numbers.at_most (with_size t (exposure numbers t rows)) (max_portfolio_risk_pct numbers)
      && numbers.at_most (with_stop t (stop_risk numbers t rows))
          (max_portfolio_stop_risk_pct numbers)
      && fits_group t (group_peers t.ticker) rows
      && fits_breaker t t.drawdown_breaker_window_days rows

  -- P2 to P2d, as the CASE of `insertDecision` has them
  unfoldable pub breaches : Thesis numbers → List (Row numbers) → Bool
  unfolding exposure stop_risk group_exposure book_return group_cap group_peers
  breaches t rows =
      numbers.less (max_portfolio_risk_pct numbers) (with_size t (exposure numbers t rows))
      || numbers.less (max_portfolio_stop_risk_pct numbers) (with_stop t (stop_risk numbers t rows))
      || breaches_group t (group_peers t.ticker) rows
      || breaches_breaker t t.drawdown_breaker_window_days rows

  -- The WHERE of `closeOld` and of `openNew`
  unfoldable pub admits : Thesis numbers → List (Row numbers) → Bool
  unfolding fits
  admits t rows = not (newer_exists t rows) && fits t rows && not (hold_exists t rows)

  -- The CASE of `insertDecision`
  unfoldable pub status_of : Thesis numbers → List (Row numbers) → Status
  unfolding breaches
  status_of t rows =
      if newer_exists t rows
      then superseded
      else if hold_exists t rows
      then held
      else if breaches t rows
      then rejected
      else opened
