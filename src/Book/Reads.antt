-- ===== src/Book/Reads.antt =====
-- src/storage/run_store.js: the reads of the book as of an instant, and what they have in common with the sums that a
-- commit checks.
use news_market_ai.Common.{
  ℕ, ◌≡◌, refl, ap, ◌∙◌, String, Bool, true, false, not, ◌&&◌, ◌||◌, ◌==◌, keyed_string, Option,
  none, some, List, [], ◌∷◌, contains, leb, ltb, if◌then◌else◌,
}
use news_market_ai.Exit.Numbers.{
  Numbers, Direction, gross_return, round_trip_cost_fraction, side_cost_fraction,
}
use news_market_ai.Book.{Row, CloseReason, flipped, replaced, is_mine, is_open_at}
use news_market_ai.Book.Guards.{
  Thesis, or_fallback, sum_from, is_other_at, size_term, stop_term, exposure, stop_risk, closed_by,
  in_window, mark_at, return_term, add_term,
}

module _ (numbers : Numbers) where
  -- `ticker != ?`, where a ticker to exclude is given
  abbrev pub is_excluded : Option String → String → Bool
  is_excluded none ticker = false
  is_excluded (some excluded) ticker = ticker == excluded

  -- The rows of `getOpenPositionsRiskAsOf`
  abbrev pub is_read : String → ℕ → Option String → Row numbers → Bool
  is_read run as_of excluded r =
      r.run_id == run && not (is_excluded excluded r.ticker) && is_open_at as_of r

  pub record Peer : Type 0 where
    pub ticker : String
    pub direction : Option Direction
    pub position_size_pct : numbers.Num

  pub record Risk : Type 0 where
    pub exposure_pct : numbers.Num
    pub stop_risk_pct : numbers.Num
    pub positions : List Peer

  abbrev pub peer_of : Row numbers → Peer
  peer_of r = record {
    ticker = r.ticker;
    direction = r.direction;
    position_size_pct = r.position_size_pct;
  }

  abbrev pub add_row : Row numbers → Risk → Risk
  add_row r risk = record risk {
    exposure_pct = numbers.plus risk.exposure_pct r.position_size_pct;
    stop_risk_pct =
        numbers.plus risk.stop_risk_pct
          (numbers.times r.position_size_pct (or_fallback numbers r.stop_loss_pct));
  }

  -- The loop over the results: its two sums, then its list.
  abbrev pub read_sums : String → ℕ → Option String → List (Row numbers) → Risk → Risk
  read_sums run as_of excluded [] risk = risk
  read_sums run as_of excluded (r ∷ rows) risk =
      read_sums run as_of excluded rows
        (if is_read run as_of excluded r then add_row r risk else risk)

  abbrev pub read_peers : String → ℕ → Option String → List (Row numbers) → List Peer
  read_peers run as_of excluded [] = []
  read_peers run as_of excluded (r ∷ rows) =
      let rest = read_peers run as_of excluded rows in
      if is_read run as_of excluded r then peer_of r ∷ rest else rest

  -- `getOpenPositionsRiskAsOf`
  unfoldable pub get_open_positions_risk_as_of :
      String → ℕ → Option String → List (Row numbers) → Risk
  get_open_positions_risk_as_of run as_of excluded rows =
      record (read_sums run as_of excluded rows
        (record { exposure_pct = numbers.zero; stop_risk_pct = numbers.zero; positions = [] })) {
          positions = read_peers run as_of excluded rows;
        }

  -- `ORDER BY opened_at DESC LIMIT 1`, the first of two that opened together
  abbrev later_of : Row numbers → Option (Row numbers) → Row numbers
  later_of r none = r
  later_of r (some best) = if ltb r.opened_at best.opened_at then best else r

  -- `getOpenPositionForTickerAsOf`
  unfoldable pub get_open_position_for_ticker_as_of :
      String → String → ℕ → List (Row numbers) → Option (Row numbers)
  get_open_position_for_ticker_as_of run ticker as_of [] = none
  get_open_position_for_ticker_as_of run ticker as_of (r ∷ rows) =
      let rest = get_open_position_for_ticker_as_of run ticker as_of rows in
      if is_mine run ticker r && is_open_at as_of r then some (later_of r rest) else rest

  -- `getOpenPositionsAsOf`
  unfoldable pub get_open_positions_as_of : String → ℕ → List (Row numbers) → List (Row numbers)
  get_open_positions_as_of run as_of [] = []
  get_open_positions_as_of run as_of (r ∷ rows) =
      let rest = get_open_positions_as_of run as_of rows in
      if r.run_id == run && is_open_at as_of r then r ∷ rest else rest

  -- The rows of `getRealizedPnlPctAsOf`
  abbrev pub is_counted : String → ℕ → ℕ → Bool → Row numbers → Bool
  is_counted run as_of days unrealized r =
      r.run_id == run
      && (closed_by numbers as_of r.closed_at && in_window numbers as_of days r.closed_at
          || unrealized && is_open_at as_of r)

  -- `exitPrice` of the loop, `none` where it continues or there is none
  abbrev pub counted_price : ℕ → Row numbers → Option numbers.Num
  counted_price as_of r =
      if closed_by numbers as_of r.closed_at
      then r.exit_price
      else mark_at numbers as_of r.last_checked_at r.last_price

  -- `computeRealizedReturn` times the size
  abbrev pub counted_term : ℕ → Option numbers.Num → Row numbers → Option numbers.Num
  counted_term as_of cost_bps r =
      return_term numbers r.direction r.entry_price (counted_price as_of r) r.position_size_pct
        (round_trip_cost_fraction numbers cost_bps)

  -- `getRealizedPnlPctAsOf`
  unfoldable pub get_realized_pnl_pct_as_of :
      String → ℕ → ℕ → Option numbers.Num → Bool → List (Row numbers) → numbers.Num
  unfolding round_trip_cost_fraction side_cost_fraction gross_return
  get_realized_pnl_pct_as_of run as_of days cost_bps unrealized rows =
      if ltb 0 days
      then sum_from numbers (is_counted run as_of days unrealized) (counted_term as_of cost_bps)
          numbers.zero rows
      else numbers.zero

  abbrev pub is_replaced : Option CloseReason → Bool
  is_replaced (some flipped) = true
  is_replaced (some replaced) = true
  is_replaced reason = false

  -- `closed_at = ?`
  abbrev pub closed_at : ℕ → Option ℕ → Bool
  closed_at at none = false
  closed_at at (some closed) = leb closed at && leb at closed

  -- `getUnsettledReplacedPositions`, with the theses that the decision memory has
  unfoldable pub get_unsettled_replaced_positions :
      String → String → ℕ → List String → List (Row numbers) → List (Row numbers)
  get_unsettled_replaced_positions run ticker at settled [] = []
  get_unsettled_replaced_positions run ticker at settled (r ∷ rows) =
      let rest = get_unsettled_replaced_positions run ticker at settled rows in
      if is_mine run ticker r
        && closed_at at r.closed_at
        && is_replaced r.close_reason
        && not (contains r.trade_thesis_id settled)
      then r ∷ rest
      else rest

  if-exposure :
      (b : Bool) (r : Row numbers) (risk : Risk)
      → (if b then add_row r risk else risk).exposure_pct ≡ (
          if b then add_term numbers risk.exposure_pct (size_term numbers r) else risk.exposure_pct)
  if-exposure true r risk = refl
  if-exposure false r risk = refl

  if-stop_risk :
      (b : Bool) (r : Row numbers) (risk : Risk)
      → (if b then add_row r risk else risk).stop_risk_pct ≡ (
          if b
          then add_term numbers risk.stop_risk_pct (stop_term numbers r)
          else risk.stop_risk_pct)
  if-stop_risk true r risk = refl
  if-stop_risk false r risk = refl

  read_sums-exposure :
      (t : Thesis numbers) (rows : List (Row numbers)) (risk : Risk)
      → (read_sums t.run_id t.as_of (some t.ticker) rows risk).exposure_pct
        ≡ sum_from numbers (is_other_at numbers t) (size_term numbers) risk.exposure_pct rows
  read_sums-exposure t [] risk = refl
  read_sums-exposure t (r ∷ rows) risk =
      read_sums-exposure t rows
        (if is_read t.run_id t.as_of (some t.ticker) r then add_row r risk else risk)
      ∙ ap (λ s. sum_from numbers (is_other_at numbers t) (size_term numbers) s rows)
          (if-exposure (is_read t.run_id t.as_of (some t.ticker) r) r risk)

  read_sums-stop_risk :
      (t : Thesis numbers) (rows : List (Row numbers)) (risk : Risk)
      → (read_sums t.run_id t.as_of (some t.ticker) rows risk).stop_risk_pct
        ≡ sum_from numbers (is_other_at numbers t) (stop_term numbers) risk.stop_risk_pct rows
  read_sums-stop_risk t [] risk = refl
  read_sums-stop_risk t (r ∷ rows) risk =
      read_sums-stop_risk t rows
        (if is_read t.run_id t.as_of (some t.ticker) r then add_row r risk else risk)
      ∙ ap (λ s. sum_from numbers (is_other_at numbers t) (stop_term numbers) s rows)
          (if-stop_risk (is_read t.run_id t.as_of (some t.ticker) r) r risk)

  -- The two sums that the portfolio manager is shown are, for the thesis' ticker and instant, the two sums
  -- that the commit of the thesis checks.
  pub get_open_positions_risk_as_of-sums :
      (t : Thesis numbers) (rows : List (Row numbers))
      → ((get_open_positions_risk_as_of t.run_id t.as_of (some t.ticker) rows).exposure_pct
          ≡ exposure numbers t rows)
        × ((get_open_positions_risk_as_of t.run_id t.as_of (some t.ticker) rows).stop_risk_pct
            ≡ stop_risk numbers t rows)
  unfolding get_open_positions_risk_as_of exposure stop_risk
  get_open_positions_risk_as_of-sums t rows = (
    read_sums-exposure t rows
        (record { exposure_pct = numbers.zero; stop_risk_pct = numbers.zero; positions = [] }),
    read_sums-stop_risk t rows
        (record { exposure_pct = numbers.zero; stop_risk_pct = numbers.zero; positions = [] }),
  )
