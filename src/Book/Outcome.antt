-- ===== src/Book/Outcome.antt =====
-- src/storage/run_store.js, `commitThesis`: the three statements see one and the same verdict.
use news_market_ai.Common.{
  ℕ, ◌≡◌, refl, String, false, keyed_string, same_refl, Option, none, some, List, [], ◌∷◌, ◌++◌,
  map, arith,
}
use news_market_ai.Exit.Numbers.{Numbers}
use news_market_ai.Book.{Row}
use news_market_ai.Book.Guards.{
  Thesis, exposure, stop_risk, group_exposure, book_return, group_peers, is_other_at, is_peer_at,
  in_book_at, size_term, stop_term, breaker_term,
}
use news_market_ai.Book.Limits.{
  is_newer, newer_exists, fits_group, breaches_group, fits_breaker, breaches_breaker, fits,
  breaches, group_cap,
}
use news_market_ai.Book.Commit.{close_row, new_row}
use news_market_ai.Book.Closing.{
  sum_from-map, sum_from-append, close_row-other, close_row-size, close_row-stop, close_row-peer,
  close_row-book, close_row-term, contains-group_peers, new_row-book,
}

module _ (numbers : Numbers) where
  -- Two states of the table that give a thesis the same sums.
  pub record Agree (t : Thesis numbers) (rows after : List (Row numbers)) : Type 0 where
    pub exposure_same : exposure numbers t after ≡ exposure numbers t rows
    pub stop_same : stop_risk numbers t after ≡ stop_risk numbers t rows
    pub group_same :
        group_exposure numbers t (group_peers t.ticker) after
        ≡ group_exposure numbers t (group_peers t.ticker) rows
    pub return_same :
        (days : ℕ) → book_return numbers t days after ≡ book_return numbers t days rows

  pub closing-Agree :
      (t : Thesis numbers) (rows : List (Row numbers))
      → newer_exists numbers t rows ≡ false
      → Agree t rows (map (close_row numbers t) rows)
  unfolding exposure stop_risk group_exposure book_return
  closing-Agree t rows h = record {
    exposure_same =
        sum_from-map numbers (is_other_at numbers t) (size_term numbers) (is_newer numbers t)
          (close_row numbers t) (λ r b. close_row-other numbers t r)
          (λ r b k. close_row-size numbers t r) numbers.zero rows h;
    stop_same =
        sum_from-map numbers (is_other_at numbers t) (stop_term numbers) (is_newer numbers t)
          (close_row numbers t) (λ r b. close_row-other numbers t r)
          (λ r b k. close_row-stop numbers t r) numbers.zero rows h;
    group_same =
        sum_from-map numbers (is_peer_at numbers t (group_peers t.ticker)) (size_term numbers)
          (is_newer numbers t) (close_row numbers t)
          (λ r b.
            close_row-peer numbers t (group_peers t.ticker) (contains-group_peers numbers t.ticker)
              r)
          (λ r b k. close_row-size numbers t r) numbers.zero rows h;
    return_same = λ days.
        sum_from-map numbers (in_book_at numbers t days) (breaker_term numbers t)
          (is_newer numbers t) (close_row numbers t) (λ r b. close_row-book numbers t days r b)
          (λ r b k. close_row-term numbers t r) numbers.zero rows h;
  }

  pub opening-Agree :
      (t : Thesis numbers) (rows : List (Row numbers))
      → Agree t rows (rows ++ (new_row numbers t ∷ []))
  unfolding exposure stop_risk group_exposure book_return
  opening-Agree t rows = record {
    exposure_same =
        sum_from-append numbers (is_other_at numbers t) (size_term numbers) (new_row numbers t)
          (λ sum. ground (arith, same_refl t.ticker)) numbers.zero rows;
    stop_same =
        sum_from-append numbers (is_other_at numbers t) (stop_term numbers) (new_row numbers t)
          (λ sum. ground (arith, same_refl t.ticker)) numbers.zero rows;
    group_same =
        sum_from-append numbers (is_peer_at numbers t (group_peers t.ticker)) (size_term numbers)
          (new_row numbers t) (λ sum. ground (arith, contains-group_peers numbers t.ticker))
          numbers.zero rows;
    return_same = λ days.
        sum_from-append numbers (in_book_at numbers t days) (breaker_term numbers t)
          (new_row numbers t) (new_row-book numbers t days) numbers.zero rows;
  }

  fits_group-same :
      (t : Thesis numbers) (rows after : List (Row numbers)) (peers : List String)
      → group_exposure numbers t peers after ≡ group_exposure numbers t peers rows
      → fits_group numbers t peers after ≡ fits_group numbers t peers rows
  unfolding group_cap
  fits_group-same t rows after [] h = refl
  fits_group-same t rows after (peer ∷ peers) h = rw h refl

  breaches_group-same :
      (t : Thesis numbers) (rows after : List (Row numbers)) (peers : List String)
      → group_exposure numbers t peers after ≡ group_exposure numbers t peers rows
      → breaches_group numbers t peers after ≡ breaches_group numbers t peers rows
  unfolding group_cap
  breaches_group-same t rows after [] h = refl
  breaches_group-same t rows after (peer ∷ peers) h = rw h refl

  fits_breaker-same :
      (t : Thesis numbers) (rows after : List (Row numbers)) (window : Option ℕ)
      → ((days : ℕ) → book_return numbers t days after ≡ book_return numbers t days rows)
      → fits_breaker numbers t window after ≡ fits_breaker numbers t window rows
  fits_breaker-same t rows after none h = refl
  fits_breaker-same t rows after (some days) h = rw (h days) refl

  breaches_breaker-same :
      (t : Thesis numbers) (rows after : List (Row numbers)) (window : Option ℕ)
      → ((days : ℕ) → book_return numbers t days after ≡ book_return numbers t days rows)
      → breaches_breaker numbers t window after ≡ breaches_breaker numbers t window rows
  breaches_breaker-same t rows after none h = refl
  breaches_breaker-same t rows after (some days) h = rw (h days) refl

  pub Agree-fits :
      (t : Thesis numbers) (rows after : List (Row numbers))
      → Agree t rows after
      → fits numbers t after ≡ fits numbers t rows
  unfolding fits
  Agree-fits t rows after a = rw a.exposure_same (
      rw a.stop_same (
        rw (fits_group-same t rows after (group_peers t.ticker) a.group_same)
          (rw (fits_breaker-same t rows after t.drawdown_breaker_window_days a.return_same) refl)))

  pub Agree-breaches :
      (t : Thesis numbers) (rows after : List (Row numbers))
      → Agree t rows after
      → breaches numbers t after ≡ breaches numbers t rows
  unfolding breaches
  Agree-breaches t rows after a = rw a.exposure_same (
      rw a.stop_same (
        rw (breaches_group-same t rows after (group_peers t.ticker) a.group_same) (
          rw (breaches_breaker-same t rows after t.drawdown_breaker_window_days a.return_same)
            refl)))
