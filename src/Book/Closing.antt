-- ===== src/Book/Closing.antt =====
-- src/storage/run_store.js, `commitThesis`: what closing the ticker's older rows, and adding the new one, leave of the
-- sums that the three statements read.
use news_market_ai.Common.{
  ℕ, ◌≡◌, refl, ap, ◌∙◌, String, Bool, true, false, ◌||◌, ◌==◌, keyed_string, keyed_nat, same_refl,
  Option, none, some, List, [], ◌∷◌, ◌++◌, map, any, contains, if◌then◌else◌, arith, inl, inr,
  Bool-cases,
}
use news_market_ai.Exit.Numbers.{
  Numbers, Direction, round_trip_cost_fraction, side_cost_fraction, gross_return,
}
use news_market_ai.Book.{Row}
use news_market_ai.Book.Guards.{
  Thesis, sum_from, is_other_at, is_peer_at, in_book_at, breaker_term, return_term, price_at,
  size_term, stop_term, group_peers, peers_in, ticker_groups, group_of_ticker, add_term,
}
use news_market_ai.Book.Limits.{is_newer, is_holding}
use news_market_ai.Book.Commit.{is_closing, closed_row, close_row, new_row}

module _ (numbers : Numbers) where
  pub sum_from-map :
      (p : Row numbers → Bool) (term : Row numbers → Option numbers.Num) (bad : Row numbers → Bool)
      (change : Row numbers → Row numbers)
      → ((r : Row numbers) → bad r ≡ false → p (change r) ≡ p r)
      → ((r : Row numbers) → bad r ≡ false → p r ≡ true → term (change r) ≡ term r)
      → (sum : numbers.Num) (rows : List (Row numbers)) → any bad rows ≡ false
      → sum_from numbers p term sum (map change rows) ≡ sum_from numbers p term sum rows
  sum_from-map p term bad change same same_term sum [] h = refl
  sum_from-map p term bad change same same_term sum (r ∷ rows) h =
      ap (λ s. sum_from numbers p term s (map change rows)) (same_step (bad r) (p r) refl refl)
      ∙ sum_from-map p term bad change same same_term
          (if p r then add_term numbers sum (term r) else sum) rows (ground arith)
    where
      same_step :
          (b c : Bool)
          → bad r ≡ b
          → p r ≡ c
          → (if p (change r) then add_term numbers sum (term (change r)) else sum)
            ≡ (if p r then add_term numbers sum (term r) else sum)
      same_step b c e f = ground (arith, same r, same_term r)

  pub any-map :
      (p bad : Row numbers → Bool) (change : Row numbers → Row numbers)
      → ((r : Row numbers) → bad r ≡ false → p (change r) ≡ false)
      → (rows : List (Row numbers)) → any bad rows ≡ false
      → any p (map change rows) ≡ false
  any-map p bad change never [] h = refl
  any-map p bad change never (r ∷ rows) h = ground (arith, never r, any-map p bad change never rows)

  pub close_row-newer :
      (t : Thesis numbers) (r : Row numbers)
      → is_newer numbers t r ≡ false
      → is_newer numbers t (close_row numbers t r) ≡ false
  close_row-newer t r h = ground arith

  pub close_row-holding :
      (t : Thesis numbers) (r : Row numbers) → is_holding numbers t (close_row numbers t r) ≡ false
  close_row-holding t r = ground arith

  pub close_row-other :
      (t : Thesis numbers) (r : Row numbers)
      → is_other_at numbers t (close_row numbers t r) ≡ is_other_at numbers t r
  close_row-other t r = ground arith

  pub close_row-size :
      (t : Thesis numbers) (r : Row numbers)
      → size_term numbers (close_row numbers t r) ≡ size_term numbers r
  close_row-size t r = ground arith

  pub close_row-stop :
      (t : Thesis numbers) (r : Row numbers)
      → stop_term numbers (close_row numbers t r) ≡ stop_term numbers r
  close_row-stop t r = ground arith

  -- The thesis' own ticker is no peer of itself.
  contains-peers_in :
      (ticker group : String) (rest : List (String × String))
      → contains ticker (peers_in ticker group rest) ≡ false
  contains-peers_in ticker group [] = refl
  contains-peers_in ticker group ((other, its) ∷ rest) =
      ground (arith, contains-peers_in ticker group rest)

  pub contains-group_peers : (ticker : String) → contains ticker (group_peers ticker) ≡ false
  unfolding group_peers
  contains-group_peers ticker = contains-peers_in ticker (group_of_ticker ticker) ticker_groups

  pub close_row-peer :
      (t : Thesis numbers) (peers : List String)
      → contains t.ticker peers ≡ false
      → (r : Row numbers)
      → is_peer_at numbers t peers (close_row numbers t r) ≡ is_peer_at numbers t peers r
  close_row-peer t peers h r = elim (Bool-cases (r.ticker == t.ticker)) [
    | inl e ↦ ground (arith, h, (keyed_string.same_iff r.ticker t.ticker).0 e)
    | inr e ↦ ground arith
  ]

  -- A row that this commit closes keeps its mark in the breaker's sum.
  pub close_row-book :
      (t : Thesis numbers) (days : ℕ) (r : Row numbers)
      → is_newer numbers t r ≡ false
      → in_book_at numbers t days (close_row numbers t r) ≡ in_book_at numbers t days r
  close_row-book t days r h = ground (arith, same_refl t.as_of)

  closed_row-price :
      (t : Thesis numbers) (r : Row numbers)
      → is_closing numbers t r ≡ true
      → price_at numbers t (closed_row numbers t r) ≡ price_at numbers t r
  closed_row-price t r h = ground (arith, same_refl t.as_of)

  pub close_row-term :
      (t : Thesis numbers) (r : Row numbers)
      → breaker_term numbers t (close_row numbers t r) ≡ breaker_term numbers t r
  unfolding round_trip_cost_fraction side_cost_fraction gross_return
  close_row-term t r = elim (Bool-cases (is_closing numbers t r)) [
    | inl b ↦ rw b (
        ap
          (λ px.
            return_term numbers r.direction r.entry_price px r.position_size_pct
              (round_trip_cost_fraction numbers t.trade_cost_bps))
          (closed_row-price t r b))
    | inr b ↦ rw b refl
  ]

  pub sum_from-append :
      (p : Row numbers → Bool) (term : Row numbers → Option numbers.Num) (new : Row numbers)
      → ((sum : numbers.Num) → sum_from numbers p term sum (new ∷ []) ≡ sum)
      → (sum : numbers.Num) (rows : List (Row numbers))
      → sum_from numbers p term sum (rows ++ (new ∷ [])) ≡ sum_from numbers p term sum rows
  sum_from-append p term new h sum [] = h sum
  sum_from-append p term new h sum (r ∷ rows) =
      sum_from-append p term new h (if p r then add_term numbers sum (term r) else sum) rows

  pub any-append :
      (p : Row numbers → Bool) (new : Row numbers) (rows : List (Row numbers))
      → any p (rows ++ (new ∷ [])) ≡ (any p rows || p new)
  any-append p new [] = ground arith
  any-append p new (r ∷ rows) = ground (arith, any-append p new rows)

  return_term-none :
      (direction : Option Direction) (entry : Option numbers.Num) (size cost : numbers.Num)
      → return_term numbers direction entry none size cost ≡ none
  return_term-none none entry size cost = refl
  return_term-none (some direction) none size cost = refl
  return_term-none (some direction) (some entry) size cost = refl

  -- A row that no exit check has seen adds nothing to the breaker's sum.
  pub new_row-book :
      (t : Thesis numbers) (days : ℕ) (sum : numbers.Num)
      → sum_from numbers
          (in_book_at numbers t days)
          (breaker_term numbers t)
          sum
          (new_row numbers t ∷ [])
        ≡ sum
  unfolding round_trip_cost_fraction side_cost_fraction gross_return
  new_row-book t days sum =
      rw
        (return_term-none t.direction t.entry_price t.position_size_pct
          (round_trip_cost_fraction numbers t.trade_cost_bps))
        (same_branch (in_book_at numbers t days (new_row numbers t)) sum)
    where
      same_branch : (b : Bool) (a : numbers.Num) → (if b then a else a) ≡ a
      same_branch true a = refl
      same_branch false a = refl
