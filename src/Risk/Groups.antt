-- ===== src/Risk/Groups.antt =====
-- src/agents/managers/portfolio_manager.js and src/storage/run_store.js: the two sums over the group of a ticker.
use mathlib.Core.Path.{subst}
use news_market_ai.Common.{
  ◌≡◌, refl, String, Bool, true, false, not, ◌&&◌, ◌==◌, keyed_string, some, List, [], ◌∷◌, any,
  contains, if◌then◌else◌, arith, inl, inr, Bool-cases,
}
use news_market_ai.Exit.Numbers.{Numbers}
use news_market_ai.Book.{Row}
use news_market_ai.Book.Guards.{
  Thesis, group_of_ticker, group_peers, is_peer_at, size_term, sum_from, group_exposure,
}
use news_market_ai.Book.Reads.{is_read, peer_of, read_peers}
use news_market_ai.Risk.Portfolio.{is_group_peer, group_sum}

abbrev pub AllOf : (String → Type 0) → List String → Type 0
AllOf P [] = Unit
AllOf P (x ∷ xs) = P x × AllOf P xs

contains-AllOf :
    (P : String → Type 0) (x : String) (xs : List String) → AllOf P xs → contains x xs ≡ true → P x
contains-AllOf P x [] all h = absurd (cc h)
contains-AllOf P x (y ∷ ys) (p, all) h = elim (Bool-cases (y == x)) [
  | inl b ↦ subst P ((keyed_string.same_iff y x).0 b) p
  | inr b ↦ contains-AllOf P x ys all (ground (arith, b, h))
]

-- The keys of `TICKER_GROUPS`
abbrev pub grouped_tickers : List String
grouped_tickers = "AAPL" ∷ "MSFT" ∷ "TSLA" ∷ "USO" ∷ "XAUUSD" ∷ "BTCUSD" ∷ []

-- A ticker of the map is among the peers of another exactly where it is not that one and has its group.
abbrev Agrees : String → String → Type 0
Agrees y x = contains x (group_peers y) ≡ (not (x == y) && group_of_ticker x == group_of_ticker y)

agrees :
    (y : String)
    → AllOf (Agrees y) grouped_tickers
    → (x : String) → contains x grouped_tickers ≡ true
    → Agrees y x
agrees y all x h = contains-AllOf (Agrees y) x grouped_tickers all h

all_agree : AllOf (λ y. AllOf (Agrees y) grouped_tickers) grouped_tickers
unfolding group_of_ticker group_peers
all_agree = (
  (refl, (refl, (refl, (refl, (refl, (refl, tt)))))),
  (
    (refl, (refl, (refl, (refl, (refl, (refl, tt)))))),
    (
      (refl, (refl, (refl, (refl, (refl, (refl, tt)))))),
      (
        (refl, (refl, (refl, (refl, (refl, (refl, tt)))))),
        (
          (refl, (refl, (refl, (refl, (refl, (refl, tt)))))),
          ((refl, (refl, (refl, (refl, (refl, (refl, tt)))))), tt),
        ),
      ),
    ),
  ),
)

peers-agree :
    (y x : String)
    → contains y grouped_tickers ≡ true
    → contains x grouped_tickers ≡ true
    → Agrees y x
peers-agree y x known_y known_x =
    agrees y
      (contains-AllOf (λ z. AllOf (Agrees z) grouped_tickers) y grouped_tickers all_agree known_y) x
      known_x

module _ (numbers : Numbers) (floor : numbers.Num → numbers.Num) where
  -- A row of a ticker that the map of the groups does not have.
  abbrev pub is_ungrouped : Row numbers → Bool
  is_ungrouped r = not (contains r.ticker grouped_tickers)

  peer-read :
      (t : Thesis numbers) (r : Row numbers)
      → contains t.ticker grouped_tickers ≡ true
      → is_ungrouped r ≡ false
      → is_read numbers t.run_id t.as_of (some t.ticker) r ≡ true
      → is_peer_at numbers t (group_peers t.ticker) r
        ≡ is_group_peer numbers floor t.ticker t.direction (peer_of numbers r)
  peer-read t r known grouped read =
      let agree : Agrees t.ticker r.ticker = peers-agree t.ticker r.ticker known (ground arith) in
      ground (arith, agree)

  peer-unread :
      (t : Thesis numbers) (r : Row numbers)
      → contains t.ticker grouped_tickers ≡ true
      → is_ungrouped r ≡ false
      → is_read numbers t.run_id t.as_of (some t.ticker) r ≡ false
      → is_peer_at numbers t (group_peers t.ticker) r ≡ false
  peer-unread t r known grouped read =
      let agree : Agrees t.ticker r.ticker = peers-agree t.ticker r.ticker known (ground arith) in
      ground (arith, agree)

  group_sum-from :
      (t : Thesis numbers) (rows : List (Row numbers)) (sum : numbers.Num)
      → contains t.ticker grouped_tickers ≡ true
      → any is_ungrouped rows ≡ false
      → group_sum numbers floor t.ticker t.direction
          (read_peers numbers t.run_id t.as_of (some t.ticker) rows)
          sum
        ≡ sum_from numbers
            (is_peer_at numbers t (group_peers t.ticker))
            (size_term numbers)
            sum
            rows
  group_sum-from t [] sum known grouped = refl
  group_sum-from t (r ∷ rows) sum known grouped =
      elim (Bool-cases (is_read numbers t.run_id t.as_of (some t.ticker) r)) [
        | inl b ↦ rw b (
            rw (peer-read t r known (ground arith) b) (
              group_sum-from t rows
                (if is_group_peer numbers floor t.ticker t.direction (peer_of numbers r)
                  then numbers.plus sum r.position_size_pct
                  else sum)
                known (ground arith)))
        | inr b ↦ rw b (
            rw (peer-unread t r known (ground arith) b)
              (group_sum-from t rows sum known (ground arith)))
      ]

  -- Over rows of grouped tickers, the sum that the portfolio manager makes of the peers it is shown is the one
  -- that the commit makes of the rows.
  pub group_sum-exposure :
      (t : Thesis numbers) (rows : List (Row numbers))
      → contains t.ticker grouped_tickers ≡ true
      → any is_ungrouped rows ≡ false
      → group_sum numbers floor t.ticker t.direction
          (read_peers numbers t.run_id t.as_of (some t.ticker) rows)
          numbers.zero
        ≡ group_exposure numbers t (group_peers t.ticker) rows
  unfolding group_exposure
  group_sum-exposure t rows known grouped = group_sum-from t rows numbers.zero known grouped
