-- ===== src/Walk/Schedule.antt =====
-- src/backtest/onSignalRunner.js: the schedule of a window, by no reference to the walk: for each day the
-- items of each ticker in turn, then the exit check. What is left of it at a cursor.
use news_market_ai.Common.{
  ℕ, ◌≡◌, refl, String, true, false, Option, none, some, List, [], ◌∷◌, ◌++◌, arith, if◌then◌else◌,
  ◌==◌, keyed_nat, All, drop,
}
use news_market_ai.Walk.{
  Item, Key, key_of, is_after_cursor_key, is_behind, Cursor, Finished, item_done, exits_done,
}

-- Strictly sorted by (published_at, id), the order that the news query returns.
abbrev pub IsSorted : List Item → Type 0
IsSorted [] = Unit
IsSorted (x ∷ xs) = All (λ y. is_after_cursor_key y (key_of x) ≡ true) xs × IsSorted xs

-- The items that a cursor key does not cover.
unfoldable pub pending : Option Key → List Item → List Item
pending after [] = []
pending after (x ∷ xs) = if is_behind x after then pending after xs else x ∷ pending after xs

unfoldable pub item_units : String → ℕ → List Item → List Finished
item_units ticker day [] = []
item_units ticker day (x ∷ xs) = item_done ticker day x ∷ item_units ticker day xs

module _ (news : String → ℕ → List Item) where
  -- The units of the tickers that are left on a day, the first of them from a key on.
  unfoldable pub ticker_units : ℕ → List String → Option Key → List Finished
  ticker_units day [] after = []
  ticker_units day (t ∷ ts) after =
      item_units t day (pending after (news t day)) ++ ticker_units day ts none

module _ (news : String → ℕ → List Item) (all_tickers : List String) where
  unfoldable pub day_units : List ℕ → List Finished
  day_units [] = []
  day_units (d ∷ ds) = ticker_units news d all_tickers none ++ (exits_done d ∷ day_units ds)

  -- What is left at a cursor on the first of the days.
  unfoldable pub units_left : List ℕ → Cursor → List Finished
  units_left [] pos = []
  units_left (d ∷ ds) pos =
      if d == pos.day
      then (if pos.exits
          then exits_done d ∷ day_units ds
          else ticker_units news d (drop pos.ticker all_tickers) pos.after
            ++ (exits_done d ∷ day_units ds))
      else day_units (d ∷ ds)

-- A key that covers whatever another covers.
abbrev pub Covers : Option Key → Option Key → Type 0
Covers after later = (x : Item) → is_behind x after ≡ true → is_behind x later ≡ true

pub behind_own_key : (x : Item) → is_behind x (some (key_of x)) ≡ true
unfolding is_behind
behind_own_key x = ground arith

-- An item that lies after another and is covered covers it.
pub behind_before :
    (x y : Item) (after : Option Key)
    → is_after_cursor_key y (key_of x) ≡ true
    → is_behind y after ≡ true
    → is_behind x after ≡ true
unfolding is_behind is_after_cursor_key
behind_before x y none h k = cc
behind_before x y (some after) h k = ground arith

pub key_covers :
    (x y : Item) (after : Option Key)
    → is_behind y after ≡ false
    → is_behind x after ≡ true
    → is_behind x (some (key_of y)) ≡ true
unfolding is_behind is_after_cursor_key
key_covers x y none h k = cc
key_covers x y (some after) h k = ground arith

pub pending_behind :
    (x : Item) (xs : List Item) (after : Option Key)
    → is_behind x after ≡ true
    → pending after (x ∷ xs) ≡ pending after xs
unfolding pending
pending_behind x xs after b = rw b refl

pub pending-All :
    (after : Option Key) (xs : List Item)
    → All (λ y. is_behind y after ≡ false) xs
    → pending after xs ≡ xs
unfolding pending
pending-All after [] h = refl
pending-All after (x ∷ xs) h = ground (arith, pending-All after xs h.1)

after-not_behind :
    (x y : Item) → is_after_cursor_key y (key_of x) ≡ true → is_behind y (some (key_of x)) ≡ false
unfolding is_behind
after-not_behind x y h = ground arith

pub All-after :
    (x : Item) (xs : List Item)
    → All (λ y. is_after_cursor_key y (key_of x) ≡ true) xs
    → All (λ y. is_behind y (some (key_of x)) ≡ false) xs
All-after x [] h = tt
All-after x (y ∷ ys) h = (after-not_behind x y h.0, All-after x ys h.1)

not_behind_trans :
    (x y : Item) (after : Option Key)
    → is_behind x after ≡ false
    → is_after_cursor_key y (key_of x) ≡ true
    → is_behind y after ≡ false
unfolding is_behind is_after_cursor_key
not_behind_trans x y none h k = refl
not_behind_trans x y (some after) h k = ground arith

pub All-later :
    (x : Item) (after : Option Key) (xs : List Item)
    → is_behind x after ≡ false
    → All (λ y. is_after_cursor_key y (key_of x) ≡ true) xs
    → All (λ y. is_behind y after ≡ false) xs
All-later x after [] n h = tt
All-later x after (y ∷ ys) n h = (not_behind_trans x y after n h.0, All-later x after ys n h.1)
