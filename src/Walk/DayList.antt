-- ===== src/Walk/DayList.antt =====
-- src/backtest/onSignalRunner.js: the days of a window from the day of a cursor on.
use news_market_ai.Common.{
  ℕ, suc, ◌≤◌, ◌≡◌, ◌∙◌, sym, refl, ap, false, List, [], ◌∷◌, arith, ◌==◌, keyed_nat, All, inl, inr,
  Bool-cases,
}
use news_market_ai.Walk.{from_day}

abbrev pub IsAscending : List ℕ → Type 0
IsAscending [] = Unit
IsAscending (d ∷ ds) = All (λ e. suc d ≤ e) ds × IsAscending ds

pub from_day-past : (c d : ℕ) (ds : List ℕ) → suc d ≤ c → from_day c (d ∷ ds) ≡ from_day c ds
unfolding from_day
from_day-past c d ds h = ground arith

pub from_day-first : (c d : ℕ) (ds : List ℕ) → c ≡ d → from_day c (d ∷ ds) ≡ d ∷ ds
unfolding from_day
from_day-first c d ds h = ground arith

pub from_day-head :
    (c : ℕ) (days : List ℕ) (d : ℕ) (rest : List ℕ) → from_day c days ≡ d ∷ rest → c ≡ d
unfolding from_day
from_day-head c [] d rest h = cc
from_day-head c (x ∷ xs) d rest h = ground (arith, from_day-head c xs d rest)

pub from_day-IsAscending :
    (c : ℕ) (days : List ℕ) → IsAscending days → IsAscending (from_day c days)
unfolding from_day
from_day-IsAscending c [] asc = tt
from_day-IsAscending c (x ∷ xs) asc = elim (Bool-cases (x == c)) [
  | inl b ↦ rw b asc
  | inr b ↦ rw b (from_day-IsAscending c xs asc.1)
]

from_day-above :
    (n c : ℕ) (days : List ℕ) (d : ℕ) (rest : List ℕ)
    → All (λ e. n ≤ e) days
    → from_day c days ≡ d ∷ rest
    → n ≤ c
unfolding from_day
from_day-above n c [] d rest a h = cc
from_day-above n c (x ∷ xs) d rest a h = ground (arith, from_day-above n c xs d rest a.1)

All-weaken : (n : ℕ) (xs : List ℕ) → All (λ e. suc n ≤ e) xs → All (λ e. n ≤ e) xs
All-weaken n [] a = tt
All-weaken n (x ∷ xs) a = (omega arith, All-weaken n xs a.1)

pub IsAscending-All : (d : ℕ) (rest : List ℕ) → IsAscending (d ∷ rest) → All (λ e. d ≤ e) (d ∷ rest)
IsAscending-All d rest asc = (omega arith, All-weaken d rest asc.0)

from_day-next : (c x : ℕ) (xs : List ℕ) → (x == c) ≡ false → from_day c (x ∷ xs) ≡ from_day c xs
unfolding from_day
from_day-next c x xs b = rw b refl

pub from_day-from_day :
    (c e : ℕ) (days : List ℕ) (d : ℕ) (rest : List ℕ)
    → IsAscending days
    → from_day c days ≡ d ∷ rest
    → c ≤ e
    → from_day e (from_day c days) ≡ from_day e days
unfolding from_day
from_day-from_day c e [] d rest asc h l = cc
from_day-from_day c e (x ∷ xs) d rest asc h l = elim (Bool-cases (x == c)) [
  | inl b ↦ rw b refl
  | inr b ↦
      let below = from_day-above (suc x) c xs d rest asc.0 (sym (from_day-next c x xs b) ∙ h) in
      ap (from_day e) (from_day-next c x xs b)
      ∙ from_day-from_day c e xs d rest asc.1 (sym (from_day-next c x xs b) ∙ h) l
      ∙ sym (from_day-past e x xs (omega arith))
]
