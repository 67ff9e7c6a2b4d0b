-- ===== src/Windows/Cover.antt =====
-- src/ingestion/date_windows.js: the windows make up the days of the range, each day once and in order.
use mathlib.Core.List.{append-nil}
use news_market_ai.Common.{
  ℕ, zero, suc, ◌+◌, ◌-◌, ◌/◌, ◌<◌, ◌≤◌, ◌≡◌, ◌∙◌, refl, ap, true, false, some, List, [], ◌∷◌, ◌++◌,
  ltb, leb, leb→le, keyed_nat, All, arith, inl, inr, Bool-cases,
}
use news_market_ai.Windows.{Days, last_day, windows_from, build_windows, split_window}

-- So many days from one on.
abbrev pub days_from : ℕ → ℕ → List ℕ
days_from day zero = []
days_from day (suc n) = day ∷ days_from (day + 1) n

-- The days of windows, one after the other.
abbrev pub days_of : List Days → List ℕ
days_of [] = []
days_of (w ∷ ws) = days_from w.from (w.to + 1 - w.from) ++ days_of ws

days_from-at : (d d' n n' : ℕ) → d ≡ d' → n ≡ n' → days_from d n ≡ days_from d' n'
days_from-at d d' n n' e f = cc

days_from_split : (day n m : ℕ) → days_from day n ++ days_from (day + n) m ≡ days_from day (n + m)
days_from_split day zero m = days_from-at (day + 0) day m (0 + m) (omega arith) (omega arith)
days_from_split day (suc n) m =
    ap (λ l. day ∷ l)
      (ap (λ l. days_from (day + 1) n ++ l)
          (days_from-at (day + suc n) (day + 1 + n) m m (omega arith) refl)
        ∙ days_from_split (day + 1) n m)
    ∙ days_from-at day day (suc (n + m)) (suc n + m) refl (omega arith)

last_day-bounds :
    (start to size : ℕ)
    → start ≤ to
    → 0 < size
    → (start ≤ last_day start to size)
      × (last_day start to size ≤ to)
      × (last_day start to size + 1 - start ≤ size)
last_day-bounds start to size h p = ground arith

not_le : (a b : ℕ) → leb a b ≡ false → b < a
not_le a b h = ground arith

windows_from-days :
    (fuel start to size : ℕ)
    → 0 < size
    → to + 1 - start ≤ fuel
    → days_of (windows_from fuel start to size) ≡ days_from start (to + 1 - start)
unfolding windows_from
windows_from-days zero start to size p f =
    days_from-at start start 0 (to + 1 - start) refl (omega arith)
windows_from-days (suc fuel) start to size p f = elim (Bool-cases (leb start to)) [
  | inl b ↦
      let (l, u, s) = last_day-bounds start to size (leb→le start to b) p in
      let last = last_day start to size in
      rw b (
        ap (λ r. days_from start (last + 1 - start) ++ r)
          (windows_from-days fuel (last + 1) to size p (omega arith)
            ∙ days_from-at (last + 1) (start + (last + 1 - start)) (to + 1 - (last + 1)) (to - last)
                (omega arith) (omega arith))
        ∙ days_from_split start (last + 1 - start) (to - last)
        ∙ days_from-at start start (last + 1 - start + (to - last)) (to + 1 - start) refl
            (omega arith))
  | inr b ↦
      let l = not_le start to b in
      rw b (days_from-at start start 0 (to + 1 - start) refl (omega arith))
]

-- A window of one day at least and of so many at most.
abbrev pub IsSized : ℕ → Days → Type 0
IsSized size w = (w.from ≤ w.to) × (w.to + 1 - w.from ≤ size)

windows_from-IsSized :
    (fuel start to size : ℕ) → 0 < size → All (IsSized size) (windows_from fuel start to size)
unfolding windows_from
windows_from-IsSized zero start to size p = tt
windows_from-IsSized (suc fuel) start to size p = elim (Bool-cases (leb start to)) [
  | inl b ↦
      let (l, u, s) = last_day-bounds start to size (leb→le start to b) p in
      rw b ((l, s), windows_from-IsSized fuel (last_day start to size + 1) to size p)
  | inr b ↦ rw b tt
]

-- For a size of one day or more `buildWindows` gives windows, none empty and none above the size, whose
-- days one after the other are exactly the days from the first to the last, each once; none when the
-- first day is after the last.
pub build_windows-days :
    (from to size : ℕ)
    → 0 < size
    → (windows : List Days) × (build_windows from to size ≡ some windows)
      × (days_of windows ≡ days_from from (to + 1 - from))
      × All (IsSized size) windows
unfolding build_windows
build_windows-days from to size p = (
  windows_from (to + 1 - from) from to size,
  ground arith,
  windows_from-days (to + 1 - from) from to size p (omega arith),
  windows_from-IsSized (to + 1 - from) from to size p,
)

two_days : (a b : ℕ) → a < b → ltb a b ≡ true
two_days a b h = ground arith

-- A window of two days or more splits into two, neither empty, whose days are exactly its own, and whose
-- sizes differ by one day at most.
pub split_window-halves :
    (window : Days)
    → window.from < window.to
    → (first : Days) × (second : Days) × (split_window window ≡ some (first, second))
      × (days_of (first ∷ second ∷ []) ≡ days_of (window ∷ []))
      × (first.from ≤ first.to)
      × (second.from ≤ second.to)
      × (second.to + 1 - second.from ≤ first.to + 1 - first.from)
      × (first.to + 1 - first.from ≤ second.to + 1 - second.from + 1)
unfolding split_window
split_window-halves window h =
    let d = (window.to - window.from) / 2 in
    let mid = window.from + d in
    (
      (record { from = window.from; to = mid }),
      (record { from = mid + 1; to = window.to }),
      rw (two_days window.from window.to h) refl,
      rw
          (
            append-nil (days_from (mid + 1) (window.to + 1 - (mid + 1))),
            append-nil (days_from window.from (window.to + 1 - window.from)),
          )
          (ap (λ l. days_from window.from (mid + 1 - window.from) ++ l)
              (days_from-at (mid + 1) (window.from + (mid + 1 - window.from))
                (window.to + 1 - (mid + 1)) (window.to - mid) (omega arith) (omega arith))
            ∙ days_from_split window.from (mid + 1 - window.from) (window.to - mid)
            ∙ days_from-at window.from window.from (mid + 1 - window.from + (window.to - mid))
                (window.to + 1 - window.from) refl (omega arith)),
      omega arith,
      omega arith,
      omega arith,
      omega arith,
    )
