-- ===== src/Windows.antt =====
-- src/ingestion/date_windows.js: the windows of days of a backfill. A day is the number of a UTC day, which
-- orders as its YYYY-MM-DD text does; a window is an inclusive pair of days.
pub mod Cover
mod Tests
use news_market_ai.Common.{
  ℕ, zero, suc, ◌+◌, ◌-◌, ◌/◌, Bool, Option, none, some, List, [], ◌∷◌, ltb, leb, if◌then◌else◌,
  ◌==◌, keyed_nat,
}

pub record Days : Type 0 where
  pub from : ℕ
  pub to : ℕ

-- `last` of `buildWindows`
abbrev pub last_day : ℕ → ℕ → ℕ → ℕ
last_day start to size = let end = start + (size - 1) in if ltb end to then end else to

-- The loop of `buildWindows`, on fuel.
unfoldable pub windows_from : ℕ → ℕ → ℕ → ℕ → List Days
windows_from zero start to size = []
windows_from (suc fuel) start to size =
    let rest = windows_from fuel (last_day start to size + 1) to size in
    if leb start to then (record { from = start; to = last_day start to size }) ∷ rest else []

-- `buildWindows`, on a whole number of days: `none` is its refusal of a size below one.
unfoldable pub build_windows : ℕ → ℕ → ℕ → Option (List Days)
unfolding windows_from
build_windows from to size =
    if size == 0 then none else some (windows_from (to + 1 - from) from to size)

-- `splitWindow`: `none` is its refusal of a window of one day.
unfoldable pub split_window : Days → Option (Days × Days)
split_window window =
    let mid = window.from + (window.to - window.from) / 2 in
    if ltb window.from window.to
    then some
        ((record { from = window.from; to = mid }), (record { from = mid + 1; to = window.to }))
    else none
