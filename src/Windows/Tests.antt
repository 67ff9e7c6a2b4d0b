-- ===== src/Windows/Tests.antt =====
-- src/ingestion/date_windows.js on ranges of a few days.
use news_market_ai.Common.{ℕ, ◌+◌, ◌-◌, ◌≡◌, refl, some, List, [], ◌∷◌, All, arith}
use news_market_ai.Windows.{Days, windows_from, build_windows}
use news_market_ai.Windows.Cover.{days_from, days_of, IsSized, build_windows-days}

abbrev day_pair : ℕ → ℕ → Days
day_pair from to = record { from = from; to = to }

eight_days :
    build_windows 20333 20340 3
    ≡ some (day_pair 20333 20335 ∷ day_pair 20336 20338 ∷ day_pair 20339 20340 ∷ [])
unfolding build_windows windows_from
eight_days = refl

build_windows-days_example :
    (windows : List Days) × (build_windows 20333 20340 3 ≡ some windows)
    × (days_of windows ≡ days_from 20333 (20340 + 1 - 20333))
    × All (IsSized 3) windows
build_windows-days_example = build_windows-days 20333 20340 3 (omega arith)
