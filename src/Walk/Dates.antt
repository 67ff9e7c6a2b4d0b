-- ===== src/Walk/Dates.antt =====
-- src/backtest/onSignalRunner.js and src/backtest/simClock.js: the days that a window's walk visits. Instants
-- are milliseconds since 1970.
use news_market_ai.Common.{
  ℕ, zero, suc, ◌+◌, ◌-◌, ◌*◌, ◌/◌, ◌≤◌, ◌<◌, ◌≡◌, ◌∙◌, refl, ap, Bool, false, Option, none, some,
  List, [], ◌∷◌, ◌++◌, ltb, leb, if◌then◌else◌, All, length, arith, inl, inr, Bool-cases,
}
use news_market_ai.Exit.{calendar_days_covering}
use news_market_ai.Walk.DayList.{IsAscending}

abbrev pub day_ms : ℕ
day_ms = 86400000

-- The loop of `eachDayIso`, on fuel, from a day on.
unfoldable pub days_until : ℕ → ℕ → ℕ → List ℕ
days_until zero day end = []
days_until (suc fuel) day end =
    let rest = days_until fuel (day + 1) end in if leb (day * day_ms) end then day ∷ rest else []

-- `eachDayIso`, by the numbers of the days
unfoldable pub each_day : ℕ → ℕ → List ℕ
each_day start end = days_until (end / day_ms + 1 - start / day_ms) (start / day_ms) end

-- `SimClock.clampEnd`
abbrev pub clamp_end : ℕ → ℕ → ℕ
clamp_end now end = if ltb now end then now else end

abbrev or_default : Option ℕ → ℕ → ℕ
or_default none d = d
or_default (some n) d = n

abbrev clamped : Option ℕ → ℕ → ℕ
clamped none end = end
clamped (some now) end = clamp_end now end

-- `computeWalkEnd`; a test end within the first day is none of the program's, so the subtraction never
-- stops at 0.
unfoldable pub compute_walk_end : Option ℕ → ℕ → Option ℕ → Option ℕ → Bool → ℕ
unfolding calendar_days_covering
compute_walk_end max_hold_days test_end grace_days clock is_last_window =
    if is_last_window
    then clamped clock (
        test_end
        + or_default grace_days (calendar_days_covering (or_default max_hold_days 10)) * day_ms)
    else test_end - day_ms

-- `countSignalWalkSteps`, for so many tickers
unfoldable pub count_walk_steps : ℕ → ℕ → ℕ → ℕ
unfolding each_day
count_walk_steps tickers start walk_end = tickers * length (each_day start walk_end)

abbrev run_of : ℕ → ℕ → List ℕ
run_of day zero = []
run_of day (suc n) = day ∷ run_of (day + 1) n

run_of-at : (d d' n n' : ℕ) → d ≡ d' → n ≡ n' → run_of d n ≡ run_of d' n'
run_of-at d d' n n' e f = cc

run_of_split : (day n m : ℕ) → run_of day n ++ run_of (day + n) m ≡ run_of day (n + m)
run_of_split day zero m = run_of-at (day + 0) day m (0 + m) (omega arith) (omega arith)
run_of_split day (suc n) m =
    ap (λ l. day ∷ l)
      (ap (λ l. run_of (day + 1) n ++ l)
          (run_of-at (day + suc n) (day + 1 + n) m m (omega arith) refl)
        ∙ run_of_split (day + 1) n m)
    ∙ run_of-at day day (suc (n + m)) (suc n + m) refl (omega arith)

not_leb : (a b : ℕ) → leb a b ≡ false → b < a
not_leb a b h = ground arith

-- The fuel of `each_day` reaches its end, and no day past it is visited.
days_until_run :
    (fuel day end : ℕ) → fuel ≡ end / day_ms + 1 - day → days_until fuel day end ≡ run_of day fuel
unfolding days_until
days_until_run zero day end h = refl
days_until_run (suc fuel) day end h = elim (Bool-cases (leb (day * day_ms) end)) [
  | inl b ↦ rw b (ap (λ l. day ∷ l) (days_until_run fuel (day + 1) end (omega arith)))
  | inr b ↦ let l = not_leb (day * day_ms) end b in absurd (omega arith)
]

each_day_run :
    (start end : ℕ)
    → each_day start end ≡ run_of (start / day_ms) (end / day_ms + 1 - start / day_ms)
unfolding each_day
each_day_run start end =
    days_until_run (end / day_ms + 1 - start / day_ms) (start / day_ms) end refl

above_run : (n day m : ℕ) → n ≤ day → All (λ e. n ≤ e) (run_of day m)
above_run n day zero h = tt
above_run n day (suc m) h = (h, above_run n (day + 1) m (omega arith))

run_of-IsAscending : (day n : ℕ) → IsAscending (run_of day n)
run_of-IsAscending day zero = tt
run_of-IsAscending day (suc n) =
    (above_run (suc day) (day + 1) n (omega arith), run_of-IsAscending (day + 1) n)

-- The days of a window ascend, as its walk takes them to.
pub each_day-IsAscending : (start end : ℕ) → IsAscending (each_day start end)
each_day-IsAscending start end =
    rw (each_day_run start end)
      (run_of-IsAscending (start / day_ms) (end / day_ms + 1 - start / day_ms))

-- Two windows that meet, the earlier not the last one, share no day and miss none: the days that the
-- earlier walks and then those from its test end on are the days from its start to the same end.
pub each_day-windows :
    (max_hold_days grace_days clock : Option ℕ) (start meet end : ℕ)
    → start ≤ meet
    → meet ≤ end
    → day_ms ≤ meet
    → each_day start (compute_walk_end max_hold_days meet grace_days clock false)
        ++ each_day meet end
      ≡ each_day start end
unfolding compute_walk_end
each_day-windows max_hold_days grace_days clock start meet end h k p =
    let s = start / day_ms in
    let m = meet / day_ms in
    let e = end / day_ms in
    rw (each_day_run start (meet - day_ms), each_day_run meet end, each_day_run start end)
      (ap (λ l. l ++ run_of m (e + 1 - m))
          (run_of-at s s ((meet - day_ms) / day_ms + 1 - s) (m - s) refl (omega arith))
        ∙ ap (λ l. run_of s (m - s) ++ l)
            (run_of-at m (s + (m - s)) (e + 1 - m) (e + 1 - m) (omega arith) refl)
        ∙ run_of_split s (m - s) (e + 1 - m)
        ∙ run_of-at s s (m - s + (e + 1 - m)) (e + 1 - s) refl (omega arith))
