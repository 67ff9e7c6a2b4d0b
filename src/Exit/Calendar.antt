-- ===== src/Exit/Calendar.antt =====
-- src/agents/risk_mgmt/exit.js: the count of hold days, the days that cover a hold, and the day on which
-- the time exit is due.
use news_market_ai.Common.{
  ℕ, zero, suc, ◌+◌, ◌*◌, ◌/◌, ◌≤◌, ◌<◌, ◌≡◌, ◌∙◌, refl, Bool, true, false, Option, none, some,
  arith, leb, leb→le, if◌then◌else◌, keyed_nat, inl, inr, Bool-cases,
}
use news_market_ai.Exit.{counts_as_hold_day, count_days, calendar_days_covering, due_day}

pub count_days-at :
    (seven : Bool) (day day' n n' count : ℕ)
    → day ≡ day'
    → n ≡ n'
    → count_days seven day n count ≡ count_days seven day' n' count
count_days-at seven day day' n n' count d e = cc

-- Days counted in two stretches.
pub count_days-split :
    (seven : Bool) (day n m count : ℕ)
    → count_days seven day (n + m) count
      ≡ count_days seven (day + n) m (count_days seven day n count)
unfolding count_days
count_days-split seven day zero m count =
    count_days-at seven day (day + 0) (0 + m) m count (omega arith) (omega arith)
count_days-split seven day (suc n) m count =
    let count' = if counts_as_hold_day day seven then count + 1 else count in
    count_days-at seven day day (suc n + m) (suc (n + m)) count refl (omega arith)
    ∙ count_days-split seven (day + 1) n m count'
    ∙ count_days-at seven (day + 1 + n) (day + suc n) m m (count_days seven (day + 1) n count')
        (omega arith) refl

pub count_days-from :
    (seven : Bool) (day n count : ℕ)
    → count_days seven day n count ≡ count + count_days seven day n 0
unfolding count_days
count_days-from seven day zero count = omega arith
count_days-from seven day (suc n) count = ground (
  arith,
  count_days-from seven (day + 1) n count,
  count_days-from seven (day + 1) n (count + 1),
  count_days-from seven (day + 1) n 1,
)

pub count_days-grows :
    (seven : Bool) (day n m count : ℕ)
    → count_days seven day n count ≤ count_days seven day (n + m) count
count_days-grows seven day n m count =
    rw
      (
        count_days-split seven day n m count,
        count_days-from seven (day + n) m (count_days seven day n count),
      )
      (omega arith)

-- Any seven days hold five weekdays.
week : (day : ℕ) → count_days false day 7 0 ≡ 5
unfolding count_days
week day = ground arith

week_seven : (day : ℕ) → count_days true day 7 0 ≡ 7
unfolding count_days
week_seven day = ground arith

week-count : (seven : Bool) (day : ℕ) → 5 ≤ count_days seven day 7 0
week-count true day = rw (week_seven day) (omega arith)
week-count false day = rw (week day) (omega arith)

-- So many weeks hold five days each at least.
weeks-count : (seven : Bool) (day weeks : ℕ) → weeks * 5 ≤ count_days seven day (weeks * 7) 0
weeks-count seven day zero = omega arith
weeks-count seven day (suc weeks) =
    let h = weeks-count seven (day + 7) weeks in
    let w = week-count seven day in
    rw
      (
        count_days-at seven day day (suc weeks * 7) (7 + weeks * 7) 0 refl (omega arith),
        count_days-split seven day 7 (weeks * 7) 0,
        count_days-from seven (day + 7) (weeks * 7) (count_days seven day 7 0),
      )
      (omega arith)

pub covering-count :
    (seven : Bool) (day n : ℕ) → n ≤ count_days seven day (calendar_days_covering n) 0
unfolding calendar_days_covering
covering-count seven day n = let h = weeks-count seven day ((n + 4) / 5) in omega arith

pub leb→lt : (a b : ℕ) → leb a b ≡ false → b < a
leb→lt a b h = ground arith

pub le→leb : (a b : ℕ) → a ≤ b → leb a b ≡ true
le→leb a b h = ground arith

pub lt→leb : (a b : ℕ) → b < a → leb a b ≡ false
lt→leb a b h = ground arith

-- What the loop of `time_exit_due_at` finds: the first day at which the count reaches the hold.
abbrev pub DueSpec : Bool → ℕ → ℕ → ℕ → ℕ → Option ℕ → Type 0
DueSpec seven hold fuel day count none = count_days seven day fuel count < hold
DueSpec seven hold fuel day count (some d) =
    (k : ℕ) × (d ≡ day + k)
    × (k < fuel)
    × (hold ≤ count_days seven day (suc k) count)
    × ((j : ℕ) → j ≤ k → count_days seven day j count < hold)

DueSpec-later :
    (seven : Bool) (hold fuel day count : ℕ) (r : Option ℕ)
    → count < hold
    → DueSpec seven hold fuel
        (day + 1)
        (if counts_as_hold_day day seven then count + 1 else count)
        r
    → DueSpec seven hold (suc fuel) day count r
unfolding count_days
DueSpec-later seven hold fuel day count none l h = h
DueSpec-later seven hold fuel day count (some d) l (k, e, b, reached, before) =
    (suc k, omega arith, omega arith, reached, all_before)
  where
    all_before : (j : ℕ) → j ≤ suc k → count_days seven day j count < hold
    all_before zero m = l
    all_before (suc j) m = before j (omega arith)

pub due_day-DueSpec :
    (seven : Bool) (hold fuel day count : ℕ)
    → count < hold
    → DueSpec seven hold fuel day count (due_day seven hold fuel day count)
unfolding due_day count_days
due_day-DueSpec seven hold zero day count l = l
due_day-DueSpec seven hold (suc fuel) day count l =
    let count' = if counts_as_hold_day day seven then count + 1 else count in
    elim (Bool-cases (leb hold count')) [
      | inl b ↦ rw b (0, omega arith, omega arith, leb→le hold count' b, first_day)
      | inr b ↦ rw b (
          DueSpec-later seven hold fuel day count (due_day seven hold fuel (day + 1) count') l
            (due_day-DueSpec seven hold fuel (day + 1) count' (leb→lt hold count' b)))
    ]
  where
    first_day : (j : ℕ) → j ≤ 0 → count_days seven day j count < hold
    first_day zero m = l
    first_day (suc j) m = omega arith
