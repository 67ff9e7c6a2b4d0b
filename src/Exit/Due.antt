-- ===== src/Exit/Due.antt =====
-- src/agents/risk_mgmt/exit.js: `tradingDaysBetween`, `calendarDaysCoveringTradingDays` and `timeExitDueAt`
-- against each other.
use news_market_ai.Common.{
  ℕ, suc, ◌+◌, ◌-◌, ◌≤◌, ◌<◌, ◌≡◌, ◌∙◌, refl, Bool, false, ◌||◌, Option, none, some, arith, ltb,
  leb, leb→le, ◌==◌, keyed_nat, Text, inl, inr, Bool-cases,
}
use news_market_ai.Exit.{
  is_seven_day, count_days, trading_days_between, calendar_days_covering, due_day, time_exit_due_at,
}
use news_market_ai.Exit.Calendar.{
  count_days-at, count_days-split, count_days-from, count_days-grows, covering-count, leb→lt,
  le→leb, lt→leb, DueSpec, due_day-DueSpec,
}

-- Hold days add up: those of two stretches that meet are those of the whole.
pub trading_days_between-additive :
    (from mid to : ℕ) (ticker : Option Text) (a b : ℕ)
    → from ≤ mid
    → mid ≤ to
    → trading_days_between (some from) (some mid) ticker ≡ some a
    → trading_days_between (some mid) (some to) ticker ≡ some b
    → trading_days_between (some from) (some to) ticker ≡ some (a + b)
unfolding trading_days_between
trading_days_between-additive from mid to ticker a b l m h k =
    let seven = is_seven_day ticker in
    let n =
      count_days-at seven (from + 1) (from + 1) (to - from) ((mid - from) + (to - mid)) 0 refl
        (omega arith) in
    let s = count_days-split seven (from + 1) (mid - from) (to - mid) 0 in
    let at =
      count_days-at seven (from + 1 + (mid - from)) (mid + 1) (to - mid) (to - mid)
        (count_days seven (from + 1) (mid - from) 0) (omega arith) refl in
    let f =
      count_days-from seven (mid + 1) (to - mid) (count_days seven (from + 1) (mid - from) 0) in
    let e = n ∙ s ∙ at ∙ f in cc

-- The calendar days sized for a hold always cover it: from any day on they hold that many hold days,
-- for a weekday ticker and for one that trades every day.
pub calendar_days_covering-covers :
    (from n : ℕ) (ticker : Option Text)
    → (count : ℕ) × (trading_days_between
          (some from)
          (some (from + calendar_days_covering n))
          ticker
        ≡ some count)
      × (n ≤ count)
unfolding trading_days_between
calendar_days_covering-covers from n ticker =
    let seven = is_seven_day ticker in
    (
      count_days seven (from + 1) (from + calendar_days_covering n - from) 0,
      refl,
      rw
          (count_days-at seven (from + 1) (from + 1) (from + calendar_days_covering n - from)
            (calendar_days_covering n) 0 refl (omega arith))
          (covering-count seven (from + 1) n),
    )

-- The hold is reached on a day exactly if it is no earlier than the due day.
reached-due :
    (seven : Bool) (opened hold k as_of : ℕ)
    → hold ≤ count_days seven (opened + 1) (suc k) 0
    → ((j : ℕ) → j ≤ k → count_days seven (opened + 1) j 0 < hold)
    → leb hold (count_days seven (opened + 1) (as_of - opened) 0) ≡ leb (opened + 1 + k) as_of
reached-due seven opened hold k as_of reached before =
    elim (Bool-cases (leb (opened + 1 + k) as_of)) [
      | inl b ↦
          let le = leb→le (opened + 1 + k) as_of b in
          let n =
            count_days-at seven (opened + 1) (opened + 1) (as_of - opened)
              (suc k + (as_of - (opened + 1 + k))) 0 refl (omega arith) in
          let g = count_days-grows seven (opened + 1) (suc k) (as_of - (opened + 1 + k)) 0 in
          rw (b, n)
            (le→leb hold (count_days seven (opened + 1) (suc k + (as_of - (opened + 1 + k))) 0)
              (omega arith))
      | inr b ↦
          let lt = leb→lt (opened + 1 + k) as_of b in
          rw b (
            lt→leb hold (count_days seven (opened + 1) (as_of - opened) 0)
              (before (as_of - opened) (omega arith)))
    ]

found-due :
    (seven : Bool) (opened hold fuel : ℕ) (r : Option ℕ)
    → DueSpec seven hold fuel (opened + 1) 0 r
    → hold ≤ count_days seven (opened + 1) fuel 0
    → (due : ℕ) × (r ≡ some due)
      × (opened < due)
      × (due ≤ opened + fuel)
      × ((as_of : ℕ) → leb hold (count_days seven (opened + 1) (as_of - opened) 0) ≡ leb due as_of)
found-due seven opened hold fuel none h c = absurd (omega arith)
found-due seven opened hold fuel (some d) (k, e, b, reached, before) c = (
  d,
  refl,
  omega arith,
  omega arith,
  λ as_of. rw e (reached-due seven opened hold k as_of reached before),
)

-- The two bounds on a hold are not refused.
bounds : (hold : ℕ) → 0 < hold → hold ≤ 1000 → (hold == 0 || ltb 1000 hold) ≡ false
bounds hold p b = ground arith

-- For a hold of 1 to 1000 days the due day exists, lies after the opening day within the calendar days
-- that cover the hold, and the hold is reached exactly from the due day on.
pub time_exit_due_at-first :
    (opened hold : ℕ) (ticker : Option Text)
    → 0 < hold
    → hold ≤ 1000
    → (due : ℕ) × (time_exit_due_at (some opened) hold ticker ≡ some due)
      × (opened < due)
      × (due ≤ opened + calendar_days_covering hold)
      × ((as_of count : ℕ)
          → trading_days_between (some opened) (some as_of) ticker ≡ some count
          → leb hold count ≡ leb due as_of)
unfolding time_exit_due_at trading_days_between
time_exit_due_at-first opened hold ticker p b =
    let seven = is_seven_day ticker in
    let fuel = calendar_days_covering hold in
    let (due, e, after, within, first) =
      found-due seven opened hold fuel (due_day seven hold fuel (opened + 1) 0)
        (due_day-DueSpec seven hold fuel (opened + 1) 0 p)
        (covering-count seven (opened + 1) hold) in
    (due, rw (bounds hold p b) e, after, within, λ as_of count h. (let f = first as_of in cc))
