-- ===== src/Entry/Settled.antt =====
-- src/graph/entry_fill.js: no entry waits past its deadline.
use news_market_ai.Common.{
  ℕ, ◌≡◌, refl, ap, ◌⊎◌, String, Bool, true, false, ◌&&◌, ◌||◌, ◌==◌, keyed_string, Option, none,
  some, List, [], ◌∷◌, map, All, ◌++◌, contains, if◌then◌else◌, arith, inl, inr, Bool-cases,
}
use news_market_ai.Exit.Numbers.{Numbers}
use news_market_ai.Exit.Bars.{Bar}
use news_market_ai.Book.{Row, Decision, Status, skipped_no_fill}
use news_market_ai.Book.Guards.{Thesis}
use news_market_ai.Book.Limits.{status_of}
use news_market_ai.Book.Commit.{
  commit_thesis, commit_positions, is_pending, upgrade_decision, decision_of, same_decision,
  set_status,
}
use news_market_ai.Book.Lifecycle.{expire_pending_entry}
use news_market_ai.Book.Reads.{get_open_position_for_ticker_as_of}
use news_market_ai.Book.Retry.{status_of-not_pending}
use news_market_ai.Entry.{Spec, Fill, is_pending_entry_expired, confirmation_spec_of}
use news_market_ai.Entry.Step.{
  Filling, Pending, Engine, State, Report, find_fill, set_content, record_entry_confirmation,
  at_fill, after_exit_check, before_commit, note_outcome, commit_fill, fill_pending, expire_pending,
  with_ready, with_bars, Stepped, Looped, after_step, with_fill, step_pending, fill_pending_entries,
  is_held_by_rule,
}

-- The decision of that key is pending.
abbrev pub is_waiting : {D : Type 0} → String → String → List (Decision D) → Bool
is_waiting run id [] = false
is_waiting run id (d ∷ ds) =
    let rest = is_waiting run id ds in
    if d.run_id == run && d.id == id then is_pending d.status else rest

-- A change that keeps the key, and lets no decision become pending.
abbrev IsCalm : {D : Type 0} → (Decision D → Decision D) → Type 0
IsCalm {D} change =
    (d : Decision D)
    → ((change d).run_id ≡ d.run_id)
      × ((change d).id ≡ d.id)
      × (is_pending d.status ≡ false → is_pending (change d).status ≡ false)

if_false : (c a b : Bool) → a ≡ false → b ≡ false → (if c then a else b) ≡ false
if_false c a b h k = ground arith

first_false : (c a b : Bool) → c ≡ true → (if c then a else b) ≡ false → a ≡ false
first_false c a b h k = ground arith

rest_false : (c a b : Bool) → c ≡ false → (if c then a else b) ≡ false → b ≡ false
rest_false c a b h k = ground arith

module _ {D : Type 0} where
  map-settled :
      (run id : String) (change : Decision D → Decision D)
      → IsCalm change
      → (ds : List (Decision D)) → is_waiting run id ds ≡ false
      → is_waiting run id (map change ds) ≡ false
  map-settled run id change calm [] h = refl
  map-settled run id change calm (d ∷ ds) h =
      rw (calm d).0 (rw (calm d).1 (ground (arith, (calm d).2, map-settled run id change calm ds)))

  upgrade-own_settled :
      (d : Decision D) (es : List (Decision D))
      → is_pending d.status ≡ false
      → is_waiting d.run_id d.id (upgrade_decision d es) ≡ false
  upgrade-own_settled d [] h = ground arith
  upgrade-own_settled d (e ∷ es) h = ground (arith, upgrade-own_settled d es h)

  -- The row that is upgraded, under whatever key is asked for.
  upgraded-settled :
      (run id : String) (status : Status) (e : Decision D) (es : List (Decision D)) (pending : Bool)
      → is_pending e.status ≡ pending
      → is_pending status ≡ false
      → is_waiting run id (e ∷ es) ≡ false
      → is_waiting run id ((if pending then set_status status e else e) ∷ es) ≡ false
  upgraded-settled run id status e es false p h k = k
  upgraded-settled run id status e es true p h k =
      if_false (e.run_id == run && e.id == id) (is_pending status) (is_waiting run id es) h
        (no_other (Bool-cases (e.run_id == run && e.id == id)))
    where
      no_other :
          ((e.run_id == run && e.id == id) ≡ true) ⊎ ((e.run_id == run && e.id == id) ≡ false)
          → is_waiting run id es ≡ false
      no_other (inl c) = absurd (
          cc (
            first_false (e.run_id == run && e.id == id) (is_pending e.status) (is_waiting run id es)
                c k,
            p,
          ))
      no_other (inr c) =
          rest_false (e.run_id == run && e.id == id) (is_pending e.status) (is_waiting run id es) c
            k

  upgrade-settled :
      (run id : String) (d : Decision D) (es : List (Decision D))
      → is_pending d.status ≡ false
      → is_waiting run id es ≡ false
      → is_waiting run id (upgrade_decision d es) ≡ false
  upgrade-settled run id d [] h k =
      if_false (d.run_id == run && d.id == id) (is_pending d.status) false h refl
  upgrade-settled run id d (e ∷ es) h k = elim (Bool-cases (same_decision e d)) [
    | inl b ↦ rw b (upgraded-settled run id d.status e es (is_pending e.status) refl h k)
    | inr b ↦ rw b (elim (Bool-cases (e.run_id == run && e.id == id)) [
      | inl c ↦ rw c (
          first_false (e.run_id == run && e.id == id) (is_pending e.status) (is_waiting run id es) c
            k)
      | inr c ↦ rw c (
          upgrade-settled run id d es h (
            rest_false (e.run_id == run && e.id == id) (is_pending e.status) (is_waiting run id es)
              c k))
    ])
  ]

  expire-own_settled :
      (run id : String) (ds : List (Decision D))
      → is_waiting run id (expire_pending_entry run id ds).1 ≡ false
  unfolding expire_pending_entry
  expire-own_settled run id [] = refl
  expire-own_settled run id (d ∷ ds) = ground (arith, expire-own_settled run id ds)

  expire-settled :
      (run id own_run own : String) (ds : List (Decision D))
      → is_waiting run id ds ≡ false
      → is_waiting run id (expire_pending_entry own_run own ds).1 ≡ false
  unfolding expire_pending_entry
  expire-settled run id own_run own ds h =
      map-settled run id
        (λ d.
          if d.run_id == own_run && d.id == own && is_pending d.status
          then record d { status = skipped_no_fill }
          else d)
        (λ d. ground arith) ds h

module _ (numbers : Numbers) {W D S : Type 0} (engine : Engine numbers W D) where
  note-settled :
      (run id : String) (spec : Option (Spec numbers)) (filling : Option (Filling numbers))
      (p : Pending numbers D) (st : State numbers W D S)
      → is_waiting run id st.db.decisions ≡ false
      → is_waiting run id (note_outcome numbers engine spec filling p st).db.decisions ≡ false
  unfolding record_entry_confirmation
  note-settled run id none filling p st h = h
  note-settled run id (some spec) filling p st h =
      map-settled run id
        (set_content numbers p.thesis.run_id p.thesis.id (engine.set_outcome spec filling))
        (λ d. ground arith) st.db.decisions h

  after_exit_check-decisions :
      (existing : Row numbers) (fill : Fill numbers)
      (out : Option (List String) × List (Row numbers) × W) (st : State numbers W D S)
      → (after_exit_check numbers engine existing fill out st).1.db.decisions ≡ st.db.decisions
  after_exit_check-decisions existing fill (none, rows, world) st = refl
  after_exit_check-decisions existing fill (some ids, rows, world) st =
      elim (Bool-cases (contains existing.id ids)) [ inl b ↦ rw b refl | inr b ↦ rw b refl ]

  before_commit-decisions :
      (existing : Option (Row numbers)) (t : Thesis numbers) (fill : Fill numbers)
      (st : State numbers W D S)
      → (before_commit numbers engine existing t fill st).1.db.decisions ≡ st.db.decisions
  before_commit-decisions none t fill st = refl
  before_commit-decisions (some existing) t fill st =
      elim (Bool-cases (existing.id == t.trade_thesis_id || is_held_by_rule numbers existing t)) [
        | inl b ↦ rw b refl
        | inr b ↦ rw b (
            after_exit_check-decisions existing fill
              (engine.check_exits t.ticker fill.opened_at st.db.positions st.world) st)
      ]

  -- A commit of a fill leaves its own decision settled, and every other that was.
  commit-own_settled :
      (p : Pending numbers D) (fill : Fill numbers) (st : State numbers W D S)
      → is_waiting p.thesis.run_id p.thesis.id (commit_fill numbers engine p fill st).db.decisions
        ≡ false
  unfolding commit_thesis
  commit-own_settled p fill st =
      upgrade-own_settled
        (decision_of numbers (at_fill numbers p fill) p.content (
          status_of numbers (at_fill numbers p fill)
            (commit_positions numbers (at_fill numbers p fill) st.db.positions)))
        st.db.decisions
        (status_of-not_pending numbers (at_fill numbers p fill)
          (commit_positions numbers (at_fill numbers p fill) st.db.positions))

  commit-settled :
      (run id : String) (p : Pending numbers D) (fill : Fill numbers) (st : State numbers W D S)
      → is_waiting run id st.db.decisions ≡ false
      → is_waiting run id (commit_fill numbers engine p fill st).db.decisions ≡ false
  unfolding commit_thesis
  commit-settled run id p fill st h =
      upgrade-settled run id
        (decision_of numbers (at_fill numbers p fill) p.content (
          status_of numbers (at_fill numbers p fill)
            (commit_positions numbers (at_fill numbers p fill) st.db.positions)))
        st.db.decisions
        (status_of-not_pending numbers (at_fill numbers p fill)
          (commit_positions numbers (at_fill numbers p fill) st.db.positions))
        h

  -- The state just before the commit of a fill.
  abbrev ready :
      Pending numbers D → Filling numbers → State numbers W D S → Bool × State numbers W D S
  ready p filling st =
      let noted =
        note_outcome numbers engine (confirmation_spec_of numbers p.confirmation) (some filling) p
          st in
      before_commit numbers engine
        (get_open_position_for_ticker_as_of numbers p.thesis.run_id p.thesis.ticker
          filling.0.opened_at noted.db.positions)
        p.thesis filling.0 noted

  ready-settled :
      (run id : String) (p : Pending numbers D) (filling : Filling numbers)
      (st : State numbers W D S)
      → is_waiting run id st.db.decisions ≡ false
      → is_waiting run id (ready p filling st).1.db.decisions ≡ false
  ready-settled run id p filling st h =
      let noted =
        note_outcome numbers engine (confirmation_spec_of numbers p.confirmation) (some filling) p
          st in
      rw
        (before_commit-decisions
          (get_open_position_for_ticker_as_of numbers p.thesis.run_id p.thesis.ticker
            filling.0.opened_at noted.db.positions)
          p.thesis filling.0 noted)
        (note-settled run id (confirmation_spec_of numbers p.confirmation) (some filling) p st h)

  -- What a step makes of a decision: settled if it was, and settled where it is the entry's own, the deadline
  -- has passed and the step came to its end.
  abbrev StepSettles :
      String → String → ℕ → Pending numbers D → Bool → Stepped numbers W D S → Type 0
  StepSettles run id as_of p before (ended, after, report) =
      (before ≡ false → is_waiting run id after.db.decisions ≡ false)
      × (ended ≡ true
          → run ≡ p.thesis.run_id
          → id ≡ p.thesis.id
          → is_pending_entry_expired p.fill_expires_at (some as_of) ≡ true
          → is_waiting run id after.db.decisions ≡ false)

  with_ready-settles :
      (run id : String) (as_of : ℕ) (p : Pending numbers D) (fill : Fill numbers) (before : Bool)
      (report : Report numbers) (out : Bool × State numbers W D S)
      → (before ≡ false → is_waiting run id out.1.db.decisions ≡ false)
      → StepSettles run id as_of p before (with_ready numbers engine p fill report out)
  with_ready-settles run id as_of p fill before report (false, st) k =
      (k, λ ended a b h. absurd (cc ended))
  with_ready-settles run id as_of p fill before report (true, st) k = (
    λ h. commit-settled run id p fill st (k h),
    λ ended a b h. rw a (rw b (commit-own_settled p fill st)),
  )

  fill-settles :
      (run id : String) (as_of : ℕ) (p : Pending numbers D) (filling : Filling numbers)
      (st : State numbers W D S) (report : Report numbers)
      → StepSettles run id as_of p
          (is_waiting run id st.db.decisions)
          (fill_pending numbers engine p filling (st, report))
  unfolding fill_pending
  fill-settles run id as_of p filling st report =
      with_ready-settles run id as_of p filling.0 (is_waiting run id st.db.decisions) report
        (ready p filling st) (λ h. ready-settled run id p filling st h)

  expire-settles :
      (run id : String) (as_of : ℕ) (p : Pending numbers D) (st : State numbers W D S)
      (report : Report numbers)
      → StepSettles run id as_of p
          (is_waiting run id st.db.decisions)
          (expire_pending numbers engine p (st, report))
  unfolding expire_pending
  expire-settles run id as_of p st report =
      let noted =
        note_outcome numbers engine (confirmation_spec_of numbers p.confirmation) none p st in
      (
        λ h.
            expire-settled run id p.thesis.run_id p.thesis.id noted.db.decisions
              (note-settled run id (confirmation_spec_of numbers p.confirmation) none p st h),
        λ ended a b h.
            rw a (rw b (expire-own_settled p.thesis.run_id p.thesis.id noted.db.decisions)),
      )

  with_fill-settles :
      (run id : String) (as_of : ℕ) (p : Pending numbers D) (found : Option (Filling numbers))
      (st : State numbers W D S) (report : Report numbers)
      → StepSettles run id as_of p
          (is_waiting run id st.db.decisions)
          (with_fill numbers engine found as_of p (st, report))
  with_fill-settles run id as_of p (some filling) st report =
      fill-settles run id as_of p filling st report
  with_fill-settles run id as_of p none st report =
      elim (Bool-cases (is_pending_entry_expired p.fill_expires_at (some as_of))) [
        | inl b ↦
            let settles = expire-settles run id as_of p st report in
            rw b (settles.0, λ ended a c h. settles.1 ended a c b)
        | inr b ↦ rw b (λ h. h, λ ended a c h. absurd (cc h))
      ]

  with_bars-settles :
      (run id : String) (as_of : ℕ) (p : Pending numbers D) (bars : Option (List (Bar numbers)))
      (st : State numbers W D S) (report : Report numbers)
      → StepSettles run id as_of p
          (is_waiting run id st.db.decisions)
          (with_bars numbers engine bars as_of p (st, report))
  with_bars-settles run id as_of p none st report = (λ h. h, λ ended a c h. absurd (cc ended))
  with_bars-settles run id as_of p (some bars) st report =
      with_fill-settles run id as_of p (find_fill numbers bars p) st report

  step-settles :
      (run id : String) (as_of : ℕ) (p : Pending numbers D)
      (done : State numbers W D S × Report numbers)
      → StepSettles run id as_of p
          (is_waiting run id done.0.db.decisions)
          (step_pending numbers engine as_of p done)
  unfolding step_pending
  step-settles run id as_of p (st, report) =
      let read = engine.bars p.thesis.ticker p.as_of as_of st.world in
      with_bars-settles run id as_of p read.0 (record st { world = read.1 }) report

  -- The entries of a list that the loop went past are settled in the end where their deadline has passed, and the
  -- others are what a throw left.
  abbrev pub SettlesPast : ℕ → List (Pending numbers D) → Looped numbers W D S → Type 0
  SettlesPast as_of ps (left, after, report) =
      (past : List (Pending numbers D)) × (ps ≡ past ++ left)
      × All
          (λ p.
            is_pending_entry_expired p.fill_expires_at (some as_of) ≡ true
            → is_waiting p.thesis.run_id p.thesis.id after.db.decisions ≡ false)
          past

  -- A throw keeps what is settled, and so does the rest of the loop.
  after_step-settled :
      (run id : String) (ps : List (Pending numbers D))
      (loop : State numbers W D S × Report numbers → Looped numbers W D S)
      → ((done : State numbers W D S × Report numbers)
          → is_waiting run id done.0.db.decisions ≡ false
          → is_waiting run id (loop done).1.db.decisions ≡ false)
      → (out : Stepped numbers W D S) → is_waiting run id out.1.db.decisions ≡ false
      → is_waiting run id (after_step numbers engine ps loop out).1.db.decisions ≡ false
  after_step-settled run id ps loop k (false, st, report) h = h
  after_step-settled run id ps loop k (true, st, report) h = k (st, report) h

  stays_settled :
      (run id : String) (as_of : ℕ) (ps : List (Pending numbers D))
      (done : State numbers W D S × Report numbers)
      → is_waiting run id done.0.db.decisions ≡ false
      → is_waiting run id (fill_pending_entries numbers engine as_of ps done).1.db.decisions ≡ false
  unfolding fill_pending_entries
  stays_settled run id as_of [] done h = h
  stays_settled run id as_of (p ∷ ps) done h =
      after_step-settled run id (p ∷ ps) (λ next. fill_pending_entries numbers engine as_of ps next)
        (λ next k. stays_settled run id as_of ps next k) (step_pending numbers engine as_of p done)
        ((step-settles run id as_of p done).0 h)

  past_first :
      (as_of : ℕ) (p : Pending numbers D) (ps : List (Pending numbers D))
      (looped : Looped numbers W D S)
      → SettlesPast as_of ps looped
      → (is_pending_entry_expired p.fill_expires_at (some as_of) ≡ true
          → is_waiting p.thesis.run_id p.thesis.id looped.1.db.decisions ≡ false)
      → SettlesPast as_of (p ∷ ps) looped
  past_first as_of p ps (left, after, report) (past, split, all) own =
      (p ∷ past, ap (λ rest. p ∷ rest) split, (own, all))

  after_step-SettlesPast :
      (as_of : ℕ) (p : Pending numbers D) (ps : List (Pending numbers D)) (before : Bool)
      (loop : State numbers W D S × Report numbers → Looped numbers W D S)
      → ((done : State numbers W D S × Report numbers) → SettlesPast as_of ps (loop done))
      → ((done : State numbers W D S × Report numbers)
          → is_waiting p.thesis.run_id p.thesis.id done.0.db.decisions ≡ false
          → is_waiting p.thesis.run_id p.thesis.id (loop done).1.db.decisions ≡ false)
      → (out : Stepped numbers W D S) → StepSettles p.thesis.run_id p.thesis.id as_of p before out
      → SettlesPast as_of (p ∷ ps) (after_step numbers engine (p ∷ ps) loop out)
  after_step-SettlesPast as_of p ps before loop rest stays (false, st, report) settles =
      ([], refl, tt)
  after_step-SettlesPast as_of p ps before loop rest stays (true, st, report) settles =
      past_first as_of p ps (loop (st, report)) (rest (st, report))
        (λ h. stays (st, report) (settles.1 refl refl refl h))

  -- What the loop went past is settled, and what is left is the rest of the list.
  pub fill_pending_entries-past :
      (as_of : ℕ) (ps : List (Pending numbers D)) (done : State numbers W D S × Report numbers)
      → SettlesPast as_of ps (fill_pending_entries numbers engine as_of ps done)
  unfolding fill_pending_entries
  fill_pending_entries-past as_of [] done = ([], refl, tt)
  fill_pending_entries-past as_of (p ∷ ps) done =
      after_step-SettlesPast as_of p ps (is_waiting p.thesis.run_id p.thesis.id done.0.db.decisions)
        (λ next. fill_pending_entries numbers engine as_of ps next)
        (λ next. fill_pending_entries-past as_of ps next)
        (λ next h. stays_settled p.thesis.run_id p.thesis.id as_of ps next h)
        (step_pending numbers engine as_of p done)
        (step-settles p.thesis.run_id p.thesis.id as_of p done)
