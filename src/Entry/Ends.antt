-- ===== src/Entry/Ends.antt =====
-- src/graph/entry_fill.js: the loop comes to its end where no call throws, and what it leaves settled.
use news_market_ai.Common.{
  ℕ, ◌≡◌, ◌≢◌, refl, Bool, true, false, ◌||◌, ◌==◌, keyed_string, String, Option, none, some, List,
  [], ◌∷◌, contains, inl, inr, Bool-cases,
}
use news_market_ai.Exit.Numbers.{Numbers}
use news_market_ai.Exit.Bars.{Bar}
use news_market_ai.Book.{Row}
use news_market_ai.Book.Guards.{Thesis}
use news_market_ai.Book.Reads.{get_open_position_for_ticker_as_of, get_unsettled_replaced_positions}
use news_market_ai.Entry.{Fill, is_pending_entry_expired, confirmation_spec_of}
use news_market_ai.Entry.Step.{
  Filling, Pending, Engine, State, Report, Stepped, Looped, and_then, settle_all, after_exit_check,
  before_commit, note_outcome, commit_fill, at_fill, with_ready, with_fill, with_bars, fill_pending,
  expire_pending, step_pending, after_step, fill_pending_entries, is_held_by_rule, find_fill,
}
use news_market_ai.Entry.Settled.{SettlesPast, fill_pending_entries-past}

module _ (numbers : Numbers) where
  and_then-ends :
      {A : Type 0} (out : Bool × A) (next : A → Bool × A)
      → out.0 ≡ true
      → ((a : A) → (next a).0 ≡ true)
      → (and_then numbers out next).0 ≡ true
  and_then-ends (false, a) next h k = h
  and_then-ends (true, a) next h k = k a

module _ (numbers : Numbers) {W D : Type 0} (engine : Engine numbers W D) where
  -- No call of the engine throws.
  pub record Answers : Type 0 where
    pub bars :
        (ticker : String) (from : Option ℕ) (as_of : ℕ) (w : W)
        → (engine.bars ticker from as_of w).0 ≢ none
    pub check_exits :
        (ticker : String) (as_of : ℕ) (rows : List (Row numbers)) (w : W)
        → (engine.check_exits ticker as_of rows w).0 ≢ none
    pub excursion :
        (r : Row numbers) (fill : Fill numbers) (rows : List (Row numbers)) (w : W)
        → (engine.excursion r fill rows w).0 ≡ true
    pub settle : (r : Row numbers) (w : W) → (engine.settle r w).0 ≡ true

  settle_all-ends :
      Answers → (rows : List (Row numbers)) (w : W) → (settle_all numbers engine rows w).0 ≡ true
  settle_all-ends answers [] w = refl
  settle_all-ends answers (r ∷ rows) w =
      and_then-ends numbers (engine.settle r w) (λ after. settle_all numbers engine rows after)
        (answers.settle r w) (λ after. settle_all-ends answers rows after)

module _ (numbers : Numbers) {W D S : Type 0} (engine : Engine numbers W D) where
  after_exit_check-ends :
      Answers numbers engine
      → (existing : Row numbers) (fill : Fill numbers)
      → (out : Option (List String) × List (Row numbers) × W) → out.0 ≢ none
      → (st : State numbers W D S) → (after_exit_check numbers engine existing fill out st).0 ≡ true
  after_exit_check-ends answers existing fill (none, rows, w) h st = absurd (h refl)
  after_exit_check-ends answers existing fill (some ids, rows, w) h st =
      elim (Bool-cases (contains existing.id ids)) [
        | inl b ↦ rw b refl
        | inr b ↦ rw b (answers.excursion existing fill rows w)
      ]

  before_commit-ends :
      Answers numbers engine
      → (existing : Option (Row numbers)) (t : Thesis numbers) (fill : Fill numbers)
      → (st : State numbers W D S) → (before_commit numbers engine existing t fill st).0 ≡ true
  before_commit-ends answers none t fill st = refl
  before_commit-ends answers (some existing) t fill st =
      elim (Bool-cases (existing.id == t.trade_thesis_id || is_held_by_rule numbers existing t)) [
        | inl b ↦ rw b refl
        | inr b ↦ rw b (
            after_exit_check-ends answers existing fill
              (engine.check_exits t.ticker fill.opened_at st.db.positions st.world)
              (answers.check_exits t.ticker fill.opened_at st.db.positions st.world) st)
      ]

  with_ready-ends :
      Answers numbers engine
      → (p : Pending numbers D) (fill : Fill numbers) (report : Report numbers)
      → (out : Bool × State numbers W D S) → out.0 ≡ true
      → (with_ready numbers engine p fill report out).0 ≡ true
  with_ready-ends answers p fill report (false, st) h = h
  with_ready-ends answers p fill report (true, st) h =
      let after = commit_fill numbers engine p fill st in
      let t = at_fill numbers p fill in
      settle_all-ends numbers engine answers
        (get_unsettled_replaced_positions numbers t.run_id t.ticker t.as_of
          (engine.settled after.world) after.db.positions)
        after.world

  with_fill-ends :
      Answers numbers engine
      → (found : Option (Filling numbers)) (as_of : ℕ) (p : Pending numbers D)
        (st : State numbers W D S) (report : Report numbers)
      → (with_fill numbers engine found as_of p (st, report)).0 ≡ true
  unfolding fill_pending expire_pending
  with_fill-ends answers (some filling) as_of p st report =
      let noted =
        note_outcome numbers engine (confirmation_spec_of numbers p.confirmation) (some filling) p
          st in
      let existing =
        get_open_position_for_ticker_as_of numbers p.thesis.run_id p.thesis.ticker
          filling.0.opened_at noted.db.positions in
      with_ready-ends answers p filling.0 report
        (before_commit numbers engine existing p.thesis filling.0 noted)
        (before_commit-ends answers existing p.thesis filling.0 noted)
  with_fill-ends answers none as_of p st report =
      elim (Bool-cases (is_pending_entry_expired p.fill_expires_at (some as_of))) [
        | inl b ↦ rw b refl
        | inr b ↦ rw b refl
      ]

  with_bars-ends :
      Answers numbers engine
      → (bars : Option (List (Bar numbers))) → bars ≢ none
      → (as_of : ℕ) (p : Pending numbers D) (st : State numbers W D S) (report : Report numbers)
      → (with_bars numbers engine bars as_of p (st, report)).0 ≡ true
  with_bars-ends answers none h as_of p st report = absurd (h refl)
  with_bars-ends answers (some bars) h as_of p st report =
      with_fill-ends answers (find_fill numbers bars p) as_of p st report

  after_step-ends :
      (ps : List (Pending numbers D))
      (loop : State numbers W D S × Report numbers → Looped numbers W D S)
      → ((done : State numbers W D S × Report numbers) → (loop done).0 ≡ [])
      → (out : Stepped numbers W D S) → out.0 ≡ true
      → (after_step numbers engine ps loop out).0 ≡ []
  after_step-ends ps loop k (false, st, report) h = absurd (cc h)
  after_step-ends ps loop k (true, st, report) h = k (st, report)

  fill_pending_entries-ends :
      Answers numbers engine
      → (as_of : ℕ) (ps : List (Pending numbers D)) (done : State numbers W D S × Report numbers)
      → (fill_pending_entries numbers engine as_of ps done).0 ≡ []
  unfolding fill_pending_entries step_pending
  fill_pending_entries-ends answers as_of [] done = refl
  fill_pending_entries-ends answers as_of (p ∷ ps) (st, report) =
      let read = engine.bars p.thesis.ticker p.as_of as_of st.world in
      after_step-ends (p ∷ ps) (λ next. fill_pending_entries numbers engine as_of ps next)
        (λ next. fill_pending_entries-ends answers as_of ps next)
        (step_pending numbers engine as_of p (st, report))
        (with_bars-ends answers read.0 (answers.bars p.thesis.ticker p.as_of as_of st.world) as_of p
          (record st { world = read.1 }) report)

  -- The loop goes past the first entries of the list, past all of them where no read, no exit check, no excursion
  -- and no settlement throws; where one throws, the entries that are left are the one that it broke off and
  -- those after it. No entry that it went past and whose deadline has passed is pending any more, whether it
  -- was filled or expired.
  pub fill_pending_entries-settles :
      (as_of : ℕ) (ps : List (Pending numbers D)) (done : State numbers W D S × Report numbers)
      → SettlesPast numbers engine as_of ps (fill_pending_entries numbers engine as_of ps done)
        × (Answers numbers engine → (fill_pending_entries numbers engine as_of ps done).0 ≡ [])
  fill_pending_entries-settles as_of ps done = (
    fill_pending_entries-past numbers engine as_of ps done,
    λ answers. fill_pending_entries-ends answers as_of ps done,
  )
