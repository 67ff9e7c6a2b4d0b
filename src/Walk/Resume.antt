-- ===== src/Walk/Resume.antt =====
-- src/backtest/onSignalRunner.js: what a stretch of the walk finished and what its cursor leaves make up
-- what was left before it.
use news_market_ai.Common.{
  ℕ, ◌≡◌, ◌∙◌, sym, refl, ap, String, Bool, true, false, not, ◌&&◌, Option, none, some, List, [],
  ◌∷◌, ◌++◌, if◌then◌else◌, keyed_nat,
}
use news_market_ai.Budget.{Cost}
use news_market_ai.Walk.{
  Item, Key, key_of, is_behind, Ran, ran, threw, item, Engine, Window, Stop, for_budget, throws,
  Finished, item_done, llm_output, out_of_budget, transient_gemini, other, Tried, behind, finished,
  stopped, try_item, prepend, walk_items, after_item, after_skip, after_tried,
}
use news_market_ai.Walk.Schedule.{
  IsSorted, pending, item_units, Covers, behind_own_key, key_covers, pending-All, pending_behind,
  All-after, All-later,
}

module _ {W : Type 0} (engine : Engine W) (window : Window) where
  -- How one item was tried, by whether the cursor key covers it.
  abbrev TriedSpec : Item → Option Key → Tried × W → Type 0
  TriedSpec x after (behind, w) = is_behind x after ≡ true
  TriedSpec x after (finished, w) = is_behind x after ≡ false
  TriedSpec x after (stopped why, w) = Unit

  if-TriedSpec :
      (c : Bool) (x : Item) (after : Option Key) (p q : Tried × W)
      → (c ≡ true → TriedSpec x after p)
      → (c ≡ false → TriedSpec x after q)
      → TriedSpec x after (if c then p else q)
  if-TriedSpec true x after p q h k = h refl
  if-TriedSpec false x after p q h k = k refl

  after_skip-TriedSpec :
      (x : Item) (after : Option Key) (before : Cost) (r : Ran (Unit {0}) × W)
      → is_behind x after ≡ false
      → TriedSpec x after (after_skip engine window before r)
  after_skip-TriedSpec x after before (ran _, w) n = n
  after_skip-TriedSpec x after before (threw e, w) n = tt

  after_item-TriedSpec :
      (ticker : String) (day : ℕ) (x : Item) (after : Option Key) (before : Cost)
      (r : Ran (Unit {0}) × W)
      → is_behind x after ≡ false
      → TriedSpec x after (after_item engine window ticker day x before r)
  after_item-TriedSpec ticker day x after before (ran _, w) n = n
  after_item-TriedSpec ticker day x after before (threw out_of_budget, w) n = tt
  after_item-TriedSpec ticker day x after before (threw (transient_gemini retry), w) n = tt
  after_item-TriedSpec ticker day x after before (threw llm_output, w) n =
      if-TriedSpec window.skips x after
        (after_skip engine window before (engine.on_item_skipped ticker day x w))
        (stopped (throws llm_output), w)
        (λ _. after_skip-TriedSpec x after before (engine.on_item_skipped ticker day x w) n)
        (λ _. tt)
  after_item-TriedSpec ticker day x after before (threw other, w) n = tt

  try_item-TriedSpec :
      (ticker : String) (day : ℕ) (x : Item) (after : Option Key) (w : W)
      → TriedSpec x after (try_item engine window ticker day x after w)
  unfolding try_item
  try_item-TriedSpec ticker day x after w =
      let run =
        after_item engine window ticker day x (engine.mark w) (engine.run_item ticker x w) in
      let begun =
        if window.budgeted && not (engine.can_start item w) then (stopped for_budget, w) else run in
      if-TriedSpec (is_behind x after) x after (behind, w) begun (λ b. b)
        (λ n.
          if-TriedSpec (window.budgeted && not (engine.can_start item w)) x after
            (stopped for_budget, w) run (λ _. tt)
            (λ _.
              after_item-TriedSpec ticker day x after (engine.mark w) (engine.run_item ticker x w)
                n))

  abbrev pub ItemsSpec :
      String
      → ℕ
      → List Item
      → Option Key
      → Option (Stop × Option Key) × (W × List Finished)
      → Type 0
  ItemsSpec ticker day its after (none, (w, events)) =
      item_units ticker day (pending after its) ≡ events
  ItemsSpec ticker day its after (some (why, after'), (w, events)) =
      (item_units ticker day (pending after its)
        ≡ events ++ item_units ticker day (pending after' its))
      × Covers after after'

  Covers-refl : (after : Option Key) → Covers after after
  Covers-refl after x h = h

  ItemsSpec-behind :
      (ticker : String) (day : ℕ) (x : Item) (its : List Item) (after : Option Key)
      (r : Option (Stop × Option Key) × (W × List Finished))
      → is_behind x after ≡ true
      → ItemsSpec ticker day its after r
      → ItemsSpec ticker day (x ∷ its) after r
  unfolding pending item_units
  ItemsSpec-behind ticker day x its after (none, (w, events)) b h = rw b h
  ItemsSpec-behind ticker day x its after (some (why, later), (w, events)) b h =
      ((rw (b, h.1 x b) h.0), h.1)

  -- What was left before an item that the key does not cover is the item and all after it.
  pending-first :
      (x : Item) (its : List Item) (after : Option Key)
      → IsSorted (x ∷ its)
      → is_behind x after ≡ false
      → pending after (x ∷ its) ≡ x ∷ pending (some (key_of x)) its
  unfolding pending
  pending-first x its after sorted n =
      rw
        (
          n,
          pending-All after its (All-later x after its n sorted.0),
          pending-All (some (key_of x)) its (All-after x its sorted.0),
        )
        refl

  ItemsSpec-finished :
      (ticker : String) (day : ℕ) (x : Item) (its : List Item) (after : Option Key)
      (r : Option (Stop × Option Key) × (W × List Finished))
      → IsSorted (x ∷ its)
      → is_behind x after ≡ false
      → ItemsSpec ticker day its (some (key_of x)) r
      → ItemsSpec ticker day (x ∷ its) after (prepend (item_done ticker day x ∷ []) r)
  unfolding item_units
  ItemsSpec-finished ticker day x its after (none, (w, events)) sorted n h =
      rw (pending-first x its after sorted n, h) refl
  ItemsSpec-finished ticker day x its after (some (why, later), (w, events)) sorted n h = (
    ap (item_units ticker day) (pending-first x its after sorted n)
        ∙ ap (λ l. item_done ticker day x ∷ l) h.0
        ∙ ap (λ l. (item_done ticker day x ∷ events) ++ item_units ticker day l)
            (sym (pending_behind x its later (h.1 x (behind_own_key x)))),
    λ y b. h.1 y (key_covers y x after n b),
  )

  after_tried-ItemsSpec :
      (ticker : String) (day : ℕ) (x : Item) (its : List Item) (after : Option Key) (t : Tried × W)
      (rest : Option Key → W → Option (Stop × Option Key) × (W × List Finished))
      → IsSorted (x ∷ its)
      → TriedSpec x after t
      → ((later : Option Key) (w : W) → ItemsSpec ticker day its later (rest later w))
      → ItemsSpec ticker day (x ∷ its) after (after_tried engine window ticker day x after t rest)
  after_tried-ItemsSpec ticker day x its after (behind, w) rest sorted h k =
      ItemsSpec-behind ticker day x its after (rest after w) h (k after w)
  after_tried-ItemsSpec ticker day x its after (finished, w) rest sorted h k =
      ItemsSpec-finished ticker day x its after (rest (some (key_of x)) w) sorted h
        (k (some (key_of x)) w)
  after_tried-ItemsSpec ticker day x its after (stopped why, w) rest sorted h k =
      (refl, Covers-refl after)

  -- The items that a stretch of one ticker-day finished, with those pending at its cursor key, are
  -- those that were pending before it.
  pub walk_items-ItemsSpec :
      (ticker : String) (day : ℕ) (its : List Item) (after : Option Key) (w : W)
      → IsSorted its
      → ItemsSpec ticker day its after (walk_items engine window ticker day its after w)
  unfolding walk_items pending item_units
  walk_items-ItemsSpec ticker day [] after w sorted = refl
  walk_items-ItemsSpec ticker day (x ∷ its) after w sorted =
      after_tried-ItemsSpec ticker day x its after (try_item engine window ticker day x after w)
        (λ later v. walk_items engine window ticker day its later v) sorted
        (try_item-TriedSpec ticker day x after w)
        (λ later v. walk_items-ItemsSpec ticker day its later v sorted.1)
