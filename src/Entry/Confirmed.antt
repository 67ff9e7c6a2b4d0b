-- ===== src/Entry/Confirmed.antt =====
-- src/graph/entry_fill.js: a fill never comes before its decision, nor at its deadline or later.
use news_market_ai.Common.{
  ℕ, ◌≤◌, ◌<◌, ◌≡◌, refl, ap, Bool, true, Option, none, some, List, [], ◌∷◌, All, ltb, ltb→lt,
  if◌then◌else◌, arith, inl, inr,
}
use mathlib.Core.Path.{subst}
use news_market_ai.Exit.Numbers.{Numbers, Direction}
use news_market_ai.Exit.Bars.{Bar}
use news_market_ai.Entry.{
  Fill, Spec, Confirmation, find_fill_bar, find_confirmation_bar, confirmation_spec_of,
}
use news_market_ai.Entry.Bars.{
  find_fill_bar-opened_at, find_fill_bar-OpensAt, OpensAt, find_confirmation_bar-Confirms, Confirms,
  Among,
}
use news_market_ai.Entry.Step.{
  Filling, Pending, find_first_bar_open_at_or_after, find_confirmed_entry_fill, fill_after, in_time,
  search_fill, find_fill, with_no_confirmation, with_confirmation,
}

module _ (numbers : Numbers) where
  none_absurd : {A : Type 0} (a : A) → none ≡ some a → ⊥
  none_absurd a h = ground arith

  in_time-open :
      (expires : Option ℕ) (found : Option (Filling numbers)) (filling : Filling numbers)
      → in_time numbers expires found ≡ some filling
      → (deadline : ℕ) × (expires ≡ some deadline)
        × (found ≡ some filling)
        × (filling.0.opened_at < deadline)
  in_time-open expires none filling h = absurd (none_absurd filling h)
  in_time-open none (some found) filling h = absurd (none_absurd filling h)
  in_time-open (some deadline) (some found) filling h =
      let kept = guarded (ltb found.0.opened_at deadline) h in
      (
        deadline,
        refl,
        ap (λ x. some x) kept.1,
        subst (λ x. x.0.opened_at < deadline) kept.1 (ltb→lt found.0.opened_at deadline kept.0),
      )
    where
      guarded :
          (b : Bool)
          → (if b then some found else none) ≡ some filling
          → (b ≡ true) × (found ≡ filling)
      guarded b h = ground arith

  -- The bar of a fill opened at `from` or later.
  IsFrom : Option ℕ → Filling numbers → Type 0
  IsFrom from filling = (start : ℕ) × (from ≡ some start) × (start ≤ filling.0.opened_at)

  plain-IsFrom :
      (from : Option ℕ) (bars : List (Bar numbers)) (found : Option (Fill numbers))
      → find_fill_bar numbers bars from ≡ found
      → (filling : Filling numbers) → with_no_confirmation numbers found ≡ some filling
      → IsFrom from filling
  unfolding IsFrom
  plain-IsFrom from bars none e filling h = absurd (none_absurd filling h)
  plain-IsFrom from bars (some fill) e filling h =
      subst (λ x. (start : ℕ) × (from ≡ some start) × (start ≤ x.0.opened_at)) (unsome h)
        (find_fill_bar-opened_at numbers from bars fill e)
    where
      unsome : some (fill, none) ≡ some filling → (fill, none) ≡ filling
      unsome h = ground arith

  -- Every bar closes after it opens.
  abbrev pub AreBars : List (Bar numbers) → Type 0
  AreBars bars = All (λ bar. bar.open_ms ≤ bar.available_at) bars

  All-Among :
      (P : Bar numbers → Type 0) (bar : Bar numbers) (bars : List (Bar numbers))
      → All P bars
      → Among numbers bar bars
      → P bar
  All-Among P bar [] all among = absurd among
  All-Among P bar (b ∷ bars) all (inl e) = subst P e all.0
  All-Among P bar (b ∷ bars) all (inr among) = All-Among P bar bars all.1 among

  confirmed_fill-IsFrom :
      (from expires : Option ℕ) (direction : Option Direction) (spec : Spec numbers)
      (bars : List (Bar numbers))
      → AreBars bars
      → (confirm : Option (Confirmation numbers))
      → find_confirmation_bar numbers bars from expires direction spec ≡ confirm
      → (filling : Filling numbers) → fill_after numbers bars confirm ≡ some filling
      → IsFrom from filling
  unfolding IsFrom
  confirmed_fill-IsFrom from expires direction spec bars all none e filling h =
      absurd (none_absurd filling h)
  confirmed_fill-IsFrom from expires direction spec bars all (some c) e filling h =
      opened (find_confirmation_bar-Confirms numbers bars from expires direction spec c e)
        (find_fill_bar numbers bars (some c.closed_at)) refl h
    where
      all_closed : (bar : Bar numbers) → Among numbers bar bars → bar.open_ms ≤ bar.available_at
      all_closed bar among = All-Among (λ b. b.open_ms ≤ b.available_at) bar bars all among

      unsome : (fill : Fill numbers) → some (fill, some c) ≡ some filling → (fill, some c) ≡ filling
      unsome fill h = ground arith

      within :
          (start : ℕ) (bar : Bar numbers) (fill : Fill numbers)
          → bar.open_ms ≤ bar.available_at
          → start ≤ bar.open_ms
          → c.closed_at ≡ bar.available_at
          → (as_of : ℕ) × (some c.closed_at ≡ some as_of) × (as_of ≤ fill.opened_at)
          → start ≤ fill.opened_at
      within start bar fill a b d (as_of, e, f) = ground arith

      opened :
          ((start : ℕ) × (deadline : ℕ) × (way : Direction) × (from ≡ some start)
            × (expires ≡ some deadline)
            × (direction ≡ some way)
            × Confirms numbers start deadline way spec bars c)
          → (found : Option (Fill numbers)) → find_fill_bar numbers bars (some c.closed_at) ≡ found
          → with_confirmation numbers c found ≡ some filling
          → (start : ℕ) × (from ≡ some start) × (start ≤ filling.0.opened_at)
      opened k none f h = absurd (none_absurd filling h)
      opened (start, deadline, way, a, b, d, (bar, among, after, before, moved, same)) (some fill) f
            h =
          (
            start,
            a,
            subst (λ x. start ≤ x.0.opened_at) (unsome fill h)
                (within start bar fill (all_closed bar among) after (ap (λ x. x.closed_at) same)
                  (find_fill_bar-opened_at numbers (some c.closed_at) bars fill f)),
          )

  search_fill-IsFrom :
      {D : Type 0} (bars : List (Bar numbers)) (p : Pending numbers D)
      (spec : Option (Spec numbers)) (filling : Filling numbers)
      → AreBars bars
      → search_fill numbers bars p spec ≡ some filling
      → IsFrom p.as_of filling
  unfolding find_first_bar_open_at_or_after find_confirmed_entry_fill
  search_fill-IsFrom bars p none filling all h =
      plain-IsFrom p.as_of bars (find_fill_bar numbers bars p.as_of) refl filling h
  search_fill-IsFrom bars p (some spec) filling all h =
      confirmed_fill-IsFrom p.as_of p.fill_expires_at p.thesis.direction spec bars all
        (find_confirmation_bar numbers bars p.as_of p.fill_expires_at p.thesis.direction spec) refl
        filling h

  plain-OpensAt :
      (from : Option ℕ) (bars : List (Bar numbers)) (found : Option (Fill numbers))
      → find_fill_bar numbers bars from ≡ found
      → (filling : Filling numbers) → with_no_confirmation numbers found ≡ some filling
      → OpensAt numbers bars filling.0
  plain-OpensAt from bars none e filling h = absurd (none_absurd filling h)
  plain-OpensAt from bars (some fill) e filling h =
      subst (λ x. OpensAt numbers bars x.0) (unsome h)
        (find_fill_bar-OpensAt numbers from bars fill e)
    where
      unsome : some (fill, none) ≡ some filling → (fill, none) ≡ filling
      unsome h = ground arith

  confirmed-OpensAt :
      (from : Option ℕ) (bars : List (Bar numbers)) (c : Confirmation numbers)
      (found : Option (Fill numbers))
      → find_fill_bar numbers bars from ≡ found
      → (filling : Filling numbers) → with_confirmation numbers c found ≡ some filling
      → OpensAt numbers bars filling.0
  confirmed-OpensAt from bars c none e filling h = absurd (none_absurd filling h)
  confirmed-OpensAt from bars c (some fill) e filling h =
      subst (λ x. OpensAt numbers bars x.0) (unsome h)
        (find_fill_bar-OpensAt numbers from bars fill e)
    where
      unsome : some (fill, some c) ≡ some filling → (fill, some c) ≡ filling
      unsome h = ground arith

  after-OpensAt :
      (bars : List (Bar numbers)) (confirm : Option (Confirmation numbers))
      (filling : Filling numbers)
      → fill_after numbers bars confirm ≡ some filling
      → OpensAt numbers bars filling.0
  after-OpensAt bars none filling h = absurd (none_absurd filling h)
  after-OpensAt bars (some c) filling h =
      confirmed-OpensAt (some c.closed_at) bars c (find_fill_bar numbers bars (some c.closed_at))
        refl filling h

  search_fill-OpensAt :
      {D : Type 0} (bars : List (Bar numbers)) (p : Pending numbers D)
      (spec : Option (Spec numbers)) (filling : Filling numbers)
      → search_fill numbers bars p spec ≡ some filling
      → OpensAt numbers bars filling.0
  unfolding find_first_bar_open_at_or_after find_confirmed_entry_fill
  search_fill-OpensAt bars p none filling h =
      plain-OpensAt p.as_of bars (find_fill_bar numbers bars p.as_of) refl filling h
  search_fill-OpensAt bars p (some spec) filling h =
      after-OpensAt bars
        (find_confirmation_bar numbers bars p.as_of p.fill_expires_at p.thesis.direction spec)
        filling h

  -- A pending entry, plain or confirmed, fills at the instant and the open price of one of the bars, a finite and
  -- positive price, and that bar opened when the entry was decided or later, and before its deadline; the
  -- bars are taken to close no earlier than they open.
  pub find_fill-opened_at :
      {D : Type 0} (bars : List (Bar numbers)) (p : Pending numbers D) (filling : Filling numbers)
      → AreBars bars
      → find_fill numbers bars p ≡ some filling
      → (start : ℕ) × (deadline : ℕ) × (p.as_of ≡ some start)
        × (p.fill_expires_at ≡ some deadline)
        × (start ≤ filling.0.opened_at)
        × (filling.0.opened_at < deadline)
        × OpensAt numbers bars filling.0
  unfolding find_fill IsFrom
  find_fill-opened_at bars p filling all h =
      let spec = confirmation_spec_of numbers p.confirmation in
      let timed = in_time-open p.fill_expires_at (search_fill numbers bars p spec) filling h in
      let from = search_fill-IsFrom bars p spec filling all timed.2 in
      (
        from.0,
        timed.0,
        from.1,
        timed.1,
        from.2,
        timed.3,
        search_fill-OpensAt bars p spec filling timed.2,
      )
