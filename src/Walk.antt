-- ===== src/Walk.antt =====
-- src/backtest/onSignalRunner.js: the resumable day-by-day walk of a backtest window. Days are numbers
-- of UTC days, and `published_at` the instant that its text names.
pub mod Schedule
pub mod Resume
pub mod DayList
pub mod Dates
pub mod Days
pub mod Whole
pub mod Invocations
mod Tests
use news_market_ai.Common.{
  ℕ, zero, suc, ◌+◌, ◌<◌, ◌≤◌, String, Bool, true, false, not, ◌&&◌, ◌||◌, Option, none, some, List,
  [], ◌∷◌, ◌++◌, ltb, leb, if◌then◌else◌, ◌==◌, keyed_nat, length, drop, max,
}
use news_market_ai.Budget.{Cost}

pub record Item : Type 0 where
  pub published_at : ℕ
  pub id : ℕ

-- The `after` of a cursor: a key in the order (published_at, id), not a position.
pub record Key : Type 0 where
  pub published_at : ℕ
  pub id : ℕ

abbrev pub key_of : Item → Key
key_of item = record { published_at = item.published_at; id = item.id }

-- `isAfterCursorKey`
unfoldable pub is_after_cursor_key : Item → Key → Bool
is_after_cursor_key item after =
    ltb after.published_at item.published_at
    || (item.published_at == after.published_at && ltb after.id item.id)

-- `pos.after && !isAfterCursorKey(item, pos.after)`
unfoldable pub is_behind : Item → Option Key → Bool
unfolding is_after_cursor_key
is_behind item none = false
is_behind item (some after) = not (is_after_cursor_key item after)

pub record Cursor : Type 0 where
  pub day : ℕ
  pub ticker : ℕ
  pub after : Option Key
  pub exits : Bool

-- What a unit of work throws.
pub data Error : Type 0 where
  -- `SubrequestBudgetExhaustedError`
  out_of_budget : Error
  -- a transient Gemini `VendorError`, with its `retryAfterSeconds`
  transient_gemini : Option ℕ → Error
  -- an error tagged by `markLlmOutputError`
  llm_output : Error
  other : Error

pub data Ran {ℓ} (A : Type ℓ) : Type ℓ where
  ran : A → Ran A
  threw : Error → Ran A

pub data Kind : Type 0 where
  item exits : Kind

-- What the walk calls: the news, the pipeline, the exit check, the store and the budget.
pub record Engine (W : Type 0) : Type 0 where
  -- `getDayNewsItems`
  pub read_items : String → ℕ → W → Ran (List Item) × W
  -- `runPipelineForTicker`
  pub run_item : String → Item → W → Ran (Unit {0}) × W
  -- `onItemSkipped`, which throws when too many items were skipped
  pub on_item_skipped : String → ℕ → Item → W → Ran (Unit {0}) × W
  -- `fillPendingEntries` and `checkOpenPositionExits`: the pending entries that still wait
  pub run_exits : ℕ → W → Ran ℕ × W
  -- no open position and no pending entry, two store reads that are never refused
  pub nothing_left : ℕ → W → Option Bool × W
  pub can_start : Kind → W → Bool
  pub mark : W → Cost
  pub record_unit : Kind → Cost → W → W

pub record Window : Type 0 where
  pub tickers : List String
  pub test_end : ℕ
  pub is_last_window : Bool
  -- whether a `budget` was passed, and whether `onItemSkipped` was
  pub budgeted : Bool
  pub skips : Bool

-- Why the walk stops before its end.
pub data Stop : Type 0 where
  -- reasons "budget", "exhausted" and "transient"
  for_budget for_exhausted : Stop
  for_transient : Option ℕ → Stop
  -- the error leaves the function
  throws : Error → Stop

-- The progress hooks `onItem`, and `onExits` with `done: true`.
pub data Finished : Type 0 where
  item_done : String → ℕ → Item → Finished
  exits_done : ℕ → Finished

-- An error that leaves the try block: an exhausted budget pauses, any other is thrown.
abbrev pub escape : Error → Stop
escape out_of_budget = for_exhausted
escape (transient_gemini retry) = throws (transient_gemini retry)
escape llm_output = throws llm_output
escape other = throws other

pub data Tried : Type 0 where
  behind finished : Tried
  stopped : Stop → Tried

pub data Result : Type 0 where
  complete : Result
  -- `skippedDays`
  complete_early : ℕ → Result
  paused : Stop → Cursor → Result
  -- the error leaves the function, and no cursor with it
  failed : Error → Result
  -- the cursor names no day of the window
  unknown_day : Result

abbrev pub stop_at : Stop → Cursor → Result
stop_at for_budget pos = paused for_budget pos
stop_at for_exhausted pos = paused for_exhausted pos
stop_at (for_transient retry) pos = paused (for_transient retry) pos
stop_at (throws e) pos = failed e

-- Events before those of the rest of the walk.
abbrev pub prepend {ℓ} :
    {W : Type 0} {A : Type ℓ} → List Finished → A × (W × List Finished) → A × (W × List Finished)
prepend before (a, (w, events)) = (a, (w, before ++ events))

-- `days.indexOf(cursor.day)`: the days from the cursor's on.
unfoldable pub from_day : ℕ → List ℕ → List ℕ
from_day day [] = []
from_day day (d ∷ days) = if d == day then d ∷ days else from_day day days

abbrev pub start_of : List ℕ → Cursor
start_of [] = record { day = 0; ticker = 0; after = none; exits = false }
start_of (d ∷ days) = record { day = d; ticker = 0; after = none; exits = false }

-- `if (dayIso !== pos.day) Object.assign(pos, ...)`
abbrev pub at_day : ℕ → Cursor → Cursor
at_day day pos =
    if day == pos.day then pos else (record { day = day; ticker = 0; after = none; exits = false })

-- The position once the items of every ticker are done.
abbrev pub items_done : Cursor → List String → Cursor
items_done pos tickers = if pos.exits then pos else (record {
  day = pos.day;
  ticker = max pos.ticker (length tickers);
  after = none;
  exits = true;
})

module _ {W : Type 0} (engine : Engine W) (window : Window) where
  abbrev pub finish_item : Cost → W → Tried × W
  finish_item before w = (finished, if window.budgeted then engine.record_unit item before w else w)

  abbrev pub after_skip : Cost → Ran (Unit {0}) × W → Tried × W
  after_skip before (ran _, w) = finish_item before w
  after_skip before (threw e, w) = (stopped (escape e), w)

  -- The catch block around `runPipelineForTicker`.
  abbrev pub after_item : String → ℕ → Item → Cost → Ran (Unit {0}) × W → Tried × W
  after_item ticker day it before (ran _, w) = finish_item before w
  after_item ticker day it before (threw out_of_budget, w) = (stopped for_exhausted, w)
  after_item ticker day it before (threw (transient_gemini retry), w) = (
    stopped (if window.budgeted then for_transient retry else throws (transient_gemini retry)),
    w,
  )
  after_item ticker day it before (threw llm_output, w) =
      if window.skips
      then after_skip before (engine.on_item_skipped ticker day it w)
      else (stopped (throws llm_output), w)
  after_item ticker day it before (threw other, w) = (stopped (throws other), w)

  -- The body of the loop over a ticker-day's items.
  unfoldable pub try_item : String → ℕ → Item → Option Key → W → Tried × W
  try_item ticker day it after w =
      if is_behind it after
      then (behind, w)
      else if window.budgeted && not (engine.can_start item w)
      then (stopped for_budget, w)
      else after_item ticker day it (engine.mark w) (engine.run_item ticker it w)

  abbrev pub after_tried :
      String
      → ℕ
      → Item
      → Option Key
      → Tried × W
      → (Option Key → W → Option (Stop × Option Key) × (W × List Finished))
      → Option (Stop × Option Key) × (W × List Finished)
  after_tried ticker day it after (behind, w) rest = rest after w
  after_tried ticker day it after (finished, w) rest =
      prepend (item_done ticker day it ∷ []) (rest (some (key_of it)) w)
  after_tried ticker day it after (stopped why, w) rest = (some (why, after), (w, []))

  -- The items of one ticker-day: `none`, or why it stopped and the `after` of the cursor.
  unfoldable pub walk_items :
      String → ℕ → List Item → Option Key → W → Option (Stop × Option Key) × (W × List Finished)
  unfolding try_item
  walk_items ticker day [] after w = (none, (w, []))
  walk_items ticker day (it ∷ its) after w =
      after_tried ticker day it after (try_item ticker day it after w)
        (λ after' w'. walk_items ticker day its after' w')

  abbrev pub after_items :
      ℕ
      → Option (Stop × Option Key) × (W × List Finished)
      → (W → Option (Stop × ℕ × Option Key) × (W × List Finished))
      → Option (Stop × ℕ × Option Key) × (W × List Finished)
  after_items index (some (why, after), (w, events)) rest = (some (why, index, after), (w, events))
  after_items index (none, (w, events)) rest = prepend events (rest w)

  abbrev pub after_read :
      String
      → ℕ
      → ℕ
      → Option Key
      → Ran (List Item) × W
      → (W → Option (Stop × ℕ × Option Key) × (W × List Finished))
      → Option (Stop × ℕ × Option Key) × (W × List Finished)
  after_read ticker day index after (threw e, w) rest = (some (escape e, index, after), (w, []))
  after_read ticker day index after (ran its, w) rest =
      after_items index (walk_items ticker day its after w) rest

  -- The tickers of one day that are left, from the index of the first on: `none`, or why it stopped,
  -- at which ticker, after which key.
  unfoldable pub walk_tickers :
      ℕ → ℕ → List String → Option Key → W → Option (Stop × ℕ × Option Key) × (W × List Finished)
  unfolding walk_items
  walk_tickers day index [] after w = (none, (w, []))
  walk_tickers day index (ticker ∷ tickers) after w =
      after_read ticker day index after (engine.read_items ticker day w)
        (λ w'. walk_tickers day (index + 1) tickers none w')

  -- A day's exit check, begun with every ticker's items done: the entries that still wait, or why it
  -- stopped.
  unfoldable pub check_exits : ℕ → W → Ran ℕ × W
  check_exits day w =
      let before = engine.mark w in
      let (r, w') = engine.run_exits day w in
      elim r [
        | threw e ↦ (threw e, w')
        | ran waiting ↦
            (ran waiting, if window.budgeted then engine.record_unit exits before w' else w')
      ]

  -- Whether the grace tail may end after this day.
  abbrev pub in_tail : ℕ → ℕ → List ℕ → Bool
  in_tail day waiting [] = false
  in_tail day waiting (_ ∷ _) = window.is_last_window && (waiting == 0 && leb window.test_end day)

  abbrev pub after_tail :
      List ℕ → Option Bool × W → (W → Result × (W × List Finished)) → Result × (W × List Finished)
  after_tail days (none, w) rest = (failed other, (w, []))
  after_tail days (some left, w) rest =
      if left then (complete_early (length days), (w, [])) else rest w

  -- After the exit check of a day: the early end of the grace tail, or the next day.
  abbrev pub after_exits :
      ℕ
      → List ℕ
      → Cursor
      → Ran ℕ × W
      → (W → Result × (W × List Finished))
      → Result × (W × List Finished)
  after_exits day days pos (threw e, w) rest = (stop_at (escape e) pos, (w, []))
  after_exits day days pos (ran waiting, w) rest =
      if in_tail day waiting days
      then prepend (exits_done day ∷ []) (after_tail days (engine.nothing_left day w) rest)
      else prepend (exits_done day ∷ []) (rest w)

  -- After the tickers of a day: a pause there, a pause before the exit check, or the exit check.
  abbrev pub after_tickers :
      ℕ
      → Cursor
      → Option (Stop × ℕ × Option Key) × (W × List Finished)
      → (W → Result × (W × List Finished))
      → Result × (W × List Finished)
  after_tickers day pos (some (why, index, after), (w, events)) rest = (
    stop_at why (record { day = day; ticker = index; after = after; exits = false }),
    (w, events),
  )
  after_tickers day pos (none, (w, events)) rest =
      if window.budgeted && not (engine.can_start exits w)
      then (paused for_budget pos, (w, events))
      else prepend events (rest w)

  -- The days that are left. The cursor counts for the day that it names; any other day starts anew.
  unfoldable pub walk_days : List ℕ → Cursor → W → Result × (W × List Finished)
  unfolding walk_tickers check_exits
  walk_days [] pos w = (complete, (w, []))
  walk_days (day ∷ days) pos w =
      let at = at_day day pos in
      let done_items = items_done at window.tickers in
      after_tickers day done_items
        (if at.exits
          then (none, (w, []))
          else walk_tickers day at.ticker (drop at.ticker window.tickers) at.after w)
        (λ v.
          after_exits day days done_items (check_exits day v) (λ v'. walk_days days done_items v'))

  abbrev pub walk_found : List ℕ → Cursor → W → Result × (W × List Finished)
  walk_found [] cursor w = (unknown_day, (w, []))
  walk_found (day ∷ days) cursor w = walk_days (day ∷ days) cursor w

  -- `walkOnSignalWindow` over the days of the window, from a cursor or from the start.
  unfoldable pub walk_window : List ℕ → Option Cursor → W → Result × (W × List Finished)
  unfolding walk_days from_day
  walk_window days none w = walk_days days (start_of days) w
  walk_window days (some cursor) w = walk_found (from_day cursor.day days) cursor w
