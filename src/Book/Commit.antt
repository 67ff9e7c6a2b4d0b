-- ===== src/Book/Commit.antt =====
-- src/storage/run_store.js: the writes of decisions and checkpoints, and `commitThesis`.
use news_market_ai.Common.{
  String, Bool, true, false, not, ◌&&◌, ◌==◌, keyed_string, Option, none, some, List, [], ◌∷◌, ◌++◌,
  map, any, if◌then◌else◌,
}
use news_market_ai.Exit.Numbers.{Numbers, Direction}
use news_market_ai.Book.{
  Row, Decision, Checkpoint, Db, Status, CloseReason, pending_entry, flipped, replaced, is_mine,
  has_key, is_open, same_direction,
}
use news_market_ai.Book.Guards.{Thesis}
use news_market_ai.Book.Limits.{admits, status_of}

-- `CASE WHEN direction IS NOT NULL AND direction != ? THEN 'flipped' ELSE 'replaced' END`
abbrev pub reason_of : Option Direction → Option Direction → CloseReason
reason_of (some d) (some e) = if same_direction (some d) (some e) then replaced else flipped
reason_of d e = replaced

abbrev pub is_pending : Status → Bool
is_pending pending_entry = true
is_pending status = false

module _ {D : Type 0} where
  abbrev pub same_decision : Decision D → Decision D → Bool
  same_decision d e = d.run_id == e.run_id && d.id == e.id

  abbrev pub set_status : Status → Decision D → Decision D
  set_status status d = record d { status = status }

  -- `INSERT ... ON CONFLICT(run_id, id) DO UPDATE SET status = excluded.status WHERE ... pending_entry`
  abbrev pub upgrade_decision : Decision D → List (Decision D) → List (Decision D)
  upgrade_decision d [] = d ∷ []
  upgrade_decision d (e ∷ es) =
      if same_decision e d
      then (if is_pending e.status then set_status d.status e else e) ∷ es
      else e ∷ upgrade_decision d es

  -- `INSERT ... ON CONFLICT(run_id, id) DO NOTHING`
  abbrev pub insert_decision : Decision D → List (Decision D) → List (Decision D)
  insert_decision d [] = d ∷ []
  insert_decision d (e ∷ es) = if same_decision e d then e ∷ es else e ∷ insert_decision d es

  -- The decision with that key.
  abbrev pub find_decision : String → String → List (Decision D) → Option (Decision D)
  find_decision run id [] = none
  find_decision run id (e ∷ es) =
      if e.run_id == run && e.id == id then some e else find_decision run id es

module _ {S : Type 0} where
  abbrev pub same_checkpoint : Checkpoint S → Checkpoint S → Bool
  same_checkpoint c d =
      c.run_id == d.run_id && c.pipeline_run_id == d.pipeline_run_id && c.ticker == d.ticker

  -- `#checkpointStatement`
  unfoldable pub save_checkpoint : Checkpoint S → List (Checkpoint S) → List (Checkpoint S)
  save_checkpoint c [] = c ∷ []
  save_checkpoint c (d ∷ ds) = if same_checkpoint d c then c ∷ ds else d ∷ save_checkpoint c ds

  -- `getCheckpoint`
  unfoldable pub get_checkpoint :
      String → String → String → List (Checkpoint S) → Option (Checkpoint S)
  get_checkpoint run pipeline_run ticker [] = none
  get_checkpoint run pipeline_run ticker (d ∷ ds) =
      if d.run_id == run && d.pipeline_run_id == pipeline_run && d.ticker == ticker
      then some d
      else get_checkpoint run pipeline_run ticker ds

  -- A checkpoint that rides in the batch of another write, when there is one.
  abbrev pub save_some : Option (Checkpoint S) → List (Checkpoint S) → List (Checkpoint S)
  save_some none cs = cs
  save_some (some c) cs = save_checkpoint c cs

module _ (numbers : Numbers) where
  -- The WHERE of `closeOld` on one row
  abbrev pub is_closing : Thesis numbers → Row numbers → Bool
  is_closing t r = is_mine t.run_id t.ticker r && not (r.id == t.id) && is_open r

  abbrev pub closed_row : Thesis numbers → Row numbers → Row numbers
  closed_row t r = record r {
    closed_at = some t.as_of;
    close_reason = some (reason_of r.direction t.direction);
    exit_price = t.exit_price;
  }

  abbrev pub close_row : Thesis numbers → Row numbers → Row numbers
  close_row t r = if is_closing t r then closed_row t r else r

  -- `closeOld`
  unfoldable pub close_old : Thesis numbers → List (Row numbers) → List (Row numbers)
  unfolding admits
  close_old t rows = if admits numbers t rows then map (close_row t) rows else rows

  abbrev pub new_row : Thesis numbers → Row numbers
  new_row t = record {
    run_id = t.run_id;
    id = t.id;
    ticker = t.ticker;
    trade_thesis_id = t.trade_thesis_id;
    position_size_pct = t.position_size_pct;
    direction = t.direction;
    entry_price = t.entry_price;
    stop_loss_pct = t.stop_loss_pct;
    take_profit_pct = t.take_profit_pct;
    opened_at = t.as_of;
    closed_at = none;
    close_reason = none;
    exit_price = none;
    confidence = t.confidence;
    entry_price_source = t.entry_price_source;
    entry_price_bar_ts = t.entry_price_bar_ts;
    trail_knobs = t.trail_knobs;
    last_price = none;
    last_checked_at = none;
    mae_pct = none;
    mfe_pct = none;
    peak_price = none;
  }

  -- `openNew`
  unfoldable pub open_new : Thesis numbers → List (Row numbers) → List (Row numbers)
  unfolding admits
  open_new t rows =
      if admits numbers t rows && not (any (has_key t.run_id t.id) rows)
      then rows ++ (new_row t ∷ [])
      else rows

  abbrev pub decision_of : {D : Type 0} → Thesis numbers → D → Status → Decision D
  decision_of t content status = record {
    run_id = t.run_id;
    id = t.id;
    ticker = t.ticker;
    as_of = t.as_of;
    status = status;
    fill_expires_at = none;
    content = content;
  }

  -- What `closeOld` and `openNew` make of the positions.
  unfoldable pub commit_positions : Thesis numbers → List (Row numbers) → List (Row numbers)
  unfolding close_old open_new
  commit_positions t rows = open_new t (close_old t rows)

  module _ {D S : Type 0} where
    -- `commitThesis`: one batch, so all of it or nothing is written
    unfoldable pub commit_thesis :
        Thesis numbers → D → Option (Checkpoint S) → Db numbers D S → Db numbers D S
    unfolding commit_positions status_of save_checkpoint
    commit_thesis t content checkpoint db =
        let rows = commit_positions t db.positions in
        record {
          positions = rows;
          decisions =
              upgrade_decision (decision_of t content (status_of numbers t rows)) db.decisions;
          checkpoints = save_some checkpoint db.checkpoints;
        }

    -- `insertTradeDecision`
    unfoldable pub insert_trade_decision :
        Decision D → Option (Checkpoint S) → Db numbers D S → Db numbers D S
    unfolding save_checkpoint
    insert_trade_decision d checkpoint db = record db {
      decisions = insert_decision d db.decisions;
      checkpoints = save_some checkpoint db.checkpoints;
    }
