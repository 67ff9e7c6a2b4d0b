-- ===== src/Book.antt =====
-- src/storage/run_store.js: the tables that one database holds for every environment. Instants are numbers of
-- milliseconds, and an SQL NULL is `none`.
pub mod Guards
pub mod Limits
pub mod Commit
mod Closing
mod Outcome
pub mod Verdict
mod Single
pub mod Retry
pub mod Lifecycle
mod Frozen
mod Kept
pub mod Reads
mod Tests
use news_market_ai.Common.{
  ℕ, String, Bool, true, false, not, ◌&&◌, ◌==◌, keyed_string, Option, none, some, List, leb, ltb,
}
use news_market_ai.Exit.Numbers.{Numbers, Direction, long, short}

-- `TRADE_DECISION_STATUS`
pub data Status : Type 0 where
  opened held rejected superseded : Status
  skipped_no_price_data skipped_irrelevant skipped_no_fill pending_entry : Status

pub data CloseReason : Type 0 where
  flipped replaced : CloseReason
  -- What an exit check closes with.
  exit_rule : String → CloseReason

module _ (numbers : Numbers) where
  -- A row of `positions`.
  pub record Row : Type 0 where
    pub run_id : String
    pub id : String
    pub ticker : String
    pub trade_thesis_id : String
    pub position_size_pct : numbers.Num
    pub direction : Option Direction
    pub entry_price : Option numbers.Num
    pub stop_loss_pct : Option numbers.Num
    pub take_profit_pct : Option numbers.Num
    pub opened_at : ℕ
    pub closed_at : Option ℕ
    pub close_reason : Option CloseReason
    pub exit_price : Option numbers.Num
    pub confidence : Option numbers.Num
    pub entry_price_source : Option String
    pub entry_price_bar_ts : Option String
    pub trail_knobs : Option String
    pub last_price : Option numbers.Num
    pub last_checked_at : Option ℕ
    pub mae_pct : Option numbers.Num
    pub mfe_pct : Option numbers.Num
    pub peak_price : Option numbers.Num

-- A row of `trade_decisions`; `content` holds the thesis, the decisions, the opinions and the debate.
pub record Decision (D : Type 0) : Type 0 where
  pub run_id : String
  pub id : String
  pub ticker : String
  pub as_of : ℕ
  pub status : Status
  pub fill_expires_at : Option ℕ
  pub content : D

-- The stages of `STAGES` in graph/checkpointer.js.
pub data Stage : Type 0 where
  ingested analyzed debated traded risk_checked portfolio_checked : Stage

-- A row of `pipeline_checkpoints`.
pub record Checkpoint (S : Type 0) : Type 0 where
  pub run_id : String
  pub pipeline_run_id : String
  pub ticker : String
  pub stage : Stage
  pub state : S

pub record Db (numbers : Numbers) (D S : Type 0) : Type 0 where
  pub positions : List (Row numbers)
  pub decisions : List (Decision D)
  pub checkpoints : List (Checkpoint S)

abbrev pub is_null {ℓ} : {A : Type ℓ} → Option A → Bool
is_null none = true
is_null (some a) = false

-- `=` of SQL on a column and a value, where NULL makes it NULL, which a WHERE takes for false.
abbrev pub same_direction : Option Direction → Option Direction → Bool
same_direction (some long) (some long) = true
same_direction (some short) (some short) = true
same_direction d e = false

-- `closed_at IS NULL OR closed_at > ?`
abbrev pub closes_after : ℕ → Option ℕ → Bool
closes_after as_of none = true
closes_after as_of (some closed) = ltb as_of closed

module _ {numbers : Numbers} where
  abbrev pub is_mine : String → String → Row numbers → Bool
  is_mine run ticker r = r.run_id == run && r.ticker == ticker

  abbrev pub has_key : String → String → Row numbers → Bool
  has_key run id r = r.run_id == run && r.id == id

  abbrev pub is_open : Row numbers → Bool
  is_open r = is_null r.closed_at

  -- `opened_at <= ? AND (closed_at IS NULL OR closed_at > ?)`
  abbrev pub is_open_at : ℕ → Row numbers → Bool
  is_open_at as_of r = leb r.opened_at as_of && closes_after as_of r.closed_at
