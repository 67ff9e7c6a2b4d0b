-- ===== src/Lib.antt =====
-- A verification library for news-market-ai, a set of Cloudflare Workers that turn news into
-- simulated trades: vendors' items and prices are ingested, a chain of language-model agents
-- judges each item, and a backtest replays the chain over past days.
--
-- The parts and how they interact. A backtest invocation may make so many subrequests. It counts
-- them (src/backtest/subrequestBudget.js) and walks a window of days
-- (src/backtest/onSignalRunner.js), item by item, asking the budget before each unit of work and
-- pausing with a cursor when one does not fit. Each agent's call goes through the Gemini cascade
-- (src/llm/gemini/client.js), which tries every API key and model, charges the budget per
-- attempt, and keeps cooldowns in a KV store (src/shared/cooldown.js). The exit check of each
-- day walks the bars of open positions (src/agents/risk_mgmt). A judged item is sized and signed
-- off (src/agents/risk_mgmt/risk.js, src/agents/managers/portfolio_manager.js) and committed to
-- the book in one batch (src/storage/run_store.js), at once or when a pending entry fills
-- (src/graph/entry_fill.js). Ingestion reads vendors in windows of days
-- (src/ingestion/date_windows.js), through retries and throttles (src/shared/retry.js,
-- src/shared/throttle.js).
--
-- The modules, and what they model:
-- - Common: shared names; finite maps with keys that compare (Keys), list functions (Lists),
--   Boolean tests on numbers (Tests), texts as lists of UTF-16 codes with decimals (Decimal).
-- - Budget: src/backtest/subrequestBudget.js. Budget is the class SubrequestBudget as a record,
--   each method a function on it: chargeExternal is charge_external, canStart is can_start, and
--   so on. A method that may throw gives an outcome beside the budget. Budget.Counted has the D1
--   and KV wrappers, Budget.Invariant runs of operations in any order.
-- - Cooldown: src/shared/cooldown.js. getCooldown and setCooldown over a store whose reads and
--   writes may fail, which CooldownMap.Cooling takes to be the wrapper of
--   src/shared/cooldown_map_kv.js; Cooldown.RateLimit has classifyRateLimit and the daily
--   quota's reset.
-- - CooldownMap: src/shared/cooldown_map_kv.js, the wrapper that keeps every cooldown under one
--   key; CooldownMap.Store compares it with a store of single keys, and CooldownMap.Cooling
--   reads back through it what setCooldown wrote.
-- - Gemini: src/llm/gemini/client.js. Gemini.World is what geminiGenerateContent calls, as a
--   record over a state; Gemini.Step the body of its inner loop (try_model, on_error,
--   cool_down), Gemini.Cascade the two loops and generate_content. The other children hold
--   proofs.
-- - Replies: the text of a reply in src/llm/gemini/client.js (stripJsonFence,
--   stripTrailingCommas, parseModelJson) and src/llm/budget.js.
-- - Walk: src/backtest/onSignalRunner.js. Engine is what walkOnSignalWindow calls; walk_items,
--   walk_tickers and walk_days are its loops, walk_window the function. Progress hooks appear as
--   the list of finished units. Walk.Schedule is the order of work by no reference to the walk,
--   Walk.Invocations chains resumed walks, and Walk.Dates has the days of a window (eachDayIso,
--   computeWalkEnd, clampEnd of src/backtest/simClock.js).
-- - Exit: src/agents/risk_mgmt. Exit itself has the calendar of exit.js on day numbers,
--   Exit.Evaluate evaluateExit, Exit.Bars and Exit.Walk exit_bars.js, Exit.Trailing trailing.js,
--   Exit.Numbers src/shared/returns.js and src/shared/split_guard.js.
-- - Book: src/storage/run_store.js. Db holds the tables of positions, decisions and checkpoints
--   as lists of rows. Book.Guards has the sums that commitThesis checks and the constants of
--   src/shared/constants.js, Book.Limits its conditions P1 to P3, Book.Commit its three
--   statements and the batch (commit_thesis), Book.Lifecycle the writes to single positions,
--   Book.Reads the reads as of an instant. Book.Closing and Book.Outcome show that the
--   statements see the same sums, Book.Verdict, Book.Single and Book.Retry what a commit does,
--   Book.Frozen what a write keeps that deletes nothing, and Book.Kept what any sequence of
--   writes does, deleteRun among them.
-- - Risk: src/agents/risk_mgmt/risk.js (evaluate_risk) and computeATR of
--   src/agents/analysts/technicalIndicators.js; Risk.Portfolio is
--   src/agents/managers/portfolio_manager.js (evaluate_portfolio). A failed check of a result is
--   none.
-- - Entry: src/shared/entry_timing.js and src/shared/entry_confirmation.js; Entry.Step is
--   src/graph/bar_fill.js and src/graph/entry_fill.js, whose loop is fill_pending_entries over a
--   record Engine of what it reads and calls, each call of which may throw; Entry.Settled and
--   Entry.Ends have what the loop leaves.
-- - Pipeline: src/graph/checkpointer.js and src/graph/conditional_logic.js; Pipeline.World is
--   what src/graph/pipeline.js calls, as a record Engine whose calls may throw and whose writes
--   may go through unseen, Pipeline.Inputs what it hands to the risk rules, the portfolio
--   manager and the commit (with src/graph/drawdown_breaker.js), Pipeline.Stages its stages
--   (analyze, gate, argue, trade, check_risk) and run_pipeline_stages, Pipeline.Finish the last
--   one (finish), with a branch of the code to each function. The other children hold proofs.
-- - Pacing: src/shared/retry.js (with_retry) and src/shared/throttle.js (wait).
-- - Windows: src/ingestion/date_windows.js (build_windows, split_window).
--
-- What stands for what. Numbers that the code only counts with are naturals. Prices and returns
-- are numbers of a record Numbers, whose arithmetic is a parameter; a theorem names the laws of
-- the order that it needs. These hold of the finite double-precision numbers; at NaN two of them
-- fail, that a number is below another exactly where the other is not at most it, and that every
-- number is at most itself, so a theorem that names them says nothing of a run that meets NaN.
-- Instants are milliseconds or numbers of UTC days. A thrown error is a value. A comparison with
-- an SQL NULL is false, a sum passes over it, and a decimal constant is the quotient of two
-- whole numbers; instants in the tables, texts of one format, compare as numbers. The rows of a
-- table stand in a list, and a sum adds them in that order. The network, the stores, the clock
-- and the agents are parameters over a state of the world, and each hypothesis about them is
-- named where it is used.
--
-- Bounds and fuel. The loops over keys, models, items, tickers, days and bars recurse on their
-- lists. The loop of timeExitDueAt runs on the fuel of calendar_days_covering, which a theorem
-- shows to be enough, that of buildWindows on one step per day of the range, that of withRetry
-- on the attempts that remain, and the loop of the debate on one more than the rounds allowed,
-- which a theorem shows to be enough.
--
-- What is not modelled: the adapters of vendors, prompts and schemas, the dashboard and the SQL
-- that serves it, which read, write and present; the job store and the ingestion loop, whose
-- models are to follow. In the loop over pending entries, the writes of the store are taken to
-- go through. In the pipeline, an exit check that throws is taken to leave the positions as they
-- were. Of the modelled files, snapshots and messages for the logs are left out, and so are the
-- texts of errors.
pub mod Common
pub mod Budget
pub mod Cooldown
pub mod CooldownMap
pub mod Gemini
pub mod Walk
pub mod Exit
pub mod Pacing
pub mod Replies
pub mod Windows
pub mod Book
pub mod Risk
pub mod Entry
pub mod Pipeline
