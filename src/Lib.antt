-- ===== src/Lib.antt =====
-- A model of src/mt5_mcp_trading, an automated trader for MetaTrader 5: from market bars to order
-- plans, the records of what was ordered, the replay that tests the strategies, and the proofs that
-- these parts do what they are for.
--
-- One cycle of a strategy reads bars, a tick and the account through adapters, proposes an intent,
-- sizes it, asks the guards, builds a plan and hands the plan to an executor. The parts and their
-- files:
--
--   Common/      helpers: native lists, Python's slices and text, integers, exceptions as values
--                (`Outcome`), and calls that change a state and may raise (`Action`).
--   Float/       `float` as an interface of operations. A theorem that needs laws asks for
--                `IsOrdered` and `IsArith`, which IEEE 754 satisfies on finite values that do not
--                overflow; `Fixed`, decimals with three places, satisfies them too and is what the
--                examples compute with.
--   Domain/      domain/models.py: the records that the stages hand on.
--   Features/    features/ema.py, atr.py, macd.py, regime.py.
--   Risk/        risk/: the guards, their combination and the daily reset.
--   Strategy/    strategy/grid.py, runner.py, guard.py with trade_intent/.
--   Sizing/      sizing/money.py.
--   Planning/    order_planning/limit_price.py, plan.py.
--   State/       state/models.py, store.py, strategy_registry.py, reconcile.py, policy.py and
--                sl_tp_artifact.py: a store is a directory of one file per ticket, of which each holds
--                a decoded record or something that cannot be decoded; State/Codec is the JSON object
--                of a record, which the directory's files stand for, and State/Files the steps in which
--                a file is written, each of which may fail.
--   Mcp/         mcp_adapter/tool_registry.py, metatrader_tools.py, client.py: which tools may be
--                called, and the one place that calls them.
--   Monitoring/  monitoring/live_performance.py: trades, slippage, the offset of the deals' times and
--                the daily decision.
--   Adapter/     mt5_adapter/metatrader_retcodes.py, mcp_account.py, mcp_deal_history.py and
--                mcp_order_executor.py: what the server's replies mean, and the executor that trades.
--                Its state is a pair of what lies outside and the store's directory, so that a call of
--                an adapter cannot touch the store, nor a call of the store anything else.
--                Adapter/Composition is execution/composition.py, which puts the executor together.
--   Session/     scripts/run_demo_execution_pipeline_loop.py: the bounded loop over both cycles.
--   Mocks/       mocks/ and execution/dry_run.py: the executors that trade nothing.
--   Pipeline/    pipeline/grid_cycle.py, runner_cycle.py, loop_control.py, over the protocols of
--                market_data/interfaces.py and mt5_adapter/interfaces.py. The protocols are records of
--                calls on a state of which a cycle knows nothing, so that the cycles run on any
--                implementation.
--   Backtest/    backtest/ledger.py, engine.py and metrics.py: an implementation of the protocols on a
--                ledger, the replay of both cycles over a history of bars, and the figures of a replay.
--   Config/      config/settings.py and the gates of mt5_adapter/safety.py and
--                execution/composition.py before the client is started.
--   Tests/       the theorems at concrete inputs.
--
-- A function has its name from the source; a helper by clauses stands for a branch or for the body of
-- a loop. Loops are recursion on the list that they run over, and the replay's is recursion on the
-- number of bars that are left. Only the bounded loop runs on fuel, one for its cycles and one for the
-- polls of a wait; one more than the cycles that are left, and as many polls as fill the interval
-- between two cycles, are enough. An exception is its class: what a message formats is a constructor of
-- `Reason` with the same values. A `datetime` is a number of microseconds.
--
-- What lies outside is a parameter: the session of the MCP library, the account, the clock, the stop
-- file, and Python's readers of JSON, CSV, numbers and dates. A ticket, a magic number and MT5's codes
-- are natural numbers.
--
-- Not modelled: failures of the disk within the operations of the store, where a write succeeds;
-- the reader of the market over the client, the cache of bars, the start of the server's process,
-- logging with the texts of results, and the scripts but for the bounded loop. The rounding of
-- floats is not modelled but by the laws that it satisfies. `run_backtest` is modelled for a
-- `bars_count` of at least one.
pub mod Common
pub mod Float
pub mod Domain
pub mod Features
pub mod Risk
pub mod Strategy
pub mod Sizing
pub mod Planning
pub mod State
pub mod Mcp
pub mod Pipeline
pub mod Monitoring
pub mod Adapter
pub mod Session
pub mod Mocks
pub mod Backtest
pub mod Config
pub mod Tests
