-- ===== src/Tests/Loops.antt =====
-- The bounded loop, the mocks and the dry run at concrete inputs.
use mt5_mcp_trading_framewor.Common.{◌≡◌, refl, false, none, some, List, [], ◌∷◌, ◌++◌, map, arith}
use mt5_mcp_trading_framewor.Common.Int.{pos}
use mt5_mcp_trading_framewor.Common.Outcome.{ok, raised, state_load_error}
use mt5_mcp_trading_framewor.Common.Clock.{minus_delta}
use mt5_mcp_trading_framewor.Float.{min}
use mt5_mcp_trading_framewor.Float.Fixed.{Fixed, fixed_float}
use mt5_mcp_trading_framewor.Domain.{loss_not_computed, demo}
use mt5_mcp_trading_framewor.Risk.{DailyLossLimitConfig, daily_reset_boundary}
use mt5_mcp_trading_framewor.Pipeline.LoopControl.{LoopLimits, daily_loss_breached}
use mt5_mcp_trading_framewor.Mocks.{
  MockAccountReader, MockMarketDataSource, MockOrderExecutor, mock_account, mock_market,
  mock_executor,
}
use mt5_mcp_trading_framewor.Mocks.DryRun.{DryRunExecutor, dry_run_executor}
use mt5_mcp_trading_framewor.Mocks.DryRun.Laws.{
  Request, submission, closing, ask_all, line_of, submissions, ask_all-dry_run,
}
use mt5_mcp_trading_framewor.Session.{Session}
use mt5_mcp_trading_framewor.Session.Loss.{current_daily_loss_decision, decide}
use mt5_mcp_trading_framewor.Session.Loop.{main_loop, stopped_before}
use mt5_mcp_trading_framewor.Session.Loop.Laws.{
  IsEnd, waited_after, main_loop_ends, main_loop_fails_closed,
}
use mt5_mcp_trading_framewor.Tests.Samples.{grid_config, runner_config, money}
use mt5_mcp_trading_framewor.Tests.Desk.{market_plan}

abbrev no_orders : MockOrderExecutor Fixed
no_orders = record { submitted = []; cancelled = []; closed = [] }

abbrev no_account : MockAccountReader Fixed
no_account = record {
  account_state = record {
    balance = pos 1000;
    equity = pos 1000;
    margin_free = pos 1000;
    trade_mode = demo;
    login = none;
    server = none;
  };
  positions = [];
  orders = [];
}

abbrev no_market : MockMarketDataSource Fixed
no_market = record { bars = []; ticks = []; symbol_infos = [] }

-- a session over the mocks whose store cannot be read
abbrev session : Session (MockOrderExecutor Fixed) Fixed
session = record {
  market_data = mock_market no_market;
  account = mock_account no_account;
  executor = mock_executor;
  all_open = λ s. (ok [], s);
  all_records = λ s. (raised state_load_error, s);
  get_deals = λ fetch_from fetch_to s. (ok [], s);
  now = λ s. (200_000_000_000, s);
  elapsed = λ s. (pos 0, s);
  stop_file_exists = λ s. (false, s);
  sleep = λ seconds s. s;
  grid_config = grid_config;
  runner_config = runner_config;
  money_config = money;
}

abbrev limits : LoopLimits Fixed
limits = record {
  max_cycles = 2;
  max_runtime_seconds = pos 100_000;
  cycle_interval_seconds = pos 12_000;
  poll_interval_seconds = pos 5000;
}

abbrev no_limit : DailyLossLimitConfig Fixed
no_limit = record { max_daily_loss = none; reset_hour_utc = 0 }

abbrev limit : DailyLossLimitConfig Fixed
limit = record { max_daily_loss = some (pos 50_000); reset_hour_utc = 0 }

main_loop_ends_example : IsEnd 2 (main_loop session limits 3 no_limit 3 0 no_orders).0
unfolding waited_after min fixed_float
main_loop_ends_example =
    main_loop_ends session limits 3 no_limit refl 3 0 no_orders (omega arith) (omega arith)

main_loop_fails_closed_example :
    main_loop session limits 3 limit 3 0 no_orders
    ≡ (stopped_before 0 (daily_loss_breached (loss_not_computed state_load_error ∷ [])), no_orders)
unfolding current_daily_loss_decision decide daily_reset_boundary minus_delta
main_loop_fails_closed_example =
    main_loop_fails_closed session limits 3 limit 2 0 no_orders state_load_error refl

abbrev fresh : DryRunExecutor Fixed
fresh = record { delegate = no_orders; log = [] }

abbrev requests : List (Request Fixed)
requests = submission market_plan ∷ closing 1 none ∷ []

ask_all-dry_run_example :
    let dry = ask_all dry_run_executor requests fresh in
    let plain = ask_all mock_executor requests no_orders in
    (dry.0 ≡ plain.0)
    × (dry.1.delegate ≡ plain.1)
    × (dry.1.log ≡ [] ++ map line_of requests)
    × (plain.1.submitted ≡ [] ++ submissions requests)
ask_all-dry_run_example = ask_all-dry_run requests fresh
