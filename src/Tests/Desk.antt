-- ===== src/Tests/Desk.antt =====
-- An executor, a session and their surroundings for the examples: the outside is the list of the tools
-- that were called to trade.
use mt5_mcp_trading_framewor.Common.{true, none, some, List, [], ◌∷◌, String, str_eq, if◌then◌else◌}
use mt5_mcp_trading_framewor.Common.Int.{pos}
use mt5_mcp_trading_framewor.Common.Outcome.{Outcome, ok, raised, value_error}
use mt5_mcp_trading_framewor.Float.Fixed.{Fixed, fixed_float}
use mt5_mcp_trading_framewor.Domain.{OrderPlan, buy, market_order, demo}
use mt5_mcp_trading_framewor.Risk.{naive}
use mt5_mcp_trading_framewor.Mcp.{ToolRegistry, read_only, trading}
use mt5_mcp_trading_framewor.Mcp.Client.{Session, content}
use mt5_mcp_trading_framewor.Adapter.Library.{
  Json, Fields, Library, object, integer, text, field, empty,
}
use mt5_mcp_trading_framewor.Adapter.Response.{TradeResponse}
use mt5_mcp_trading_framewor.Adapter.Executor.{McpOrderExecutor}
use mt5_mcp_trading_framewor.Tests.Samples.{position_at}

-- the object of a reply whose order 7 is done
abbrev pub done_data : Fields Fixed
done_data = field "retcode" (integer (pos 10009)) (field "order" (integer (pos 7)) empty)

abbrev pub done_reply : Fields Fixed
done_reply = field "data" (object done_data) (field "message" (text "done") empty)

-- the same with a word of the tool's own
abbrev pub failed_reply : Fields Fixed
failed_reply = field "error" (text "true") done_reply

abbrev pub loads : String → Outcome (Json Fixed)
loads s =
    if str_eq s "done"
    then ok (object done_reply)
    else if str_eq s "failed"
    then ok (object failed_reply)
    else raised value_error

abbrev words : Json Fixed → String
words (text t) = t
words _ = ""

abbrev pub library : Library Fixed
library = record {
  json_loads = loads;
  str = words;
  int_of_float = λ x. ok x;
  float_of_int = λ n. ok n;
  int_of_text = λ t. raised value_error;
  float_of_text = λ t. raised value_error;
  dict_rows = λ t. ok [];
  fromisoformat = λ t. ok (naive 0);
  date_text = λ t. "2026-01-01";
}

-- each call is answered; a call to read leaves no trace
abbrev pub answer : Session (List String) Fixed
answer name arguments calls =
    (content (some "done" ∷ []), if str_eq name "get_deals" then calls else name ∷ calls)

abbrev pub registry : ToolRegistry
registry = record {
  trading_enabled = true;
  classification =
      ("get_deals", read_only)
      ∷ ("place_market_order", trading)
      ∷ ("modify_position", trading)
      ∷ [];
}

abbrev pub desk : McpOrderExecutor (List String) Fixed
desk = record {
  client = record { registry = registry; session = some answer };
  account = record {
    get_positions = λ symbol magic calls. (ok (position_at 7 buy 100_000 ∷ []), calls);
    get_orders = λ symbol magic calls. (ok [], calls);
  };
  get_account_state = λ calls. (
    ok (record {
      balance = pos 1000;
      equity = pos 1000;
      margin_free = pos 1000;
      trade_mode = demo;
      login = none;
      server = none;
    }),
    calls,
  );
  mt5_account_kind = some "DEMO";
  lib = library;
  now = λ calls. (100_000_000_000, calls);
  sleep = λ calls. calls;
  describe = λ e. "closed by its stop";
}

abbrev pub market_plan : OrderPlan Fixed
market_plan = record {
  symbol = "BTCUSD";
  order_type = market_order;
  side = buy;
  volume = pos 10;
  price = some (pos 100_000);
  sl = pos 95_000;
  tp = pos 110_000;
  deviation = 150;
  magic = 72101;
  comment = "runner";
  filling_mode = none;
  expiry = none;
}

abbrev pub done_response : TradeResponse Fixed
done_response = record {
  retcode = some (pos 10009);
  raw_data = some done_data;
  tool_message = "done";
}
