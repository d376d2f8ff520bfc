-- ===== src/Adapter/Response.antt =====
-- mt5_adapter/metatrader_retcodes.py: what a trading tool's response says, read from its `data` alone.
pub mod Laws
use mt5_mcp_trading_framewor.Common.{
  ℕ, suc, Bool, true, false, Option, none, some, List, [], ◌∷◌, String, str_eq, if◌then◌else◌, ltb,
  length,
}
use mt5_mcp_trading_framewor.Common.Int.{ℤ, pos, eqb_ℤ}
use mt5_mcp_trading_framewor.Common.Outcome.{Outcome, ok, raised, malformed_response, ◌>>=◌}
use mt5_mcp_trading_framewor.Adapter.Library.{
  Json, Items, Fields, Library, null, array, object, end, item, empty, field, find_field, dict_of,
  int_of,
}

pub record TradeResponse (F : Type 0) : Type 0 where
  pub retcode : Option ℤ
  pub raw_data : Option (Fields F)
  pub tool_message : String

abbrev pub is_done : Option ℤ → Bool
is_done none = false
is_done (some code) = eqb_ℤ code (pos 10009)

abbrev pub order_send_result_fields : List String
order_send_result_fields =
    "retcode" ∷ "deal" ∷ "order" ∷ "volume" ∷ "price" ∷ "bid" ∷ "ask" ∷ "comment" ∷ "request_id"
    ∷ "retcode_external" ∷ "request" ∷ []

module _ {F : Type 0} where
  -- the property `done`
  unfoldable pub done : TradeResponse F → Bool
  done response = is_done response.retcode

  abbrev pub count_items : Items F → ℕ
  count_items end = 0
  count_items (item v rest) = suc (count_items rest)

  -- `dict(zip(names, data))`
  abbrev pub zip_fields : List String → Items F → Fields F
  zip_fields [] items = empty
  zip_fields (name ∷ names) end = empty
  zip_fields (name ∷ names) (item v rest) = field name v (zip_fields names rest)

  abbrev pub with_retcode :
      Library F → Fields F → String → Option (Json F) → Outcome (TradeResponse F)
  with_retcode lib d message none = raised malformed_response
  with_retcode lib d message (some v) = int_of lib v >>= λ code.
      ok (record { retcode = some code; raw_data = some d; tool_message = message })

  abbrev pub response_of_dict : Library F → Fields F → String → Outcome (TradeResponse F)
  response_of_dict lib d message = with_retcode lib d message (find_field "retcode" d)

  abbrev pub response_of_data : Library F → Option (Json F) → String → Outcome (TradeResponse F)
  response_of_data lib none message =
      ok (record { retcode = none; raw_data = none; tool_message = message })
  response_of_data lib (some null) message =
      ok (record { retcode = none; raw_data = none; tool_message = message })
  response_of_data lib (some (array items)) message =
      if ltb (count_items items) (length order_send_result_fields)
      then raised malformed_response
      else response_of_dict lib (zip_fields order_send_result_fields items) message
  response_of_data lib (some (object d)) message = response_of_dict lib d message
  response_of_data lib (some other) message = raised malformed_response

  -- `str(parsed.get("message", ""))`
  abbrev pub message_of : Library F → Option (Json F) → String
  message_of lib none = ""
  message_of lib (some v) = lib.str v

  abbrev pub response_of_fields : Library F → Fields F → Outcome (TradeResponse F)
  response_of_fields lib fields =
      response_of_data lib (find_field "data" fields) (message_of lib (find_field "message" fields))

  abbrev pub response_of_parsed : Library F → Json F → Outcome (TradeResponse F)
  response_of_parsed lib parsed = dict_of parsed >>= response_of_fields lib

  unfoldable pub parse_trade_response : Library F → String → Outcome (TradeResponse F)
  parse_trade_response lib raw_json = lib.json_loads raw_json >>= response_of_parsed lib
