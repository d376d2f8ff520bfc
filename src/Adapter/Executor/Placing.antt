-- ===== src/Adapter/Executor/Placing.antt =====
-- What `submit` has in common for both types of order: the checks of a plan, the values of a response,
-- the record of a submission and the repeated reads.
use mt5_mcp_trading_framewor.Common.{
  ℕ, zero, suc, Bool, true, false, not, ◌&&◌, ◌||◌, Option, none, some, List, [], ◌∷◌, String,
  if◌then◌else◌, ◌==◌,
}
use mt5_mcp_trading_framewor.Common.Int.{ℤ, pos, negsuc}
use mt5_mcp_trading_framewor.Common.Outcome.{
  Outcome, ok, raised, value_error, key_error, invalid_order_plan, raise_if, ◌>>=◌, ◌>>◌,
}
use mt5_mcp_trading_framewor.Common.Action as Action
use mt5_mcp_trading_framewor.Common.Action.{Action, pure}
use mt5_mcp_trading_framewor.Float.{Float, ◌⊏◌, ◌⊑◌, ◌⊖◌, nought}
use mt5_mcp_trading_framewor.Domain.{
  OrderPlan, ExecutionResult, Side, buy, sell, OrderType, limit_order, market_order, PositionState,
  Time,
}
use mt5_mcp_trading_framewor.State.Models.{strategy_name_for_magic}
use mt5_mcp_trading_framewor.State.Store.{Submission}
use mt5_mcp_trading_framewor.Adapter.Library.{
  Json, Fields, Library, find_field, item_found, int_of, integer, number,
}
use mt5_mcp_trading_framewor.Adapter.Response.{TradeResponse}

abbrev pub side_text : Side → String
side_text buy = "BUY"
side_text sell = "SELL"

abbrev pub order_type_text : OrderType → String
order_type_text limit_order = "LIMIT"
order_type_text market_order = "MARKET"

-- `_NO_RETCODE` where there is none
abbrev pub retcode_or : Option ℤ → ℤ
retcode_or none = negsuc 0
retcode_or (some code) = code

-- a ticket is a natural number here; the source would go on with a negative one
abbrev pub ticket_of : ℤ → Outcome ℕ
ticket_of (pos n) = ok n
ticket_of (negsuc n) = raised value_error

module _ {F : Type 0} where
  -- `raw_data["order"]` of a response that is done
  abbrev order_in : Option (Fields F) → Outcome (Json F)
  order_in none = raised key_error
  order_in (some d) = item_found (find_field "order" d)

  -- `int(response.raw_data["order"])`
  unfoldable pub order_ticket : Library F → TradeResponse F → Outcome ℕ
  order_ticket lib response = order_in response.raw_data >>= int_of lib >>= ticket_of

  abbrev field_in : String → Option (Fields F) → Option (Json F)
  field_in key none = none
  field_in key (some d) = find_field key d

  -- the source passes a value of any kind on; here a deal is a positive number or none, and a price or a
  -- volume is a number or none
  abbrev deal_value : Option (Json F) → Option ℕ
  deal_value (some (integer (pos (suc n)))) = some (suc n)
  deal_value _ = none

  abbrev price_value : (ℤ → F) → Option (Json F) → Option F
  price_value of_int (some (number x)) = some x
  price_value of_int (some (integer n)) = some (of_int n)
  price_value of_int _ = none

  -- the same without the `or None`, by which a deal of zero counts as none
  abbrev plain_deal : Option (Json F) → Option ℕ
  plain_deal (some (integer (pos n))) = some n
  plain_deal _ = none

  abbrev pub closing_deal : TradeResponse F → Option ℕ
  closing_deal response = plain_deal (field_in "deal" response.raw_data)

  abbrev pub response_deal : TradeResponse F → Option ℕ
  response_deal response = deal_value (field_in "deal" response.raw_data)

module _ {F : Type 0} ⦃f : Float F⦄ where
  abbrev float_of_int : ℤ → F
  float_of_int (pos n) = f.of_nat n
  float_of_int (negsuc n) = f.neg (f.of_nat (suc n))

  abbrev pub response_number : String → TradeResponse F → Option F
  response_number key response = price_value float_of_int (field_in key response.raw_data)

  abbrev beyond : Side → F → F → F → Bool
  beyond buy sl price tp = (sl ⊏ price) && (price ⊏ tp)
  beyond sell sl price tp = (tp ⊏ price) && (price ⊏ sl)

  abbrev validate_sides : Side → F → Option F → F → Outcome (Unit {0})
  validate_sides side sl none tp = raised invalid_order_plan
  validate_sides side sl (some price) tp =
      raise_if (not (beyond side sl price tp)) invalid_order_plan

  unfoldable pub validate_market_sl_tp : OrderPlan F → Outcome (Unit {0})
  validate_market_sl_tp plan =
      raise_if ((plan.sl ⊑ nought) || (plan.tp ⊑ nought)) invalid_order_plan
      >> validate_sides plan.side plan.sl plan.price plan.tp

  -- the arguments of `record_submission`
  unfoldable pub submission_of : OrderPlan F → TradeResponse F → ℕ → Time → Submission F
  submission_of plan response ticket submitted_at = record {
    ticket = ticket;
    strategy = strategy_name_for_magic plan.magic;
    magic = plan.magic;
    comment = plan.comment;
    symbol = plan.symbol;
    side = side_text plan.side;
    order_type = order_type_text plan.order_type;
    requested_volume = plan.volume;
    requested_price = plan.price;
    requested_sl = plan.sl;
    requested_tp = plan.tp;
    requested_deviation = plan.deviation;
    requested_filling_mode = plan.filling_mode;
    requested_expiry = plan.expiry;
    retcode = retcode_or response.retcode;
    executed_price = response_number "price" response;
    executed_volume = response_number "volume" response;
    broker_comment = response.tool_message;
    submitted_at = submitted_at;
  }

  -- the result of a response that is not done
  abbrev pub not_done : Option (OrderPlan F) → Option ℕ → TradeResponse F → ExecutionResult F
  not_done plan ticket response = record {
    order_plan = plan;
    success = false;
    retcode = retcode_or response.retcode;
    ticket = ticket;
    deal = none;
    executed_price = none;
    executed_volume = none;
    broker_comment = response.tool_message;
    verified = false;
  }

  abbrev pub submitted : OrderPlan F → TradeResponse F → ℕ → Bool → ExecutionResult F
  submitted plan response ticket verified = record {
    order_plan = some plan;
    success = true;
    retcode = retcode_or response.retcode;
    ticket = some ticket;
    deal = response_deal response;
    executed_price = response_number "price" response;
    executed_volume = response_number "volume" response;
    broker_comment = response.tool_message;
    verified = verified;
  }

  -- the stops of the first position with this ticket are the expected ones, up to 1e-6
  abbrev pub stops_match : ℕ → F → F → List (PositionState F) → Bool
  stops_match ticket sl tp [] = false
  stops_match ticket sl tp (p ∷ ps) =
      if p.ticket == ticket
      then (f.abs (p.sl ⊖ sl) ⊏ f.ratio 1 1_000_000) && (f.abs (p.tp ⊖ tp) ⊏ f.ratio 1 1_000_000)
      else stops_match ticket sl tp ps

-- `if attempt < attempts - 1: sleep`, with the number of attempts that are left
abbrev pub pause : {W : Type 0} → Action W (Unit {0}) → ℕ → Action W (Unit {0})
pause sleep zero = pure tt
pause sleep (suc left) = sleep

module _ {W A : Type 0} where
  -- the loop of the three `_verify` methods: a read is repeated until it shows what is expected
  unfoldable pub verify : ℕ → Action W (Unit {0}) → Action W A → (A → Bool) → Action W Bool
  verify zero sleep read shows = pure false
  verify (suc left) sleep read shows = Action.◌>>=◌ read (λ found.
      if shows found
      then pure true
      else Action.◌>>◌ (pause sleep left) (verify left sleep read shows))
