-- ===== src/Mcp.antt =====
-- mcp_adapter/tool_registry.py and metatrader_tools.py: which tools may be called.
pub mod Laws
pub mod Client
use mt5_mcp_trading_framewor.Common.{
  Bool, true, false, not, ◌&&◌, Option, none, some, List, [], ◌∷◌, foldl, String, str_eq,
  if◌then◌else◌,
}
use mt5_mcp_trading_framewor.Common.Outcome.{
  Outcome, ok, raised, tool_not_classified, trading_disabled,
}

pub data ToolClass : Type 0 where
  read_only trading : ToolClass

pub record ToolRegistry : Type 0 where
  pub trading_enabled : Bool
  pub classification : List (String × ToolClass)

abbrev pub dict_get : String → List (String × ToolClass) → Option ToolClass
dict_get name [] = none
dict_get name ((k, c) ∷ rest) = if str_eq k name then some c else dict_get name rest

abbrev pub dict_set : String → ToolClass → List (String × ToolClass) → List (String × ToolClass)
dict_set name c [] = (name, c) ∷ []
dict_set name c ((k, old) ∷ rest) =
    if str_eq k name then (name, c) ∷ rest else (k, old) ∷ dict_set name c rest

unfoldable pub classify : String → ToolClass → ToolRegistry → ToolRegistry
classify name c registry = record registry {
  classification = dict_set name c registry.classification;
}

unfoldable pub classification_of : String → ToolRegistry → Option ToolClass
classification_of name registry = dict_get name registry.classification

abbrev pub authorize_class : Option ToolClass → Bool → Outcome (Unit {0})
authorize_class none enabled = raised tool_not_classified
authorize_class (some read_only) enabled = ok tt
authorize_class (some trading) enabled = if not enabled then raised trading_disabled else ok tt

unfoldable pub authorize_call : String → ToolRegistry → Outcome (Unit {0})
unfolding classification_of
authorize_call name registry =
    authorize_class (classification_of name registry) registry.trading_enabled

abbrev pub read_only_tools : List String
read_only_tools =
    "get_account_info" ∷ "get_deals" ∷ "get_orders" ∷ "get_candles_latest" ∷ "get_symbol_price"
    ∷ "get_all_symbols" ∷ "get_symbols" ∷ "get_all_positions" ∷ "get_positions_by_symbol"
    ∷ "get_positions_by_id" ∷ "get_all_pending_orders" ∷ "get_pending_orders_by_symbol"
    ∷ "get_pending_orders_by_id" ∷ "get_symbol_info" ∷ "get_positions_with_magic"
    ∷ "get_pending_orders_with_magic" ∷ []

abbrev pub trading_tools : List String
trading_tools =
    "place_market_order" ∷ "place_pending_order" ∷ "modify_position" ∷ "modify_pending_order"
    ∷ "close_position" ∷ "cancel_pending_order" ∷ "close_all_positions"
    ∷ "close_all_positions_by_symbol" ∷ "close_all_profitable_positions"
    ∷ "close_all_losing_positions" ∷ "cancel_all_pending_orders" ∷ "cancel_pending_orders_by_symbol"
    ∷ []

-- the two loops of `build_metatrader_tool_registry`
unfoldable pub classify_all : List String → ToolClass → ToolRegistry → ToolRegistry
unfolding classify
classify_all [] c registry = registry
classify_all (name ∷ names) c registry = classify_all names c (classify name c registry)

unfoldable pub build_metatrader_tool_registry : Bool → ToolRegistry
unfolding classify_all
build_metatrader_tool_registry trading_enabled = classify_all trading_tools trading (
    classify_all read_only_tools read_only
      (record { trading_enabled = trading_enabled; classification = [] }))
