-- ===== src/Mcp/Laws.antt =====
-- Proofs about mcp_adapter/: which calls the registry lets through.
use mt5_mcp_trading_framewor.Common.{
  ◌≡◌, refl, Bool, true, false, none, some, List, [], ◌∷◌, String, str_eq, eq_iff, any,
  if◌then◌else◌, arith,
}
use mt5_mcp_trading_framewor.Common.Outcome.{ok, raised, tool_not_classified, trading_disabled}
use mt5_mcp_trading_framewor.Mcp.{
  ToolClass, read_only, trading, ToolRegistry, dict_get, dict_set, classify, classification_of,
  authorize_class, authorize_call, read_only_tools, trading_tools, classify_all,
  build_metatrader_tool_registry,
}

-- `name in names`
abbrev pub listed : String → List String → Bool
listed name names = any (λ k. str_eq k name) names

dict_get-dict_set :
    (name key : String) (c : ToolClass) (d : List (String × ToolClass))
    → dict_get name (dict_set key c d) ≡ (if str_eq key name then some c else dict_get name d)
dict_get-dict_set name key c [] = refl
dict_get-dict_set name key c ((k, old) ∷ d) =
    ground (arith, eq_iff k key, eq_iff k name, eq_iff key name, dict_get-dict_set name key c d)

classification_of-classify_all :
    (name : String) (names : List String) (c : ToolClass) (r : ToolRegistry)
    → classification_of name (classify_all names c r)
      ≡ (if listed name names then some c else classification_of name r)
unfolding classify_all classification_of
classification_of-classify_all name [] c r = refl
classification_of-classify_all name (k ∷ names) c r = ground (
  arith,
  classification_of-classify_all name names c (classify k c r),
  dict_get-dict_set name k c r.classification,
)

trading_enabled-classify_all :
    (names : List String) (c : ToolClass) (r : ToolRegistry)
    → (classify_all names c r).trading_enabled ≡ r.trading_enabled
unfolding classify_all
trading_enabled-classify_all [] c r = refl
trading_enabled-classify_all (k ∷ names) c r = trading_enabled-classify_all names c (classify k c r)

by_cases :
    (is_trading is_reading enabled : Bool)
    → authorize_class
        (if is_trading then some trading else if is_reading then some read_only else none)
        enabled
      ≡ (if is_trading
          then (if enabled then ok tt else raised trading_disabled)
          else if is_reading
          then ok tt
          else raised tool_not_classified)
by_cases true r true = refl
by_cases true r false = refl
by_cases false true e = refl
by_cases false false e = refl

authorize_call-classify_all :
    (name : String) (enabled : Bool) (ts rs : List String)
    → authorize_call name (
        classify_all ts trading
          (classify_all rs read_only (record { trading_enabled = enabled; classification = [] })))
      ≡ (if listed name ts
          then (if enabled then ok tt else raised trading_disabled)
          else if listed name rs
          then ok tt
          else raised tool_not_classified)
unfolding authorize_call
authorize_call-classify_all name enabled ts rs =
    let empty : ToolRegistry = record { trading_enabled = enabled; classification = [] } in
    let inner = classify_all rs read_only empty in
    rw
      (
        classification_of-classify_all name ts trading inner,
        classification_of-classify_all name rs read_only empty,
        trading_enabled-classify_all ts trading inner,
        trading_enabled-classify_all rs read_only empty,
      )
      (by_cases (listed name ts) (listed name rs) enabled)

-- The registry for the MetaTrader server lets through its read-only tools always and its trading
-- tools only when trading is enabled; a trading tool is refused as such otherwise, and every other
-- name is refused as unclassified.
pub authorize_call_lem :
    (name : String) (enabled : Bool)
    → authorize_call name (build_metatrader_tool_registry enabled) ≡ (
        if listed name trading_tools
        then (if enabled then ok tt else raised trading_disabled)
        else if listed name read_only_tools
        then ok tt
        else raised tool_not_classified)
unfolding authorize_call build_metatrader_tool_registry
authorize_call_lem name enabled =
    authorize_call-classify_all name enabled trading_tools read_only_tools
