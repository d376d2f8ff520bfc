-- ===== src/Adapter/Library.antt =====
-- What the readers of replies use of Python's library: decoded JSON values, and the readers of numbers,
-- dates and tables, whose texts the program does not look into.
use mt5_mcp_trading_framewor.Common.{
  Bool, true, false, Option, none, some, List, [], ◌∷◌, String, str_eq, Text, if◌then◌else◌,
}
use mt5_mcp_trading_framewor.Common.Int.{ℤ, pos}
use mt5_mcp_trading_framewor.Common.Outcome.{
  Outcome, ok, raised, key_error, type_error, attribute_error,
}
use mt5_mcp_trading_framewor.Risk.{Datetime}
use mt5_mcp_trading_framewor.Domain.{Time}

-- a value that `json.loads` returns
mutual
  pub data Json (F : Type 0) : Type 0 where
    null : Json F
    boolean : Bool → Json F
    integer : ℤ → Json F
    number : F → Json F
    text : String → Json F
    array : Items F → Json F
    object : Fields F → Json F

  pub data Items (F : Type 0) : Type 0 where
    end : Items F
    item : Json F → Items F → Items F

  -- the items of a dictionary, each key once
  pub data Fields (F : Type 0) : Type 0 where
    empty : Fields F
    field : String → Json F → Fields F → Fields F

-- a row of `csv.DictReader`: a short row has `None` for the columns that it lacks
abbrev pub Row : Type 0
Row = List (String × Option String)

pub record Library (F : Type 0) : Type 0 where
  -- `json.loads`
  pub json_loads : String → Outcome (Json F)
  -- `str` of a decoded value
  pub str : Json F → String
  -- `int(x)` and `float(n)`
  pub int_of_float : F → Outcome ℤ
  pub float_of_int : ℤ → Outcome F
  -- `int(text)` and `float(text)`
  pub int_of_text : String → Outcome ℤ
  pub float_of_text : String → Outcome F
  -- `list(csv.DictReader(io.StringIO(text)))`
  pub dict_rows : Text → Outcome (List Row)
  -- `datetime.fromisoformat`
  pub fromisoformat : Text → Outcome Datetime
  -- `time.strftime("%Y-%m-%d")`
  pub date_text : Time → String

module _ {F : Type 0} where
  -- `d.get(key)`, where a key of `d` may be missing
  abbrev pub find_field : String → Fields F → Option (Json F)
  find_field key empty = none
  find_field key (field k v rest) = if str_eq k key then some v else find_field key rest

  -- `parsed.get(...)` and `data[...]` on a decoded value
  abbrev pub dict_of : Json F → Outcome (Fields F)
  dict_of (object d) = ok d
  dict_of _ = raised attribute_error

  abbrev pub item_found : Option (Json F) → Outcome (Json F)
  item_found none = raised key_error
  item_found (some v) = ok v

  -- `int(value)`
  unfoldable pub int_of : Library F → Json F → Outcome ℤ
  int_of lib null = raised type_error
  int_of lib (boolean true) = ok (pos 1)
  int_of lib (boolean false) = ok (pos 0)
  int_of lib (integer n) = ok n
  int_of lib (number x) = lib.int_of_float x
  int_of lib (text t) = lib.int_of_text t
  int_of lib (array items) = raised type_error
  int_of lib (object d) = raised type_error

  -- `float(value)`
  unfoldable pub float_of : Library F → Json F → Outcome F
  float_of lib null = raised type_error
  float_of lib (boolean true) = lib.float_of_int (pos 1)
  float_of lib (boolean false) = lib.float_of_int (pos 0)
  float_of lib (integer n) = lib.float_of_int n
  float_of lib (number x) = ok x
  float_of lib (text t) = lib.float_of_text t
  float_of lib (array items) = raised type_error
  float_of lib (object d) = raised type_error

abbrev pub find_cell : String → Row → Option (Option String)
find_cell key [] = none
find_cell key ((k, v) ∷ rest) = if str_eq k key then some v else find_cell key rest

abbrev pub cell_found : Option (Option String) → Outcome (Option String)
cell_found none = raised key_error
cell_found (some cell) = ok cell
