-- ===== src/Adapter/Deals.antt =====
-- mt5_adapter/mcp_deal_history.py and metatrader_parsing.py: deals from the rows of a table.
use mt5_mcp_trading_framewor.Common.{
  ℕ, Option, none, some, List, [], ◌∷◌, ◌++◌, reverse, String, Text, codes, strip, if◌then◌else◌,
  ◌==◌,
}
use mt5_mcp_trading_framewor.Common.Int.{ℤ, pos, negsuc}
use mt5_mcp_trading_framewor.Common.Outcome.{Outcome, ok, raised, type_error, value_error, ◌>>=◌}
use mt5_mcp_trading_framewor.Common.Action as Action
use mt5_mcp_trading_framewor.Common.Action.{Action, lift}
use mt5_mcp_trading_framewor.Domain.{Time, Deal}
use mt5_mcp_trading_framewor.Risk.{Datetime, naive, aware}
use mt5_mcp_trading_framewor.Mcp.Client.{McpClient, Arguments, text, call_tool}
use mt5_mcp_trading_framewor.Adapter.Library.{Library, Row, find_cell, cell_found}

-- the suffix "Z" written as an offset
abbrev z_to_offset : Text → Text
z_to_offset [] = []
z_to_offset (c ∷ before) =
    if c == b'Z' then reverse before ++ codes "+00:00" else reverse (c ∷ before)

-- a cell that a short row lacks has no text: `float` raises for it; the source would take such a symbol
-- or comment as `None`
abbrev text_of : Option String → Outcome String
text_of none = raised type_error
text_of (some t) = ok t

module _ {F : Type 0} (lib : Library F) where
  unfoldable pub parse_iso_datetime : String → Outcome Datetime
  parse_iso_datetime raw = lib.fromisoformat (z_to_offset (reverse (strip (codes raw))))

  abbrev rows_of : Text → Outcome (List Row)
  rows_of [] = ok []
  rows_of (c ∷ s) = lib.dict_rows (c ∷ s)

  unfoldable pub parse_dataframe_csv : String → Outcome (List Row)
  parse_dataframe_csv table = rows_of (strip (codes table))

  -- `row[name]`
  abbrev pub cell : String → Row → Outcome String
  cell name row = cell_found (find_cell name row) >>= text_of

  -- `float(row[name])`
  abbrev pub float_cell : String → Row → Outcome F
  float_cell name row = cell name row >>= lib.float_of_text

  -- a ticket, a magic number or a code is a natural number here; the source would go on with a negative one
  abbrev natural : ℤ → Outcome ℕ
  natural (pos n) = ok n
  natural (negsuc n) = raised value_error

  -- `int(float(row[name]))`
  abbrev pub int_cell : String → Row → Outcome ℕ
  int_cell name row = float_cell name row >>= lib.int_of_float >>= natural

  -- a time without a time zone is one in UTC
  abbrev as_utc : Datetime → Time
  as_utc (naive t) = t
  as_utc (aware t) = t

  unfoldable pub parse_deal_time : String → Outcome Time
  unfolding parse_iso_datetime
  parse_deal_time raw = parse_iso_datetime raw >>= λ t. ok (as_utc t)

  unfoldable pub deal_of_row : Row → Outcome (Deal F)
  unfolding parse_deal_time
  deal_of_row row = do
    ticket ← int_cell "ticket" row
    order ← int_cell "order" row
    position_id ← int_cell "position_id" row
    time ← cell "time" row >>= parse_deal_time
    kind ← int_cell "type" row
    entry ← int_cell "entry" row
    symbol ← cell "symbol" row
    volume ← float_cell "volume" row
    price ← float_cell "price" row
    profit ← float_cell "profit" row
    commission ← float_cell "commission" row
    swap ← float_cell "swap" row
    fee ← float_cell "fee" row
    magic ← int_cell "magic" row
    comment ← cell "comment" row
    ok (record {
      ticket = ticket;
      order = order;
      position_id = position_id;
      time = time;
      kind = kind;
      entry = entry;
      symbol = symbol;
      volume = volume;
      price = price;
      profit = profit;
      commission = commission;
      swap = swap;
      fee = fee;
      magic = magic;
      comment = comment;
    })

  -- `[f(row) for row in rows]`
  abbrev pub each_row : {A : Type 0} → (Row → Outcome A) → List Row → Outcome (List A)
  each_row read [] = ok []
  each_row read (row ∷ rows) = read row >>= λ a. each_row read rows >>= λ rest. ok (a ∷ rest)

  unfoldable pub read_deals : String → Outcome (List (Deal F))
  unfolding parse_dataframe_csv deal_of_row
  read_deals raw = parse_dataframe_csv raw >>= each_row deal_of_row

  abbrev pub argument : String → Option String → Arguments F
  argument name none = []
  argument name (some value) = (name, text value) ∷ []

  abbrev pub deal_arguments : Option String → Option String → Option String → Arguments F
  deal_arguments from_date to_date symbol =
      argument "from_date" from_date ++ (argument "to_date" to_date ++ argument "symbol" symbol)

  unfoldable pub get_deals :
      {W : Type 0}
      → McpClient W F
      → Option String
      → Option String
      → Option String
      → Action W (List (Deal F))
  unfolding read_deals
  get_deals client from_date to_date symbol =
      Action.◌>>=◌ (call_tool client "get_deals" (deal_arguments from_date to_date symbol))
        (λ raw. lift (read_deals raw))
