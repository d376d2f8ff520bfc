-- ===== src/State/Models.antt =====
-- state/models.py and strategy_registry.py.
use mt5_mcp_trading_framewor.Common.{
  ℕ, Bool, true, false, Option, List, [], ◌∷◌, String, if◌then◌else◌, ◌==◌,
}
use mt5_mcp_trading_framewor.Common.Int.{ℤ}
use mt5_mcp_trading_framewor.Domain.{Time}
use mt5_mcp_trading_framewor.State.Store.Listing.{decimal}
use Prim.Native.String.{◌++◌}

pub data OrderRecordStatus : Type 0 where
  open_status open_unprotected cancelled closed : OrderRecordStatus

pub data OrderRecordOrigin : Type 0 where
  system_owned manual_adoption : OrderRecordOrigin

abbrev pub is_open : OrderRecordStatus → Bool
is_open open_status = true
is_open open_unprotected = true
is_open cancelled = false
is_open closed = false

abbrev pub is_closed : OrderRecordStatus → Bool
is_closed closed = true
is_closed _ = false

-- why a record was closed: the text that the caller passes on
abbrev pub CloseReason : Type 0
CloseReason = String

pub record LocalOrderRecord (F : Type 0) : Type 0 where
  pub ticket : ℕ
  pub strategy : String
  pub magic : ℕ
  pub comment : String
  pub symbol : String
  pub side : String
  pub order_type : String
  pub requested_volume : F
  pub requested_price : Option F
  pub requested_sl : F
  pub requested_tp : F
  pub requested_deviation : ℕ
  pub requested_filling_mode : Option String
  pub requested_expiry : Option Time
  pub retcode : Option ℤ
  pub executed_price : Option F
  pub executed_volume : Option F
  pub broker_comment : String
  pub submitted_at : Option Time
  pub closed_at : Option Time
  pub status : OrderRecordStatus
  pub closed_reason : Option CloseReason
  pub origin : OrderRecordOrigin

pub record ReconciliationReport : Type 0 where
  pub matched : List ℕ
  pub local_only : List ℕ
  pub unknown_real : List ℕ

-- one decimal digit
abbrev digit_text : ℕ → String
digit_text n =
    if n == 0
    then "0"
    else if n == 1
    then "1"
    else if n == 2
    then "2"
    else if n == 3
    then "3"
    else if n == 4
    then "4"
    else if n == 5
    then "5"
    else if n == 6
    then "6"
    else if n == 7
    then "7"
    else if n == 8
    then "8"
    else "9"

abbrev digits_text : List ℕ → String
digits_text [] = ""
digits_text (n ∷ ns) = digit_text n ++ digits_text ns

unfoldable pub strategy_name_for_magic : ℕ → String
unfolding decimal
strategy_name_for_magic magic =
    if magic == 71101
    then "grid"
    else if magic == 72101
    then "runner"
    else "unknown_magic_" ++ digits_text (decimal magic)
