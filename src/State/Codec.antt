-- ===== src/State/Codec.antt =====
-- `_serialize` and `_deserialize` of state/store.py: the JSON object of a record's file, key by key. The
-- texts of times are parameters. A value of another type than the record's field has raises here; the
-- source passes it on as it is.
pub mod Laws
use mt5_mcp_trading_framewor.Common.{
  ℕ, Bool, true, false, Option, none, some, String, str_eq, if◌then◌else◌, ◌==◌,
}
use mt5_mcp_trading_framewor.Common.Int.{ℤ, pos, negsuc, eqb_ℤ}
use mt5_mcp_trading_framewor.Common.Outcome.{
  Outcome, ok, raised, type_error, value_error, state_load_error, ◌>>=◌,
}
use mt5_mcp_trading_framewor.Domain.{Time}
use mt5_mcp_trading_framewor.State.Models.{
  LocalOrderRecord, OrderRecordStatus, open_status, open_unprotected, cancelled, closed,
  OrderRecordOrigin, system_owned, manual_adoption,
}
use mt5_mcp_trading_framewor.Adapter.Library.{
  Library, Json, Fields, null, integer, number, text, empty, field, find_field, item_found, int_of,
}

-- `value.isoformat()` and `datetime.fromisoformat(value)`
pub record Dates : Type 0 where
  pub isoformat : Time → String
  pub fromisoformat : String → Outcome Time

abbrev pub status_text : OrderRecordStatus → String
status_text open_status = "OPEN"
status_text open_unprotected = "OPEN_UNPROTECTED"
status_text cancelled = "CANCELLED"
status_text closed = "CLOSED"

abbrev pub origin_text : OrderRecordOrigin → String
origin_text system_owned = "system_owned"
origin_text manual_adoption = "manual_adoption"

-- a text that is none of a `Literal` raises here; the source passes it on
abbrev pub status_of : String → Outcome OrderRecordStatus
status_of t =
    if str_eq t "OPEN"
    then ok open_status
    else if str_eq t "OPEN_UNPROTECTED"
    then ok open_unprotected
    else if str_eq t "CANCELLED"
    then ok cancelled
    else if str_eq t "CLOSED"
    then ok closed
    else raised value_error

abbrev pub origin_of : String → Outcome OrderRecordOrigin
origin_of t =
    if str_eq t "system_owned"
    then ok system_owned
    else if str_eq t "manual_adoption"
    then ok manual_adoption
    else raised value_error

-- the `try` of `_read_record_file` after `json.loads`, which turns any exception into one
abbrev pub or_load_error : {A : Type 0} → Outcome A → Outcome A
or_load_error (ok a) = ok a
or_load_error (raised e) = raised state_load_error

module _ {F : Type 0} where
  abbrev pub optional : {A : Type 0} → (A → Json F) → Option A → Json F
  optional make none = null
  optional make (some a) = make a

  abbrev pub date_value : Dates → Option Time → Json F
  date_value dates = optional (λ t. text (dates.isoformat t))

  unfoldable pub serialize : Dates → LocalOrderRecord F → Fields F
  serialize dates r = field "ticket" (integer (pos r.ticket)) (
      field "strategy" (text r.strategy) (
        field "magic" (integer (pos r.magic)) (
          field "comment" (text r.comment) (
            field "symbol" (text r.symbol) (
              field "side" (text r.side) (
                field "order_type" (text r.order_type) (
                  field "requested_volume" (number r.requested_volume) (
                    field "requested_price" (optional number r.requested_price) (
                      field "requested_sl" (number r.requested_sl) (
                        field "requested_tp" (number r.requested_tp) (
                          field "requested_deviation" (integer (pos r.requested_deviation)) (
                            field "requested_filling_mode" (optional text r.requested_filling_mode)
                              (field "requested_expiry" (date_value dates r.requested_expiry) (
                                field "retcode" (optional integer r.retcode) (
                                  field "executed_price" (optional number r.executed_price) (
                                    field "executed_volume" (optional number r.executed_volume) (
                                      field "broker_comment" (text r.broker_comment) (
                                        field "submitted_at" (date_value dates r.submitted_at) (
                                          field "closed_at" (date_value dates r.closed_at) (
                                            field "status" (text (status_text r.status)) (
                                              field "closed_reason" (optional text r.closed_reason)
                                                (field "origin" (text (origin_text r.origin))
                                                  empty))))))))))))))))))))))

  -- `payload` of `_write_record_file`
  unfoldable pub payload_of : Dates → LocalOrderRecord F → Fields F
  unfolding serialize
  payload_of dates r = field "schema_version" (integer (pos 1)) (serialize dates r)

  abbrev pub as_text : Json F → Outcome String
  as_text (text t) = ok t
  as_text _ = raised type_error

  abbrev pub as_number : Json F → Outcome F
  as_number (number x) = ok x
  as_number _ = raised type_error

  abbrev pub as_integer : Json F → Outcome ℤ
  as_integer (integer n) = ok n
  as_integer _ = raised type_error

  abbrev pub as_natural : Json F → Outcome ℕ
  as_natural (integer (pos n)) = ok n
  as_natural _ = raised type_error

  abbrev pub or_null : {A : Type 0} → (Json F → Outcome A) → Json F → Outcome (Option A)
  or_null read null = ok none
  or_null read v = read v >>= λ a. ok (some a)

  -- `_parse_dt`: an empty text, like `None`, is no time
  abbrev pub parse_dt : Dates → Json F → Outcome (Option Time)
  parse_dt dates null = ok none
  parse_dt dates (text t) =
      if str_eq t "" then ok none else dates.fromisoformat t >>= λ time. ok (some time)
  parse_dt dates v = raised type_error

  -- `data[key]`
  abbrev pub at_key : {A : Type 0} → String → (Json F → Outcome A) → Fields F → Outcome A
  at_key key read d = item_found (find_field key d) >>= read

  -- `data.get("origin", "system_owned")`
  abbrev pub origin_found : Option (Json F) → Outcome OrderRecordOrigin
  origin_found none = ok system_owned
  origin_found (some v) = as_text v >>= origin_of

  unfoldable pub deserialize : Dates → ℕ → Fields F → Outcome (LocalOrderRecord F)
  deserialize dates ticket d = do
    strategy ← at_key "strategy" as_text d
    magic ← at_key "magic" as_natural d
    comment ← at_key "comment" as_text d
    symbol ← at_key "symbol" as_text d
    side ← at_key "side" as_text d
    order_type ← at_key "order_type" as_text d
    requested_volume ← at_key "requested_volume" as_number d
    requested_price ← at_key "requested_price" (or_null as_number) d
    requested_sl ← at_key "requested_sl" as_number d
    requested_tp ← at_key "requested_tp" as_number d
    requested_deviation ← at_key "requested_deviation" as_natural d
    requested_filling_mode ← at_key "requested_filling_mode" (or_null as_text) d
    requested_expiry ← at_key "requested_expiry" (parse_dt dates) d
    retcode ← at_key "retcode" (or_null as_integer) d
    executed_price ← at_key "executed_price" (or_null as_number) d
    executed_volume ← at_key "executed_volume" (or_null as_number) d
    broker_comment ← at_key "broker_comment" as_text d
    submitted_at ← at_key "submitted_at" (parse_dt dates) d
    closed_at ← at_key "closed_at" (parse_dt dates) d
    status ← at_key "status" (λ v. as_text v >>= status_of) d
    closed_reason ← at_key "closed_reason" (or_null as_text) d
    origin ← origin_found (find_field "origin" d)
    ok (record {
      ticket = ticket;
      strategy = strategy;
      magic = magic;
      comment = comment;
      symbol = symbol;
      side = side;
      order_type = order_type;
      requested_volume = requested_volume;
      requested_price = requested_price;
      requested_sl = requested_sl;
      requested_tp = requested_tp;
      requested_deviation = requested_deviation;
      requested_filling_mode = requested_filling_mode;
      requested_expiry = requested_expiry;
      retcode = retcode;
      executed_price = executed_price;
      executed_volume = executed_volume;
      broker_comment = broker_comment;
      submitted_at = submitted_at;
      closed_at = closed_at;
      status = status;
      closed_reason = closed_reason;
      origin = origin;
    })

  abbrev pub check_ticket : Dates → ℕ → Fields F → ℤ → Outcome (LocalOrderRecord F)
  unfolding deserialize
  check_ticket dates ticket d named =
      if eqb_ℤ named (pos ticket) then deserialize dates ticket d else raised value_error

  unfoldable pub read_data : Library F → Dates → ℕ → Fields F → Outcome (LocalOrderRecord F)
  unfolding deserialize int_of
  read_data lib dates ticket d =
      or_load_error (at_key "ticket" (int_of lib) d >>= check_ticket dates ticket d)
