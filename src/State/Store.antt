-- ===== src/State/Store.antt =====
-- state/store.py: one file for each ticket in a directory. A file holds the decoded JSON object, or
-- something that cannot be decoded; a write replaces one file at once, and succeeds here. State/Codec
-- models the object itself, with its keys and texts, and State/Files a write that may fail.
pub mod Listing
pub mod Laws
use mt5_mcp_trading_framewor.Common.{
  ℕ, ◌≡◌, Bool, true, false, Option, none, some, List, [], ◌∷◌, String, if◌then◌else◌, ◌==◌, keep,
}
use mt5_mcp_trading_framewor.Common.Int.{ℤ}
use mt5_mcp_trading_framewor.Common.Outcome.{Error, Outcome, ok, raised, state_load_error, ◌>>=◌}
use mt5_mcp_trading_framewor.Common.Action.{Action}
use mt5_mcp_trading_framewor.Float.{Float, nought}
use Listing.{sort_by_name}
use mt5_mcp_trading_framewor.Domain.{Time}
use mt5_mcp_trading_framewor.State.Models.{
  LocalOrderRecord, OrderRecordStatus, open_status, open_unprotected, cancelled, closed, is_open,
  is_closed, OrderRecordOrigin, system_owned, manual_adoption, CloseReason,
}

-- what the object of a file is decoded to: its `origin` may be missing, and its `ticket` may disagree with the
-- file's name; `body.origin` is not read
pub record Payload (F : Type 0) : Type 0 where
  pub body : LocalOrderRecord F
  pub origin : Option OrderRecordOrigin

pub data File (F : Type 0) : Type 0 where
  payload : Payload F → File F
  undecodable : File F

abbrev pub Directory : Type 0 → Type 0
Directory F = List (ℕ × File F)

-- the keyword arguments of `record_submission`, except `status`
pub record Submission (F : Type 0) : Type 0 where
  pub ticket : ℕ
  pub strategy : String
  pub magic : ℕ
  pub comment : String
  pub symbol : String
  pub side : String
  pub order_type : String
  pub requested_volume : F
  pub requested_price : Option F
  pub requested_sl : F
  pub requested_tp : F
  pub requested_deviation : ℕ
  pub requested_filling_mode : Option String
  pub requested_expiry : Option Time
  pub retcode : ℤ
  pub executed_price : Option F
  pub executed_volume : Option F
  pub broker_comment : String
  pub submitted_at : Time

-- `data.get("origin", "system_owned")`
abbrev or_system_owned : Option OrderRecordOrigin → OrderRecordOrigin
or_system_owned none = system_owned
or_system_owned (some o) = o

module _ {F : Type 0} where
  abbrev as_payload : LocalOrderRecord F → Payload F
  as_payload r = record { body = r; origin = some r.origin }

  abbrev as_record : ℕ → Payload F → LocalOrderRecord F
  as_record ticket p = record (p.body) { ticket = ticket; origin = or_system_owned p.origin }

  unfoldable pub read_record_file : ℕ → File F → Outcome (LocalOrderRecord F)
  read_record_file ticket undecodable = raised state_load_error
  read_record_file ticket (payload p) =
      if p.body.ticket == ticket then ok (as_record ticket p) else raised state_load_error

  abbrev pub read_found : ℕ → Option (File F) → Outcome (Option (LocalOrderRecord F))
  read_found ticket none = ok none
  read_found ticket (some file) = read_record_file ticket file >>= λ r. ok (some r)

  abbrev pub find_file : ℕ → Directory F → Option (File F)
  find_file ticket [] = none
  find_file ticket ((t, file) ∷ d) = if t == ticket then some file else find_file ticket d

  abbrev pub put_file : ℕ → File F → Directory F → Directory F
  put_file ticket file [] = (ticket, file) ∷ []
  put_file ticket file ((t, old) ∷ d) =
      if t == ticket then (ticket, file) ∷ d else (t, old) ∷ put_file ticket file d

  unfoldable pub load_one : ℕ → Directory F → Outcome (Option (LocalOrderRecord F))
  unfolding read_record_file
  load_one ticket d = read_found ticket (find_file ticket d)

  unfoldable pub load_listed : List (ℕ × File F) → Outcome (List (LocalOrderRecord F))
  unfolding read_record_file
  load_listed [] = ok []
  load_listed ((ticket, file) ∷ rest) =
      read_record_file ticket file >>= λ r. load_listed rest >>= λ rs. ok (r ∷ rs)

  unfoldable pub load_all : Directory F → Outcome (List (LocalOrderRecord F))
  unfolding load_listed sort_by_name
  load_all d = load_listed (sort_by_name d)

  unfoldable pub write_one : LocalOrderRecord F → Directory F → Directory F
  write_one r d = put_file r.ticket (payload (as_payload r)) d

  abbrev pub submitted_record : Submission F → OrderRecordStatus → LocalOrderRecord F
  submitted_record s status = record {
    ticket = s.ticket;
    strategy = s.strategy;
    magic = s.magic;
    comment = s.comment;
    symbol = s.symbol;
    side = s.side;
    order_type = s.order_type;
    requested_volume = s.requested_volume;
    requested_price = s.requested_price;
    requested_sl = s.requested_sl;
    requested_tp = s.requested_tp;
    requested_deviation = s.requested_deviation;
    requested_filling_mode = s.requested_filling_mode;
    requested_expiry = s.requested_expiry;
    retcode = some s.retcode;
    executed_price = s.executed_price;
    executed_volume = s.executed_volume;
    broker_comment = s.broker_comment;
    submitted_at = some s.submitted_at;
    closed_at = none;
    status = status;
    closed_reason = none;
    origin = system_owned;
  }

  unfoldable pub record_submission :
      Submission F → OrderRecordStatus → Action (Directory F) (Unit {0})
  unfolding write_one
  record_submission s status d = (ok tt, write_one (submitted_record s status) d)

  -- a method that changes a record that it finds, and otherwise only warns
  abbrev pub change_found :
      Outcome (Option (LocalOrderRecord F))
      → (LocalOrderRecord F → LocalOrderRecord F)
      → Action (Directory F) (Unit {0})
  change_found (raised e) change d = (raised e, d)
  change_found (ok none) change d = (ok tt, d)
  change_found (ok (some existing)) change d = (ok tt, write_one (change existing) d)

  abbrev pub protect : LocalOrderRecord F → LocalOrderRecord F
  protect existing = record existing { status = open_status }

  unfoldable pub mark_sl_tp_attached : ℕ → Action (Directory F) (Unit {0})
  unfolding load_one write_one
  mark_sl_tp_attached ticket d = change_found (load_one ticket d) protect d

  abbrev pub end_with :
      OrderRecordStatus → CloseReason → Time → LocalOrderRecord F → LocalOrderRecord F
  end_with status reason at existing = record existing {
    status = status;
    closed_at = some at;
    closed_reason = some reason;
  }

  unfoldable pub transition :
      ℕ → OrderRecordStatus → CloseReason → Time → Action (Directory F) (Unit {0})
  unfolding load_one write_one
  transition ticket status reason at d =
      change_found (load_one ticket d) (end_with status reason at) d

  unfoldable pub record_cancelled : ℕ → CloseReason → Time → Action (Directory F) (Unit {0})
  unfolding transition
  record_cancelled ticket reason at = transition ticket cancelled reason at

  unfoldable pub record_closed : ℕ → CloseReason → Time → Action (Directory F) (Unit {0})
  unfolding transition
  record_closed ticket reason at = transition ticket closed reason at

  unfoldable pub lookup : ℕ → Directory F → Outcome (Option (LocalOrderRecord F))
  unfolding load_one
  lookup ticket d = load_one ticket d

  unfoldable pub all_open : Directory F → Outcome (List (LocalOrderRecord F))
  unfolding load_all
  all_open d = load_all d >>= λ rs. ok (keep (λ r. is_open r.status) rs)

  unfoldable pub all_closed : Directory F → Outcome (List (LocalOrderRecord F))
  unfolding load_all
  all_closed d = load_all d >>= λ rs. ok (keep (λ r. is_closed r.status) rs)

  unfoldable pub all_records : Directory F → Outcome (List (LocalOrderRecord F))
  unfolding load_all
  all_records d = load_all d

module _ {F : Type 0} ⦃f : Float F⦄ where
  abbrev pub adopted_record : ℕ → String → String → F → F → ℕ → Time → String → LocalOrderRecord F
  adopted_record ticket symbol side volume price_open magic adopted_at note = record {
    ticket = ticket;
    strategy = "manual_adoption";
    magic = magic;
    comment = note;
    symbol = symbol;
    side = side;
    order_type = "EXTERNAL_POSITION";
    requested_volume = volume;
    requested_price = some price_open;
    requested_sl = nought;
    requested_tp = nought;
    requested_deviation = 0;
    requested_filling_mode = none;
    requested_expiry = none;
    retcode = none;
    executed_price = some price_open;
    executed_volume = some volume;
    broker_comment = note;
    submitted_at = some adopted_at;
    closed_at = none;
    status = open_status;
    closed_reason = none;
    origin = manual_adoption;
  }

  unfoldable pub record_manual_adoption :
      ℕ → String → String → F → F → ℕ → Time → String → Action (Directory F) (Unit {0})
  unfolding write_one
  record_manual_adoption ticket symbol side volume price_open magic adopted_at note d = (
    ok tt,
    write_one (adopted_record ticket symbol side volume price_open magic adopted_at note) d,
  )
