-- ===== src/State/Codec/Laws.antt =====
-- Proofs about `_serialize` and `_deserialize` of state/store.py: a record's file is read as the record.
use mt5_mcp_trading_framewor.Common.{
  ℕ, Bool, true, ◌==◌, ==_iff, if◌then◌else◌, Bool-cases, inl, inr, sym, arith, ◌≡◌, refl, ap, ◌∙◌,
  false, Option, none, some, String, str_eq,
}
use mt5_mcp_trading_framewor.Common.Int.{ℤ, pos, eqb_ℤ}
use mt5_mcp_trading_framewor.Common.Outcome.{ok, raised, state_load_error}
use mt5_mcp_trading_framewor.Domain.{Time}
use mt5_mcp_trading_framewor.State.Models.{
  LocalOrderRecord, OrderRecordStatus, OrderRecordOrigin, open_status, open_unprotected, cancelled,
  closed, system_owned, manual_adoption,
}
use mt5_mcp_trading_framewor.Adapter.Library.{Library, number, text, integer, int_of}
use mt5_mcp_trading_framewor.State.Codec.{
  Dates, status_text, origin_text, status_of, origin_of, date_value, optional, or_null, parse_dt,
  as_number, as_text, as_integer, serialize, deserialize, payload_of, read_data, or_load_error,
}

status_of-status_text : (s : OrderRecordStatus) → status_of (status_text s) ≡ ok s
status_of-status_text open_status = refl
status_of-status_text open_unprotected = refl
status_of-status_text cancelled = refl
status_of-status_text closed = refl

origin_of-origin_text : (o : OrderRecordOrigin) → origin_of (origin_text o) ≡ ok o
origin_of-origin_text system_owned = refl
origin_of-origin_text manual_adoption = refl

module _ (F : Type 0) where
  or_null-number : (o : Option F) → or_null as_number (optional number o) ≡ ok o
  or_null-number none = refl
  or_null-number (some x) = refl

  or_null-text : (o : Option String) → or_null as_text (optional {F = F} text o) ≡ ok o
  or_null-text none = refl
  or_null-text (some x) = refl

  or_null-integer : (o : Option ℤ) → or_null as_integer (optional {F = F} integer o) ≡ ok o
  or_null-integer none = refl
  or_null-integer (some x) = refl

module _ {F : Type 0} (lib : Library F) (dates : Dates) where
  module _ (reads_back : (t : Time) → dates.fromisoformat (dates.isoformat t) ≡ ok t)
      (nonempty : (t : Time) → str_eq (dates.isoformat t) "" ≡ false) where
    parse_dt-date_value : (o : Option Time) → parse_dt {F = F} dates (date_value dates o) ≡ ok o
    parse_dt-date_value none = refl
    parse_dt-date_value (some t) = rw (nonempty t, reads_back t) refl

    deserialize-payload_of :
        (ticket : ℕ) (r : LocalOrderRecord F)
        → deserialize dates ticket (payload_of dates r) ≡ ok (record r { ticket = ticket })
    unfolding deserialize payload_of serialize
    deserialize-payload_of ticket r =
        rw
          (
            or_null-number F r.requested_price,
            or_null-text F r.requested_filling_mode,
            parse_dt-date_value r.requested_expiry,
            or_null-integer F r.retcode,
            or_null-number F r.executed_price,
            or_null-number F r.executed_volume,
            parse_dt-date_value r.submitted_at,
            parse_dt-date_value r.closed_at,
            status_of-status_text r.status,
            or_null-text F r.closed_reason,
            origin_of-origin_text r.origin,
          )
          refl

    read_under :
        (ticket : ℕ) (r : LocalOrderRecord F) (same : Bool)
        → (r.ticket == ticket) ≡ same
        → read_data lib dates ticket (payload_of dates r)
          ≡ (if same then ok (record r { ticket = ticket }) else raised state_load_error)
    unfolding read_data payload_of serialize int_of
    read_under ticket r true e =
        let agrees : eqb_ℤ (pos r.ticket) (pos ticket) ≡ true =
          ground (arith, e, ==_iff r.ticket ticket) in
        rw agrees
          (ap or_load_error (unfold payload_of serialize in deserialize-payload_of ticket r))
    read_under ticket r false e =
        let differs : eqb_ℤ (pos r.ticket) (pos ticket) ≡ false =
          ground (arith, e, ==_iff r.ticket ticket) in
        rw differs refl

    -- If the text of a time is not empty and is read back as the time, then the object that is written
    -- for a record, under the schema version and its keys, is read back as this record in every field
    -- from a file that is named for the record's ticket, and raises StateLoadError from any other.
    pub read_data-payload_of :
        (ticket : ℕ) (r : LocalOrderRecord F)
        → read_data lib dates ticket (payload_of dates r)
          ≡ (if r.ticket == ticket then ok r else raised state_load_error)
    read_data-payload_of ticket r = elim (Bool-cases (r.ticket == ticket)) [
      | inr other ↦ rw other (read_under ticket r false other)
      | inl same ↦ rw same (
          read_under ticket r true same
          ∙ ap (λ t. ok (record r { ticket = t })) (sym ((==_iff r.ticket ticket).0 same)))
    ]
