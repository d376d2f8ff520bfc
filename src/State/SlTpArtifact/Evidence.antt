-- ===== src/State/SlTpArtifact/Evidence.antt =====
-- Proofs about state/sl_tp_artifact.py: what one piece of evidence rests on.
use mt5_mcp_trading_framewor.Common.{
  ℕ, ◌+◌, ◌≡◌, inl, inr, refl, true, false, Option, none, some, List, [], ◌∷◌, arith, str_eq,
  Option-cases,
}
use mt5_mcp_trading_framewor.Common.Int.{ℤ, pos, negsuc, sub_ℕ, pos_part, neg_part}
use mt5_mcp_trading_framewor.Common.Outcome.{Outcome, ok, raised, overflow_error, Error}
use mt5_mcp_trading_framewor.Common.Clock.{in_range, minus_delta}
use mt5_mcp_trading_framewor.Float.{Float, ◌⊑◌, nought}
use mt5_mcp_trading_framewor.Domain.{Time, Deal}
use mt5_mcp_trading_framewor.State.Models.{LocalOrderRecord}
use mt5_mcp_trading_framewor.State.Reconcile.{mem, local_tickets}
use mt5_mcp_trading_framewor.State.SlTpArtifact.{
  StopKind, SlTpArtifactEvidence, is_closing_side, extract_sl_tp_kind, precedes, reference_of,
  local_by_ticket, closing_deals_of, volume_matches, price_matches, evidence_of, check_time,
  check_kind, check_deal, accepted,
}

in_range_raises : (z : ℤ) {e : Error} → in_range z ≡ raised e → e ≡ overflow_error
in_range_raises (pos n) h = ground arith
in_range_raises (negsuc n) h = cc

pub local_by_ticket_member :
    {F : Type 0} (records : List (LocalOrderRecord F)) (t : ℕ) (r : LocalOrderRecord F)
    → local_by_ticket records t ≡ some r
    → mem r.ticket (local_tickets records) ≡ true
unfolding local_by_ticket
local_by_ticket_member [] t r h = cc
local_by_ticket_member (k ∷ ks) t r h = elim (Option-cases (local_by_ticket ks t)) [
  | inl missing ↦ ground (arith)
  | inr (r', later) ↦ ground (arith, local_by_ticket_member ks t r)
]

module _ {F : Type 0} ⦃f : Float F⦄ where
  -- the conditions of the module's docstring, for one ticket and one piece of evidence
  pub record Explains (local_open : List (LocalOrderRecord F)) (deals : List (Deal F)) (offset : ℤ)
      (ticket : ℕ) (e : SlTpArtifactEvidence F) : Type 0 where
    pub deal : Deal F
    pub position : LocalOrderRecord F
    pub kind : StopKind
    pub time : Time
    pub only_deal : closing_deals_of ticket deals ≡ deal ∷ []
    pub is_open : local_by_ticket local_open deal.position_id ≡ some position
    pub same_symbol : str_eq position.symbol deal.symbol ≡ true
    pub same_volume : volume_matches deal.volume position ≡ true
    pub opposite_side : is_closing_side deal.kind position.side ≡ true
    pub named_kind : extract_sl_tp_kind deal.comment ≡ some kind
    pub positive_reference : (reference_of kind position ⊑ nought) ≡ false
    pub near_reference : price_matches deal.price (reference_of kind position) ≡ true
    pub time_of_deal : minus_delta deal.time offset ≡ ok time
    pub not_before : precedes time position.submitted_at ≡ false
    pub recorded : e ≡ evidence_of ticket deal position kind (reference_of kind position) time

  pub check_time_accepts :
      (t : ℕ) (d : Deal F) (r : LocalOrderRecord F) (k : StopKind) (x : F) (time : Outcome Time)
      {e : SlTpArtifactEvidence F}
      → check_time t d r k x time ≡ ok (accepted e)
      → (c : Time) × (time ≡ ok c)
        × (precedes c r.submitted_at ≡ false)
        × (e ≡ evidence_of t d r k x c)
  check_time_accepts t d r k x (raised err) h = cc
  check_time_accepts t d r k x (ok c) h = (c, refl, ground arith, ground arith)

  pub check_kind_accepts :
      (t : ℕ) (d : Deal F) (r : LocalOrderRecord F) (offset : ℤ) (k : Option StopKind)
      {e : SlTpArtifactEvidence F}
      → check_kind t d r offset k ≡ ok (accepted e)
      → (kind : StopKind) × (k ≡ some kind)
        × ((reference_of kind r ⊑ nought) ≡ false)
        × (price_matches d.price (reference_of kind r) ≡ true)
        × (check_time t d r kind (reference_of kind r) (minus_delta d.time offset)
            ≡ ok (accepted e))
  check_kind_accepts t d r offset none h = cc
  check_kind_accepts t d r offset (some k) h = (k, refl, ground arith, ground arith, ground arith)

  pub check_deal_accepts :
      (t : ℕ) (d : Deal F) (offset : ℤ) (o : Option (LocalOrderRecord F))
      {e : SlTpArtifactEvidence F}
      → check_deal t d offset o ≡ ok (accepted e)
      → (r : LocalOrderRecord F) × (o ≡ some r)
        × (str_eq r.symbol d.symbol ≡ true)
        × (volume_matches d.volume r ≡ true)
        × (is_closing_side d.kind r.side ≡ true)
        × (check_kind t d r offset (extract_sl_tp_kind d.comment) ≡ ok (accepted e))
  check_deal_accepts t d offset none h = cc
  check_deal_accepts t d offset (some r) h =
      (r, refl, ground arith, ground arith, ground arith, ground arith)

  check_time_raises :
      (t : ℕ) (d : Deal F) (r : LocalOrderRecord F) (k : StopKind) (x : F) (time : Outcome Time)
      {e : Error}
      → check_time t d r k x time ≡ raised e
      → time ≡ raised e
  check_time_raises t d r k x (raised err) h = cc
  check_time_raises t d r k x (ok c) h = cc

  check_kind_raises :
      (t : ℕ) (d : Deal F) (r : LocalOrderRecord F) (offset : ℤ) (k : Option StopKind) {e : Error}
      → check_kind t d r offset k ≡ raised e
      → e ≡ overflow_error
  unfolding minus_delta
  check_kind_raises t d r offset none h = cc
  check_kind_raises t d r offset (some k) h =
      in_range_raises (sub_ℕ (d.time + neg_part offset) (pos_part offset))
        (check_time_raises t d r k (reference_of k r) (minus_delta d.time offset) (ground arith))

  pub check_deal_raises :
      (t : ℕ) (d : Deal F) (offset : ℤ) (o : Option (LocalOrderRecord F)) {e : Error}
      → check_deal t d offset o ≡ raised e
      → e ≡ overflow_error
  check_deal_raises t d offset none h = cc
  check_deal_raises t d offset (some r) h =
      check_kind_raises t d r offset (extract_sl_tp_kind d.comment) (ground arith)
