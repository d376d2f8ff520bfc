-- ===== src/State/SlTpArtifact.antt =====
-- state/sl_tp_artifact.py: which unknown tickets are the broker's own closing orders of positions
-- that are recorded as open. The comment's pattern is read on ASCII text.
pub mod Evidence
pub mod Laws
use mt5_mcp_trading_framewor.Common.{
  ℕ, ◌+◌, Bool, true, false, not, ◌||◌, ◌&&◌, Option, none, some, List, [], ◌∷◌, String, str_eq,
  if◌then◌else◌, ltb, leb, ◌==◌, keep, length, Text, codes, to_lower,
}
use mt5_mcp_trading_framewor.Common.Int.{ℤ, pos}
use mt5_mcp_trading_framewor.Common.Outcome.{Outcome, ok, ◌>>=◌}
use mt5_mcp_trading_framewor.Common.Clock.{minus_delta}
use mt5_mcp_trading_framewor.Float.{Float, ◌⊖◌, ◌⊗◌, ◌⊏◌, ◌⊑◌, nought, max}
use mt5_mcp_trading_framewor.Domain.{Time, Deal}
use mt5_mcp_trading_framewor.State.Models.{LocalOrderRecord}

-- the `kind` texts "sl" and "tp"
pub data StopKind : Type 0 where
  sl_kind tp_kind : StopKind

pub record SlTpArtifactEvidence (F : Type 0) : Type 0 where
  pub ticket : ℕ
  pub position_ticket : ℕ
  pub kind : StopKind
  pub deal_ticket : ℕ
  pub order_ticket : ℕ
  pub price : F
  pub reference_price : F
  pub time : Time

-- one constructor for each text of `_explain_one`, with the values that it formats
pub data RejectionReason (F : Type 0) : Type 0 where
  no_closing_deal : RejectionReason F
  ambiguous_deals : ℕ → RejectionReason F
  not_locally_open : ℕ → RejectionReason F
  symbol_mismatch : (local_symbol deal_symbol : String) → RejectionReason F
  volume_mismatch : (local_volume deal_volume : F) → RejectionReason F
  not_closing_side : ℕ → String → RejectionReason F
  comment_mismatch : String → RejectionReason F
  no_usable_reference : StopKind → RejectionReason F
  price_mismatch : F → StopKind → F → RejectionReason F
  precedes_submission : Time → Option Time → RejectionReason F

pub record SlTpArtifactRejection (F : Type 0) : Type 0 where
  pub ticket : ℕ
  pub reason : RejectionReason F

pub record SlTpArtifactClassification (F : Type 0) : Type 0 where
  pub explained : List ℕ
  pub unexplained : List ℕ
  pub evidence : List (SlTpArtifactEvidence F)
  pub rejections : List (SlTpArtifactRejection F)

-- the pair that `_explain_one` returns, of which exactly one component is set
pub data Verdict (F : Type 0) : Type 0 where
  accepted : SlTpArtifactEvidence F → Verdict F
  refused : RejectionReason F → Verdict F

-- `entry in _CLOSING_ENTRIES`
abbrev pub is_closing_entry : ℕ → Bool
is_closing_entry entry = entry == 1 || entry == 2

unfoldable pub is_closing_side : ℕ → String → Bool
is_closing_side kind position_side =
    if str_eq position_side "BUY"
    then kind == 1
    else if str_eq position_side "SELL"
    then kind == 0
    else false

-- `\w` on ASCII
abbrev pub is_word : ℕ → Bool
is_word c =
    (leb b'0' c && leb c b'9') || (leb b'a' (to_lower c) && leb (to_lower c) b'z') || c == b'_'

-- `\b` after a letter
abbrev pub ends_word : Text → Bool
ends_word [] = true
ends_word (c ∷ s) = not (is_word c)

abbrev pub kind_of_letters : ℕ → ℕ → Option StopKind
kind_of_letters a b =
    if a == b's' && b == b'l'
    then some sl_kind
    else if a == b't' && b == b'p'
    then some tp_kind
    else none

-- `re.match(r"^\[(sl|tp)\b", text, re.IGNORECASE)`
abbrev pub match_kind : Text → Option StopKind
match_kind (c ∷ a ∷ b ∷ rest) =
    if (c == b'[') && ends_word rest then kind_of_letters (to_lower a) (to_lower b) else none
match_kind _ = none

unfoldable pub extract_sl_tp_kind : String → Option StopKind
extract_sl_tp_kind comment = match_kind (codes comment)

-- `submitted_at is not None and corrected_time < submitted_at`
abbrev pub precedes : Time → Option Time → Bool
precedes t none = false
precedes t (some submitted_at) = ltb t submitted_at

module _ {F : Type 0} where
  -- `executed_volume`, or `requested_volume` where that is `None`
  abbrev volume_or : Option F → F → F
  volume_or none requested = requested
  volume_or (some executed) requested = executed

  unfoldable pub reference_volume : LocalOrderRecord F → F
  reference_volume record' = volume_or record'.executed_volume record'.requested_volume

  unfoldable pub reference_of : StopKind → LocalOrderRecord F → F
  reference_of sl_kind record' = record'.requested_sl
  reference_of tp_kind record' = record'.requested_tp

  -- `local_by_ticket.get(ticket)`: of several records of a ticket, the last
  abbrev pub or_else :
      Option (LocalOrderRecord F) → Option (LocalOrderRecord F) → Option (LocalOrderRecord F)
  or_else (some r) other = some r
  or_else none other = other

  unfoldable pub local_by_ticket : List (LocalOrderRecord F) → ℕ → Option (LocalOrderRecord F)
  local_by_ticket [] ticket = none
  local_by_ticket (r ∷ rs) ticket =
      or_else (local_by_ticket rs ticket) (if r.ticket == ticket then some r else none)

  -- `deals_by_order.get(ticket, [])`
  unfoldable pub closing_deals_of : ℕ → List (Deal F) → List (Deal F)
  closing_deals_of ticket deals = keep (λ d. is_closing_entry d.entry && d.order == ticket) deals

module _ {F : Type 0} ⦃f : Float F⦄ where
  unfoldable pub volume_matches : F → LocalOrderRecord F → Bool
  unfolding reference_volume
  volume_matches deal_volume record' =
      f.abs (deal_volume ⊖ reference_volume record') ⊏ f.ratio 1 1_000_000_000

  unfoldable pub price_matches : F → F → Bool
  price_matches price reference =
      let tolerance = max (f.ratio 1 1_000_000) (f.ratio 2 1000 ⊗ f.abs reference) in
      f.abs (price ⊖ reference) ⊑ tolerance

  abbrev pub evidence_of :
      ℕ → Deal F → LocalOrderRecord F → StopKind → F → Time → SlTpArtifactEvidence F
  evidence_of ticket deal record' kind reference corrected = record {
    ticket = ticket;
    position_ticket = record'.ticket;
    kind = kind;
    deal_ticket = deal.ticket;
    order_ticket = deal.order;
    price = deal.price;
    reference_price = reference;
    time = corrected;
  }

  abbrev pub check_time :
      ℕ → Deal F → LocalOrderRecord F → StopKind → F → Outcome Time → Outcome (Verdict F)
  check_time ticket deal record' kind reference corrected_time = corrected_time >>= λ corrected.
      ok (
        if precedes corrected record'.submitted_at
        then refused (precedes_submission corrected record'.submitted_at)
        else accepted (evidence_of ticket deal record' kind reference corrected))

  abbrev pub check_kind :
      ℕ → Deal F → LocalOrderRecord F → ℤ → Option StopKind → Outcome (Verdict F)
  check_kind ticket deal record' offset none = ok (refused (comment_mismatch deal.comment))
  check_kind ticket deal record' offset (some kind) =
      let reference = reference_of kind record' in
      if reference ⊑ nought
      then ok (refused (no_usable_reference kind))
      else if not (price_matches deal.price reference)
      then ok (refused (price_mismatch deal.price kind reference))
      else check_time ticket deal record' kind reference (minus_delta deal.time offset)

  abbrev pub check_deal : ℕ → Deal F → ℤ → Option (LocalOrderRecord F) → Outcome (Verdict F)
  check_deal ticket deal offset none = ok (refused (not_locally_open deal.position_id))
  check_deal ticket deal offset (some record') =
      if not (str_eq record'.symbol deal.symbol)
      then ok (refused (symbol_mismatch record'.symbol deal.symbol))
      else if not (volume_matches deal.volume record')
      then ok (refused (volume_mismatch (reference_volume record') deal.volume))
      else if not (is_closing_side deal.kind record'.side)
      then ok (refused (not_closing_side deal.kind record'.side))
      else check_kind ticket deal record' offset (extract_sl_tp_kind deal.comment)

  unfoldable pub explain_one :
      ℕ → List (Deal F) → List (LocalOrderRecord F) → ℤ → Outcome (Verdict F)
  explain_one ticket [] local_open offset = ok (refused no_closing_deal)
  explain_one ticket (deal ∷ []) local_open offset =
      check_deal ticket deal offset (local_by_ticket local_open deal.position_id)
  explain_one ticket (deal ∷ other ∷ rest) local_open offset =
      ok (refused (ambiguous_deals (length (deal ∷ other ∷ rest))))

  -- what one round of the loop puts before what the later rounds give
  abbrev pub add_verdict :
      ℕ → Verdict F → SlTpArtifactClassification F → SlTpArtifactClassification F
  add_verdict ticket (accepted e) rest = record rest {
    explained = ticket ∷ rest.explained;
    evidence = e ∷ rest.evidence;
  }
  add_verdict ticket (refused reason) rest = record rest {
    unexplained = ticket ∷ rest.unexplained;
    rejections = record { ticket = ticket; reason = reason } ∷ rest.rejections;
  }

  unfoldable pub classify_unknown_real_tickets :
      List ℕ
      → List (LocalOrderRecord F)
      → List (Deal F)
      → ℤ
      → Outcome (SlTpArtifactClassification F)
  unfolding explain_one closing_deals_of
  classify_unknown_real_tickets [] local_open deals offset =
      ok (record { explained = []; unexplained = []; evidence = []; rejections = [] })
  classify_unknown_real_tickets (ticket ∷ tickets) local_open deals offset =
      explain_one ticket (closing_deals_of ticket deals) local_open offset >>= λ verdict.
      classify_unknown_real_tickets tickets local_open deals offset >>= λ rest.
      ok (add_verdict ticket verdict rest)
