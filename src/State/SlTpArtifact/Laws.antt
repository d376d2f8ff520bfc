-- ===== src/State/SlTpArtifact/Laws.antt =====
-- Proofs about state/sl_tp_artifact.py: what evidence an explained ticket has.
use mt5_mcp_trading_framewor.Common.{
  ℕ, ◌≡◌, ◌⊎◌, ◌↔◌, inl, inr, refl, ap, true, List, [], ◌∷◌, arith, All, subst,
}
use mt5_mcp_trading_framewor.Common.Int.{ℤ}
use mt5_mcp_trading_framewor.Common.Outcome.{Outcome, ok, raised, ◌>>=◌, overflow_error, Error}
use mt5_mcp_trading_framewor.Common.Clock.{minus_delta}
use mt5_mcp_trading_framewor.Float.{Float}
use mt5_mcp_trading_framewor.Domain.{Deal}
use mt5_mcp_trading_framewor.State.Models.{LocalOrderRecord}
use mt5_mcp_trading_framewor.State.Reconcile.{mem, local_tickets}
use mt5_mcp_trading_framewor.State.SlTpArtifact.{
  SlTpArtifactEvidence, RejectionReason, SlTpArtifactClassification, Verdict, extract_sl_tp_kind,
  reference_of, local_by_ticket, closing_deals_of, explain_one, add_verdict,
  classify_unknown_real_tickets, accepted, refused,
}
use mt5_mcp_trading_framewor.State.SlTpArtifact.Evidence.{
  Explains, check_deal_accepts, check_kind_accepts, check_time_accepts, check_deal_raises,
  local_by_ticket_member,
}

module _ {F : Type 0} ⦃f : Float F⦄ where
  module _ (local_open : List (LocalOrderRecord F)) (deals : List (Deal F)) (offset : ℤ) where
    explain_one_accepts :
        (t : ℕ) (found : List (Deal F)) {e : SlTpArtifactEvidence F}
        → closing_deals_of t deals ≡ found
        → explain_one t found local_open offset ≡ ok (accepted e)
        → Explains local_open deals offset t e
    unfolding explain_one
    explain_one_accepts t [] same h = cc
    explain_one_accepts t (d ∷ d' ∷ rest) same h = cc
    explain_one_accepts t (d ∷ []) same h =
        let (r, open', symbol, volume, side, h') =
          check_deal_accepts t d offset (local_by_ticket local_open d.position_id) h in
        let (k, named, positive, near, h'') =
          check_kind_accepts t d r offset (extract_sl_tp_kind d.comment) h' in
        let (c, at, after, e_is) =
          check_time_accepts t d r k (reference_of k r) (minus_delta d.time offset) h'' in
        record {
          deal = d;
          position = r;
          kind = k;
          time = c;
          only_deal = same;
          is_open = open';
          same_symbol = symbol;
          same_volume = volume;
          opposite_side = side;
          named_kind = named;
          positive_reference = positive;
          near_reference = near;
          time_of_deal = at;
          not_before = after;
          recorded = e_is;
        }

    -- the other direction: what has the evidence is accepted
    explain_one_complete :
        (t : ℕ) (e : SlTpArtifactEvidence F)
        → Explains local_open deals offset t e
        → explain_one t (closing_deals_of t deals) local_open offset ≡ ok (accepted e)
    unfolding explain_one
    explain_one_complete t e h =
        rw
          (
            h.only_deal, h.is_open, h.same_symbol, h.same_volume, h.opposite_side, h.named_kind,
            h.positive_reference, h.near_reference, h.time_of_deal, h.not_before, h.recorded,
          )
          refl

    -- A ticket is explained by some evidence exactly when that evidence meets every condition.
    pub explain_one_iff :
        (t : ℕ) (e : SlTpArtifactEvidence F)
        → (explain_one t (closing_deals_of t deals) local_open offset ≡ ok (accepted e))
          ↔ Explains local_open deals offset t e
    explain_one_iff t e =
        (explain_one_accepts t (closing_deals_of t deals) refl, explain_one_complete t e)

    -- each ticket in turn was explained with the next evidence or refused with the next rejection
    pub data Sorts : List ℕ → SlTpArtifactClassification F → Type 0 where
      sorts_none :
          Sorts [] (record { explained = []; unexplained = []; evidence = []; rejections = [] })
      sorts_explained :
          (t : ℕ) (ts : List ℕ) (e : SlTpArtifactEvidence F) (c : SlTpArtifactClassification F)
          → Explains local_open deals offset t e
          → Sorts ts c
          → Sorts (t ∷ ts) (add_verdict t (accepted e) c)
      sorts_refused :
          (t : ℕ) (ts : List ℕ) (reason : RejectionReason F) (c : SlTpArtifactClassification F)
          → ((e : SlTpArtifactEvidence F) → ¬ Explains local_open deals offset t e)
          → Sorts ts c
          → Sorts (t ∷ ts) (add_verdict t (refused reason) c)

    only_overflow :
        (t : ℕ) (found : List (Deal F)) {e : Error}
        → explain_one t found local_open offset ≡ raised e
        → e ≡ overflow_error
    unfolding explain_one
    only_overflow t [] h = cc
    only_overflow t (d ∷ d' ∷ rest) h = cc
    only_overflow t (d ∷ []) h =
        check_deal_raises t d offset (local_by_ticket local_open d.position_id) h

    abbrev pub Classifies : List ℕ → Outcome (SlTpArtifactClassification F) → Type 0
    Classifies ts r =
        (r ≡ raised overflow_error) ⊎ ((c : SlTpArtifactClassification F) × (r ≡ ok c) × Sorts ts c)

    Classifies-step :
        (t : ℕ) (ts : List ℕ) (first : Outcome (Verdict F))
        (rest : Outcome (SlTpArtifactClassification F))
        → explain_one t (closing_deals_of t deals) local_open offset ≡ first
        → Classifies ts rest
        → Classifies (t ∷ ts) (first >>= λ v. rest >>= λ c. ok (add_verdict t v c))
    Classifies-step t ts (raised e) rest at h =
        inl (ap (λ x. raised x) (only_overflow t (closing_deals_of t deals) at))
    Classifies-step t ts (ok v) rest at (inl over) = inl (rw over refl)
    Classifies-step t ts (ok (accepted e)) rest at (inr (c, ret, s)) = inr (
      add_verdict t (accepted e) c,
      rw ret refl,
      sorts_explained t ts e c ((explain_one_iff t e).0 at) s,
    )
    Classifies-step t ts (ok (refused reason)) rest at (inr (c, ret, s)) = inr (
      add_verdict t (refused reason) c,
      rw ret refl,
      sorts_refused t ts reason c (λ e h. absurd (ground (arith, at, (explain_one_iff t e).1 h))) s,
    )

    -- The classification either raises an overflow error (a deal whose corrected time leaves the years
    -- 1 to 9999) or returns, and then takes the tickets in their order: a ticket goes to the explained
    -- ones, with evidence for which every condition of the module holds, or to the unexplained ones,
    -- with a reason, and then no evidence at all meets the conditions for it.
    pub classify_unknown_real_tickets_lem :
        (ts : List ℕ) → Classifies ts (classify_unknown_real_tickets ts local_open deals offset)
    unfolding classify_unknown_real_tickets
    classify_unknown_real_tickets_lem [] = inr (_, refl, sorts_none)
    classify_unknown_real_tickets_lem (t ∷ ts) =
        Classifies-step t ts _ _ refl (classify_unknown_real_tickets_lem ts)

    -- the evidence names only positions that have an open record
    evidence_owned :
        (ts : List ℕ) (c : SlTpArtifactClassification F)
        → Sorts ts c
        → All
            (λ (e : SlTpArtifactEvidence F).
              mem e.position_ticket (local_tickets local_open) ≡ true)
            c.evidence
    evidence_owned _ _ sorts_none = tt
    evidence_owned _ _ (sorts_explained t ts e c h rest) = (
      rw h.recorded (local_by_ticket_member local_open h.deal.position_id h.position h.is_open),
      evidence_owned ts c rest,
    )
    evidence_owned _ _ (sorts_refused t ts reason c h rest) = evidence_owned ts c rest

    pub classified_owned :
        (ts : List ℕ) (c : SlTpArtifactClassification F)
        → classify_unknown_real_tickets ts local_open deals offset ≡ ok c
        → All
            (λ (e : SlTpArtifactEvidence F).
              mem e.position_ticket (local_tickets local_open) ≡ true)
            c.evidence
    classified_owned ts c h = elim (classify_unknown_real_tickets_lem ts) [
      | inl over ↦ absurd (cc)
      | inr (c', ret, sorts) ↦
          subst
            (λ (x : SlTpArtifactClassification F).
              All
                (λ (e : SlTpArtifactEvidence F).
                  mem e.position_ticket (local_tickets local_open) ≡ true)
                x.evidence)
            {x = c'} {y = c} (ground arith) (evidence_owned ts c' sorts)
    ]
