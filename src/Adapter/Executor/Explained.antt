-- ===== src/Adapter/Executor/Explained.antt =====
-- Proofs about mt5_adapter/mcp_order_executor.py: what the second look at unknown tickets may change.
use mt5_mcp_trading_framewor.Common.{
  ℕ, ◌≡◌, inl, inr, refl, ap, ◌∙◌, subst, true, false, List, [], ◌∷◌, ◌==◌, arith, Bool-cases, All,
  ==_iff,
}
use mt5_mcp_trading_framewor.Common.Outcome.{Outcome, Error, ok, raised, >>=-eq-ok}
use mt5_mcp_trading_framewor.Common.Action.{pure, lift, Preserves, >>=-Preserves, bind_returned}
use mt5_mcp_trading_framewor.Float.{Float}
use mt5_mcp_trading_framewor.State.Models.{LocalOrderRecord, ReconciliationReport, closed}
use mt5_mcp_trading_framewor.State.Reconcile.{mem, local_tickets}
use mt5_mcp_trading_framewor.State.Store.{Directory, transition, record_closed, lookup, all_records}
use mt5_mcp_trading_framewor.State.Store.Laws.{transition_other}
use mt5_mcp_trading_framewor.State.SlTpArtifact.{
  SlTpArtifactEvidence, SlTpArtifactClassification, classify_unknown_real_tickets,
}
use mt5_mcp_trading_framewor.State.SlTpArtifact.Laws.{classified_owned}
use mt5_mcp_trading_framewor.Monitoring.DealTime.{infer_deal_time_offset}
use mt5_mcp_trading_framewor.Adapter.Executor.{McpOrderExecutor, Machine, outside, in_store}
use mt5_mcp_trading_framewor.Adapter.Executor.Posture.{
  or_zero, fetch_deals, classify_deals, gather_with, gather, close_explained, apply_evidence,
  explain_unknown_real,
}

abbrev pub Owned : {F : Type 0} → List (LocalOrderRecord F) → List (SlTpArtifactEvidence F) → Type 0
Owned {F} local_open es =
    All (λ (e : SlTpArtifactEvidence F). mem e.position_ticket (local_tickets local_open) ≡ true) es

mem_apart : (p u : ℕ) (ts : List ℕ) → mem p ts ≡ true → mem u ts ≡ false → (p == u) ≡ false
mem_apart p u ts h k = elim (Bool-cases (p == u)) [
  | inl same ↦
      absurd (let e = (==_iff p u).0 same in ground (arith, subst (λ x. mem x ts ≡ true) e h))
  | inr apart ↦ apart
]

module _ {W F : Type 0} ⦃f : Float F⦄ (self : McpOrderExecutor W F) where
  module _ (report : ReconciliationReport) (local_open : List (LocalOrderRecord F)) where
    gather-Keeps : (d : Directory F) → Preserves (λ s. s.1 ≡ d) (gather self report local_open)
    unfolding gather
    gather-Keeps d =
        >>=-Preserves (λ s. s.1 ≡ d) (in_store (λ d. (all_records d, d)))
          (gather_with self report local_open) (λ s h. h)
          λ records.
            >>=-Preserves (λ s. s.1 ≡ d) (outside (fetch_deals self))
              (λ deals. lift (classify_deals self report local_open records deals)) (λ s h. h)
              (λ deals s h. h)

    gathered-Owned :
        (s : Machine W F) (c : SlTpArtifactClassification F)
        → (gather self report local_open s).0 ≡ ok c
        → Owned local_open c.evidence
    unfolding gather classify_deals
    gathered-Owned s c h =
        let (records, _, h1) =
          bind_returned (in_store (λ d. (all_records d, d))) (gather_with self report local_open) s
            h in
        let (deals, _, h2) =
          bind_returned (outside (fetch_deals self))
            (λ deals. lift (classify_deals self report local_open records deals)) s h1 in
        let (offset, _, h3) =
          >>=-eq-ok (infer_deal_time_offset records deals)
            (λ offset.
              classify_unknown_real_tickets report.unknown_real local_open deals (or_zero offset))
            {result = c} h2 in
        classified_owned local_open deals (or_zero offset) report.unknown_real c h3

    module _ (u : ℕ) (foreign : mem u (local_tickets local_open) ≡ false) where
      close_explained_other :
          (es : List (SlTpArtifactEvidence F))
          → Owned local_open es
          → (d : Directory F) → Preserves (λ s. lookup u s.1 ≡ lookup u d) (close_explained self es)
      unfolding close_explained record_closed
      close_explained_other [] h d = λ s p. p
      close_explained_other (e ∷ es) h d =
          >>=-Preserves (λ s. lookup u s.1 ≡ lookup u d)
            (in_store (transition e.position_ticket closed (self.describe e) e.time))
            (λ _. close_explained self es)
            (λ s p.
              transition_other e.position_ticket u closed (self.describe e) e.time s.1
                (mem_apart e.position_ticket u (local_tickets local_open) h.0 foreign)
              ∙ p)
            (λ _. close_explained_other es h.1 d)

      explained_other :
          (r : Outcome (SlTpArtifactClassification F)) (s : Machine W F) (d : Directory F)
          → ((c : SlTpArtifactClassification F) → r ≡ ok c → Owned local_open c.evidence)
          → lookup u s.1 ≡ lookup u d
          → lookup u (apply_evidence self report r s).1.1 ≡ lookup u d
      explained_other (raised e) s d owned p = p
      explained_other (ok c) s d owned p =
          >>=-Preserves (λ s. lookup u s.1 ≡ lookup u d) (close_explained self c.evidence)
            (λ _. pure (record report { unknown_real = c.unexplained }))
            (close_explained_other c.evidence (owned c refl) d) (λ _ s p. p) s p

      -- The second look at unknown tickets, however it ends, changes no record but those of positions
      -- that were open in the store: for every other ticket, the unknown ones included, the store reads
      -- as before.
      pub explain_unknown_real_other :
          (s : Machine W F)
          → lookup u (explain_unknown_real self report local_open s).1.1 ≡ lookup u s.1
      unfolding explain_unknown_real
      explain_unknown_real_other s =
          explained_other (gather self report local_open s).0 (gather self report local_open s).1
            s.1 (gathered-Owned s) (ap (λ d. lookup u d) (gather-Keeps s.1 s refl))

    gathered_raised :
        (r : Outcome (SlTpArtifactClassification F)) (e : Error) (s : Machine W F)
        → r ≡ raised e
        → apply_evidence self report r s ≡ (ok report, s)
    gathered_raised (raised e') e s h = refl
    gathered_raised (ok c) e s h = cc

    -- Whatever goes wrong while the evidence is gathered, the report stays as it is, so that an unknown
    -- ticket keeps its effect on the posture, and the store stays as it is.
    pub explain_unknown_real_failed :
        (e : Error) (s : Machine W F)
        → (gather self report local_open s).0 ≡ raised e
        → ((explain_unknown_real self report local_open s).0 ≡ ok report)
          × ((explain_unknown_real self report local_open s).1.1 ≡ s.1)
    unfolding explain_unknown_real
    explain_unknown_real_failed e s h =
        let end =
          gathered_raised (gather self report local_open s).0 e (gather self report local_open s).1
            h in
        (ap (λ x. x.0) end, ap (λ x. x.1.1) end ∙ gather-Keeps s.1 s refl)
