-- ===== src/State/Store/Laws.antt =====
-- Proofs about state/store.py: what is read back after a write, and scans of a directory.
use mt5_mcp_trading_framewor.Common.{
  ◌⊎◌, ℕ, ◌≡◌, refl, Bool, true, false, Option, none, some, List, [], ◌∷◌, if◌then◌else◌, ◌==◌,
  ==_iff, arith, keep, Bool-cases, inl, inr, sym, ap, ◌∙◌, any, not, subst,
}
use mt5_mcp_trading_framewor.Common.Outcome.{ok, raised, state_load_error, Outcome-Option-cases}
use mt5_mcp_trading_framewor.Domain.{Time}
use mt5_mcp_trading_framewor.State.Store.Listing.{sort_by_name, any-sort_by_name}
use mt5_mcp_trading_framewor.State.Models.{
  LocalOrderRecord, OrderRecordStatus, is_open, CloseReason,
}
use mt5_mcp_trading_framewor.State.Store.{
  File, Directory, Submission, payload, undecodable, read_record_file, find_file, put_file,
  load_one, load_listed, load_all, write_one, submitted_record, record_submission, change_found,
  mark_sl_tp_attached, protect, end_with, transition, lookup, all_open, read_found, or_system_owned,
}

module _ {F : Type 0} where
  find_file-put_file :
      (t u : ℕ) (file : File F) (d : Directory F)
      → find_file u (put_file t file d) ≡ (if t == u then some file else find_file u d)
  find_file-put_file t u file [] = refl
  find_file-put_file t u file ((k, old) ∷ d) = ground (arith, find_file-put_file t u file d)

  -- A record that was written is what its ticket reads back, in every field; the other tickets read
  -- as before.
  pub lookup-write_one :
      (r : LocalOrderRecord F) (u : ℕ) (d : Directory F)
      → lookup u (write_one r d) ≡ (if r.ticket == u then ok (some r) else lookup u d)
  unfolding lookup load_one write_one read_record_file
  lookup-write_one r u d = elim (Bool-cases (r.ticket == u)) [
    | inl same ↦
        rw
          (
            find_file-put_file r.ticket u (payload (record { body = r; origin = some r.origin })) d,
            same,
          )
          (rw same
            (ap (λ t. ok (some (record r { ticket = t }))) (sym ((==_iff r.ticket u).0 same))))
    | inr other ↦ rw (
      find_file-put_file r.ticket u (payload (record { body = r; origin = some r.origin })) d,
      other,
    )
  ]

  -- A submission is read back exactly as it was submitted, with the status that it was given; the
  -- other tickets are not affected.
  pub record_submission_lem :
      (s : Submission F) (status : OrderRecordStatus) (u : ℕ) (d : Directory F)
      → lookup u (record_submission s status d).1
        ≡ (if s.ticket == u then ok (some (submitted_record s status)) else lookup u d)
  unfolding record_submission
  record_submission_lem s status u d = lookup-write_one (submitted_record s status) u d

  read_found_ticket :
      (t : ℕ) (file : Option (File F)) {r : LocalOrderRecord F}
      → read_found t file ≡ ok (some r)
      → r.ticket ≡ t
  unfolding read_record_file
  read_found_ticket t none e = cc
  read_found_ticket t (some undecodable) e = cc
  read_found_ticket t (some (payload p)) e = ground arith

  change_found_lem :
      (t u : ℕ) (change : LocalOrderRecord F → LocalOrderRecord F) (d : Directory F)
      (r : LocalOrderRecord F)
      → (change r).ticket ≡ r.ticket
      → lookup t d ≡ ok (some r)
      → lookup u (change_found (lookup t d) change d).1
        ≡ (if t == u then ok (some (change r)) else lookup u d)
  change_found_lem t u change d r same e =
      let at_t : (change r).ticket ≡ t =
        same ∙ read_found_ticket t (find_file t d) {r = r} (unfold lookup load_one in e) in
      rw e (
        subst
          (λ k.
            lookup u (write_one (change r) d)
            ≡ (if k == u then ok (some (change r)) else lookup u d))
          at_t (lookup-write_one (change r) u d))

  -- A transition of a ticket that has a record changes that record's status, reason and time of
  -- closing and nothing else of it, and no other ticket's record.
  pub transition_found :
      (t u : ℕ) (status : OrderRecordStatus) (reason : CloseReason) (at : Time) (d : Directory F)
      (r : LocalOrderRecord F)
      → lookup t d ≡ ok (some r)
      → lookup u (transition t status reason at d).1
        ≡ (if t == u then ok (some (end_with status reason at r)) else lookup u d)
  unfolding transition lookup
  transition_found t u status reason at d r e =
      change_found_lem t u (end_with status reason at) d r refl e

  -- A transition leaves what the other tickets read, also where it finds nothing or raises.
  pub transition_other :
      (t u : ℕ) (status : OrderRecordStatus) (reason : CloseReason) (at : Time) (d : Directory F)
      → (t == u) ≡ false
      → lookup u (transition t status reason at d).1 ≡ lookup u d
  unfolding transition lookup
  transition_other t u status reason at d other = elim (Outcome-Option-cases (load_one t d)) [
    | inl (e, bad) ↦ rw bad refl
    | inr (inl missing) ↦ rw missing refl
    | inr (inr (r, found)) ↦ rw other at (transition_found t u status reason at d r found)
  ]

  -- Attaching the stops makes an existing record OPEN, changes nothing else of it, and no other
  -- ticket's record.
  pub mark_sl_tp_attached_found :
      (t u : ℕ) (d : Directory F) (r : LocalOrderRecord F)
      → lookup t d ≡ ok (some r)
      → lookup u (mark_sl_tp_attached t d).1
        ≡ (if t == u then ok (some (protect r)) else lookup u d)
  unfolding mark_sl_tp_attached lookup
  mark_sl_tp_attached_found t u d r e = change_found_lem t u protect d r refl e

  -- a file that `read_record_file` refuses
  abbrev pub is_unreadable : ℕ × File F → Bool
  is_unreadable (t, undecodable) = true
  is_unreadable (t, payload p) = not (p.body.ticket == t)

  load_listed_stops :
      (files : List (ℕ × File F))
      → any is_unreadable files ≡ true
      → load_listed files ≡ raised state_load_error
  unfolding load_listed
  load_listed_stops [] h = cc
  load_listed_stops ((t, undecodable) ∷ rest) h = refl
  load_listed_stops ((t, payload p) ∷ rest) h = ground (arith, load_listed_stops rest)

  load_listed_runs :
      (files : List (ℕ × File F))
      → any is_unreadable files ≡ false
      → (rs : List (LocalOrderRecord F)) × (load_listed files ≡ ok rs)
  unfolding load_listed
  load_listed_runs [] h = ([], refl)
  load_listed_runs ((t, undecodable) ∷ rest) h = cc
  load_listed_runs ((t, payload p) ∷ rest) h = elim (Bool-cases (p.body.ticket == t)) [
    | inr bad ↦ absurd (ground arith)
    | inl good ↦
        let (rs, e) = load_listed_runs rest (ground arith) in
        (record (p.body) { ticket = t; origin = or_system_owned p.origin } ∷ rs, rw (good, e))
  ]

  -- The scan for open records raises exactly when some file of the directory cannot be read or names
  -- another ticket, whichever file that is; otherwise it returns.
  pub all_open_cases :
      (d : Directory F)
      → ((any is_unreadable d ≡ true) × (all_open d ≡ raised state_load_error))
        ⊎ ((any is_unreadable d ≡ false)
            × ((rs : List (LocalOrderRecord F)) × (all_open d ≡ ok rs)))
  unfolding all_open load_all
  all_open_cases d = elim (Bool-cases (any is_unreadable d)) [
    | inl bad ↦
        inl (bad, rw (load_listed_stops (sort_by_name d) (any-sort_by_name is_unreadable d ∙ bad)))
    | inr good ↦
        let (rs, e) = load_listed_runs (sort_by_name d) (any-sort_by_name is_unreadable d ∙ good) in
        inr (good, (keep (λ r. is_open r.status) rs, rw e))
  ]
