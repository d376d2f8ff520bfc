-- ===== src/State/Reconcile/Laws.antt =====
-- Proofs about state/reconcile.py and policy.py: the report as sets of tickets, and the posture.
use mt5_mcp_trading_framewor.Common.{
  ℕ, ◌<◌, ◌≡◌, ◌↔◌, refl, Bool, true, not, ◌||◌, ◌&&◌, Option, none, some, List, [], ◌∷◌, ◌==◌,
  keep, arith, All, Bool-cases, inl, inr,
}
use mt5_mcp_trading_framewor.Common.Outcome.{Error, ok}
use mt5_mcp_trading_framewor.Domain.{PositionState, OrderState}
use mt5_mcp_trading_framewor.State.Models.{LocalOrderRecord, ReconciliationReport}
use mt5_mcp_trading_framewor.State.Reconcile.{
  mem, set_add, set_of, local_tickets, real_tickets, reconcile, posture_of, normal, manage_only,
  blocked, determine_posture,
}

mem-set_add : (t x : ℕ) (s : List ℕ) → mem t (set_add x s) ≡ (x == t || mem t s)
unfolding set_add
mem-set_add t x [] = refl
mem-set_add t x (y ∷ s) = ground (arith, mem-set_add t x s)

mem-set_of : (t : ℕ) (xs : List ℕ) → mem t (set_of xs) ≡ mem t xs
unfolding set_of
mem-set_of t [] = refl
mem-set_of t (x ∷ xs) = ground (arith, mem-set_add t x (set_of xs), mem-set_of t xs)

-- a test that holds alike of equal tickets
mem-keep : (p : ℕ → Bool) (t : ℕ) (s : List ℕ) → mem t (keep p s) ≡ mem t s && p t
mem-keep p t [] = refl
mem-keep p t (x ∷ s) = elim (Bool-cases (x == t)) [
  | inl same ↦ let e : x ≡ t = ground arith in rw e (ground (arith, mem-keep p t s))
  | inr other ↦ ground (arith, mem-keep p t s)
]

-- strictly ascending, so without repetition
abbrev pub Ascends : List ℕ → Type 0
Ascends [] = Unit
Ascends (x ∷ xs) = All (λ y. x < y) xs × Ascends xs

All-set_add : (m x : ℕ) (s : List ℕ) → m < x → All (λ y. m < y) s → All (λ y. m < y) (set_add x s)
unfolding set_add
All-set_add m x [] h k = (h, tt)
All-set_add m x (y ∷ s) h k = ground (arith, All-set_add m x s h k.1)

All-trans : (m x : ℕ) (s : List ℕ) → m < x → All (λ y. x < y) s → All (λ y. m < y) s
All-trans m x [] h k = tt
All-trans m x (y ∷ s) h k = (omega arith, All-trans m x s h k.1)

set_add-Ascends : (x : ℕ) (s : List ℕ) → Ascends s → Ascends (set_add x s)
unfolding set_add
set_add-Ascends x [] h = (tt, tt)
set_add-Ascends x (y ∷ s) h =
    ground (arith, set_add-Ascends x s h.1, All-set_add y x s, All-trans x y s)

set_of-Ascends : (xs : List ℕ) → Ascends (set_of xs)
unfolding set_of
set_of-Ascends [] = tt
set_of-Ascends (x ∷ xs) = set_add-Ascends x (set_of xs) (set_of-Ascends xs)

All-keep : (p : ℕ → Bool) (m : ℕ) (s : List ℕ) → All (λ y. m < y) s → All (λ y. m < y) (keep p s)
All-keep p m [] h = tt
All-keep p m (x ∷ s) h = ground (arith, All-keep p m s h.1)

keep-Ascends : (p : ℕ → Bool) (s : List ℕ) → Ascends s → Ascends (keep p s)
keep-Ascends p [] h = tt
keep-Ascends p (x ∷ s) h = ground (arith, keep-Ascends p s h.1, All-keep p x s h.0)

abbrev Known : List ℕ → List ℕ → Type 0
Known reals locals = (t : ℕ) → mem t reals ≡ true → mem t locals ≡ true

-- the posture by the list of unknown tickets, of which only the members are given
posture_by :
    (reals locals unknown : List ℕ)
    → ((t : ℕ) → mem t unknown ≡ mem t reals && not (mem t locals))
    → ((ok (posture_of unknown) ≡ ok normal) ↔ Known reals locals)
      × ((ok (posture_of unknown) ≡ ok manage_only) ↔ (¬ Known reals locals))
      × (Option ReconciliationReport → Error → ok blocked ≡ ok blocked)
posture_by reals locals [] h =
    let known : Known reals locals = λ t r. ground (arith, h t) in
    ((λ _. known, λ _. refl), (λ e. cc, λ n. absurd (n known)), λ _ _. refl)
posture_by reals locals (u ∷ us) h =
    let unknown : ¬ Known reals locals = λ k. ground (arith, h u, k u) in
    ((λ e. cc, λ k. absurd (unknown k)), (λ _. unknown, λ _. refl), λ _ _. refl)

module _ {F : Type 0} where
  -- A ticket is reported as matched, local only or unknown exactly when it is held by both sides, by
  -- the records alone or by the account alone; and each of the three lists ascends strictly.
  pub reconcile_lem :
      (records : List (LocalOrderRecord F)) (positions : List (PositionState F))
      (orders : List (OrderState F))
      → let report = reconcile records positions orders in
        let locals = local_tickets records in
        let reals = real_tickets positions orders in
        ((t : ℕ) → mem t report.matched ≡ mem t locals && mem t reals)
        × ((t : ℕ) → mem t report.local_only ≡ mem t locals && not (mem t reals))
        × ((t : ℕ) → mem t report.unknown_real ≡ mem t reals && not (mem t locals))
        × Ascends report.matched
        × Ascends report.local_only
        × Ascends report.unknown_real
  unfolding reconcile
  reconcile_lem records positions orders =
      let locals = local_tickets records in
      let reals = real_tickets positions orders in
      (
        λ t. rw (
          mem-keep (λ x. mem x (set_of reals)) t (set_of locals),
          mem-set_of t locals,
          mem-set_of t reals,
        ),
        λ t. rw (
          mem-keep (λ x. not (mem x (set_of reals))) t (set_of locals),
          mem-set_of t locals,
          mem-set_of t reals,
        ),
        λ t. rw (
          mem-keep (λ x. not (mem x (set_of locals))) t (set_of reals),
          mem-set_of t locals,
          mem-set_of t reals,
        ),
        keep-Ascends _ _ (set_of-Ascends locals),
        keep-Ascends _ _ (set_of-Ascends locals),
        keep-Ascends _ _ (set_of-Ascends reals),
      )

  -- With the state file unreadable the posture is BLOCKED, whatever the report. Otherwise it is NORMAL
  -- exactly when every ticket of a live position or order has an open record, and else MANAGE_ONLY.
  pub posture_iff :
      (records : List (LocalOrderRecord F)) (positions : List (PositionState F))
      (orders : List (OrderState F))
      → let posture = determine_posture (some (reconcile records positions orders)) none in
        let known =
          (t : ℕ)
          → mem t (real_tickets positions orders) ≡ true
          → mem t (local_tickets records) ≡ true in
        ((posture ≡ ok normal) ↔ known)
        × ((posture ≡ ok manage_only) ↔ (¬ known))
        × ((report : Option ReconciliationReport) (e : Error)
            → determine_posture report (some e) ≡ ok blocked)
  unfolding determine_posture
  posture_iff records positions orders =
      let report = reconcile records positions orders in
      let reals = real_tickets positions orders in
      let locals = local_tickets records in
      let unknown = (reconcile_lem records positions orders).2 in
      posture_by reals locals report.unknown_real unknown
