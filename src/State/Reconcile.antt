-- ===== src/State/Reconcile.antt =====
-- state/reconcile.py and state/policy.py: the comparison of the local records with the live account by
-- ticket, and the posture that follows from it.
pub mod Laws
use mt5_mcp_trading_framewor.Common.{
  ℕ, Bool, true, false, not, ◌||◌, ◌&&◌, Option, none, some, List, [], ◌∷◌, ◌++◌, map,
  if◌then◌else◌, ltb, ◌==◌, keep,
}
use mt5_mcp_trading_framewor.Common.Outcome.{Error, Outcome, ok, raised, value_error}
use mt5_mcp_trading_framewor.Domain.{PositionState, OrderState}
use mt5_mcp_trading_framewor.State.Models.{LocalOrderRecord, ReconciliationReport}

-- `t in s`
abbrev pub mem : ℕ → List ℕ → Bool
mem t [] = false
mem t (x ∷ xs) = x == t || mem t xs

-- A set of tickets is the list of its members in ascending order, as `sorted` lists it.
unfoldable pub set_add : ℕ → List ℕ → List ℕ
set_add t [] = t ∷ []
set_add t (x ∷ xs) = if ltb t x then t ∷ x ∷ xs else if t == x then x ∷ xs else x ∷ set_add t xs

unfoldable pub set_of : List ℕ → List ℕ
unfolding set_add
set_of [] = []
set_of (x ∷ xs) = set_add x (set_of xs)

abbrev pub intersection : List ℕ → List ℕ → List ℕ
intersection s t = keep (λ x. mem x t) s

abbrev pub difference : List ℕ → List ℕ → List ℕ
difference s t = keep (λ x. not (mem x t)) s

module _ {F : Type 0} where
  abbrev pub local_tickets : List (LocalOrderRecord F) → List ℕ
  local_tickets = map (λ r. r.ticket)

  abbrev pub real_tickets : List (PositionState F) → List (OrderState F) → List ℕ
  real_tickets positions orders = map (λ p. p.ticket) positions ++ map (λ o. o.ticket) orders

  unfoldable pub reconcile :
      List (LocalOrderRecord F)
      → List (PositionState F)
      → List (OrderState F)
      → ReconciliationReport
  unfolding set_of
  reconcile local_open positions orders =
      let local_set = set_of (local_tickets local_open) in
      let real_set = set_of (real_tickets positions orders) in
      record {
        matched = intersection local_set real_set;
        local_only = difference local_set real_set;
        unknown_real = difference real_set local_set;
      }

pub data ExecutionPosture : Type 0 where
  normal manage_only blocked : ExecutionPosture

abbrev pub posture_of : List ℕ → ExecutionPosture
posture_of [] = normal
posture_of (t ∷ ts) = manage_only

unfoldable pub determine_posture :
    Option ReconciliationReport → Option Error → Outcome ExecutionPosture
determine_posture report (some e) = ok blocked
determine_posture none none = raised value_error
determine_posture (some report) none = ok (posture_of report.unknown_real)
