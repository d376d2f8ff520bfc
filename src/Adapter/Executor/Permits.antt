-- ===== src/Adapter/Executor/Permits.antt =====
-- What mt5_adapter/mcp_order_executor.py asks of the posture before a trading tool is called.
use mt5_mcp_trading_framewor.Common.{
  ℕ, ◌≡◌, ◌⊎◌, inl, inr, refl, Bool, true, false, not, ◌||◌, Option, none, some, arith,
}
use mt5_mcp_trading_framewor.Common.Outcome.{Outcome, Error, ok, raised, execution_blocked}
use mt5_mcp_trading_framewor.Common.Action.{Action, ◌>>=◌, ◌>>◌, raise_if}
use mt5_mcp_trading_framewor.State.Models.{ReconciliationReport}
use mt5_mcp_trading_framewor.State.Reconcile.{ExecutionPosture, normal, manage_only, blocked, mem}
use mt5_mcp_trading_framewor.Adapter.Executor.Posture.{PostureCheck}
use mt5_mcp_trading_framewor.Adapter.Executor.Submit.{is_not_normal}
use mt5_mcp_trading_framewor.Adapter.Executor.Manage.{is_refused}

-- the call goes no further than to the state `s`, or goes on to `action` from there
abbrev pub Proceeds : {S A : Type 0} → Bool → S → Action S A → Outcome A × S → Type 0
Proceeds {A = A} false s action end = (e : Error) × (end ≡ (raised e, s))
Proceeds true s action end = end ≡ action s

-- whether a guard lets the outcome of the reads through
abbrev pub passes : (PostureCheck → Bool) → Outcome PostureCheck → Bool
passes bad (raised e) = false
passes bad (ok check) = not (bad check)

module _ {S A : Type 0} (action : Action S A) where
  pub guard-Proceeds :
      (bad : Bool) (s : S)
      → Proceeds (not bad) s action ((raise_if bad execution_blocked >> action) s)
  guard-Proceeds true s = (execution_blocked, refl)
  guard-Proceeds false s = refl

  pub result-Proceeds :
      (bad : PostureCheck → Bool) (r : Outcome PostureCheck) (s : S)
      → Proceeds
          (passes bad r)
          s
          action
          (((λ t. (r, t)) >>= λ check. raise_if (bad check) execution_blocked >> action) s)
  result-Proceeds bad (raised e) s = (e, refl)
  result-Proceeds bad (ok check) s = guard-Proceeds (bad check) s

-- the reads have come to the posture NORMAL
abbrev pub CanSubmit : Outcome PostureCheck → Type 0
CanSubmit r = (check : PostureCheck) × (r ≡ ok check) × (check.posture ≡ normal)

abbrev pub IsManaged : ℕ → ExecutionPosture → Option ReconciliationReport → Type 0
IsManaged ticket posture found =
    (posture ≡ normal)
    ⊎ ((posture ≡ manage_only)
        × ((report : ReconciliationReport) × (found ≡ some report)
            × ((mem ticket report.matched ≡ true) ⊎ (mem ticket report.local_only ≡ true))))

-- the reads have come to NORMAL, or to MANAGE_ONLY with the ticket among the recorded ones
abbrev pub CanTouch : ℕ → Outcome PostureCheck → Type 0
CanTouch ticket r =
    (check : PostureCheck) × (r ≡ ok check) × IsManaged ticket check.posture check.report

passes_ok :
    (bad : PostureCheck → Bool) (r : Outcome PostureCheck)
    → passes bad r ≡ true
    → (check : PostureCheck) × (r ≡ ok check) × (bad check ≡ false)
passes_ok bad (raised e) h = cc
passes_ok bad (ok check) h = (check, refl, ground arith)

posture_normal : (p : ExecutionPosture) → is_not_normal p ≡ false → p ≡ normal
posture_normal normal h = refl
posture_normal manage_only h = cc
posture_normal blocked h = cc

either_true : (a b : Bool) → not (a || b) ≡ false → (a ≡ true) ⊎ (b ≡ true)
either_true true b h = inl refl
either_true false true h = inr refl
either_true false false h = cc

is_refused-IsManaged :
    (ticket : ℕ) (p : ExecutionPosture) (found : Option ReconciliationReport)
    → is_refused ticket p found ≡ false
    → IsManaged ticket p found
is_refused-IsManaged ticket normal found h = inl refl
is_refused-IsManaged ticket blocked found h = cc
is_refused-IsManaged ticket manage_only none h = cc
is_refused-IsManaged ticket manage_only (some report) h =
    inr (
      refl,
      (report, refl, either_true (mem ticket report.matched) (mem ticket report.local_only) h),
    )

pub passes-CanSubmit :
    (r : Outcome PostureCheck)
    → passes (λ check. is_not_normal check.posture) r ≡ true
    → CanSubmit r
passes-CanSubmit r h =
    let (check, at, good) = passes_ok (λ check. is_not_normal check.posture) r h in
    (check, at, posture_normal check.posture good)

pub passes-CanTouch :
    (ticket : ℕ) (r : Outcome PostureCheck)
    → passes (λ check. is_refused ticket check.posture check.report) r ≡ true
    → CanTouch ticket r
passes-CanTouch ticket r h =
    let (check, at, good) = passes_ok (λ check. is_refused ticket check.posture check.report) r h in
    (check, at, is_refused-IsManaged ticket check.posture check.report good)

pub fails-CanSubmit :
    (r : Outcome PostureCheck)
    → passes (λ check. is_not_normal check.posture) r ≡ false
    → ¬ CanSubmit r
fails-CanSubmit (raised e) h (check, at, good) = cc
fails-CanSubmit (ok c) h (check, at, good) = absurd (ground arith)
