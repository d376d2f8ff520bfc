-- ===== src/Common/Outcome.antt =====
-- Exceptions as values: the classes of exception that the program raises, and the outcome of a call.
-- An exception is its class; its message is not modelled.
use mathlib.Core.Path.{◌≡◌, refl}
use mathlib.Core.Bool.{Bool, true, false}
use mathlib.Core.Logic.{◌⊎◌, inl, inr}
use mathlib.Core.Option.{Option, none, some}
use Prim.Native.Nat.{ℕ}

pub data Error : Type 0 where
  value_error : Error
  key_error : Error
  index_error : Error
  type_error : Error
  runtime_error : Error
  overflow_error : Error
  settings_error : Error
  not_implemented : Error
  state_load_error : Error
  execution_blocked : Error
  invalid_order_plan : Error
  not_demo_account : Error
  tool_not_classified : Error
  -- `GridCycleError`, in a caller that does not look into it
  grid_cycle_failed : Error
  trading_disabled : Error
  malformed_response : Error
  -- `SlTpAttachmentFailedError`, with its ticket
  sl_tp_attachment_failed : ℕ → Error
  attribute_error : Error
  zero_division : Error
  -- `McpCallTimeoutError`
  call_timed_out : Error
  -- an exception of code outside the repository
  foreign_error : ℕ → Error

pub data Outcome (A : Type 0) : Type 0 where
  ok : A → Outcome A
  raised : Error → Outcome A

infixl 5 ◌>>=◌ ◌>>◌
abbrev pub ◌>>=◌ : {A B : Type 0} → Outcome A → (A → Outcome B) → Outcome B
ok a >>= f = f a
raised e >>= f = raised e

abbrev pub ◌>>◌ : {B : Type 0} → Outcome (Unit {0}) → Outcome B → Outcome B
m >> k = m >>= λ _. k

-- `if bad: raise e`
abbrev pub raise_if : Bool → Error → Outcome (Unit {0})
raise_if true e = raised e
raise_if false e = ok tt

-- Inversion of a call that returned.
pub >>=-eq-ok :
    {A B : Type 0} (call : Outcome A) (rest : A → Outcome B) {result : B}
    → (call >>= rest) ≡ ok result
    → (value : A) × (call ≡ ok value) × (rest value ≡ ok result)
>>=-eq-ok (raised e) rest returned = cc
>>=-eq-ok (ok value) rest returned = (value, refl, returned)

-- The three ways of a call that may raise or find nothing.
pub Outcome-Option-cases :
    {A : Type 0} (r : Outcome (Option A))
    → ((e : Error) × (r ≡ raised e)) ⊎ (r ≡ ok none) ⊎ ((a : A) × (r ≡ ok (some a)))
Outcome-Option-cases (raised e) = inl (e, refl)
Outcome-Option-cases (ok none) = inr (inl refl)
Outcome-Option-cases (ok (some a)) = inr (inr (a, refl))

pub Outcome-cases :
    {A : Type 0} (r : Outcome A) → ((e : Error) × (r ≡ raised e)) ⊎ ((a : A) × (r ≡ ok a))
Outcome-cases (raised e) = inl (e, refl)
Outcome-cases (ok a) = inr (a, refl)
