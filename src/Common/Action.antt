-- ===== src/Common/Action.antt =====
-- A call that reads and changes a state of type `S` and may raise. What was done to the state before
-- a raise stays done.
use native.Mathlib.Omega.{arith}
use mathlib.Core.Path.{◌≡◌, refl}
use mathlib.Core.Logic.{◌⊎◌, inl, inr}
use mathlib.Core.Bool.{Bool, true, false}
use mt5_mcp_trading_framewor.Common.Tests.{if◌then◌else◌}
use mt5_mcp_trading_framewor.Common.Outcome.{Outcome, ok, raised, Error}

abbrev pub Action : Type 0 → Type 0 → Type 0
Action S A = S → Outcome A × S

module _ {S A : Type 0} where
  abbrev pub pure : A → Action S A
  pure a s = (ok a, s)

  abbrev pub raise : Error → Action S A
  raise e s = (raised e, s)

  abbrev pub lift : Outcome A → Action S A
  lift r s = (r, s)

infixl 5 ◌>>=◌ ◌>>◌
abbrev pub ◌>>=◌ : {S A B : Type 0} → Action S A → (A → Action S B) → Action S B
◌>>=◌ m f s = let (r, s') = m s in elim r [ ok a ↦ f a s' | raised e ↦ (raised e, s') ]

abbrev pub ◌>>◌ : {S B : Type 0} → Action S (Unit {0}) → Action S B → Action S B
m >> k = m >>= λ _. k

-- `if bad: raise e`
abbrev pub raise_if : {S : Type 0} → Bool → Error → Action S (Unit {0})
raise_if true e s = (raised e, s)
raise_if false e s = (ok tt, s)

-- `try: m`: the outcome as a value, for an `except` to look into
abbrev pub attempt : {S A : Type 0} → Action S A → Action S (Outcome A)
attempt m s = let (r, s') = m s in (ok r, s')

-- a call that concerns one half of the state only
abbrev pub on_left : {S T A : Type 0} → Action S A → Action (S × T) A
on_left m p = let (r, s) = m p.0 in (r, (s, p.1))

abbrev pub on_right : {S T A : Type 0} → Action T A → Action (S × T) A
on_right m p = let (r, t) = m p.1 in (r, (p.0, t))

module _ {S A : Type 0} where
  -- the call keeps `P`, whether it returns or raises
  abbrev pub Preserves : (S → Type 0) → Action S A → Type 0
  Preserves P m = (s : S) → P s → P (m s).1

module _ {S A B : Type 0} where
  outcome-Preserves :
      (P : S → Type 0) (f : A → Action S B)
      → ((a : A) → Preserves P (f a))
      → (r : Outcome A) (t : S) → P t
      → P (elim r as (λ _. Outcome B × S) [ ok a ↦ f a t | raised e ↦ (raised e, t) ]).1
  outcome-Preserves P f h (ok a) t p = h a t p
  outcome-Preserves P f h (raised e) t p = p

  pub >>=-Preserves :
      (P : S → Type 0) (m : Action S A) (f : A → Action S B)
      → Preserves P m
      → ((a : A) → Preserves P (f a))
      → Preserves P (m >>= f)
  >>=-Preserves P m f h k s p = outcome-Preserves P f k (m s).0 (m s).1 (h s p)

pub raise_if-Preserves :
    {S : Type 0} (P : S → Type 0) (b : Bool) (e : Error) → Preserves P (raise_if b e)
raise_if-Preserves P true e s p = p
raise_if-Preserves P false e s p = p

pub lift-Preserves : {S A : Type 0} (P : S → Type 0) (r : Outcome A) → Preserves P (lift r)
lift-Preserves P r s p = p

pub if-Preserves :
    {S A : Type 0} (P : S → Type 0) (b : Bool) (m k : Action S A)
    → Preserves P m
    → Preserves P k
    → Preserves P (if b then m else k)
if-Preserves P true m k hm hk = hm
if-Preserves P false m k hm hk = hk

module _ {S A B : Type 0} where
  bind_result :
      (f : A → Action S B) (r : Outcome A) (t : S)
      → ((e : Error) × (r ≡ raised e)
          × (elim r as (λ _. Outcome B × S) [ ok a ↦ f a t | raised e ↦ (raised e, t) ]
              ≡ (raised e, t)))
        ⊎ ((a : A) × (r ≡ ok a)
            × (elim r as (λ _. Outcome B × S) [ ok a ↦ f a t | raised e ↦ (raised e, t) ] ≡ f a t))
  bind_result f (ok a) t = inr (a, refl, refl)
  bind_result f (raised e) t = inl (e, refl, refl)

  -- the two ways of a call that is followed by another
  pub bind_cases :
      (m : Action S A) (f : A → Action S B) (s : S)
      → ((e : Error) × ((m s).0 ≡ raised e) × ((m >>= f) s ≡ (raised e, (m s).1)))
        ⊎ ((a : A) × ((m s).0 ≡ ok a) × ((m >>= f) s ≡ f a (m s).1))
  bind_cases m f s = bind_result f (m s).0 (m s).1

pub attempt-Preserves :
    {S A : Type 0} (P : S → Type 0) (m : Action S A) → Preserves P m → Preserves P (attempt m)
attempt-Preserves P m h s p = h s p

-- what concerns the one half of a state keeps what is known of the other
pub on_left-Preserves :
    {S T A : Type 0} (Q : T → Type 0) (m : Action S A) → Preserves (λ p. Q p.1) (on_left m)
on_left-Preserves Q m s q = q

module _ {S A B : Type 0} where
  result_returned :
      (f : A → Action S B) (r : Outcome A) (t : S) {b : B}
      → (elim r as (λ _. Outcome B × S) [ ok a ↦ f a t | raised e ↦ (raised e, t) ]).0 ≡ ok b
      → (a : A) × (r ≡ ok a) × ((f a t).0 ≡ ok b)
  result_returned f (ok a) t h = (a, refl, h)
  result_returned f (raised e) t h = cc

  -- a call and another after it, which returned
  pub bind_returned :
      (m : Action S A) (f : A → Action S B) (s : S) {b : B}
      → ((m >>= f) s).0 ≡ ok b
      → (a : A) × ((m s).0 ≡ ok a) × ((f a (m s).1).0 ≡ ok b)
  bind_returned m f s h = result_returned f (m s).0 (m s).1 h

pub raise_if_returned :
    {S : Type 0} (b : Bool) (e : Error) (s : S) → (raise_if b e s).0 ≡ ok tt → b ≡ false
raise_if_returned true e s h = cc
raise_if_returned false e s h = refl

module _ {S A B : Type 0} where
  result_ok :
      (f : A → Action S B) (r : Outcome A) (t : S) {a : A}
      → r ≡ ok a
      → elim r as (λ _. Outcome B × S) [ ok b ↦ f b t | raised e ↦ (raised e, t) ] ≡ f a t
  result_ok f (ok b) t h = ground (arith, h)
  result_ok f (raised e) t h = cc

  -- a call that returns, and then another
  pub bind_ok :
      (m : Action S A) (f : A → Action S B) (s : S) {a : A}
      → (m s).0 ≡ ok a
      → (m >>= f) s ≡ f a (m s).1
  bind_ok m f s h = result_ok f (m s).0 (m s).1 h

module _ {S A B : Type 0} where
  result_raised :
      (f : A → Action S B) (r : Outcome A) (t : S) {e : Error}
      → r ≡ raised e
      → elim r as (λ _. Outcome B × S) [ ok b ↦ f b t | raised e ↦ (raised e, t) ] ≡ (raised e, t)
  result_raised f (ok b) t h = cc
  result_raised f (raised e) t h = ground (arith, h)

  -- a call that raises ends what comes after it
  pub bind_raised :
      (m : Action S A) (f : A → Action S B) (s : S) {e : Error}
      → (m s).0 ≡ raised e
      → (m >>= f) s ≡ (raised e, (m s).1)
  bind_raised m f s h = result_raised f (m s).0 (m s).1 h
