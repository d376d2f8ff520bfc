-- ===== src/Backtest/Dict.antt =====
-- Python's `dict` from tickets, in the order of insertion.
use mt5_mcp_trading_framewor.Common.{
  ℕ, suc, ◌<◌, ◌≡◌, refl, Bool, true, false, Option, none, some, List, [], ◌∷◌, ◌==◌, if◌then◌else◌,
  arith,
}

abbrev pub Dict : Type 0 → Type 0
Dict V = List (ℕ × V)

module _ {V : Type 0} where
  abbrev pub get : ℕ → Dict V → Option V
  get k [] = none
  get k ((k', v) ∷ d) = if k == k' then some v else get k d

  abbrev pub has : ℕ → Dict V → Bool
  has k [] = false
  has k ((k', v) ∷ d) = if k == k' then true else has k d

  -- `d[k] = v`
  abbrev pub set : ℕ → V → Dict V → Dict V
  set k v [] = (k, v) ∷ []
  set k v ((k', w) ∷ d) = if k == k' then (k, v) ∷ d else (k', w) ∷ set k v d

  -- the dictionary that `pop(k)` leaves
  abbrev pub without : ℕ → Dict V → Dict V
  without k [] = []
  without k ((k', v) ∷ d) = if k == k' then without k d else (k', v) ∷ without k d

  -- `d.values()`
  abbrev pub values : Dict V → List V
  values [] = []
  values ((k, v) ∷ d) = v ∷ values d

  -- every key is below `n`
  abbrev pub IsBelow : ℕ → Dict V → Type 0
  IsBelow n [] = Unit
  IsBelow n ((k, v) ∷ d) = (k < n) × IsBelow n d

  pub has-set :
      (j k : ℕ) (v : V) (d : Dict V) → has j (set k v d) ≡ (if j == k then true else has j d)
  has-set j k v [] = ground arith
  has-set j k v ((k', w) ∷ d) = ground (arith, has-set j k v d)

  pub get-set :
      (j k : ℕ) (v : V) (d : Dict V) → get j (set k v d) ≡ (if j == k then some v else get j d)
  get-set j k v [] = ground arith
  get-set j k v ((k', w) ∷ d) = ground (arith, get-set j k v d)

  pub has-without :
      (j k : ℕ) (d : Dict V) → has j (without k d) ≡ (if j == k then false else has j d)
  has-without j k [] = ground arith
  has-without j k ((k', w) ∷ d) = ground (arith, has-without j k d)

  pub get-without :
      (j k : ℕ) (d : Dict V) → get j (without k d) ≡ (if j == k then none else get j d)
  get-without j k [] = ground arith
  get-without j k ((k', w) ∷ d) = ground (arith, get-without j k d)

  pub has-below : (n : ℕ) (d : Dict V) → IsBelow n d → has n d ≡ false
  has-below n [] h = refl
  has-below n ((k, v) ∷ d) h = ground (arith, h.0, has-below n d h.1)

  pub IsBelow-set : (n k : ℕ) (v : V) (d : Dict V) → k < n → IsBelow n d → IsBelow n (set k v d)
  IsBelow-set n k v [] h b = (h, tt)
  IsBelow-set n k v ((k', w) ∷ d) h b = ground (arith, b.0, b.1, IsBelow-set n k v d h b.1)

  pub IsBelow-without : (n k : ℕ) (d : Dict V) → IsBelow n d → IsBelow n (without k d)
  IsBelow-without n k [] b = tt
  IsBelow-without n k ((k', w) ∷ d) b = ground (arith, b.0, b.1, IsBelow-without n k d b.1)

  pub IsBelow-suc : (n : ℕ) (d : Dict V) → IsBelow n d → IsBelow (suc n) d
  IsBelow-suc n [] b = tt
  IsBelow-suc n ((k, w) ∷ d) b = (omega (arith, b.0), IsBelow-suc n d b.1)

  pub below-has : (n k : ℕ) (d : Dict V) → IsBelow n d → has k d ≡ true → k < n
  below-has n k [] b h = cc
  below-has n k ((k', w) ∷ d) b h = ground (arith, b.0, b.1, below-has n k d b.1)

  pub get-has : (k : ℕ) (d : Dict V) {v : V} → get k d ≡ some v → has k d ≡ true
  get-has k [] e = cc
  get-has k ((k', w) ∷ d) {v} e = ground (arith, e, get-has k d {v = v})
