-- ===== src/Features/Laws.antt =====
-- Proofs about features/: valid windows, signs and degenerate settings.
use Prim.Native.Nat.{max as nat_max}
use mt5_mcp_trading_framewor.Common.{
  ℕ, ◌+◌, ◌≤◌, ◌≡◌, refl, List, [], ◌∷◌, map, arith, ltb, ◌==◌, Bool-cases, inl, inr, true, false,
  length, last_slice, last_of, All, All-drop, length-drop, suc, zero, length-map, ◌-◌, ap,
}
use mt5_mcp_trading_framewor.Common.Outcome.{ok}
use mt5_mcp_trading_framewor.Float.{
  Float, IsOrdered, IsArith, ◌⊖◌, ◌⊘◌, ◌≼◌, ◌⊑◌, nought, le-max_right,
}
use mt5_mcp_trading_framewor.Domain.{MarketBar}
use mt5_mcp_trading_framewor.Features.Defs.{
  ema, ema_loop, true_range, true_ranges, true_ranges_from, atr, steps_from, efficiency_of,
  efficiency_ratio, macd,
}

module _ {F : Type 0} ⦃f : Float F⦄ (ord : IsOrdered F) (ar : IsArith F) where
  open ar use {abs_nonneg, sum_nonneg, div_nonneg, sub_self, mul-one, mul-zero, add-zero}

  ema_loop-one :
      (r : F) (vs : List F) (alpha : F) → alpha ≡ f.of_nat 1 → ema_loop alpha r vs ≡ last_of r vs
  unfolding ema_loop
  ema_loop-one r [] alpha h = refl
  ema_loop-one r (v ∷ vs) alpha h =
      rw (h, sub_self, mul-one, mul-zero, add-zero) (ema_loop-one v vs alpha h)

  -- With period 1 the average is the last value.
  pub ema_one : (v : F) (vs : List F) → ema (v ∷ vs) 1 ≡ ok (last_of v vs)
  unfolding ema
  ema_one v vs = ap ok (ema_loop-one v vs _ (rw (ar.one_plus_one) ar.two_div_two))

  true_range_nonneg : (c : F) (b : MarketBar F) → nought ≼ true_range c b
  unfolding true_range
  true_range_nonneg c b = ord.le_trans _ _ _ (abs_nonneg _) (le-max_right ord _ _)

  true_ranges_from_nonneg :
      (c : F) (bars : List (MarketBar F)) → All (λ x. nought ≼ x) (true_ranges_from c bars)
  unfolding true_ranges_from
  true_ranges_from_nonneg c [] = tt
  true_ranges_from_nonneg c (b ∷ bs) = (true_range_nonneg c b, true_ranges_from_nonneg b.close bs)

  true_ranges_nonneg : (bars : List (MarketBar F)) → All (λ x. nought ≼ x) (true_ranges bars)
  unfolding true_ranges
  true_ranges_nonneg [] = tt
  true_ranges_nonneg (b ∷ bs) = true_ranges_from_nonneg b.close (b ∷ bs)

  of_nat_pos_of_ne : (n : ℕ) → (n == 0) ≡ false → f.lt nought (f.of_nat n) ≡ true
  of_nat_pos_of_ne zero h = cc
  of_nat_pos_of_ne (suc n) h = let e : n + 1 ≡ suc n = omega arith in rw e at (ar.of_nat_pos n)

  -- On any bars and any period of at least 1 the average true range exists and is not negative.
  pub atr_nonneg :
      (bars : List (MarketBar F)) (period : ℕ)
      → 1 ≤ period
      → (r : F) × (atr bars period ≡ ok r) × (nought ≼ r)
  unfolding atr
  atr_nonneg bars period h = elim (Bool-cases (period == 0)) [
    | inl z ↦ absurd (ground arith)
    | inr nz ↦ elim (Bool-cases (ltb (length bars) (period + 1))) [
      | inl short ↦ (nought, rw (nz, short), ord.le_refl _)
      | inr enough ↦ (
        f.sum (last_slice period (true_ranges bars)) ⊘ f.of_nat period,
        rw (nz, enough),
        div_nonneg _ _
            (sum_nonneg _
              (All-drop (λ x. nought ≼ x) _ (true_ranges bars) (true_ranges_nonneg bars)))
            (of_nat_pos_of_ne period nz),
      )
    ]
  ]

  steps_from_nonneg : (c : F) (cs : List F) → All (λ x. nought ≼ x) (steps_from c cs)
  unfolding steps_from
  steps_from_nonneg c [] = tt
  steps_from_nonneg c (d ∷ ds) = (abs_nonneg _, steps_from_nonneg d ds)

  efficiency_of_nonneg :
      (cs : List F) → 1 ≤ length cs → (r : F) × (efficiency_of cs ≡ ok r) × (nought ≼ r)
  unfolding efficiency_of
  efficiency_of_nonneg [] h = absurd (omega arith)
  efficiency_of_nonneg (c ∷ cs) h =
      let path_length = f.sum (steps_from c cs) in
      elim (Bool-cases (path_length ⊑ nought)) [
        | inl none_left ↦ (nought, rw none_left, ord.le_refl _)
        | inr some_left ↦ (
          f.abs (last_of c cs ⊖ c) ⊘ path_length,
          rw some_left,
          div_nonneg _ _ (abs_nonneg _) (ground (arith, ord.lt-eq-not-le nought path_length)),
        )
      ]

  -- On any bars and any period of at least 1 the efficiency ratio exists and is not negative: the
  -- window that it indexes from both ends is never empty, and its divisor is positive.
  pub efficiency_ratio_nonneg :
      (bars : List (MarketBar F)) (period : ℕ)
      → 1 ≤ period
      → (r : F) × (efficiency_ratio bars period ≡ ok r) × (nought ≼ r)
  unfolding efficiency_ratio
  efficiency_ratio_nonneg bars period h = elim (Bool-cases (period == 0)) [
    | inl z ↦ absurd (ground arith)
    | inr nz ↦ elim (Bool-cases (ltb (length bars) (period + 1))) [
      | inl short ↦ (nought, rw (nz, short), ord.le_refl _)
      | inr enough ↦
          let window = last_slice (period + 1) bars in
          let (r, e, p) = efficiency_of_nonneg (map (λ b. b.close) window) (
            ground (
              arith,
              length-map (λ (b : MarketBar F). b.close) window,
              length-drop (length bars - (period + 1)) bars,
            )) in
          (r, rw (nz, enough, e), p)
    ]
  ]

  -- With `fast` at or above `slow`, a misconfiguration, both averages coincide and the difference is
  -- exactly zero, for closes of any number.
  pub macd_misconfigured :
      (closes : List F) (fast slow : ℕ) → 1 ≤ slow → slow ≤ fast → macd closes fast slow ≡ ok nought
  unfolding macd ema
  macd_misconfigured closes fast slow h k =
      elim (Bool-cases (ltb (length closes) (nat_max fast slow))) [
        | inl short ↦ rw short
        | inr enough ↦
            let e : ltb fast slow ≡ false = ground arith in
            let z : (slow == 0) ≡ false = ground arith in rw (enough, e, z, sub_self)
      ]
