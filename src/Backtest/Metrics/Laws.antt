-- ===== src/Backtest/Metrics/Laws.antt =====
-- Proofs about backtest/metrics.py: the drawdown.
use mt5_mcp_trading_framewor.Common.{◌≡◌, refl, List, [], ◌∷◌, ◌++◌, subst, sym, ap}
use mt5_mcp_trading_framewor.Common.Outcome.{ok}
use mt5_mcp_trading_framewor.Float.{
  Float, IsOrdered, IsArith, ◌⊕◌, ◌⊖◌, ◌≼◌, nought, max, le-max_left, le-max_right,
}
use mt5_mcp_trading_framewor.Backtest.Ledger.{ClosedTrade}
use mt5_mcp_trading_framewor.Backtest.Metrics.{
  unless_empty, multiples, drawdown_loop, max_drawdown_r,
}

module _ {F : Type 0} ⦃f : Float F⦄ where
  -- where the cumulative curve is after these R multiples, from `c`
  abbrev pub reached : F → List F → F
  reached c [] = c
  reached c (r ∷ rs) = reached (c ⊕ r) rs

multiples-append :
    {F : Type 0} (before after : List (ClosedTrade F))
    → multiples (before ++ after) ≡ multiples before ++ multiples after
multiples-append [] after = refl
multiples-append (t ∷ before) after = ap (◌∷◌ t.r_multiple) (multiples-append before after)

unless_empty-eq-ok :
    {A B : Type 0} (xs : List A) {figure result : B}
    → unless_empty xs figure ≡ ok result
    → figure ≡ result
unless_empty-eq-ok [] e = cc
unless_empty-eq-ok (x ∷ xs) e = cc

module _ {F : Type 0} ⦃f : Float F⦄ (ord : IsOrdered F) (ar : IsArith F) where
  decline_after :
      (q c p d : F) (rs : List F) → q ≼ p → q ⊖ c ≼ d → q ⊖ reached c rs ≼ drawdown_loop c p d rs
  unfolding drawdown_loop
  decline_after q c p d [] h k = k
  decline_after q c p d (r ∷ rs) h k =
      let c' = c ⊕ r in
      let p' = max p c' in
      let up : q ≼ p' = ord.le_trans q p p' h (le-max_left ord p c') in
      decline_after q c' p' (max d (p' ⊖ c')) rs up (
        ord.le_trans (q ⊖ c') (p' ⊖ c') (max d (p' ⊖ c'))
          (ar.sub_mono q p' c' c' up (ord.le_refl c')) (le-max_right ord d (p' ⊖ c')))

  decline_between :
      (c p d : F) (rs ss : List F)
      → c ≼ p
      → nought ≼ d
      → reached c rs ⊖ reached c (rs ++ ss) ≼ drawdown_loop c p d (rs ++ ss)
  unfolding drawdown_loop
  decline_between c p d [] ss h k =
      decline_after c c p d ss h (subst (λ x. x ≼ d) (sym (ar.sub_self c)) k)
  decline_between c p d (r ∷ rs) ss h k =
      let c' = c ⊕ r in
      let p' = max p c' in
      decline_between c' p' (max d (p' ⊖ c')) rs ss (le-max_right ord p c')
        (ord.le_trans nought d (max d (p' ⊖ c')) k (le-max_left ord d (p' ⊖ c')))

  -- No decline of the cumulative curve, from the end of any part of the trades to the end of any
  -- longer part that they begin with, is larger than the drawdown of the longer part.
  pub max_drawdown_r_lem :
      (before after : List (ClosedTrade F)) {drawdown : F}
      → max_drawdown_r (before ++ after) ≡ ok drawdown
      → reached nought (multiples before) ⊖ reached nought (multiples (before ++ after)) ≼ drawdown
  unfolding max_drawdown_r
  max_drawdown_r_lem before after {drawdown} e =
      subst
        (λ x. reached nought (multiples before) ⊖ reached nought (multiples (before ++ after)) ≼ x)
        (unless_empty-eq-ok (before ++ after)
          {figure = drawdown_loop nought nought nought (multiples (before ++ after))}
          {result = drawdown} e)
        (subst
          (λ rs.
            reached nought (multiples before) ⊖ reached nought rs
            ≼ drawdown_loop nought nought nought rs)
          (sym (multiples-append before after))
          (decline_between nought nought nought (multiples before) (multiples after)
            (ord.le_refl nought) (ord.le_refl nought)))
