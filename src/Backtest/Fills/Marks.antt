-- ===== src/Backtest/Fills/Marks.antt =====
-- Proofs about `check_fills_and_exits` of backtest/engine.py: which positions its first loop opens.
use mt5_mcp_trading_framewor.Common.{
  ◌⊎◌, ap, ◌∙◌, ℕ, ◌≡◌, refl, true, false, List, [], ◌∷◌, ◌==◌, arith, Bool-cases, inl, inr, sym,
  subst,
}
use mt5_mcp_trading_framewor.Common.Outcome.{Outcome, ok, raised, key_error}
use mt5_mcp_trading_framewor.Common.Action.{bind_ok, bind_raised, ◌>>=◌}
use mt5_mcp_trading_framewor.Float.{Float}
use mt5_mcp_trading_framewor.Domain.{MarketBar}
use mt5_mcp_trading_framewor.State.Reconcile.{mem}
use mt5_mcp_trading_framewor.Backtest.Dict.{Dict, get, set, get-set}
use mt5_mcp_trading_framewor.Backtest.Ledger.{
  BacktestLedger, OpenPosition, PendingOrder, fill_pending_order, position_of,
}
use mt5_mcp_trading_framewor.Backtest.Ledger.Laws.{fill_pending_order_lem}
use mt5_mcp_trading_framewor.Backtest.Fills.{crosses, fill_all}

module _ {F : Type 0} ⦃f : Float F⦄ where
  -- the list that a run of the first loop returns names the ticket
  Names : ℕ → Outcome (List ℕ) × BacktestLedger F → Type 0
  Names k (raised e, l) = Unit
  Names k (ok just_filled, l) = mem k just_filled ≡ true

  -- a run of the first loop from `l` names the ticket, or leaves its position as it was
  unfoldable pub Marks : ℕ → BacktestLedger F → Outcome (List ℕ) × BacktestLedger F → Type 0
  Marks k l (raised e, l') = Unit
  Marks k l (ok just_filled, l') =
      (mem k just_filled ≡ true) ⊎ (get k l'.open_positions ≡ get k l.open_positions)

  Names-Marks :
      (k : ℕ) (l : BacktestLedger F) (end : Outcome (List ℕ) × BacktestLedger F)
      → Names k end
      → Marks k l end
  unfolding Names Marks
  Names-Marks k l (raised e, l') h = tt
  Names-Marks k l (ok just_filled, l') h = inl h

  Marks-same :
      (k : ℕ) (l l' : BacktestLedger F) (end : Outcome (List ℕ) × BacktestLedger F)
      → get k l'.open_positions ≡ get k l.open_positions
      → Marks k l' end
      → Marks k l end
  unfolding Marks
  Marks-same k l l' (raised e, l'') same h = tt
  Marks-same k l l' (ok just_filled, l'') same (inl named) = inl named
  Marks-same k l l' (ok just_filled, l'') same (inr kept) = inr (kept ∙ same)

  fill_cross :
      (bar : MarketBar F) (ticket : ℕ) (order : PendingOrder F) (rest : Dict (PendingOrder F))
      (acc : List ℕ) (l : BacktestLedger F)
      → crosses bar order ≡ true
      → fill_all bar ((ticket, order) ∷ rest) acc l
        ≡ (fill_pending_order ticket bar.time >>= λ _. fill_all bar rest (ticket ∷ acc)) l
  unfolding fill_all
  fill_cross bar ticket order rest acc l e = rw (e, fill_all) refl

  -- an order that crosses the bar fills, or its filling ends the loop
  fill_step :
      (bar : MarketBar F) (ticket : ℕ) (order : PendingOrder F) (rest : Dict (PendingOrder F))
      (acc : List ℕ) (l : BacktestLedger F)
      → crosses bar order ≡ true
      → (fill_all bar ((ticket, order) ∷ rest) acc l ≡ (raised key_error, l))
        ⊎ ((position : OpenPosition F) × (l' : BacktestLedger F) × (l'.open_positions
              ≡ set ticket position l.open_positions)
            × (fill_all bar ((ticket, order) ∷ rest) acc l ≡ fill_all bar rest (ticket ∷ acc) l'))
  fill_step bar ticket order rest acc l e =
      let go_on = λ (t : ℕ). fill_all bar rest (ticket ∷ acc) in
      let fill = fill_pending_order ticket bar.time in
      let crossed = fill_cross bar ticket order rest acc l e in
      elim (fill_pending_order_lem ticket bar.time l) [
        | inl (missing, ends) ↦ inl (
            crossed
            ∙ bind_raised fill go_on l (ap (λ r. r.0) ends)
            ∙ ap (λ r. (raised key_error, r.1)) ends)
        | inr (found, at, ends) ↦ inr (
          record (position_of found bar.time) { ticket = ticket },
          (fill l).1,
          ap (λ r. r.1.open_positions) ends,
          crossed ∙ bind_ok fill go_on l (ap (λ r. r.0) ends),
        )
      ]

  fill_skip :
      (bar : MarketBar F) (ticket : ℕ) (order : PendingOrder F) (rest : Dict (PendingOrder F))
      (acc : List ℕ) (l : BacktestLedger F)
      → crosses bar order ≡ false
      → fill_all bar ((ticket, order) ∷ rest) acc l ≡ fill_all bar rest acc l
  unfolding fill_all
  fill_skip bar ticket order rest acc l e = rw (e, fill_all) refl

  fill_all-Names :
      (bar : MarketBar F) (orders : Dict (PendingOrder F)) (acc : List ℕ) (k : ℕ)
      (l : BacktestLedger F)
      → mem k acc ≡ true
      → Names k (fill_all bar orders acc l)
  unfolding fill_all Names
  fill_all-Names bar [] acc k l h = h
  fill_all-Names bar ((ticket, order) ∷ rest) acc k l h = elim (Bool-cases (crosses bar order)) [
    | inr apart ↦
        subst (Names k) (sym (fill_skip bar ticket order rest acc l apart))
          (fill_all-Names bar rest acc k l h)
    | inl crossed ↦ elim (fill_step bar ticket order rest acc l crossed) [
      | inl ends ↦ subst (Names k) (sym ends) tt
      | inr (position, l', opened, goes_on) ↦
          subst (Names k) (sym goes_on)
            (fill_all-Names bar rest (ticket ∷ acc) k l' (ground (arith, h)))
    ]
  ]

  pub fill_all-Marks :
      (bar : MarketBar F) (orders : Dict (PendingOrder F)) (acc : List ℕ) (k : ℕ)
      (l : BacktestLedger F)
      → Marks k l (fill_all bar orders acc l)
  unfolding fill_all Marks
  fill_all-Marks bar [] acc k l = inr refl
  fill_all-Marks bar ((ticket, order) ∷ rest) acc k l = elim (Bool-cases (crosses bar order)) [
    | inr apart ↦
        subst (Marks k l) (sym (fill_skip bar ticket order rest acc l apart))
          (fill_all-Marks bar rest acc k l)
    | inl crossed ↦ elim (fill_step bar ticket order rest acc l crossed) [
      | inl ends ↦ subst (Marks k l) (sym ends) tt
      | inr (position, l', opened, goes_on) ↦
          subst (Marks k l) (sym goes_on) (elim (Bool-cases (k == ticket)) [
            | inl same ↦
                Names-Marks k l _
                  (fill_all-Names bar rest (ticket ∷ acc) k l' (ground (arith, same)))
            | inr other ↦
                Marks-same k l l' _
                  (ground (arith, other, opened, get-set k ticket position l.open_positions))
                  (fill_all-Marks bar rest (ticket ∷ acc) k l')
          ])
    ]
  ]
