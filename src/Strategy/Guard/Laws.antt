-- ===== src/Strategy/Guard/Laws.antt =====
-- Proofs about strategy/guard.py: repeated evaluations, and the deadline.
use mt5_mcp_trading_framewor.Common.{
  ℕ, Bool, suc, zero, ◌+◌, ◌-◌, ◌≡◌, refl, true, false, ◌&&◌, Option, none, some, List, [], ◌∷◌,
  ◌++◌, arith, ltb, length, get_elem?, ◌⊎◌, ◌≢◌, sym, subst₂, inl, inr, Bool-cases, ap,
}
use mt5_mcp_trading_framewor.Common.Outcome.{ok, >>=-eq-ok}
use mt5_mcp_trading_framewor.Float.{Float, IsOrdered, ◌≼◌, ◌≺◌}
use mt5_mcp_trading_framewor.Features.{ema}
use mt5_mcp_trading_framewor.Domain.{
  Time, MarketBar, PositionState, GuardState, GuardAction, no_action, partial_close, flatten, buy,
  sell,
}
use mt5_mcp_trading_framewor.Strategy.Guard.{
  GuardConfig, has_side, guard_decision, seen, long_trigger, short_trigger, evaluate_at,
  evaluate_guard,
}

-- a list of as many copies of "nothing to do" as the list is long
abbrev pub no_actions : {A F : Type 0} → List A → List (GuardAction F)
no_actions [] = []
no_actions (x ∷ xs) = no_action ∷ no_actions xs

both_true : (a b : Bool) → a && b ≡ true → (a ≡ true) × (b ≡ true)
both_true true true h = (refl, refl)
both_true true false h = cc
both_true false b h = cc

not_both : (a b : Bool) → a && b ≡ false → ¬ ((a ≡ true) × (b ≡ true))
not_both true true h both = cc
not_both true false h (p, q) = cc
not_both false b h (p, q) = cc

module _ {F : Type 0} ⦃f : Float F⦄ where
  evaluate_at_again :
      (bar : Option (MarketBar F)) (closes : List F) (ps qs : List (PositionState F)) (m n : ℕ)
      (s s' : GuardState) (config : GuardConfig F) {a : GuardAction F}
      → evaluate_at bar closes ps m s config ≡ ok (s', a)
      → evaluate_at bar closes qs n s' config ≡ ok (s', no_action)
  unfolding evaluate_at
  evaluate_at_again none closes ps qs m n s s' config e = cc
  evaluate_at_again (some bar) closes ps qs m n s s' config e =
      elim (Bool-cases (seen s.last_evaluated_bar_time bar.time)) [
        | inl old ↦ ground arith
        | inr fresh ↦
            let (v, _, e') = >>=-eq-ok (ema closes config.ema_long) _ (rw fresh at e) in
            ground (arith, e')
      ]

  -- A second evaluation on the same bars, from the state that the first one returned, does nothing
  -- and leaves the state as it is, whatever the positions are by then.
  pub evaluate_guard_again :
      (bars : List (MarketBar F)) (ps qs : List (PositionState F)) (m n : ℕ) (s s' : GuardState)
      (config : GuardConfig F) {a : GuardAction F}
      → evaluate_guard bars ps m s config ≡ ok (s', a)
      → evaluate_guard bars qs n s' config ≡ ok (s', no_action)
  unfolding evaluate_guard
  evaluate_guard_again bars ps qs m n s s' config e =
      elim (Bool-cases (ltb (length bars) (config.ema_long + 5))) [
        | inl short ↦ ground arith
        | inr enough ↦ rw enough (
            evaluate_at_again (get_elem? bars (length bars - 2)) _ ps qs m n s s' config
              (rw enough at e))
      ]

  -- the whole of the bar is below the average while a long position of the magic is open, and the whole
  -- of it is above the average while a short one is
  abbrev pub LongHit : List (PositionState F) → ℕ → MarketBar F → F → Type 0
  LongHit ps m bar v = (has_side ps m buy ≡ true) × (bar.high ≺ v)

  abbrev pub ShortHit : List (PositionState F) → ℕ → MarketBar F → F → Type 0
  ShortHit ps m bar v = (has_side ps m sell ≡ true) × (v ≺ bar.low)

  -- what one evaluation of a new bar with the average `v` has to do to the deadline, for each action
  abbrev pub Explains :
      List (PositionState F) → ℕ → GuardConfig F → MarketBar F → F → ℕ → ℕ → GuardAction F → Type 0
  Explains ps m config bar v before after (partial_close ratio) =
      (after ≡ config.deadline_bars)
      × ((LongHit ps m bar v × (ratio ≡ config.partial_ratio_long))
          ⊎ ((¬ LongHit ps m bar v) × (ShortHit ps m bar v × (ratio ≡ config.partial_ratio_short))))
  Explains ps m config bar v before after flatten =
      (¬ LongHit ps m bar v) × (¬ ShortHit ps m bar v) × (before ≡ 1) × (after ≡ 0)
  Explains ps m config bar v before after no_action =
      (¬ LongHit ps m bar v) × (¬ ShortHit ps m bar v) × (before ≢ 1) × (after ≡ before - 1)

  guard_decision_quiet :
      (config : GuardConfig F) (n : ℕ)
      → guard_decision false false (suc (suc n)) config ≡ (suc n, no_action)
  unfolding guard_decision
  guard_decision_quiet config n = ground arith

  decision_explained :
      (ps : List (PositionState F)) (m : ℕ) (config : GuardConfig F) (bar : MarketBar F) (v : F)
      (long short : Bool) (before : ℕ)
      → long_trigger ps m bar v ≡ long
      → short_trigger ps m bar v ≡ short
      → let d = guard_decision long short before config in Explains ps m config bar v before d.0 d.1
  unfolding guard_decision
  decision_explained ps m config bar v true short before hl hs =
      (refl, inl (both_true (has_side ps m buy) _ hl, refl))
  decision_explained ps m config bar v false true before hl hs =
      (refl, inr (not_both (has_side ps m buy) _ hl, (both_true (has_side ps m sell) _ hs, refl)))
  decision_explained ps m config bar v false false zero hl hs =
      (not_both (has_side ps m buy) _ hl, not_both (has_side ps m sell) _ hs, (λ h. cc), refl)
  decision_explained ps m config bar v false false (suc zero) hl hs =
      (not_both (has_side ps m buy) _ hl, not_both (has_side ps m sell) _ hs, refl, refl)
  decision_explained ps m config bar v false false (suc (suc k)) hl hs =
      rw (guard_decision_quiet config k) (
        not_both (has_side ps m buy) _ hl,
        not_both (has_side ps m sell) _ hs,
        (λ h. cc),
        omega arith,
      )

  -- An evaluation of a bar that was not seen before, if it returns, is stamped with the bar's time, and
  -- with the EMA of the closes as average: a partial close of the long ratio happens when a long
  -- position of the magic is open and the bar's high is below the average; one of the short ratio when
  -- that is not so, a short position is open and the bar's low is above the average; either restarts
  -- the deadline. Otherwise neither of these holds, and then flattening is a deadline of 1 that runs
  -- out; and where nothing is done the deadline was not 1, and has gone down by one or stays at zero.
  pub evaluate_at_explained :
      (bar : MarketBar F) (closes : List F) (ps : List (PositionState F)) (m : ℕ)
      (s s' : GuardState) (config : GuardConfig F) (a : GuardAction F)
      → seen s.last_evaluated_bar_time bar.time ≡ false
      → evaluate_at (some bar) closes ps m s config ≡ ok (s', a)
      → (v : F) × (ema closes config.ema_long ≡ ok v)
        × (s'.last_evaluated_bar_time ≡ some bar.time)
        × Explains ps m config bar v s.deadline_bars_remaining s'.deadline_bars_remaining a
  unfolding evaluate_at
  evaluate_at_explained bar closes ps m s s' config a fresh e =
      let (v, average, e') = >>=-eq-ok (ema closes config.ema_long) _ (rw fresh at e) in
      let d =
        guard_decision (long_trigger ps m bar v) (short_trigger ps m bar v)
          s.deadline_bars_remaining config in
      let why =
        decision_explained ps m config bar v (long_trigger ps m bar v) (short_trigger ps m bar v)
          s.deadline_bars_remaining refl refl in
      let e₁ : d.0 ≡ s'.deadline_bars_remaining = cc e' in
      let e₂ : d.1 ≡ a = cc e' in
      let e₃ : some bar.time ≡ s'.last_evaluated_bar_time = cc e' in
      (
        v,
        average,
        sym e₃,
        subst₂ (λ n x. Explains ps m config bar v s.deadline_bars_remaining n x) e₁ e₂ why,
      )

  -- On a bar whose high is not below its low the two triggers exclude one another.
  pub triggers_exclusive :
      (ord : IsOrdered F) (ps : List (PositionState F)) (m : ℕ) (bar : MarketBar F) (v : F)
      → bar.low ≼ bar.high
      → long_trigger ps m bar v && short_trigger ps m bar v ≡ false
  triggers_exclusive ord ps m bar v h = ground (
    arith,
    ord.lt-eq-not-le bar.high v,
    ord.lt-eq-not-le v bar.low,
    ord.le_total v bar.high,
    ord.le_total v bar.low,
    ord.le_trans v bar.low bar.high,
  )

  -- the guard at successive new bars at which neither trigger holds
  pub quiet_actions : GuardConfig F → ℕ → List Time → List (GuardAction F)
  quiet_actions config deadline [] = []
  quiet_actions config deadline (t ∷ ts) =
      let (deadline', action) = guard_decision false false deadline config in
      action ∷ quiet_actions config deadline' ts

  quiet_actions-zero :
      (config : GuardConfig F) (ts : List Time) → quiet_actions config 0 ts ≡ no_actions ts
  unfolding quiet_actions guard_decision
  quiet_actions-zero config [] = refl
  quiet_actions-zero config (t ∷ ts) = ap (◌∷◌ no_action) (quiet_actions-zero config ts)

  guard_decision_last :
      (config : GuardConfig F) → guard_decision false false 1 config ≡ (0, flatten)
  unfolding guard_decision
  guard_decision_last config = refl

  -- A deadline of n bars flattens at the n-th new bar without a trigger, once, and neither before nor
  -- after it.
  pub deadline_counts_bars :
      (config : GuardConfig F) (before : List Time) (t : Time) (after : List Time)
      → quiet_actions config (suc (length before)) (before ++ t ∷ after)
        ≡ no_actions before ++ flatten ∷ no_actions after
  unfolding quiet_actions
  deadline_counts_bars config [] t after =
      rw (guard_decision_last config) (ap (◌∷◌ flatten) (quiet_actions-zero config after))
  deadline_counts_bars config (b ∷ before) t after =
      rw (guard_decision_quiet config (length before))
        (ap (◌∷◌ no_action) (deadline_counts_bars config before t after))
