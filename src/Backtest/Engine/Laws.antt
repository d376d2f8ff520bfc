-- ===== src/Backtest/Engine/Laws.antt =====
-- Proofs about backtest/engine.py: how the loop of `run_backtest` depends on the bars.
use mt5_mcp_trading_framewor.Common.{
  ℕ, zero, suc, ◌+◌, ◌-◌, ◌≤◌, ◌<◌, ◌≡◌, refl, sym, ap, ◌∙◌, List, ◌++◌, length, arith,
  length-append,
}
use mt5_mcp_trading_framewor.Common.Outcome.{Outcome, ok, raised}
use mt5_mcp_trading_framewor.Common.Action.{Action, ◌>>◌}
use mt5_mcp_trading_framewor.Float.{Float}
use mt5_mcp_trading_framewor.Domain.{MarketBar}
use mt5_mcp_trading_framewor.Backtest.Ledger.{BacktestLedger, new_ledger}
use mt5_mcp_trading_framewor.Backtest.Replay.{view, view_prefix}
use mt5_mcp_trading_framewor.Backtest.Engine.{BacktestSettings, bar_step, replay, run_backtest}

module _ {S B : Type 0} where
  -- what follows a call that ended in `r`
  abbrev follow : Outcome (Unit {0}) → Action S B → Action S B
  follow r k t = elim r [ ok a ↦ k t | raised x ↦ (raised x, t) ]

  follow-ap :
      (r : Outcome (Unit {0})) (h k : Action S B) (t : S) → h t ≡ k t → follow r h t ≡ follow r k t
  follow-ap (ok a) h k t e = e
  follow-ap (raised x) h k t e = refl

module _ {S B : Type 0} where
  follow_assoc :
      (r : Outcome (Unit {0})) (n : Action S (Unit {0})) (k : Action S B) (t : S)
      → follow r (n >> k) t ≡ follow (follow r n t).0 k (follow r n t).1
  follow_assoc (ok a) n k t = refl
  follow_assoc (raised x) n k t = refl

module _ {F : Type 0} ⦃f : Float F⦄ where
  replay-ap :
      (bars : List (MarketBar F)) (c : BacktestSettings F) (l : BacktestLedger F) {n n' k k' : ℕ}
      → n ≡ n'
      → k ≡ k'
      → replay bars c n k l ≡ replay bars c n' k' l
  replay-ap bars c l p q i = replay bars c (p i) (q i) l

  -- one round is the same on more bars
  bar_step_prefix :
      (bars later : List (MarketBar F)) (c : BacktestSettings F) (k : ℕ)
      → c.start + k < length bars
      → bar_step c k (view (record { bars = bars ++ later; index = c.start + k }))
        ≡ bar_step c k (view (record { bars = bars; index = c.start + k }))
  bar_step_prefix bars later c k h = ap (bar_step c k) (view_prefix bars later (c.start + k) h)

  -- rounds that stay within the bars see nothing of what follows the bars
  replay_prefix :
      (bars later : List (MarketBar F)) (c : BacktestSettings F) (n m k : ℕ) (l : BacktestLedger F)
      → c.start + k + n ≤ length bars
      → replay (bars ++ later) c (n + m) k l
        ≡ (replay bars c n k >> replay (bars ++ later) c m (k + n)) l
  unfolding replay
  replay_prefix bars later c zero m k l h =
      replay-ap (bars ++ later) c l (omega arith) (omega arith)
  replay_prefix bars later c (suc n) m k l h =
      let all = bars ++ later in
      let step = bar_step c k (view (record { bars = bars; index = c.start + k })) in
      let after = step l in
      replay-ap all c l {n = suc n + m} {n' = suc (n + m)} {k = k} (omega arith) refl
      ∙ ap (λ s. (s >> replay all c (n + m) (suc k)) l)
          (bar_step_prefix bars later c k (omega (arith, h)))
      ∙ follow-ap after.0 (replay all c (n + m) (suc k))
          (replay bars c n (suc k) >> replay all c m (suc k + n)) after.1
          (replay_prefix bars later c n m (suc k) after.1 (omega (arith, h)))
      ∙ follow_assoc after.0 (replay bars c n (suc k)) (replay all c m (suc k + n)) after.1
      ∙ ap (λ j. (replay bars c (suc n) k >> replay all c m j) l) (omega arith)

  run_backtest-enough :
      (bars : List (MarketBar F)) (c : BacktestSettings F)
      → c.start < length bars
      → 0 < c.cycle_interval_bars
      → run_backtest bars c ≡ replay bars c (length bars - c.start) 0 new_ledger
  unfolding run_backtest
  run_backtest-enough bars c h i = ground arith

  -- With at least `bars_count` bars and an interval of at least one, a replay of more bars begins with
  -- the replay of the earlier ones: what follows a history has no influence on what was done in it, on
  -- its orders, fills and exits or on whether it raised.
  pub run_backtest_prefix :
      (bars later : List (MarketBar F)) (c : BacktestSettings F)
      → c.start < length bars
      → 0 < c.cycle_interval_bars
      → run_backtest (bars ++ later) c
        ≡ ((λ _. run_backtest bars c)
              >> replay (bars ++ later) c (length later) (length bars - c.start))
            new_ledger
  run_backtest_prefix bars later c h i =
      let all = bars ++ later in
      let rounds = length bars - c.start in
      run_backtest-enough all c (omega (arith, h, length-append bars later)) i
      ∙ replay-ap all c new_ledger {n' = rounds + length later} {k = 0}
          (omega (arith, h, length-append bars later)) refl
      ∙ replay_prefix bars later c rounds (length later) 0 new_ledger (omega (arith, h))
      ∙ ap (λ j. (replay bars c rounds 0 >> replay all c (length later) j) new_ledger) (omega arith)
      ∙ ap (λ r. ((λ _. r) >> replay all c (length later) rounds) new_ledger)
          (sym (run_backtest-enough bars c h i))
