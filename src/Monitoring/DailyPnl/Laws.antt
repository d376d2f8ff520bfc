-- ===== src/Monitoring/DailyPnl/Laws.antt =====
-- Proofs about monitoring/live_performance.py: which deals the daily decision counts.
use mt5_mcp_trading_framewor.Common.{
  ℕ, ◌+◌, ◌≡◌, refl, ap, List, [], ◌∷◌, map, if◌then◌else◌, leb, arith, Bool-cases, inl, inr,
}
use mt5_mcp_trading_framewor.Common.Int.{pos}
use mt5_mcp_trading_framewor.Common.Clock.{minus_delta}
use mt5_mcp_trading_framewor.Common.Outcome.{Outcome, ok, raised, ◌>>=◌}
use mt5_mcp_trading_framewor.Float.{Float}
use mt5_mcp_trading_framewor.Domain.{Time, Deal}
use mt5_mcp_trading_framewor.Risk.{Datetime, naive, aware, DailyLossLimitConfig}
use mt5_mcp_trading_framewor.State.Reconcile.{mem}
use mt5_mcp_trading_framewor.Monitoring.Trades.{net}
use mt5_mcp_trading_framewor.Monitoring.DailyPnl.{
  counted, realized_pnl_since, compute_daily_loss_decision,
}

minus_delta_later : (t k : ℕ) → minus_delta (t + k) (pos k) ≡ minus_delta t (pos 0)
unfolding minus_delta
minus_delta_later t k = ground arith

-- the outcome of a list, for each item of which something is done
abbrev on_each : {A : Type 0} → (A → A) → Outcome (List A) → Outcome (List A)
on_each g (ok xs) = ok (map g xs)
on_each g (raised e) = raised e

module _ {F : Type 0} where
  -- the same deal, by a clock that runs `k` ahead
  abbrev pub ahead : ℕ → Deal F → Deal F
  ahead k d = record d { time = d.time + k }

  counted-ahead :
      (deals : List (Deal F)) (since : Time) (trusted : List ℕ) (k : ℕ)
      → counted (map (ahead k) deals) since trusted (pos k)
        ≡ on_each (ahead k) (counted deals since trusted (pos 0))
  unfolding counted
  counted-ahead [] since trusted k = refl
  counted-ahead (d ∷ ds) since trusted k = elim (Bool-cases (mem d.position_id trusted)) [
    | inr other ↦ rw other (counted-ahead ds since trusted k)
    | inl own ↦
        rw (own, minus_delta_later d.time k, counted-ahead ds since trusted k)
          (step (minus_delta d.time (pos 0)) (counted ds since trusted (pos 0)))
  ]
    where
      step :
          (c : Outcome Time) (rest : Outcome (List (Deal F)))
          → (c >>= λ corrected. on_each (ahead k) rest >>= λ later.
              ok (if leb since corrected then ahead k d ∷ later else later))
            ≡ on_each (ahead k) (
                c >>= λ corrected.
                rest >>= λ later. ok (if leb since corrected then d ∷ later else later))
      step (raised e) rest = refl
      step (ok c) (raised e) = refl
      step (ok c) (ok later) = ground arith

module _ {F : Type 0} ⦃f : Float F⦄ where
  map-net-ahead :
      (k : ℕ) (ds : List (Deal F)) → map (λ d. net d) (map (ahead k) ds) ≡ map (λ d. net d) ds
  map-net-ahead k [] = refl
  map-net-ahead k (d ∷ ds) = ap (◌∷◌ (net d)) (map-net-ahead k ds)

  sum_ahead :
      (k : ℕ) (c : Outcome (List (Deal F)))
      → (on_each (ahead k) c >>= λ ds. ok (f.sum (map (λ d. net d) ds)))
        ≡ (c >>= λ ds. ok (f.sum (map (λ d. net d) ds)))
  sum_ahead k (raised e) = refl
  sum_ahead k (ok ds) = ap (λ xs. ok (f.sum xs)) (map-net-ahead k ds)

  realized_pnl_since-ahead :
      (deals : List (Deal F)) (since : Datetime) (trusted : List ℕ) (k : ℕ)
      → realized_pnl_since (map (ahead k) deals) since trusted (pos k)
        ≡ realized_pnl_since deals since trusted (pos 0)
  unfolding realized_pnl_since
  realized_pnl_since-ahead deals (naive t) trusted k = refl
  realized_pnl_since-ahead deals (aware since) trusted k =
      rw (counted-ahead deals since trusted k) (sum_ahead k (counted deals since trusted (pos 0)))

  -- The offset makes up for the server's clock: whatever the deals, the tickets and the limit are, deals
  -- whose times run `k` ahead give with the offset `k` the decision, or the exception, that the deals
  -- with their true times give without an offset.
  pub compute_daily_loss_decision-ahead :
      (deals : List (Deal F)) (trusted : List ℕ) (now : Datetime) (config : DailyLossLimitConfig F)
      (k : ℕ)
      → compute_daily_loss_decision (map (ahead k) deals) trusted now config (pos k)
        ≡ compute_daily_loss_decision deals trusted now config (pos 0)
  unfolding compute_daily_loss_decision
  compute_daily_loss_decision-ahead deals trusted now config k =
      simp (realized_pnl_since-ahead) refl
