-- ===== src/Session/Loop/Laws.antt =====
-- Proofs about scripts/run_demo_execution_pipeline_loop.py: that the loop ends, and on what.
use mt5_mcp_trading_framewor.Common.{
  ℕ, zero, suc, ◌+◌, ◌≤◌, ◌<◌, ◌≡◌, refl, Bool, true, false, Option, none, some, [], ◌∷◌,
  if◌then◌else◌, arith, Bool-cases, inl, inr,
}
use mt5_mcp_trading_framewor.Common.Outcome.{Error, raised}
use mt5_mcp_trading_framewor.Float.{Float, ◌⊕◌, ◌⊏◌, nought}
use mt5_mcp_trading_framewor.Domain.{RiskDecision, loss_not_computed}
use mt5_mcp_trading_framewor.Risk.{DailyLossLimitConfig}
use mt5_mcp_trading_framewor.Pipeline.LoopControl.{
  LoopLimits, StopReason, should_stop, should_stop-none_iff, daily_loss_breached, stop_file_present,
}
use mt5_mcp_trading_framewor.Session.{Session}
use mt5_mcp_trading_framewor.Session.Cycle.{run_one_cycle}
use mt5_mcp_trading_framewor.Session.Loss.{
  current_daily_loss_decision, daily_loss_decision_for_cycle,
}
use mt5_mcp_trading_framewor.Session.Loop.{
  WaitEnd, LoopEnd, stop_check, next_step, after_poll, wait_for_next_cycle, after_wait, after_cycle,
  after_check, main_loop, stop_requested, interval_over, polls_used_up, stopped_before,
  stopped_by_error, stopped_in_wait, fuel_used_up,
}

module _ {F : Type 0} where
  -- the loop came to an end by itself, after at most `most` cycles
  abbrev pub IsEnd : ℕ → LoopEnd F → Type 0
  IsEnd most (stopped_before n reason) = n ≤ most
  IsEnd most (stopped_by_error n) = n ≤ most
  IsEnd most (stopped_in_wait n) = n ≤ most
  IsEnd most fuel_used_up = ⊥

module _ {S F : Type 0} ⦃f : Float F⦄ (session : Session S F) (limits : LoopLimits F) where
  -- the time that has been waited after a number of sleeps
  unfoldable pub waited_after : ℕ → F → F
  waited_after zero waited = waited
  waited_after (suc polls) waited = waited_after polls (waited ⊕ next_step session limits waited)

  -- that many polls fill the interval between two cycles
  abbrev pub IsEnough : ℕ → F → Type 0
  IsEnough polls waited = (waited_after polls waited ⊏ limits.cycle_interval_seconds) ≡ false

  abbrev IsOver : WaitEnd → Type 0
  IsOver polls_used_up = ⊥
  IsOver _ = Unit

  after_poll-IsOver :
      (checked : Option (StopReason F)) (go_on : S → WaitEnd × S) (step : F) (s : S)
      → ((t : S) → IsOver (go_on t).0)
      → IsOver (after_poll session limits checked go_on step s).0
  after_poll-IsOver (some r) go_on step s h = tt
  after_poll-IsOver none go_on step s h = h (session.sleep step s)

  wait-IsOver :
      (polls cycle_num : ℕ) (decision : RiskDecision F) (waited : F) (s : S)
      → IsEnough polls waited
      → IsOver (wait_for_next_cycle session limits polls cycle_num decision waited s).0
  unfolding wait_for_next_cycle waited_after
  wait-IsOver zero cycle_num decision waited s h = rw h tt
  wait-IsOver (suc polls) cycle_num decision waited s h =
      elim (Bool-cases (waited ⊏ limits.cycle_interval_seconds)) [
        | inr over ↦ rw over tt
        | inl short ↦ rw short (
            after_poll-IsOver (stop_check session limits cycle_num decision s).0
              (wait_for_next_cycle session limits polls cycle_num decision
                (waited ⊕ next_step session limits waited))
              (next_step session limits waited) (stop_check session limits cycle_num decision s).1
              (λ t.
                wait-IsOver polls cycle_num decision (waited ⊕ next_step session limits waited) t
                  h))
      ]

  check_none :
      (n : ℕ) (decision : RiskDecision F) (s : S)
      → (stop_check session limits n decision s).0 ≡ none
      → n < limits.max_cycles
  unfolding stop_check
  check_none n decision s h =
      let below =
        (should_stop-none_iff n (session.elapsed s).0
            (session.stop_file_exists (session.elapsed s).1).0 limits (some decision)).0
          h in
      ground (arith, below.2)

  module _ (polls : ℕ) (config : DailyLossLimitConfig F) (enough : IsEnough polls nought) where
    module _ (n : ℕ) (bound : n ≤ limits.max_cycles) (go_on : S → LoopEnd F × S)
        (ends : (t : S) → IsEnd limits.max_cycles (go_on t).0) where
      after_wait-IsEnd :
          (w : WaitEnd × S)
          → IsOver w.0
          → IsEnd limits.max_cycles (after_wait session limits polls config n go_on w).0
      after_wait-IsEnd (stop_requested, s) h = bound
      after_wait-IsEnd (interval_over, s) h = ends s
      after_wait-IsEnd (polls_used_up, s) h = elim h [ ]

      after_cycle-IsEnd :
          (decision : RiskDecision F) (r : Bool × S)
          → IsEnd limits.max_cycles (after_cycle session limits polls config n decision go_on r).0
      unfolding wait_for_next_cycle
      after_cycle-IsEnd decision (false, s) = bound
      after_cycle-IsEnd decision (true, s) =
          after_wait-IsEnd (wait_for_next_cycle session limits polls n decision nought s)
            (wait-IsOver polls n decision nought s enough)

    after_check-IsEnd :
        (n : ℕ) (decision : RiskDecision F) (go_on : S → LoopEnd F × S)
        (c : Option (StopReason F) × S)
        → n ≤ limits.max_cycles
        → (c.0 ≡ none → n < limits.max_cycles)
        → (n < limits.max_cycles → (t : S) → IsEnd limits.max_cycles (go_on t).0)
        → IsEnd limits.max_cycles (after_check session limits polls config n decision go_on c).0
    unfolding wait_for_next_cycle run_one_cycle
    after_check-IsEnd n decision go_on (some reason, s) bound below ends = bound
    after_check-IsEnd n decision go_on (none, s) bound below ends =
        after_cycle-IsEnd (suc n) (omega (arith, below refl)) go_on (ends (below refl)) decision
          (run_one_cycle session s)

    -- With one round of fuel more than the cycles that are left, and as many polls as fill the interval
    -- between two cycles, the loop ends by itself, whatever the cycles and the reads come to: on a stop
    -- reason, on a failed cycle or in a wait, after at most `max_cycles` cycles.
    pub main_loop_ends :
        (fuel n : ℕ) (s : S)
        → n ≤ limits.max_cycles
        → limits.max_cycles < fuel + n
        → IsEnd limits.max_cycles (main_loop session limits polls config fuel n s).0
    unfolding main_loop
    main_loop_ends zero n s bound fuel_left = absurd (omega arith)
    main_loop_ends (suc fuel) n s bound fuel_left =
        let decided = daily_loss_decision_for_cycle session config s in
        after_check-IsEnd n decided.0 (main_loop session limits polls config fuel (suc n))
          (stop_check session limits n decided.0 decided.1) bound (check_none n decided.0 decided.1)
          (λ below t. main_loop_ends fuel (suc n) t (omega arith) (omega arith))

  -- the loop, up to its first cycle, in a state in which the decision cannot be computed
  module _ (polls : ℕ) (config : DailyLossLimitConfig F) where
    -- A loss decision that cannot be computed stops the loop before the next cycle, as a breach of the
    -- limit does, unless a stop file stops it anyway: no cycle is run, whatever the number of cycles and
    -- the time are.
    pub main_loop_fails_closed :
        (fuel n : ℕ) (s : S) (e : Error)
        → (current_daily_loss_decision session config s).0 ≡ raised e
        → let decided = (current_daily_loss_decision session config s).1 in
          let checked = session.stop_file_exists (session.elapsed decided).1 in
          main_loop session limits polls config (suc fuel) n s ≡ (
            stopped_before n (
                if checked.0
                then stop_file_present
                else daily_loss_breached (loss_not_computed e ∷ [])),
            checked.1,
          )
    unfolding main_loop daily_loss_decision_for_cycle stop_check should_stop
    main_loop_fails_closed fuel n s e h =
        let decided = (current_daily_loss_decision session config s).1 in
        elim (Bool-cases (session.stop_file_exists (session.elapsed decided).1).0) [
          | inl stop ↦ rw (h, stop) refl
          | inr go_on ↦ rw (h, go_on) refl
        ]
