-- ===== src/Monitoring/DealTime/Laws.antt =====
-- Proofs about the offset of the deals' times in monitoring/live_performance.py.
use mt5_mcp_trading_framewor.Common.{
  ℕ, zero, suc, ◌+◌, ◌-◌, ◌*◌, ◌/◌, ◌%◌, ◌<◌, ◌≡◌, ap, some, List, [], ◌∷◌, ◌==◌, length, All,
  arith, Bool-cases, inl, inr,
}
use mt5_mcp_trading_framewor.Common.Int.{ℤ, pos, negsuc, ◌+ℤ◌, leb_ℤ}
use mt5_mcp_trading_framewor.Common.Outcome.{ok}
use mt5_mcp_trading_framewor.Domain.{Deal}
use mt5_mcp_trading_framewor.State.Models.{LocalOrderRecord}
use mt5_mcp_trading_framewor.Monitoring.DealTime.{
  quarter_hour, insert_sorted, sorted, div_round, times, nth, middle, median, offset_of, raw_diffs,
  infer_deal_time_offset,
}

-- less than half of a quarter hour away from `k` quarter hours, and not negative
abbrev pub IsNear : ℕ → ℤ → Type 0
IsNear k (negsuc n) = ⊥
IsNear k (pos n) = (k * quarter_hour < n + 450_000_000) × (n < k * quarter_hour + 450_000_000)

All-insert_sorted :
    (P : ℤ → Type 0) (x : ℤ) (xs : List ℤ) → P x → All P xs → All P (insert_sorted x xs)
All-insert_sorted P x [] p h = (p, tt)
All-insert_sorted P x (y ∷ ys) p h = elim (Bool-cases (leb_ℤ x y)) [
  | inl before ↦ rw before (p, h)
  | inr after ↦ rw after (h.0, All-insert_sorted P x ys p h.1)
]

All-sorted : (P : ℤ → Type 0) (xs : List ℤ) → All P xs → All P (sorted xs)
All-sorted P [] h = h
All-sorted P (x ∷ xs) h = All-insert_sorted P x (sorted xs) h.0 (All-sorted P xs h.1)

nth_of_All : (P : ℤ → Type 0) (n : ℕ) (x : ℤ) (xs : List ℤ) → P x → All P xs → P (nth n x xs)
nth_of_All P zero x xs p h = p
nth_of_All P (suc n) x [] p h = p
nth_of_All P (suc n) x (y ∷ ys) p h = nth_of_All P n y ys h.0 h.1

half_sum-IsNear : (k : ℕ) (a b : ℤ) → IsNear k a → IsNear k b → IsNear k (div_round (a +ℤ b) 2)
unfolding div_round ◌+ℤ◌
half_sum-IsNear k (negsuc a) b h h' = elim h [ ]
half_sum-IsNear k (pos a) (negsuc b) h h' = elim h' [ ]
half_sum-IsNear k (pos a) (pos b) h h' = ground arith

middle-IsNear : (k : ℕ) (x : ℤ) (xs : List ℤ) → All (IsNear k) (x ∷ xs) → IsNear k (middle (x ∷ xs))
unfolding div_round ◌+ℤ◌
middle-IsNear k x xs h = elim (Bool-cases (suc (length xs) % 2 == 1)) [
  | inl odd ↦ rw odd (nth_of_All (IsNear k) (suc (length xs) / 2) x xs h.0 h.1)
  | inr even ↦ rw even (
      half_sum-IsNear k (nth (suc (length xs) / 2 - 1) x xs) (nth (suc (length xs) / 2) x xs)
        (nth_of_All (IsNear k) (suc (length xs) / 2 - 1) x xs h.0 h.1)
        (nth_of_All (IsNear k) (suc (length xs) / 2) x xs h.0 h.1))
]

round_near : (k : ℕ) (d : ℤ) → IsNear k d → div_round d quarter_hour ≡ pos k
unfolding div_round ◌+ℤ◌
round_near k (negsuc n) h = elim h [ ]
round_near k (pos n) h = ground arith

middle_of_All : (k : ℕ) (xs : List ℤ) → 0 < length xs → All (IsNear k) xs → IsNear k (middle xs)
unfolding div_round ◌+ℤ◌
middle_of_All k [] some' h = absurd (omega arith)
middle_of_All k (x ∷ xs) some' h = middle-IsNear k x xs h

length-insert_sorted : (x : ℤ) (xs : List ℤ) → 0 < length (insert_sorted x xs)
length-insert_sorted x [] = omega arith
length-insert_sorted x (y ∷ ys) = ground arith

median-IsNear : (k : ℕ) (d : ℤ) (ds : List ℤ) → All (IsNear k) (d ∷ ds) → IsNear k (median (d ∷ ds))
unfolding median
median-IsNear k d ds h =
    middle_of_All k (sorted (d ∷ ds)) (length-insert_sorted d (sorted ds))
      (All-sorted (IsNear k) (d ∷ ds) h)

module _ {F : Type 0} where
  -- The offset is recovered: if the times of at least one market order's first deal and of its
  -- submission can be compared, and every such difference is within half a quarter hour of the same
  -- number of quarter hours, and not negative, then that number of quarter hours is the result.
  pub infer_deal_time_offset_exact :
      (records : List (LocalOrderRecord F)) (deals : List (Deal F)) (k : ℕ) (d : ℤ) (ds : List ℤ)
      → raw_diffs records deals ≡ ok (d ∷ ds)
      → All (IsNear k) (d ∷ ds)
      → infer_deal_time_offset records deals ≡ ok (some (pos (k * quarter_hour)))
  unfolding infer_deal_time_offset offset_of
  infer_deal_time_offset_exact records deals k d ds h near = rw h (
      ap (λ n. ok (some (times n quarter_hour)))
        (round_near k (median (d ∷ ds)) (median-IsNear k d ds near)))
