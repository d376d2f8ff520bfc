-- ===== src/Monitoring/DealTime.antt =====
-- The offset of the deals' times, from market orders whose time of submission was recorded.
pub mod Laws
use mt5_mcp_trading_framewor.Common.{
  ℕ, zero, suc, ◌+◌, ◌-◌, ◌*◌, ◌/◌, ◌%◌, Bool, Option, none, some, List, [], ◌∷◌, ◌++◌, map, str_eq,
  if◌then◌else◌, ltb, ◌==◌, length,
}
use mt5_mcp_trading_framewor.Common.Int.{ℤ, pos, negsuc, ◌+ℤ◌, leb_ℤ}
use mt5_mcp_trading_framewor.Common.Clock.{time_diff}
use mt5_mcp_trading_framewor.Common.Outcome.{Outcome, ok, raised, type_error, ◌>>=◌}
use mt5_mcp_trading_framewor.Domain.{Time, Deal}
use mt5_mcp_trading_framewor.State.Models.{LocalOrderRecord}
use mt5_mcp_trading_framewor.Monitoring.{deals_of, ins_of}

abbrev pub quarter_hour : ℕ
quarter_hour = 900_000_000

-- `min(times)`
abbrev pub earliest : Time → List Time → Time
earliest t [] = t
earliest t (u ∷ us) = earliest (if ltb u t then u else t) us

abbrev pub insert_sorted : ℤ → List ℤ → List ℤ
insert_sorted x [] = x ∷ []
insert_sorted x (y ∷ ys) = if leb_ℤ x y then x ∷ y ∷ ys else y ∷ insert_sorted x ys

-- `sorted(diffs)`
abbrev pub sorted : List ℤ → List ℤ
sorted [] = []
sorted (x ∷ xs) = insert_sorted x (sorted xs)

-- the quotient by a number of at least one, rounded down, and what is left
abbrev pub floor_div : ℤ → ℕ → ℤ
floor_div (pos n) k = pos (n / k)
floor_div (negsuc n) k = negsuc (n / k)

abbrev pub floor_rest : ℤ → ℕ → ℕ
floor_rest (pos n) k = n % k
floor_rest (negsuc n) k = k - 1 - n % k

abbrev pub is_even : ℤ → Bool
is_even (pos n) = n % 2 == 0
is_even (negsuc n) = n % 2 == 1

-- the quotient rounded to the nearest integer, and to the even one of two that are as near: `round` of
-- it, and the division of a `timedelta` by an integer
unfoldable pub div_round : ℤ → ℕ → ℤ
unfolding ◌+ℤ◌
div_round a k =
    let q = floor_div a k in
    let rest = floor_rest a k in
    if ltb (2 * rest) k
    then q
    else if ltb k (2 * rest)
    then q +ℤ pos 1
    else if is_even q
    then q
    else q +ℤ pos 1

-- `quarters * quarter_hour`
abbrev pub times : ℤ → ℕ → ℤ
times (pos n) k = pos (n * k)
times (negsuc n) k = negsuc (suc n * k - 1)

-- the item at a position that the list has
abbrev pub nth : ℕ → ℤ → List ℤ → ℤ
nth zero x xs = x
nth (suc n) x [] = x
nth (suc n) x (y ∷ ys) = nth n y ys

-- `statistics.median` of at least one `timedelta`, in its sorted order
abbrev pub middle : List ℤ → ℤ
unfolding div_round ◌+ℤ◌
middle [] = pos 0
middle (x ∷ xs) =
    let n = suc (length xs) in
    if n % 2 == 1 then nth (n / 2) x xs else div_round (nth (n / 2 - 1) x xs +ℤ nth (n / 2) x xs) 2

unfoldable pub median : List ℤ → ℤ
median diffs = middle (sorted diffs)

abbrev pub offset_of : List ℤ → Option ℤ
unfolding median
offset_of [] = none
offset_of (d ∷ ds) = some (times (div_round (median (d ∷ ds)) quarter_hour) quarter_hour)

abbrev diff_from : Time → List Time → Option Time → Outcome ℤ
diff_from t ts none = raised type_error
diff_from t ts (some submitted_at) = ok (time_diff (earliest t ts) submitted_at)

module _ {F : Type 0} where
  abbrev times_of : List (Deal F) → List Time
  times_of deals = map (λ d. d.time) deals

  -- what one record adds to `raw_diffs`
  abbrev pub diff_of : LocalOrderRecord F → List Time → Outcome (List ℤ)
  diff_of r [] = ok []
  diff_of r (t ∷ ts) = diff_from t ts r.submitted_at >>= λ d. ok (d ∷ [])

  abbrev pub diffs_of_record : LocalOrderRecord F → List (Deal F) → Outcome (List ℤ)
  diffs_of_record r deals =
      if str_eq r.order_type "MARKET"
      then diff_of r (times_of (ins_of (deals_of r.ticket deals)))
      else ok []

  unfoldable pub raw_diffs : List (LocalOrderRecord F) → List (Deal F) → Outcome (List ℤ)
  raw_diffs [] deals = ok []
  raw_diffs (r ∷ rs) deals =
      diffs_of_record r deals >>= λ found. raw_diffs rs deals >>= λ rest. ok (found ++ rest)

  unfoldable pub infer_deal_time_offset :
      List (LocalOrderRecord F) → List (Deal F) → Outcome (Option ℤ)
  unfolding raw_diffs
  infer_deal_time_offset closed_records deals =
      raw_diffs closed_records deals >>= λ diffs. ok (offset_of diffs)
