-- ===== src/Float/Fixed.antt =====
-- The laws of `Float.Order` can be met: fixed-point decimals with three places.
use mt5_mcp_trading_framewor.Common.{
  ℕ, zero, suc, ◌+◌, ◌*◌, ◌/◌, ◌≡◌, refl, true, List, [], ◌∷◌, arith, All,
}
use mt5_mcp_trading_framewor.Common.Int.{ℤ, pos, negsuc, sub_ℕ, ◌+ℤ◌, ◌-ℤ◌, ltb_ℤ, leb_ℤ}
use mt5_mcp_trading_framewor.Float.Order.{Float, IsOrdered, IsArith}

-- A decimal `x` is the integer `1000 * x`.
abbrev pub Fixed : Type 0
Fixed = ℤ

abbrev negate : ℕ → ℤ
negate n = sub_ℕ 0 n

abbrev fixed_mul : ℤ → ℤ → ℤ
fixed_mul (pos a) (pos b) = pos (a * b / 1000)
fixed_mul (pos a) (negsuc b) = negate (a * suc b / 1000)
fixed_mul (negsuc a) (pos b) = negate (suc a * b / 1000)
fixed_mul (negsuc a) (negsuc b) = pos (suc a * suc b / 1000)

abbrev fixed_div : ℤ → ℤ → ℤ
fixed_div (pos a) (pos b) = pos (a * 1000 / b)
fixed_div (pos a) (negsuc b) = negate (a * 1000 / suc b)
fixed_div (negsuc a) (pos b) = negate (suc a * 1000 / b)
fixed_div (negsuc a) (negsuc b) = pos (suc a * 1000 / suc b)

abbrev fixed_abs : ℤ → ℤ
fixed_abs (pos a) = pos a
fixed_abs (negsuc a) = pos (suc a)

abbrev pub fixed_sum : List ℤ → ℤ
unfolding ◌+ℤ◌
fixed_sum [] = pos 0
fixed_sum (x ∷ xs) = x +ℤ fixed_sum xs

-- the nearest multiple of `unit`, a tie away from zero
abbrev to_multiple : ℕ → ℤ → ℤ
to_multiple unit (pos a) = pos ((a + unit / 2) / unit * unit)
to_multiple unit (negsuc a) = negate ((suc a + unit / 2) / unit * unit)

abbrev pub fixed_round_to : ℤ → ℕ → ℤ
fixed_round_to x zero = to_multiple 1000 x
fixed_round_to x (suc zero) = to_multiple 100 x
fixed_round_to x (suc (suc zero)) = to_multiple 10 x
fixed_round_to x (suc (suc (suc n))) = x

instance unfoldable pub fixed_float : Float Fixed
unfolding ◌+ℤ◌ ◌-ℤ◌
fixed_float = record {
  of_nat = λ n. pos (n * 1000);
  ratio = λ p q. pos (p * 1000 / q);
  add = λ a b. a +ℤ b;
  sub = λ a b. a -ℤ b;
  mul = fixed_mul;
  div = fixed_div;
  abs = fixed_abs;
  neg = λ a. pos 0 -ℤ a;
  lt = ltb_ℤ;
  le = leb_ℤ;
  sum = fixed_sum;
  round = to_multiple 1000;
  round_to = fixed_round_to;
}

pub Fixed-IsOrdered : IsOrdered Fixed
unfolding fixed_float
Fixed-IsOrdered = ground arith

pub fixed_sum_nonneg :
    (xs : List ℤ) → All (λ x. leb_ℤ (pos 0) x ≡ true) xs → leb_ℤ (pos 0) (fixed_sum xs) ≡ true
unfolding ◌+ℤ◌
fixed_sum_nonneg [] h = refl
fixed_sum_nonneg (x ∷ xs) h = ground (arith, fixed_sum_nonneg xs h.1)

to_multiple_mono_10 :
    (a b : ℤ) → leb_ℤ a b ≡ true → leb_ℤ (to_multiple 10 a) (to_multiple 10 b) ≡ true
to_multiple_mono_10 (pos a) (pos b) h = ground arith
to_multiple_mono_10 (pos a) (negsuc b) h = ground arith
to_multiple_mono_10 (negsuc a) (pos b) h = ground arith
to_multiple_mono_10 (negsuc a) (negsuc b) h = ground arith

to_multiple_mono_100 :
    (a b : ℤ) → leb_ℤ a b ≡ true → leb_ℤ (to_multiple 100 a) (to_multiple 100 b) ≡ true
to_multiple_mono_100 (pos a) (pos b) h = ground arith
to_multiple_mono_100 (pos a) (negsuc b) h = ground arith
to_multiple_mono_100 (negsuc a) (pos b) h = ground arith
to_multiple_mono_100 (negsuc a) (negsuc b) h = ground arith

to_multiple_mono_1000 :
    (a b : ℤ) → leb_ℤ a b ≡ true → leb_ℤ (to_multiple 1000 a) (to_multiple 1000 b) ≡ true
to_multiple_mono_1000 (pos a) (pos b) h = ground arith
to_multiple_mono_1000 (pos a) (negsuc b) h = ground arith
to_multiple_mono_1000 (negsuc a) (pos b) h = ground arith
to_multiple_mono_1000 (negsuc a) (negsuc b) h = ground arith

fixed_round_to_mono :
    (a b : ℤ) (n : ℕ) → leb_ℤ a b ≡ true → leb_ℤ (fixed_round_to a n) (fixed_round_to b n) ≡ true
fixed_round_to_mono a b zero h = to_multiple_mono_1000 a b h
fixed_round_to_mono a b (suc zero) h = to_multiple_mono_100 a b h
fixed_round_to_mono a b (suc (suc zero)) h = to_multiple_mono_10 a b h
fixed_round_to_mono a b (suc (suc (suc n))) h = h

pub Fixed-IsArith : IsArith Fixed
unfolding fixed_float
Fixed-IsArith = record {
  add_mono = λ a b c d h k. ground arith;
  sub_mono = λ a b c d h k. ground arith;
  add-zero = λ a. ground arith;
  sub-zero = λ a. ground arith;
  sub_self = λ a. ground arith;
  abs_nonneg = λ a. ground arith;
  mul_nonneg = λ a b h k. ground arith;
  div_nonneg = λ a b h k. ground arith;
  sum_nonneg = fixed_sum_nonneg;
  of_nat_pos = λ n. ground arith;
  mul-one = λ a. ground arith;
  mul-zero = λ a. ground arith;
  one_plus_one = refl;
  two_div_two = refl;
  round_to_mono = fixed_round_to_mono;
  neg_anti = λ a b h. ground arith;
}
