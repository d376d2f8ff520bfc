-- ===== src/Float/Order.antt =====
-- The operations of `float` as an interface, the laws that a theorem may ask for, and what follows
-- from them.
use mt5_mcp_trading_framewor.Common.{
  ℕ, ◌+◌, ◌≡◌, ◌⊎◌, Bool, true, false, not, List, arith, if◌then◌else◌, All,
}

pub record Float (F : Type 0) : Type 0 where
  -- `float(n)`
  pub of_nat : ℕ → F
  -- the literal or quotient `p / q`, such as `0.4 = ratio 4 10`
  pub ratio : ℕ → ℕ → F
  pub add : F → F → F
  pub sub : F → F → F
  pub mul : F → F → F
  pub div : F → F → F
  pub abs : F → F
  -- `-x`
  pub neg : F → F
  pub lt : F → F → Bool
  pub le : F → F → Bool
  -- `sum(xs)`, which adds floats with compensation
  pub sum : List F → F
  -- `round(x)`, used as a factor of a product of floats
  pub round : F → F
  -- `round(x, n)`
  pub round_to : F → ℕ → F

module _ {F : Type 0} ⦃f : Float F⦄ where
  infixl 65 ◌⊕◌ ◌⊖◌
  infixl 70 ◌⊗◌ ◌⊘◌
  infix 50 ◌⊏◌ ◌⊑◌
  infix 4 ◌≺◌ ◌≼◌
  abbrev pub ◌⊕◌ : F → F → F
  a ⊕ b = f.add a b

  abbrev pub ◌⊖◌ : F → F → F
  a ⊖ b = f.sub a b

  abbrev pub ◌⊗◌ : F → F → F
  a ⊗ b = f.mul a b

  abbrev pub ◌⊘◌ : F → F → F
  a ⊘ b = f.div a b

  -- `a < b` and `a <= b`; `a > b` is `b < a`
  abbrev pub ◌⊏◌ : F → F → Bool
  a ⊏ b = f.lt a b

  abbrev pub ◌⊑◌ : F → F → Bool
  a ⊑ b = f.le a b

  abbrev pub ◌≺◌ : F → F → Type 0
  a ≺ b = f.lt a b ≡ true

  abbrev pub ◌≼◌ : F → F → Type 0
  a ≼ b = f.le a b ≡ true

  abbrev pub nought : F
  nought = f.of_nat 0

  -- Python's `max` and `min` of two: the first, unless the second is beyond it
  unfoldable pub max : F → F → F
  max a b = if a ⊏ b then b else a

  unfoldable pub min : F → F → F
  min a b = if b ⊏ a then b else a

-- The order of the values that are not NaN.
pub record IsOrdered (F : Type 0) ⦃f : Float F⦄ : Type 0 where
  pub le_refl : (a : F) → a ≼ a
  pub le_trans : (a b c : F) → a ≼ b → b ≼ c → a ≼ c
  pub le_total : (a b : F) → (a ≼ b) ⊎ (b ≼ a)
  pub lt-eq-not-le : (a b : F) → (a ⊏ b) ≡ not (b ⊑ a)

-- Rounding is monotone, so the operations are; subtraction of equals and sums with zero are exact.
pub record IsArith (F : Type 0) ⦃f : Float F⦄ : Type 0 where
  pub add_mono : (a b c d : F) → a ≼ b → c ≼ d → a ⊕ c ≼ b ⊕ d
  pub sub_mono : (a b c d : F) → a ≼ b → c ≼ d → a ⊖ d ≼ b ⊖ c
  pub add-zero : (a : F) → a ⊕ nought ≡ a
  pub sub-zero : (a : F) → a ⊖ nought ≡ a
  pub sub_self : (a : F) → a ⊖ a ≡ nought
  pub abs_nonneg : (a : F) → nought ≼ f.abs a
  pub mul_nonneg : (a b : F) → nought ≼ a → nought ≼ b → nought ≼ a ⊗ b
  pub div_nonneg : (a b : F) → nought ≼ a → nought ≺ b → nought ≼ a ⊘ b
  pub sum_nonneg : (xs : List F) → All (λ x. nought ≼ x) xs → nought ≼ f.sum xs
  pub of_nat_pos : (n : ℕ) → nought ≺ f.of_nat (n + 1)
  pub mul-one : (a : F) → a ⊗ f.of_nat 1 ≡ a
  pub mul-zero : (a : F) → a ⊗ nought ≡ nought
  pub one_plus_one : f.of_nat 1 ⊕ f.of_nat 1 ≡ f.of_nat 2
  pub two_div_two : f.of_nat 2 ⊘ f.of_nat 2 ≡ f.of_nat 1
  pub round_to_mono : (a b : F) (n : ℕ) → a ≼ b → f.round_to a n ≼ f.round_to b n
  pub neg_anti : (a b : F) → a ≼ b → f.neg b ≼ f.neg a

module _ {F : Type 0} ⦃f : Float F⦄ (ord : IsOrdered F) where
  open ord use {le_refl, le_trans, le_total, lt-eq-not-le}

  pub lt_le : (a b : F) → a ≺ b → a ≼ b
  lt_le a b h = ground (arith, lt-eq-not-le a b, le_total a b)

  pub not_lt-le : (a b : F) → (a ⊏ b) ≡ false → b ≼ a
  not_lt-le a b h = ground (arith, lt-eq-not-le a b, le_total a b)

  pub le-max_left : (a b : F) → a ≼ max a b
  unfolding max
  le-max_left a b = ground (arith, lt_le a b, le_refl a)

  pub le-max_right : (a b : F) → b ≼ max a b
  unfolding max
  le-max_right a b = ground (arith, not_lt-le a b, le_refl b)

  pub min-le_left : (a b : F) → min a b ≼ a
  unfolding min
  min-le_left a b = ground (arith, lt_le b a, le_refl a)

  pub le-min : (a b c : F) → c ≼ a → c ≼ b → c ≼ min a b
  unfolding min
  le-min a b c h k = ground arith

  pub max-le : (a b c : F) → a ≼ c → b ≼ c → max a b ≼ c
  unfolding max
  max-le a b c h k = ground arith

  -- `max(lo, min(hi, x))` lies between `lo` and `hi`.
  pub clamp_bounds : (lo hi x : F) → lo ≼ hi → (lo ≼ max lo (min hi x)) × (max lo (min hi x) ≼ hi)
  clamp_bounds lo hi x h = (le-max_left _ _, max-le _ _ _ h (min-le_left _ _))

  module _ (ar : IsArith F) where
    open ar use {add_mono, sub_mono, add-zero, sub-zero}

    pub le-add : (a b : F) → nought ≼ b → a ≼ a ⊕ b
    le-add a b h = rw add-zero at (add_mono a a nought b (le_refl a) h)

    pub sub-le : (a b : F) → nought ≼ b → a ⊖ b ≼ a
    sub-le a b h = rw sub-zero at (sub_mono a a nought b (le_refl a) h)
