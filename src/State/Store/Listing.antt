-- ===== src/State/Store/Listing.antt =====
-- The order in which `_iter_ticket_files` lists the files: by name, so by the decimal digits of the
-- ticket as text.
use mt5_mcp_trading_framewor.Common.{
  ℕ, zero, suc, ◌+◌, ◌/◌, ◌%◌, ◌≡◌, Bool, true, false, List, [], ◌∷◌, if◌then◌else◌, ltb, ◌==◌, All,
  Bool-cases, inl, inr, any, ◌||◌, arith, refl, ap, ◌∙◌,
}

digits_from : ℕ → ℕ → List ℕ → List ℕ
digits_from zero n acc = acc
digits_from (suc fuel) n acc =
    let rest = digits_from fuel (n / 10) (n % 10 ∷ acc) in if ltb n 10 then n ∷ acc else rest

-- a number has at most as many digits as it counts, and one for zero
unfoldable pub decimal : ℕ → List ℕ
unfolding digits_from
decimal n = digits_from (n + 1) n []

abbrev name_le : List ℕ → List ℕ → Bool
name_le [] t = true
name_le (a ∷ s) [] = false
name_le (a ∷ s) (b ∷ t) = if ltb a b then true else if a == b then name_le s t else false

module _ {A : Type 0} where
  unfoldable pub insert_by_name : ℕ × A → List (ℕ × A) → List (ℕ × A)
  unfolding decimal
  insert_by_name x [] = x ∷ []
  insert_by_name x (y ∷ ys) =
      if name_le (decimal x.0) (decimal y.0) then x ∷ y ∷ ys else y ∷ insert_by_name x ys

  unfoldable pub sort_by_name : List (ℕ × A) → List (ℕ × A)
  unfolding insert_by_name
  sort_by_name [] = []
  sort_by_name (x ∷ xs) = insert_by_name x (sort_by_name xs)

  All-insert_by_name :
      (P : ℕ × A → Type 0) (x : ℕ × A) (ys : List (ℕ × A))
      → P x
      → All P ys
      → All P (insert_by_name x ys)
  unfolding insert_by_name
  All-insert_by_name P x [] h k = (h, tt)
  All-insert_by_name P x (y ∷ ys) h k = elim (Bool-cases (name_le (decimal x.0) (decimal y.0))) [
    | inl e ↦ rw e (h, k)
    | inr e ↦ rw e (k.0, All-insert_by_name P x ys h k.1)
  ]

  -- What holds of every file of the directory holds of every file that is listed.
  pub All-sort_by_name :
      (P : ℕ × A → Type 0) (xs : List (ℕ × A)) → All P xs → All P (sort_by_name xs)
  unfolding sort_by_name
  All-sort_by_name P [] h = tt
  All-sort_by_name P (x ∷ xs) h = All-insert_by_name P x _ h.0 (All-sort_by_name P xs h.1)

  any-insert_by_name :
      (p : ℕ × A → Bool) (x : ℕ × A) (ys : List (ℕ × A))
      → any p (insert_by_name x ys) ≡ p x || any p ys
  unfolding insert_by_name
  any-insert_by_name p x [] = refl
  any-insert_by_name p x (y ∷ ys) = ground (arith, any-insert_by_name p x ys)

  -- Sorting neither adds nor drops a file that passes a test.
  pub any-sort_by_name : (p : ℕ × A → Bool) (xs : List (ℕ × A)) → any p (sort_by_name xs) ≡ any p xs
  unfolding sort_by_name
  any-sort_by_name p [] = refl
  any-sort_by_name p (x ∷ xs) =
      any-insert_by_name p x (sort_by_name xs) ∙ ap (λ b. p x || b) (any-sort_by_name p xs)
