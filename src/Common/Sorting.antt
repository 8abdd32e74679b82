-- ===== src/Common/Sorting.antt =====
-- Python's `sorted(..., key=..., reverse=True)`, which keeps the order of equal keys.
use Prim.Native.Nat.{ℕ, zero, suc, ◌≤◌}
use mathlib.Core.Bool.{Bool, true, ◌&&◌}
use mathlib.Core.List.{List, [], ◌∷◌}
use mathlib.Core.Logic.{inl, inr}
use mathlib.Core.Path.{◌≡◌, refl}
use mix_saving_bot.Common.Tests.{leb, if◌then◌else◌, Bool-cases}
use mix_saving_bot.Common.Lists.{length, take}
use native.Mathlib.Omega.{arith}

-- every item passes the test
abbrev pub all {ℓ} : {A : Type ℓ} → (A → Bool) → List A → Bool
all p [] = true
all p (x ∷ xs) = p x && all p xs

module _ {ℓ} {A : Type ℓ} (key : A → ℕ) where
  unfoldable pub insert_desc : A → List A → List A
  insert_desc x [] = x ∷ []
  insert_desc x (y ∷ ys) =
      let rest = insert_desc x ys in if leb (key y) (key x) then x ∷ y ∷ ys else y ∷ rest

  unfoldable pub sort_desc : List A → List A
  unfolding insert_desc
  sort_desc [] = []
  sort_desc (x ∷ xs) = insert_desc x (sort_desc xs)

  -- no key is smaller than one behind it
  abbrev pub is_desc : List A → Bool
  is_desc [] = true
  is_desc (x ∷ xs) = all (λ y. leb (key y) (key x)) xs && is_desc xs

  length-insert_desc : (x : A) (ys : List A) → length (insert_desc x ys) ≡ suc (length ys)
  unfolding insert_desc
  length-insert_desc x [] = refl
  length-insert_desc x (y ∷ ys) = ground (arith, length-insert_desc x ys)

  pub all-insert_desc :
      (p : A → Bool) (x : A) (ys : List A) → all p (insert_desc x ys) ≡ (p x && all p ys)
  unfolding insert_desc
  all-insert_desc p x [] = refl
  all-insert_desc p x (y ∷ ys) = ground (arith, all-insert_desc p x ys)

  pub all-sort_desc : (p : A → Bool) (xs : List A) → all p (sort_desc xs) ≡ all p xs
  unfolding sort_desc
  all-sort_desc p [] = refl
  all-sort_desc p (x ∷ xs) = ground (arith, all-insert_desc p x (sort_desc xs), all-sort_desc p xs)

  all_le :
      (n m : ℕ) (ys : List A)
      → n ≤ m
      → all (λ y. leb (key y) n) ys ≡ true
      → all (λ y. leb (key y) m) ys ≡ true
  all_le n m [] l h = refl
  all_le n m (y ∷ ys) l h = ground (arith, l, h, all_le n m ys l)

  insert_desc-desc : (x : A) (ys : List A) → is_desc ys ≡ true → is_desc (insert_desc x ys) ≡ true
  unfolding insert_desc
  insert_desc-desc x [] h = refl
  insert_desc-desc x (y ∷ ys) h = elim (Bool-cases (leb (key y) (key x))) [
    | inl e ↦ rw e (ground (arith, e, h, all_le (key y) (key x) ys))
    | inr e ↦ rw e (
        ground
          (arith, e, h, insert_desc-desc x ys, all-insert_desc (λ z. leb (key z) (key y)) x ys))
  ]

  pub sort_desc-desc : (xs : List A) → is_desc (sort_desc xs) ≡ true
  unfolding sort_desc
  sort_desc-desc [] = refl
  sort_desc-desc (x ∷ xs) = insert_desc-desc x (sort_desc xs) (sort_desc-desc xs)

  pub length-sort_desc : (xs : List A) → length (sort_desc xs) ≡ length xs
  unfolding sort_desc
  length-sort_desc [] = refl
  length-sort_desc (x ∷ xs) =
      ground (arith, length-insert_desc x (sort_desc xs), length-sort_desc xs)

module _ {ℓ} {A : Type ℓ} (key : A → ℕ) where
  pub all-take : (p : A → Bool) (n : ℕ) (xs : List A) → all p xs ≡ true → all p (take n xs) ≡ true
  all-take p zero xs h = refl
  all-take p (suc n) [] h = refl
  all-take p (suc n) (x ∷ xs) h = ground (arith, h, all-take p n xs)

  pub desc-take : (n : ℕ) (xs : List A) → is_desc key xs ≡ true → is_desc key (take n xs) ≡ true
  desc-take zero xs h = refl
  desc-take (suc n) [] h = refl
  desc-take (suc n) (x ∷ xs) h =
      ground (arith, h, desc-take n xs, all-take (λ y. leb (key y) (key x)) n xs)
