-- ===== src/Base/Lists.antt =====
-- Lists under native numbers, and membership by recursion with the facts that case splits need.
use Prim.Native.Nat.{ℕ, suc, ◌+◌, ◌≤◌}
use mathlib.Core.Path.{◌≡◌, refl}
use mathlib.Core.Logic.{inl, inr}
use mathlib.Core.Bool.{Bool, true, false, ◌||◌, false≢true}
use mathlib.Core.List.{List, [], ◌∷◌, ◌++◌}
use native.Mathlib.Omega.{arith}
use zda.Base.Tests.{Key, ◌==◌, if◌then◌else◌, Bool-cases}

module _ {ℓ} {A : Type ℓ} where
  abbrev pub length : List A → ℕ
  length [] = 0
  length (x ∷ xs) = suc (length xs)

  pub length-append : (xs ys : List A) → length (xs ++ ys) ≡ length xs + length ys
  length-append [] ys = omega arith
  length-append (x ∷ xs) ys = omega (arith, length-append xs ys)

  abbrev pub All {κ} : (A → Type κ) → List A → Type κ
  All P [] = Unit
  All P (a ∷ rest) = P a × All P rest

  pub All-append {κ} :
      (P : A → Type κ) (front back : List A) → All P front → All P back → All P (front ++ back)
  All-append P [] back _ h = h
  All-append P (a ∷ front) back (here, h) k = (here, All-append P front back h k)

  pub All-split {κ} : (P : A → Type κ) (xs ys : List A) → All P (xs ++ ys) → All P xs × All P ys
  All-split P [] ys h = (tt, h)
  All-split P (x ∷ xs) ys h = let rest = All-split P xs ys h.1 in ((h.0, rest.0), rest.1)

  pub All-map {κ μ} :
      (P : A → Type κ) (Q : A → Type μ) (xs : List A) → ((x : A) → P x → Q x) → All P xs → All Q xs
  All-map P Q [] f h = tt
  All-map P Q (x ∷ xs) f h = (f x h.0, All-map P Q xs f h.1)

module _ {ℓ} {A : Type ℓ} ⦃e : Key A⦄ where
  -- `contains` of utils.go is this test; so is `slices.Contains`.
  abbrev pub elem : A → List A → Bool
  elem a [] = false
  elem a (x ∷ xs) = x == a || elem a xs

  pub beq_refl : (a : A) → (a == a) ≡ true
  beq_refl a = (e.same_iff a a).1 refl

  pub elem-append : (a : A) (xs ys : List A) → elem a (xs ++ ys) ≡ (elem a xs || elem a ys)
  elem-append a [] ys = refl
  elem-append a (x ∷ xs) ys = ground (arith, elem-append a xs ys)

  abbrev pub remove : A → List A → List A
  remove a [] = []
  remove a (x ∷ xs) = let rest = remove a xs in if x == a then rest else x ∷ rest

  pub elem-remove :
      (a b : A) (xs : List A) → elem b (remove a xs) ≡ (if a == b then false else elem b xs)
  elem-remove a b [] = ground arith
  elem-remove a b (x ∷ xs) =
      ground (arith, elem-remove a b xs, e.same_iff x a, e.same_iff x b, e.same_iff a b)

  pub length-remove-le : (a : A) (xs : List A) → length (remove a xs) ≤ length xs
  length-remove-le a [] = omega arith
  length-remove-le a (x ∷ xs) = ground (arith, length-remove-le a xs)

  -- A member that is removed makes the list shorter.
  pub length-remove-lt :
      (a : A) (xs : List A) → elem a xs ≡ true → suc (length (remove a xs)) ≤ length xs
  length-remove-lt a [] h = ground arith
  length-remove-lt a (x ∷ xs) h = ground (arith, length-remove-le a xs, length-remove-lt a xs)

  -- No element occurs twice.
  abbrev pub IsDistinct : List A → Type 0
  IsDistinct [] = Unit
  IsDistinct (x ∷ xs) = (elem x xs ≡ false) × IsDistinct xs

  abbrev pub IsSubset : List A → List A → Type ℓ
  IsSubset xs ys = (a : A) → elem a xs ≡ true → elem a ys ≡ true

  pub All-elem {κ} : (P : A → Type κ) (xs : List A) (a : A) → All P xs → elem a xs ≡ true → P a
  All-elem P [] a h m = absurd (false≢true m)
  All-elem P (x ∷ xs) a h m = elim (Bool-cases (x == a)) [
    | inl same ↦ rw (← (e.same_iff x a).0 same) h.0
    | inr other ↦ All-elem P xs a h.1 (rw other at m)
  ]

  pub All-of_elem {κ} :
      (P : A → Type κ) (xs : List A) → ((a : A) → elem a xs ≡ true → P a) → All P xs
  All-of_elem P [] f = tt
  All-of_elem P (x ∷ xs) f =
      (f x (ground (arith, beq_refl x)), All-of_elem P xs (λ a m. f a (ground arith)))

  pub IsDistinct-snoc :
      (xs : List A) (a : A) → IsDistinct xs → elem a xs ≡ false → IsDistinct (xs ++ a ∷ [])
  IsDistinct-snoc [] a d new = (refl, tt)
  IsDistinct-snoc (x ∷ xs) a d new = (
    ground (arith, elem-append x xs (a ∷ []), e.same_iff x a, e.same_iff a x),
    IsDistinct-snoc xs a d.1 (ground arith),
  )

  -- The pigeonhole principle.
  pub length-le_of_subset :
      (xs ys : List A) → IsDistinct xs → IsSubset xs ys → length xs ≤ length ys
  length-le_of_subset [] ys d s = omega arith
  length-le_of_subset (x ∷ xs) ys d s =
      let shorter = length-remove-lt x ys (s x (ground (arith, beq_refl x))) in
      let rest =
        length-le_of_subset xs (remove x ys) d.1
          λ a m. ground (arith, elem-remove x a ys, s a, e.same_iff x a, d.0) in
      omega arith
