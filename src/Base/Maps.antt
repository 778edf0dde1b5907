-- ===== src/Base/Maps.antt =====
-- A Go map as an association list. `range` visits the entries in the order of the list, and Go
-- leaves that order open: a theorem about every list covers every order.
use mathlib.Core.Path.{◌≡◌, refl}
use mathlib.Core.Bool.{Bool, true, false}
use mathlib.Core.List.{List, [], ◌∷◌}
use mathlib.Core.Option.{Option, none, some}
use native.Mathlib.Omega.{arith}
use Prim.Native.Nat.{suc, ◌≤◌}
use mathlib.Core.Logic.{inl, inr}
use zda.Base.Tests.{Key, ◌==◌, if◌then◌else◌, Bool-cases, none≢some}
use zda.Base.Lists.{elem, length, All, IsDistinct}

abbrev pub Assoc {ℓ κ} : Type ℓ → Type κ → Type (ℓ ⊔ κ)
Assoc K V = List (K × V)

abbrev pub is_some {ℓ} : {A : Type ℓ} → Option A → Bool
is_some none = false
is_some (some a) = true

module _ {ℓ κ} {K : Type ℓ} {V : Type κ} where
  abbrev pub keys : Assoc K V → List K
  keys [] = []
  keys ((k, v) ∷ m) = k ∷ keys m

module _ {ℓ κ} {K : Type ℓ} {V : Type κ} ⦃e : Key K⦄ where
  -- v, found := m[k]
  unfoldable pub lookup : K → Assoc K V → Option V
  lookup wanted [] = none
  lookup wanted ((key, v) ∷ rest) = if key == wanted then some v else lookup wanted rest

  -- m[k] = v
  unfoldable pub put : K → V → Assoc K V → Assoc K V
  put new v [] = (new, v) ∷ []
  put new v ((key, w) ∷ rest) = if key == new then (new, v) ∷ rest else (key, w) ∷ put new v rest

  -- delete(m, k)
  unfoldable pub delete : K → Assoc K V → Assoc K V
  delete k [] = []
  delete k ((j, w) ∷ m) = let rest = delete k m in if j == k then rest else (j, w) ∷ rest

  pub lookup-put :
      (k j : K) (v : V) (m : Assoc K V)
      → lookup j (put k v m) ≡ (if k == j then some v else lookup j m)
  unfolding lookup put
  lookup-put k j v [] = refl
  lookup-put k j v ((i, w) ∷ m) =
      ground (arith, e.same_iff k j, e.same_iff i k, e.same_iff i j, lookup-put k j v m)

  pub lookup-delete :
      (k j : K) (m : Assoc K V) → lookup j (delete k m) ≡ (if k == j then none else lookup j m)
  unfolding lookup delete
  lookup-delete k j [] = ground arith
  lookup-delete k j ((i, w) ∷ m) =
      ground (arith, e.same_iff k j, e.same_iff i k, e.same_iff i j, lookup-delete k j m)

  pub elem-keys : (k : K) (m : Assoc K V) → elem k (keys m) ≡ is_some (lookup k m)
  unfolding lookup
  elem-keys k [] = refl
  elem-keys k ((j, v) ∷ m) = ground (arith, elem-keys k m)

  -- A map keeps each key once.
  pub keys-put-IsDistinct :
      (k : K) (v : V) (m : Assoc K V) → IsDistinct (keys m) → IsDistinct (keys (put k v m))
  unfolding put
  keys-put-IsDistinct k v [] d = (refl, tt)
  keys-put-IsDistinct k v ((j, w) ∷ m) d = elim (Bool-cases (j == k)) [
    | inl same ↦ rw same (ground (arith, e.same_iff j k), d.1)
    | inr other ↦ rw other (
      ground (
        arith,
        elem-keys j (put k v m),
        elem-keys j m,
        lookup-put k j v m,
        e.same_iff j k,
        e.same_iff k j,
      ),
      keys-put-IsDistinct k v m d.1,
    )
  ]

  pub length-keys-put-le :
      (k : K) (v : V) (m : Assoc K V) → length (keys (put k v m)) ≤ suc (length (keys m))
  unfolding put
  length-keys-put-le k v [] = omega arith
  length-keys-put-le k v ((j, w) ∷ m) = ground (arith, length-keys-put-le k v m)

  pub length-keys-put :
      (k : K) (v : V) (m : Assoc K V)
      → is_some (lookup k m) ≡ true
      → length (keys (put k v m)) ≡ length (keys m)
  unfolding put lookup
  length-keys-put k v [] h = ground arith
  length-keys-put k v ((j, w) ∷ m) h = ground (arith, length-keys-put k v m)

  -- What holds of every value holds of the one that is found.
  pub All-lookup {μ} :
      (P : V → Type μ) (k : K) (m : Assoc K V) {v : V}
      → All (λ entry. P entry.1) m
      → lookup k m ≡ some v
      → P v
  unfolding lookup
  All-lookup P k [] every found = absurd (none≢some found)
  All-lookup P k ((j, w) ∷ m) {v} every found = elim (Bool-cases (j == k)) [
    | inl same ↦ let is_v : w ≡ v = ground arith in rw (← is_v) every.0
    | inr other ↦ All-lookup P k m every.1 (ground arith)
  ]

  pub All-put {μ} :
      (P : V → Type μ) (k : K) (v : V) (m : Assoc K V)
      → P v
      → All (λ entry. P entry.1) m
      → All (λ entry. P entry.1) (put k v m)
  unfolding put
  All-put P k v [] here every = (here, tt)
  All-put P k v ((j, w) ∷ m) here every = elim (Bool-cases (j == k)) [
    | inl same ↦ rw same (here, every.1)
    | inr other ↦ rw other (every.0, All-put P k v m here every.1)
  ]
