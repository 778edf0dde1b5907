-- ===== src/Enumerate/NodeTable/Found.antt =====
-- What the searches of updateNodeTable find.
use zda.Base.{
  ℕ, Bool, true, false, ◌≡◌, refl, Option, none, some, List, [], ◌∷◌, Assoc, keys, lookup,
  lookup-put, is_some, elem, elem-keys, All, IsDistinct, ◌||◌, ◌==◌, if◌then◌else◌, nat_key, arith,
  Bool-cases, Option-cases, inl, inr, All-map,
}
use zda.Table.{Device}
use zda.Enumerate.NodeTable.{unset_devices, find_device, enter, match_devices, stale_devices}

-- Every identifier in the mapping comes from the inventory.
abbrev pub Within : Assoc ℕ ℕ → List ℕ → Type 0
Within mapping ids = (id : ℕ) → is_some (lookup id mapping) ≡ true → elem id ids ≡ true

enter-is_some :
    (id j : ℕ) (o : Option ℕ) (mapping : Assoc ℕ ℕ)
    → is_some (lookup j (enter id o mapping)) ≡ true
    → (id == j || is_some (lookup j mapping)) ≡ true
enter-is_some id j none mapping e = ground arith
enter-is_some id j (some s) mapping e = ground (arith, lookup-put id j s mapping)

module _ {I : Type 0} where
  -- The device under `s` has the identifier `id`.
  abbrev pub HasId : Assoc ℕ (Device I) → ℕ → ℕ → Type 0
  HasId m s id = (d : Device I) × (lookup s m ≡ some d) × (d.device_id ≡ id)

  abbrev pub IsUnset : Assoc ℕ (Device I) → ℕ → Type 0
  IsUnset m s = (d : Device I) × (lookup s m ≡ some d) × (d.device_id_set ≡ false)

  -- An entry behind one with another key is found as before.
  lookup-behind :
      (k s : ℕ) (d e : Device I) (m : Assoc ℕ (Device I))
      → elem k (keys m) ≡ false
      → lookup s m ≡ some e
      → lookup s ((k, d) ∷ m) ≡ some e
  unfolding lookup
  lookup-behind k s d e m new found = ground (arith, elem-keys s m)

  lookup-front : (k : ℕ) (d : Device I) (m : Assoc ℕ (Device I)) → lookup k ((k, d) ∷ m) ≡ some d
  unfolding lookup
  lookup-front k d m = ground arith

  pub find_device-HasId :
      (id : ℕ) (m : Assoc ℕ (Device I)) {s : ℕ}
      → IsDistinct (keys m)
      → find_device id m ≡ some s
      → HasId m s id
  unfolding find_device
  find_device-HasId id [] distinct found = ground arith
  find_device-HasId id ((k, d) ∷ m) {s} distinct found = elim (Bool-cases (d.device_id == id)) [
    | inl same ↦ let at : k ≡ s = ground arith in (d, rw (← at) (lookup-front k d m), ground arith)
    | inr other ↦
        let (e, held, is_id) = find_device-HasId id m distinct.1 (ground arith) in
        (e, lookup-behind k s d e m distinct.0 held, is_id)
  ]

  IsUnset-head :
      (k : ℕ) (d : Device I) (m : Assoc ℕ (Device I)) (rest : List ℕ) (b : Bool)
      → d.device_id_set ≡ b
      → All (IsUnset ((k, d) ∷ m)) rest
      → All (IsUnset ((k, d) ∷ m)) (if b then rest else k ∷ rest)
  IsUnset-head k d m rest true e u = u
  IsUnset-head k d m rest false e u = ((d, lookup-front k d m, e), u)

  pub unset_devices-IsUnset :
      (m : Assoc ℕ (Device I)) → IsDistinct (keys m) → All (IsUnset m) (unset_devices m)
  unfolding unset_devices
  unset_devices-IsUnset [] distinct = tt
  unset_devices-IsUnset ((k, d) ∷ m) distinct =
      IsUnset-head k d m (unset_devices m) d.device_id_set refl (
        All-map (IsUnset m) (IsUnset ((k, d) ∷ m)) (unset_devices m)
          (λ s u. (u.0, lookup-behind k s d u.0 m distinct.0 u.1, u.2))
          (unset_devices-IsUnset m distinct.1))

  elem-unset_devices :
      (s : ℕ) (m : Assoc ℕ (Device I)) → elem s (unset_devices m) ≡ true → elem s (keys m) ≡ true
  unfolding unset_devices
  elem-unset_devices s [] e = ground arith
  elem-unset_devices s ((k, d) ∷ m) e = ground (arith, elem-unset_devices s m)

  pub unset_devices-IsDistinct :
      (m : Assoc ℕ (Device I)) → IsDistinct (keys m) → IsDistinct (unset_devices m)
  unfolding unset_devices
  unset_devices-IsDistinct [] distinct = tt
  unset_devices-IsDistinct ((k, d) ∷ m) distinct = elim (Bool-cases d.device_id_set) [
    | inl set ↦ rw set (unset_devices-IsDistinct m distinct.1)
    | inr unset ↦
        rw unset (ground (arith, elem-unset_devices k m), unset_devices-IsDistinct m distinct.1)
  ]

  -- Every device whose identifier the mapping lacks is stale.
  pub stale_devices-all :
      (mapping : Assoc ℕ ℕ) (s : ℕ) (m : Assoc ℕ (Device I)) {d : Device I}
      → lookup s m ≡ some d
      → is_some (lookup d.device_id mapping) ≡ false
      → elem s (stale_devices mapping m) ≡ true
  unfolding stale_devices lookup
  stale_devices-all mapping s [] found missing = ground arith
  stale_devices-all mapping s ((k, e) ∷ m) {d} found missing = elim (Bool-cases (k == s)) [
    | inl same ↦
        let at : e ≡ d = ground arith in
        let lacks : is_some (lookup e.device_id mapping) ≡ false = rw at missing in
        rw lacks (ground arith)
    | inr other ↦ ground (arith, stale_devices-all mapping s m {d = d})
  ]

  elem-stale_devices :
      (mapping : Assoc ℕ ℕ) (s : ℕ) (m : Assoc ℕ (Device I))
      → elem s (stale_devices mapping m) ≡ true
      → elem s (keys m) ≡ true
  unfolding stale_devices
  elem-stale_devices mapping s [] e = ground arith
  elem-stale_devices mapping s ((k, d) ∷ m) e = ground (arith, elem-stale_devices mapping s m)

  -- A device whose identifier the mapping has is not stale.
  pub stale_devices-only :
      (mapping : Assoc ℕ ℕ) (s : ℕ) (m : Assoc ℕ (Device I)) {d : Device I}
      → IsDistinct (keys m)
      → lookup s m ≡ some d
      → is_some (lookup d.device_id mapping) ≡ true
      → elem s (stale_devices mapping m) ≡ false
  unfolding stale_devices lookup
  stale_devices-only mapping s [] distinct found has = ground arith
  stale_devices-only mapping s ((k, e) ∷ m) {d} distinct found has = elim (Bool-cases (k == s)) [
    | inl same ↦
        let at : e ≡ d = ground arith in
        let has_e : is_some (lookup e.device_id mapping) ≡ true = rw at has in
        rw has_e (ground (arith, elem-stale_devices mapping s m))
    | inr other ↦ ground (arith, stale_devices-only mapping s m {d = d})
  ]

  -- The mapping agrees with the devices.
  abbrev pub Agrees : Assoc ℕ (Device I) → Assoc ℕ ℕ → Type 0
  Agrees m mapping = (id s : ℕ) → lookup id mapping ≡ some s → HasId m s id

  enter-Agrees :
      (m : Assoc ℕ (Device I)) (id : ℕ) (mapping : Assoc ℕ ℕ)
      → IsDistinct (keys m)
      → Agrees m mapping
      → Agrees m (enter id (find_device id m) mapping)
  enter-Agrees m id mapping distinct agrees = elim (Option-cases (find_device id m)) [
    | inl absent ↦ rw absent agrees
    | inr (s, found) ↦ rw found λ j t e. elim (Bool-cases (id == j)) [
      | inl same ↦
          let is_s : s ≡ t = ground (arith, lookup-put id j s mapping) in
          let is_j : id ≡ j = ground arith in
          rw (← is_s, ← is_j) (find_device-HasId id m distinct found)
      | inr other ↦ agrees j t (ground (arith, lookup-put id j s mapping))
    ]
  ]

  pub match_devices-Agrees :
      (m : Assoc ℕ (Device I)) (ids : List ℕ) (mapping : Assoc ℕ ℕ)
      → IsDistinct (keys m)
      → Agrees m mapping
      → Agrees m (match_devices m ids mapping)
  unfolding match_devices
  match_devices-Agrees m [] mapping distinct agrees = agrees
  match_devices-Agrees m (id ∷ ids) mapping distinct agrees =
      match_devices-Agrees m ids (enter id (find_device id m) mapping) distinct
        (enter-Agrees m id mapping distinct agrees)

  pub match_devices-Within :
      (m : Assoc ℕ (Device I)) (ids : List ℕ) (mapping : Assoc ℕ ℕ) (j : ℕ)
      → is_some (lookup j (match_devices m ids mapping)) ≡ true
      → (elem j ids || is_some (lookup j mapping)) ≡ true
  unfolding match_devices
  match_devices-Within m [] mapping j e = e
  match_devices-Within m (id ∷ ids) mapping j e = ground (
    arith,
    match_devices-Within m ids (enter id (find_device id m) mapping) j,
    enter-is_some id j (find_device id m) mapping,
  )
