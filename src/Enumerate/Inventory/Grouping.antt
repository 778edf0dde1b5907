-- ===== src/Enumerate/Inventory/Grouping.antt =====
-- The devices that groupInventoryDevices makes of the endpoints.
use zda.Base.{
  ℕ, true, false, ◌≡◌, ◌≤◌, refl, ap, ◌∙◌, Option, none, some, List, [], ◌∷◌, Assoc, keys, lookup,
  put, lookup-put, is_some, leb, elem, elem-keys, All, All-map, All-of_elem, false≢true, IsDistinct,
  nat_key, arith, Bool-cases, Option-cases, inl, inr,
}
use zda.Enumerate.Inventory.{
  EndpointDetails, Inventory, InventoryDevice, insert_int, sort_ints, inventory_devices,
  out_devices, group_inventory_devices,
}

-- In ascending order.
abbrev pub IsSorted : List ℕ → Type 0
IsSorted [] = Unit
IsSorted (a ∷ as') = All (λ b. a ≤ b) as' × IsSorted as'

elem-insert_int : (k a : ℕ) (bs : List ℕ) → elem k (insert_int a bs) ≡ elem k (a ∷ bs)
unfolding insert_int
elem-insert_int k a [] = refl
elem-insert_int k a (b ∷ bs) = ground (arith, elem-insert_int k a bs)

elem-sort_ints : (k : ℕ) (as' : List ℕ) → elem k (sort_ints as') ≡ elem k as'
unfolding sort_ints
elem-sort_ints k [] = refl
elem-sort_ints k (a ∷ as') =
    ground (arith, elem-insert_int k a (sort_ints as'), elem-sort_ints k as')

insert_int-All : (P : ℕ → Type 0) (a : ℕ) (bs : List ℕ) → P a → All P bs → All P (insert_int a bs)
unfolding insert_int
insert_int-All P a [] here rest = (here, tt)
insert_int-All P a (b ∷ bs) here rest = elim (Bool-cases (leb a b)) [
  | inl before ↦ rw before (here, rest)
  | inr behind ↦ rw behind (rest.0, insert_int-All P a bs here rest.1)
]

insert_int-IsSorted : (a : ℕ) (bs : List ℕ) → IsSorted bs → IsSorted (insert_int a bs)
unfolding insert_int
insert_int-IsSorted a [] sorted = (tt, tt)
insert_int-IsSorted a (b ∷ bs) sorted = elim (Bool-cases (leb a b)) [
  | inl before ↦
      let a_first : a ≤ b = ground arith in
      rw before
        ((a_first, All-map (λ c. b ≤ c) (λ c. a ≤ c) bs (λ c later. omega arith) sorted.0), sorted)
  | inr behind ↦
      let b_first : b ≤ a = ground arith in
      rw behind
        (insert_int-All (λ c. b ≤ c) a bs b_first sorted.0, insert_int-IsSorted a bs sorted.1)
]

sort_ints-IsSorted : (as' : List ℕ) → IsSorted (sort_ints as')
unfolding sort_ints
sort_ints-IsSorted [] = tt
sort_ints-IsSorted (a ∷ as') = insert_int-IsSorted a (sort_ints as') (sort_ints-IsSorted as')

insert_int-IsDistinct :
    (a : ℕ) (bs : List ℕ) → elem a bs ≡ false → IsDistinct bs → IsDistinct (insert_int a bs)
unfolding insert_int
insert_int-IsDistinct a [] new distinct = (refl, tt)
insert_int-IsDistinct a (b ∷ bs) new distinct = elim (Bool-cases (leb a b)) [
  | inl before ↦ rw before (new, distinct)
  | inr behind ↦
      rw behind (
        ground (arith, elem-insert_int b a bs),
        insert_int-IsDistinct a bs (ground arith) distinct.1,
      )
]

sort_ints-IsDistinct : (as' : List ℕ) → IsDistinct as' → IsDistinct (sort_ints as')
unfolding sort_ints
sort_ints-IsDistinct [] distinct = tt
sort_ints-IsDistinct (a ∷ as') distinct =
    insert_int-IsDistinct a (sort_ints as') (elem-sort_ints a as' ∙ distinct.0)
      (sort_ints-IsDistinct as' distinct.1)

module _ {V : Type 0} where
  abbrev pub unique_ids : List (InventoryDevice V) → List ℕ
  unique_ids [] = []
  unique_ids (d ∷ ds) = d.unique_id ∷ unique_ids ds

  abbrev own : ℕ → EndpointDetails V → InventoryDevice V
  own id ep = record { unique_id = id; endpoints = ep ∷ [] }

  abbrev or_own :
      ℕ → Option (EndpointDetails V) → Option (InventoryDevice V) → Option (InventoryDevice V)
  or_own id none o = o
  or_own id (some ep) o = some (own id ep)

  lookup-inventory_devices :
      (id : ℕ) (m : Assoc ℕ (EndpointDetails V)) (devices : Assoc ℕ (InventoryDevice V))
      → IsDistinct (keys m)
      → lookup id (inventory_devices m devices) ≡ or_own id (lookup id m) (lookup id devices)
  unfolding inventory_devices lookup
  lookup-inventory_devices id [] devices distinct = refl
  lookup-inventory_devices id ((k, ep) ∷ m) devices distinct = ground (
    arith,
    lookup-inventory_devices id m (put k (own k ep) devices) distinct.1,
    lookup-put k id (own k ep) devices,
    elem-keys id m,
  )

  -- The device is the endpoint of its identifier.
  abbrev pub IsOwn : Assoc ℕ (EndpointDetails V) → InventoryDevice V → Type 0
  IsOwn m d = (ep : EndpointDetails V) × (lookup d.unique_id m ≡ some ep) × (d.endpoints ≡ ep ∷ [])

  unique_ids-out_devices :
      (m : Assoc ℕ (EndpointDetails V)) (ids : List ℕ)
      → IsDistinct (keys m)
      → All (λ id. is_some (lookup id m) ≡ true) ids
      → (unique_ids (out_devices (inventory_devices m []) ids) ≡ ids)
        × All (IsOwn m) (out_devices (inventory_devices m []) ids)
  unfolding out_devices
  unique_ids-out_devices m [] distinct known = (refl, tt)
  unique_ids-out_devices m (id ∷ ids) distinct known = elim (Option-cases (lookup id m)) [
    | inl absent ↦ absurd (false≢true (ground (arith, absent)))
    | inr (ep, found) ↦
        let device : lookup id (inventory_devices m []) ≡ some (own id ep) =
          lookup-inventory_devices id m [] distinct ∙ ap (λ o. or_own id o (lookup id [])) found in
        let (same, every) = unique_ids-out_devices m ids distinct known.1 in
        rw device (ap (λ rest. id ∷ rest) same, ((ep, found, refl), every))
  ]

  -- What groupInventoryDevices promises.
  pub record IsGrouped (m : Assoc ℕ (EndpointDetails V)) (devices : List (InventoryDevice V))
      : Type 0 where
    pub sorted : IsSorted (unique_ids devices)
    pub distinct : IsDistinct (unique_ids devices)
    pub covers : (id : ℕ) → elem id (unique_ids devices) ≡ is_some (lookup id m)
    pub every : All (IsOwn m) devices

  -- For an inventory that has each endpoint once, groupInventoryDevices makes one device of each
  -- endpoint, also where endpoints have the same DeviceID, and no other, with the endpoint's number
  -- as its identifier, in ascending order of these.
  pub group_inventory_devices-IsGrouped :
      (inv : Inventory V)
      → IsDistinct (keys inv.endpoints)
      → IsGrouped inv.endpoints (group_inventory_devices inv)
  unfolding group_inventory_devices
  group_inventory_devices-IsGrouped inv distinct =
      let m = inv.endpoints in
      let ids = sort_ints (keys m) in
      let known =
        All-of_elem (λ id. is_some (lookup id m) ≡ true) ids
          (λ id listed. ground (arith, elem-sort_ints id (keys m), elem-keys id m)) in
      let (same, every) = unique_ids-out_devices m ids distinct known in
      record {
        sorted = rw same (sort_ints-IsSorted (keys m));
        distinct = rw same (sort_ints-IsDistinct (keys m) distinct);
        covers = λ id. rw same (elem-sort_ints id (keys m) ∙ elem-keys id m);
        every = every;
      }
