-- ===== src/Enumerate/NodeTable/Assign.antt =====
-- The loop of updateNodeTable that creates the missing devices.
use zda.Base.{
  ℕ, suc, ◌≤◌, ◌<◌, true, false, ◌≡◌, refl, ap, ◌∙◌, Option, none, some, List, [], ◌∷◌, Assoc, keys,
  lookup, put, lookup-put, is_some, elem-keys, length, IsDistinct, ◌==◌, nat_key, arith,
  Option-cases, inl, inr, keys-put-IsDistinct, length-keys-put, length-keys-put-le,
}
use zda.Node.{next_device_sub_identifier}
use zda.Node.SubIdentifier.{next_device_sub_identifier_least}
use zda.Table.{Host, Device, Node}
use zda.Table.Ops.{
  State, get_device, on_devices, on_device, new_device, create_specific_device, create_next_device,
  set_device_unique_id, sub_identifiers,
}
use zda.Table.Lookup.{is_node, is_node_of_device, lookup-on_devices}
use zda.Enumerate.NodeTable.{devices_of, devices_on, take_device}
use zda.Enumerate.NodeTable.Found.{HasId}

module _ (h : Host) where
  open h use {Impl}

  pub get_device-devices_on :
      (a s : ℕ) (g : State h) → get_device h a s g ≡ lookup s (devices_on h a g)
  unfolding get_device lookup
  get_device-devices_on a s g = ground arith

  devices_on-on_devices :
      (a : ℕ) (f : Assoc ℕ (Device Impl) → Assoc ℕ (Device Impl)) (g : State h)
      → is_node h a g ≡ true
      → devices_on h a (on_devices h a f g) ≡ f (devices_on h a g)
  devices_on-on_devices a f g node = elim (Option-cases (lookup a g.node)) [
    | inl absent ↦ ground (arith, absent)
    | inr (n, found) ↦ ap (devices_of h) (lookup-on_devices h a a f g) ∙ ground (arith, found)
  ]

  -- The device of `take_device` after setDeviceUniqueId.
  abbrev pub taken : ℕ → List ℕ → ℕ → State h → State h
  taken a unset id g =
      let (s, rest, g1) = take_device h a unset g in set_device_unique_id h a s id g1

  abbrev pub unique : ℕ → Device Impl → Device Impl
  unique id d = record d { device_id = id; device_id_set = true }

  on_device_found :
      (a s : ℕ) (f : Device Impl → Device Impl) (g : State h) {d : Device Impl}
      → get_device h a s g ≡ some d
      → on_device h a s f g ≡ on_devices h a (put s (f d)) g
  on_device_found a s f g found = rw (found, on_device)

  devices_on-set :
      (a s id : ℕ) (g : State h) {d : Device Impl}
      → lookup s (devices_on h a g) ≡ some d
      → devices_on h a (set_device_unique_id h a s id g) ≡ put s (unique id d) (devices_on h a g)
  unfolding set_device_unique_id
  devices_on-set a s id g {d} found =
      let held : get_device h a s g ≡ some d = get_device-devices_on a s g ∙ found in
      ap (devices_on h a) (on_device_found a s (unique id) g held)
      ∙ devices_on-on_devices a (put s (unique id d)) g (is_node_of_device h a s g held)

  devices_on-create :
      (a : ℕ) (g : State h)
      → is_node h a g ≡ true
      → devices_on h a (create_next_device h a g).0
        ≡ put (create_next_device h a g).1 (new_device h) (devices_on h a g)
  unfolding create_next_device create_specific_device
  devices_on-create a g node =
      devices_on-on_devices a
        (put (next_device_sub_identifier (sub_identifiers h (lookup a g.node))) (new_device h)) g
        node

  created_id :
      (a : ℕ) (g : State h)
      → (create_next_device h a g).1 ≡ next_device_sub_identifier (keys (devices_on h a g))
  unfolding create_next_device
  created_id a g = ap next_device_sub_identifier (used (lookup a g.node))
    where
      used : (o : Option (Node Impl)) → sub_identifiers h o ≡ keys (devices_of h o)
      used none = refl
      used (some n) = refl

  -- What a step of the loop does to the devices: `s` has the identifier `id`, and the others stay.
  pub record Taken (m m' : Assoc ℕ (Device Impl)) (s id : ℕ) : Type 0 where
    pub at : HasId m' s id
    pub others : (t : ℕ) → (s == t) ≡ false → lookup t m' ≡ lookup t m
    pub distinct : IsDistinct (keys m')
    pub size : length (keys m') ≤ suc (length (keys m))

  put-Taken :
      (s id : ℕ) (d : Device Impl) (m : Assoc ℕ (Device Impl))
      → IsDistinct (keys m)
      → Taken m (put s (unique id d) m) s id
  put-Taken s id d m distinct = record {
    at = (unique id d, lookup-put s s (unique id d) m ∙ ground arith, refl);
    others = λ t other. lookup-put s t (unique id d) m ∙ ground (arith, other);
    distinct = keys-put-IsDistinct s (unique id d) m distinct;
    size = length-keys-put-le s (unique id d) m;
  }

  put_twice-Taken :
      (s id : ℕ) (d : Device Impl) (m : Assoc ℕ (Device Impl))
      → IsDistinct (keys m)
      → Taken m (put s (unique id d) (put s d m)) s id
  put_twice-Taken s id d m distinct =
      let m1 = put s d m in
      let second = put-Taken s id d m1 (keys-put-IsDistinct s d m distinct) in
      record {
        at = second.at;
        others = λ t other. second.others t other ∙ lookup-put s t d m ∙ ground (arith, other);
        distinct = second.distinct;
        size = omega (
          arith,
          length-keys-put s (unique id d) m1 (ap is_some (lookup-put s s d m) ∙ ground arith),
          length-keys-put-le s d m,
        );
      }

  -- A device without a unique identifier has 0 there.
  abbrev pub Blank : Assoc ℕ (Device Impl) → ℕ → Type 0
  Blank m s = (d : Device Impl) × (lookup s m ≡ some d) × (d.device_id ≡ 0)

  -- The sub-identifier that a step takes.
  abbrev pub taken_id : ℕ → List ℕ → State h → ℕ
  taken_id a unset g = let (s, rest, g1) = take_device h a unset g in s

  pub unset-Taken :
      (a s id : ℕ) (rest : List ℕ) (g : State h)
      → IsDistinct (keys (devices_on h a g))
      → Blank (devices_on h a g) s
      → Taken (devices_on h a g) (devices_on h a (taken a (s ∷ rest) id g)) s id
  unset-Taken a s id rest g distinct (d, found, zero) =
      rw (devices_on-set a s id g found) (put-Taken s id d (devices_on h a g) distinct)

  pub created-Taken :
      (a id : ℕ) (g : State h)
      → IsDistinct (keys (devices_on h a g))
      → is_node h a g ≡ true
      → Taken (devices_on h a g) (devices_on h a (taken a [] id g)) (taken_id a [] g) id
  created-Taken a id g distinct node =
      let s = (create_next_device h a g).1 in
      let g1 = (create_next_device h a g).0 in
      let m1 = devices_on-create a g node in
      let found : lookup s (devices_on h a g1) ≡ some (new_device h) =
        ap (lookup s) m1 ∙ lookup-put s s (new_device h) (devices_on h a g) ∙ ground arith in
      let m2 = devices_on-set a s id g1 found ∙ ap (put s (unique id (new_device h))) m1 in
      rw m2 (put_twice-Taken s id (new_device h) (devices_on h a g) distinct)

  -- With room for it, the device that is created is a new one.
  pub created_absent :
      (a : ℕ) (g : State h)
      → length (keys (devices_on h a g)) < 256
      → lookup (taken_id a [] g) (devices_on h a g) ≡ none
  created_absent a g room = ground (
    arith,
    created_id a g,
    next_device_sub_identifier_least (keys (devices_on h a g)) room,
    elem-keys (taken_id a [] g) (devices_on h a g),
  )
