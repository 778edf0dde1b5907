-- ===== src/Table/Mirror/Devices.antt =====
-- removeDevice takes the device, with all its capabilities, out of the table and out of the view.
use zda.Base.{
  ℕ, true, false, ◌≡◌, refl, ◌∙◌, none, some, List, [], ◌∷◌, ◌++◌, Assoc, lookup, delete,
  lookup-delete, elem, if◌then◌else◌, nat_key, arith, Option-cases, inl, inr,
}
use zda.Table.{Host, device_removed, device_gone, capability_gone, Device}
use zda.Table.Ops.{
  State, node_path, send_event, get_device, on_devices, on_store, detach_capability_from_device,
  detach_all, remove_device,
}
use zda.Table.Lookup.{is_same, get_device-delete}
use zda.Table.Mirror.{IsKeyed, Inv}
use zda.Table.Text.{itoa}
use zda.Table.Mirror.Steps.{map_device, sent-on_devices, Inv-same}
use zda.Table.Mirror.Removal.{without, get_device-detach, detach_capability_from_device-Inv}

module _ (h : Host) where
  open h use {Store, Impl, enumerate_device_flag, device_removal_flag, capability, detach}

  -- The flags of the capabilities in a map.
  abbrev flags : Assoc ℕ Impl → List ℕ
  flags [] = []
  flags ((cf, i) ∷ m) = capability i ∷ flags m

  elem-flags :
      (c : ℕ) (i : Impl) (m : Assoc ℕ Impl)
      → lookup c m ≡ some i
      → capability i ≡ c
      → elem c (flags m) ≡ true
  unfolding lookup
  elem-flags c i [] e k = ground arith
  elem-flags c i ((cf, j) ∷ m) e k = ground (arith, elem-flags c i m)

  pub on_store-Inv : (f : Store → Store) (g : State h) → Inv h g → Inv h (on_store h f g)
  unfolding get_device
  on_store-Inv f g = Inv-same h g (on_store h f g) refl (λ b t. refl)

  abbrev detached : Impl → State h → State h
  detached i g = on_store h (λ store. (detach i device_removed store).1) g

  detach_all-Inv :
      (a s : ℕ) (m : Assoc ℕ Impl) (g : State h) → Inv h g → Inv h (detach_all h a s m g)
  unfolding detach_all
  detach_all-Inv a s [] g v = v
  detach_all-Inv a s ((cf, i) ∷ m) g v =
      detach_all-Inv a s m (detach_capability_from_device h a s i (detached i g)) (
        detach_capability_from_device-Inv h a s i (detached i g)
          (on_store-Inv (λ store. (detach i device_removed store).1) g v))

  get_device-detached :
      (a s b t : ℕ) (i : Impl) (g : State h)
      → get_device h b t (detach_capability_from_device h a s i (detached i g)) ≡ (
          if is_same a s b t
          then map_device h (without h (capability i)) (get_device h b t g)
          else get_device h b t g)
  unfolding get_device
  get_device-detached a s b t i g = get_device-detach h a s b t i (detached i g)

  -- The other devices stay as they are.
  get_device-detach_all_other :
      (a s b t : ℕ) (m : Assoc ℕ Impl) (g : State h)
      → is_same a s b t ≡ false
      → get_device h b t (detach_all h a s m g) ≡ get_device h b t g
  unfolding detach_all
  get_device-detach_all_other a s b t [] g other = refl
  get_device-detach_all_other a s b t ((cf, i) ∷ m) g other =
      get_device-detach_all_other a s b t m _ other ∙ get_device-detached a s b t i g ∙ rw other

  -- The device itself is left without the capabilities.
  get_device-detach_all :
      (a s : ℕ) (m : Assoc ℕ Impl) (g : State h) (d : Device Impl)
      → get_device h a s g ≡ some d
      → (d' : Device Impl) × (get_device h a s (detach_all h a s m g) ≡ some d')
        × ((c : ℕ)
            → lookup c d'.capabilities
              ≡ (if elem c (flags m) then none else lookup c d.capabilities))
  unfolding detach_all
  get_device-detach_all a s [] g d found = (d, found, λ c. refl)
  get_device-detach_all a s ((cf, i) ∷ m) g d found =
      let now = get_device-detached a s a s i g in
      let found' : get_device h a s (detach_capability_from_device h a s i (detached i g))
          ≡ some (without h (capability i) d) =
        ground (arith, now, found) in
      let (d', e, left) =
        get_device-detach_all a s m (detach_capability_from_device h a s i (detached i g))
          (without h (capability i) d) found' in
      (d', e, λ c. left c ∙ ground (arith, lookup-delete (capability i) c d.capabilities))

  -- With all its capabilities detached the device has none.
  no_capabilities :
      (a s : ℕ) (g : State h) (d d' : Device Impl) (c : ℕ)
      → IsKeyed h g
      → get_device h a s g ≡ some d
      → lookup c d'.capabilities
        ≡ (if elem c (flags d.capabilities) then none else lookup c d.capabilities)
      → lookup c d'.capabilities ≡ none
  no_capabilities a s g d d' c keyed found e = elim (Option-cases (lookup c d.capabilities)) [
    | inl absent ↦ ground (arith, e, absent)
    | inr (i, listed) ↦
        let own = (keyed.keyed a s c d i found listed).0 in
        ground (arith, e, elem-flags c i d.capabilities listed own)
  ]

  -- The state of removeDevice before its last call on the store.
  abbrev left_by : ℕ → ℕ → State h → State h
  left_by a s g1 = on_devices h a (delete s) (
      send_event h (device_gone a s) (
        send_event h (capability_gone a s device_removal_flag)
          (send_event h (capability_gone a s enumerate_device_flag) g1)))

  get_device-left_by :
      (a s b t : ℕ) (g : State h)
      → get_device h b t (left_by a s g) ≡ (if is_same a s b t then none else get_device h b t g)
  unfolding get_device
  get_device-left_by a s b t g = get_device-delete h a s b t _

  left_by-Inv :
      (a s : ℕ) (g : State h) (d : Device Impl)
      → get_device h a s g ≡ some d
      → ((c : ℕ) → lookup c d.capabilities ≡ none)
      → Inv h g
      → Inv h (left_by a s g)
  left_by-Inv a s g d found bare v = record {
    mirrors = record {
      devices = λ b t.
          rw (get_device-left_by a s b t g, sent-on_devices h a (delete s) _)
            (ground (arith, v.mirrors.devices b t));
      capabilities = λ b t c.
          rw (get_device-left_by a s b t g, sent-on_devices h a (delete s) _)
            (ground (arith, found, bare c, v.mirrors.capabilities b t c));
    };
    keyed_caps = record {
      keyed = λ b t c d' i found' listed.
          ground (arith, get_device-left_by a s b t g, v.keyed_caps.keyed b t c d' i);
    };
  }

  pub remove_device-Inv : (a s : ℕ) (g : State h) → Inv h g → Inv h (remove_device h a s g).0
  unfolding remove_device
  remove_device-Inv a s g v = elim (Option-cases (get_device h a s g)) [
    | inl absent ↦ rw (absent, remove_device) v
    | inr (d, found) ↦
        let (d', found', left) = get_device-detach_all a s d.capabilities g d found in
        rw (found, remove_device)
          (on_store-Inv (h.section_delete (node_path h a ++ "Device" ∷ []) (itoa s)) _ (
            left_by-Inv a s (detach_all h a s d.capabilities g) d' found'
              (λ c. no_capabilities a s g d d' c v.keyed_caps found (left c))
              (detach_all-Inv a s d.capabilities g v)))
  ]

  get_device-removed :
      (a s b t : ℕ) (d : Device Impl) (g : State h)
      → get_device h b t (
          on_store h
            (h.section_delete (node_path h a ++ "Device" ∷ []) (itoa s))
            (left_by a s (detach_all h a s d.capabilities g)))
        ≡ (if is_same a s b t then none else get_device h b t g)
  unfolding get_device
  get_device-removed a s b t d g =
      get_device-left_by a s b t (detach_all h a s d.capabilities g)
      ∙ ground (arith, get_device-detach_all_other a s b t d.capabilities g)

  -- The removed device is gone, and no other device changes.
  pub get_device-remove_device :
      (a s b t : ℕ) (g : State h)
      → get_device h b t (remove_device h a s g).0
        ≡ (if is_same a s b t then none else get_device h b t g)
  unfolding remove_device
  get_device-remove_device a s b t g = elim (Option-cases (get_device h a s g)) [
    | inl absent ↦ rw (absent, remove_device) (ground (arith, absent))
    | inr (d, found) ↦ rw (found, remove_device) (get_device-removed a s b t d g)
  ]
