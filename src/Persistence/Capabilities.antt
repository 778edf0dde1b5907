-- ===== src/Persistence/Capabilities.antt =====
-- The loop of providerLoadDevice over the capabilities of a device.
use zda.Base.{
  ℕ, String, Bool, true, false, ◌≡◌, ◌≢◌, refl, ap, ◌∙◌, Option, none, some, List, [], ◌∷◌, ◌++◌,
  is_some, if◌then◌else◌, nat_key, arith, Option-cases, inl, inr, put,
}
use zda.Table.{Host, Device}
use zda.Table.Ops.{
  node_path, device_path, State, get_device, on_devices, on_device, on_store,
  attach_capability_to_device,
}
use zda.Table.Lookup.{is_node, is_same, is_node-on_devices}
use zda.Table.Mirror.{Inv}
use zda.Table.Mirror.Steps.{map_device}
use zda.Table.Mirror.Devices.{on_store-Inv}
use zda.Table.Mirror.Attach.{get_device-attach, attach_capability_to_device-Inv}
use zda.Enumerate.Factory.{Implementations, create}
use zda.Persistence.{
  Reader, loaded, capabilities_path, made, implemented, load_capability, load_capabilities,
}
use zda.Persistence.Kept.{path_of, one_capability, Contents, IsListed, IsKept, IsLoadable}

module _ (h : Host) where
  open h use {Store, Impl}

  -- What providerLoad gives a device, apart from its capabilities.
  abbrev pub identity : Option (Device Impl) → Option (ℕ × Bool)
  identity none = none
  identity (some d) = some (d.device_id, d.device_id_set)

  pub is_node-on_device :
      (a s b : ℕ) (u : Device Impl → Device Impl) (g : State h)
      → is_node h b (on_device h a s u g) ≡ is_node h b g
  is_node-on_device a s b u g = elim (Option-cases (get_device h a s g)) [
    | inl absent ↦ rw (absent, on_device) refl
    | inr (d, found) ↦ rw (found, on_device) (is_node-on_devices h a b (put s (u d)) g)
  ]

  pub store-on_device :
      (a s : ℕ) (u : Device Impl → Device Impl) (g : State h)
      → (on_device h a s u g).store ≡ g.store
  unfolding on_devices
  store-on_device a s u g = elim (Option-cases (get_device h a s g)) [
    | inl absent ↦ rw (absent, on_device) refl
    | inr (d, found) ↦ rw (found, on_device) (ground arith)
  ]

  -- attachCapabilityToDevice opens the section of the capability.
  store-attach :
      (a s : ℕ) (i : Impl) (g : State h)
      → (attach_capability_to_device h a s i g).store
        ≡ h.section
            (device_path h a s ++ "Capability" ∷ h.standard_name (h.capability i) ∷ [])
            g.store
  unfolding attach_capability_to_device
  store-attach a s i g =
      ap (h.section (device_path h a s ++ "Capability" ∷ h.standard_name (h.capability i) ∷ [])) (
        store-on_device a s (λ d. record d { capabilities = put (h.capability i) i d.capabilities })
          g)

  is_node-attach :
      (a s b : ℕ) (i : Impl) (g : State h)
      → is_node h b (attach_capability_to_device h a s i g) ≡ is_node h b g
  unfolding attach_capability_to_device
  is_node-attach a s b i g =
      is_node-on_device a s b
        (λ d. record d { capabilities = put (h.capability i) i d.capabilities }) g

  identity-attach :
      (a s b t : ℕ) (i : Impl) (g : State h)
      → identity (get_device h b t (attach_capability_to_device h a s i g))
        ≡ identity (get_device h b t g)
  identity-attach a s b t i g =
      ap identity (get_device-attach h a s b t i g) ∙ by_case (is_same a s b t) (get_device h b t g)
    where
      by_case :
          (same : Bool) (o : Option (Device Impl))
          → identity (
              if same
              then map_device h
                  (λ d. record d { capabilities = put (h.capability i) i d.capabilities })
                  o
              else o)
            ≡ identity o
      by_case true none = refl
      by_case true (some d) = refl
      by_case false o = refl

  is_some_of_identity :
      (o o' : Option (Device Impl)) → identity o ≡ identity o' → is_some o ≡ is_some o'
  is_some_of_identity none none e = refl
  is_some_of_identity none (some d) e = ap is_some e
  is_some_of_identity (some d) none e = ap is_some e
  is_some_of_identity (some d) (some d') e = refl

module _ (h : Host) {V : Type 0} (f : Implementations h V) (r : Reader h) (c : Contents h f r)
    (Good : h.Store → Type 0) where
  open h use {Store, Impl, Failure}

  -- A state that differs from `g0` in its capabilities and its store alone.
  pub record After (g0 g : State h) : Type 0 where
    pub inv : Inv h g
    pub good : Good g.store
    pub same_identity :
        (b t : ℕ) → identity h (get_device h b t g) ≡ identity h (get_device h b t g0)
    pub same_node : (b : ℕ) → is_node h b g ≡ is_node h b g0

  pub After-on_store :
      (u : Store → Store) (g0 g : State h)
      → Good (u g.store)
      → After g0 g
      → After g0 (on_store h u g)
  unfolding get_device
  After-on_store u g0 g good k = record {
    inv = on_store-Inv h u g k.inv;
    good = good;
    same_identity = k.same_identity;
    same_node = k.same_node;
  }

  attach-After :
      (a s : ℕ) (i : Impl) (g0 g : State h)
      → is_some (get_device h a s g0) ≡ true
      → (h.capability i ≢ h.enumerate_device_flag) × (h.capability i ≢ h.device_removal_flag)
      → Good (
          h.section (path_of h f r (one_capability a s (h.standard_name (h.capability i)))) g.store)
      → After g0 g
      → After g0 (attach_capability_to_device h a s i g)
  unfolding device_path node_path
  attach-After a s i g0 g there (not_e, not_r) good k = record {
    inv =
        attach_capability_to_device-Inv h a s i g
          (is_some_of_identity h _ _ (k.same_identity a s) ∙ there) (ground arith) (ground arith)
          k.inv;
    good = rw (store-attach h a s i g) good;
    same_identity = λ b t. identity-attach h a s b t i g ∙ k.same_identity b t;
    same_node = λ b. is_node-attach h a s b i g ∙ k.same_node b;
  }

  module _ (kept : IsKept h f r c Good) (sound : IsLoadable h f r) where
    loaded-After :
        (a s : ℕ) (l : Bool × Option Failure × Impl × Store) (g0 g : State h)
        → is_some (get_device h a s g0) ≡ true
        → IsListed h f r c a s
        → (h.capability l.2 ≢ h.enumerate_device_flag) × (h.capability l.2 ≢ h.device_removal_flag)
        → Good l.3
        → After g0 g
        → After g0 (loaded h f r a s l g)
    loaded-After a s (true, e, i, store) g0 g there listed not_built_in good k =
        attach-After a s i g0 (record g { store = store }) there not_built_in
          (kept.section_kept store (one_capability a s (h.standard_name (h.capability i))) good
            listed)
          (After-on_store (λ _. store) g0 g good k)
    loaded-After a s (false, e, i, store) g0 g there listed not_built_in good k =
        After-on_store (λ _. store) g0 g good k

    made-After :
        (a s : ℕ) (name implementation : String) (o : Option Impl) (g0 g : State h)
        → is_some (get_device h a s g0) ≡ true
        → IsListed h f r c a s
        → create h f implementation ≡ o
        → After g0 g
        → After g0 (made h f r a s name o g)
    made-After a s name implementation none g0 g there listed e k = k
    made-After a s name implementation (some i) g0 g there listed e k =
        let path = capabilities_path h f r a s ++ name ∷ "Data" ∷ [] in
        let (i1, store1) = f.init a s path i g.store in
        let good = kept.init_kept g.store a s name i k.good listed in
        loaded-After a s (f.load i1 store1) g0 (record g { store = store1 }) there listed
          (rw (sound.load_capability i1 store1, sound.init_capability a s path i g.store)
            (sound.not_built_in implementation i e))
          (kept.load_kept store1 g.store a s name i good listed)
          (After-on_store (λ _. store1) g0 g good k)

    implemented-After :
        (a s : ℕ) (name : String) (o : Option String) (g0 g : State h)
        → is_some (get_device h a s g0) ≡ true
        → IsListed h f r c a s
        → After g0 g
        → After g0 (implemented h f r a s name o g)
    implemented-After a s name none g0 g there listed k = k
    implemented-After a s name (some implementation) g0 g there listed k =
        made-After a s name implementation (create h f implementation) g0 g there listed refl k

    pub load_capabilities-After :
        (a s : ℕ) (names : List String) (g0 g : State h)
        → is_some (get_device h a s g0) ≡ true
        → IsListed h f r c a s
        → After g0 g
        → After g0 (load_capabilities h f r a s names g)
    unfolding load_capabilities load_capability
    load_capabilities-After a s [] g0 g there listed k = k
    load_capabilities-After a s (name ∷ names) g0 g there listed k =
        load_capabilities-After a s names g0 (load_capability h f r a s name g) there listed (
          implemented-After a s name _ g0 _ there listed (
            After-on_store (h.section (path_of h f r (one_capability a s name))) g0 g
              (kept.section_kept g.store (one_capability a s name) k.good listed) k))
