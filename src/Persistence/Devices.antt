-- ===== src/Persistence/Devices.antt =====
-- providerLoadDevice, and the loop of providerLoadNode over the devices of a node.
use zda.Base.{
  beq_refl, none≢some, Assoc, ℕ, Bool, true, false, ◌≡◌, refl, ap, sym, ◌∙◌, Option, none, some,
  is_some, if◌then◌else◌, nat_key, arith, put,
}
use zda.Table.{Host, Device}
use zda.Table.Ops.{
  on_devices, State, new_device, device_path, get_device, on_store, on_devices,
  create_specific_device, set_device_unique_id,
}
use zda.Table.Lookup.{is_node, is_same, is_node-on_devices}
use zda.Table.Mirror.{Inv}
use zda.Table.Mirror.Steps.{
  map_device, create_specific_device-Inv, get_device-create_specific_device,
}
use zda.Table.Mirror.Attach.{get_device-set_device_unique_id, set_device_unique_id-Inv}
use zda.Table.Mirror.Devices.{on_store-Inv}
use zda.Enumerate.Factory.{Implementations}
use zda.Persistence.{Reader, capabilities_path, identified, provider_load_device}
use zda.Persistence.Kept.{one_device, all_capabilities, Contents, IsListed, IsKept, IsLoadable}
use zda.Persistence.Capabilities.{
  identity, is_node-on_device, store-on_device, load_capabilities-After,
}

-- The identifier of a device, by its key.
abbrev pub of_id : Option ℕ → ℕ × Bool
of_id none = (0, false)
of_id (some id) = (id, true)

module _ (h : Host) where
  open h use {Store, Impl}

  -- Device `a`, `s` is there with the identity `v`, and the others are what they were.
  abbrev pub Becomes : ℕ → ℕ → ℕ × Bool → State h → State h → Type 0
  Becomes a s v g g' =
      (b t : ℕ)
      → identity h (get_device h b t g')
        ≡ (if is_same a s b t then some v else identity h (get_device h b t g))

  is_node-create_specific_device :
      (a s b : ℕ) (g : State h) → is_node h b (create_specific_device h a s g) ≡ is_node h b g
  unfolding create_specific_device
  is_node-create_specific_device a s b g = is_node-on_devices h a b (put s (new_device h)) g

  store-on_devices :
      (a : ℕ) (u : Assoc ℕ (Device Impl) → Assoc ℕ (Device Impl)) (g : State h)
      → (on_devices h a u g).store ≡ g.store
  unfolding on_devices
  store-on_devices a u g = ground arith

  store-create_specific_device :
      (a s : ℕ) (g : State h)
      → (create_specific_device h a s g).store ≡ h.section (device_path h a s) g.store
  unfolding create_specific_device
  store-create_specific_device a s g =
      ap (h.section (device_path h a s)) (store-on_devices a (put s (new_device h)) g)

  is_some_of_own :
      (a s : ℕ) (v : ℕ × Bool) (g g' : State h)
      → Becomes a s v g g'
      → is_some (get_device h a s g') ≡ true
  is_some_of_own a s v g g' k =
      by_case (get_device h a s g') (k a s ∙ rw (beq_refl a, beq_refl s) refl)
    where
      by_case : (o : Option (Device Impl)) → identity h o ≡ some v → is_some o ≡ true
      by_case none e = absurd (none≢some e)
      by_case (some d) e = refl

  create-Becomes :
      (a s : ℕ) (g : State h)
      → is_node h a g ≡ true
      → Becomes a s (0, false) g (create_specific_device h a s g)
  create-Becomes a s g node b t =
      ap (identity h) (get_device-create_specific_device h a s b t g) ∙ ground (arith, node)

  set-Becomes :
      (a s id : ℕ) (g0 g : State h)
      → Becomes a s (0, false) g0 g
      → Becomes a s (id, true) g0 (set_device_unique_id h a s id g)
  set-Becomes a s id g0 g k b t =
      ap (identity h) (get_device-set_device_unique_id h a s id b t g)
      ∙ by_case (is_same a s b t) (get_device h b t g) (k b t)
    where
      by_case :
          (same : Bool) (o : Option (Device Impl))
          → identity h o ≡ (if same then some (0, false) else identity h (get_device h b t g0))
          → identity h (
              if same
              then map_device h (λ d. record d { device_id = id; device_id_set = true }) o
              else o)
            ≡ (if same then some (id, true) else identity h (get_device h b t g0))
      by_case true none e = absurd (none≢some e)
      by_case true (some d) e = refl
      by_case false o e = e

  is_node-set :
      (a s id b : ℕ) (g : State h) → is_node h b (set_device_unique_id h a s id g) ≡ is_node h b g
  unfolding set_device_unique_id
  is_node-set a s id b g =
      is_node-on_device h a s b (λ d. record d { device_id = id; device_id_set = true }) g

  store-set :
      (a s id : ℕ) (g : State h)
      → (set_device_unique_id h a s id g).store
        ≡ h.set_int (device_path h a s) "UniqueId" id g.store
  unfolding set_device_unique_id
  store-set a s id g =
      ap (h.set_int (device_path h a s) "UniqueId" id)
        (store-on_device h a s (λ d. record d { device_id = id; device_id_set = true }) g)

module _ (h : Host) {V : Type 0} (f : Implementations h V) (r : Reader h) (c : Contents h f r)
    (Good : h.Store → Type 0) (kept : IsKept h f r c Good) (sound : IsLoadable h f r) where
  open h use {Store, Impl}

  -- What the load of a part leaves: true events, the store, and the nodes.
  pub record Kept (g0 g : State h) : Type 0 where
    pub inv : Inv h g
    pub good : Good g.store
    pub same_node : (b : ℕ) → is_node h b g ≡ is_node h b g0

  on_store-Kept :
      (u : Store → Store) (g0 g : State h) → Good (u g.store) → Kept g0 g → Kept g0 (on_store h u g)
  on_store-Kept u g0 g good k = record {
    inv = on_store-Inv h u g k.inv;
    good = good;
    same_node = k.same_node;
  }

  identified-Kept :
      (a s : ℕ) (o : Option ℕ) (g0 g : State h)
      → IsListed h f r c a s
      → c.id a s ≡ o
      → Kept g0 g
      → Becomes h a s (0, false) g0 g
      → Kept g0 (identified h f r a s o g) × Becomes h a s (of_id o) g0 (identified h f r a s o g)
  identified-Kept a s none g0 g listed e k becomes = (k, becomes)
  identified-Kept a s (some id) g0 g listed e k becomes = (
    record {
      inv = set_device_unique_id-Inv h a s id g k.inv;
      good = rw (store-set h a s id g) (kept.set_int_kept g.store a s id k.good e);
      same_node = λ b. is_node-set h a s id b g ∙ k.same_node b;
    },
    set-Becomes h a s id g0 g becomes,
  )

  -- providerLoadDevice of a device that the table does not have yet.
  pub provider_load_device-Kept :
      (a s : ℕ) (g : State h)
      → IsListed h f r c a s
      → is_node h a g ≡ true
      → get_device h a s g ≡ none
      → Inv h g
      → Good g.store
      → Kept g (provider_load_device h f r a s g)
        × Becomes h a s (of_id (c.id a s)) g (provider_load_device h f r a s g)
  unfolding provider_load_device get_device
  provider_load_device-Kept a s g listed node free inv good =
      let place = one_device a s in
      let g1 = create_specific_device h a s g in
      let good1 : Good g1.store =
        rw (store-create_specific_device h a s g) (kept.section_kept g.store place good listed) in
      let k1 : Kept g g1 = record {
        inv = create_specific_device-Inv h a s g node free inv;
        good = good1;
        same_node = λ b. is_node-create_specific_device h a s b g;
      } in
      let g2 = on_store h (h.section (device_path h a s)) g1 in
      let k2 =
        on_store-Kept (h.section (device_path h a s)) g g1
          (kept.section_kept g1.store place good1 listed) k1 in
      let o = r.get_int (device_path h a s) "UniqueId" g2.store in
      let e : o ≡ c.id a s = kept.id_known g2.store a s k2.good listed in
      let (k3, becomes) =
        identified-Kept a s o g g2 listed (sym e) k2 (create-Becomes h a s g node) in
      let g3 = identified h f r a s o g2 in
      let g4 = on_store h (h.section (capabilities_path h f r a s)) g3 in
      let k4 =
        on_store-Kept (h.section (capabilities_path h f r a s)) g g3
          (kept.section_kept g3.store (all_capabilities a s) k3.good listed) k3 in
      let there : is_some (get_device h a s g4) ≡ true =
        is_some_of_own h a s (of_id o) g g4 becomes in
      let k5 = load_capabilities-After h f r c Good kept sound a s _ g4 g4 there listed (record {
        inv = k4.inv;
        good = k4.good;
        same_identity = λ b t. refl;
        same_node = λ b. refl;
      }) in
      (
        record { inv = k5.inv; good = k5.good; same_node = λ b. k5.same_node b ∙ k4.same_node b },
        λ b t. k5.same_identity b t ∙ rw (← e) (becomes b t),
      )
