-- ===== src/Table/Mirror/Steps.antt =====
-- Each operation on the table keeps the view that the events give.
use zda.Base.{
  ℕ, true, ◌≡◌, refl, ap, sym, ◌∙◌, Option, none, some, [], ◌∷◌, Assoc, lookup, put, is_some, ◌&&◌,
  ◌||◌, if◌then◌else◌, ◌==◌, nat_key, arith, Option-cases, inl, inr,
}
use zda.Table.{Host, device_added, capability_added, Device}
use zda.Table.Ops.{
  State, new_device, get_device, on_devices, on_device, create_node, create_specific_device,
  remove_node,
}
use zda.Table.Lookup.{
  is_node, is_same, get_device-put, is_node_of_device, get_device-create_node,
  get_device-remove_node,
}
use zda.Table.Mirror.{seen_device, seen_capability, device_has, Inv}

pub lookup-nil : {V : Type 0} (c : ℕ) → lookup {V = V} c [] ≡ none
unfolding lookup
lookup-nil c = refl

module _ (h : Host) where
  open h use {Impl, enumerate_device_flag, device_removal_flag, capability}

  pub sent-on_devices :
      (a : ℕ) (f : Assoc ℕ (Device Impl) → Assoc ℕ (Device Impl)) (g : State h)
      → (on_devices h a f g).sent ≡ g.sent
  unfolding on_devices
  sent-on_devices a f g = ground arith

  abbrev pub map_device : (Device Impl → Device Impl) → Option (Device Impl) → Option (Device Impl)
  map_device f none = none
  map_device f (some d) = some (f d)

  pub get_device-on_device :
      (a s b t : ℕ) (f : Device Impl → Device Impl) (g : State h)
      → get_device h b t (on_device h a s f g)
        ≡ (if is_same a s b t then map_device f (get_device h b t g) else get_device h b t g)
  get_device-on_device a s b t f g = elim (Option-cases (get_device h a s g)) [
    | inl absent ↦ rw (absent, on_device) (ground (arith, absent))
    | inr (d, found) ↦
        rw (found, on_device)
          (ground (arith, found, get_device-put h a s b t (f d) g, is_node_of_device h a s g found))
  ]

  pub sent-on_device :
      (a s : ℕ) (f : Device Impl → Device Impl) (g : State h) → (on_device h a s f g).sent ≡ g.sent
  sent-on_device a s f g = elim (Option-cases (get_device h a s g)) [
    | inl absent ↦ rw (absent, on_device)
    | inr (d, found) ↦ rw (found, on_device) (sent-on_devices a (put s (f d)) g)
  ]

  -- What two states agree on, so that the invariant goes from one to the other.
  pub Inv-same :
      (g g' : State h)
      → g'.sent ≡ g.sent
      → ((b t : ℕ) → get_device h b t g' ≡ get_device h b t g)
      → Inv h g
      → Inv h g'
  Inv-same g g' s e v = record {
    mirrors = record {
      devices = λ b t. rw (e b t, s) (v.mirrors.devices b t);
      capabilities = λ b t c. rw (e b t, s) (v.mirrors.capabilities b t c);
    };
    keyed_caps = record { keyed = λ b t c d i. rw (e b t) (v.keyed_caps.keyed b t c d i) };
  }

  pub sent-create_node : (a : ℕ) (g : State h) → (create_node h a g).0.sent ≡ g.sent
  unfolding create_node
  sent-create_node a g = ground arith

  pub create_node-Inv : (a : ℕ) (g : State h) → Inv h g → Inv h (create_node h a g).0
  create_node-Inv a g =
      Inv-same g (create_node h a g).0 (sent-create_node a g)
        (λ b t. get_device-create_node h a b t g)

  pub sent-remove_node : (a : ℕ) (g : State h) → (remove_node h a g).0.sent ≡ g.sent
  unfolding remove_node
  sent-remove_node a g = ground arith

  -- Removing a node sends no event: its devices have to be gone before.
  pub remove_node-Inv :
      (a : ℕ) (g : State h)
      → ((s : ℕ) → get_device h a s g ≡ none)
      → Inv h g
      → Inv h (remove_node h a g).0
  remove_node-Inv a g gone =
      Inv-same g (remove_node h a g).0 (sent-remove_node a g)
        λ b t. rw (get_device-remove_node h a b t g) (ground (arith, gone t))

  pub get_device-create_specific_device :
      (a s b t : ℕ) (g : State h)
      → get_device h b t (create_specific_device h a s g)
        ≡ (if is_node h a g && is_same a s b t then some (new_device h) else get_device h b t g)
  unfolding create_specific_device get_device
  get_device-create_specific_device a s b t g = get_device-put h a s b t (new_device h) g

  pub sent-create_specific_device :
      (a s : ℕ) (g : State h)
      → (create_specific_device h a s g).sent
        ≡ capability_added a s device_removal_flag
          ∷ capability_added a s enumerate_device_flag
          ∷ device_added a s
          ∷ g.sent
  unfolding create_specific_device
  sent-create_specific_device a s g =
      ap
        (λ es.
          capability_added a s device_removal_flag
          ∷ capability_added a s enumerate_device_flag
          ∷ device_added a s
          ∷ es)
        (sent-on_devices a (put s (new_device h)) g)

  pub create_specific_device-Inv :
      (a s : ℕ) (g : State h)
      → is_node h a g ≡ true
      → get_device h a s g ≡ none
      → Inv h g
      → Inv h (create_specific_device h a s g)
  create_specific_device-Inv a s g node free v = record {
    mirrors = record {
      devices = λ b t.
          rw (get_device-create_specific_device a s b t g, sent-create_specific_device a s g)
            (ground (arith, node, v.mirrors.devices b t));
      capabilities = λ b t c.
          rw (get_device-create_specific_device a s b t g, sent-create_specific_device a s g)
            (ground (arith, node, free, v.mirrors.capabilities b t c, lookup-nil {V = Impl} c));
    };
    keyed_caps = record {
      keyed = λ b t c d i found listed. ground (
        arith,
        get_device-create_specific_device a s b t g,
        v.keyed_caps.keyed b t c d i,
        lookup-nil {V = Impl} c,
      );
    };
  }

  -- A device with other identifiers keeps its capabilities.
  pub same_capabilities-Inv :
      (g g' : State h)
      → g'.sent ≡ g.sent
      → ((b t : ℕ) (d' : Device Impl)
          → get_device h b t g' ≡ some d'
          → (d : Device Impl) × (get_device h b t g ≡ some d) × (d'.capabilities ≡ d.capabilities))
      → ((b t : ℕ) → get_device h b t g' ≡ none → get_device h b t g ≡ none)
      → Inv h g
      → Inv h g'
  same_capabilities-Inv g g' s e e' v = record {
    mirrors = record {
      devices = λ b t. seen b t (get_device h b t g') refl;
      capabilities = λ b t c. seen_cap b t c (get_device h b t g') refl;
    };
    keyed_caps = record {
      keyed = λ b t c d' i found listed.
          let (d, found_before, same) = e b t d' found in
          v.keyed_caps.keyed b t c d i found_before (rw same at listed);
    };
  }
    where
      seen :
          (b t : ℕ) (o : Option (Device Impl))
          → get_device h b t g' ≡ o
          → seen_device b t g'.sent ≡ is_some (get_device h b t g')
      seen b t none q =
          rw q (ap (seen_device b t) s ∙ v.mirrors.devices b t ∙ ap is_some (e' b t q))
      seen b t (some d') q =
          let (d, found, same) = e b t d' q in
          rw q (ap (seen_device b t) s ∙ v.mirrors.devices b t ∙ ap is_some found)

      seen_cap :
          (b t c : ℕ) (o : Option (Device Impl))
          → get_device h b t g' ≡ o
          → seen_capability b t c g'.sent ≡ device_has h c (get_device h b t g')
      seen_cap b t c none q = rw q (
          ap (seen_capability b t c) s
          ∙ v.mirrors.capabilities b t c
          ∙ ap (device_has h c) (e' b t q))
      seen_cap b t c (some d') q =
          let (d, found, same) = e b t d' q in
          rw q (
            ap (seen_capability b t c) s
            ∙ v.mirrors.capabilities b t c
            ∙ ap (device_has h c) found
            ∙ ap
                (λ m.
                  c == enumerate_device_flag || c == device_removal_flag || is_some (lookup c m))
                (sym same))
