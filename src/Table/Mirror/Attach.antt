-- ===== src/Table/Mirror/Attach.antt =====
-- setDeviceUniqueId and attachCapabilityToDevice keep the view that the events give.
use zda.Base.{
  ℕ, true, false, ◌≡◌, refl, ap, Option, none, some, ◌∷◌, lookup, put, lookup-put, is_some,
  if◌then◌else◌, ◌==◌, nat_key, arith,
}
use zda.Table.{Host, capability_added, Device}
use zda.Table.Ops.{State, get_device, set_device_unique_id, attach_capability_to_device}
use zda.Table.Lookup.{is_same}
use zda.Table.Mirror.{seen_capability, device_has, Inv}
use zda.Table.Mirror.Steps.{map_device, get_device-on_device, sent-on_device, same_capabilities-Inv}

module _ (h : Host) where
  open h use {Impl, enumerate_device_flag, device_removal_flag, capability}

  pub get_device-set_device_unique_id :
      (a s id b t : ℕ) (g : State h)
      → get_device h b t (set_device_unique_id h a s id g) ≡ (
          if is_same a s b t
          then map_device h
              (λ d. record d { device_id = id; device_id_set = true })
              (get_device h b t g)
          else get_device h b t g)
  unfolding set_device_unique_id get_device
  get_device-set_device_unique_id a s id b t g =
      get_device-on_device h a s b t (λ d. record d { device_id = id; device_id_set = true }) g

  pub sent-set_device_unique_id :
      (a s id : ℕ) (g : State h) → (set_device_unique_id h a s id g).sent ≡ g.sent
  unfolding set_device_unique_id
  sent-set_device_unique_id a s id g =
      sent-on_device h a s (λ d. record d { device_id = id; device_id_set = true }) g

  pub set_device_unique_id-Inv :
      (a s id : ℕ) (g : State h) → Inv h g → Inv h (set_device_unique_id h a s id g)
  set_device_unique_id-Inv a s id g =
      same_capabilities-Inv h g (set_device_unique_id h a s id g)
        (sent-set_device_unique_id a s id g)
        (λ b t d' found. before b t d' (get_device h b t g) refl found)
        (λ b t absent. ground (arith, get_device-set_device_unique_id a s id b t g))
    where
      before :
          (b t : ℕ) (d' : Device Impl) (o : Option (Device Impl))
          → get_device h b t g ≡ o
          → get_device h b t (set_device_unique_id h a s id g) ≡ some d'
          → (d : Device Impl) × (get_device h b t g ≡ some d) × (d'.capabilities ≡ d.capabilities)
      before b t d' none e found = ground (arith, get_device-set_device_unique_id a s id b t g)
      before b t d' (some d) e found =
          (d, e, ground (arith, get_device-set_device_unique_id a s id b t g))

  pub get_device-attach :
      (a s b t : ℕ) (i : Impl) (g : State h)
      → get_device h b t (attach_capability_to_device h a s i g) ≡ (
          if is_same a s b t
          then map_device h
              (λ d. record d { capabilities = put (capability i) i d.capabilities })
              (get_device h b t g)
          else get_device h b t g)
  unfolding attach_capability_to_device get_device
  get_device-attach a s b t i g =
      get_device-on_device h a s b t
        (λ d. record d { capabilities = put (capability i) i d.capabilities }) g

  pub sent-attach :
      (a s : ℕ) (i : Impl) (g : State h)
      → (attach_capability_to_device h a s i g).sent ≡ capability_added a s (capability i) ∷ g.sent
  unfolding attach_capability_to_device
  sent-attach a s i g =
      ap (λ es. capability_added a s (capability i) ∷ es)
        (sent-on_device h a s (λ d. record d { capabilities = put (capability i) i d.capabilities })
          g)

  pub attach_capability_to_device-Inv :
      (a s : ℕ) (i : Impl) (g : State h)
      → is_some (get_device h a s g) ≡ true
      → (capability i == enumerate_device_flag) ≡ false
      → (capability i == device_removal_flag) ≡ false
      → Inv h g
      → Inv h (attach_capability_to_device h a s i g)
  attach_capability_to_device-Inv a s i g there e r v = record {
    mirrors = record {
      devices = λ b t.
          rw (get_device-attach a s b t i g, sent-attach a s i g)
            (ground (arith, v.mirrors.devices b t));
      capabilities = λ b t c.
          rw (get_device-attach a s b t i g, sent-attach a s i g)
            (cap b t c (get_device h b t g) refl (v.mirrors.capabilities b t c));
    };
    keyed_caps = record {
      keyed =
          λ b t c d j found listed. keyed_after b t c d j (get_device h b t g) refl found listed;
    };
  }
    where
      cap :
          (b t c : ℕ) (o : Option (Device Impl))
          → get_device h b t g ≡ o
          → seen_capability b t c g.sent ≡ device_has h c (get_device h b t g)
          → seen_capability b t c (capability_added a s (capability i) ∷ g.sent)
            ≡ device_has h c (
                if is_same a s b t
                then map_device h
                    (λ d. record d { capabilities = put (capability i) i d.capabilities })
                    (get_device h b t g)
                else get_device h b t g)
      cap b t c none q m = rw q (ground (arith, there, q))
      cap b t c (some d) q m =
          rw q (ground (arith, q, lookup-put (capability i) c i d.capabilities))

      keyed_after :
          (b t c : ℕ) (d : Device Impl) (j : Impl) (o : Option (Device Impl))
          → get_device h b t g ≡ o
          → get_device h b t (attach_capability_to_device h a s i g) ≡ some d
          → lookup c d.capabilities ≡ some j
          → (capability j ≡ c)
            × ((c == enumerate_device_flag) ≡ false)
            × ((c == device_removal_flag) ≡ false)
      keyed_after b t c d j none q found listed = ground (arith, get_device-attach a s b t i g)
      keyed_after b t c d j (some d0) q found listed = ground (
        arith,
        get_device-attach a s b t i g,
        lookup-put (capability i) c i d0.capabilities,
        v.keyed_caps.keyed b t c d0 j,
      )
