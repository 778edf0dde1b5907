-- ===== src/Enumerate/Capabilities/Steps.antt =====
-- What each step of an enumeration changes: the capability that it is about, and no other.
use zda.Base.{
  ℕ, true, false, ◌≡◌, ◌≢◌, refl, ap, ◌∙◌, Option, none, some, Assoc, lookup, put, lookup-put,
  lookup-delete, is_some, ◌==◌, nat_key, arith,
}
use zda.Table.{Host, Device}
use zda.Table.Ops.{
  State, get_device, capabilities_of, attach_capability_to_device, detach_capability_from_device,
}
use zda.Table.Lookup.{is_same}
use zda.Table.Mirror.{Inv}
use zda.Table.Mirror.Steps.{map_device, Inv-same}
use zda.Table.Mirror.Attach.{get_device-attach, attach_capability_to_device-Inv}
use zda.Table.Mirror.Removal.{get_device-detach, detach_capability_from_device-Inv}

module _ (h : Host) where
  open h use {Store, Impl, capability, enumerate_device_flag, device_removal_flag}

  -- The capabilities on the device.
  abbrev pub caps : ℕ → ℕ → State h → Assoc ℕ Impl
  caps a s g = capabilities_of h (get_device h a s g)

  -- From `g` to `g'` only the capability `cf` of the device may change.
  pub record Touches (a s cf : ℕ) (g g' : State h) : Type 0 where
    pub inv : Inv h g → Inv h g'
    pub there : is_some (get_device h a s g) ≡ true → is_some (get_device h a s g') ≡ true
    pub elsewhere : (b t : ℕ) → is_same a s b t ≡ false → get_device h b t g' ≡ get_device h b t g
    pub others : (c : ℕ) → (cf == c) ≡ false → lookup c (caps a s g') ≡ lookup c (caps a s g)

  pub Touches-trans :
      (a s cf : ℕ) (g g1 g2 : State h)
      → Touches a s cf g g1
      → Touches a s cf g1 g2
      → Touches a s cf g g2
  Touches-trans a s cf g g1 g2 p q = record {
    inv = λ v. q.inv (p.inv v);
    there = λ t. q.there (p.there t);
    elsewhere = λ b t apart. q.elsewhere b t apart ∙ p.elsewhere b t apart;
    others = λ c apart. q.others c apart ∙ p.others c apart;
  }

  pub Touches-refl : (a s cf : ℕ) (g : State h) → Touches a s cf g g
  Touches-refl a s cf g = record {
    inv = λ v. v;
    there = λ t. t;
    elsewhere = λ b t apart. refl;
    others = λ c apart. refl;
  }

  pub store-Touches :
      (a s cf : ℕ) (g : State h) (store : Store) → Touches a s cf g (record g { store = store })
  unfolding get_device
  store-Touches a s cf g store = record {
    inv = Inv-same h g (record g { store = store }) refl (λ b t. refl);
    there = λ t. t;
    elsewhere = λ b t apart. refl;
    others = λ c apart. refl;
  }

  pub detach-Touches :
      (a s cf : ℕ) (i : Impl) (g : State h)
      → capability i ≡ cf
      → Touches a s cf g (detach_capability_from_device h a s i g)
  detach-Touches a s cf i g is_cf = record {
    inv = detach_capability_from_device-Inv h a s i g;
    there = λ t. ground (arith, get_device-detach h a s a s i g);
    elsewhere = λ b t apart. get_device-detach h a s b t i g ∙ ground (arith, apart);
    others = λ c apart. by_device c apart (get_device h a s g) refl;
  }
    where
      by_device :
          (c : ℕ)
          → (cf == c) ≡ false
          → (o : Option (Device Impl)) → get_device h a s g ≡ o
          → lookup c (caps a s (detach_capability_from_device h a s i g)) ≡ lookup c (caps a s g)
      by_device c apart none e = rw (get_device-detach h a s a s i g, e) (ground arith)
      by_device c apart (some d) e =
          rw (get_device-detach h a s a s i g, e)
            (ground (arith, is_cf, apart, lookup-delete (capability i) c d.capabilities))

  abbrev pub with : Impl → Device Impl → Device Impl
  with i d = record d { capabilities = put (capability i) i d.capabilities }

  pub put-others :
      (a s c cf : ℕ) (i : Impl) (o : Option (Device Impl))
      → capability i ≡ cf
      → (cf == c) ≡ false
      → lookup c (capabilities_of h (map_device h (with i) o)) ≡ lookup c (capabilities_of h o)
  put-others a s c cf i none is_cf apart = refl
  put-others a s c cf i (some d) is_cf apart =
      ground (arith, is_cf, apart, lookup-put (capability i) c i d.capabilities)

  pub same_device : (a s : ℕ) → is_same a s a s ≡ true
  same_device a s = ground arith

  get_device-attached :
      (a s : ℕ) (i : Impl) (g : State h)
      → get_device h a s (attach_capability_to_device h a s i g)
        ≡ map_device h (with i) (get_device h a s g)
  get_device-attached a s i g = get_device-attach h a s a s i g ∙ ground (arith, same_device a s)

  pub attach-Touches :
      (a s cf : ℕ) (i : Impl) (g : State h)
      → capability i ≡ cf
      → cf ≢ enumerate_device_flag
      → cf ≢ device_removal_flag
      → is_some (get_device h a s g) ≡ true
      → Touches a s cf g (attach_capability_to_device h a s i g)
  attach-Touches a s cf i g is_cf not_e not_r t = record {
    inv =
        attach_capability_to_device-Inv h a s i g t (ground (arith, is_cf)) (ground (arith, is_cf));
    there = λ t. ground (arith, get_device-attached a s i g);
    elsewhere = λ b t apart. get_device-attach h a s b t i g ∙ ground (arith, apart);
    others = λ c apart.
        ap (λ o. lookup c (capabilities_of h o)) (get_device-attached a s i g)
        ∙ put-others a s c cf i (get_device h a s g) is_cf apart;
  }

  -- After the attachment the device has the capability.
  pub lookup-attach :
      (a s : ℕ) (i : Impl) (g : State h)
      → is_some (get_device h a s g) ≡ true
      → lookup (capability i) (caps a s (attach_capability_to_device h a s i g)) ≡ some i
  lookup-attach a s i g t =
      ap (λ o. lookup (capability i) (capabilities_of h o)) (get_device-attached a s i g)
      ∙ by_device (get_device h a s g) t
    where
      by_device :
          (o : Option (Device Impl))
          → is_some o ≡ true
          → lookup (capability i) (capabilities_of h (map_device h (with i) o)) ≡ some i
      by_device none e = ground arith
      by_device (some d) e =
          lookup-put (capability i) (capability i) i d.capabilities ∙ ground arith
