-- ===== src/Enumerate/Capabilities/Changed.antt =====
-- A capability object that Enumerate changes while the device holds it.
use zda.Base.{
  ℕ, true, false, ◌≡◌, refl, ap, ◌∙◌, Option, none, some, lookup, lookup-put, is_some, ◌==◌,
  if◌then◌else◌, nat_key, arith, Bool-cases, Option-cases, inl, inr,
}
use zda.Table.{Host, Device}
use zda.Table.Ops.{State, get_device, on_device, capabilities_of}
use zda.Table.Lookup.{is_same}
use zda.Table.Mirror.{seen_capability, device_has, Inv}
use zda.Table.Mirror.Steps.{map_device, get_device-on_device, sent-on_device}
use zda.Enumerate.Factory.{Implementations}
use zda.Enumerate.Capabilities.{changed}
use zda.Enumerate.Capabilities.Steps.{caps, Touches, Touches-refl, with, put-others, same_device}

module _ (h : Host) where
  open h use {Impl, capability, enumerate_device_flag, device_removal_flag}

  abbrev after : ℕ → ℕ → Impl → State h → State h
  after a s i g = on_device h a s (with h i) g

  get_device-after :
      (a s b t : ℕ) (i : Impl) (g : State h)
      → get_device h b t (after a s i g) ≡ (
          if is_same a s b t
          then map_device h (with h i) (get_device h b t g)
          else get_device h b t g)
  get_device-after a s b t i g = get_device-on_device h a s b t (with h i) g

  sent-after : (a s : ℕ) (i : Impl) (g : State h) → (after a s i g).sent ≡ g.sent
  sent-after a s i g = sent-on_device h a s (with h i) g

  after-Inv :
      (a s : ℕ) (i : Impl) (g : State h)
      → is_some (lookup (capability i) (caps h a s g)) ≡ true
      → Inv h g
      → Inv h (after a s i g)
  after-Inv a s i g held v = record {
    mirrors = record {
      devices = λ b t.
          rw (get_device-after a s b t i g, sent-after a s i g)
            (ground (arith, v.mirrors.devices b t));
      capabilities = λ b t c.
          rw (get_device-after a s b t i g, sent-after a s i g)
            (cap b t c (get_device h b t g) refl (v.mirrors.capabilities b t c));
    };
    keyed_caps = record {
      keyed =
          λ b t c d j found listed. keyed_after b t c d j (get_device h b t g) refl found listed;
    };
  }
    where
      cap :
          (b t c : ℕ) (o : Option (Device Impl))
          → get_device h b t g ≡ o
          → seen_capability b t c g.sent ≡ device_has h c (get_device h b t g)
          → seen_capability b t c g.sent
            ≡ device_has h c (
                if is_same a s b t
                then map_device h (with h i) (get_device h b t g)
                else get_device h b t g)
      cap b t c none q m = rw q (ground (arith, q))
      cap b t c (some d) q m =
          rw q (ground (arith, q, held, lookup-put (capability i) c i d.capabilities))

      keyed_after :
          (b t c : ℕ) (d : Device Impl) (j : Impl) (o : Option (Device Impl))
          → get_device h b t g ≡ o
          → get_device h b t (after a s i g) ≡ some d
          → lookup c d.capabilities ≡ some j
          → (capability j ≡ c)
            × ((c == enumerate_device_flag) ≡ false)
            × ((c == device_removal_flag) ≡ false)
      keyed_after b t c d j none q found listed = ground (arith, get_device-after a s b t i g)
      keyed_after b t c d j (some d0) q found listed =
          elim (Option-cases (lookup (capability i) d0.capabilities)) [
            | inl absent ↦ ground (
              arith,
              held,
              get_device-after a s b t i g,
              lookup-put (capability i) c i d0.capabilities,
              v.keyed_caps.keyed b t c d0 j,
            )
            | inr (old, before) ↦ ground (
              arith,
              get_device-after a s b t i g,
              lookup-put (capability i) c i d0.capabilities,
              v.keyed_caps.keyed b t c d0 j,
              v.keyed_caps.keyed b t (capability i) d0 old,
            )
          ]

  get_device-here :
      (a s : ℕ) (i : Impl) (g : State h)
      → get_device h a s (after a s i g) ≡ map_device h (with h i) (get_device h a s g)
  get_device-here a s i g = get_device-after a s a s i g ∙ ground (arith, same_device h a s)

  after-Touches :
      (a s : ℕ) (i : Impl) (g : State h)
      → is_some (lookup (capability i) (caps h a s g)) ≡ true
      → Touches h a s (capability i) g (after a s i g)
  after-Touches a s i g held = record {
    inv = after-Inv a s i g held;
    there = λ t. ground (arith, get_device-after a s a s i g);
    elsewhere = λ b t apart. get_device-after a s b t i g ∙ ground (arith, apart);
    others = λ c apart.
        ap (λ o. lookup c (capabilities_of h o)) (get_device-here a s i g)
        ∙ put-others h a s c (capability i) i (get_device h a s g) refl apart;
  }

module _ (h : Host) {V : Type 0} (f : Implementations h V) where
  pub changed-Touches :
      (a s cf : ℕ) (i : h.Impl) (g : State h)
      → h.capability i ≡ cf
      → Touches h a s cf g (changed h f a s i g)
  unfolding changed
  changed-Touches a s cf i g is_cf =
      elim (Bool-cases (is_some (lookup (h.capability i) (caps h a s g)))) [
        | inl held ↦ rw (held, ← is_cf) (after-Touches h a s i g held)
        | inr new ↦ rw new (Touches-refl h a s cf g)
      ]
