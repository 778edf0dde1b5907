-- ===== src/Enumerate/Capabilities/Honest.antt =====
-- What the whole of updateCapabilitiesOnDevice leaves on the device, and what it reports.
use zda.Base.{
  ℕ, String, true, false, ◌≡◌, ap, ◌∙◌, Option, none, some, List, Assoc, keys, lookup, elem,
  elem-keys, is_some, nat_key, string_key, arith, Bool-cases, Option-cases, inl, inr,
}
use zda.Table.{Host, Device}
use zda.Table.Ops.{State, get_device, capabilities_of}
use zda.Table.Lookup.{is_same}
use zda.Table.Mirror.{Inv, device_has}
use zda.Table.Mirror.Steps.{lookup-nil}
use zda.Enumerate.Factory.{Implementations, IsStable}
use zda.Enumerate.Capabilities.{
  EnumerationCapability, Results, Progress, enumerate_endpoints, start,
  update_capabilities_on_device,
}
use zda.Enumerate.Capabilities.Steps.{caps}
use zda.Enumerate.Capabilities.Loops.{Backed, Good, names_of, enumerate_endpoints-Good, start-Good}
use zda.Enumerate.Capabilities.Redundant.{Left, remove_redundant-Left}

module _ (h : Host) {V : Type 0} (f : Implementations h V) where
  open h use {Impl, Failure, enumerate_device_flag}

  -- What updateCapabilitiesOnDevice leaves: the state, and the results that it returns.
  pub record IsHonest (a s : ℕ) (names : List String) (g : State h) (r : Results Failure × State h)
      : Type 0 where
    pub inv : Inv h r.1
    pub there : is_some (get_device h a s r.1) ≡ true
    pub elsewhere : (b t : ℕ) → is_same a s b t ≡ false → get_device h b t r.1 ≡ get_device h b t g
    pub only : (c : ℕ) (i : Impl) → lookup c (caps h a s r.1) ≡ some i → Backed h f a s names c r.1
    pub told :
        (c : ℕ) (e : EnumerationCapability Failure)
        → lookup c r.0 ≡ some e
        → e.attached ≡ true
        → device_has h c (get_device h a s r.1) ≡ true

  device_has-caps :
      (a s c : ℕ) (g : State h) (i : Impl)
      → lookup c (caps h a s g) ≡ some i
      → device_has h c (get_device h a s g) ≡ true
  device_has-caps a s c g i held = by_device (get_device h a s g) held
    where
      by_device :
          (o : Option (Device Impl))
          → lookup c (capabilities_of h o) ≡ some i
          → device_has h c o ≡ true
      by_device none q = absurd (ground (arith, lookup-nil {V = Impl} c))
      by_device (some d) q = ground arith

  built_in-has :
      (a s c : ℕ) (g : State h)
      → c ≡ enumerate_device_flag
      → is_some (get_device h a s g) ≡ true
      → device_has h c (get_device h a s g) ≡ true
  built_in-has a s c g built_in there = ground arith

  active-Backed :
      (g : State h) (a s c : ℕ) (names : List String) (p : Progress h f)
      (r : Results Failure × State h)
      → Good h f g a s names p
      → Left h f a s p.active (keys (caps h a s p.state)) p.state r
      → elem c p.active ≡ true
      → Backed h f a s names c r.1
  active-Backed g a s c names p r good left listed =
      let (n, listed_n, mapped_n, (i, held, named)) = good.backed c listed in
      (n, listed_n, mapped_n, (i, left.kept c listed ∙ held, named))

  inactive_gone :
      (a s c : ℕ) (p : Progress h f) (r : Results Failure × State h)
      → Left h f a s p.active (keys (caps h a s p.state)) p.state r
      → elem c p.active ≡ false
      → lookup c (caps h a s r.1) ≡ none
  inactive_gone a s c p r left other =
      left.gone c other (elim (Option-cases (lookup c (caps h a s p.state))) [
        | inl absent ↦ inr absent
        | inr (i, found) ↦ inl (elem-keys c (caps h a s p.state) ∙ ap is_some found)
      ])

  Left-IsHonest :
      (g : State h) (a s : ℕ) (names : List String) (p : Progress h f)
      (r : Results Failure × State h)
      → Good h f g a s names p
      → Left h f a s p.active (keys (caps h a s p.state)) p.state r
      → IsHonest a s names g r
  Left-IsHonest g a s names p r good left = record {
    inv = left.inv;
    there = left.there good.there;
    elsewhere = λ b t apart. left.elsewhere b t apart ∙ good.elsewhere b t apart;
    only = λ c i held. elim (Bool-cases (elem c p.active)) [
      | inl listed ↦ active-Backed g a s c names p r good left listed
      | inr other ↦ absurd (ground (arith, inactive_gone a s c p r left other))
    ];
    told = λ c e found yes. elim (left.told c e found yes) [
      | inl built_in ↦ built_in-has a s c r.1 built_in (left.there good.there)
      | inr listed ↦
          let (n, listed_n, mapped_n, (i, held, named)) =
            active-Backed g a s c names p r good left listed in
          device_has-caps a s c r.1 i held
    ];
  }

  -- When the implementations keep their flag and name, after updateCapabilitiesOnDevice every
  -- capability of the device is one that the rules named, made by the implementation that they
  -- named; one that is reported as attached is on the device; and the events tell the truth.
  pub update_capabilities_on_device-IsHonest :
      (a s : ℕ) (eps : List (Assoc String (Assoc String V))) (g : State h)
      → IsStable h f
      → Inv h g
      → is_some (get_device h a s g) ≡ true
      → IsHonest a s (names_of h f eps) g (update_capabilities_on_device h f a s eps g)
  unfolding update_capabilities_on_device
  update_capabilities_on_device-IsHonest a s eps g stable v there =
      let p = enumerate_endpoints h f a s eps (start h f g) in
      let good =
        enumerate_endpoints-Good h f g a s (names_of h f eps) eps (start h f g) stable
          (λ name listed. listed) (start-Good h f g a s (names_of h f eps) v there) in
      Left-IsHonest g a s (names_of h f eps) p _ good (
        remove_redundant-Left h f a s p.active (keys (caps h a s p.state)) p.errs p.state good.inv
          good.told)
