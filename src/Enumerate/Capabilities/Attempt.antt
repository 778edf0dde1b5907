-- ===== src/Enumerate/Capabilities/Attempt.antt =====
-- enumerateCapabilityOnDevice changes no other capability, and what it attaches is there.
use zda.Base.{
  ℕ, String, Bool, true, false, ◌≡◌, ◌≢◌, refl, ◌∙◌, Option, none, some, List, Assoc, lookup, elem,
  is_some, ◌==◌, nat_key, string_key, Bool-cases, inl, inr, false≢true,
}
use zda.Table.{Host, Device, failed_attach, no_longer_enumerated}
use zda.Table.Ops.{State, get_device, capabilities_of, detach_capability_from_device}
use zda.Table.Mirror.{Inv}
use zda.Table.Mirror.Steps.{lookup-nil}
use zda.Enumerate.Factory.{Enumerated, panicked, returned, Implementations, IsStable, mapping}
use zda.Enumerate.Capabilities.{
  Error, drop_conflicting, implementation, conclude, attempt, changed,
  enumerate_capability_on_device,
}
use zda.Enumerate.Capabilities.Steps.{
  caps, Touches, Touches-refl, Touches-trans, store-Touches, detach-Touches, attach-Touches,
  lookup-attach,
}
use zda.Enumerate.Capabilities.Changed.{changed-Touches}

module _ (h : Host) {V : Type 0} (f : Implementations h V) where
  open h use {Impl, Failure, capability, detach, enumerate_device_flag, device_removal_flag}

  -- The device has the implementation with this name under the flag `cf`.
  abbrev pub Holds : ℕ → ℕ → String → ℕ → State h → Type 0
  Holds a s name cf g = (i : Impl) × (lookup cf (caps h a s g) ≡ some i) × (f.impl_name i ≡ name)

  -- What an attempt gives: its outcome and its state.
  pub record Fair (a s : ℕ) (name : String) (cf : ℕ) (g : State h)
      (r : (Bool × List (Error h f)) × State h) : Type 0 where
    pub touches : Touches h a s cf g r.1
    pub attached : r.0.0 ≡ true → Holds a s name cf r.1

  pub detach_after :
      (a s cf : ℕ) (c : Impl) (g : State h) (store : h.Store)
      → capability c ≡ cf
      → Touches h a s cf g (detach_capability_from_device h a s c (record g { store = store }))
  detach_after a s cf c g store is_cf =
      Touches-trans h a s cf g (record g { store = store }) _ (store-Touches h a s cf g store)
        (detach-Touches h a s cf c (record g { store = store }) is_cf)

  conclude-Fair :
      (a s : ℕ) (name : String) (cf : ℕ) (errs : List (Error h f)) (c : Impl)
      (out : Enumerated Failure) (g : State h)
      → capability c ≡ cf
      → f.impl_name c ≡ name
      → cf ≢ enumerate_device_flag
      → cf ≢ device_removal_flag
      → is_some (get_device h a s g) ≡ true
      → Fair a s name cf g (conclude h f a s name errs c out g)
  unfolding conclude
  conclude-Fair a s name cf errs c panicked g is_cf named not_e not_r there = record {
    touches = Touches-refl h a s cf g;
    attached = λ no. absurd (false≢true no);
  }
  conclude-Fair a s name cf errs c (returned true e) g is_cf named not_e not_r there = record {
    touches = attach-Touches h a s cf c g is_cf not_e not_r there;
    attached = λ yes. (c, rw (← is_cf) (lookup-attach h a s c g there), named);
  }
  conclude-Fair a s name cf errs c (returned false e) g is_cf named not_e not_r there = record {
    touches = detach_after a s cf c g (detach c failed_attach g.store).1 is_cf;
    attached = λ no. absurd (false≢true no);
  }

  -- An implementation that is right for the name, if there is one.
  abbrev IsRight : ℕ → ℕ → String → ℕ → State h → Option (Impl × State h) → Type 0
  IsRight a s name cf g none = Unit
  IsRight a s name cf g (some (c, g1)) =
      (capability c ≡ cf) × (f.impl_name c ≡ name) × Touches h a s cf g g1

  -- The flag `cf` is the one of the name, and not built in.
  abbrev IsFlag : String → ℕ → Type 0
  IsFlag name cf =
      (lookup name (mapping h f) ≡ some cf)
      × (cf ≢ enumerate_device_flag)
      × (cf ≢ device_removal_flag)

  attempt-Fair :
      (a s : ℕ) (name : String) (cf : ℕ) (settings : Assoc String V) (errs : List (Error h f))
      (o : Option (Impl × State h)) (g : State h)
      → IsStable h f
      → IsFlag name cf
      → IsRight a s name cf g o
      → is_some (get_device h a s g) ≡ true
      → Fair a s name cf g (attempt h f a s name settings errs o g)
  attempt-Fair a s name cf settings errs none g stable flag right there = record {
    touches = Touches-refl h a s cf g;
    attached = λ no. absurd (false≢true no);
  }
  attempt-Fair a s name cf settings errs (some (c, g1)) g stable flag (is_cf, named, t1) there =
      let run = f.enumerate c settings g1.store in
      let c1 = run.1 in
      let g2 : State h = record g1 { store = run.2 } in
      let is_cf1 = stable.enumerate_capability c settings g1.store ∙ is_cf in
      let named1 = stable.enumerate_name c settings g1.store ∙ named in
      let t2 =
        Touches-trans h a s cf g1 g2 (changed h f a s c1 g2) (store-Touches h a s cf g1 run.2)
          (changed-Touches h f a s cf c1 g2 is_cf1) in
      let t = Touches-trans h a s cf g g1 (changed h f a s c1 g2) t1 t2 in
      let last =
        conclude-Fair a s name cf errs c1 run.0 (changed h f a s c1 g2) is_cf1 named1 flag.1 flag.2
          (t.there there) in
      record {
        touches = Touches-trans h a s cf g (changed h f a s c1 g2) _ t last.touches;
        attached = last.attached;
      }

  -- What drop_conflicting leaves.
  abbrev IsKept : String → ℕ → Option Impl → Type 0
  IsKept name cf none = Unit
  IsKept name cf (some c) = (capability c ≡ cf) × (f.impl_name c ≡ name)

  abbrev pub IsUnder : ℕ → Option Impl → Type 0
  IsUnder cf none = Unit
  IsUnder cf (some c) = capability c ≡ cf

  drop_conflicting-IsKept :
      (a s : ℕ) (name : String) (cf : ℕ) (o : Option Impl) (g : State h)
      → IsUnder cf o
      → IsKept name cf (drop_conflicting h f a s name o g).0
        × Touches h a s cf g (drop_conflicting h f a s name o g).2
  unfolding drop_conflicting
  drop_conflicting-IsKept a s name cf none g under = (tt, Touches-refl h a s cf g)
  drop_conflicting-IsKept a s name cf (some c) g under = elim (Bool-cases (f.impl_name c == name)) [
    | inl same ↦
        rw same
          ((under, (string_key.same_iff (f.impl_name c) name).0 same), Touches-refl h a s cf g)
    | inr other ↦
        rw other (tt, detach_after a s cf c g (detach c no_longer_enumerated g.store).1 under)
  ]

  implementation-IsRight :
      (a s : ℕ) (name : String) (cf : ℕ) (o : Option Impl) (g : State h)
      → IsStable h f
      → IsFlag name cf
      → IsKept name cf o
      → IsRight a s name cf g (implementation h f a s name cf o g)
  unfolding implementation
  implementation-IsRight a s name cf (some c) g stable flag kept =
      (kept.0, kept.1, Touches-refl h a s cf g)
  implementation-IsRight a s name cf none g stable flag kept =
      let (c, made, is_cf, named) = stable.made name cf flag.0 in
      rw made (
        stable.init_capability a s _ c _ ∙ is_cf,
        stable.init_name a s _ c _ ∙ named,
        store-Touches h a s cf g _,
      )

  pub IsUnder-flag :
      (a s cf : ℕ) (g : State h) (o : Option (Device Impl))
      → get_device h a s g ≡ o
      → Inv h g
      → IsUnder cf (lookup cf (capabilities_of h o))
  IsUnder-flag a s cf g none e v = rw (lookup-nil {V = Impl} cf) tt
  IsUnder-flag a s cf g (some d) e v = by_entry (lookup cf d.capabilities) refl
    where
      by_entry : (o : Option Impl) → lookup cf d.capabilities ≡ o → IsUnder cf o
      by_entry none q = tt
      by_entry (some i) q = (v.keyed_caps.keyed a s cf d i e q).0

  abbrev kept : ℕ → ℕ → String → ℕ → State h → Option Impl × List (Error h f) × State h
  kept a s name cf g =
      drop_conflicting h f a s name (lookup cf (capabilities_of h (get_device h a s g))) g

  -- The attempt when no other implementation of the capability is attached yet.
  fresh_attempt-Fair :
      (a s : ℕ) (name : String) (cf : ℕ) (settings : Assoc String V) (g : State h)
      → IsStable h f
      → lookup name (mapping h f) ≡ some cf
      → Inv h g
      → is_some (get_device h a s g) ≡ true
      → Fair a s name cf g (
          attempt h f a s name settings
            (kept a s name cf g).1
            (implementation h f a s name cf (kept a s name cf g).0 (kept a s name cf g).2)
            (kept a s name cf g).2)
  fresh_attempt-Fair a s name cf settings g stable mapped v there =
      let r = kept a s name cf g in
      let flag : IsFlag name cf =
        (mapped, (stable.not_built_in name cf mapped).0, (stable.not_built_in name cf mapped).1) in
      let (is_kept, t1) =
        drop_conflicting-IsKept a s name cf (lookup cf (capabilities_of h (get_device h a s g))) g
          (IsUnder-flag a s cf g (get_device h a s g) refl v) in
      let right = implementation-IsRight a s name cf r.0 r.2 stable flag is_kept in
      let fair =
        attempt-Fair a s name cf settings r.1 (implementation h f a s name cf r.0 r.2) r.2 stable
          flag right (t1.there there) in
      record { touches = Touches-trans h a s cf g r.2 _ t1 fair.touches; attached = fair.attached }

  pub enumerate_capability_on_device-Fair :
      (a s : ℕ) (name : String) (cf : ℕ) (active : List ℕ) (settings : Assoc String V) (g : State h)
      → IsStable h f
      → lookup name (mapping h f) ≡ some cf
      → Inv h g
      → is_some (get_device h a s g) ≡ true
      → Fair a s name cf g (enumerate_capability_on_device h f a s name cf active settings g)
  unfolding enumerate_capability_on_device
  enumerate_capability_on_device-Fair a s name cf active settings g stable mapped v there =
      elim (Bool-cases (elem cf active)) [
        | inl again ↦
            rw again (record {
              touches = Touches-refl h a s cf g;
              attached = λ no. absurd (false≢true no);
            })
        | inr once ↦ rw once (fresh_attempt-Fair a s name cf settings g stable mapped v there)
      ]
