-- ===== src/Enumerate/Capabilities/Redundant.antt =====
-- The end of updateCapabilitiesOnDevice: the loop that removes what is not active.
use zda.Base.{
  ℕ, true, false, ◌≡◌, refl, ap, sym, ◌∙◌, Option, none, some, List, [], ◌∷◌, lookup, lookup-delete,
  elem, is_some, ◌==◌, nat_key, string_key, arith, Bool-cases, inl, inr, ◌⊎◌, false≢true,
}
use zda.Table.{Host, Device, no_longer_enumerated}
use zda.Table.Ops.{State, get_device, capabilities_of, detach_capability_from_device}
use zda.Table.Lookup.{is_same}
use zda.Table.Mirror.{Inv}
use zda.Table.Mirror.Steps.{lookup-nil, map_device}
use zda.Table.Mirror.Removal.{get_device-detach, without}
use zda.Enumerate.Factory.{Implementations}
use zda.Enumerate.Capabilities.{Results, remove_one, remove_redundant}
use zda.Enumerate.Capabilities.Steps.{caps, Touches, Touches-refl, same_device}
use zda.Enumerate.Capabilities.Attempt.{IsUnder, detach_after, IsUnder-flag}
use zda.Enumerate.Capabilities.Loops.{IsTold, put-IsTold}

module _ (h : Host) {V : Type 0} (f : Implementations h V) where
  open h use {Impl, Failure, capability, detach, enumerate_device_flag}

  get_device-detached :
      (a s : ℕ) (i : Impl) (g : State h)
      → get_device h a s (detach_capability_from_device h a s i g)
        ≡ map_device h (without h (capability i)) (get_device h a s g)
  get_device-detached a s i g = get_device-detach h a s a s i g ∙ ground (arith, same_device h a s)

  lookup-detached :
      (a s : ℕ) (i : Impl) (g : State h)
      → lookup (capability i) (caps h a s (detach_capability_from_device h a s i g)) ≡ none
  lookup-detached a s i g =
      ap (λ o. lookup (capability i) (capabilities_of h o)) (get_device-detached a s i g)
      ∙ by_device (get_device h a s g)
    where
      by_device :
          (o : Option (Device Impl))
          → lookup (capability i) (capabilities_of h (map_device h (without h (capability i)) o))
            ≡ none
      by_device none = lookup-nil {V = Impl} (capability i)
      by_device (some d) = lookup-delete (capability i) (capability i) d.capabilities ∙ ground arith

  -- A capability that is removed is not on the device any more, and the others stay.
  record Removes (a s cf : ℕ) (active : List ℕ) (errs : Results Failure) (g : State h)
      (r : Results Failure × State h) : Type 0 where
    touches : Touches h a s cf g r.1
    gone : lookup cf (caps h a s r.1) ≡ none
    told : IsTold h f errs active → IsTold h f r.0 active

  remove_one-Removes :
      (a s cf : ℕ) (active : List ℕ) (o : Option Impl) (errs : Results Failure) (g : State h)
      → lookup cf (caps h a s g) ≡ o
      → IsUnder h f cf o
      → Removes a s cf active errs g (remove_one h f a s cf o errs g)
  remove_one-Removes a s cf active none errs g found under = record {
    touches = Touches-refl h a s cf g;
    gone = found;
    told = λ t. t;
  }
  remove_one-Removes a s cf active (some i) errs g found under =
      let store = (detach i no_longer_enumerated g.store).1 in
      record {
        touches = detach_after h f a s cf i g store under;
        gone = rw (← under) (lookup-detached a s i (record g { store = store }));
        told = λ t.
            put-IsTold h f cf _ errs active active t (λ c listed. listed)
              (λ no. absurd (false≢true no));
      }

  -- What the loop leaves: the active capabilities, and of the others none that it visits.
  pub record Left (a s : ℕ) (active cfs : List ℕ) (g : State h) (r : Results Failure × State h)
      : Type 0 where
    pub inv : Inv h r.1
    pub there : is_some (get_device h a s g) ≡ true → is_some (get_device h a s r.1) ≡ true
    pub elsewhere : (b t : ℕ) → is_same a s b t ≡ false → get_device h b t r.1 ≡ get_device h b t g
    pub kept : (c : ℕ) → elem c active ≡ true → lookup c (caps h a s r.1) ≡ lookup c (caps h a s g)
    pub gone :
        (c : ℕ)
        → elem c active ≡ false
        → (elem c cfs ≡ true) ⊎ (lookup c (caps h a s g) ≡ none)
        → lookup c (caps h a s r.1) ≡ none
    pub told : IsTold h f r.0 active

  still_visited :
      (c cf : ℕ) (cfs active : List ℕ) (P : Type 0)
      → elem cf active ≡ true
      → elem c active ≡ false
      → (elem c (cf ∷ cfs) ≡ true) ⊎ P
      → (elem c cfs ≡ true) ⊎ P
  still_visited c cf cfs active P listed other (inl visited) = inl (ground arith)
  still_visited c cf cfs active P listed other (inr p) = inr p

  apart :
      (c cf : ℕ) (active : List ℕ)
      → elem c active ≡ true
      → elem cf active ≡ false
      → (cf == c) ≡ false
  apart c cf active listed redundant = elim (Bool-cases (cf == c)) [
    | inr other ↦ other
    | inl same ↦ absurd (
        false≢true
          (sym redundant ∙ ap (λ k. elem k active) ((nat_key.same_iff cf c).0 same) ∙ listed))
  ]

  after_one :
      (a s c cf : ℕ) (cfs active : List ℕ) (errs : Results Failure) (g : State h)
      (r : Results Failure × State h)
      → Removes a s cf active errs g r
      → (elem c (cf ∷ cfs) ≡ true) ⊎ (lookup c (caps h a s g) ≡ none)
      → (elem c cfs ≡ true) ⊎ (lookup c (caps h a s r.1) ≡ none)
  after_one a s c cf cfs active errs g r one before = elim (Bool-cases (cf == c)) [
    | inl same ↦ inr (rw (← (nat_key.same_iff cf c).0 same) one.gone)
    | inr other ↦ elim before [
      | inl visited ↦ inl (ground arith)
      | inr absent ↦ inr (one.touches.others c other ∙ absent)
    ]
  ]

  pub remove_redundant-Left :
      (a s : ℕ) (active cfs : List ℕ) (errs : Results Failure) (g : State h)
      → Inv h g
      → IsTold h f errs active
      → Left a s active cfs g (remove_redundant h f a s active cfs errs g)
  unfolding remove_redundant
  remove_redundant-Left a s active [] errs g v told = record {
    inv = v;
    there = λ t. t;
    elsewhere = λ b t apart. refl;
    kept = λ c listed. refl;
    gone = λ c other before. elim before [
      | inl visited ↦ absurd (false≢true visited)
      | inr absent ↦ absent
    ];
    told = told;
  }
  remove_redundant-Left a s active (cf ∷ cfs) errs g v told = elim (Bool-cases (elem cf active)) [
    | inl listed ↦
        let rest = remove_redundant-Left a s active cfs errs g v told in
        rw listed (record {
          inv = rest.inv;
          there = rest.there;
          elsewhere = rest.elsewhere;
          kept = rest.kept;
          gone = λ c other before.
              rest.gone c other (still_visited c cf cfs active _ listed other before);
          told = rest.told;
        })
    | inr redundant ↦
        let o = lookup cf (caps h a s g) in
        let one =
          remove_one-Removes a s cf active o errs g refl
            (IsUnder-flag h f a s cf g (get_device h a s g) refl v) in
        let r = remove_one h f a s cf o errs g in
        let rest =
          remove_redundant-Left a s active cfs r.0 r.1 (one.touches.inv v) (one.told told) in
        rw redundant (record {
          inv = rest.inv;
          there = λ t. rest.there (one.touches.there t);
          elsewhere = λ b t apart. rest.elsewhere b t apart ∙ one.touches.elsewhere b t apart;
          kept = λ c listed.
              rest.kept c listed ∙ one.touches.others c (apart c cf active listed redundant);
          gone = λ c other before.
              rest.gone c other (after_one a s c cf cfs active errs g r one before);
          told = rest.told;
        })
  ]
