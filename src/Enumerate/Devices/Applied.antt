-- ===== src/Enumerate/Devices/Applied.antt =====
-- What an enumeration leaves of a node: each device of the inventory with its capabilities.
use zda.Base.{
  ℕ, true, false, ◌≡◌, ◌≢◌, refl, ap, sym, ◌∙◌, Option, some, List, [], ◌∷◌, Assoc, lookup, put,
  is_some, elem, All, IsDistinct, ◌==◌, nat_key, arith, Bool-cases, inl, inr, beq_refl, false≢true,
}
use zda.Table.{Host}
use zda.Table.Ops.{State, get_device, capabilities_of}
use zda.Table.Lookup.{is_same}
use zda.Table.Mirror.{Inv}
use zda.Enumerate.Inventory.{InventoryDevice}
use zda.Enumerate.Inventory.Grouping.{unique_ids}
use zda.Enumerate.Factory.{Implementations, IsStable}
use zda.Enumerate.Capabilities.{update_capabilities_on_device}
use zda.Enumerate.Capabilities.Steps.{caps}
use zda.Enumerate.Capabilities.Loops.{Backed, names_of}
use zda.Enumerate.Capabilities.Honest.{update_capabilities_on_device-IsHonest}
use zda.Enumerate.Devices.{outputs, AllResults, enumerate_devices}

module _ (h : Host) {V : Type 0} (f : Implementations h V) where
  open h use {Impl}

  -- The device of the inventory has a device of the node, with no capability but those that the
  -- rules named for it.
  abbrev pub IsServed : ℕ → Assoc ℕ ℕ → State h → InventoryDevice V → Type 0
  IsServed a mapping g d =
      (s : ℕ) × (lookup d.unique_id mapping ≡ some s)
      × (is_some (get_device h a s g) ≡ true)
      × ((c : ℕ) (i : Impl)
          → lookup c (caps h a s g) ≡ some i
          → Backed h f a s (names_of h f (outputs d.endpoints)) c g)

  abbrev pub IsPresent : ℕ → Assoc ℕ ℕ → State h → InventoryDevice V → Type 0
  IsPresent a mapping g d =
      (s : ℕ) × (lookup d.unique_id mapping ≡ some s) × (is_some (get_device h a s g) ≡ true)

  -- Two identifiers are not mapped to one device.
  abbrev pub IsInjective : Assoc ℕ ℕ → List ℕ → Type 0
  IsInjective mapping ids =
      (id j s : ℕ)
      → elem id ids ≡ true
      → elem j ids ≡ true
      → lookup id mapping ≡ some s
      → lookup j mapping ≡ some s
      → id ≡ j

  -- No identifier is mapped to `t`.
  abbrev pub IsApart : Assoc ℕ ℕ → List ℕ → ℕ → Type 0
  IsApart mapping ids t = (id : ℕ) → elem id ids ≡ true → lookup id mapping ≢ some t

  pub record Served (a : ℕ) (mapping : Assoc ℕ ℕ) (ds : List (InventoryDevice V)) (g : State h)
      (o : Option (AllResults h f × State h)) : Type 0 where
    pub results : AllResults h f
    pub state : State h
    pub returned : o ≡ some (results, state)
    pub inv : Inv h state
    pub served : All (IsServed a mapping state) ds
    pub elsewhere :
        (t : ℕ) → IsApart mapping (unique_ids ds) t → get_device h a t state ≡ get_device h a t g

  already_listed :
      (j id s t : ℕ) (mapping : Assoc ℕ ℕ) (ids : List ℕ)
      → lookup id mapping ≡ some s
      → IsInjective mapping (id ∷ ids)
      → elem j ids ≡ true
      → lookup j mapping ≡ some t
      → (s == t) ≡ true
      → elem id ids ≡ true
  already_listed j id s t mapping ids mapped injective listed is_t same =
      let is_s : s ≡ t = (nat_key.same_iff s t).0 same in
      let is_j : id ≡ j =
        injective id j t (ground (arith, beq_refl id)) (ground arith) (mapped ∙ ap some is_s)
          is_t in
      ap (λ k. elem k ids) is_j ∙ listed

  -- The devices that come later are found as before.
  IsPresent-later :
      (a id s : ℕ) (mapping : Assoc ℕ ℕ) (ds : List (InventoryDevice V)) (g g1 : State h)
      → lookup id mapping ≡ some s
      → IsInjective mapping (id ∷ unique_ids ds)
      → elem id (unique_ids ds) ≡ false
      → ((b t : ℕ) → is_same a s b t ≡ false → get_device h b t g1 ≡ get_device h b t g)
      → (es : List (InventoryDevice V))
      → ((j : ℕ) → elem j (unique_ids es) ≡ true → elem j (unique_ids ds) ≡ true)
      → All (IsPresent a mapping g) es
      → All (IsPresent a mapping g1) es
  IsPresent-later a id s mapping ds g g1 mapped injective new elsewhere [] within present = tt
  IsPresent-later a id s mapping ds g g1 mapped injective new elsewhere (e ∷ es) within
        ((t, is_t, there), present) =
      (
        (
          t,
          is_t,
          elim (Bool-cases (s == t)) [
            | inr other ↦ ap is_some (elsewhere a t (ground arith)) ∙ there
            | inl same ↦ absurd (
                false≢true (
                  sym new
                  ∙ already_listed e.unique_id id s t mapping (unique_ids ds) mapped injective
                      (within e.unique_id (ground (arith, beq_refl e.unique_id))) is_t same))
          ],
        ),
        IsPresent-later a id s mapping ds g g1 mapped injective new elsewhere es
            (λ j listed. within j (ground arith)) present,
      )

  tail-IsInjective :
      (mapping : Assoc ℕ ℕ) (id : ℕ) (ids : List ℕ)
      → IsInjective mapping (id ∷ ids)
      → IsInjective mapping ids
  tail-IsInjective mapping id ids injective i j s listed_i listed_j =
      injective i j s (ground arith) (ground arith)

  -- The identifiers that come later are not mapped to the device of this one.
  later-IsApart :
      (mapping : Assoc ℕ ℕ) (id s : ℕ) (ids : List ℕ)
      → lookup id mapping ≡ some s
      → IsInjective mapping (id ∷ ids)
      → elem id ids ≡ false
      → IsApart mapping ids s
  later-IsApart mapping id s ids mapped injective new j listed is_s =
      false≢true
        (sym new ∙ already_listed j id s s mapping ids mapped injective listed is_s (beq_refl s))

  -- A device that does not change any more stays served.
  still-IsServed :
      (a s : ℕ) (mapping : Assoc ℕ ℕ) (d : InventoryDevice V) (g1 g2 : State h)
      → lookup d.unique_id mapping ≡ some s
      → IsServed a mapping g1 d
      → get_device h a s g2 ≡ get_device h a s g1
      → IsServed a mapping g2 d
  still-IsServed a s mapping d g1 g2 mapped (t, is_t, there, backed) same =
      let is_s : t ≡ s = ground arith in
      let same_t : get_device h a t g2 ≡ get_device h a t g1 = rw is_s same in
      let same_caps : caps h a t g2 ≡ caps h a t g1 = ap (capabilities_of h) same_t in
      (
        t,
        is_t,
        ap is_some same_t ∙ there,
        λ c i held.
            let (name, listed, mapped_c, (j, held_j, named)) =
              backed c i (ap (lookup c) (sym same_caps) ∙ held) in
            (name, listed, mapped_c, (j, ap (lookup c) same_caps ∙ held_j, named)),
      )

  not_here :
      (a s t id : ℕ) (mapping : Assoc ℕ ℕ) (ids : List ℕ)
      → lookup id mapping ≡ some s
      → IsApart mapping (id ∷ ids) t
      → is_same a s a t ≡ false
  not_here a s t id mapping ids mapped apart = elim (Bool-cases (s == t)) [
    | inr other ↦ ground arith
    | inl same ↦
        absurd (
          apart id (ground (arith, beq_refl id)) (mapped ∙ ap some ((nat_key.same_iff s t).0 same)))
  ]

  pub enumerate_devices-Served :
      (a : ℕ) (mapping : Assoc ℕ ℕ) (ds : List (InventoryDevice V)) (results : AllResults h f)
      (g : State h)
      → IsStable h f
      → IsDistinct (unique_ids ds)
      → IsInjective mapping (unique_ids ds)
      → All (IsPresent a mapping g) ds
      → Inv h g
      → Served a mapping ds g (enumerate_devices h f a mapping ds results g)
  unfolding enumerate_devices
  enumerate_devices-Served a mapping [] results g stable distinct injective present v = record {
    results = results;
    state = g;
    returned = refl;
    inv = v;
    served = tt;
    elsewhere = λ t apart. refl;
  }
  enumerate_devices-Served a mapping (d ∷ ds) results g stable distinct injective
        ((s, mapped, there), present) v =
      let r = update_capabilities_on_device h f a s (outputs d.endpoints) g in
      let honest =
        update_capabilities_on_device-IsHonest h f a s (outputs d.endpoints) g stable v there in
      let rest =
        enumerate_devices-Served a mapping ds (put s r.0 results) r.1 stable distinct.1
          (tail-IsInjective mapping d.unique_id (unique_ids ds) injective)
          (IsPresent-later a d.unique_id s mapping ds g r.1 mapped injective distinct.0
            honest.elsewhere ds (λ j listed. listed) present)
          honest.inv in
      let kept =
        rest.elsewhere s
          (later-IsApart mapping d.unique_id s (unique_ids ds) mapped injective distinct.0) in
      rw (mapped, enumerate_devices)
        (record {
          results = rest.results;
          state = rest.state;
          returned = rest.returned;
          inv = rest.inv;
          served = (
            still-IsServed a s mapping d r.1 rest.state mapped
                (s, mapped, honest.there, honest.only) kept,
            rest.served,
          );
          elsewhere = λ t apart.
              rest.elsewhere t (λ j listed. apart j (ground arith))
              ∙ honest.elsewhere a t
                  (not_here a s t d.unique_id mapping (unique_ids ds) mapped apart);
        })
