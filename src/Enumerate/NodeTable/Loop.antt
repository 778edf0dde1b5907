-- ===== src/Enumerate/NodeTable/Loop.antt =====
-- What holds when the loop of updateNodeTable has created the missing devices.
use zda.Base.{
  ℕ, ◌+◌, ◌≤◌, true, false, ◌≡◌, ap, ◌∙◌, none, some, List, [], ◌∷◌, Assoc, keys, lookup, put,
  lookup-put, is_some, elem, length, All, IsDistinct, ◌==◌, nat_key, arith, Bool-cases,
  Option-cases, inl, inr, false≢true, beq_refl,
}
use zda.Table.{Host, Device}
use zda.Table.Ops.{State}
use zda.Table.Lookup.{is_node, is_node_of_device}
use zda.Enumerate.NodeTable.{devices_on, assign_devices, take_device}
use zda.Enumerate.NodeTable.Found.{HasId, Agrees, Within}
use zda.Enumerate.NodeTable.Assign.{
  Taken, Blank, taken, taken_id, unset-Taken, created-Taken, created_absent, get_device-devices_on,
}

module _ (h : Host) where
  open h use {Impl}

  -- What the loop starts from: `unset` is the devices that can be reused.
  pub record Ready (all ids unset : List ℕ) (mapping : Assoc ℕ ℕ) (m : Assoc ℕ (Device Impl))
      : Type 0 where
    pub agrees : Agrees m mapping
    pub within : Within mapping all
    pub todo : (id : ℕ) → elem id ids ≡ true → elem id all ≡ true
    pub distinct : IsDistinct (keys m)
    pub blank : All (Blank h m) unset
    pub unset_distinct : IsDistinct unset
    pub room : length (keys m) + length ids ≤ 256

  -- And what it ends with.
  pub record Done (all ids : List ℕ) (mapping : Assoc ℕ ℕ) (m' : Assoc ℕ (Device Impl))
      (mapping' : Assoc ℕ ℕ) : Type 0 where
    pub agrees : Agrees m' mapping'
    pub within : Within mapping' all
    pub distinct : IsDistinct (keys m')
    pub kept : (id : ℕ) → is_some (lookup id mapping) ≡ true → is_some (lookup id mapping') ≡ true
    pub covers : (id : ℕ) → elem id ids ≡ true → is_some (lookup id mapping') ≡ true

  -- A device that is taken has no identifier of the inventory yet.
  abbrev IsFree : Assoc ℕ (Device Impl) → ℕ → Type 0
  IsFree m s = (j : ℕ) → HasId m s j → j ≡ 0

  Blank-IsFree : (m : Assoc ℕ (Device Impl)) (s : ℕ) → Blank h m s → IsFree m s
  Blank-IsFree m s (d, found, zero) j (e, held, is_j) = ground arith

  absent-IsFree : (m : Assoc ℕ (Device Impl)) (s : ℕ) → lookup s m ≡ none → IsFree m s
  absent-IsFree m s absent j (e, held, is_j) = ground arith

  Agrees-after :
      (s id : ℕ) (all : List ℕ) (mapping : Assoc ℕ ℕ) (m m' : Assoc ℕ (Device Impl))
      → elem 0 all ≡ false
      → Agrees m mapping
      → Within mapping all
      → IsFree m s
      → Taken h m m' s id
      → Agrees m' (put id s mapping)
  Agrees-after s id all mapping m m' no_zero agrees within free t j r e =
      elim (Bool-cases (id == j)) [
        | inl same ↦
            let is_s : s ≡ r = ground (arith, lookup-put id j s mapping) in
            let is_j : id ≡ j = ground arith in rw (← is_s, ← is_j) t.at
        | inr other ↦
            let before : lookup j mapping ≡ some r = ground (arith, lookup-put id j s mapping) in
            let (d, found, is_j) = agrees j r before in
            elim (Bool-cases (s == r)) [
              | inl taken_again ↦ absurd (
                  let at : s ≡ r = ground arith in
                  let zero : j ≡ 0 = free j (d, rw at found, is_j) in ground (arith, within j))
              | inr apart ↦ (d, t.others r apart ∙ found, is_j)
            ]
      ]

  Within-after :
      (s id : ℕ) (all : List ℕ) (mapping : Assoc ℕ ℕ)
      → elem id all ≡ true
      → Within mapping all
      → Within (put id s mapping) all
  Within-after s id all mapping listed within j e =
      ground (arith, lookup-put id j s mapping, within j)

  Blank-after :
      (s id : ℕ) (rest : List ℕ) (m m' : Assoc ℕ (Device Impl))
      → elem s rest ≡ false
      → Taken h m m' s id
      → All (Blank h m) rest
      → All (Blank h m') rest
  Blank-after s id [] m m' new t blank = tt
  Blank-after s id (r ∷ rest) m m' new t ((d, found, zero), blank) = (
    (d, t.others r (ground arith) ∙ found, zero),
    Blank-after s id rest m m' (ground arith) t blank,
  )

  -- One step: the device that is taken, and what the loop goes on from.
  pub record Stepped (all ids : List ℕ) (id : ℕ) (mapping : Assoc ℕ ℕ) (a s : ℕ) (rest : List ℕ)
      (g1 : State h) : Type 0 where
    pub ready : Ready all ids rest (put id s mapping) (devices_on h a g1)
    pub node : is_node h a g1 ≡ true

  node_of_Taken :
      (a s id : ℕ) (m : Assoc ℕ (Device Impl)) (g1 : State h)
      → Taken h m (devices_on h a g1) s id
      → is_node h a g1 ≡ true
  node_of_Taken a s id m g1 t =
      let (d, found, is_id) = t.at in
      is_node_of_device h a s g1 (get_device-devices_on h a s g1 ∙ found)

  stepped :
      (all ids unset : List ℕ) (id : ℕ) (mapping : Assoc ℕ ℕ) (a s : ℕ) (rest : List ℕ)
      (g g1 : State h)
      → elem 0 all ≡ false
      → Ready all (id ∷ ids) unset mapping (devices_on h a g)
      → IsFree (devices_on h a g) s
      → Taken h (devices_on h a g) (devices_on h a g1) s id
      → All (Blank h (devices_on h a g1)) rest
      → IsDistinct rest
      → Stepped all ids id mapping a s rest g1
  stepped all ids unset id mapping a s rest g g1 no_zero r free t blank distinct = record {
    ready = record {
      agrees =
          Agrees-after s id all mapping (devices_on h a g) (devices_on h a g1) no_zero r.agrees
            r.within free t;
      within = Within-after s id all mapping (r.todo id (ground (arith, beq_refl id))) r.within;
      todo = λ j listed. r.todo j (ground arith);
      distinct = t.distinct;
      blank = blank;
      unset_distinct = distinct;
      room = omega (arith, r.room, t.size);
    };
    node = node_of_Taken a s id (devices_on h a g) g1 t;
  }

  pub step-Stepped :
      (all ids unset : List ℕ) (id : ℕ) (mapping : Assoc ℕ ℕ) (a : ℕ) (g : State h)
      → elem 0 all ≡ false
      → is_node h a g ≡ true
      → Ready all (id ∷ ids) unset mapping (devices_on h a g)
      → Stepped all ids id mapping a
          (taken_id h a unset g)
          (take_device h a unset g).1
          (taken h a unset id g)
  step-Stepped all ids [] id mapping a g no_zero node r =
      let s = taken_id h a [] g in
      stepped all ids [] id mapping a s [] g (taken h a [] id g) no_zero r
        (absent-IsFree (devices_on h a g) s (created_absent h a g (omega (arith, r.room))))
        (created-Taken h a id g r.distinct node) tt tt
  step-Stepped all ids (s ∷ rest) id mapping a g no_zero node r =
      let t = unset-Taken h a s id rest g r.distinct r.blank.0 in
      let g1 = taken h a (s ∷ rest) id g in
      stepped all ids (s ∷ rest) id mapping a s rest g g1 no_zero r
        (Blank-IsFree (devices_on h a g) s r.blank.0) t
        (Blank-after s id rest (devices_on h a g) (devices_on h a g1) r.unset_distinct.0 t
          r.blank.1)
        r.unset_distinct.1

  -- An identifier that the mapping has is passed over.
  pub skip :
      (all ids unset : List ℕ) (id : ℕ) (mapping : Assoc ℕ ℕ) (m : Assoc ℕ (Device Impl))
      → Ready all (id ∷ ids) unset mapping m
      → Ready all ids unset mapping m
  skip all ids unset id mapping m r = record {
    agrees = r.agrees;
    within = r.within;
    todo = λ j listed. r.todo j (ground arith);
    distinct = r.distinct;
    blank = r.blank;
    unset_distinct = r.unset_distinct;
    room = omega (arith, r.room);
  }

  found_first :
      (all ids : List ℕ) (id : ℕ) (mapping : Assoc ℕ ℕ) (m' : Assoc ℕ (Device Impl))
      (mapping' : Assoc ℕ ℕ)
      → is_some (lookup id mapping) ≡ true
      → Done all ids mapping m' mapping'
      → Done all (id ∷ ids) mapping m' mapping'
  found_first all ids id mapping m' mapping' has d = record {
    agrees = d.agrees;
    within = d.within;
    distinct = d.distinct;
    kept = d.kept;
    covers = λ j listed. ground (arith, d.covers j, d.kept id);
  }

  created_first :
      (all ids : List ℕ) (id s : ℕ) (mapping : Assoc ℕ ℕ) (m' : Assoc ℕ (Device Impl))
      (mapping' : Assoc ℕ ℕ)
      → Done all ids (put id s mapping) m' mapping'
      → Done all (id ∷ ids) mapping m' mapping'
  created_first all ids id s mapping m' mapping' d = record {
    agrees = d.agrees;
    within = d.within;
    distinct = d.distinct;
    kept = λ j has. ground (arith, d.kept j, lookup-put id j s mapping);
    covers = λ j listed. ground (arith, d.covers j, d.kept id, lookup-put id id s mapping);
  }

  abbrev result : ℕ → List ℕ → List ℕ → Assoc ℕ ℕ → State h → Assoc ℕ ℕ × State h
  result a ids unset mapping g = assign_devices h a ids unset mapping g

  pub assign_devices-Done :
      (all ids unset : List ℕ) (mapping : Assoc ℕ ℕ) (a : ℕ) (g : State h)
      → elem 0 all ≡ false
      → is_node h a g ≡ true
      → Ready all ids unset mapping (devices_on h a g)
      → Done all ids mapping
          (devices_on h a (result a ids unset mapping g).1)
          (result a ids unset mapping g).0
  unfolding assign_devices
  assign_devices-Done all [] unset mapping a g no_zero node r = record {
    agrees = r.agrees;
    within = r.within;
    distinct = r.distinct;
    kept = λ j has. has;
    covers = λ j listed. absurd (false≢true listed);
  }
  assign_devices-Done all (id ∷ ids) unset mapping a g no_zero node r =
      elim (Option-cases (lookup id mapping)) [
        | inr (s, found) ↦
            rw (found, assign_devices)
              (found_first all ids id mapping _ _ (ap is_some found) (
                assign_devices-Done all ids unset mapping a g no_zero node
                  (skip all ids unset id mapping _ r)))
        | inl absent ↦
            let next = step-Stepped all ids unset id mapping a g no_zero node r in
            let s = taken_id h a unset g in
            rw (absent, assign_devices)
              (created_first all ids id s mapping _ _ (
                assign_devices-Done all ids (take_device h a unset g).1 (put id s mapping) a
                  (taken h a unset id g) no_zero next.node next.ready))
      ]
