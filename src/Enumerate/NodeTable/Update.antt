-- ===== src/Enumerate/NodeTable/Update.antt =====
-- What updateNodeTable makes of the devices of a node.
use zda.Base.{
  ℕ, ◌+◌, ◌≤◌, true, false, ◌≡◌, ap, ◌∙◌, some, List, [], Assoc, keys, lookup, is_some, elem,
  length, All-map, IsDistinct, nat_key, arith, Bool-cases, Option-cases, inl, inr,
}
use zda.Table.{Host, Device}
use zda.Table.Ops.{State, get_device}
use zda.Table.Lookup.{is_node}
use zda.Table.Mirror.Steps.{lookup-nil}
use zda.Provider.{remove_devices}
use zda.Provider.Leaving.{get_device-remove_devices}
use zda.Enumerate.NodeTable.{
  unset_devices, match_devices, stale_devices, devices_on, assign_devices, update_node_table,
}
use zda.Enumerate.NodeTable.Found.{
  IsUnset, unset_devices-IsUnset, unset_devices-IsDistinct, match_devices-Agrees,
  match_devices-Within, stale_devices-all, stale_devices-only,
}
use zda.Enumerate.NodeTable.Assign.{Blank, get_device-devices_on}
use zda.Enumerate.NodeTable.Loop.{Ready, Done, assign_devices-Done}

module _ (h : Host) where
  open h use {Impl}

  -- A node that an enumeration can update: there is room for a device for each identifier, and
  -- a device without a unique identifier has 0 there, which no inventory has.
  pub record IsOpen (a : ℕ) (ids : List ℕ) (g : State h) : Type 0 where
    pub known : is_node h a g ≡ true
    pub distinct : IsDistinct (keys (devices_on h a g))
    pub room : length (keys (devices_on h a g)) + length ids ≤ 256
    pub no_zero : elem 0 ids ≡ false
    pub unset_zero :
        (s : ℕ) (d : Device Impl)
        → lookup s (devices_on h a g) ≡ some d
        → d.device_id_set ≡ false
        → d.device_id ≡ 0

  -- Each identifier is mapped to a device that has it, and each device has one of them.
  pub record Fits (a : ℕ) (ids : List ℕ) (mapping : Assoc ℕ ℕ) (g' : State h) : Type 0 where
    pub mapped :
        (id : ℕ)
        → elem id ids ≡ true
        → (s : ℕ) × (d : Device Impl) × (lookup id mapping ≡ some s)
          × (get_device h a s g' ≡ some d)
          × (d.device_id ≡ id)
    pub only :
        (s : ℕ) (d : Device Impl) → get_device h a s g' ≡ some d → elem d.device_id ids ≡ true

  abbrev pub matched : ℕ → List ℕ → State h → Assoc ℕ ℕ
  matched a ids g = match_devices (devices_on h a g) ids []

  pub start-Ready :
      (a : ℕ) (ids : List ℕ) (g : State h)
      → IsOpen a ids g
      → Ready h ids ids (unset_devices (devices_on h a g)) (matched a ids g) (devices_on h a g)
  start-Ready a ids g o =
      let m = devices_on h a g in
      record {
        agrees =
            match_devices-Agrees m ids [] o.distinct
              (λ id s e. absurd (ground (arith, lookup-nil {V = ℕ} id)));
        within =
            λ id has. ground (arith, match_devices-Within m ids [] id has, lookup-nil {V = ℕ} id);
        todo = λ id listed. listed;
        distinct = o.distinct;
        blank =
            All-map (IsUnset m) (Blank h m) (unset_devices m)
              (λ s u. (u.0, u.1, o.unset_zero s u.0 u.1 u.2)) (unset_devices-IsUnset m o.distinct);
        unset_distinct = unset_devices-IsDistinct m o.distinct;
        room = o.room;
      }

  abbrev pub assigned : ℕ → List ℕ → State h → Assoc ℕ ℕ × State h
  assigned a ids g = assign_devices h a ids (unset_devices (devices_on h a g)) (matched a ids g) g

  -- The devices that are not stale are what the mapping says.
  removed-Fits :
      (a : ℕ) (ids : List ℕ) (mapping mapping' : Assoc ℕ ℕ) (g1 : State h)
      → Done h ids ids mapping (devices_on h a g1) mapping'
      → Fits a ids mapping' (remove_devices h a (stale_devices mapping' (devices_on h a g1)) g1)
  removed-Fits a ids mapping mapping' g1 d = record {
    mapped = λ id listed. elim (Option-cases (lookup id mapping')) [
      | inl absent ↦ absurd (ground (arith, d.covers id, absent))
      | inr (s, found) ↦
          let (e, held, is_id) = d.agrees id s found in
          let kept : elem s (stale_devices mapping' m1) ≡ false =
            stale_devices-only mapping' s m1 d.distinct held
              (ap (λ k. is_some (lookup k mapping')) is_id ∙ ap is_some found) in
          (
            s,
            e,
            found,
            ground (
              arith,
              get_device-remove_devices h a a s (stale_devices mapping' m1) g1,
              get_device-devices_on h a s g1,
            ),
            is_id,
          )
    ];
    only = λ s e held.
        let stale = elem s (stale_devices mapping' m1) in
        let before : lookup s m1 ≡ some e = ground (
          arith,
          get_device-remove_devices h a a s (stale_devices mapping' m1) g1,
          get_device-devices_on h a s g1,
        ) in
        elim (Bool-cases (is_some (lookup e.device_id mapping'))) [
          | inl has ↦ d.within e.device_id has
          | inr lacks ↦ absurd (
              ground (
                arith,
                get_device-remove_devices h a a s (stale_devices mapping' m1) g1,
                stale_devices-all mapping' s m1 before lacks,
              ))
        ];
  }
    where
      m1 : Assoc ℕ (Device Impl)
      m1 = devices_on h a g1

  -- On a node of the table that keeps each device once, with room for one more device for each
  -- identifier of the inventory up to 256 in all, where no identifier is 0 and a device without a
  -- unique identifier has 0 there, updateNodeTable maps each identifier of the inventory to a
  -- device on the node that has it as its unique identifier, and leaves no device on the node that
  -- has another one.
  pub update_node_table-Fits :
      (a : ℕ) (ids : List ℕ) (g : State h)
      → IsOpen a ids g
      → Fits a ids (update_node_table h a ids g).1 (update_node_table h a ids g).0
  unfolding update_node_table
  update_node_table-Fits a ids g o =
      removed-Fits a ids (matched a ids g) (assigned a ids g).0 (assigned a ids g).1 (
        assign_devices-Done h ids ids (unset_devices (devices_on h a g)) (matched a ids g) a g
          o.no_zero o.known (start-Ready a ids g o))
