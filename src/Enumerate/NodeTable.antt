-- ===== src/Enumerate/NodeTable.antt =====
-- updateNodeTable of enumerate_device.go: the devices of a node are made to fit the inventory. An
-- inventory device is its unique identifier here, and the mapping goes to sub-identifiers. The
-- three ranges over n.device visit the devices in the order of one list; Go leaves the order of
-- each open.
pub mod Found
pub mod Assign
pub mod Loop
pub mod Update
pub mod Mirror
use zda.Base.{
  ℕ, Bool, true, false, Option, none, some, List, [], ◌∷◌, Assoc, lookup, put, is_some, ◌==◌,
  if◌then◌else◌, nat_key,
}
use zda.Table.{Host, Device, Node}
use zda.Table.Ops.{State, create_next_device, set_device_unique_id}
use zda.Provider.{remove_devices}

abbrev pub enter : ℕ → Option ℕ → Assoc ℕ ℕ → Assoc ℕ ℕ
enter id none mapping = mapping
enter id (some s) mapping = put id s mapping

module _ {I : Type 0} where
  -- Look for devices that exist but don't have a uniqueId.
  unfoldable pub unset_devices : Assoc ℕ (Device I) → List ℕ
  unset_devices [] = []
  unset_devices ((s, d) ∷ m) =
      let rest = unset_devices m in if d.device_id_set then rest else s ∷ rest

  -- The first device that has the identifier.
  unfoldable pub find_device : ℕ → Assoc ℕ (Device I) → Option ℕ
  find_device id [] = none
  find_device id ((s, d) ∷ m) =
      let rest = find_device id m in if d.device_id == id then some s else rest

  -- Find existing devices that match the uniqueId.
  unfoldable pub match_devices : Assoc ℕ (Device I) → List ℕ → Assoc ℕ ℕ → Assoc ℕ ℕ
  match_devices m [] mapping = mapping
  match_devices m (id ∷ ids) mapping = match_devices m ids (enter id (find_device id m) mapping)

  -- Aggregate devices that should no longer be present on node.
  unfoldable pub stale_devices : Assoc ℕ ℕ → Assoc ℕ (Device I) → List ℕ
  stale_devices mapping [] = []
  stale_devices mapping ((s, d) ∷ m) =
      let rest = stale_devices mapping m in
      if is_some (lookup d.device_id mapping) then rest else s ∷ rest

module _ (h : Host) where
  open h use {Impl}

  abbrev pub devices_of : Option (Node Impl) → Assoc ℕ (Device Impl)
  devices_of none = []
  devices_of (some n) = n.device

  -- n.device
  abbrev pub devices_on : ℕ → State h → Assoc ℕ (Device Impl)
  devices_on a g = devices_of (lookup a g.node)

  -- An unset device is reused, else a device is created: the sub-identifier, the unset devices
  -- that are left, and the state.
  abbrev pub take_device : ℕ → List ℕ → State h → ℕ × List ℕ × State h
  take_device a [] g = let (g1, s) = create_next_device h a g in (s, [], g1)
  take_device a (s ∷ unset) g = (s, unset, g)

  -- Create new devices for those that are missing.
  unfoldable pub assign_devices : ℕ → List ℕ → List ℕ → Assoc ℕ ℕ → State h → Assoc ℕ ℕ × State h
  assign_devices a [] unset mapping g = (mapping, g)
  assign_devices a (id ∷ ids) unset mapping g = elim (lookup id mapping) [
    | some _ ↦ assign_devices a ids unset mapping g
    | none ↦
        let (s, rest, g1) = take_device a unset g in
        assign_devices a ids rest (put id s mapping) (set_device_unique_id h a s id g1)
  ]

  -- updateNodeTable: the state, and the mapping that it returns.
  unfoldable pub update_node_table : ℕ → List ℕ → State h → State h × Assoc ℕ ℕ
  update_node_table a ids g =
      let m = devices_on a g in
      let (mapping, g1) = assign_devices a ids (unset_devices m) (match_devices m ids []) g in
      (remove_devices h a (stale_devices mapping (devices_on a g1)) g1, mapping)
