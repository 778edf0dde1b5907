-- ===== src/Enumerate/Devices.antt =====
-- The end of enumerate in enumerate_device.go: the node table is made to fit the inventory, and
-- then the capabilities of each of its devices.
pub mod Applied
pub mod Whole
use zda.Base.{ℕ, String, Option, none, some, List, [], ◌∷◌, Assoc, lookup, put, nat_key, map}
use zda.Table.{Host}
use zda.Table.Ops.{State}
use zda.Enumerate.Inventory.{EndpointDetails, InventoryDevice}
use zda.Enumerate.Inventory.Grouping.{unique_ids}
use zda.Enumerate.NodeTable.{update_node_table}
use zda.Enumerate.Factory.{Implementations}
use zda.Enumerate.Capabilities.{Results, update_capabilities_on_device}

-- ep.rulesOutput.Capabilities of each endpoint.
abbrev pub outputs : {V : Type 0} → List (EndpointDetails V) → List (Assoc String (Assoc String V))
outputs [] = []
outputs (ep ∷ eps) = ep.rules_output.capabilities ∷ outputs eps

module _ (h : Host) {V : Type 0} (f : Implementations h V) where
  open h use {Failure}

  -- The results of each device, by its sub-identifier.
  abbrev pub AllResults : Type 0
  AllResults = Assoc ℕ (Results Failure)

  -- The loop over the inventory's devices. A device that the mapping lacks is a nil pointer, and
  -- its use a panic, which is `none`.
  unfoldable pub enumerate_devices :
      ℕ
      → Assoc ℕ ℕ
      → List (InventoryDevice V)
      → AllResults
      → State h
      → Option (AllResults × State h)
  enumerate_devices a mapping [] results g = some (results, g)
  enumerate_devices a mapping (d ∷ ds) results g = elim (lookup d.unique_id mapping) [
    | none ↦ none
    | some s ↦
        let (errs, g1) = update_capabilities_on_device h f a s (outputs d.endpoints) g in
        enumerate_devices a mapping ds (put s errs results) g1
  ]

  -- From updateNodeTable to the end of enumerate.
  unfoldable pub apply_inventory :
      ℕ → List (InventoryDevice V) → State h → Option (AllResults × State h)
  apply_inventory a devices g =
      let (g1, mapping) = update_node_table h a (unique_ids devices) g in
      enumerate_devices a mapping devices [] g1
