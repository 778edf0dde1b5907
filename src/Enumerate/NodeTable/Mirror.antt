-- ===== src/Enumerate/NodeTable/Mirror.antt =====
-- updateNodeTable and the view that the events give.
use zda.Base.{
  ℕ, ◌≡◌, ◌∙◌, true, false, none, List, [], ◌∷◌, Assoc, lookup, put, elem, arith, Option-cases, inl,
  inr, nat_key,
}
use zda.Table.{Host}
use zda.Table.Ops.{State, create_next_device}
use zda.Table.Lookup.{is_node}
use zda.Table.Mirror.{Inv}
use zda.Table.Mirror.Steps.{create_specific_device-Inv}
use zda.Table.Mirror.Attach.{set_device_unique_id-Inv}
use zda.Provider.Leaving.{remove_devices-Inv}
use zda.Enumerate.NodeTable.{
  unset_devices, stale_devices, devices_on, take_device, assign_devices, update_node_table,
}
use zda.Enumerate.NodeTable.Assign.{taken, taken_id, created_absent, get_device-devices_on}
use zda.Enumerate.NodeTable.Loop.{Ready, step-Stepped, skip}
use zda.Enumerate.NodeTable.Update.{IsOpen, start-Ready, matched, assigned}

module _ (h : Host) where
  create_next_device-Inv :
      (a : ℕ) (g : State h)
      → is_node h a g ≡ true
      → lookup (create_next_device h a g).1 (devices_on h a g) ≡ none
      → Inv h g
      → Inv h (create_next_device h a g).0
  unfolding create_next_device
  create_next_device-Inv a g node absent =
      create_specific_device-Inv h a (create_next_device h a g).1 g node
        (get_device-devices_on h a (create_next_device h a g).1 g ∙ absent)

  taken-Inv :
      (all ids unset : List ℕ) (id : ℕ) (mapping : Assoc ℕ ℕ) (a : ℕ) (g : State h)
      → is_node h a g ≡ true
      → Ready h all (id ∷ ids) unset mapping (devices_on h a g)
      → Inv h g
      → Inv h (taken h a unset id g)
  taken-Inv all ids [] id mapping a g node r v =
      set_device_unique_id-Inv h a (taken_id h a [] g) id (create_next_device h a g).0
        (create_next_device-Inv a g node (created_absent h a g (omega (arith, r.room))) v)
  taken-Inv all ids (s ∷ rest) id mapping a g node r v = set_device_unique_id-Inv h a s id g v

  assign_devices-Inv :
      (all ids unset : List ℕ) (mapping : Assoc ℕ ℕ) (a : ℕ) (g : State h)
      → elem 0 all ≡ false
      → is_node h a g ≡ true
      → Ready h all ids unset mapping (devices_on h a g)
      → Inv h g
      → Inv h (assign_devices h a ids unset mapping g).1
  unfolding assign_devices
  assign_devices-Inv all [] unset mapping a g no_zero node r v = v
  assign_devices-Inv all (id ∷ ids) unset mapping a g no_zero node r v =
      elim (Option-cases (lookup id mapping)) [
        | inr (s, found) ↦
            rw (found, assign_devices)
              (assign_devices-Inv all ids unset mapping a g no_zero node
                (skip h all ids unset id mapping _ r) v)
        | inl absent ↦
            let next = step-Stepped h all ids unset id mapping a g no_zero node r in
            rw (absent, assign_devices)
              (assign_devices-Inv all ids (take_device h a unset g).1
                (put id (taken_id h a unset g) mapping) a (taken h a unset id g) no_zero next.node
                next.ready (taken-Inv all ids unset id mapping a g node r v))
      ]

  -- On a node of the table that keeps each device once, with room for one more device for each
  -- identifier of the inventory up to 256 in all, where no identifier is 0 and a device without a
  -- unique identifier has 0 there, updateNodeTable keeps the events and the table in agreement:
  -- when what a client that reads the events knows was what the table had, it is so afterwards.
  pub update_node_table-Inv :
      (a : ℕ) (ids : List ℕ) (g : State h)
      → IsOpen h a ids g
      → Inv h g
      → Inv h (update_node_table h a ids g).0
  unfolding update_node_table
  update_node_table-Inv a ids g o v =
      let r = assigned h a ids g in
      remove_devices-Inv h a (stale_devices r.0 (devices_on h a r.1)) r.1 (
        assign_devices-Inv ids ids (unset_devices (devices_on h a g)) (matched h a ids g) a g
          o.no_zero o.known (start-Ready h a ids g o) v)
