-- ===== src/Table/Ops.antt =====
-- The operations of table.go, one after another, and the sections that they touch.
use zda.Base.{
  ℕ, String, Bool, true, false, Option, none, some, List, [], ◌∷◌, ◌++◌, Assoc, keys, lookup, put,
  delete, nat_key,
}
use zda.Node.{make_transaction_sequence, next_device_sub_identifier}
use zda.Table.{
  device_removed, Host, Event, device_added, device_gone, capability_added, capability_gone, Device,
  Node, Gateway,
}
use zda.Table.Text.{itoa}

module _ (h : Host) where
  open h use {
    Store, Impl, section, section_delete, set_int, address_text, enumerate_device_flag,
    device_removal_flag, standard_name, capability, detach,
  }

  abbrev pub State : Type 0
  State = Gateway Store Impl

  -- sendEvent
  abbrev pub send_event : Event → State → State
  send_event e g = record g { sent = e ∷ g.sent }

  abbrev pub on_store : (Store → Store) → State → State
  on_store f g = record g { store = f g.store }

  -- The paths of sectionForNode and sectionForDevice.
  unfoldable pub node_path : ℕ → List String
  node_path a = "Node" ∷ address_text a ∷ []

  unfoldable pub device_path : ℕ → ℕ → List String
  unfolding node_path
  device_path a s = node_path a ++ "Device" ∷ itoa s ∷ []

  abbrev pub new_node : ℕ → Node Impl
  new_node a = record {
    address = a;
    sequence = make_transaction_sequence;
    enumeration_held = false;
    device = [];
    use_aps_ack = false;
  }

  abbrev pub new_device : Device Impl
  new_device = record { device_id = 0; device_id_set = false; capabilities = [] }

  -- createNode: the state, and whether the node was created.
  unfoldable pub create_node : ℕ → State → State × Bool
  create_node a g = elim (lookup a g.node) [
    | some n ↦ (g, false)
    | none ↦
        (on_store (section (node_path a)) (record g { node = put a (new_node a) g.node }), true)
  ]

  -- getNode
  unfoldable pub get_node : ℕ → State → Option (Node Impl)
  get_node a g = lookup a g.node

  -- removeNode
  unfoldable pub remove_node : ℕ → State → State × Bool
  remove_node a g = elim (lookup a g.node) [
    | none ↦ (g, false)
    | some n ↦ (
      on_store (section_delete ("Node" ∷ []) (address_text a))
          (record g { node = delete a g.node }),
      true,
    )
  ]

  abbrev pub device_of : ℕ → Option (Node Impl) → Option (Device Impl)
  device_of s none = none
  device_of s (some n) = lookup s n.device

  -- getDevice
  unfoldable pub get_device : ℕ → ℕ → State → Option (Device Impl)
  get_device a s g = device_of s (lookup a g.node)

  -- A change of the device map of a node; a node that is not in the table is not seen again.
  unfoldable pub on_devices : ℕ → (Assoc ℕ (Device Impl) → Assoc ℕ (Device Impl)) → State → State
  on_devices a f g = elim (lookup a g.node) [
    | none ↦ g
    | some n ↦ record g { node = put a (record n { device = f n.device }) g.node }
  ]

  -- createSpecificDevice
  unfoldable pub create_specific_device : ℕ → ℕ → State → State
  create_specific_device a s g =
      let g1 = on_devices a (put s new_device) g in
      let g2 = on_store (section (device_path a s)) g1 in
      let g3 = send_event (device_added a s) g2 in
      let g4 = send_event (capability_added a s enumerate_device_flag) g3 in
      send_event (capability_added a s device_removal_flag) g4

  abbrev pub sub_identifiers : Option (Node Impl) → List ℕ
  sub_identifiers none = []
  sub_identifiers (some n) = keys n.device

  -- createNextDevice: the state, and the sub-identifier of the device.
  unfoldable pub create_next_device : ℕ → State → State × ℕ
  create_next_device a g =
      let s = next_device_sub_identifier (sub_identifiers (lookup a g.node)) in
      (create_specific_device a s g, s)

  abbrev pub on_device : ℕ → ℕ → (Device Impl → Device Impl) → State → State
  on_device a s f g = elim (get_device a s g) [ none ↦ g | some d ↦ on_devices a (put s (f d)) g ]

  -- setDeviceUniqueId
  unfoldable pub set_device_unique_id : ℕ → ℕ → ℕ → State → State
  set_device_unique_id a s id g =
      on_store (set_int (device_path a s) "UniqueId" id)
        (on_device a s (λ d. record d { device_id = id; device_id_set = true }) g)

  -- attachCapabilityToDevice
  unfoldable pub attach_capability_to_device : ℕ → ℕ → Impl → State → State
  attach_capability_to_device a s c g =
      let cf = capability c in
      let g1 = on_device a s (λ d. record d { capabilities = put cf c d.capabilities }) g in
      let g2 = on_store (section (device_path a s ++ "Capability" ∷ standard_name cf ∷ [])) g1 in
      send_event (capability_added a s cf) g2

  abbrev pub capabilities_of : Option (Device Impl) → Assoc ℕ Impl
  capabilities_of none = []
  capabilities_of (some d) = d.capabilities

  -- detachCapabilityFromDevice
  unfoldable pub detach_capability_from_device : ℕ → ℕ → Impl → State → State
  detach_capability_from_device a s c g =
      let cf = capability c in
      elim (lookup cf (capabilities_of (get_device a s g))) [
        | none ↦ g
        | some _ ↦
            let g1 = send_event (capability_gone a s cf) g in
            let g2 =
              on_store (section_delete (device_path a s ++ "Capability" ∷ []) (standard_name cf))
                g1 in
            on_device a s (λ d. record d { capabilities = delete cf d.capabilities }) g2
      ]

  -- The loop of removeDevice over d.capabilities. An error of Detach is logged, and no more.
  unfoldable pub detach_all : ℕ → ℕ → Assoc ℕ Impl → State → State
  detach_all a s [] g = g
  detach_all a s ((cf, impl) ∷ m) g =
      let g1 = on_store (λ store. (detach impl device_removed store).1) g in
      detach_all a s m (detach_capability_from_device a s impl g1)

  -- removeDevice: the state, and whether there was a device.
  unfoldable pub remove_device : ℕ → ℕ → State → State × Bool
  remove_device a s g = elim (get_device a s g) [
    | none ↦ (g, false)
    | some d ↦
        let g1 = detach_all a s d.capabilities g in
        let g2 = send_event (capability_gone a s enumerate_device_flag) g1 in
        let g3 = send_event (capability_gone a s device_removal_flag) g2 in
        let g4 = send_event (device_gone a s) g3 in
        let g5 = on_devices a (delete s) g4 in
        (on_store (section_delete (node_path a ++ "Device" ∷ []) (itoa s)) g5, true)
  ]
