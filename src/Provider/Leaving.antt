-- ===== src/Provider/Leaving.antt =====
-- A node that leaves, and all its devices, are gone from the table; nothing else is.
use zda.Base.{
  ℕ, ◌≡◌, ◌∙◌, none, some, List, [], ◌∷◌, keys, lookup, elem, elem-keys, ◌&&◌, if◌then◌else◌, ◌==◌,
  nat_key, arith, Option-cases, inl, inr,
}
use zda.Table.{Host, Node}
use zda.Table.Ops.{State, get_node, get_device, remove_device}
use zda.Table.Lookup.{lookup-remove_node, get_device-remove_node}
use zda.Table.Mirror.{Inv}
use zda.Table.Mirror.Steps.{remove_node-Inv}
use zda.Table.Mirror.Devices.{remove_device-Inv, get_device-remove_device}
use zda.Provider.{remove_devices, receive_node_leave_event}

module _ (h : Host) where
  open h use {Impl}

  pub remove_devices-Inv :
      (a : ℕ) (ss : List ℕ) (g : State h) → Inv h g → Inv h (remove_devices h a ss g)
  unfolding remove_devices
  remove_devices-Inv a [] g v = v
  remove_devices-Inv a (s ∷ ss) g v =
      remove_devices-Inv a ss (remove_device h a s g).0 (remove_device-Inv h a s g v)

  pub get_device-remove_devices :
      (a b t : ℕ) (ss : List ℕ) (g : State h)
      → get_device h b t (remove_devices h a ss g)
        ≡ (if a == b && elem t ss then none else get_device h b t g)
  unfolding remove_devices
  get_device-remove_devices a b t [] g = ground arith
  get_device-remove_devices a b t (s ∷ ss) g =
      get_device-remove_devices a b t ss (remove_device h a s g).0
      ∙ ground (arith, get_device-remove_device h a s b t g)

  -- The loop leaves no device on the node.
  no_device_left :
      (a t : ℕ) (g : State h) (n : Node Impl)
      → lookup a g.node ≡ some n
      → get_device h a t (remove_devices h a (keys n.device) g) ≡ none
  unfolding get_device
  no_device_left a t g n found =
      ground (arith, get_device-remove_devices a a t (keys n.device) g, elem-keys t n.device, found)

  pub receive_node_leave_event-Inv :
      (a : ℕ) (g : State h) → Inv h g → Inv h (receive_node_leave_event h a g)
  unfolding receive_node_leave_event get_node
  receive_node_leave_event-Inv a g v = elim (Option-cases (lookup a g.node)) [
    | inl absent ↦ rw (absent, receive_node_leave_event) v
    | inr (n, found) ↦
        rw (found, receive_node_leave_event)
          (remove_node-Inv h a (remove_devices h a (keys n.device) g)
            (λ t. no_device_left a t g n found) (remove_devices-Inv a (keys n.device) g v))
  ]

  -- After a node has left, getNode does not find it, no device of it is found, and every device
  -- of every other node is found as before.
  pub leave_removes :
      (a : ℕ) (g : State h)
      → (get_node h a (receive_node_leave_event h a g) ≡ none)
        × ((b t : ℕ)
            → get_device h b t (receive_node_leave_event h a g)
              ≡ (if a == b then none else get_device h b t g))
  unfolding receive_node_leave_event get_node
  leave_removes a g = elim (Option-cases (lookup a g.node)) [
    | inl absent ↦ rw (absent, receive_node_leave_event) (absent, λ b t. unchanged b t absent)
    | inr (n, found) ↦
        rw (found, receive_node_leave_event)
          (
            ground (arith, lookup-remove_node h a a (remove_devices h a (keys n.device) g)),
            λ b t.
                get_device-remove_node h a b t (remove_devices h a (keys n.device) g)
                ∙ ground (arith, get_device-remove_devices a b t (keys n.device) g),
          )
  ]
    where
      unchanged :
          (b t : ℕ)
          → lookup a g.node ≡ none
          → get_device h b t g ≡ (if a == b then none else get_device h b t g)
      unchanged b t absent = unfold get_device in ground (arith, absent)
