-- ===== src/Provider.antt =====
-- provider_loop.go: the events that the Zigbee provider gives, and what they do to the table; and
-- onNodeJoin and startEnumeration of enumerate_device.go, which a join calls.
pub mod Leaving
pub mod Loop
pub mod Examples
use zda.Base.{
  ℕ, Bool, true, false, Option, none, some, List, [], ◌∷◌, Assoc, keys, lookup, put, if◌then◌else◌,
  nat_key,
}
use zda.Table.{Host, Node}
use zda.Table.Ops.{State, create_node, get_node, remove_node, create_next_device, remove_device}

-- A provider event; the messages go to the ZCL communicator and are not seen by the table.
pub data ProviderEvent : Type 0 where
  node_join node_leave : ℕ → ProviderEvent
  node_incoming_message : ProviderEvent

-- What z.provider.ReadEvent returns: an event, or one of the errors that providerLoop tells apart.
pub data ReadResult : Type 0 where
  event : ProviderEvent → ReadResult
  deadline_exceeded canceled failed : ReadResult

module _ (h : Host) where
  open h use {Impl}

  -- startEnumeration: the state, and whether the weight of the semaphore was free.
  unfoldable pub start_enumeration : ℕ → State h → State h × Bool
  start_enumeration a g = elim (lookup a g.node) [
    | none ↦ (g, false)
    | some n ↦ if n.enumeration_held then (g, false) else (
      record g {
        node = put a (record n { enumeration_held = true }) g.node;
        started = a ∷ g.started;
      },
      true,
    )
  ]

  -- onNodeJoin, which logs an error and returns nil.
  unfoldable pub on_node_join : ℕ → State h → State h
  unfolding start_enumeration
  on_node_join a g = (start_enumeration a g).0

  -- receiveNodeJoinEvent
  unfoldable pub receive_node_join_event : ℕ → State h → State h
  receive_node_join_event a g =
      let (g1, created) = create_node h a g in
      if created then on_node_join a (create_next_device h a g1).0 else g1

  -- The loop of receiveNodeLeaveEvent over the devices on the node.
  unfoldable pub remove_devices : ℕ → List ℕ → State h → State h
  remove_devices a [] g = g
  remove_devices a (s ∷ ss) g = remove_devices a ss (remove_device h a s g).0

  -- receiveNodeLeaveEvent
  unfoldable pub receive_node_leave_event : ℕ → State h → State h
  receive_node_leave_event a g = elim (get_node h a g) [
    | none ↦ g
    | some n ↦ (remove_node h a (remove_devices a (keys n.device) g)).0
  ]

  unfoldable pub receive : ProviderEvent → State h → State h
  receive (node_join a) g = receive_node_join_event a g
  receive (node_leave a) g = receive_node_leave_event a g
  receive node_incoming_message g = g

  -- The loop of providerLoop over the results that ReadEvent returns.
  unfoldable pub provider_loop : List ReadResult → State h → State h
  provider_loop [] g = g
  provider_loop (event e ∷ rs) g = provider_loop rs (receive e g)
  provider_loop (deadline_exceeded ∷ rs) g = provider_loop rs g
  provider_loop (canceled ∷ rs) g = g
  provider_loop (failed ∷ rs) g = g
