-- ===== src/Enumerate/Run.antt =====
-- enumerate of enumerate_device.go: a whole enumeration of a node.
pub mod Ending
pub mod Whole
mod Examples
use zda.Base.{
  ℕ, false, Option, none, some, List, [], ◌∷◌, keys, lookup, put, Result, ok, err, nat_key,
}
use zda.Rules.Execute.{Output}
use zda.Table.{Host, Event, enumerate_device_start, enumerate_device_stopped, Node}
use zda.Table.Ops.{State, send_event}
use zda.Enumerate.Inventory.{Input, Inventory, run_rules, group_inventory_devices}
use zda.Enumerate.Inventory.Interrogation.{
  Querier, Interrupted, query_failed, panicked, interrogate_node,
}
use zda.Enumerate.NodeTable.{devices_on}
use zda.Enumerate.Factory.{Implementations}
use zda.Enumerate.Devices.{AllResults, apply_inventory}

module _ (h : Host) where
  -- The loops over n.device that send an event for each device.
  unfoldable pub send_all : (ℕ → ℕ → Event) → ℕ → List ℕ → State h → State h
  send_all make a [] g = g
  send_all make a (s ∷ ss) g = send_all make a ss (send_event h (make a s) g)

  -- n.enumerationSem.Release(1)
  unfoldable pub release : ℕ → State h → State h
  release a g = elim (lookup a g.node) [
    | none ↦ g
    | some n ↦ record g { node = put a (record n { enumeration_held = false }) g.node }
  ]

  -- The deferred function.
  unfoldable pub finish : ℕ → State h → State h
  finish a g =
      let g1 = release a g in send_all enumerate_device_stopped a (keys (devices_on h a g1)) g1

module _ (h : Host) {V : Type 0} (f : Implementations h V) (q : Querier) {E : Type 0}
    (run_rules_fn : Input → Result E (Output V)) where
  -- How enumerate ends: the results of the devices and the state, or a panic.
  abbrev pub Ended : Type 0
  Ended = Option (AllResults h f × State h)

  abbrev pub when_applied : ℕ → Ended → Ended
  when_applied a none = none
  when_applied a (some (results, g)) = some (results, finish h a g)

  abbrev pub when_ruled : ℕ → State h → Result E (Inventory V) → Ended
  when_ruled a g (err e) = some ([], finish h a g)
  when_ruled a g (ok inv) = when_applied a (apply_inventory h f a (group_inventory_devices inv) g)

  abbrev pub when_interrogated : ℕ → State h → Result (Interrupted q.Failure) (Inventory V) → Ended
  when_interrogated a g (err panicked) = none
  when_interrogated a g (err (query_failed e)) = some ([], finish h a g)
  when_interrogated a g (ok inv) = when_ruled a g (run_rules run_rules_fn inv)

  -- enumerate
  unfoldable pub enumerate : ℕ → q.Net → State h → Ended × q.Net
  enumerate a net g =
      let g1 = send_all h enumerate_device_start a (keys (devices_on h a g)) g in
      let (r, net1) = interrogate_node q V a net in (when_interrogated a g1 r, net1)
