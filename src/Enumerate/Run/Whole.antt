-- ===== src/Enumerate/Run/Whole.antt =====
-- However an enumeration ends, the events are true and the node can be enumerated again.
use zda.Base.{
  ℕ, ◌≡◌, refl, none, some, [], ◌∷◌, Assoc, keys, IsDistinct, Result, ok, err, >>=-eq-ok, nat_key,
  arith,
}
use zda.Rules.Execute.{Output}
use zda.Table.{Host, enumerate_device_start}
use zda.Table.Ops.{State}
use zda.Table.Mirror.{Inv}
use zda.Enumerate.Inventory.{
  EndpointDetails, Input, Inventory, run_each, run_rules, to_rules_input, group_inventory_devices,
}
use zda.Enumerate.Inventory.Grouping.{unique_ids, group_inventory_devices-IsGrouped}
use zda.Enumerate.Inventory.Interrogation.{
  Querier, Interrupted, query_failed, panicked, interrogate_node,
}
use zda.Enumerate.Inventory.Interrogated.{interrogate_node-IsFound}
use zda.Enumerate.NodeTable.{devices_on}
use zda.Enumerate.NodeTable.Update.{IsOpen}
use zda.Enumerate.Factory.{Implementations, IsStable}
use zda.Enumerate.Devices.{apply_inventory}
use zda.Enumerate.Devices.Whole.{apply_inventory-IsApplied}
use zda.Enumerate.Run.{send_all, Ended, when_applied, when_ruled, when_interrogated, enumerate}
use zda.Enumerate.Run.Ending.{IsOver, send_all-Inv, finish-IsOver, started-IsOpen, start-IsSilent}

module _ {V : Type 0} {E : Type 0} (run_rules_fn : Input → Result E (Output V)) where
  keys-run_each :
      (input : Input) (m m' : Assoc ℕ (EndpointDetails V))
      → run_each run_rules_fn input m ≡ ok m'
      → keys m' ≡ keys m
  unfolding run_each
  keys-run_each input [] m' done = ground arith
  keys-run_each input ((id, ep) ∷ m) m' done =
      let (o, ran, after) = >>=-eq-ok (run_rules_fn (record input { self = id })) _ done in
      let (rest, ran_rest, made) = >>=-eq-ok (run_each run_rules_fn input m) _ after in
      consed rest made (keys-run_each input m rest ran_rest)
    where
      consed :
          (rest : Assoc ℕ (EndpointDetails V)) {d : EndpointDetails V}
          → ◌≡◌ {A = Result E (Assoc ℕ (EndpointDetails V))} (ok ((id, d) ∷ rest)) (ok m')
          → keys rest ≡ keys m
          → keys m' ≡ id ∷ keys m
      consed rest made same = ground arith

  pub keys-run_rules :
      (inv inv' : Inventory V)
      → run_rules run_rules_fn inv ≡ ok inv'
      → keys inv'.endpoints ≡ keys inv.endpoints
  unfolding run_rules
  keys-run_rules inv inv' done =
      let (m, ran, made) =
        >>=-eq-ok (run_each run_rules_fn (to_rules_input inv) inv.endpoints) _ done in
      same_endpoints m made (keys-run_each (to_rules_input inv) inv.endpoints m ran)
    where
      same_endpoints :
          (m : Assoc ℕ (EndpointDetails V))
          → ◌≡◌ {A = Result E (Inventory V)} (ok (record inv { endpoints = m })) (ok inv')
          → keys m ≡ keys inv.endpoints
          → keys inv'.endpoints ≡ keys inv.endpoints
      same_endpoints m made same = ground arith

module _ (h : Host) {V : Type 0} (f : Implementations h V) (q : Querier) {E : Type 0}
    (run_rules_fn : Input → Result E (Output V)) where
  -- The node is open for what its interrogation and the rules may give.
  abbrev pub IsPrepared : ℕ → q.Net → State h → Type 0
  IsPrepared a net g =
      (inv inv' : Inventory V) (net' : q.Net)
      → interrogate_node q V a net ≡ (ok inv, net')
      → run_rules run_rules_fn inv ≡ ok inv'
      → IsOpen h a (unique_ids (group_inventory_devices inv')) g

  -- An end without a state is the panic of an interrogation.
  abbrev pub EndsWell :
      ℕ → Result (Interrupted q.Failure) (Inventory V) → Ended h f q run_rules_fn → Type 0
  EndsWell a r none = r ≡ err panicked
  EndsWell a r (some (results, g)) = IsOver h a g

  applied-EndsWell :
      (a : ℕ) (inv inv' : Inventory V) (g : State h)
      → IsStable h f
      → IsDistinct (keys inv'.endpoints)
      → IsOpen h a (unique_ids (group_inventory_devices inv')) g
      → Inv h g
      → EndsWell a (ok inv) (
          when_applied h f q run_rules_fn a
            (apply_inventory h f a (group_inventory_devices inv') g))
  applied-EndsWell a inv inv' g stable distinct open_node v =
      let grouped = group_inventory_devices-IsGrouped inv' distinct in
      let (r, applied) =
        apply_inventory-IsApplied h f a (group_inventory_devices inv') g stable grouped.distinct
          open_node v in
      rw applied.returned (finish-IsOver h a r.1 applied.inv)

  ruled-EndsWell :
      (a : ℕ) (inv : Inventory V) (g : State h) (r : Result E (Inventory V))
      → run_rules run_rules_fn inv ≡ r
      → IsStable h f
      → IsDistinct (keys inv.endpoints)
      → ((inv' : Inventory V)
          → run_rules run_rules_fn inv ≡ ok inv'
          → IsOpen h a (unique_ids (group_inventory_devices inv')) g)
      → Inv h g
      → EndsWell a (ok inv) (when_ruled h f q run_rules_fn a g r)
  ruled-EndsWell a inv g (err e) ran stable distinct prepared v = finish-IsOver h a g v
  ruled-EndsWell a inv g (ok inv') ran stable distinct prepared v =
      applied-EndsWell a inv inv' g stable (rw (keys-run_rules run_rules_fn inv inv' ran) distinct)
        (prepared inv' ran) v

  interrogated-EndsWell :
      (a : ℕ) (net : q.Net) (g1 : State h) (r : Result (Interrupted q.Failure) (Inventory V))
      (net' : q.Net)
      → interrogate_node q V a net ≡ (r, net')
      → IsStable h f
      → IsPrepared a net g1
      → Inv h g1
      → EndsWell a r (when_interrogated h f q run_rules_fn a g1 r)
  interrogated-EndsWell a net g1 (err panicked) net' done stable prepared v = refl
  interrogated-EndsWell a net g1 (err (query_failed e)) net' done stable prepared v =
      finish-IsOver h a g1 v
  interrogated-EndsWell a net g1 (ok inv) net' done stable prepared v =
      let (eps, answered, found) = interrogate_node-IsFound q V a net net' inv done in
      ruled-EndsWell a inv g1 (run_rules run_rules_fn inv) refl stable found.distinct
        (λ inv' ran. prepared inv inv' net' done ran) v

  -- When the node is open for what its interrogation and the rules may give, an enumeration ends
  -- with true events and with the node free for the next one, whatever fails on the way, unless
  -- an attribute of the node that should be a text is not one.
  pub enumerate-EndsWell :
      (a : ℕ) (net : q.Net) (g : State h)
      → IsStable h f
      → IsPrepared a net g
      → Inv h g
      → EndsWell a (interrogate_node q V a net).0 (enumerate h f q run_rules_fn a net g).0
  unfolding enumerate
  enumerate-EndsWell a net g stable prepared v =
      let ss = keys (devices_on h a g) in
      let g1 = send_all h enumerate_device_start a ss g in
      let r = interrogate_node q V a net in
      interrogated-EndsWell a net g1 r.0 r.1 refl stable
        (λ inv inv' net' done ran.
          started-IsOpen h a (unique_ids (group_inventory_devices inv')) ss g
            (prepared inv inv' net' done ran))
        (send_all-Inv h enumerate_device_start a ss g (start-IsSilent h) v)
