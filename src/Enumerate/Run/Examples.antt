-- ===== src/Enumerate/Run/Examples.antt =====
-- An enumeration of the node with two endpoints, whose rules give each an identify capability.
use zda.Base.{
  ℕ, ◌≡◌, refl, ap, sym, ◌∙◌, List, [], ◌∷◌, lookup, put, delete, Result, ok, err, nat_key,
  string_key, arith,
}
use zda.Rules.Execute.{Output}
use zda.Table.Ops.{
  State, get_node, get_device, create_node, create_specific_device, create_next_device, remove_node,
  remove_device, detach_all, detach_capability_from_device, attach_capability_to_device, on_devices,
  device_path, set_device_unique_id,
}
use zda.Node.{next_device_sub_identifier, make_transaction_sequence}
use zda.Provider.{
  provider_loop, receive, receive_node_join_event, receive_node_leave_event, remove_devices,
  on_node_join,
}
use zda.Provider.Examples.{small, two_nodes}
use zda.Enumerate.Inventory.{
  Input, Inventory, add_endpoints, to_rules_input, run_each, run_rules, insert_int, sort_ints,
  inventory_devices, out_devices, group_inventory_devices,
}
use zda.Enumerate.Inventory.Grouping.{unique_ids}
use zda.Enumerate.Inventory.Interrogation.{Interrupted, interrogate_node}
use zda.Enumerate.Inventory.Examples.{toy as toy_querier, toy_inventory, toy_interrogated}
use zda.Enumerate.NodeTable.Update.{IsOpen}
use zda.Enumerate.Examples.{toy, toy-IsStable, two_nodes-Inv}
use zda.Enumerate.Devices.{AllResults}
use zda.Enumerate.Devices.Whole.{IsApplied, apply_inventory-IsApplied}
use zda.Enumerate.Run.{enumerate}
use zda.Enumerate.Run.Whole.{IsPrepared, EndsWell, enumerate-EndsWell}

abbrev identify_rule : Input → Result (Unit {0}) (Output ℕ)
identify_rule input = ok (record { capabilities = ("ZCLIdentify", ("on", 1) ∷ []) ∷ [] })

program : Unit {0}
unfolding lookup put delete provider_loop receive receive_node_join_event receive_node_leave_event
    remove_devices on_node_join get_node get_device create_node create_specific_device
    create_next_device remove_node remove_device detach_all detach_capability_from_device
    attach_capability_to_device on_devices device_path next_device_sub_identifier
    make_transaction_sequence set_device_unique_id add_endpoints to_rules_input run_each run_rules
    insert_int sort_ints inventory_devices out_devices group_inventory_devices
program = tt

same_inventory :
    (inv : Inventory ℕ) (net : ℕ)
    → interrogate_node toy_querier ℕ 7 0 ≡ (ok inv, net)
    → toy_inventory ≡ inv
same_inventory inv net done = first (sym toy_interrogated ∙ done)
  where
    first :
        ◌≡◌ {A = Result (Interrupted (Unit {0})) (Inventory ℕ) × ℕ}
          (ok toy_inventory, 0)
          (ok inv, net)
        → toy_inventory ≡ inv
    first e = ground arith

abbrev ruled : Inventory ℕ → List ℕ
ruled inv = unique_ids (group_inventory_devices inv)

abbrev ids_of : Result (Unit {0}) (Inventory ℕ) → List ℕ
ids_of (err e) = []
ids_of (ok inv) = ruled inv

ruled_ids :
    (inv : Inventory ℕ) → run_rules identify_rule toy_inventory ≡ ok inv → ruled inv ≡ 1 ∷ 2 ∷ []
unfolding program
ruled_ids inv done = sym (ap ids_of done)

two_nodes-IsOpen : IsOpen small 7 (1 ∷ 2 ∷ []) two_nodes
unfolding program
two_nodes-IsOpen = record {
  known = refl;
  distinct = (refl, tt);
  room = omega arith;
  no_zero = refl;
  unset_zero = λ s d found unset. ground arith;
}

prepared : IsPrepared small toy toy_querier identify_rule 7 0 two_nodes
prepared inv inv' net done ran =
    let ran_toy : run_rules identify_rule toy_inventory ≡ ok inv' =
      ap (run_rules identify_rule) (same_inventory inv net done) ∙ ran in
    rw (ruled_ids inv' ran_toy) two_nodes-IsOpen

enumerate-EndsWell_example :
    EndsWell small toy toy_querier identify_rule 7
      (interrogate_node toy_querier ℕ 7 0).0
      (enumerate small toy toy_querier identify_rule 7 0 two_nodes).0
enumerate-EndsWell_example =
    enumerate-EndsWell small toy toy_querier identify_rule 7 0 two_nodes toy-IsStable prepared
      two_nodes-Inv

apply_inventory-IsApplied_example :
    (r : AllResults small toy × State small) × IsApplied small toy 7
      (group_inventory_devices toy_inventory)
      two_nodes
      r
unfolding program
apply_inventory-IsApplied_example =
    apply_inventory-IsApplied small toy 7 (group_inventory_devices toy_inventory) two_nodes
      toy-IsStable (refl, (refl, tt)) two_nodes-IsOpen two_nodes-Inv
