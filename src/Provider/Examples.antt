-- ===== src/Provider/Examples.antt =====
-- A host on which the theorems about the provider loop are applied, and tests.
use zda.Base.{
  ℕ, ◌≡◌, refl, String, none, some, List, [], ◌∷◌, lookup, put, delete, ◌==◌, if◌then◌else◌,
  nat_key,
}
use zda.Table.{Host, device_gone, capability_gone}
use zda.Table.Text.{itoa}
use zda.Table.Lookup.{is_same}
use zda.Table.Ops.{
  State, get_node, get_device, create_node, create_specific_device, create_next_device, remove_node,
  remove_device, detach_all, detach_capability_from_device, attach_capability_to_device, on_devices,
  device_path, new_device, set_device_unique_id,
}
use zda.Node.{next_device_sub_identifier, make_transaction_sequence}
use zda.Table.Mirror.{Mirrors}
use zda.Provider.{
  ReadResult, event, node_join, node_leave, deadline_exceeded, canceled, provider_loop, receive,
  receive_node_join_event, receive_node_leave_event, remove_devices, on_node_join,
}
use zda.Provider.Leaving.{leave_removes}
use zda.Provider.Loop.{join_new, fresh, provider_loop-Mirrors}

-- The store is the list of the paths of the calls, and a capability is its flag.
abbrev pub small : Host
small = record {
  Store = List (List String);
  Impl = ℕ;
  Failure = Unit {0};
  section = λ path store. path ∷ store;
  section_delete = λ path name store. path ∷ store;
  set_int = λ path key n store. path ∷ store;
  address_text = itoa;
  enumerate_device_flag = 1;
  device_removal_flag = 2;
  standard_name = itoa;
  capability = λ i. i;
  detach = λ i type store. (none, store);
}

abbrev script : List ReadResult
script =
    event (node_join 7)
    ∷ event (node_join 8)
    ∷ deadline_exceeded
    ∷ event (node_leave 7)
    ∷ event (node_join 8)
    ∷ canceled
    ∷ event (node_leave 8)
    ∷ []

program : Unit {0}
unfolding lookup put delete provider_loop receive receive_node_join_event receive_node_leave_event
    remove_devices on_node_join get_node get_device create_node create_specific_device
    create_next_device remove_node remove_device detach_all detach_capability_from_device
    attach_capability_to_device on_devices device_path next_device_sub_identifier
    make_transaction_sequence set_device_unique_id itoa
program = tt

abbrev pub two_nodes : State small
two_nodes = provider_loop small (event (node_join 7) ∷ event (node_join 8) ∷ []) (fresh small [])

-- The last leave is not read, since the loop ended before it.
script_events :
    (provider_loop small script (fresh small [])).sent
    ≡ device_gone 7 0 ∷ capability_gone 7 0 2 ∷ capability_gone 7 0 1 ∷ two_nodes.sent
unfolding program
script_events = refl

provider_loop-Mirrors_example : Mirrors small (provider_loop small script (fresh small []))
provider_loop-Mirrors_example = provider_loop-Mirrors small script []

leave_removes_example :
    (get_node small 7 (receive_node_leave_event small 7 two_nodes) ≡ none)
    × ((b t : ℕ)
        → get_device small b t (receive_node_leave_event small 7 two_nodes)
          ≡ (if 7 == b then none else get_device small b t two_nodes))
leave_removes_example = leave_removes small 7 two_nodes

join_new_example :
    get_device small 9 0 (receive_node_join_event small 9 two_nodes)
    ≡ (if is_same 9 0 9 0 then some (new_device small) else get_device small 9 0 two_nodes)
unfolding program
join_new_example = join_new small 9 9 0 two_nodes refl
