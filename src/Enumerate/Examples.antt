-- ===== src/Enumerate/Examples.antt =====
-- Examples of an enumeration, on the host of the examples of the provider loop.
use zda.Base.{
  ℕ, ◌≡◌, refl, true, List, [], ◌∷◌, lookup, put, delete, nat_key, string_key, arith, String, Assoc,
  ◌==◌, if◌then◌else◌, is_some, none, All-lookup, ◌≢◌,
}
use zda.Table.Ops.{
  get_node, get_device, create_node, create_specific_device, create_next_device, remove_node,
  remove_device, detach_all, detach_capability_from_device, attach_capability_to_device, on_devices,
  device_path, set_device_unique_id,
}
use zda.Table.Mirror.{Inv}
use zda.Node.{next_device_sub_identifier, make_transaction_sequence}
use zda.Provider.{
  event, node_join, provider_loop, receive, receive_node_join_event, receive_node_leave_event,
  remove_devices, on_node_join,
}
use zda.Provider.Examples.{small, two_nodes}
use zda.Provider.Loop.{fresh, fresh-Inv, provider_loop-Inv}
use zda.Enumerate.NodeTable.{
  unset_devices, find_device, match_devices, stale_devices, assign_devices, update_node_table,
}
use zda.Enumerate.NodeTable.Update.{IsOpen, Fits, update_node_table-Fits}
use zda.Enumerate.NodeTable.Mirror.{update_node_table-Inv}
use zda.Enumerate.Factory.{
  Implementations, IsStable, HasMethods, Agree, returned, mapping, create, create-mapping,
  mapping-Made, generic_product_information, zcl_temperature_sensor, zcl_humidity_sensor,
  zcl_pressure_sensor, zcl_identify, zcl_power_supply, generic_device_workarounds,
}
use zda.Enumerate.Capabilities.{update_capabilities_on_device}
use zda.Enumerate.Capabilities.Loops.{names_of}
use zda.Enumerate.Capabilities.Honest.{IsHonest, update_capabilities_on_device-IsHonest}

program : Unit {0}
unfolding lookup put delete provider_loop receive receive_node_join_event receive_node_leave_event
    remove_devices on_node_join get_node get_device create_node create_specific_device
    create_next_device remove_node remove_device detach_all detach_capability_from_device
    attach_capability_to_device on_devices device_path next_device_sub_identifier
    make_transaction_sequence set_device_unique_id unset_devices find_device match_devices
    stale_devices assign_devices update_node_table
program = tt

-- The device of the join is reused for endpoint 3, and one is created for endpoint 4.
update_two : (update_node_table small 7 (3 ∷ 4 ∷ []) two_nodes).1 ≡ (3, 0) ∷ (4, 1) ∷ []
unfolding program
update_two = refl

-- With an identifier 0, the device that has none is matched and then reused: both identifiers are
-- mapped to it.
update_zero : (update_node_table small 7 (0 ∷ 3 ∷ []) two_nodes).1 ≡ (0, 0) ∷ (3, 0) ∷ []
unfolding program
update_zero = refl

two_nodes-IsOpen : IsOpen small 7 (3 ∷ 4 ∷ []) two_nodes
unfolding program
two_nodes-IsOpen = record {
  known = refl;
  distinct = (refl, tt);
  room = omega arith;
  no_zero = refl;
  unset_zero = λ s d found unset. ground arith;
}

update_node_table-Fits_example :
    Fits small 7
      (3 ∷ 4 ∷ [])
      (update_node_table small 7 (3 ∷ 4 ∷ []) two_nodes).1
      (update_node_table small 7 (3 ∷ 4 ∷ []) two_nodes).0
update_node_table-Fits_example =
    update_node_table-Fits small 7 (3 ∷ 4 ∷ []) two_nodes two_nodes-IsOpen

pub two_nodes-Inv : Inv small two_nodes
two_nodes-Inv =
    provider_loop-Inv small (event (node_join 7) ∷ event (node_join 8) ∷ []) (fresh small [])
      (fresh-Inv small [])

update_node_table-Inv_example : Inv small (update_node_table small 7 (3 ∷ 4 ∷ []) two_nodes).0
update_node_table-Inv_example =
    update_node_table-Inv small 7 (3 ∷ 4 ∷ []) two_nodes two_nodes-IsOpen two_nodes-Inv

abbrev pub toy_name : ℕ → String
toy_name i =
    if i == 11
    then generic_product_information
    else if i == 12
    then zcl_temperature_sensor
    else if i == 13
    then zcl_humidity_sensor
    else if i == 14
    then zcl_pressure_sensor
    else if i == 15
    then zcl_identify
    else if i == 16
    then zcl_power_supply
    else generic_device_workarounds

-- A capability attaches when it has a setting.
abbrev pub toy : Implementations small ℕ
toy = record {
  product_information_flag = 11;
  temperature_sensor_flag = 12;
  relative_humidity_sensor_flag = 13;
  pressure_sensor_flag = 14;
  identify_flag = 15;
  power_supply_flag = 16;
  device_workarounds_flag = 17;
  new_product_information = 11;
  new_temperature_sensor = 12;
  new_humidity_sensor = 13;
  new_pressure_sensor = 14;
  new_identify = 15;
  new_power_supply = 16;
  new_device_workaround = 17;
  impl_name = toy_name;
  set_string = λ path key value store. path ∷ store;
  init = λ a s path i store. (i, store);
  load = λ i store. (true, none, i, store);
  enumerate = λ i settings store. (returned (is_some (lookup "on" settings)) none, i, store);
}

factory : Unit {0}
unfolding mapping create
factory = tt

toy-HasMethods : HasMethods small toy
toy-HasMethods = record {
  product_information_capability = refl;
  temperature_sensor_capability = refl;
  humidity_sensor_capability = refl;
  pressure_sensor_capability = refl;
  identify_capability = refl;
  power_supply_capability = refl;
  device_workaround_capability = refl;
  product_information_name = refl;
  temperature_sensor_name = refl;
  humidity_sensor_name = refl;
  pressure_sensor_name = refl;
  identify_name = refl;
  power_supply_name = refl;
  device_workaround_name = refl;
}

pub toy-IsStable : IsStable small toy
unfolding factory
toy-IsStable = record {
  made = λ name cf found. mapping-Made small toy name cf toy-HasMethods found;
  not_built_in = λ name cf found.
      All-lookup (λ v. (v ≢ 1) × (v ≢ 2)) name (mapping small toy) (ground arith) found;
  init_capability = λ a s path c store. refl;
  init_name = λ a s path c store. refl;
  enumerate_capability = λ c settings store. refl;
  enumerate_name = λ c settings store. refl;
}

create-mapping_example :
    Agree small toy "ZCLIdentify"
      (lookup "ZCLIdentify" (mapping small toy))
      (create small toy "ZCLIdentify")
create-mapping_example = create-mapping small toy "ZCLIdentify" toy-HasMethods

abbrev outputs : List (Assoc String (Assoc String ℕ))
outputs = (("ZCLIdentify", ("on", 1) ∷ []) ∷ ("ZCLPowerSupply", []) ∷ ("Unknown", []) ∷ []) ∷ []

update_capabilities_on_device-IsHonest_example :
    IsHonest small toy 7 0
      (names_of small toy outputs)
      two_nodes
      (update_capabilities_on_device small toy 7 0 outputs two_nodes)
unfolding program
update_capabilities_on_device-IsHonest_example =
    update_capabilities_on_device-IsHonest small toy 7 0 outputs two_nodes toy-IsStable
      two_nodes-Inv refl
