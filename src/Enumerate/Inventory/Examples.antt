-- ===== src/Enumerate/Inventory/Examples.antt =====
-- An interrogation of a node with two endpoints, of which the first has the basic cluster.
use zda.Base.{
  ℕ, String, none, some, List, [], ◌∷◌, lookup, put, ok, ◌==◌, if◌then◌else◌, nat_key, ◌≡◌, refl,
}
use zda.Enumerate.Inventory.{
  EndpointDescription, EndpointDetails, Inventory, insert_int, sort_ints, inventory_devices,
  out_devices, group_inventory_devices,
}
use zda.Enumerate.Inventory.Interrogation.{
  Querier, query_endpoints, read_vendor, read_vendors, read_records, set_attribute,
  interrogate_node,
}
use zda.Enumerate.Inventory.Interrogated.{IsFound, interrogate_node-IsFound}
use zda.Enumerate.Inventory.Grouping.{IsGrouped, group_inventory_devices-IsGrouped}

abbrev pub endpoint : ℕ → EndpointDescription
endpoint ep = record {
  endpoint = ep;
  profile_id = 260;
  device_id = 770;
  device_version = 0;
  in_cluster_list = if ep == 1 then 0 ∷ 1026 ∷ [] else 1026 ∷ [];
  out_cluster_list = [];
}

abbrev pub toy : Querier
toy = record {
  Net = ℕ;
  Failure = Unit {0};
  query_node_description =
      λ a net. (ok (record { logical_type = "router"; manufacturer_code = 4417 }), net);
  query_node_endpoints = λ a net. (ok (2 ∷ 1 ∷ []), net);
  query_node_endpoint_description = λ a ep net. (ok (endpoint ep), net);
  read_basic = λ a ep net. (
    ok (
        record { identifier = 4; status = 0; value = some "Acme" }
        ∷ record { identifier = 5; status = 134; value = none }
        ∷ []),
    net,
  );
  basic_id = 0;
  manufacturer_name = 4;
  model_identifier = 5;
  manufacturer_version_details = 12;
  serial_number = 13;
}

abbrev pub empty_details : EndpointDescription → String → EndpointDetails ℕ
empty_details ed maker = record {
  description = ed;
  product_information = record { manufacturer = maker; product = ""; version = ""; serial = "" };
  rules_output = record { capabilities = [] };
}

abbrev pub toy_inventory : Inventory ℕ
toy_inventory = record {
  description = record { logical_type = "router"; manufacturer_code = 4417 };
  endpoints = (2, empty_details (endpoint 2) "") ∷ (1, empty_details (endpoint 1) "Acme") ∷ [];
}

program : Unit {0}
unfolding lookup put query_endpoints read_vendor read_vendors read_records set_attribute
    interrogate_node insert_int sort_ints inventory_devices out_devices group_inventory_devices
program = tt

pub toy_interrogated : interrogate_node toy ℕ 7 0 ≡ (ok toy_inventory, 0)
unfolding program
toy_interrogated = refl

interrogate_node-IsFound_example :
    (eps : List ℕ) × ((toy.query_node_endpoints 7 0).0 ≡ ok eps)
    × IsFound toy ℕ eps toy_inventory.endpoints
interrogate_node-IsFound_example =
    interrogate_node-IsFound toy ℕ 7 0 0 toy_inventory toy_interrogated

group_inventory_devices-IsGrouped_example :
    IsGrouped toy_inventory.endpoints (group_inventory_devices toy_inventory)
group_inventory_devices-IsGrouped_example =
    group_inventory_devices-IsGrouped toy_inventory (refl, (refl, tt))
