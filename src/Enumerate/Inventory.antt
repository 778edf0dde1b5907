-- ===== src/Enumerate/Inventory.antt =====
-- The inventory of a node: node.go, and interrogateNode, runRules and groupInventoryDevices of
-- enumerate_device.go.
pub mod Grouping
pub mod Interrogation
pub mod Interrogated
pub mod Examples
use zda.Base.{
  ℕ, String, Bool, true, false, Option, none, some, List, [], ◌∷◌, Assoc, keys, lookup, put, Result,
  ok, err, ◌>>=◌, wrap, elem, leb, ◌==◌, if◌then◌else◌, nat_key,
}
use zda.Rules.Execute.{Output}

pub record ProductData : Type 0 where
  pub manufacturer : String
  pub product : String
  pub version : String
  pub serial : String

-- zigbee.EndpointDescription
pub record EndpointDescription : Type 0 where
  pub endpoint : ℕ
  pub profile_id : ℕ
  pub device_id : ℕ
  pub device_version : ℕ
  pub in_cluster_list : List ℕ
  pub out_cluster_list : List ℕ

-- zigbee.NodeDescription, with the text of its logical type.
pub record NodeDescription : Type 0 where
  pub logical_type : String
  pub manufacturer_code : ℕ

-- endpointDetails
pub record EndpointDetails (V : Type 0) : Type 0 where
  pub description : EndpointDescription
  pub product_information : ProductData
  pub rules_output : Output V

pub record Inventory (V : Type 0) : Type 0 where
  pub description : NodeDescription
  pub endpoints : Assoc ℕ (EndpointDetails V)

pub record InputProductData : Type 0 where
  pub name : String
  pub manufacturer : String
  pub version : String
  pub serial : String

pub record InputNode : Type 0 where
  pub manufacturer_code : ℕ
  pub type : String

pub record InputEndpoint : Type 0 where
  pub id : ℕ
  pub profile_id : ℕ
  pub device_id : ℕ
  pub in_clusters : List ℕ
  pub out_clusters : List ℕ

pub record Input : Type 0 where
  pub node : InputNode
  pub self : ℕ
  pub product : Assoc ℕ InputProductData
  pub endpoint : Assoc ℕ InputEndpoint

pub record InventoryDevice (V : Type 0) : Type 0 where
  pub unique_id : ℕ
  pub endpoints : List (EndpointDetails V)

abbrev input_product : ProductData → InputProductData
input_product p = record {
  name = p.product;
  manufacturer = p.manufacturer;
  version = p.version;
  serial = p.serial;
}

abbrev input_endpoint : ℕ → EndpointDescription → InputEndpoint
input_endpoint id d = record {
  id = id;
  profile_id = d.profile_id;
  device_id = d.device_id;
  in_clusters = d.in_cluster_list;
  out_clusters = d.out_cluster_list;
}

-- sort.Ints
unfoldable pub insert_int : ℕ → List ℕ → List ℕ
insert_int a [] = a ∷ []
insert_int a (b ∷ bs) = if leb a b then a ∷ b ∷ bs else b ∷ insert_int a bs

unfoldable pub sort_ints : List ℕ → List ℕ
sort_ints [] = []
sort_ints (a ∷ as') = insert_int a (sort_ints as')

module _ {V : Type 0} where
  -- The loop of toRulesInput over i.endpoints.
  unfoldable pub add_endpoints : Assoc ℕ (EndpointDetails V) → Input → Input
  add_endpoints [] i = i
  add_endpoints ((id, details) ∷ m) i = add_endpoints m (record i {
    product = put id (input_product details.product_information) i.product;
    endpoint = put id (input_endpoint id details.description) i.endpoint;
  })

  -- toRulesInput
  unfoldable pub to_rules_input : Inventory V → Input
  unfolding add_endpoints
  to_rules_input inv = add_endpoints inv.endpoints (record {
    node = record {
      manufacturer_code = inv.description.manufacturer_code;
      type = inv.description.logical_type;
    };
    self = 0;
    product = [];
    endpoint = [];
  })

  -- The loop of runRules over the endpoints, with the function that runs the rules.
  unfoldable pub run_each :
      {E : Type 0}
      → (Input → Result E (Output V))
      → Input
      → Assoc ℕ (EndpointDetails V)
      → Result E (Assoc ℕ (EndpointDetails V))
  run_each run_rules_fn input [] = ok []
  run_each run_rules_fn input ((id, ep) ∷ m) = do
    o ← run_rules_fn (record input { self = id })
    rest ← run_each run_rules_fn input m
    ok ((id, record ep { rules_output = o }) ∷ rest)

  -- runRules
  unfoldable pub run_rules :
      {E : Type 0} → (Input → Result E (Output V)) → Inventory V → Result E (Inventory V)
  run_rules run_rules_fn inv = do
    endpoints ← run_each run_rules_fn (to_rules_input inv) inv.endpoints
    ok (record inv { endpoints = endpoints })

  -- The map `devices` of groupInventoryDevices.
  unfoldable pub inventory_devices :
      Assoc ℕ (EndpointDetails V) → Assoc ℕ (InventoryDevice V) → Assoc ℕ (InventoryDevice V)
  inventory_devices [] devices = devices
  inventory_devices ((eid, ep) ∷ m) devices =
      inventory_devices m (put eid (record { unique_id = eid; endpoints = ep ∷ [] }) devices)

  abbrev appended : Option (InventoryDevice V) → List (InventoryDevice V) → List (InventoryDevice V)
  appended none rest = rest
  appended (some d) rest = d ∷ rest

  -- The loop that reads the map in the order of the identifiers, each of which it has.
  unfoldable pub out_devices : Assoc ℕ (InventoryDevice V) → List ℕ → List (InventoryDevice V)
  out_devices devices [] = []
  out_devices devices (ep ∷ eps) = appended (lookup ep devices) (out_devices devices eps)

  -- groupInventoryDevices
  unfoldable pub group_inventory_devices : Inventory V → List (InventoryDevice V)
  group_inventory_devices inv =
      out_devices (inventory_devices inv.endpoints []) (sort_ints (keys inv.endpoints))
