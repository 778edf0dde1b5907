-- ===== src/Enumerate/Inventory/Interrogation.antt =====
-- interrogateNode of enumerate_device.go.
use zda.Base.{
  ℕ, String, true, false, Option, none, some, List, [], ◌∷◌, Assoc, put, Result, ok, err, elem,
  ◌==◌, if◌then◌else◌, nat_key,
}
use zda.Enumerate.Inventory.{
  ProductData, EndpointDescription, NodeDescription, EndpointDetails, Inventory,
}

-- global.ReadAttributeResponseRecord; the value is `none` when it is not a text.
pub record ReadRecord : Type 0 where
  pub identifier : ℕ
  pub status : ℕ
  pub value : Option String

-- The queries to a node, each with its retries, the numbers of the basic cluster, and the state of
-- the network that they change. They are packages of their own.
pub record Querier : Type 1 where
  pub Net : Type 0
  pub Failure : Type 0
  pub query_node_description : ℕ → Net → Result Failure NodeDescription × Net
  pub query_node_endpoints : ℕ → Net → Result Failure (List ℕ) × Net
  pub query_node_endpoint_description : ℕ → ℕ → Net → Result Failure EndpointDescription × Net
  pub read_basic : ℕ → ℕ → Net → Result Failure (List ReadRecord) × Net
  pub basic_id : ℕ
  pub manufacturer_name : ℕ
  pub model_identifier : ℕ
  pub manufacturer_version_details : ℕ
  pub serial_number : ℕ

-- Why an interrogation ends without an inventory: an error, or the type assertion on a value that
-- is not a text.
pub data Interrupted (F : Type 0) : Type 0 where
  query_failed : F → Interrupted F
  panicked : Interrupted F

module _ (q : Querier) where
  open q use {Net, Failure}

  abbrev pub no_product : ProductData
  no_product = record { manufacturer = ""; product = ""; version = ""; serial = "" }

  -- The switch over r.Identifier.
  unfoldable pub set_attribute : ℕ → String → ProductData → ProductData
  set_attribute id value p =
      if id == q.manufacturer_name
      then record p { manufacturer = value }
      else if id == q.model_identifier
      then record p { product = value }
      else if id == q.manufacturer_version_details
      then record p { version = value }
      else if id == q.serial_number
      then record p { serial = value }
      else p

  -- The loop over the records of the answer. A record with a status other than 0 is passed over.
  unfoldable pub read_records :
      List ReadRecord → ProductData → Result (Interrupted Failure) ProductData
  read_records [] p = ok p
  read_records (r ∷ rs) p = elim (r.status == 0) [
    | false ↦ read_records rs p
    | true ↦ elim r.value [
      | none ↦ err panicked
      | some value ↦ read_records rs (set_attribute r.identifier value p)
    ]
  ]

module _ (q : Querier) (V : Type 0) where
  open q use {Net, Failure}

  abbrev pub Details : Type 0
  Details = EndpointDetails V

  abbrev pub described : EndpointDescription → Details
  described ed = record {
    description = ed;
    product_information = no_product q;
    rules_output = record { capabilities = [] };
  }

  -- The loop over the endpoints that asks for the description of each.
  unfoldable pub query_endpoints :
      ℕ → List ℕ → Assoc ℕ Details → Net → Result (Interrupted Failure) (Assoc ℕ Details) × Net
  query_endpoints a [] m net = (ok m, net)
  query_endpoints a (ep ∷ eps) m net =
      let (r, net1) = q.query_node_endpoint_description a ep net in
      elim r [
        | err e ↦ (err (query_failed e), net1)
        | ok ed ↦ query_endpoints a eps (put ep (described ed) m) net1
      ]

  abbrev pub with_product :
      Details → Result (Interrupted Failure) ProductData → Result (Interrupted Failure) Details
  with_product d (err e) = err e
  with_product d (ok p) = ok (record d { product_information = p })

  -- What an answer does to the endpoint; an error leaves it as it is.
  abbrev pub answered :
      Details → Result Failure (List ReadRecord) → Result (Interrupted Failure) Details
  answered d (err e) = ok d
  answered d (ok rs) = with_product d (read_records q rs d.product_information)

  -- The body of the loop that reads the vendor information.
  unfoldable pub read_vendor : ℕ → ℕ → Details → Net → Result (Interrupted Failure) Details × Net
  read_vendor a ep d net = elim (elem q.basic_id d.description.in_cluster_list) [
    | false ↦ (ok d, net)
    | true ↦ let (r, net1) = q.read_basic a ep net in (answered d r, net1)
  ]

  abbrev pub consed :
      ℕ
      → Details
      → Result (Interrupted Failure) (Assoc ℕ Details) × Net
      → Result (Interrupted Failure) (Assoc ℕ Details) × Net
  consed ep d (err e, net) = (err e, net)
  consed ep d (ok m, net) = (ok ((ep, d) ∷ m), net)

  unfoldable pub read_vendors :
      ℕ → Assoc ℕ Details → Net → Result (Interrupted Failure) (Assoc ℕ Details) × Net
  read_vendors a [] net = (ok [], net)
  read_vendors a ((ep, d) ∷ m) net =
      let (r, net1) = read_vendor a ep d net in
      elim r [ err e ↦ (err e, net1) | ok d1 ↦ consed ep d1 (read_vendors a m net1) ]

  abbrev pub inventory_of :
      NodeDescription
      → Result (Interrupted Failure) (Assoc ℕ Details) × Net
      → Result (Interrupted Failure) (Inventory V) × Net
  inventory_of nd (err e, net) = (err e, net)
  inventory_of nd (ok m, net) = (ok (record { description = nd; endpoints = m }), net)

  abbrev pub vendors_of :
      ℕ
      → Result (Interrupted Failure) (Assoc ℕ Details) × Net
      → Result (Interrupted Failure) (Assoc ℕ Details) × Net
  vendors_of a (err e, net) = (err e, net)
  vendors_of a (ok m, net) = read_vendors a m net

  abbrev pub endpoints_of :
      ℕ → Result Failure (List ℕ) × Net → Result (Interrupted Failure) (Assoc ℕ Details) × Net
  endpoints_of a (err e, net) = (err (query_failed e), net)
  endpoints_of a (ok eps, net) = vendors_of a (query_endpoints a eps [] net)

  -- interrogateNode
  unfoldable pub interrogate_node : ℕ → Net → Result (Interrupted Failure) (Inventory V) × Net
  interrogate_node a net =
      let (r, net1) = q.query_node_description a net in
      elim r [
        | err e ↦ (err (query_failed e), net1)
        | ok nd ↦ inventory_of nd (endpoints_of a (q.query_node_endpoints a net1))
      ]
