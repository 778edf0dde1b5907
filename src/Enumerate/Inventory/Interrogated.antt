-- ===== src/Enumerate/Inventory/Interrogated.antt =====
-- What an interrogation that succeeds has found.
use zda.Base.{
  ℕ, true, false, some, List, [], ◌∷◌, Assoc, keys, lookup, put, lookup-put, keys-put-IsDistinct,
  is_some, Result, ok, err, elem, elem-keys, All, All-put, All-lookup, IsDistinct, ◌||◌, nat_key,
  ◌≡◌, refl, ap, sym, ◌∙◌, arith, Bool-cases, inl, inr, false≢true,
}
use zda.Table.Mirror.Steps.{lookup-nil}
use zda.Enumerate.Inventory.{
  NodeDescription, ProductData, EndpointDescription, EndpointDetails, Inventory,
}
use zda.Enumerate.Inventory.Interrogation.{
  Querier, read_records, with_product, Interrupted, query_failed, ReadRecord, no_product, described,
  query_endpoints, read_vendor, read_vendors, answered, consed, vendors_of, endpoints_of,
  inventory_of, interrogate_node,
}

module _ (q : Querier) (V : Type 0) where
  open q use {Net, Failure}

  -- Without the basic cluster nothing is known of the product.
  abbrev IsBlank : EndpointDetails V → Type 0
  IsBlank d =
      elem q.basic_id d.description.in_cluster_list ≡ false → d.product_information ≡ no_product q

  -- What holds of the outcome when there is one.
  abbrev Post : {A : Type 0} → (A → Type 0) → Result (Interrupted Failure) A × Net → Type 0
  Post P (err e, net) = Unit
  Post P (ok m, net) = P m

  Post-map :
      {A : Type 0} (P Q : A → Type 0) (r : Result (Interrupted Failure) A × Net)
      → ((m : A) → P m → Q m)
      → Post P r
      → Post Q r
  Post-map P Q (err e, net) f p = tt
  Post-map P Q (ok m, net) f p = f m p

  abbrev Map : Type 0
  Map = Assoc ℕ (EndpointDetails V)

  abbrev IsUnread : EndpointDetails V → Type 0
  IsUnread d = d.product_information ≡ no_product q

  -- The endpoints that the loop adds to `m`.
  record Asked (eps : List ℕ) (m m' : Map) : Type 0 where
    distinct : IsDistinct (keys m')
    covers : (id : ℕ) → is_some (lookup id m') ≡ (is_some (lookup id m) || elem id eps)
    unread : All (λ e. IsUnread e.1) m'

  one_endpoint :
      (P : Map → Type 0) (net : Net) (r : Result Failure EndpointDescription)
      (k : EndpointDescription → Result (Interrupted Failure) Map × Net)
      → ((ed : EndpointDescription) → Post P (k ed))
      → Post P (elim r [ err e ↦ (err (query_failed e), net) | ok ed ↦ k ed ])
  one_endpoint P net (err e) k each = tt
  one_endpoint P net (ok ed) k each = each ed

  Asked-more :
      (ep : ℕ) (eps : List ℕ) (d : EndpointDetails V) (m m' : Map)
      → Asked eps (put ep d m) m'
      → Asked (ep ∷ eps) m m'
  Asked-more ep eps d m m' asked = record {
    distinct = asked.distinct;
    covers = λ id. ground (arith, asked.covers id, lookup-put ep id d m);
    unread = asked.unread;
  }

  query_endpoints-Asked :
      (a : ℕ) (eps : List ℕ) (m : Map) (net : Net)
      → IsDistinct (keys m)
      → All (λ e. IsUnread e.1) m
      → Post (Asked eps m) (query_endpoints q V a eps m net)
  unfolding query_endpoints
  query_endpoints-Asked a [] m net distinct unread = record {
    distinct = distinct;
    covers = λ id. ground arith;
    unread = unread;
  }
  query_endpoints-Asked a (ep ∷ eps) m net distinct unread =
      let net1 = (q.query_node_endpoint_description a ep net).1 in
      one_endpoint (Asked (ep ∷ eps) m) net1 (q.query_node_endpoint_description a ep net).0
        (λ ed. query_endpoints q V a eps (put ep (described q V ed) m) net1)
        λ ed.
          Post-map (Asked eps (put ep (described q V ed) m)) (Asked (ep ∷ eps) m)
            (query_endpoints q V a eps (put ep (described q V ed) m) net1)
            (λ m' asked. Asked-more ep eps (described q V ed) m m' asked)
            (query_endpoints-Asked a eps (put ep (described q V ed) m) net1
              (keys-put-IsDistinct ep (described q V ed) m distinct)
              (All-put IsUnread ep (described q V ed) m refl unread))

  -- Reading the vendor information keeps the description.
  record Read (d d' : EndpointDetails V) : Type 0 where
    same : d'.description ≡ d.description
    blank : IsUnread d → IsBlank d'

  with_product-Read :
      (d : EndpointDetails V) (r : Result (Interrupted Failure) ProductData) (net : Net)
      → elem q.basic_id d.description.in_cluster_list ≡ true
      → Post (Read d) (with_product q V d r, net)
  with_product-Read d (err e) net basic = tt
  with_product-Read d (ok p) net basic = record {
    same = refl;
    blank = λ unread no_basic. absurd (false≢true (sym no_basic ∙ basic));
  }

  answered-Read :
      (d : EndpointDetails V) (r : Result Failure (List ReadRecord)) (net : Net)
      → elem q.basic_id d.description.in_cluster_list ≡ true
      → Post (Read d) (answered q V d r, net)
  answered-Read d (err e) net basic = record { same = refl; blank = λ unread no_basic. unread }
  answered-Read d (ok rs) net basic =
      with_product-Read d (read_records q rs d.product_information) net basic

  read_vendor-Read :
      (a ep : ℕ) (d : EndpointDetails V) (net : Net) → Post (Read d) (read_vendor q V a ep d net)
  unfolding read_vendor
  read_vendor-Read a ep d net = elim (Bool-cases (elem q.basic_id d.description.in_cluster_list)) [
    | inl basic ↦
        rw (basic, read_vendor)
          (answered-Read d (q.read_basic a ep net).0 (q.read_basic a ep net).1 basic)
    | inr other ↦
        rw (other, read_vendor) (record { same = refl; blank = λ unread no_basic. unread })
  ]

  -- The whole loop keeps the keys.
  record ReadAll (m m' : Map) : Type 0 where
    same_keys : keys m' ≡ keys m
    blank : All (λ e. IsUnread e.1) m → All (λ e. IsBlank e.1) m'

  one_vendor :
      (ep : ℕ) (d : EndpointDetails V) (m : Map)
      (r : Result (Interrupted Failure) (EndpointDetails V) × Net)
      (k : Net → Result (Interrupted Failure) Map × Net)
      → Post (Read d) r
      → ((net : Net) → Post (ReadAll m) (k net))
      → Post
          (ReadAll ((ep, d) ∷ m))
          (elim r.0 [ err e ↦ (err e, r.1) | ok d1 ↦ consed q V ep d1 (k r.1) ])
  one_vendor ep d m (err e, net) k read rest = tt
  one_vendor ep d m (ok d1, net) k read rest = more (k net) (rest net)
    where
      more :
          (r : Result (Interrupted Failure) Map × Net)
          → Post (ReadAll m) r
          → Post (ReadAll ((ep, d) ∷ m)) (consed q V ep d1 r)
      more (err e, net2) post = tt
      more (ok m', net2) post = record {
        same_keys = ap (λ ks. ep ∷ ks) post.same_keys;
        blank = λ unread. (read.blank unread.0, post.blank unread.1);
      }

  read_vendors-ReadAll : (a : ℕ) (m : Map) (net : Net) → Post (ReadAll m) (read_vendors q V a m net)
  unfolding read_vendors
  read_vendors-ReadAll a [] net = record { same_keys = refl; blank = λ unread. tt }
  read_vendors-ReadAll a ((ep, d) ∷ m) net =
      one_vendor ep d m (read_vendor q V a ep d net) (read_vendors q V a m)
        (read_vendor-Read a ep d net) (read_vendors-ReadAll a m)

  -- The endpoints that were answered, each with what is known of its product.
  pub record IsFound (eps : List ℕ) (m : Map) : Type 0 where
    pub distinct : IsDistinct (keys m)
    pub covers : (id : ℕ) → is_some (lookup id m) ≡ elem id eps
    pub blank : (id : ℕ) (d : EndpointDetails V) → lookup id m ≡ some d → IsBlank d

  IsFound-all : (eps : List ℕ) (m m' : Map) → Asked eps [] m → ReadAll m m' → IsFound eps m'
  IsFound-all eps m m' asked read = record {
    distinct = rw read.same_keys asked.distinct;
    covers = λ id. ground (
      arith,
      elem-keys id m,
      elem-keys id m',
      ap (elem id) read.same_keys,
      asked.covers id,
      lookup-nil {V = EndpointDetails V} id,
    );
    blank = λ id d found. All-lookup IsBlank id m' (read.blank asked.unread) found;
  }

  vendors_of-IsFound :
      (a : ℕ) (eps : List ℕ) (r : Result (Interrupted Failure) Map × Net)
      → Post (Asked eps []) r
      → Post (IsFound eps) (vendors_of q V a r)
  vendors_of-IsFound a eps (err e, net) asked = tt
  vendors_of-IsFound a eps (ok m, net) asked =
      Post-map (ReadAll m) (IsFound eps) (read_vendors q V a m net)
        (λ m' read. IsFound-all eps m m' asked read) (read_vendors-ReadAll a m net)

  -- An inventory whose endpoints are those of an answer of the node.
  abbrev Answered : Result Failure (List ℕ) → Inventory V → Type 0
  Answered r inv = (eps : List ℕ) × (r ≡ ok eps) × IsFound eps inv.endpoints

  inventory_of-Answered :
      (nd : NodeDescription) (eps : List ℕ) (r : Result (Interrupted Failure) Map × Net)
      → Post (IsFound eps) r
      → Post (Answered (ok eps)) (inventory_of q V nd r)
  inventory_of-Answered nd eps (err e, net) found = tt
  inventory_of-Answered nd eps (ok m, net) found = (eps, refl, found)

  endpoints_of-Answered :
      (a : ℕ) (nd : NodeDescription) (r : Result Failure (List ℕ)) (net : Net)
      → Post (Answered r) (inventory_of q V nd (endpoints_of q V a (r, net)))
  endpoints_of-Answered a nd (err e) net = tt
  endpoints_of-Answered a nd (ok eps) net =
      inventory_of-Answered nd eps (vendors_of q V a (query_endpoints q V a eps [] net)) (
        vendors_of-IsFound a eps (query_endpoints q V a eps [] net)
          (query_endpoints-Asked a eps [] net tt tt))

  described_node :
      (P : Inventory V → Type 0) (net : Net) (r : Result Failure NodeDescription)
      (k : NodeDescription → Result (Interrupted Failure) (Inventory V) × Net)
      → ((nd : NodeDescription) → Post P (k nd))
      → Post P (elim r [ err e ↦ (err (query_failed e), net) | ok nd ↦ k nd ])
  described_node P net (err e) k each = tt
  described_node P net (ok nd) k each = each nd

  interrogate_node-Answered :
      (a : ℕ) (net : Net)
      → Post
          (Answered (q.query_node_endpoints a (q.query_node_description a net).1).0)
          (interrogate_node q V a net)
  unfolding interrogate_node
  interrogate_node-Answered a net =
      let net1 = (q.query_node_description a net).1 in
      let answer = q.query_node_endpoints a net1 in
      described_node (Answered answer.0) net1 (q.query_node_description a net).0
        (λ nd. inventory_of q V nd (endpoints_of q V a answer))
        (λ nd. endpoints_of-Answered a nd answer.0 answer.1)

  Post-ok :
      {A : Type 0} (P : A → Type 0) (r : Result (Interrupted Failure) A × Net) {m : A} {net : Net}
      → Post P r
      → r ≡ (ok m, net)
      → P m
  Post-ok P (err e, net1) post eq = ground arith
  Post-ok P (ok m1, net1) {m} post eq = let same : m1 ≡ m = ground arith in rw (← same) post

  -- When interrogateNode returns an inventory, its endpoints are exactly those that the node
  -- answered, each once, and an endpoint without the basic cluster has no product information.
  pub interrogate_node-IsFound :
      (a : ℕ) (net net' : Net) (inv : Inventory V)
      → interrogate_node q V a net ≡ (ok inv, net')
      → (eps : List ℕ) × ((q.query_node_endpoints a (q.query_node_description a net).1).0 ≡ ok eps)
        × IsFound eps inv.endpoints
  interrogate_node-IsFound a net net' inv done =
      Post-ok (Answered (q.query_node_endpoints a (q.query_node_description a net).1).0)
        (interrogate_node q V a net) (interrogate_node-Answered a net) done
