-- ===== src/Persistence.antt =====
-- provider_load.go and persistence.go: the nodes, devices and capabilities that the gateway finds
-- in its sections when it starts.
pub mod Parse
pub mod Keys
pub mod Kept
pub mod Capabilities
pub mod Devices
pub mod Nodes
pub mod Whole
mod Examples
use zda.Base.{
  ℕ, ℤ, String, Bool, true, false, Option, none, some, List, [], ◌∷◌, ◌++◌, if◌then◌else◌,
}
use zda.Table.{Host}
use zda.Table.Ops.{
  State, on_store, node_path, device_path, create_node, create_specific_device,
  set_device_unique_id, attach_capability_to_device,
}
use zda.Provider.{ReadResult, provider_loop}
use zda.Enumerate.Factory.{Implementations, create}
use zda.Persistence.Parse.{parse_uint, atoi, uint8}

-- What the persistence sections can be asked. The one number, a unique identifier, is the number of
-- an endpoint where the gateway has written it; a negative one, which Int could give, is left out.
pub record Reader (h : Host) : Type 0 where
  pub section_keys : List String → h.Store → List String
  pub get_int : List String → String → h.Store → Option ℕ
  pub get_string : List String → String → h.Store → Option String

-- nodeListFromPersistence, from the keys; a key that is no address is left out.
unfoldable pub node_list : List String → List ℕ
node_list [] = []
node_list (k ∷ ks) = elim (parse_uint k 16 64) [ none ↦ node_list ks | some a ↦ a ∷ node_list ks ]

-- deviceListFromPersistence, from the keys.
unfoldable pub device_list : List String → List ℕ
device_list [] = []
device_list (k ∷ ks) = elim (atoi k) [ none ↦ device_list ks | some i ↦ uint8 i ∷ device_list ks ]

module _ (h : Host) {V : Type 0} (f : Implementations h V) (r : Reader h) where
  open h use {Store, Impl, Failure, section}

  -- Load's result: attach the capability, or not; an error is logged, and no more.
  abbrev pub loaded : ℕ → ℕ → Bool × Option Failure × Impl × Store → State h → State h
  loaded a s (attached, e, c, store) g =
      let g1 : State h = record g { store = store } in
      if attached then attach_capability_to_device h a s c g1 else g1

  abbrev pub capabilities_path : ℕ → ℕ → List String
  capabilities_path a s = device_path h a s ++ "Capability" ∷ []

  abbrev pub made : ℕ → ℕ → String → Option Impl → State h → State h
  made a s name none g = g
  made a s name (some c) g =
      let (c1, store) = f.init a s (capabilities_path a s ++ name ∷ "Data" ∷ []) c g.store in
      loaded a s (f.load c1 store) (record g { store = store })

  abbrev pub implemented : ℕ → ℕ → String → Option String → State h → State h
  implemented a s name none g = g
  implemented a s name (some implementation) g = made a s name (create h f implementation) g

  -- The body of the loop over capSection.SectionKeys().
  unfoldable pub load_capability : ℕ → ℕ → String → State h → State h
  load_capability a s name g =
      let path = capabilities_path a s ++ name ∷ [] in
      let g1 = on_store h (section path) g in
      implemented a s name (r.get_string path "Implementation" g1.store) g1

  unfoldable pub load_capabilities : ℕ → ℕ → List String → State h → State h
  load_capabilities a s [] g = g
  load_capabilities a s (name ∷ names) g = load_capabilities a s names (load_capability a s name g)

  abbrev pub identified : ℕ → ℕ → Option ℕ → State h → State h
  identified a s none g = g
  identified a s (some id) g = set_device_unique_id h a s id g

  -- providerLoadDevice
  unfoldable pub provider_load_device : ℕ → ℕ → State h → State h
  provider_load_device a s g =
      let g1 = create_specific_device h a s g in
      let g2 = on_store h (section (device_path h a s)) g1 in
      let g3 = identified a s (r.get_int (device_path h a s) "UniqueId" g2.store) g2 in
      let g4 = on_store h (section (capabilities_path a s)) g3 in
      load_capabilities a s (r.section_keys (capabilities_path a s) g4.store) g4

  unfoldable pub load_devices : ℕ → List ℕ → State h → State h
  load_devices a [] g = g
  load_devices a (s ∷ ss) g = load_devices a ss (provider_load_device a s g)

  abbrev pub devices_path : ℕ → List String
  devices_path a = node_path h a ++ "Device" ∷ []

  -- providerLoadNode
  unfoldable pub provider_load_node : ℕ → State h → State h
  provider_load_node a g =
      let g1 = (create_node h a g).0 in
      let g2 = on_store h (section (devices_path a)) (on_store h (section (node_path h a)) g1) in
      load_devices a (device_list (r.section_keys (devices_path a) g2.store)) g2

  unfoldable pub load_nodes : List ℕ → State h → State h
  load_nodes [] g = g
  load_nodes (a ∷ rest) g = load_nodes rest (provider_load_node a g)

  abbrev pub nodes_path : List String
  nodes_path = "Node" ∷ []

  -- providerLoad
  unfoldable pub provider_load : State h → State h
  provider_load g =
      let g1 = on_store h (section nodes_path) g in
      load_nodes (node_list (r.section_keys nodes_path g1.store)) g1

  -- providerLoop, from its call of providerLoad.
  unfoldable pub start_provider_loop : List ReadResult → State h → State h
  start_provider_loop rs g = provider_loop h rs (provider_load g)
