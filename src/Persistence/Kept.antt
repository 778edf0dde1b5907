-- ===== src/Persistence/Kept.antt =====
-- What providerLoad relies on in the persistence and in the capabilities that it loads.
use zda.Base.{ℕ, String, ◌≡◌, ◌≢◌, Option, some, List, [], ◌∷◌, ◌++◌, true, elem, nat_key}
use zda.Table.{Host}
use zda.Table.Ops.{node_path, device_path}
use zda.Enumerate.Factory.{Implementations, create}
use zda.Persistence.{Reader, node_list, device_list, capabilities_path, devices_path, nodes_path}

module _ (h : Host) {V : Type 0} (f : Implementations h V) (r : Reader h) where
  open h use {Store, Impl, section, set_int, capability, enumerate_device_flag, device_removal_flag}

  -- The sections that the load looks at.
  pub data Place : Type 0 where
    all_nodes : Place
    one_node all_devices : ℕ → Place
    one_device all_capabilities : ℕ → ℕ → Place
    one_capability : ℕ → ℕ → String → Place

  abbrev pub path_of : Place → List String
  path_of all_nodes = nodes_path h f r
  path_of (one_node a) = node_path h a
  path_of (all_devices a) = devices_path h f r a
  path_of (one_device a s) = device_path h a s
  path_of (all_capabilities a s) = capabilities_path h f r a s
  path_of (one_capability a s name) = capabilities_path h f r a s ++ name ∷ []

  -- The store has the sections of these nodes, each with these devices and identifiers.
  pub record Contents : Type 0 where
    pub nodes : List ℕ
    pub devices : ℕ → List ℕ
    pub id : ℕ → ℕ → Option ℕ

  abbrev pub IsListed : Contents → ℕ → ℕ → Type 0
  IsListed c a s = (elem a c.nodes ≡ true) × (elem s (c.devices a) ≡ true)

  abbrev pub IsPlace : Contents → Place → Type 0
  IsPlace c all_nodes = Unit
  IsPlace c (one_node a) = elem a c.nodes ≡ true
  IsPlace c (all_devices a) = elem a c.nodes ≡ true
  IsPlace c (one_device a s) = IsListed c a s
  IsPlace c (all_capabilities a s) = IsListed c a s
  IsPlace c (one_capability a s name) = IsListed c a s

  -- `Good store` is that the store has the contents. Opening a section that is there, writing the
  -- number that is there, and Init and Load of a capability, which have a section of their own,
  -- leave it so.
  pub record IsKept (c : Contents) (Good : Store → Type 0) : Type 0 where
    pub nodes_known :
        (store : Store)
        → Good store
        → node_list (r.section_keys (path_of all_nodes) store) ≡ c.nodes
    pub devices_known :
        (store : Store) (a : ℕ)
        → Good store
        → elem a c.nodes ≡ true
        → device_list (r.section_keys (path_of (all_devices a)) store) ≡ c.devices a
    pub id_known :
        (store : Store) (a s : ℕ)
        → Good store
        → IsListed c a s
        → r.get_int (path_of (one_device a s)) "UniqueId" store ≡ c.id a s
    pub section_kept :
        (store : Store) (p : Place) → Good store → IsPlace c p → Good (section (path_of p) store)
    pub set_int_kept :
        (store : Store) (a s n : ℕ)
        → Good store
        → c.id a s ≡ some n
        → Good (set_int (path_of (one_device a s)) "UniqueId" n store)
    pub init_kept :
        (store : Store) (a s : ℕ) (name : String) (i : Impl)
        → Good store
        → IsListed c a s
        → Good (f.init a s (capabilities_path h f r a s ++ name ∷ "Data" ∷ []) i store).1
    pub load_kept :
        (store before : Store) (a s : ℕ) (name : String) (i : Impl)
        → Good store
        → IsListed c a s
        → Good
            (f.load
              (f.init a s (capabilities_path h f r a s ++ name ∷ "Data" ∷ []) i before).0
              store).3

  -- A capability keeps its flag when it is initialised and loaded, and it is none of the two that
  -- every device has.
  pub record IsLoadable : Type 0 where
    pub not_built_in :
        (name : String) (i : Impl)
        → create h f name ≡ some i
        → (capability i ≢ enumerate_device_flag) × (capability i ≢ device_removal_flag)
    pub init_capability :
        (a s : ℕ) (path : List String) (i : Impl) (store : Store)
        → capability (f.init a s path i store).0 ≡ capability i
    pub load_capability : (i : Impl) (store : Store) → capability (f.load i store).2 ≡ capability i
