-- ===== src/Persistence/Whole.antt =====
-- providerLoad, and the provider loop that starts with it.
use zda.Base.{
  ℕ, ◌≡◌, refl, ◌∙◌, none, some, List, elem, IsDistinct, All-of_elem, if◌then◌else◌, ◌&&◌, nat_key,
  arith, lookup, false, true,
}
use zda.Table.{Host}
use zda.Table.Ops.{State, get_device, on_store}
use zda.Table.Lookup.{is_node}
use zda.Table.Mirror.{Inv, Mirrors}
use zda.Table.Mirror.Devices.{on_store-Inv}
use zda.Enumerate.Factory.{Implementations}
use zda.Provider.{ReadResult}
use zda.Provider.Loop.{fresh, fresh-Inv, provider_loop-Inv}
use zda.Persistence.{Reader, nodes_path, provider_load, start_provider_loop}
use zda.Persistence.Kept.{all_nodes, Contents, IsKept, IsLoadable}
use zda.Persistence.Capabilities.{identity}
use zda.Persistence.Devices.{of_id}
use zda.Persistence.Nodes.{load_nodes-LoadsNodes}

module _ (h : Host) {V : Type 0} (f : Implementations h V) (r : Reader h) (c : Contents h f r)
    (Good : h.Store → Type 0) where
  open h use {Store, Impl}

  -- What is asked of the recorded contents: no address and no sub-identifier occurs twice.
  abbrev pub IsDistinctContents : Type 0
  IsDistinctContents =
      IsDistinct c.nodes × ((a : ℕ) → elem a c.nodes ≡ true → IsDistinct (c.devices a))

  -- The table has the nodes and the devices of the sections, with their identifiers, and the
  -- events tell so.
  pub record IsRestored (g : State h) : Type 0 where
    pub inv : Inv h g
    pub nodes : (a : ℕ) → is_node h a g ≡ elem a c.nodes
    pub devices :
        (a s : ℕ)
        → identity h (get_device h a s g)
          ≡ (if elem a c.nodes && elem s (c.devices a) then some (of_id (c.id a s)) else none)

  -- providerLoad on a new gateway, whose sections give nodes and devices without repetition, that
  -- the calls of the load leave so, and whose capabilities keep their flags, fills the table with
  -- exactly those nodes and devices, each device with the identifier that its section has, and
  -- the events that it sends tell which devices there are and which capabilities each has.
  pub provider_load-IsRestored :
      (store : Store)
      → (kept : IsKept h f r c Good) → IsLoadable h f r
      → IsDistinctContents
      → Good store
      → IsRestored (provider_load h f r (fresh h store))
  unfolding provider_load get_device lookup
  provider_load-IsRestored store kept sound (nodes, devices) good =
      let good1 = kept.section_kept store all_nodes good tt in
      let e = kept.nodes_known _ good1 in
      let start = on_store h (h.section (nodes_path h f r)) (fresh h store) in
      let (inv, good2, is_nodes, are_devices) =
        load_nodes-LoadsNodes h f r c Good kept sound c.nodes start
          (
            nodes,
            All-of_elem (λ a. (elem a c.nodes ≡ true) × IsDistinct (c.devices a)) c.nodes
                (λ a there. (there, devices a there)),
          )
          (All-of_elem (λ a. is_node h a start ≡ false) c.nodes (λ a there. refl))
          (on_store-Inv h (h.section (nodes_path h f r)) (fresh h store) (fresh-Inv h store))
          good1 in
      rw e (record {
        inv = inv;
        nodes = λ a. is_nodes a ∙ ground arith;
        devices = λ a s. are_devices a s;
      })

  -- And whatever the provider reports afterwards, the events stay true.
  pub start_provider_loop-Mirrors :
      (rs : List ReadResult) (store : Store)
      → IsKept h f r c Good
      → IsLoadable h f r
      → IsDistinctContents
      → Good store
      → Mirrors h (start_provider_loop h f r rs (fresh h store))
  unfolding start_provider_loop
  start_provider_loop-Mirrors rs store kept sound distinct good =
      (provider_loop-Inv h rs (provider_load h f r (fresh h store))
        (provider_load-IsRestored store kept sound distinct good).inv).mirrors
