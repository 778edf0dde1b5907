-- ===== src/Persistence/Nodes.antt =====
-- providerLoadNode, and the loop of providerLoad over the nodes.
use zda.Base.{
  ℕ, Bool, true, false, ◌≡◌, refl, ap, sym, ◌∙◌, Option, none, some, none≢some, List, [], ◌∷◌, elem,
  IsDistinct, All, All-elem, All-of_elem, if◌then◌else◌, ◌==◌, ◌&&◌, ◌||◌, nat_key, arith, beq_refl,
  lookup,
}
use zda.Table.{Host, Device}
use zda.Table.Ops.{State, get_device, on_store, create_node, node_path}
use zda.Table.Lookup.{is_node, lookup-create_node, get_device-create_node}
use zda.Table.Mirror.{Inv}
use zda.Table.Mirror.Steps.{create_node-Inv}
use zda.Table.Mirror.Devices.{on_store-Inv}
use zda.Enumerate.Factory.{Implementations}
use zda.Persistence.{
  Reader, provider_load_device, load_devices, provider_load_node, load_nodes, devices_path,
}
use zda.Persistence.Kept.{one_node, all_devices, Contents, IsListed, IsKept, IsLoadable}
use zda.Persistence.Capabilities.{identity}
use zda.Persistence.Devices.{of_id, Becomes, Kept, provider_load_device-Kept}

module _ (h : Host) where
  open h use {Impl}

  none_of_identity : (o : Option (Device Impl)) → identity h o ≡ none → o ≡ none
  none_of_identity none e = refl
  none_of_identity (some d) e = absurd (none≢some (sym e))

-- An element of a list that has no such head is another one.
other_than : (s t : ℕ) (ss : List ℕ) → elem s ss ≡ false → elem t ss ≡ true → (s == t) ≡ false
other_than s t ss new there = ground (arith, nat_key.same_iff s t)

module _ (h : Host) {V : Type 0} (f : Implementations h V) (r : Reader h) (c : Contents h f r)
    (Good : h.Store → Type 0) (kept : IsKept h f r c Good) (sound : IsLoadable h f r) where
  open h use {Store, Impl}

  -- The identity of the device that the sections have under `b`, `t`.
  abbrev recorded : ℕ → ℕ → Option (ℕ × Bool)
  recorded b t = some (of_id (c.id b t))

  -- The devices `ss` of node `a` have been loaded.
  abbrev Loads : ℕ → List ℕ → State h → State h → Type 0
  Loads a ss g g' =
      (b t : ℕ)
      → identity h (get_device h b t g')
        ≡ (if a == b && elem t ss then recorded b t else identity h (get_device h b t g))

  abbrev AreFree : ℕ → List ℕ → State h → Type 0
  AreFree a ss g = All (λ s. identity h (get_device h a s g) ≡ none) ss

  abbrev AreListed : ℕ → List ℕ → Type 0
  AreListed a ss = All (λ s. IsListed h f r c a s) ss

  still_free :
      (a s : ℕ) (v : ℕ × Bool) (ss : List ℕ) (g g' : State h)
      → elem s ss ≡ false
      → Becomes h a s v g g'
      → AreFree a ss g
      → AreFree a ss g'
  still_free a s v ss g g' new becomes free =
      All-of_elem (λ t. identity h (get_device h a t g') ≡ none) ss
        λ t there.
          becomes a t
          ∙ rw (other_than s t ss new there) (
              ground
                (arith, All-elem (λ t. identity h (get_device h a t g) ≡ none) ss t free there))

  load_devices-Loads :
      (a : ℕ) (ss : List ℕ) (g : State h)
      → AreListed a ss
      → IsDistinct ss
      → is_node h a g ≡ true
      → AreFree a ss g
      → Inv h g
      → Good g.store
      → Kept h f r c Good kept sound g (load_devices h f r a ss g)
        × Loads a ss g (load_devices h f r a ss g)
  unfolding load_devices
  load_devices-Loads a [] g listed distinct node free inv good =
      (record { inv = inv; good = good; same_node = λ b. refl }, λ b t. ground arith)
  load_devices-Loads a (s ∷ ss) g (listed, all_listed) (new, distinct) node (free, all_free) inv
        good =
      let (k, becomes) =
        provider_load_device-Kept h f r c Good kept sound a s g listed node
          (none_of_identity h _ free) inv good in
      let g1 = provider_load_device h f r a s g in
      let (k1, loads) =
        load_devices-Loads a ss g1 all_listed distinct (k.same_node a ∙ node)
          (still_free a s _ ss g g1 new becomes all_free) k.inv k.good in
      (
        record { inv = k1.inv; good = k1.good; same_node = λ b. k1.same_node b ∙ k.same_node b },
        λ b t. loads b t ∙ ground (arith, becomes b t, nat_key.same_iff a b, nat_key.same_iff s t),
      )

  abbrev created : ℕ → State h → State h
  created a g = (create_node h a g).0

  opened : ℕ → State h → State h
  opened a g =
      on_store h (h.section (devices_path h f r a))
        (on_store h (h.section (node_path h a)) (created a g))

  store-create_node :
      (a : ℕ) (g : State h)
      → lookup a g.node ≡ none
      → (created a g).store ≡ h.section (node_path h a) g.store
  unfolding create_node
  store-create_node a g absent = ground (arith, absent)

  -- The node before its devices are loaded.
  abbrev IsOpened : ℕ → State h → State h → Type 0
  IsOpened a g g' =
      Inv h g'
      × Good g'.store
      × ((b : ℕ) → is_node h b g' ≡ (a == b || is_node h b g))
      × ((b t : ℕ) → identity h (get_device h b t g') ≡ identity h (get_device h b t g))

  opened-IsOpened :
      (a : ℕ) (g : State h)
      → elem a c.nodes ≡ true
      → lookup a g.node ≡ none
      → Inv h g
      → Good g.store
      → IsOpened a g (opened a g)
  unfolding opened get_device
  opened-IsOpened a g listed absent inv good =
      let place = one_node a in
      let good1 : Good (created a g).store =
        rw (store-create_node a g absent) (kept.section_kept g.store place good listed) in
      let good2 = kept.section_kept (created a g).store place good1 listed in
      let good3 = kept.section_kept _ (all_devices a) good2 listed in
      (
        on_store-Inv h (h.section (devices_path h f r a)) _
            (on_store-Inv h (h.section (node_path h a)) _ (create_node-Inv h a g inv)),
        good3,
        λ b. rw lookup-create_node (ground (arith, absent, nat_key.same_iff a b)),
        λ b t. ap (identity h) (get_device-create_node h a b t g),
      )

  no_devices :
      (a s : ℕ) (g : State h) → lookup a g.node ≡ none → identity h (get_device h a s g) ≡ none
  unfolding get_device
  no_devices a s g absent = rw absent refl

  -- What is asked of the contents of a node: no sub-identifier occurs twice.
  abbrev pub AreDistinct : List ℕ → Type 0
  AreDistinct ns = IsDistinct ns × All (λ a. (elem a c.nodes ≡ true) × IsDistinct (c.devices a)) ns

  abbrev LoadsNode : ℕ → State h → State h → Type 0
  LoadsNode a g g' =
      Inv h g'
      × Good g'.store
      × ((b : ℕ) → is_node h b g' ≡ (a == b || is_node h b g))
      × Loads a (c.devices a) g g'

  provider_load_node-LoadsNode :
      (a : ℕ) (g : State h)
      → elem a c.nodes ≡ true
      → IsDistinct (c.devices a)
      → lookup a g.node ≡ none
      → Inv h g
      → Good g.store
      → LoadsNode a g (provider_load_node h f r a g)
  unfolding provider_load_node opened
  provider_load_node-LoadsNode a g listed distinct absent inv good =
      let (inv1, good1, nodes1, same1) = opened-IsOpened a g listed absent inv good in
      let e = kept.devices_known (opened a g).store a good1 listed in
      let (k, loads) =
        load_devices-Loads a (c.devices a) (opened a g)
          (All-of_elem (λ s. IsListed h f r c a s) (c.devices a) (λ s there. (listed, there)))
          distinct (nodes1 a ∙ rw (beq_refl a) refl)
          (All-of_elem (λ s. identity h (get_device h a s (opened a g)) ≡ none) (c.devices a)
            (λ s there. same1 a s ∙ no_devices a s g absent))
          inv1 good1 in
      rw e (
        k.inv,
        k.good,
        λ b. k.same_node b ∙ nodes1 b,
        λ b t.
            loads b t
            ∙ ap (λ o. if a == b && elem t (c.devices a) then recorded b t else o) (same1 b t),
      )

  -- The nodes `ns` have been loaded.
  abbrev pub LoadsNodes : List ℕ → State h → State h → Type 0
  LoadsNodes ns g g' =
      Inv h g'
      × Good g'.store
      × ((b : ℕ) → is_node h b g' ≡ (elem b ns || is_node h b g))
      × ((b t : ℕ)
          → identity h (get_device h b t g') ≡ (
              if elem b ns && elem t (c.devices b)
              then recorded b t
              else identity h (get_device h b t g)))

  abbrev AreNew : List ℕ → State h → Type 0
  AreNew ns g = All (λ a. is_node h a g ≡ false) ns

  pub load_nodes-LoadsNodes :
      (ns : List ℕ) (g : State h)
      → AreDistinct ns
      → AreNew ns g
      → Inv h g
      → Good g.store
      → LoadsNodes ns g (load_nodes h f r ns g)
  unfolding load_nodes
  load_nodes-LoadsNodes [] g distinct new inv good = (inv, good, λ b. refl, λ b t. refl)
  load_nodes-LoadsNodes (a ∷ ns) g ((first, distinct), ((listed, devices), all_listed))
        (new, all_new) inv good =
      let (inv1, good1, nodes1, loads1) =
        provider_load_node-LoadsNode a g listed devices (ground (arith, new)) inv good in
      let g1 = provider_load_node h f r a g in
      let (inv2, good2, nodes2, loads2) =
        load_nodes-LoadsNodes ns g1 (distinct, all_listed)
          (All-of_elem (λ b. is_node h b g1 ≡ false) ns
            λ b there.
              nodes1 b
              ∙ rw (other_than a b ns first there)
                  (All-elem (λ b. is_node h b g ≡ false) ns b all_new there))
          inv1 good1 in
      (
        inv2,
        good2,
        λ b. nodes2 b ∙ ground (arith, nodes1 b),
        λ b t. loads2 b t ∙ ground (arith, loads1 b t, nat_key.same_iff a b),
      )
