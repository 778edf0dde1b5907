-- ===== src/Gateway/Loaded.antt =====
-- The provider loop and the load from persistence keep the table tidy.
use zda.Base.{
  ℕ, String, Bool, true, false, Option, none, some, List, [], ◌∷◌, ◌++◌, keys, lookup,
  if◌then◌else◌, nat_key, Option-cases, Bool-cases, inl, inr,
}
use zda.Table.{Host}
use zda.Table.Ops.{
  State, create_node, get_node, remove_node, create_next_device, attach_capability_to_device,
  set_device_unique_id,
}
use zda.Provider.{
  ReadResult, event, deadline_exceeded, canceled, failed, ProviderEvent, node_join, node_leave,
  node_incoming_message, start_enumeration, on_node_join, receive_node_join_event, remove_devices,
  receive_node_leave_event, receive, provider_loop,
}
use zda.Enumerate.Factory.{Implementations, create}
use zda.Persistence.{
  Reader, loaded, made, implemented, capabilities_path, load_capability, load_capabilities,
  identified, provider_load_device, load_devices, provider_load_node, load_nodes, provider_load,
  start_provider_loop,
}
use zda.Gateway.Tidy.{
  IsTidyTable, put-IsTidy, delete-IsTidy, found-IsFiled, on_device-IsTidy, create_node-IsTidy,
  create_specific_device-IsTidy, remove_device-IsTidy,
}

module _ (h : Host) where
  open h use {Impl, Failure, Store}

  on_node_join-IsTidy : (a : ℕ) (g : State h) → IsTidyTable h g → IsTidyTable h (on_node_join h a g)
  unfolding on_node_join
  on_node_join-IsTidy a g t = elim (Option-cases (lookup a g.node)) [
    | inl absent ↦ rw (absent, on_node_join, start_enumeration) t
    | inr (n, found) ↦ elim (Bool-cases n.enumeration_held) [
      | inl held ↦ rw (found, on_node_join, start_enumeration) (rw held t)
      | inr free ↦
          rw (found, on_node_join, start_enumeration)
            (rw free (
              put-IsTidy a (record n { enumeration_held = true }) g.node
                (found-IsFiled a g.node {n = n} t.1 found) t))
    ]
  ]

  create_next_device-IsTidy :
      (a : ℕ) (g : State h) → IsTidyTable h g → IsTidyTable h (create_next_device h a g).0
  unfolding create_next_device
  create_next_device-IsTidy a g = create_specific_device-IsTidy h a _ g

  join-IsTidy :
      (a : ℕ) (g : State h) → IsTidyTable h g → IsTidyTable h (receive_node_join_event h a g)
  unfolding receive_node_join_event
  join-IsTidy a g t = by_created (create_node h a g).1
    where
      by_created :
          (created : Bool)
          → IsTidyTable h (
              if created
              then on_node_join h a (create_next_device h a (create_node h a g).0).0
              else (create_node h a g).0)
      by_created true =
          on_node_join-IsTidy a _ (create_next_device-IsTidy a _ (create_node-IsTidy h a g t))
      by_created false = create_node-IsTidy h a g t

  remove_devices-IsTidy :
      (a : ℕ) (ss : List ℕ) (g : State h)
      → IsTidyTable h g
      → IsTidyTable h (remove_devices h a ss g)
  unfolding remove_devices
  remove_devices-IsTidy a [] g t = t
  remove_devices-IsTidy a (s ∷ ss) g t =
      remove_devices-IsTidy a ss _ (remove_device-IsTidy h a s g t)

  remove_node-IsTidy : (a : ℕ) (g : State h) → IsTidyTable h g → IsTidyTable h (remove_node h a g).0
  unfolding remove_node
  remove_node-IsTidy a g t = elim (Option-cases (lookup a g.node)) [
    | inl absent ↦ rw (absent, remove_node) t
    | inr (n, found) ↦ rw (found, remove_node) (delete-IsTidy a g.node t)
  ]

  leave-IsTidy :
      (a : ℕ) (g : State h) → IsTidyTable h g → IsTidyTable h (receive_node_leave_event h a g)
  unfolding receive_node_leave_event
  leave-IsTidy a g t = elim (Option-cases (get_node h a g)) [
    | inl absent ↦ rw (absent, receive_node_leave_event) t
    | inr (n, found) ↦
        rw (found, receive_node_leave_event)
          (remove_node-IsTidy a _ (remove_devices-IsTidy a (keys n.device) g t))
  ]

  receive-IsTidy :
      (e : ProviderEvent) (g : State h) → IsTidyTable h g → IsTidyTable h (receive h e g)
  unfolding receive
  receive-IsTidy (node_join a) g t = join-IsTidy a g t
  receive-IsTidy (node_leave a) g t = leave-IsTidy a g t
  receive-IsTidy node_incoming_message g t = t

  pub provider_loop-IsTidy :
      (rs : List ReadResult) (g : State h) → IsTidyTable h g → IsTidyTable h (provider_loop h rs g)
  unfolding provider_loop
  provider_loop-IsTidy [] g t = t
  provider_loop-IsTidy (event e ∷ rs) g t = provider_loop-IsTidy rs _ (receive-IsTidy e g t)
  provider_loop-IsTidy (deadline_exceeded ∷ rs) g t = provider_loop-IsTidy rs g t
  provider_loop-IsTidy (canceled ∷ rs) g t = t
  provider_loop-IsTidy (failed ∷ rs) g t = t

module _ (h : Host) {V : Type 0} (f : Implementations h V) (r : Reader h) where
  open h use {Impl, Failure, Store}

  loaded-IsTidy :
      (a s : ℕ) (o : Bool × Option Failure × Impl × Store) (g : State h)
      → IsTidyTable h g
      → IsTidyTable h (loaded h f r a s o g)
  unfolding attach_capability_to_device
  loaded-IsTidy a s (true, e, c, store) g = on_device-IsTidy h a s _ (record g { store = store })
  loaded-IsTidy a s (false, e, c, store) g = λ t. t

  made-IsTidy :
      (a s : ℕ) (name : String) (o : Option Impl) (g : State h)
      → IsTidyTable h g
      → IsTidyTable h (made h f r a s name o g)
  made-IsTidy a s name none g = λ t. t
  made-IsTidy a s name (some c) g =
      let path = capabilities_path h f r a s ++ name ∷ "Data" ∷ [] in
      let (c1, store) = f.init a s path c g.store in
      loaded-IsTidy a s (f.load c1 store) (record g { store = store })

  implemented-IsTidy :
      (a s : ℕ) (name : String) (o : Option String) (g : State h)
      → IsTidyTable h g
      → IsTidyTable h (implemented h f r a s name o g)
  implemented-IsTidy a s name none g = λ t. t
  implemented-IsTidy a s name (some i) g = made-IsTidy a s name (create h f i) g

  load_capabilities-IsTidy :
      (a s : ℕ) (names : List String) (g : State h)
      → IsTidyTable h g
      → IsTidyTable h (load_capabilities h f r a s names g)
  unfolding load_capabilities load_capability
  load_capabilities-IsTidy a s [] g t = t
  load_capabilities-IsTidy a s (name ∷ names) g t =
      load_capabilities-IsTidy a s names _ (implemented-IsTidy a s name _ _ t)

  identified-IsTidy :
      (a s : ℕ) (o : Option ℕ) (g : State h)
      → IsTidyTable h g
      → IsTidyTable h (identified h f r a s o g)
  unfolding set_device_unique_id
  identified-IsTidy a s none g = λ t. t
  identified-IsTidy a s (some id) g = on_device-IsTidy h a s _ g

  load_devices-IsTidy :
      (a : ℕ) (ss : List ℕ) (g : State h)
      → IsTidyTable h g
      → IsTidyTable h (load_devices h f r a ss g)
  unfolding load_devices provider_load_device
  load_devices-IsTidy a [] g t = t
  load_devices-IsTidy a (s ∷ ss) g t = load_devices-IsTidy a ss _ (
      load_capabilities-IsTidy a s _ _
        (identified-IsTidy a s _ _ (create_specific_device-IsTidy h a s g t)))

  load_nodes-IsTidy :
      (addresses : List ℕ) (g : State h)
      → IsTidyTable h g
      → IsTidyTable h (load_nodes h f r addresses g)
  unfolding load_nodes provider_load_node
  load_nodes-IsTidy [] g t = t
  load_nodes-IsTidy (a ∷ rest) g t =
      load_nodes-IsTidy rest _ (load_devices-IsTidy a _ _ (create_node-IsTidy h a g t))

  pub start_provider_loop-IsTidy :
      (rs : List ReadResult) (g : State h)
      → IsTidyTable h g
      → IsTidyTable h (start_provider_loop h f r rs g)
  unfolding start_provider_loop provider_load
  start_provider_loop-IsTidy rs g t = provider_loop-IsTidy h rs _ (load_nodes-IsTidy _ _ t)
