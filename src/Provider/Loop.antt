-- ===== src/Provider/Loop.antt =====
-- Joins, and the whole provider loop.
use zda.Base.{
  ℕ, true, ◌≡◌, refl, ap, ◌∙◌, none, some, List, [], ◌∷◌, lookup, lookup-put, is_some,
  if◌then◌else◌, nat_key, arith, Option-cases, Bool-cases, inl, inr,
}
use zda.Node.{next_device_sub_identifier}
use zda.Table.{Host, Node}
use zda.Table.Ops.{
  State, new_device, create_node, get_node, get_device, create_specific_device, create_next_device,
  sub_identifiers,
}
use zda.Table.Lookup.{is_node, is_same, lookup-create_node, get_device-create_node}
use zda.Table.Mirror.{Mirrors, Inv}
use zda.Table.Mirror.Steps.{
  Inv-same, create_node-Inv, create_specific_device-Inv, get_device-create_specific_device,
}
use zda.Provider.{
  ProviderEvent, node_join, node_leave, node_incoming_message, ReadResult, event, deadline_exceeded,
  canceled, failed, start_enumeration, on_node_join, receive_node_join_event, receive,
  provider_loop,
}
use zda.Provider.Leaving.{receive_node_leave_event-Inv}

module _ (h : Host) where
  open h use {Store, Impl}

  get_device-on_node_join :
      (a b t : ℕ) (g : State h) → get_device h b t (on_node_join h a g) ≡ get_device h b t g
  unfolding get_device on_node_join
  get_device-on_node_join a b t g = elim (Option-cases (lookup a g.node)) [
    | inl absent ↦ rw (absent, on_node_join, start_enumeration)
    | inr (n, found) ↦ elim (Bool-cases n.enumeration_held) [
      | inl held ↦ rw (found, on_node_join, start_enumeration) (rw held refl)
      | inr free ↦
          rw (found, on_node_join, start_enumeration)
            (rw free (rw lookup-put (ground (arith, found))))
    ]
  ]

  sent-on_node_join : (a : ℕ) (g : State h) → (on_node_join h a g).sent ≡ g.sent
  unfolding on_node_join
  sent-on_node_join a g = ground arith

  on_node_join-Inv : (a : ℕ) (g : State h) → Inv h g → Inv h (on_node_join h a g)
  on_node_join-Inv a g =
      Inv-same h g (on_node_join h a g) (sent-on_node_join a g)
        (λ b t. get_device-on_node_join a b t g)

  -- The state after createNode of an address that is not in the table.
  abbrev created : ℕ → State h → State h
  created a g = (create_node h a g).0

  -- The first device of a new node has sub-identifier 0.
  first_device :
      (a : ℕ) (g : State h)
      → lookup a g.node ≡ none
      → (create_next_device h a (created a g)).0 ≡ create_specific_device h a 0 (created a g)
  unfolding create_next_device next_device_sub_identifier
  first_device a g absent =
      let none_used : sub_identifiers h (lookup a (created a g).node) ≡ [] =
        rw lookup-create_node (ground (arith, absent)) in
      ap (λ used. create_specific_device h a (next_device_sub_identifier used) (created a g))
        none_used

  -- A join of a known node changes nothing.
  join_known :
      (a : ℕ) (g : State h) {n : Node Impl}
      → lookup a g.node ≡ some n
      → receive_node_join_event h a g ≡ g
  unfolding receive_node_join_event create_node
  join_known a g found = rw (found, receive_node_join_event, create_node)

  join_unknown :
      (a : ℕ) (g : State h)
      → lookup a g.node ≡ none
      → receive_node_join_event h a g
        ≡ on_node_join h a (create_specific_device h a 0 (created a g))
  unfolding receive_node_join_event
  join_unknown a g absent =
      let is_created : (create_node h a g).1 ≡ true =
        unfold create_node in rw (absent, create_node) in
      ap (λ c. if c then on_node_join h a (create_next_device h a (created a g)).0 else created a g)
        is_created
      ∙ ap (on_node_join h a) (first_device a g absent)

  node_created : (a : ℕ) (g : State h) → lookup a g.node ≡ none → is_node h a (created a g) ≡ true
  node_created a g absent = ap is_some (lookup-create_node h a a g) ∙ ground (arith, absent)

  no_device_yet :
      (a t : ℕ) (g : State h) → lookup a g.node ≡ none → get_device h a t (created a g) ≡ none
  no_device_yet a t g absent =
      get_device-create_node h a a t g ∙ (unfold get_device in ground (arith, absent))

  -- The join of an unknown node gives it one device, with sub-identifier 0, no unique identifier
  -- and no capability; every other device is found as before.
  pub join_new :
      (a b t : ℕ) (g : State h)
      → get_node h a g ≡ none
      → get_device h b t (receive_node_join_event h a g)
        ≡ (if is_same a 0 b t then some (new_device h) else get_device h b t g)
  unfolding get_node
  join_new a b t g absent =
      ap (get_device h b t) (join_unknown a g absent)
      ∙ get_device-on_node_join a b t (create_specific_device h a 0 (created a g))
      ∙ get_device-create_specific_device h a 0 b t (created a g)
      ∙ ground (arith, node_created a g absent, get_device-create_node h a b t g)

  receive_node_join_event-Inv :
      (a : ℕ) (g : State h) → Inv h g → Inv h (receive_node_join_event h a g)
  receive_node_join_event-Inv a g v = elim (Option-cases (lookup a g.node)) [
    | inr (n, found) ↦ rw (join_known a g found) v
    | inl absent ↦ rw (join_unknown a g absent) (
        on_node_join-Inv a (create_specific_device h a 0 (created a g)) (
          create_specific_device-Inv h a 0 (created a g) (node_created a g absent)
            (no_device_yet a 0 g absent) (create_node-Inv h a g v)))
  ]

  receive-Inv : (e : ProviderEvent) (g : State h) → Inv h g → Inv h (receive h e g)
  unfolding receive
  receive-Inv (node_join a) g v = receive_node_join_event-Inv a g v
  receive-Inv (node_leave a) g v = receive_node_leave_event-Inv h a g v
  receive-Inv node_incoming_message g v = v

  pub provider_loop-Inv :
      (rs : List ReadResult) (g : State h) → Inv h g → Inv h (provider_loop h rs g)
  unfolding provider_loop
  provider_loop-Inv [] g v = v
  provider_loop-Inv (event e ∷ rs) g v = provider_loop-Inv rs (receive h e g) (receive-Inv e g v)
  provider_loop-Inv (deadline_exceeded ∷ rs) g v = provider_loop-Inv rs g v
  provider_loop-Inv (canceled ∷ rs) g v = v
  provider_loop-Inv (failed ∷ rs) g v = v

  -- The gateway that New returns.
  abbrev pub fresh : Store → State h
  fresh store = record { node = []; store = store; sent = []; started = [] }

  pub fresh-Inv : (store : Store) → Inv h (fresh store)
  unfolding get_device lookup
  fresh-Inv store = record {
    mirrors = record { devices = λ a s. refl; capabilities = λ a s c. refl };
    keyed_caps = record { keyed = λ a s c d i found listed. ground arith };
  }

  -- Whatever the provider reports, the events that the gateway has sent tell which devices the
  -- table has and which capabilities each of them has, no more and no less.
  pub provider_loop-Mirrors :
      (rs : List ReadResult) (store : Store) → Mirrors h (provider_loop h rs (fresh store))
  provider_loop-Mirrors rs store = (provider_loop-Inv rs (fresh store) (fresh-Inv store)).mirrors
