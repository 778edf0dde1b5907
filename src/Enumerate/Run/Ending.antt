-- ===== src/Enumerate/Run/Ending.antt =====
-- The first and the last events of an enumeration, and the release of the node.
use zda.Base.{
  ℕ, false, ◌≡◌, refl, ap, sym, ◌∙◌, none, some, List, [], ◌∷◌, keys, lookup, lookup-put, nat_key,
  arith, Option-cases, inl, inr, none≢some,
}
use zda.Table.{Host, Event, enumerate_device_start, enumerate_device_stopped, Node}
use zda.Table.Ops.{State, get_device, send_event}
use zda.Table.Mirror.{seen_device, seen_capability, Inv}
use zda.Table.Mirror.Steps.{Inv-same}
use zda.Enumerate.NodeTable.{devices_on}
use zda.Enumerate.NodeTable.Update.{IsOpen}
use zda.Enumerate.Run.{send_all, release, finish}

module _ (h : Host) where
  open h use {Impl}

  -- An event that tells of no device and of no capability.
  abbrev pub IsSilent : (ℕ → ℕ → Event) → Type 0
  IsSilent make =
      (a s b t c : ℕ) (es : List Event)
      → (seen_device b t (make a s ∷ es) ≡ seen_device b t es)
        × (seen_capability b t c (make a s ∷ es) ≡ seen_capability b t c es)

  silent-Inv :
      (make : ℕ → ℕ → Event) (a s : ℕ) (g : State h)
      → IsSilent make
      → Inv h g
      → Inv h (send_event h (make a s) g)
  unfolding get_device
  silent-Inv make a s g silent v = record {
    mirrors = record {
      devices = λ b t. (silent a s b t 0 g.sent).0 ∙ v.mirrors.devices b t;
      capabilities = λ b t c. (silent a s b t c g.sent).1 ∙ v.mirrors.capabilities b t c;
    };
    keyed_caps = record { keyed = v.keyed_caps.keyed };
  }

  pub send_all-Inv :
      (make : ℕ → ℕ → Event) (a : ℕ) (ss : List ℕ) (g : State h)
      → IsSilent make
      → Inv h g
      → Inv h (send_all h make a ss g)
  unfolding send_all
  send_all-Inv make a [] g silent v = v
  send_all-Inv make a (s ∷ ss) g silent v =
      send_all-Inv make a ss (send_event h (make a s) g) silent (silent-Inv make a s g silent v)

  node-send_all :
      (make : ℕ → ℕ → Event) (a : ℕ) (ss : List ℕ) (g : State h)
      → (send_all h make a ss g).node ≡ g.node
  unfolding send_all
  node-send_all make a [] g = refl
  node-send_all make a (s ∷ ss) g = node-send_all make a ss (send_event h (make a s) g)

  get_device-release :
      (a b t : ℕ) (g : State h) → get_device h b t (release h a g) ≡ get_device h b t g
  unfolding get_device release
  get_device-release a b t g = elim (Option-cases (lookup a g.node)) [
    | inl absent ↦ rw (absent, release)
    | inr (n, found) ↦ rw (found, release) (rw lookup-put (ground (arith, found)))
  ]

  sent-release : (a : ℕ) (g : State h) → (release h a g).sent ≡ g.sent
  unfolding release
  sent-release a g = ground arith

  release-Inv : (a : ℕ) (g : State h) → Inv h g → Inv h (release h a g)
  release-Inv a g =
      Inv-same h g (release h a g) (sent-release a g) (λ b t. get_device-release a b t g)

  -- The semaphore of the node is free.
  abbrev pub IsFree : ℕ → State h → Type 0
  IsFree a g = (n : Node Impl) → lookup a g.node ≡ some n → n.enumeration_held ≡ false

  node-release :
      (a : ℕ) (g : State h) {m : Node Impl}
      → lookup a g.node ≡ some m
      → lookup a (release h a g).node ≡ some (record m { enumeration_held = false })
  unfolding release
  node-release a g {m} found =
      rw (found, release)
        (lookup-put a a (record m { enumeration_held = false }) g.node ∙ ground arith)

  node-release_absent :
      (a : ℕ) (g : State h) → lookup a g.node ≡ none → lookup a (release h a g).node ≡ none
  unfolding release
  node-release_absent a g absent = rw (absent, release) absent

  IsFree-release : (a : ℕ) (g : State h) → IsFree a (release h a g)
  IsFree-release a g n found = elim (Option-cases (lookup a g.node)) [
    | inl absent ↦ absurd (none≢some (sym (node-release_absent a g absent) ∙ found))
    | inr (m, held) ↦ is_free m (sym (node-release a g held) ∙ found)
  ]
    where
      is_free :
          (m : Node Impl)
          → some (record m { enumeration_held = false }) ≡ some n
          → n.enumeration_held ≡ false
      is_free m e = ground arith

  -- What holds when enumerate has ended.
  pub record IsOver (a : ℕ) (g : State h) : Type 0 where
    pub inv : Inv h g
    pub free : IsFree a g

  stopped-IsSilent : IsSilent enumerate_device_stopped
  stopped-IsSilent a s b t c es = (refl, refl)

  pub start-IsSilent : IsSilent enumerate_device_start
  start-IsSilent a s b t c es = (refl, refl)

  pub finish-IsOver : (a : ℕ) (g : State h) → Inv h g → IsOver a (finish h a g)
  unfolding finish
  finish-IsOver a g v =
      let g1 = release h a g in
      let ss = keys (devices_on h a g1) in
      record {
        inv = send_all-Inv enumerate_device_stopped a ss g1 stopped-IsSilent (release-Inv a g v);
        free = λ n found.
            IsFree-release a g n
              (ap (lookup a) (sym (node-send_all enumerate_device_stopped a ss g1)) ∙ found);
      }

  -- The start of an enumeration changes no device.
  pub started-IsOpen :
      (a : ℕ) (ids : List ℕ) (ss : List ℕ) (g : State h)
      → IsOpen h a ids g
      → IsOpen h a ids (send_all h enumerate_device_start a ss g)
  started-IsOpen a ids ss g o =
      let same = node-send_all enumerate_device_start a ss g in
      record {
        known = rw same o.known;
        distinct = rw same o.distinct;
        room = rw same o.room;
        no_zero = o.no_zero;
        unset_zero = rw same o.unset_zero;
      }
