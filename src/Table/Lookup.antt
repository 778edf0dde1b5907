-- ===== src/Table/Lookup.antt =====
-- getDevice after each change of the table.
use zda.Base.{
  ℕ, Bool, true, ◌≡◌, refl, Option, none, some, Assoc, lookup, put, delete, lookup-put,
  lookup-delete, is_some, not, ◌&&◌, if◌then◌else◌, ◌==◌, nat_key, arith, Option-cases, inl, inr,
}
use zda.Table.{Host, Device, Node}
use zda.Table.Ops.{State, new_node, device_of, create_node, remove_node, get_device, on_devices}

abbrev pub is_same : ℕ → ℕ → ℕ → ℕ → Bool
is_same a s b t = a == b && s == t

module _ (h : Host) where
  open h use {Impl}

  abbrev pub is_node : ℕ → State h → Bool
  is_node a g = is_some (lookup a g.node)

  abbrev pub on_node :
      (Assoc ℕ (Device Impl) → Assoc ℕ (Device Impl)) → Option (Node Impl) → Option (Node Impl)
  on_node f none = none
  on_node f (some n) = some (record n { device = f n.device })

  pub lookup-on_devices :
      (a b : ℕ) (f : Assoc ℕ (Device Impl) → Assoc ℕ (Device Impl)) (g : State h)
      → lookup b (on_devices h a f g).node
        ≡ (if a == b then on_node f (lookup b g.node) else lookup b g.node)
  unfolding on_devices
  lookup-on_devices a b f g = elim (Option-cases (lookup a g.node)) [
    | inl absent ↦ rw (absent, on_devices) (ground (arith, absent))
    | inr (n, found) ↦ rw (found, on_devices) (rw lookup-put (ground (arith, found)))
  ]

  pub get_device-put :
      (a s b t : ℕ) (d : Device Impl) (g : State h)
      → get_device h b t (on_devices h a (put s d) g)
        ≡ (if is_node a g && is_same a s b t then some d else get_device h b t g)
  unfolding get_device
  get_device-put a s b t d g = rw lookup-on_devices (by_node (lookup b g.node) refl)
    where
      by_node :
          (o : Option (Node Impl))
          → lookup b g.node ≡ o
          → device_of h t (if a == b then on_node (put s d) (lookup b g.node) else lookup b g.node)
            ≡ (if is_node a g && is_same a s b t then some d else device_of h t (lookup b g.node))
      by_node none e = rw e (ground (arith, e))
      by_node (some n) e = rw e (ground (arith, e, lookup-put s t d n.device))

  pub get_device-delete :
      (a s b t : ℕ) (g : State h)
      → get_device h b t (on_devices h a (delete s) g)
        ≡ (if is_same a s b t then none else get_device h b t g)
  unfolding get_device
  get_device-delete a s b t g = rw lookup-on_devices (by_node (lookup b g.node))
    where
      by_node :
          (o : Option (Node Impl))
          → device_of h t (if a == b then on_node (delete s) o else o)
            ≡ (if is_same a s b t then none else device_of h t o)
      by_node none = ground arith
      by_node (some n) = ground (arith, lookup-delete s t n.device)

  pub is_node-on_devices :
      (a b : ℕ) (f : Assoc ℕ (Device Impl) → Assoc ℕ (Device Impl)) (g : State h)
      → is_node b (on_devices h a f g) ≡ is_node b g
  is_node-on_devices a b f g = rw lookup-on_devices (ground arith)

  pub is_node_of_device :
      (a s : ℕ) (g : State h) {d : Device Impl} → get_device h a s g ≡ some d → is_node a g ≡ true
  unfolding get_device
  is_node_of_device a s g e = ground arith

  pub lookup-create_node :
      (a b : ℕ) (g : State h)
      → lookup b (create_node h a g).0.node
        ≡ (if a == b && not (is_node a g) then some (new_node h a) else lookup b g.node)
  unfolding create_node
  lookup-create_node a b g = elim (Option-cases (lookup a g.node)) [
    | inl absent ↦ rw (absent, create_node) (rw lookup-put (ground (arith, absent)))
    | inr (n, found) ↦ rw (found, create_node) (ground (arith, found))
  ]

  pub get_device-create_node :
      (a b t : ℕ) (g : State h) → get_device h b t (create_node h a g).0 ≡ get_device h b t g
  unfolding get_device lookup
  get_device-create_node a b t g = rw lookup-create_node (ground arith)

  pub lookup-remove_node :
      (a b : ℕ) (g : State h)
      → lookup b (remove_node h a g).0.node ≡ (if a == b then none else lookup b g.node)
  unfolding remove_node
  lookup-remove_node a b g = elim (Option-cases (lookup a g.node)) [
    | inl absent ↦ rw (absent, remove_node) (ground (arith, absent))
    | inr (n, found) ↦ rw (found, remove_node) (rw lookup-delete refl)
  ]

  pub get_device-remove_node :
      (a b t : ℕ) (g : State h)
      → get_device h b t (remove_node h a g).0 ≡ (if a == b then none else get_device h b t g)
  unfolding get_device
  get_device-remove_node a b t g = rw lookup-remove_node (ground arith)
