-- ===== src/Gateway/Tidy.antt =====
-- The table keeps each node once and under its address, and each device of a node once, whatever
-- operation of table.go changes it.
use zda.Base.{
  ℕ, ◌≡◌, refl, some, [], ◌∷◌, Assoc, keys, lookup, put, delete, lookup-delete, elem-keys,
  IsDistinct, All, Key, none≢some, keys-put-IsDistinct, ◌==◌, nat_key, arith, Option-cases,
  Bool-cases, inl, inr,
}
use zda.Table.{Host, Device, Node}
use zda.Table.Ops.{
  State, new_node, new_device, capabilities_of, create_node, get_device, on_devices, on_device,
  create_specific_device, detach_capability_from_device, detach_all, remove_device,
}

module _ {K V : Type 0} ⦃e : Key K⦄ where
  pub keys-delete-IsDistinct :
      (k : K) (m : Assoc K V) → IsDistinct (keys m) → IsDistinct (keys (delete k m))
  unfolding delete
  keys-delete-IsDistinct k [] d = tt
  keys-delete-IsDistinct k ((j, v) ∷ m) d = elim (Bool-cases (j == k)) [
    | inl same ↦ rw same (keys-delete-IsDistinct k m d.1)
    | inr other ↦ rw other (
      ground (arith, elem-keys j (delete k m), elem-keys j m, lookup-delete k j m),
      keys-delete-IsDistinct k m d.1,
    )
  ]

module _ {I : Type 0} where
  -- A node as the table has it.
  abbrev pub IsFiled : ℕ × Node I → Type 0
  IsFiled (a, n) = (n.address ≡ a) × IsDistinct (keys n.device)

  abbrev pub IsTidy : Assoc ℕ (Node I) → Type 0
  IsTidy m = IsDistinct (keys m) × All IsFiled m

  All-put_entry :
      (a : ℕ) (n : Node I) (m : Assoc ℕ (Node I))
      → IsFiled (a, n)
      → All IsFiled m
      → All IsFiled (put a n m)
  unfolding put
  All-put_entry a n [] here every = (here, tt)
  All-put_entry a n ((b, x) ∷ m) here every = elim (Bool-cases (b == a)) [
    | inl same ↦ rw same (here, every.1)
    | inr other ↦ rw other (every.0, All-put_entry a n m here every.1)
  ]

  All-delete_entry : (a : ℕ) (m : Assoc ℕ (Node I)) → All IsFiled m → All IsFiled (delete a m)
  unfolding delete
  All-delete_entry a [] every = tt
  All-delete_entry a ((b, x) ∷ m) every = elim (Bool-cases (b == a)) [
    | inl same ↦ rw same (All-delete_entry a m every.1)
    | inr other ↦ rw other (every.0, All-delete_entry a m every.1)
  ]

  pub put-IsTidy :
      (a : ℕ) (n : Node I) (m : Assoc ℕ (Node I)) → IsFiled (a, n) → IsTidy m → IsTidy (put a n m)
  put-IsTidy a n m here (d, every) = (keys-put-IsDistinct a n m d, All-put_entry a n m here every)

  pub delete-IsTidy : (a : ℕ) (m : Assoc ℕ (Node I)) → IsTidy m → IsTidy (delete a m)
  delete-IsTidy a m (d, every) = (keys-delete-IsDistinct a m d, All-delete_entry a m every)

  pub found-IsFiled :
      (a : ℕ) (m : Assoc ℕ (Node I)) {n : Node I}
      → All IsFiled m
      → lookup a m ≡ some n
      → IsFiled (a, n)
  unfolding lookup
  found-IsFiled a [] every found = absurd (none≢some found)
  found-IsFiled a ((b, x) ∷ m) {n} every found = elim (Bool-cases (b == a)) [
    | inl same ↦
        let is_n : x ≡ n = ground arith in
        let is_a : b ≡ a = ground (arith, nat_key.same_iff b a) in rw (← is_n) (rw (← is_a) every.0)
    | inr other ↦ found-IsFiled a m {n = n} every.1 (ground arith)
  ]

module _ (h : Host) where
  open h use {Impl}

  -- The table of a state.
  abbrev pub IsTidyTable : State h → Type 0
  IsTidyTable g = IsTidy g.node

  abbrev KeepsKeys : (Assoc ℕ (Device Impl) → Assoc ℕ (Device Impl)) → Type 0
  KeepsKeys f = (m : Assoc ℕ (Device Impl)) → IsDistinct (keys m) → IsDistinct (keys (f m))

  on_devices-IsTidy :
      (a : ℕ) (f : Assoc ℕ (Device Impl) → Assoc ℕ (Device Impl)) (g : State h)
      → KeepsKeys f
      → IsTidyTable g
      → IsTidyTable (on_devices h a f g)
  unfolding on_devices
  on_devices-IsTidy a f g keep t = elim (Option-cases (lookup a g.node)) [
    | inl absent ↦ rw (absent, on_devices) t
    | inr (n, found) ↦
        let (address, distinct) = found-IsFiled a g.node t.1 found in
        rw (found, on_devices)
          (put-IsTidy a (record n { device = f n.device }) g.node (address, keep n.device distinct)
            t)
  ]

  pub on_device-IsTidy :
      (a s : ℕ) (f : Device Impl → Device Impl) (g : State h)
      → IsTidyTable g
      → IsTidyTable (on_device h a s f g)
  on_device-IsTidy a s f g t = elim (Option-cases (get_device h a s g)) [
    | inl absent ↦ rw (absent, on_device) t
    | inr (d, found) ↦
        rw (found, on_device)
          (on_devices-IsTidy a (put s (f d)) g (λ m. keys-put-IsDistinct s (f d) m) t)
  ]

  pub create_node-IsTidy : (a : ℕ) (g : State h) → IsTidyTable g → IsTidyTable (create_node h a g).0
  unfolding create_node
  create_node-IsTidy a g t = elim (Option-cases (lookup a g.node)) [
    | inl absent ↦ rw (absent, create_node) (put-IsTidy a (new_node h a) g.node (refl, tt) t)
    | inr (n, found) ↦ rw (found, create_node) t
  ]

  pub create_specific_device-IsTidy :
      (a s : ℕ) (g : State h) → IsTidyTable g → IsTidyTable (create_specific_device h a s g)
  unfolding create_specific_device
  create_specific_device-IsTidy a s g =
      on_devices-IsTidy a (put s (new_device h)) g λ m. keys-put-IsDistinct s (new_device h) m

  detach_capability-IsTidy :
      (a s : ℕ) (c : Impl) (g : State h)
      → IsTidyTable g
      → IsTidyTable (detach_capability_from_device h a s c g)
  unfolding detach_capability_from_device
  detach_capability-IsTidy a s c g t =
      elim (Option-cases (lookup (h.capability c) (capabilities_of h (get_device h a s g)))) [
        | inl absent ↦ rw (absent, detach_capability_from_device) t
        | inr (i, found) ↦
            rw (found, detach_capability_from_device)
              (on_device-IsTidy a s
                (λ d. record d { capabilities = delete (h.capability c) d.capabilities }) _ t)
      ]

  detach_all-IsTidy :
      (a s : ℕ) (m : Assoc ℕ Impl) (g : State h)
      → IsTidyTable g
      → IsTidyTable (detach_all h a s m g)
  unfolding detach_all
  detach_all-IsTidy a s [] g t = t
  detach_all-IsTidy a s ((c, impl) ∷ m) g t =
      detach_all-IsTidy a s m _ (detach_capability-IsTidy a s impl _ t)

  pub remove_device-IsTidy :
      (a s : ℕ) (g : State h) → IsTidyTable g → IsTidyTable (remove_device h a s g).0
  unfolding remove_device
  remove_device-IsTidy a s g t = elim (Option-cases (get_device h a s g)) [
    | inl absent ↦ rw (absent, remove_device) t
    | inr (d, found) ↦
        rw (found, remove_device)
          (on_devices-IsTidy a (delete s) _ (λ m. keys-delete-IsDistinct s m)
            (detach_all-IsTidy a s d.capabilities g t))
  ]
