-- ===== src/Gateway/Listed.antt =====
-- Devices lists each device of the table once, and the gateway's own device.
use zda.Base.{
  ℕ, ◌+◌, ◌≡◌, refl, ap, sym, ◌∙◌, Bool, true, false, false≢true, Option, none, some, none≢some,
  List, [], ◌∷◌, ◌++◌, Assoc, keys, lookup, elem, elem-keys, IsDistinct, is_some, ◌==◌, nat_key,
  arith, Bool-cases, inl, inr,
}
use zda.Table.{Host, Node}
use zda.Table.Ops.{get_device, device_of}
use zda.Table.Lookup.{is_same}
use zda.Discovery.{Network}
use zda.Enumerate.Factory.{Implementations}
use zda.Provider.{ReadResult}
use zda.Persistence.{Reader}
use zda.Gateway.{
  Adapter, Zda, at_address, get_devices_on_node, get_devices, new, devices, running, start,
  registered, with_self, adapter_endpoint,
}
use zda.Gateway.Tidy.{IsTidy}
use zda.Gateway.Loaded.{start_provider_loop-IsTidy}

abbrev pub once : Bool → ℕ
once true = 1
once false = 0

-- How often a device is in a list.
abbrev pub times : ℕ → ℕ → List (ℕ × ℕ) → ℕ
times a s [] = 0
times a s ((b, t) ∷ ds) = once (is_same a s b t) + times a s ds

times-append :
    (a s : ℕ) (front back : List (ℕ × ℕ))
    → times a s (front ++ back) ≡ times a s front + times a s back
times-append a s [] back = omega arith
times-append a s ((b, t) ∷ front) back = omega (arith, times-append a s front back)

times-at_other : (a b s : ℕ) (ss : List ℕ) → (b == a) ≡ false → times a s (at_address b ss) ≡ 0
times-at_other a b s [] other = refl
times-at_other a b s (t ∷ ss) other =
    ground (arith, times-at_other a b s ss other, nat_key.same_iff a b, nat_key.same_iff b a)

times-at_address :
    (a s : ℕ) (ss : List ℕ) → IsDistinct ss → times a s (at_address a ss) ≡ once (elem s ss)
times-at_address a s [] d = refl
times-at_address a s (t ∷ ss) d =
    ground (arith, times-at_address a s ss d.1, nat_key.same_iff s t, nat_key.same_iff t s, d.0)

module _ (h : Host) where
  open h use {Impl}

  -- Nothing is found of a node that is not there.
  device_of_absent :
      (s : ℕ) (o : Option (Node Impl)) → is_some o ≡ false → once (is_some (device_of h s o)) ≡ 0
  device_of_absent s none e = refl
  device_of_absent s (some n) e = absurd (false≢true (sym e))

  times-get_devices :
      (a s : ℕ) (m : Assoc ℕ (Node Impl))
      → IsTidy m
      → times a s (get_devices m) ≡ once (is_some (device_of h s (lookup a m)))
  unfolding get_devices get_devices_on_node lookup
  times-get_devices a s [] t = refl
  times-get_devices a s ((b, n) ∷ m) ((new_key, d), ((address, distinct), every)) =
      let sum = times-append a s (get_devices_on_node n) (get_devices m) in
      let rest = times-get_devices a s m (d, every) in
      elim (Bool-cases (b == a)) [
        | inl same ↦
            let is_a : b ≡ a = (nat_key.same_iff b a).0 same in
            let at_a : n.address ≡ a = address ∙ is_a in
            let no_other : is_some (lookup a m) ≡ false =
              sym (elem-keys a m) ∙ (rw is_a at new_key) in
            let here : times a s (get_devices_on_node n) ≡ once (is_some (lookup s n.device)) =
              rw at_a (times-at_address a s (keys n.device) distinct)
              ∙ ap once (elem-keys s n.device) in
            let nowhere = device_of_absent s (lookup a m) no_other in
            rw same (sum ∙ omega (arith, here, rest, nowhere))
        | inr other ↦
            let elsewhere : times a s (get_devices_on_node n) ≡ 0 =
              rw address (times-at_other a b s (keys n.device) other) in
            rw other (sum ∙ omega (arith, elsewhere, rest))
      ]

module _ {n : Network} (p : Adapter n) {h : Host} where
  self-start :
      (z z' : Zda h n) (o : Option n.Failure × n.Net)
      → registered p (with_self p z) o ≡ (none, z')
      → (z'.self_address ≡ p.adapter_node z.dd.net)
        × (z'.self_sub_identifier ≡ 0)
        × (z'.table ≡ z.table)
  self-start z z' (none, net) e = (
    sym (ap (λ r. r.1.self_address) e),
    sym (ap (λ r. r.1.self_sub_identifier) e),
    sym (ap (λ r. r.1.table) e),
  )
  self-start z z' (some x, net) e = absurd (none≢some (sym (ap (λ r. r.0) e)))

  -- When Start of a new gateway returns no error, then, whatever the load from persistence finds
  -- and whatever the provider reports, Devices lists every device that getDevice finds exactly
  -- once, the gateway's own device, which is 0 at the address of the adapter, once more, and
  -- nothing else.
  pub devices_lists_all :
      {V : Type 0} (f : Implementations h V) (r : Reader h) (rs : List ReadResult) (store : h.Store)
      (net : n.Net) (z : Zda h n) (a s : ℕ)
      → start p (new h store net) ≡ (none, z)
      → times a s (devices (running f r rs z))
        ≡ once (is_same a s (p.adapter_node net) 0)
          + once (is_some (get_device h a s (running f r rs z).table))
  unfolding start new devices running get_device
  devices_lists_all f r rs store net z a s started =
      let outcome = p.register_adapter_endpoint (adapter_endpoint p) net in
      let (address, sub_identifier, table) = self-start (new h store net) z outcome started in
      rw address (
        rw sub_identifier (
          rw table (
            ap (λ listed. once (is_same a s (p.adapter_node net) 0) + listed)
              (times-get_devices h a s _ (start_provider_loop-IsTidy h f r rs _ (tt, tt))))))
