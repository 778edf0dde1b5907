-- ===== src/Table/Mirror/Removal.antt =====
-- detachCapabilityFromDevice and removeDevice keep the view that the events give.
use zda.Base.{
  ℕ, false, ◌≡◌, refl, ap, Option, none, some, [], ◌∷◌, ◌++◌, Assoc, lookup, delete, lookup-delete,
  is_some, if◌then◌else◌, ◌==◌, nat_key, arith, Option-cases, inl, inr,
}
use zda.Table.{Host, capability_gone, Device}
use zda.Table.Ops.{
  State, device_path, send_event, get_device, on_device, on_store, capabilities_of,
  detach_capability_from_device,
}
use zda.Table.Lookup.{is_same}
use zda.Table.Mirror.{seen_capability, device_has, Inv}
use zda.Table.Mirror.Steps.{map_device, get_device-on_device, sent-on_device}

-- Deleting a key that is not there changes nothing.
delete_absent : {V : Type 0} (k : ℕ) (m : Assoc ℕ V) → lookup k m ≡ none → delete k m ≡ m
unfolding lookup delete
delete_absent k [] e = refl
delete_absent k ((j, v) ∷ m) e = ground (arith, delete_absent k m)

module _ (h : Host) where
  open h use {Store, Impl, enumerate_device_flag, device_removal_flag, capability, detach}

  abbrev pub without : ℕ → Device Impl → Device Impl
  without cf d = record d { capabilities = delete cf d.capabilities }

  without_absent :
      (cf : ℕ) (o : Option (Device Impl))
      → lookup cf (capabilities_of h o) ≡ none
      → map_device h (without cf) o ≡ o
  without_absent cf none e = refl
  without_absent cf (some d) e =
      ap (λ m. some (record d { capabilities = m })) (delete_absent cf d.capabilities e)

  get_device-detach_found :
      (a s b t : ℕ) (i : Impl) (g : State h)
      → get_device h b t (
          on_device h a s (without (capability i)) (
            on_store h
              (h.section_delete
                (device_path h a s ++ "Capability" ∷ [])
                (h.standard_name (capability i)))
              (send_event h (capability_gone a s (capability i)) g)))
        ≡ (if is_same a s b t
            then map_device h (without (capability i)) (get_device h b t g)
            else get_device h b t g)
  unfolding get_device
  get_device-detach_found a s b t i g = get_device-on_device h a s b t (without (capability i)) _

  pub get_device-detach :
      (a s b t : ℕ) (i : Impl) (g : State h)
      → get_device h b t (detach_capability_from_device h a s i g) ≡ (
          if is_same a s b t
          then map_device h (without (capability i)) (get_device h b t g)
          else get_device h b t g)
  unfolding detach_capability_from_device
  get_device-detach a s b t i g =
      elim (Option-cases (lookup (capability i) (capabilities_of h (get_device h a s g)))) [
        | inl absent ↦
            rw (absent, detach_capability_from_device)
              (ground (arith, without_absent (capability i) (get_device h a s g) absent))
        | inr (j, found) ↦
            rw (found, detach_capability_from_device) (get_device-detach_found a s b t i g)
      ]

  sent-detach :
      (a s : ℕ) (i : Impl) (g : State h)
      → (detach_capability_from_device h a s i g).sent ≡ (
          if is_some (lookup (capability i) (capabilities_of h (get_device h a s g)))
          then capability_gone a s (capability i) ∷ g.sent
          else g.sent)
  unfolding detach_capability_from_device
  sent-detach a s i g =
      elim (Option-cases (lookup (capability i) (capabilities_of h (get_device h a s g)))) [
        | inl absent ↦ rw (absent, detach_capability_from_device)
        | inr (j, found) ↦
            rw (found, detach_capability_from_device)
              (sent-on_device h a s (without (capability i)) _)
      ]

  pub detach_capability_from_device-Inv :
      (a s : ℕ) (i : Impl) (g : State h) → Inv h g → Inv h (detach_capability_from_device h a s i g)
  detach_capability_from_device-Inv a s i g v = record {
    mirrors = record {
      devices = λ b t.
          rw (get_device-detach a s b t i g, sent-detach a s i g)
            (ground (arith, v.mirrors.devices b t));
      capabilities = λ b t c.
          rw (get_device-detach a s b t i g, sent-detach a s i g)
            (cap b t c (get_device h b t g) refl (v.mirrors.capabilities b t c));
    };
    keyed_caps = record {
      keyed =
          λ b t c d j found listed. keyed_after b t c d j (get_device h b t g) refl found listed;
    };
  }
    where
      cap :
          (b t c : ℕ) (o : Option (Device Impl))
          → get_device h b t g ≡ o
          → seen_capability b t c g.sent ≡ device_has h c (get_device h b t g)
          → seen_capability b t c (
              if is_some (lookup (capability i) (capabilities_of h (get_device h a s g)))
              then capability_gone a s (capability i) ∷ g.sent
              else g.sent)
            ≡ device_has h c (
                if is_same a s b t
                then map_device h (without (capability i)) (get_device h b t g)
                else get_device h b t g)
      cap b t c none q m = rw q (ground (arith, q))
      cap b t c (some d) q m = rw q (elim (Option-cases (lookup (capability i) d.capabilities)) [
        | inl absent ↦ ground (arith, q, absent, lookup-delete (capability i) c d.capabilities)
        | inr (j, found) ↦ ground (
          arith,
          q,
          found,
          lookup-delete (capability i) c d.capabilities,
          v.keyed_caps.keyed b t (capability i) d j,
        )
      ])

      keyed_after :
          (b t c : ℕ) (d : Device Impl) (j : Impl) (o : Option (Device Impl))
          → get_device h b t g ≡ o
          → get_device h b t (detach_capability_from_device h a s i g) ≡ some d
          → lookup c d.capabilities ≡ some j
          → (capability j ≡ c)
            × ((c == enumerate_device_flag) ≡ false)
            × ((c == device_removal_flag) ≡ false)
      keyed_after b t c d j none q found listed = ground (arith, get_device-detach a s b t i g)
      keyed_after b t c d j (some d0) q found listed = ground (
        arith,
        get_device-detach a s b t i g,
        lookup-delete (capability i) c d0.capabilities,
        v.keyed_caps.keyed b t c d0 j,
      )
