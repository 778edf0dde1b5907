-- ===== src/Table/Mirror.antt =====
-- What a client that reads the events knows of the table, and that it is right: the view built
-- from the events alone is the view of the table.
pub mod Steps
pub mod Attach
pub mod Removal
pub mod Devices
use zda.Base.{
  ℕ, Bool, true, false, ◌≡◌, Option, none, some, List, [], ◌∷◌, lookup, is_some, ◌&&◌, ◌||◌,
  if◌then◌else◌, ◌==◌, nat_key,
}
use zda.Table.{Host, Event, device_added, device_gone, capability_added, capability_gone, Device}
use zda.Table.Ops.{State, get_device}
use zda.Table.Lookup.{is_same}

-- Device `a`, `s` was added and is not gone since. The events stand newest first.
abbrev pub seen_device : ℕ → ℕ → List Event → Bool
seen_device a s [] = false
seen_device a s (device_added b t ∷ es) = if is_same a s b t then true else seen_device a s es
seen_device a s (device_gone b t ∷ es) = if is_same a s b t then false else seen_device a s es
seen_device a s (_ ∷ es) = seen_device a s es

-- Capability `c` was added to the device and is not gone since.
abbrev pub seen_capability : ℕ → ℕ → ℕ → List Event → Bool
seen_capability a s c [] = false
seen_capability a s c (capability_added b t d ∷ es) =
    if is_same a s b t && c == d then true else seen_capability a s c es
seen_capability a s c (capability_gone b t d ∷ es) =
    if is_same a s b t && c == d then false else seen_capability a s c es
seen_capability a s c (_ ∷ es) = seen_capability a s c es

module _ (h : Host) where
  open h use {Impl, enumerate_device_flag, device_removal_flag, capability}

  -- `Capabilities()` of device.go has `c` for this device, which has eda and dr set.
  abbrev pub device_has : ℕ → Option (Device Impl) → Bool
  device_has c none = false
  device_has c (some d) =
      c == enumerate_device_flag || c == device_removal_flag || is_some (lookup c d.capabilities)

  -- The events tell the truth about the table.
  pub record Mirrors (g : State h) : Type 0 where
    pub devices : (a s : ℕ) → seen_device a s g.sent ≡ is_some (get_device h a s g)
    pub capabilities :
        (a s c : ℕ) → seen_capability a s c g.sent ≡ device_has c (get_device h a s g)

  -- A capability is stored under its own flag, which is neither of the two built-in ones.
  pub record IsKeyed (g : State h) : Type 0 where
    pub keyed :
        (a s c : ℕ) (d : Device Impl) (i : Impl)
        → get_device h a s g ≡ some d
        → lookup c d.capabilities ≡ some i
        → (capability i ≡ c)
          × ((c == enumerate_device_flag) ≡ false)
          × ((c == device_removal_flag) ≡ false)

  pub record Inv (g : State h) : Type 0 where
    pub mirrors : Mirrors g
    pub keyed_caps : IsKeyed g
