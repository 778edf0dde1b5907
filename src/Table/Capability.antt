-- ===== src/Table/Capability.antt =====
-- Capability and Capabilities of device.go. In the table every device has its enumeration and its
-- removal, the fields eda and dr.
use zda.Base.{
  ℕ, ◌≡◌, refl, Option, none, some, List, [], ◌∷◌, ◌++◌, keys, lookup, elem, elem-append, elem-keys,
  is_some, ◌==◌, if◌then◌else◌, nat_key, arith,
}
use zda.Table.{Host, Device}
use zda.Table.Mirror.{device_has}

-- What Capability returns when it is not nil.
pub data BasicCapability (I : Type 0) : Type 0 where
  enumerated_device_attachment device_removal : BasicCapability I
  implemented : I → BasicCapability I

abbrev implemented_by : {I : Type 0} → Option I → Option (BasicCapability I)
implemented_by none = none
implemented_by (some i) = some (implemented i)

module _ (h : Host) where
  open h use {Impl, enumerate_device_flag, device_removal_flag}

  -- Capability
  unfoldable pub device_capability : ℕ → Device Impl → Option (BasicCapability Impl)
  device_capability c d =
      if c == enumerate_device_flag
      then some enumerated_device_attachment
      else if c == device_removal_flag
      then some device_removal
      else implemented_by (lookup c d.capabilities)

  -- Capabilities
  unfoldable pub device_capabilities : Device Impl → List ℕ
  device_capabilities d = keys d.capabilities ++ enumerate_device_flag ∷ device_removal_flag ∷ []

  is_some-implemented_by : (o : Option Impl) → is_some (implemented_by o) ≡ is_some o
  is_some-implemented_by none = refl
  is_some-implemented_by (some i) = refl

  -- Capabilities lists exactly the flags for which Capability returns something, and these are
  -- the capabilities that the events are compared with.
  pub device_capabilities_lem :
      (c : ℕ) (d : Device Impl)
      → (elem c (device_capabilities d) ≡ is_some (device_capability c d))
        × (device_has h c (some d) ≡ is_some (device_capability c d))
  unfolding device_capabilities device_capability
  device_capabilities_lem c d = (
    ground (
      arith,
      elem-append c (keys d.capabilities) (enumerate_device_flag ∷ device_removal_flag ∷ []),
      elem-keys c d.capabilities,
      is_some-implemented_by (lookup c d.capabilities),
    ),
    ground (arith, is_some-implemented_by (lookup c d.capabilities)),
  )
