-- ===== src/Enumerate/Factory.antt =====
-- implcaps/factory/mapping.go, and the interface ZDACapability of implcaps/interface.go.
use zda.Base.{
  ℕ, String, Bool, Option, some, List, [], ◌∷◌, Assoc, lookup, string_key, ◌≢◌, ◌≡◌, refl, ◌∙◌,
  ◌==◌, arith, none≢some, Bool-cases, Option-cases, none, sym, inl, inr,
}
use zda.Table.{Host}

-- How Enumerate of a capability ends: it panics, or returns whether to attach and an error.
pub data Enumerated (F : Type 0) : Type 0 where
  panicked : Enumerated F
  returned : Bool → Option F → Enumerated F

-- The capability implementations and the flags of the package `capabilities`; `V` is a value of a
-- setting. `init a s path` is Init for the device `a`, `s` and the section `path`.
pub record Implementations (h : Host) (V : Type 0) : Type 0 where
  pub product_information_flag : ℕ
  pub temperature_sensor_flag : ℕ
  pub relative_humidity_sensor_flag : ℕ
  pub pressure_sensor_flag : ℕ
  pub identify_flag : ℕ
  pub power_supply_flag : ℕ
  pub device_workarounds_flag : ℕ
  pub new_product_information : h.Impl
  pub new_temperature_sensor : h.Impl
  pub new_humidity_sensor : h.Impl
  pub new_pressure_sensor : h.Impl
  pub new_identify : h.Impl
  pub new_power_supply : h.Impl
  pub new_device_workaround : h.Impl
  pub impl_name : h.Impl → String
  pub set_string : List String → String → String → h.Store → h.Store
  pub init : ℕ → ℕ → List String → h.Impl → h.Store → h.Impl × h.Store
  pub load : h.Impl → h.Store → Bool × Option h.Failure × h.Impl × h.Store
  pub enumerate : h.Impl → Assoc String V → h.Store → Enumerated h.Failure × h.Impl × h.Store

abbrev pub generic_product_information : String
generic_product_information = "GenericProductInformation"

abbrev pub zcl_temperature_sensor : String
zcl_temperature_sensor = "ZCLTemperatureSensor"

abbrev pub zcl_humidity_sensor : String
zcl_humidity_sensor = "ZCLHumiditySensor"

abbrev pub zcl_pressure_sensor : String
zcl_pressure_sensor = "ZCLPressureSensor"

abbrev pub zcl_identify : String
zcl_identify = "ZCLIdentify"

abbrev pub zcl_power_supply : String
zcl_power_supply = "ZCLPowerSupply"

abbrev pub generic_device_workarounds : String
generic_device_workarounds = "GenericDeviceWorkarounds"

module _ (h : Host) {V : Type 0} (f : Implementations h V) where
  open h use {Impl, enumerate_device_flag, device_removal_flag, capability}

  -- Mapping
  unfoldable pub mapping : Assoc String ℕ
  mapping =
      (generic_product_information, f.product_information_flag)
      ∷ (zcl_temperature_sensor, f.temperature_sensor_flag)
      ∷ (zcl_humidity_sensor, f.relative_humidity_sensor_flag)
      ∷ (zcl_pressure_sensor, f.pressure_sensor_flag)
      ∷ (zcl_identify, f.identify_flag)
      ∷ (zcl_power_supply, f.power_supply_flag)
      ∷ (generic_device_workarounds, f.device_workarounds_flag)
      ∷ []

  abbrev pub makers : Assoc String Impl
  makers =
      (generic_product_information, f.new_product_information)
      ∷ (zcl_temperature_sensor, f.new_temperature_sensor)
      ∷ (zcl_humidity_sensor, f.new_humidity_sensor)
      ∷ (zcl_pressure_sensor, f.new_pressure_sensor)
      ∷ (zcl_identify, f.new_identify)
      ∷ (zcl_power_supply, f.new_power_supply)
      ∷ (generic_device_workarounds, f.new_device_workaround)
      ∷ []

  -- Create
  unfoldable pub create : String → Option Impl
  create name = lookup name makers

  -- What the implementations keep to: the flag and the name of a capability are fixed when it is
  -- made, and no flag is one of the two that every device has.
  pub record IsStable : Type 0 where
    pub made :
        (name : String) (cf : ℕ)
        → lookup name mapping ≡ some cf
        → (c : Impl) × (create name ≡ some c) × (capability c ≡ cf) × (f.impl_name c ≡ name)
    pub not_built_in :
        (name : String) (cf : ℕ)
        → lookup name mapping ≡ some cf
        → (cf ≢ enumerate_device_flag) × (cf ≢ device_removal_flag)
    pub init_capability :
        (a s : ℕ) (path : List String) (c : Impl) (store : h.Store)
        → capability (f.init a s path c store).0 ≡ capability c
    pub init_name :
        (a s : ℕ) (path : List String) (c : Impl) (store : h.Store)
        → f.impl_name (f.init a s path c store).0 ≡ f.impl_name c
    pub enumerate_capability :
        (c : Impl) (settings : Assoc String V) (store : h.Store)
        → capability (f.enumerate c settings store).1 ≡ capability c
    pub enumerate_name :
        (c : Impl) (settings : Assoc String V) (store : h.Store)
        → f.impl_name (f.enumerate c settings store).1 ≡ f.impl_name c

  abbrev Made : String → ℕ → Option Impl → Type 0
  Made name cf o = (c : Impl) × (o ≡ some c) × (capability c ≡ cf) × (f.impl_name c ≡ name)

  -- Two tables with the same names, where each implementation has its flag and its name.
  abbrev IsPaired : Assoc String ℕ → Assoc String Impl → Type 0
  IsPaired [] [] = Unit
  IsPaired [] (e ∷ n) = ⊥
  IsPaired (e ∷ m) [] = ⊥
  IsPaired ((k, v) ∷ m) ((j, c) ∷ n) =
      (j ≡ k) × (capability c ≡ v) × (f.impl_name c ≡ k) × IsPaired m n

  paired-Made :
      (m : Assoc String ℕ) (n : Assoc String Impl) (name : String) (cf : ℕ)
      → IsPaired m n
      → lookup name m ≡ some cf
      → Made name cf (lookup name n)
  unfolding lookup
  paired-Made [] n name cf pairs found = absurd (none≢some found)
  paired-Made (e ∷ m) [] name cf pairs found = absurd pairs
  paired-Made ((k, v) ∷ m) ((j, c) ∷ n) name cf (same_key, is_v, named, pairs) found =
      elim (Bool-cases (k == name)) [
        | inl same ↦
            let is_name = (string_key.same_iff k name).0 same in
            (c, rw (same_key, same) refl, is_v ∙ ground arith, named ∙ is_name)
        | inr other ↦ rw (same_key, other) (paired-Made m n name cf pairs (ground arith))
      ]

  -- Capability and ImplName of the implementations, in the packages of implcaps/generic and
  -- implcaps/zcl.
  pub record HasMethods : Type 0 where
    pub product_information_capability :
        capability f.new_product_information ≡ f.product_information_flag
    pub temperature_sensor_capability :
        capability f.new_temperature_sensor ≡ f.temperature_sensor_flag
    pub humidity_sensor_capability :
        capability f.new_humidity_sensor ≡ f.relative_humidity_sensor_flag
    pub pressure_sensor_capability : capability f.new_pressure_sensor ≡ f.pressure_sensor_flag
    pub identify_capability : capability f.new_identify ≡ f.identify_flag
    pub power_supply_capability : capability f.new_power_supply ≡ f.power_supply_flag
    pub device_workaround_capability :
        capability f.new_device_workaround ≡ f.device_workarounds_flag
    pub product_information_name :
        f.impl_name f.new_product_information ≡ "GenericProductInformation"
    pub temperature_sensor_name : f.impl_name f.new_temperature_sensor ≡ "ZCLTemperatureSensor"
    pub humidity_sensor_name : f.impl_name f.new_humidity_sensor ≡ "ZCLHumiditySensor"
    pub pressure_sensor_name : f.impl_name f.new_pressure_sensor ≡ "ZCLPressureSensor"
    pub identify_name : f.impl_name f.new_identify ≡ "ZCLIdentify"
    pub power_supply_name : f.impl_name f.new_power_supply ≡ "ZCLPowerSupply"
    pub device_workaround_name : f.impl_name f.new_device_workaround ≡ "GenericDeviceWorkarounds"

  mapping-IsPaired : HasMethods → IsPaired mapping makers
  unfolding mapping
  mapping-IsPaired m = (
    refl,
    m.product_information_capability,
    m.product_information_name,
    (
      refl,
      m.temperature_sensor_capability,
      m.temperature_sensor_name,
      (
        refl,
        m.humidity_sensor_capability,
        m.humidity_sensor_name,
        (
          refl,
          m.pressure_sensor_capability,
          m.pressure_sensor_name,
          (
            refl,
            m.identify_capability,
            m.identify_name,
            (
              refl,
              m.power_supply_capability,
              m.power_supply_name,
              (refl, m.device_workaround_capability, m.device_workaround_name, tt),
            ),
          ),
        ),
      ),
    ),
  )

  pub mapping-Made :
      (name : String) (cf : ℕ)
      → HasMethods
      → lookup name mapping ≡ some cf
      → Made name cf (create name)
  unfolding create
  mapping-Made name cf m found = paired-Made mapping makers name cf (mapping-IsPaired m) found

  paired-absent :
      (m : Assoc String ℕ) (n : Assoc String Impl) (name : String)
      → IsPaired m n
      → lookup name m ≡ none
      → lookup name n ≡ none
  unfolding lookup
  paired-absent [] [] name pairs absent = refl
  paired-absent [] (e ∷ n) name pairs absent = absurd pairs
  paired-absent (e ∷ m) [] name pairs absent = absurd pairs
  paired-absent ((k, v) ∷ m) ((j, c) ∷ n) name (same_key, is_v, named, pairs) absent =
      elim (Bool-cases (k == name)) [
        | inl same ↦ absurd (none≢some (sym (rw same at absent)))
        | inr other ↦ rw (same_key, other) (paired-absent m n name pairs (rw other at absent))
      ]

  -- What Create gives for a name is what Mapping says of it.
  abbrev pub Agree : String → Option ℕ → Option Impl → Type 0
  Agree name none none = Unit
  Agree name (some cf) (some c) = (capability c ≡ cf) × (f.impl_name c ≡ name)
  Agree name none (some c) = ⊥
  Agree name (some cf) none = ⊥

  -- When Capability and ImplName of each implementation return what its package says, then for
  -- every name Create returns nil exactly when Mapping does not have the name, and else an
  -- implementation whose Capability is the flag that Mapping has for the name and whose ImplName
  -- is the name.
  pub create-mapping : (name : String) → HasMethods → Agree name (lookup name mapping) (create name)
  unfolding create
  create-mapping name methods = elim (Option-cases (lookup name mapping)) [
    | inl absent ↦
        rw (absent, paired-absent mapping makers name (mapping-IsPaired methods) absent) tt
    | inr (cf, found) ↦
        let (c, made, flag, named) = mapping-Made name cf methods found in
        rw (found, made) (flag, named)
  ]
