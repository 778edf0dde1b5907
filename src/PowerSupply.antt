-- ===== src/PowerSupply.antt =====
-- implcaps/zcl/power_supply/impl.go: the mains and the batteries of a device.
pub mod Layout
pub mod Cluster
pub mod Enumerate
pub mod Loading
pub mod Third
pub mod Sound
pub mod Written
pub mod Agreed
pub mod Stored
pub mod Reloaded
pub mod Restart
pub mod Frequency
pub mod Unloaded
pub mod Recovered
mod Examples
use zda.Base.{
  ℕ, ◌/◌, ◌%◌, Bool, true, false, Option, none, some, List, [], ◌∷◌, ◌++◌, ◌&&◌, ◌||◌, ◌==◌,
  nat_key, if◌then◌else◌,
}
use zda.Sensor.{Floats, Value, int64, uint64, uint8, other_value, AttributeDataTypeValue}
use zda.PowerSupply.Layout.{
  Battery, battery1, battery2, battery3, Three, Source, mains_voltage, mains_frequency,
  battery_voltage, battery_percentage, Sources, of_battery, of_source, with_source,
}

-- The flags of what a device has: of an Implementation, and of its section, where a key may be
-- missing.
pub record Present (B : Type 0) : Type 0 where
  pub mains : B
  pub battery : Three B
  pub sources : Sources B

-- The section of an Implementation, without those of the monitors.
pub record Section (F : Type 0) : Type 0 where
  pub present : Present (Option Bool)
  pub readings : Sources (Option F)
  pub remote_endpoint : Option ℕ
  pub last_changed : Option ℕ
  pub last_updated : Option ℕ

-- capabilities.PowerStatusPresent, a set of bits.
pub record PowerStatusPresent : Type 0 where
  pub voltage : Bool
  pub frequency : Bool
  pub remaining : Bool

-- capabilities.PowerMainsState, PowerBatteryState and PowerState, without `Available`, which is
-- always false.
pub record PowerMainsState (F : Type 0) : Type 0 where
  pub voltage : F
  pub frequency : F
  pub present : PowerStatusPresent

pub record PowerBatteryState (F : Type 0) : Type 0 where
  pub voltage : F
  pub remaining : F
  pub present : PowerStatusPresent

pub record PowerState (F : Type 0) : Type 0 where
  pub mains : List (PowerMainsState F)
  pub battery : List (PowerBatteryState F)

-- Implementation, with the PowerStatusUpdate events sent, the newest first.
pub record PowerSupply (F Am : Type 0) : Type 0 where
  pub s : Section F
  pub remote_endpoint : ℕ
  pub monitors : Sources Am
  pub present : Present Bool
  pub sent : List (PowerState F)

-- Constants of the package power_configuration: an attribute for each source.
abbrev pub Attributes : Type 0
Attributes = Sources ℕ

-- Whether a bit of a number is set, the bit by its value, as in `n & bit == bit`.
abbrev pub has_bit : ℕ → ℕ → Bool
has_bit bit n = (n / bit) % 2 == 1

-- attributeIdToBattery
unfoldable pub attribute_id_to_battery : ℕ → Battery
attribute_id_to_battery id =
    if has_bit 0x20 id
    then battery1
    else if has_bit 0x40 id
    then battery2
    else if has_bit 0x20 id && has_bit 0x40 id
    then battery3
    else battery1

-- The cases of the switch in `update`.
unfoldable pub source_of : Attributes → ℕ → Option Source
source_of a id =
    if id == a.mains_voltage
    then some mains_voltage
    else if id == a.mains_frequency
    then some mains_frequency
    else if id == a.battery_voltage.first
        || id == a.battery_voltage.second
        || id == a.battery_voltage.third
    then some (battery_voltage (attribute_id_to_battery id))
    else if id == a.battery_percentage.first
        || id == a.battery_percentage.second
        || id == a.battery_percentage.third
    then some (battery_percentage (attribute_id_to_battery id))
    else none

module _ (f : Floats) where
  open f use {Float, decimal}

  abbrev or_zero : Option Float → Float
  or_zero none = decimal 0 0
  or_zero (some x) = x

  -- The division and the threshold of each case of `update`.
  abbrev converted : Source → ℕ → Float
  converted mains_voltage raw = f.over (f.of_uint raw) (decimal 100 1)
  converted mains_frequency raw = f.over (f.of_uint raw) (decimal 20 1)
  converted (battery_voltage n) raw = f.over (f.of_uint raw) (decimal 100 1)
  converted (battery_percentage n) raw = f.over (f.of_uint raw) (decimal 2 0)

  abbrev threshold : Source → Float
  threshold mains_voltage = decimal 1 1
  threshold mains_frequency = decimal 1 0
  threshold (battery_voltage n) = decimal 5 2
  threshold (battery_percentage n) = decimal 1 1

  module _ {Am : Type 0} where
    -- A reading of the section if the device has the source, and 0.0 otherwise.
    abbrev pub reading : Source → PowerSupply Float Am → Float
    reading source i =
        if of_source source i.present.sources
        then or_zero (of_source source i.s.readings)
        else decimal 0 0

    abbrev mains_state : PowerSupply Float Am → PowerMainsState Float
    mains_state i = record {
      voltage = reading mains_voltage i;
      frequency = reading mains_frequency i;
      present = record {
        voltage = i.present.sources.mains_voltage;
        frequency = i.present.sources.mains_frequency;
        remaining = false;
      };
    }

    -- `remaining /= 100` is under the test of the flag.
    abbrev remaining : Battery → PowerSupply Float Am → Float
    remaining n i =
        if of_source (battery_percentage n) i.present.sources
        then f.over (or_zero (of_source (battery_percentage n) i.s.readings)) (decimal 100 0)
        else decimal 0 0

    abbrev battery_state : Battery → PowerSupply Float Am → PowerBatteryState Float
    battery_state n i = record {
      voltage = reading (battery_voltage n) i;
      remaining = remaining n i;
      present = record {
        voltage = of_source (battery_voltage n) i.present.sources;
        frequency = false;
        remaining = of_source (battery_percentage n) i.present.sources;
      };
    }

    abbrev battery_states : Battery → PowerSupply Float Am → List (PowerBatteryState Float)
    battery_states n i = if of_battery n i.present.battery then battery_state n i ∷ [] else []

    -- Status
    unfoldable pub status : PowerSupply Float Am → PowerState Float
    status i = record {
      mains = if i.present.mains then mains_state i ∷ [] else [];
      battery = battery_states battery1 i ++ battery_states battery2 i ++ battery_states battery3 i;
    }

    abbrev pub with_reading : Source → Float → PowerSupply Float Am → PowerSupply Float Am
    with_reading source x i = record i {
      s = record i.s { readings = with_source source (some x) i.s.readings };
    }

    -- One case of the switch: `announce`, and the state.
    abbrev pub taken : Option Source → ℕ → PowerSupply Float Am → Bool × PowerSupply Float Am
    taken none raw i = (false, i)
    taken (some source) raw i =
        let x = converted source raw in
        let current = or_zero (of_source source i.s.readings) in
        (f.at_least (f.abs (f.minus x current)) (threshold source), with_reading source x i)

    abbrev pub received : Option Source → Value → PowerSupply Float Am → Bool × PowerSupply Float Am
    received source (uint64 raw) i = taken source raw i
    received source (int64 n) i = (false, i)
    received source (uint8 n) i = (false, i)
    received source other_value i = (false, i)

    abbrev pub announced : ℕ → Bool × PowerSupply Float Am → PowerSupply Float Am
    announced now (false, i) = i
    announced now (true, i) =
        let changed : PowerSupply Float Am = record i {
          s = record i.s { last_changed = some now };
        } in
        record changed { sent = status changed ∷ changed.sent }

    abbrev pub stamped : ℕ → PowerSupply Float Am → PowerSupply Float Am
    stamped now i = record i { s = record i.s { last_updated = some now } }

    -- update, at the time `now`
    unfoldable pub update :
        Attributes → ℕ → ℕ → AttributeDataTypeValue → PowerSupply Float Am → PowerSupply Float Am
    update a now id v i = stamped now (announced now (received (source_of a id) v.value i))
