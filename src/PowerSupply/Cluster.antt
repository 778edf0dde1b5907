-- ===== src/PowerSupply/Cluster.antt =====
-- enumerateBasicCluster, enumeratePowerConfigurationCluster and Enumerate of
-- implcaps/zcl/power_supply/impl.go. The timeouts of the calls are answers of the network.
use zda.Base.{
  ℕ, ◌%◌, Bool, true, false, Option, none, some, List, [], ◌∷◌, ◌||◌, ◌==◌, not, nat_key,
  if◌then◌else◌,
}
use zda.Sensor.{Value, int64, uint64, uint8, other_value}
use zda.Monitor.{
  attempt_configure_reporting, ReportingConfig, poll_if_reporting_failed, PollingConfig,
}
use zda.Monitor.Reports.{ReadRecord}
use zda.Implcaps.{Zcl, one_minute, five_minutes}
use zda.PowerSupply.Layout.{
  Battery, battery1, battery2, Source, mains_voltage, mains_frequency, battery_voltage,
  battery_percentage, of_battery, with_battery, with_source,
}
use zda.PowerSupply.{Present, PowerSupply, Attributes, has_bit}

-- What the reads of the two clusters find out, and the writes of the flags of an Implementation.
abbrev pub has_mains : Present Bool → Present Bool
has_mains p = record p { mains = true }

abbrev pub has_battery : Battery → Present Bool → Present Bool
has_battery n p = record p { battery = with_battery n true p.battery }

abbrev pub has_source : Source → Present Bool → Present Bool
has_source source p = record p { sources = with_source source true p.sources }

-- The switch on `val & 0x0f`.
abbrev pub by_low_bits : ℕ → Present Bool → Present Bool
by_low_bits low p =
    if low == 1 || low == 2 || low == 4 || low == 5 || low == 6
    then has_mains p
    else if low == 3
    then has_battery battery1 p
    else p

abbrev pub by_high_bit : Bool → Present Bool → Present Bool
by_high_bit high p =
    if high then if p.battery.first then has_battery battery2 p else has_battery battery1 p else p

abbrev pub by_power_source : ℕ → Present Bool → Present Bool
by_power_source v p = by_high_bit (has_bit 0x80 v) (by_low_bits (v % 16) p)

-- val64 + uint64(val8), if one of the assertions holds.
abbrev pub as_number : Value → Option ℕ
as_number (uint64 n) = some n
as_number (uint8 n) = some n
as_number (int64 n) = none
as_number other_value = none

abbrev pub by_number : Option ℕ → Present Bool → Bool × Present Bool
by_number none p = (false, p)
by_number (some v) p = (true, by_power_source v p)

-- The answer to the read of PowerSource: whether to attach, and the flags.
unfoldable pub by_answer : Zcl → List (ReadRecord Value) → Present Bool → Bool × Present Bool
by_answer zcl [] p = (false, p)
by_answer zcl (r ∷ rs) p =
    if not (r.status == 0) || not (r.report.identifier == zcl.power_source)
    then (false, p)
    else by_number (as_number r.report.value) p

-- The loop over the answer to the read of the mains.
abbrev pub by_mains : Attributes → ℕ → Present Bool → Present Bool
by_mains a id p =
    if id == a.mains_voltage
    then has_source mains_voltage (has_mains p)
    else if id == a.mains_frequency
    then has_source mains_frequency (has_mains p)
    else p

unfoldable pub mains_answers :
    Attributes → List (ReadRecord Value) → Bool × Present Bool → Bool × Present Bool
mains_answers a [] r = r
mains_answers a (d ∷ ds) (attach, p) =
    mains_answers a ds
      (if d.status == 0 then (true, by_mains a d.report.identifier p) else (attach, p))

-- The loop over the answer to a read of a battery; a record with an error attaches as well.
abbrev pub by_battery : Attributes → Battery → ℕ → Present Bool → Present Bool
by_battery a n id p =
    if id == of_battery n a.battery_percentage
    then has_source (battery_percentage n) (has_battery n p)
    else if id == of_battery n a.battery_voltage
    then has_source (battery_voltage n) (has_battery n p)
    else p

unfoldable pub battery_answers :
    Attributes → Battery → List (ReadRecord Value) → Bool × Present Bool → Bool × Present Bool
battery_answers a n [] r = r
battery_answers a n (d ∷ ds) (attach, p) =
    battery_answers a n ds (true, if d.status == 0 then by_battery a n d.report.identifier p else p)

-- i.s.Set of a flag.
module _ {F Am : Type 0} where
  abbrev pub set_mains : Bool → PowerSupply F Am → PowerSupply F Am
  set_mains b i = record i { s = record i.s { present = record i.s.present { mains = some b } } }

  abbrev pub set_battery : Battery → Bool → PowerSupply F Am → PowerSupply F Am
  set_battery n b i = record i {
    s = record i.s {
      present = record i.s.present { battery = with_battery n (some b) i.s.present.battery };
    };
  }

  abbrev pub set_source : Source → PowerSupply F Am → PowerSupply F Am
  set_source source i = record i {
    s = record i.s {
      present = record i.s.present { sources = with_source source (some true) i.s.present.sources };
    };
  }

  -- The end of enumerateBasicCluster.
  abbrev pub store_mains : PowerSupply F Am → PowerSupply F Am
  store_mains i = if i.present.mains then set_mains true i else i

  abbrev pub store_battery : Battery → PowerSupply F Am → PowerSupply F Am
  store_battery n i = if of_battery n i.present.battery then set_battery n true i else i

  unfoldable pub store_basic : PowerSupply F Am → PowerSupply F Am
  store_basic i = store_battery battery2 (store_battery battery1 (store_mains i))

-- The monitor that Enumerate attaches for a source: for the mains frequency it is the one of the
-- mains voltage.
abbrev pub slot : Source → Source
slot mains_voltage = mains_voltage
slot mains_frequency = mains_voltage
slot (battery_voltage n) = battery_voltage n
slot (battery_percentage n) = battery_percentage n

abbrev pub attribute_type : Zcl → Source → ℕ
attribute_type zcl mains_voltage = zcl.type_unsigned_int16
attribute_type zcl mains_frequency = zcl.type_unsigned_int8
attribute_type zcl (battery_voltage n) = zcl.type_unsigned_int8
attribute_type zcl (battery_percentage n) = zcl.type_unsigned_int8

abbrev reportable_change : Source → ℕ
reportable_change mains_voltage = 5
reportable_change mains_frequency = 1
reportable_change (battery_voltage n) = 1
reportable_change (battery_percentage n) = 1

abbrev pub reporting : Source → ReportingConfig
reporting source = record {
  mode = attempt_configure_reporting;
  minimum_interval = one_minute;
  maximum_interval = five_minutes;
  reportable_change = some (reportable_change source);
}

abbrev pub polling : PollingConfig
polling = record { mode = poll_if_reporting_failed; interval = five_minutes }
