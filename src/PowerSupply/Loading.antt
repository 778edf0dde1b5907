-- ===== src/PowerSupply/Loading.antt =====
-- Init, Load and Detach of implcaps/zcl/power_supply/impl.go.
use zda.Base.{Bool, true, false, Option, none, some, [], if◌then◌else◌}
use zda.Table.{DetachType}
use zda.Implcaps.{ZdaInterface}
use zda.Sensor.{Value}
use zda.Sensor.Attached.{is_no_longer_enumerated}
use zda.PowerSupply.Layout.{
  Battery, battery1, battery2, battery3, Three, Source, mains_voltage, mains_frequency,
  battery_voltage, battery_percentage, Sources, of_battery, with_battery, of_source, with_source,
}
use zda.PowerSupply.{Present, Section, PowerSupply}

-- The value of a key, false where there is none.
abbrev pub or_false : Option Bool → Bool
or_false none = false
or_false (some b) = b

abbrev pub three : {A : Type 0} → A → Three A
three x = record { first = x; second = x; third = x }

abbrev pub map_three : {A B : Type 0} → (A → B) → Three A → Three B
map_three f t = record { first = f t.first; second = f t.second; third = f t.third }

abbrev pub map_sources : {A B : Type 0} → (A → B) → Sources A → Sources B
map_sources f s = record {
  mains_voltage = f s.mains_voltage;
  mains_frequency = f s.mains_frequency;
  battery_voltage = map_three f s.battery_voltage;
  battery_percentage = map_three f s.battery_percentage;
}

abbrev nothing_present : Present Bool
nothing_present = record {
  mains = false;
  battery = three false;
  sources = record {
    mains_voltage = false;
    mains_frequency = false;
    battery_voltage = three false;
    battery_percentage = three false;
  };
}

module _ (F : Type 0) (zi : ZdaInterface Value) where
  open zi use {Net, Failure, Am, MonitorSection}

  -- NewPowerSupply and Init, on the section and those of the monitors in it.
  unfoldable pub init : Section F → Sources MonitorSection → PowerSupply F Am
  init s sections = record {
    s = s;
    remote_endpoint = 0;
    monitors = map_sources zi.monitor sections;
    present = nothing_present;
    sent = [];
  }

  -- An error names the monitor that failed.
  abbrev pub Loaded : Type 0
  Loaded = Option (Source × Failure) × PowerSupply F Am × Net

  abbrev pub loaded : Source → PowerSupply F Am → Option Failure × Am × Net → Loaded
  loaded source i (none, am, net) =
      (none, record i { monitors = with_source source am i.monitors }, net)
  loaded source i (some e, am, net) =
      (some (source, e), record i { monitors = with_source source am i.monitors }, net)

  -- Load of a monitor if the flag of its source is set.
  unfoldable pub load_one : Source → PowerSupply F Am → Net → Loaded
  load_one source i net =
      if of_source source i.present.sources
      then loaded source i (zi.load (of_source source i.monitors) net)
      else (none, i, net)

  -- The return in the middle of Load.
  abbrev pub unless_failed : Loaded → (PowerSupply F Am → Net → Loaded) → Loaded
  unless_failed (none, i, net) rest = rest i net
  unless_failed (some e, i, net) rest = (some e, i, net)

  abbrev read_flag : Source → PowerSupply F Am → PowerSupply F Am
  read_flag source i = record i {
    present = record i.present {
      sources =
          with_source source (or_false (of_source source i.s.present.sources)) i.present.sources;
    };
  }

  abbrev pub read_mains_flags : PowerSupply F Am → PowerSupply F Am
  read_mains_flags i =
      let i1 : PowerSupply F Am = record i {
        present = record i.present { mains = or_false i.s.present.mains };
      } in
      read_flag mains_frequency (read_flag mains_voltage i1)

  abbrev pub read_battery_flags : Battery → PowerSupply F Am → PowerSupply F Am
  read_battery_flags n i =
      let i1 : PowerSupply F Am = record i {
        present = record i.present {
          battery = with_battery n (or_false (of_battery n i.s.present.battery)) i.present.battery;
        };
      } in
      read_flag (battery_voltage n) (read_flag (battery_percentage n) i1)

  unfoldable pub load_battery : Battery → PowerSupply F Am → Net → Loaded
  load_battery n i net =
      unless_failed (load_one (battery_percentage n) (read_battery_flags n i) net)
        (load_one (battery_voltage n))

  abbrev pub Result : Type 0
  Result = (Bool × Option (Source × Failure)) × PowerSupply F Am × Net

  abbrev pub returned : Loaded → Result
  returned (none, i, net) = ((true, none), i, net)
  returned (some e, i, net) = ((false, some e), i, net)

  -- Load
  unfoldable pub load : PowerSupply F Am → Net → Result
  load i net = returned (
      unless_failed (load_one mains_voltage (read_mains_flags i) net) λ i1 net1.
        unless_failed (load_one mains_frequency i1 net1) λ i2 net2.
          unless_failed (load_battery battery1 i2 net2)
            λ i3 net3. unless_failed (load_battery battery2 i3 net3) (load_battery battery3))

  -- lastError and the state in Detach.
  abbrev pub Detached : Type 0
  Detached = Option Failure × PowerSupply F Am × Net

  abbrev detached :
      Source → Option Failure → PowerSupply F Am → Option Failure × Am × Net → Detached
  detached source last_error i (none, am, net) =
      (last_error, record i { monitors = with_source source am i.monitors }, net)
  detached source last_error i (some e, am, net) =
      (some e, record i { monitors = with_source source am i.monitors }, net)

  unfoldable pub detach_one : DetachType → Source → Detached → Detached
  detach_one type source (e, i, net) =
      if of_source source i.present.sources
      then detached source e i
          (zi.detach (is_no_longer_enumerated type) (of_source source i.monitors) net)
      else (e, i, net)

  abbrev detach_battery : DetachType → Battery → Detached → Detached
  detach_battery type n r =
      detach_one type (battery_voltage n) (detach_one type (battery_percentage n) r)

  -- Detach
  unfoldable pub detach : DetachType → PowerSupply F Am → Net → Detached
  detach type i net = detach_battery type battery3 (
      detach_battery type battery2 (
        detach_battery type battery1
          (detach_one type mains_frequency (detach_one type mains_voltage (none, i, net)))))
