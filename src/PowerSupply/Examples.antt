-- ===== src/PowerSupply/Examples.antt =====
-- A device with batteries, and one that has everything.
use zda.Base.{
  ℕ, true, false, ◌≡◌, refl, none, some, List, [], ◌∷◌, ◌==◌, if◌then◌else◌, leb, nat_key, lookup,
}
use zda.Monitor
use zda.Monitor.{Monitor, Config}
use zda.Sensor.{Value, uint64, other_type, AttributeDataTypeValue}
use zda.Sensor.Examples.{hundredths}
use zda.Implcaps.{get, answer, ZdaInterface}
use zda.Implcaps.Wired.{Wire, zda_interface, zda_interface-Recovers}
use zda.Implcaps.Examples.{fine, answered, interface, interface-Recovers, numbers, settings}
use zda.PowerSupply.{
  Section, PowerSupply, Attributes, attribute_id_to_battery, source_of, status, update,
}
use zda.PowerSupply.Cluster.{by_answer, mains_answers, battery_answers, store_basic}
use zda.PowerSupply.Enumerate.{
  enumerate_basic_cluster, read_mains, read_battery, step, run,
  enumerate_power_configuration_cluster, enumerate,
}
use zda.PowerSupply.Loading.{three, init, load_one, load_battery, load}
use zda.PowerSupply.Third.{of_third, update-of_third}
use zda.PowerSupply.Restart.{each, no_keys, init-IsRecoverable, reinitialised, power_supply_loads}
use zda.PowerSupply.Unloaded.{frequency_fails}

abbrev empty : Section ℕ
empty = record {
  present = no_keys;
  readings = each none;
  remote_endpoint = none;
  last_changed = none;
  last_updated = none;
}

abbrev attributes : Attributes
attributes = record {
  mains_voltage = 0;
  mains_frequency = 1;
  battery_voltage = record { first = 0x20; second = 0x40; third = 0x60 };
  battery_percentage = record { first = 0x21; second = 0x41; third = 0x61 };
}

abbrev of_batteries : List ℕ → List ℕ
of_batteries [] = []
of_batteries (a ∷ rest) = if leb 32 a then a ∷ of_batteries rest else of_batteries rest

abbrev battery_wire : Wire fine Value
battery_wire = record {
  read_attributes =
      λ t c e asked net. (answer (answered (if c == 0 then asked else of_batteries asked)), net);
  request = λ t r net. (none, net);
}

abbrev with_batteries : ZdaInterface Value
with_batteries = zda_interface fine battery_wire

program : Unit {0}
unfolding lookup get attribute_id_to_battery source_of status update by_answer mains_answers
    battery_answers store_basic enumerate_basic_cluster read_mains read_battery step run
    enumerate_power_configuration_cluster enumerate init load_one load_battery load Monitor.attach
    Monitor.poll Monitor.report Monitor.reattach Monitor.load
program = tt

abbrev new : PowerSupply ℕ (Monitor Unit)
new = init ℕ with_batteries empty (each with_batteries.no_section)

power_supply_loads_example :
    ((load ℕ with_batteries
        (reinitialised ℕ with_batteries numbers attributes
          (enumerate ℕ with_batteries numbers attributes settings new 0).1)
        0).0
      ≡ (true, none))
    × ((load ℕ with_batteries
          (reinitialised ℕ with_batteries numbers attributes
            (enumerate ℕ with_batteries numbers attributes settings new 0).1)
          0).1.present
        ≡ (enumerate ℕ with_batteries numbers attributes settings new 0).1.present)
unfolding program
power_supply_loads_example =
    power_supply_loads ℕ with_batteries numbers attributes settings new 0 0
      (zda_interface-Recovers fine battery_wire)
      (init-IsRecoverable ℕ with_batteries numbers attributes empty
        (each with_batteries.no_section))
      refl refl

-- All three batteries are found, and nothing of the mains.
found : (enumerate ℕ with_batteries numbers attributes settings new 0).1.present ≡ record {
  mains = false;
  battery = three true;
  sources = record {
    mains_voltage = false;
    mains_frequency = false;
    battery_voltage = three true;
    battery_percentage = three true;
  };
}
unfolding program
found = refl

abbrev new_mains : PowerSupply ℕ (Monitor Unit)
new_mains = init ℕ interface empty (each interface.no_section)

frequency_fails_example :
    (load ℕ interface
      (reinitialised ℕ interface numbers attributes
        (enumerate ℕ interface numbers attributes settings new_mains 0).1)
      0).0.0
    ≡ false
unfolding program
frequency_fails_example =
    frequency_fails ℕ interface numbers attributes settings new_mains 0 0 interface-Recovers
      (init-IsRecoverable ℕ interface numbers attributes empty (each interface.no_section)) refl
      refl refl

abbrev report : AttributeDataTypeValue
report = record { data_type = other_type; value = uint64 30 }

abbrev reported : PowerSupply ℕ (Monitor Unit)
reported =
    update hundredths attributes 50 0x60 report
      (enumerate ℕ with_batteries numbers attributes settings new 0).1

-- The voltage of the third battery is taken for that of the first.
reported_first : reported.s.readings.battery_voltage.first ≡ some 30
unfolding program
reported_first = refl

update-of_third_example :
    of_third reported.s.readings
    ≡ of_third (enumerate ℕ with_batteries numbers attributes settings new 0).1.s.readings
update-of_third_example =
    update-of_third hundredths attributes 50 0x60 report
      (enumerate ℕ with_batteries numbers attributes settings new 0).1
