-- ===== src/Implcaps/Examples.antt =====
-- A network on which every call succeeds and every attribute is answered with 3, for the examples
-- of the capabilities.
use zda.Base.{ℕ, ◌≡◌, refl, true, false, none, List, [], ◌∷◌, nat_key, string_key, lookup}
use zda.Monitor.{Link, Transmission}
use zda.Monitor.Reports.{ReadRecord}
use zda.Sensor.{Value, uint64}
use zda.Implcaps.{Settings, endpoint, bool, as_endpoint, get, Zcl, answer, ZdaInterface}
use zda.Implcaps.Wired.{Wire, zda_interface, zda_interface-Recovers}
use zda.Implcaps.Recovery.{Recovers}

abbrev pub transmission : Transmission
transmission = record { ieee_address = 7; local_endpoint = 1; ack = false; seq = 0 }

abbrev pub fine : Link
fine = record {
  Net = ℕ;
  Failure = Unit {0};
  transmission_lookup = λ net. (transmission, net);
  bind_node_to_controller = λ a local e c net. (none, net);
  configure_reporting = λ t e r net. (none, net);
}

abbrev pub answered : List ℕ → List (ReadRecord Value)
answered [] = []
answered (a ∷ rest) =
    record { status = 0; report = record { identifier = a; data_type = 33; value = uint64 3 } }
    ∷ answered rest

abbrev pub wire : Wire fine Value
wire = record {
  read_attributes = λ t c e attributes net. (answer (answered attributes), net);
  request = λ t r net. (none, net);
}

abbrev pub interface : ZdaInterface Value
interface = zda_interface fine wire

pub interface-Recovers : Recovers interface
interface-Recovers = zda_interface-Recovers fine wire

-- The numbers of the ZCL specification.
abbrev pub numbers : Zcl
numbers = record {
  basic_id = 0;
  identify_id = 3;
  power_configuration_id = 1;
  temperature_measurement_id = 1026;
  relative_humidity_measurement_id = 1029;
  pressure_measurement_id = 1027;
  measured_temperature = 0;
  measured_humidity = 0;
  measured_pressure = 0;
  zcl_version = 0;
  power_source = 7;
  identify_time = 0;
  identify_command = 0;
  type_unsigned_int8 = 32;
  type_unsigned_int16 = 33;
  type_signed_int16 = 41;
}

abbrev pub settings : Settings
settings =
    ("ZigbeeEndpoint", endpoint 4)
    ∷ ("ZigbeeBasicClusterPresent", bool true)
    ∷ ("ZigbeePowerConfigurationClusterPresent", bool true)
    ∷ []

-- A setting of another type gives the default.
other_type : get as_endpoint settings "ZigbeeBasicClusterPresent" 1 ≡ 1
unfolding get lookup
other_type = refl
