-- ===== src/Implcaps.antt =====
-- implcaps/utils.go and the interface ZDAInterface of implcaps/interface.go: what the gateway and
-- its rules give to the implementations of the capabilities.
pub mod Wired
pub mod Recovery
pub mod Examples
use zda.Base.{ℕ, String, Bool, true, false, Option, none, some, Assoc, List, lookup, string_key}
use zda.Monitor.{Transmission, Reporting, PollingConfig, ReportingConfig}
use zda.Monitor.Reports.{ReadRecord}

-- A value of the map of settings, by its dynamic type.
pub data Setting : Type 0 where
  string : String → Setting
  endpoint : ℕ → Setting
  bool : Bool → Setting
  other_setting : Setting

abbrev pub Settings : Type 0
Settings = Assoc String Setting

-- v.(string), v.(zigbee.Endpoint) and v.(bool)
abbrev pub as_string : Setting → Option String
as_string (string s) = some s
as_string _ = none

abbrev pub as_endpoint : Setting → Option ℕ
as_endpoint (endpoint e) = some e
as_endpoint _ = none

abbrev pub as_bool : Setting → Option Bool
as_bool (bool b) = some b
as_bool _ = none

module _ {T : Type 0} where
  abbrev or_default : T → Option T → T
  or_default default none = default
  or_default default (some v) = v

  abbrev asserted : (Setting → Option T) → T → Option Setting → T
  asserted cast default none = default
  asserted cast default (some v) = or_default default (cast v)

  -- Get, at the type that `cast` asserts.
  unfoldable pub get : (Setting → Option T) → Settings → String → T → T
  get cast m k default = asserted cast default (lookup k m)

-- Constants of the package zcl: clusters, attributes, the command of Identify and data types.
pub record Zcl : Type 0 where
  pub basic_id : ℕ
  pub identify_id : ℕ
  pub power_configuration_id : ℕ
  pub temperature_measurement_id : ℕ
  pub relative_humidity_measurement_id : ℕ
  pub pressure_measurement_id : ℕ
  pub measured_temperature : ℕ
  pub measured_humidity : ℕ
  pub measured_pressure : ℕ
  pub zcl_version : ℕ
  pub power_source : ℕ
  pub identify_time : ℕ
  pub identify_command : ℕ
  pub type_unsigned_int8 : ℕ
  pub type_unsigned_int16 : ℕ
  pub type_signed_int16 : ℕ

-- A time.Duration in milliseconds.
abbrev pub one_second : ℕ
one_second = 1000

abbrev pub one_minute : ℕ
one_minute = 60000

abbrev pub five_minutes : ℕ
five_minutes = 300000

-- What ReadAttributes returns: the records or an error.
pub data ReadOutcome (V F : Type 0) : Type 0 where
  read_failed : F → ReadOutcome V F
  answer : List (ReadRecord V) → ReadOutcome V F

-- zcl.Message of a request, as far as a capability sets it.
pub record Request : Type 0 where
  pub cluster_id : ℕ
  pub destination_endpoint : ℕ
  pub command_identifier : ℕ
  pub argument : ℕ

-- ZDAInterface, with the state of the network, which the monitors share. `monitor` is
-- NewAttributeMonitor with Init on a section, and `section` the section as the monitor left it.
pub record ZdaInterface (V : Type 0) : Type 1 where
  pub Net : Type 0
  pub Failure : Type 0
  pub MonitorSection : Type 0
  pub Am : Type 0
  pub no_section : MonitorSection
  pub monitor : MonitorSection → Am
  pub section : Am → MonitorSection
  pub load : Am → Net → Option Failure × Am × Net
  pub attach :
      ℕ → ℕ → ℕ → ℕ → ReportingConfig → PollingConfig → Am → Net → Option Failure × Am × Net
  pub detach : Bool → Am → Net → Option Failure × Am × Net
  pub transmission_lookup : Net → Transmission × Net
  pub bind_node_to_controller : ℕ → ℕ → ℕ → ℕ → Net → Option Failure × Net
  pub configure_reporting : Transmission → ℕ → Reporting → Net → Option Failure × Net
  pub read_attributes : Transmission → ℕ → ℕ → List ℕ → Net → ReadOutcome V Failure × Net
  pub request : Transmission → Request → Net → Option Failure × Net
