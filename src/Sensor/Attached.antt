-- ===== src/Sensor/Attached.antt =====
-- Init, Load, Enumerate and Detach of implcaps/zcl/temperature_sensor/impl.go, and of
-- humidity_sensor and pressure_sensor beside it, over the monitor `am` of the sensor.
use zda.Base.{ℕ, Bool, true, false, false≢true, ◌≡◌, ap, sym, Option, none, some}
use zda.Table.{DetachType, device_removed, no_longer_enumerated, failed_attach}
use zda.Monitor.{
  attempt_configure_reporting, ReportingConfig, poll_if_reporting_failed, PollingConfig,
}
use zda.Implcaps.{Settings, as_endpoint, get, Zcl, one_minute, five_minutes, ZdaInterface}
use zda.Sensor.{Kind, temperature, humidity, pressure}

-- detachType == implcaps.NoLongerEnumerated
abbrev pub is_no_longer_enumerated : DetachType → Bool
is_no_longer_enumerated no_longer_enumerated = true
is_no_longer_enumerated device_removed = false
is_no_longer_enumerated failed_attach = false

-- The cluster, the attribute and the data type of the Attach in each Enumerate.
abbrev pub cluster : Zcl → Kind → ℕ
cluster zcl temperature = zcl.temperature_measurement_id
cluster zcl humidity = zcl.relative_humidity_measurement_id
cluster zcl pressure = zcl.pressure_measurement_id

abbrev pub measured : Zcl → Kind → ℕ
measured zcl temperature = zcl.measured_temperature
measured zcl humidity = zcl.measured_humidity
measured zcl pressure = zcl.measured_pressure

abbrev pub data_type : Zcl → Kind → ℕ
data_type zcl temperature = zcl.type_signed_int16
data_type zcl humidity = zcl.type_unsigned_int16
data_type zcl pressure = zcl.type_signed_int16

abbrev reportable_change : Kind → ℕ
reportable_change temperature = 10
reportable_change humidity = 100
reportable_change pressure = 10

abbrev pub reporting : Kind → ReportingConfig
reporting kind = record {
  mode = attempt_configure_reporting;
  minimum_interval = one_minute;
  maximum_interval = five_minutes;
  reportable_change = some (reportable_change kind);
}

abbrev pub polling : PollingConfig
polling = record { mode = poll_if_reporting_failed; interval = one_minute }

module _ {V : Type 0} (zi : ZdaInterface V) where
  open zi use {Net, Failure, MonitorSection, Am}

  -- What Load and Enumerate return, with what they change.
  abbrev pub Returned : Type 0
  Returned = (Bool × Option Failure) × Am × Net

  -- if err := …; err != nil { return false, err }; return true, nil
  abbrev pub unless_failed : Option Failure × Am × Net → Returned
  unless_failed (none, am, net) = ((true, none), am, net)
  unless_failed (some e, am, net) = ((false, some e), am, net)

  -- Init
  unfoldable pub init : MonitorSection → Am
  init s = zi.monitor s

  -- Load
  unfoldable pub load : Am → Net → Returned
  load am net = unless_failed (zi.load am net)

  -- Enumerate
  unfoldable pub enumerate : Zcl → Kind → Settings → Am → Net → Returned
  enumerate zcl kind m am net = unless_failed (
      zi.attach (get as_endpoint m "ZigbeeEndpoint" 1) (cluster zcl kind) (measured zcl kind)
        (data_type zcl kind) (reporting kind) polling am net)

  -- Detach
  unfoldable pub detach : DetachType → Am → Net → Option Failure × Am × Net
  detach type am net = zi.detach (is_no_longer_enumerated type) am net

  pub unless_failed-true :
      (o : Option Failure × Am × Net) (e : Option Failure) (am : Am) (net : Net)
      → unless_failed o ≡ ((true, e), am, net)
      → (o ≡ (none, am, net)) × (e ≡ none)
  unless_failed-true (none, am1, net1) e am net q =
      (ap (λ r. (none, r.1, r.2)) q, sym (ap (λ r. r.0.1) q))
  unless_failed-true (some x, am1, net1) e am net q = absurd (false≢true (ap (λ r. r.0.0) q))
