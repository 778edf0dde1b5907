-- ===== src/DeviceWorkarounds.antt =====
-- implcaps/generic/device_workarounds/impl.go: the workarounds that the rules enable for a device.
pub mod Recovered
mod Examples
use text.Mathlib.Text.{starts_with}
use zda.Base.{
  ℕ, String, Bool, true, false, Option, none, some, List, [], ◌∷◌, ◌++◌, keys, elem, ◌==◌,
  if◌then◌else◌, string_key,
}
use zda.Table.{DetachType}
use zda.Monitor.{Transmission, Reporting}
use zda.Implcaps.{Settings, as_endpoint, get, Zcl, ZdaInterface}

-- Implementation. `workarounds` is the sections in the section "Workarounds".
pub record DeviceWorkarounds : Type 0 where
  pub workarounds : List String
  pub workarounds_enabled : List String

-- NewDeviceWorkaround and Init
unfoldable pub init : List String → DeviceWorkarounds
init workarounds = record { workarounds = workarounds; workarounds_enabled = [] }

-- Section, that makes a section when there is none.
abbrev pub section : String → List String → List String
section k ks = if elem k ks then ks else ks ++ k ∷ []

abbrev pub keep_alive : String
keep_alive = "ZCLReportingKeepAlive"

abbrev pub enable_keep_alive : String
enable_keep_alive = "EnableZCLReportingKeepAlive"

abbrev pub enable : String → DeviceWorkarounds → DeviceWorkarounds
enable k i = record {
  workarounds = section k i.workarounds;
  workarounds_enabled = i.workarounds_enabled ++ k ∷ [];
}

-- Enabled
unfoldable pub enabled : DeviceWorkarounds → List String
enabled i = i.workarounds_enabled

module _ {F : Type 0} where
  -- loadWorkaround
  unfoldable pub load_workaround : String → Option F
  load_workaround workaround = none

  abbrev append_unless : Option F → String → DeviceWorkarounds → Option F × DeviceWorkarounds
  append_unless none workaround i =
      (none, record i { workarounds_enabled = i.workarounds_enabled ++ workaround ∷ [] })
  append_unless (some e) workaround i = (some e, i)

  abbrev unless_stopped :
      Option F × DeviceWorkarounds
      → (DeviceWorkarounds → Option F × DeviceWorkarounds)
      → Option F × DeviceWorkarounds
  unless_stopped (none, i) continue = continue i
  unless_stopped (some e, i) continue = (some e, i)

  -- The loop of Load.
  unfoldable pub load_all : List String → DeviceWorkarounds → Option F × DeviceWorkarounds
  load_all [] i = (none, i)
  load_all (w ∷ ws) i = unless_stopped (append_unless (load_workaround w) w i) (load_all ws)

  abbrev pub loaded : Option F × DeviceWorkarounds → (Bool × Option F) × DeviceWorkarounds
  loaded (none, i) = ((true, none), i)
  loaded (some e, i) = ((false, some e), i)

  -- Load
  unfoldable pub load : DeviceWorkarounds → (Bool × Option F) × DeviceWorkarounds
  load i = loaded (load_all i.workarounds i)

  -- detachWorkaround
  unfoldable pub detach_workaround : DetachType → String → Option F
  detach_workaround type workaround = none

  abbrev first_error : Option F → Option F → Option F
  first_error none rest = rest
  first_error (some e) rest = some e

  -- The loop of Detach.
  unfoldable pub detach_all : DetachType → List String → Option F
  detach_all type [] = none
  detach_all type (w ∷ ws) = first_error (detach_workaround type w) (detach_all type ws)

  -- Detach
  unfoldable pub detach : DetachType → DeviceWorkarounds → Option F
  detach type i = detach_all type i.workarounds_enabled

module _ {V : Type 0} (zi : ZdaInterface V) where
  open zi use {Net, Failure}

  abbrev pub Returned : Type 0
  Returned = Option Failure × DeviceWorkarounds × Net

  abbrev pub and_then : Returned → (DeviceWorkarounds → Net → Returned) → Returned
  and_then (none, i, net) continue = continue i net
  and_then (some e, i, net) continue = (some e, i, net)

  abbrev pub at : DeviceWorkarounds → Option Failure × Net → Returned
  at i (e, net) = (e, i, net)

  abbrev pub keep_alive_reporting : Zcl → Reporting
  keep_alive_reporting zcl = record {
    cluster_id = zcl.basic_id;
    attribute_id = zcl.zcl_version;
    attribute_data_type = zcl.type_unsigned_int8;
    minimum_interval = 60;
    maximum_interval = 240;
    reportable_change = some 0;
  }

  abbrev pub enabling : DeviceWorkarounds → Net → Returned
  enabling i net = (none, enable keep_alive i, net)

  abbrev pub configuring : Zcl → ℕ → Transmission → DeviceWorkarounds → Net → Returned
  configuring zcl e t i net =
      and_then (at i (zi.configure_reporting t e (keep_alive_reporting zcl) net)) enabling

  abbrev pub binding : Zcl → ℕ → DeviceWorkarounds → Transmission × Net → Returned
  binding zcl e i (t, net) =
      and_then
        (at i (zi.bind_node_to_controller t.ieee_address t.local_endpoint e zcl.basic_id net))
        (configuring zcl e t)

  -- enumerateZCLReportingKeepAlive
  unfoldable pub enumerate_keep_alive : Zcl → Settings → DeviceWorkarounds → Net → Returned
  enumerate_keep_alive zcl m i net =
      binding zcl (get as_endpoint m "ZigbeeEndpoint" 1) i (zi.transmission_lookup net)

  -- enumerateWorkaround
  unfoldable pub enumerate_workaround : Zcl → Settings → String → DeviceWorkarounds → Net → Returned
  enumerate_workaround zcl m workaround i net =
      if workaround == enable_keep_alive then enumerate_keep_alive zcl m i net else (none, i, net)

  abbrev pub if_enables : Zcl → Settings → String → DeviceWorkarounds → Net → Returned
  if_enables zcl m workaround i net =
      if starts_with workaround "Enable"
      then enumerate_workaround zcl m workaround i net
      else (none, i, net)

  -- The loop of Enumerate over the names of the settings.
  unfoldable pub enumerate_all : Zcl → Settings → List String → DeviceWorkarounds → Net → Returned
  enumerate_all zcl m [] i net = (none, i, net)
  enumerate_all zcl m (w ∷ ws) i net = and_then (if_enables zcl m w i net) (enumerate_all zcl m ws)

  abbrev pub enumerated : Returned → (Bool × Option Failure) × DeviceWorkarounds × Net
  enumerated (none, i, net) = ((true, none), i, net)
  enumerated (some e, i, net) = ((false, some e), i, net)

  -- Enumerate, that first forgets what was enabled.
  unfoldable pub enumerate :
      Zcl → Settings → DeviceWorkarounds → Net → (Bool × Option Failure) × DeviceWorkarounds × Net
  enumerate zcl m i net =
      enumerated
        (enumerate_all zcl m (keys m) (record { workarounds = []; workarounds_enabled = [] }) net)
