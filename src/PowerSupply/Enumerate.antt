-- ===== src/PowerSupply/Enumerate.antt =====
-- The calls of enumerateBasicCluster and enumeratePowerConfigurationCluster, and Enumerate, of
-- implcaps/zcl/power_supply/impl.go.
use zda.Base.{ℕ, Bool, true, false, Option, none, some, List, [], ◌∷◌, if◌then◌else◌}
use zda.Sensor.{Value}
use zda.Monitor.{Transmission}
use zda.Implcaps.{
  Settings, as_endpoint, as_bool, get, ReadOutcome, read_failed, answer, Zcl, ZdaInterface,
}
use zda.PowerSupply.Layout.{
  Battery, battery1, battery2, battery3, Source, mains_voltage, mains_frequency, battery_voltage,
  battery_percentage, of_battery, of_source, with_source,
}
use zda.PowerSupply.{Present, PowerSupply, Attributes}
use zda.PowerSupply.Cluster.{
  by_answer, mains_answers, battery_answers, set_mains, set_battery, set_source, store_basic, slot,
  attribute_type, reporting, polling,
}

pub data EnumerateError (F : Type 0) : Type 0 where
  basic_cluster power_configuration_cluster : F → EnumerateError F

-- What the parts of the enumeration of the power configuration cluster change.
pub record Progress (F : Type 0) (Am : Type 0) (Failure : Type 0) (Net : Type 0) : Type 0 where
  pub i : PowerSupply F Am
  pub net : Net
  pub attach : Bool
  pub last_error : Option Failure

-- The steps after the reads, in the order of the code.
pub data Step : Type 0 where
  attach_monitor : Source → Step
  keep_battery : Battery → Step

abbrev pub steps : List Step
steps =
    attach_monitor mains_voltage
    ∷ attach_monitor mains_frequency
    ∷ keep_battery battery1
    ∷ attach_monitor (battery_percentage battery1)
    ∷ attach_monitor (battery_voltage battery1)
    ∷ keep_battery battery2
    ∷ attach_monitor (battery_percentage battery2)
    ∷ attach_monitor (battery_voltage battery2)
    ∷ keep_battery battery3
    ∷ attach_monitor (battery_percentage battery3)
    ∷ attach_monitor (battery_voltage battery3)
    ∷ []

module _ (F : Type 0) (zi : ZdaInterface Value) (zcl : Zcl) (a : Attributes) where
  open zi use {Net, Failure, Am}

  abbrev pub On : Type 0
  On = Progress F Am Failure Net

  abbrev pub flagged : Bool × Present Bool → PowerSupply F Am → PowerSupply F Am
  flagged r i = record i { present = r.1 }

  -- `lastError = err` if there is one.
  abbrev pub later_error : Option Failure → Option Failure → Option Failure
  later_error none before = before
  later_error (some e) before = some e

  abbrev pub basic_read :
      PowerSupply F Am
      → ReadOutcome Value Failure × Net
      → (Bool × Option Failure) × PowerSupply F Am × Net
  basic_read i (read_failed e, net) = ((false, some e), store_basic i, net)
  basic_read i (answer rs, net) =
      let r = by_answer zcl rs i.present in ((r.0, none), store_basic (flagged r i), net)

  -- enumerateBasicCluster
  unfoldable pub enumerate_basic_cluster :
      PowerSupply F Am → Net → (Bool × Option Failure) × PowerSupply F Am × Net
  enumerate_basic_cluster i net =
      let (t, net1) = zi.transmission_lookup net in
      basic_read i
        (zi.read_attributes t zcl.basic_id i.remote_endpoint (zcl.power_source ∷ []) net1)

  abbrev pub mains_read : On → ReadOutcome Value Failure × Net → On
  mains_read p (read_failed e, net) = record p { net = net; last_error = some e }
  mains_read p (answer rs, net) =
      let r = mains_answers a rs (p.attach, p.i.present) in
      record p { net = net; attach = r.0; i = flagged r p.i }

  unfoldable pub read_mains : Transmission → On → On
  read_mains t p = mains_read p (
      zi.read_attributes t zcl.power_configuration_id p.i.remote_endpoint
        (a.mains_voltage ∷ a.mains_frequency ∷ []) p.net)

  abbrev pub battery_read : Battery → On → ReadOutcome Value Failure × Net → On
  battery_read n p (read_failed e, net) = record p { net = net; last_error = some e }
  battery_read n p (answer rs, net) =
      let r = battery_answers a n rs (p.attach, p.i.present) in
      record p { net = net; attach = r.0; i = flagged r p.i }

  -- One pass of the first loop; only the sequence of the second lookup is used.
  unfoldable pub read_battery : Transmission → Battery → On → On
  read_battery t n p =
      let (t1, net) = zi.transmission_lookup p.net in
      let t2 : Transmission = record t { seq = t1.seq } in
      battery_read n p (
        zi.read_attributes t2 zcl.power_configuration_id p.i.remote_endpoint
          (of_battery n a.battery_voltage ∷ of_battery n a.battery_percentage ∷ []) net)

  abbrev attached_with : Source → On → Option Failure × Am × Net → On
  attached_with source p (e, am, net) = record p {
    i = record p.i { monitors = with_source (slot source) am p.i.monitors };
    net = net;
    last_error = later_error e p.last_error;
  }

  abbrev pub attach_on : Source → On → On
  attach_on source p =
      let i1 = set_source source p.i in
      attached_with source (record p { i = i1 })
        (zi.attach i1.remote_endpoint zcl.power_configuration_id (of_source source a)
          (attribute_type zcl source) (reporting source) polling
          (of_source (slot source) i1.monitors) p.net)

  unfoldable pub step : Step → On → On
  step (attach_monitor source) p =
      if of_source source p.i.present.sources then attach_on source p else p
  step (keep_battery n) p = record p { i = set_battery n (of_battery n p.i.present.battery) p.i }

  unfoldable pub run : List Step → On → On
  run [] p = p
  run (x ∷ xs) p = run xs (step x p)

  abbrev pub all_read : Transmission → On → On
  all_read t p =
      read_battery t battery3 (read_battery t battery2 (read_battery t battery1 (read_mains t p)))

  abbrev pub mains_kept : On → On
  mains_kept p = record p { i = set_mains p.i.present.mains p.i }

  abbrev pub outcome : On → (Bool × Option Failure) × PowerSupply F Am × Net
  outcome p = ((p.attach, p.last_error), p.i, p.net)

  -- enumeratePowerConfigurationCluster
  unfoldable pub enumerate_power_configuration_cluster :
      PowerSupply F Am → Net → (Bool × Option Failure) × PowerSupply F Am × Net
  enumerate_power_configuration_cluster i net =
      let (t, net1) = zi.transmission_lookup net in
      outcome (
        run steps (
          mains_kept
            (all_read t (record { i = i; net = net1; attach = false; last_error = none }))))

  abbrev pub Result : Type 0
  Result = (Bool × Option (EnumerateError Failure)) × PowerSupply F Am × Net

  -- What Enumerate makes of what a cluster gave: `attach` and `lastError` before and after.
  abbrev pub joined :
      (Failure → EnumerateError Failure)
      → Bool × Option (EnumerateError Failure)
      → (Bool × Option Failure) × PowerSupply F Am × Net
      → Result
  joined failed (attach, e) ((b, some x), i, net) = ((attach, some (failed x)), i, net)
  joined failed (attach, e) ((true, none), i, net) = ((true, e), i, net)
  joined failed (attach, e) ((false, none), i, net) = ((attach, e), i, net)

  abbrev pub enumerate_basic : Bool → Result → Result
  enumerate_basic true (r, i, net) = joined basic_cluster r (enumerate_basic_cluster i net)
  enumerate_basic false r = r

  abbrev pub enumerate_power_configuration : Bool → Result → Result
  enumerate_power_configuration true (r, i, net) =
      joined power_configuration_cluster r (enumerate_power_configuration_cluster i net)
  enumerate_power_configuration false r = r

  abbrev pub at_endpoint : ℕ → PowerSupply F Am → PowerSupply F Am
  at_endpoint e i = record i { remote_endpoint = e; s = record i.s { remote_endpoint = some e } }

  -- Enumerate
  unfoldable pub enumerate : Settings → PowerSupply F Am → Net → Result
  enumerate m i net =
      let i1 = at_endpoint (get as_endpoint m "ZigbeeEndpoint" 1) i in
      enumerate_power_configuration (get as_bool m "ZigbeePowerConfigurationClusterPresent" false)
        (enumerate_basic (get as_bool m "ZigbeeBasicClusterPresent" false) ((false, none), i1, net))
