-- ===== src/PowerSupply/Frequency.antt =====
-- The monitor of the mains frequency, which Enumerate never attaches.
use zda.Base.{
  Bool, true, false, ◌≡◌, refl, ◌∙◌, Option, none, some, List, [], ◌∷◌, Bool-cases, inl, inr,
}
use zda.Sensor.{Value}
use zda.Monitor.{Transmission}
use zda.Implcaps.{
  Settings, as_bool, as_endpoint, get, ReadOutcome, read_failed, answer, Zcl, ZdaInterface,
}
use zda.PowerSupply.Layout.{
  Battery, battery1, battery2, battery3, Source, mains_voltage, mains_frequency, battery_voltage,
  battery_percentage, of_battery, of_source,
}
use zda.PowerSupply.{PowerSupply, Attributes}
use zda.PowerSupply.Cluster.{by_answer, store_mains, store_battery, store_basic}
use zda.PowerSupply.Enumerate.{
  EnumerateError, basic_cluster, power_configuration_cluster, Step, attach_monitor, keep_battery,
  steps, On, basic_read, enumerate_basic_cluster, mains_read, read_mains, battery_read,
  read_battery, all_read, attach_on, step, run, mains_kept, enumerate_power_configuration_cluster,
  Result, joined, enumerate_basic, enumerate_power_configuration, at_endpoint, enumerate,
}

module _ (F : Type 0) (zi : ZdaInterface Value) (zcl : Zcl) (a : Attributes) where
  open zi use {Net, Failure, Am}

  abbrev pub frequency_monitor : PowerSupply F Am → Am
  frequency_monitor i = i.monitors.mains_frequency

  frequency-attach_on :
      (y : Source) (p : On F zi zcl a)
      → frequency_monitor (attach_on F zi zcl a y p).i ≡ frequency_monitor p.i
  frequency-attach_on mains_voltage p = refl
  frequency-attach_on mains_frequency p = refl
  frequency-attach_on (battery_voltage n) p = refl
  frequency-attach_on (battery_percentage n) p = refl

  frequency-step :
      (x : Step) (p : On F zi zcl a)
      → frequency_monitor (step F zi zcl a x p).i ≡ frequency_monitor p.i
  unfolding step
  frequency-step (attach_monitor y) p = elim (Bool-cases (of_source y p.i.present.sources)) [
    | inl has ↦ rw has (frequency-attach_on y p)
    | inr has_not ↦ rw has_not refl
  ]
  frequency-step (keep_battery n) p = refl

  frequency-run :
      (xs : List Step) (p : On F zi zcl a)
      → frequency_monitor (run F zi zcl a xs p).i ≡ frequency_monitor p.i
  unfolding run
  frequency-run [] p = refl
  frequency-run (x ∷ xs) p = frequency-run xs (step F zi zcl a x p) ∙ frequency-step x p

  frequency-mains_read :
      (p : On F zi zcl a) (r : ReadOutcome Value Failure × Net)
      → frequency_monitor (mains_read F zi zcl a p r).i ≡ frequency_monitor p.i
  frequency-mains_read p (read_failed e, net) = refl
  frequency-mains_read p (answer rs, net) = refl

  frequency-battery_read :
      (n : Battery) (p : On F zi zcl a) (r : ReadOutcome Value Failure × Net)
      → frequency_monitor (battery_read F zi zcl a n p r).i ≡ frequency_monitor p.i
  frequency-battery_read n p (read_failed e, net) = refl
  frequency-battery_read n p (answer rs, net) = refl

  frequency-read_mains :
      (t : Transmission) (p : On F zi zcl a)
      → frequency_monitor (read_mains F zi zcl a t p).i ≡ frequency_monitor p.i
  unfolding read_mains
  frequency-read_mains t p = frequency-mains_read p _

  frequency-read_battery :
      (t : Transmission) (n : Battery) (p : On F zi zcl a)
      → frequency_monitor (read_battery F zi zcl a t n p).i ≡ frequency_monitor p.i
  unfolding read_battery
  frequency-read_battery t n p = frequency-battery_read n p _

  frequency-all_read :
      (t : Transmission) (p : On F zi zcl a)
      → frequency_monitor (all_read F zi zcl a t p).i ≡ frequency_monitor p.i
  frequency-all_read t p =
      let p1 = read_mains F zi zcl a t p in
      let p2 = read_battery F zi zcl a t battery1 p1 in
      let p3 = read_battery F zi zcl a t battery2 p2 in
      frequency-read_battery t battery3 p3
      ∙ frequency-read_battery t battery2 p2
      ∙ frequency-read_battery t battery1 p1
      ∙ frequency-read_mains t p

  frequency-cluster :
      (i : PowerSupply F Am) (net : Net)
      → frequency_monitor (enumerate_power_configuration_cluster F zi zcl a i net).1
        ≡ frequency_monitor i
  unfolding enumerate_power_configuration_cluster
  frequency-cluster i net =
      let (t, net1) = zi.transmission_lookup net in
      let p : On F zi zcl a = record { i = i; net = net1; attach = false; last_error = none } in
      frequency-run steps (mains_kept F zi zcl a (all_read F zi zcl a t p)) ∙ frequency-all_read t p

  frequency-store_basic :
      (i : PowerSupply F Am) → frequency_monitor (store_basic i) ≡ frequency_monitor i
  unfolding store_basic
  frequency-store_basic i =
      of_battery_lem battery2 (store_battery battery1 (store_mains i))
      ∙ of_battery_lem battery1 (store_mains i)
      ∙ of_mains_lem i
    where
      of_battery_lem :
          (n : Battery) (j : PowerSupply F Am)
          → frequency_monitor (store_battery n j) ≡ frequency_monitor j
      of_battery_lem n j = elim (Bool-cases (of_battery n j.present.battery)) [
        | inl has ↦ rw (has, store_battery) refl
        | inr has_not ↦ rw (has_not, store_battery) refl
      ]

      of_mains_lem :
          (j : PowerSupply F Am) → frequency_monitor (store_mains j) ≡ frequency_monitor j
      of_mains_lem j = elim (Bool-cases j.present.mains) [
        | inl has ↦ rw (has, store_mains) refl
        | inr has_not ↦ rw (has_not, store_mains) refl
      ]

  frequency-basic_read :
      (i : PowerSupply F Am) (r : ReadOutcome Value Failure × Net)
      → frequency_monitor (basic_read F zi zcl a i r).1 ≡ frequency_monitor i
  frequency-basic_read i (read_failed e, net) = frequency-store_basic i
  frequency-basic_read i (answer rs, net) =
      frequency-store_basic (record i { present = (by_answer zcl rs i.present).1 })

  frequency-joined :
      (failed : Failure → EnumerateError Failure) (before : Bool × Option (EnumerateError Failure))
      (o : (Bool × Option Failure) × PowerSupply F Am × Net)
      → frequency_monitor (joined F zi zcl a failed before o).1 ≡ frequency_monitor o.1
  frequency-joined failed (c, e) ((d, some x), i, net) = refl
  frequency-joined failed (c, e) ((true, none), i, net) = refl
  frequency-joined failed (c, e) ((false, none), i, net) = refl

  frequency-basic :
      (present : Bool) (o : Result F zi zcl a)
      → frequency_monitor (enumerate_basic F zi zcl a present o).1 ≡ frequency_monitor o.1
  unfolding enumerate_basic_cluster
  frequency-basic false o = refl
  frequency-basic true (r, i, net) =
      frequency-joined basic_cluster r (enumerate_basic_cluster F zi zcl a i net)
      ∙ frequency-basic_read i _

  frequency-power_configuration :
      (present : Bool) (o : Result F zi zcl a)
      → frequency_monitor (enumerate_power_configuration F zi zcl a present o).1
        ≡ frequency_monitor o.1
  frequency-power_configuration false o = refl
  frequency-power_configuration true (r, i, net) =
      frequency-joined power_configuration_cluster r
        (enumerate_power_configuration_cluster F zi zcl a i net)
      ∙ frequency-cluster i net

  pub frequency-enumerate :
      (m : Settings) (i : PowerSupply F Am) (net : Net)
      → frequency_monitor (enumerate F zi zcl a m i net).1 ≡ frequency_monitor i
  unfolding enumerate
  frequency-enumerate m i net =
      let start = at_endpoint F zi zcl a (get as_endpoint m "ZigbeeEndpoint" 1) i in
      let basic = get as_bool m "ZigbeeBasicClusterPresent" false in
      frequency-power_configuration (get as_bool m "ZigbeePowerConfigurationClusterPresent" false)
        (enumerate_basic F zi zcl a basic ((false, none), start, net))
      ∙ frequency-basic basic ((false, none), start, net)
