-- ===== src/PowerSupply/Recovered.antt =====
-- What Enumerate of a power supply leaves for the next process.
use zda.Base.{Bool, true, false, ◌≡◌, refl, ap, sym, ◌∙◌, Option, none, some, none≢some}
use zda.Sensor.{Value}
use zda.Implcaps.{
  Settings, as_bool, as_endpoint, get, ReadOutcome, read_failed, answer, Zcl, ZdaInterface,
}
use zda.Implcaps.Recovery.{Recovers}
use zda.PowerSupply.Layout.{battery3, of_source}
use zda.PowerSupply.{PowerSupply, Attributes}
use zda.PowerSupply.Cluster.{by_answer}
use zda.PowerSupply.Enumerate.{
  EnumerateError, basic_cluster, power_configuration_cluster, steps, On, basic_read,
  enumerate_basic_cluster, run, enumerate_power_configuration_cluster, Result, joined,
  enumerate_basic, enumerate_power_configuration, at_endpoint, enumerate,
}
use zda.PowerSupply.Loading.{or_false}
use zda.PowerSupply.Sound.{by_answer-IsBasic}
use zda.PowerSupply.Written.{run_steps-Written}
use zda.PowerSupply.Stored.{Sound, IsRecoverable, store_basic-IsRecoverable}
use zda.PowerSupply.Agreed.{all_read-SoundOn, run-SoundOn, run-KeepsMains, run_steps-Keeps}

module _ (F : Type 0) (zi : ZdaInterface Value) (zcl : Zcl) (a : Attributes) where
  open zi use {Net, Failure, Am}

  basic_read-IsRecoverable :
      (i : PowerSupply F Am) (r : ReadOutcome Value Failure × Net)
      → IsRecoverable F zi zcl a i
      → (basic_read F zi zcl a i r).0.1 ≡ none
      → IsRecoverable F zi zcl a (basic_read F zi zcl a i r).1
  basic_read-IsRecoverable i (read_failed e, net) k fine = absurd (none≢some (sym fine))
  basic_read-IsRecoverable i (answer rs, net) (sound, mains, battery, written) fine =
      let found = (by_answer zcl rs i.present).1 in
      let (third, same, grows) = by_answer-IsBasic i.s.present zcl rs i.present in
      store_basic-IsRecoverable F zi zcl a (record i { present = found }) (grows sound)
        (λ x has. written x (ap (of_source x) (sym same) ∙ has))
        (λ has. battery battery3 (sym third ∙ has))

  enumerate_basic_cluster-IsRecoverable :
      (i : PowerSupply F Am) (net : Net)
      → IsRecoverable F zi zcl a i
      → (enumerate_basic_cluster F zi zcl a i net).0.1 ≡ none
      → IsRecoverable F zi zcl a (enumerate_basic_cluster F zi zcl a i net).1
  unfolding enumerate_basic_cluster
  enumerate_basic_cluster-IsRecoverable i net k fine = basic_read-IsRecoverable i _ k fine

  run_steps-IsRecoverable :
      (p : On F zi zcl a)
      → Recovers zi
      → Sound F zi zcl a p.i
      → p.i.s.present.mains ≡ some p.i.present.mains
      → (run F zi zcl a steps p).last_error ≡ none
      → IsRecoverable F zi zcl a (run F zi zcl a steps p).i
  run_steps-IsRecoverable p r sound mains fine = (
    run-SoundOn F zi zcl a steps p sound,
    λ has. ap or_false (run-KeepsMains F zi zcl a steps p mains) ∙ has,
    λ n has. ap or_false (run_steps-Keeps F zi zcl a n p) ∙ has,
    λ x. run_steps-Written F zi zcl a x p r fine,
  )

  enumerate_power_configuration_cluster-IsRecoverable :
      (i : PowerSupply F Am) (net : Net)
      → Recovers zi
      → IsRecoverable F zi zcl a i
      → (enumerate_power_configuration_cluster F zi zcl a i net).0.1 ≡ none
      → IsRecoverable F zi zcl a (enumerate_power_configuration_cluster F zi zcl a i net).1
  unfolding enumerate_power_configuration_cluster
  enumerate_power_configuration_cluster-IsRecoverable i net r k fine =
      let (t, net1) = zi.transmission_lookup net in
      let (m, n, x) =
        all_read-SoundOn F zi zcl a t
          (record { i = i; net = net1; attach = false; last_error = none }) k.0 in
      run_steps-IsRecoverable _ r (λ has. has, n, x) refl fine

  -- The outcome of a part of Enumerate leaves something to recover when it has no error.
  abbrev GoesWell : Result F zi zcl a → Type 0
  GoesWell o = o.0.1 ≡ none → IsRecoverable F zi zcl a o.1

  joined-GoesWell :
      (failed : Failure → EnumerateError Failure) (before : Bool × Option (EnumerateError Failure))
      (o : (Bool × Option Failure) × PowerSupply F Am × Net)
      → (before.1 ≡ none → o.0.1 ≡ none → IsRecoverable F zi zcl a o.1)
      → GoesWell (joined F zi zcl a failed before o)
  joined-GoesWell failed (c, e) ((d, some x), i, net) k fine = absurd (none≢some (sym fine))
  joined-GoesWell failed (c, e) ((true, none), i, net) k fine = k fine refl
  joined-GoesWell failed (c, e) ((false, none), i, net) k fine = k fine refl

  enumerate_basic-GoesWell :
      (present : Bool) (i : PowerSupply F Am) (net : Net)
      → IsRecoverable F zi zcl a i
      → GoesWell (enumerate_basic F zi zcl a present ((false, none), i, net))
  enumerate_basic-GoesWell false i net k = λ _. k
  enumerate_basic-GoesWell true i net k =
      joined-GoesWell basic_cluster (false, none) (enumerate_basic_cluster F zi zcl a i net)
        (λ _. enumerate_basic_cluster-IsRecoverable i net k)

  enumerate_power_configuration-GoesWell :
      (present : Bool) (o : Result F zi zcl a)
      → Recovers zi
      → GoesWell o
      → GoesWell (enumerate_power_configuration F zi zcl a present o)
  enumerate_power_configuration-GoesWell false o r k = k
  enumerate_power_configuration-GoesWell true ((b, e), i, net) r k =
      joined-GoesWell power_configuration_cluster (b, e)
        (enumerate_power_configuration_cluster F zi zcl a i net)
        (λ fine. enumerate_power_configuration_cluster-IsRecoverable i net r (k fine))

  -- An Enumerate without an error leaves a recoverable power supply recoverable.
  pub enumerate-IsRecoverable :
      (m : Settings) (i : PowerSupply F Am) (net : Net)
      → Recovers zi
      → IsRecoverable F zi zcl a i
      → (enumerate F zi zcl a m i net).0.1 ≡ none
      → IsRecoverable F zi zcl a (enumerate F zi zcl a m i net).1
  unfolding enumerate
  enumerate-IsRecoverable m i net r k =
      let start = at_endpoint F zi zcl a (get as_endpoint m "ZigbeeEndpoint" 1) i in
      enumerate_power_configuration-GoesWell
        (get as_bool m "ZigbeePowerConfigurationClusterPresent" false) _ r
        (enumerate_basic-GoesWell (get as_bool m "ZigbeeBasicClusterPresent" false) start net k)
