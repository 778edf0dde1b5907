-- ===== src/PowerSupply/Unloaded.antt =====
-- Load of a power supply with a mains frequency.
use zda.Base.{
  Bool, true, false, ◌≡◌, refl, sym, ◌∙◌, Option, none, some, none≢some, false≢true, ◌≢◌,
  if◌then◌else◌,
}
use zda.Sensor.{Value}
use zda.Implcaps.{Settings, Zcl, ZdaInterface}
use zda.Implcaps.Recovery.{Recovers}
use zda.PowerSupply.Layout.{mains_voltage, mains_frequency}
use zda.PowerSupply.{PowerSupply, Attributes}
use zda.PowerSupply.Enumerate.{enumerate}
use zda.PowerSupply.Loading.{
  or_false, init, Loaded, loaded, load_one, unless_failed, read_mains_flags, returned, load,
}
use zda.PowerSupply.Stored.{IsRecoverable}
use zda.PowerSupply.Recovered.{enumerate-IsRecoverable}
use zda.PowerSupply.Frequency.{frequency_monitor, frequency-enumerate}
use zda.PowerSupply.Restart.{reinitialised}

module _ (F : Type 0) (zi : ZdaInterface Value) (zcl : Zcl) (a : Attributes) where
  open zi use {Net, Failure, Am}

  -- Load fails when the key of the frequency is set and its monitor was never attached.
  abbrev Fails : Loaded F zi → Type 0
  Fails o = (returned F zi o).0.0 ≡ false

  unless_failed-Fails :
      (o : Loaded F zi) (rest : PowerSupply F Am → Net → Loaded F zi)
      → (o.0 ≡ none → Fails (rest o.1 o.2))
      → Fails (unless_failed F zi o rest)
  unless_failed-Fails (none, i, net) rest k = k refl
  unless_failed-Fails (some e, i, net) rest k = refl

  Fails-failed :
      (o : Loaded F zi) (rest : PowerSupply F Am → Net → Loaded F zi)
      → o.0 ≢ none
      → Fails (unless_failed F zi o rest)
  Fails-failed (none, i, net) rest k = absurd (k refl)
  Fails-failed (some e, i, net) rest k = refl

  abbrev SameFrequency : PowerSupply F Am → PowerSupply F Am → Type 0
  SameFrequency i j =
      (j.present.sources.mains_frequency ≡ i.present.sources.mains_frequency)
      × (frequency_monitor F zi zcl a j ≡ frequency_monitor F zi zcl a i)

  loaded-same :
      (i : PowerSupply F Am) (o : Option Failure × Am × Net)
      → SameFrequency i (loaded F zi mains_voltage i o).1
  loaded-same i (none, am, net) = (refl, refl)
  loaded-same i (some e, am, net) = (refl, refl)

  load_one-same :
      (i : PowerSupply F Am) (net : Net) → SameFrequency i (load_one F zi mains_voltage i net).1
  unfolding load_one
  load_one-same i net = by_flag i.present.sources.mains_voltage
    where
      by_flag :
          (has : Bool)
          → SameFrequency i
              (if has
                then loaded F zi mains_voltage i (zi.load i.monitors.mains_voltage net)
                else (none, i, net)).1
      by_flag true = loaded-same i _
      by_flag false = (refl, refl)

  loaded-failed :
      (i : PowerSupply F Am) (o : Option Failure × Am × Net)
      → o.0 ≢ none
      → (loaded F zi mains_frequency i o).0 ≢ none
  loaded-failed i (none, am, net) k = absurd (k refl)
  loaded-failed i (some e, am, net) k = λ q. none≢some (sym q)

  load_one-failed :
      (i : PowerSupply F Am) (net : Net)
      → i.present.sources.mains_frequency ≡ true
      → (zi.load (frequency_monitor F zi zcl a i) net).0 ≢ none
      → (load_one F zi mains_frequency i net).0 ≢ none
  unfolding load_one
  load_one-failed i net has k = by_flag i.present.sources.mains_frequency has
    where
      by_flag :
          (b : Bool)
          → b ≡ true
          → (if b
              then loaded F zi mains_frequency i (zi.load (frequency_monitor F zi zcl a i) net)
              else (none, i, net)).0
            ≢ none
      by_flag true q = loaded-failed i (zi.load (frequency_monitor F zi zcl a i) net) k
      by_flag false q = absurd (false≢true q)

  load-Fails :
      (i : PowerSupply F Am) (later : Net)
      → or_false i.s.present.sources.mains_frequency ≡ true
      → ((net : Net) → (zi.load (frequency_monitor F zi zcl a i) net).0 ≢ none)
      → (load F zi i later).0.0 ≡ false
  unfolding load
  load-Fails i later has k =
      let i1 = read_mains_flags F zi i in
      let (flag, monitor) = load_one-same i1 later in
      unless_failed-Fails (load_one F zi mains_voltage i1 later) _ λ _.
        Fails-failed (load_one F zi mains_frequency _ _) _ (
          load_one-failed (load_one F zi mains_voltage i1 later).1 _ (flag ∙ has)
            (rw monitor (k (load_one F zi mains_voltage i1 later).2)))

  -- When Enumerate of a power supply, whose section agreed with its flags and whose monitors could
  -- be loaded, reports no error and the device has a mains frequency, Load of a new process on the
  -- sections that it leaves refuses to attach, unless the monitor of the frequency had been
  -- attached before: Enumerate attaches the one of the voltage in its place.
  pub frequency_fails :
      (m : Settings) (i : PowerSupply F Am) (net later : Net)
      → Recovers zi
      → IsRecoverable F zi zcl a i
      → frequency_monitor F zi zcl a i ≡ zi.monitor zi.no_section
      → (enumerate F zi zcl a m i net).0.1 ≡ none
      → (enumerate F zi zcl a m i net).1.present.sources.mains_frequency ≡ true
      → (load F zi (reinitialised F zi zcl a (enumerate F zi zcl a m i net).1) later).0.0 ≡ false
  unfolding init
  frequency_fails m i net later r k new fine has =
      let i' = (enumerate F zi zcl a m i net).1 in
      let (sound, mains, battery, written) = enumerate-IsRecoverable F zi zcl a m i net r k fine in
      load-Fails (reinitialised F zi zcl a i') later (written mains_frequency has).0
        (rw (frequency-enumerate F zi zcl a m i net ∙ new, r.kept zi.no_section) r.never_attached)
