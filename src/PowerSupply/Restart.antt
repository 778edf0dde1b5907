-- ===== src/PowerSupply/Restart.antt =====
-- Load of what Enumerate leaves in the section of a power supply.
use zda.Base.{Bool, true, false, ◌≡◌, refl, ap, sym, ◌∙◌, Option, none, false≢true}
use zda.Sensor.{Value}
use zda.Implcaps.{Settings, Zcl, ZdaInterface}
use zda.Implcaps.Recovery.{Recovers, IsLoadable}
use zda.PowerSupply.Layout.{
  Battery, battery1, battery2, battery3, Source, mains_voltage, mains_frequency, battery_voltage,
  battery_percentage, Sources, of_battery, of_source,
}
use zda.PowerSupply.{Present, Section, PowerSupply, Attributes}
use zda.PowerSupply.Cluster.{slot}
use zda.PowerSupply.Enumerate.{enumerate}
use zda.PowerSupply.Loading.{or_false, init, load, map_sources, three}
use zda.PowerSupply.Stored.{IsRecoverable}
use zda.PowerSupply.Recovered.{enumerate-IsRecoverable}
use zda.PowerSupply.Reloaded.{flags_of, Loads, load-LoadsAs}

-- Flags that imply each other are the same.
same_flag : (a b : Bool) → (a ≡ true → b ≡ true) → (b ≡ true → a ≡ true) → a ≡ b
same_flag true b f g = sym (f refl)
same_flag false true f g = g refl
same_flag false false f g = refl

module _ {A : Type 0} where
  -- The same value for every source.
  abbrev pub each : A → Sources A
  each x = record {
    mains_voltage = x;
    mains_frequency = x;
    battery_voltage = three x;
    battery_percentage = three x;
  }

  of_three : (x : A) (n : Battery) → of_battery n (three x) ≡ x
  of_three x battery1 = refl
  of_three x battery2 = refl
  of_three x battery3 = refl

  of_all : (x : A) (y : Source) → of_source y (each x) ≡ x
  of_all x mains_voltage = refl
  of_all x mains_frequency = refl
  of_all x (battery_voltage n) = of_three x n
  of_all x (battery_percentage n) = of_three x n

-- A section without keys.
abbrev pub no_keys : Present (Option Bool)
no_keys = record { mains = none; battery = three none; sources = each none }

module _ (F : Type 0) (zi : ZdaInterface Value) (zcl : Zcl) (a : Attributes) where
  open zi use {Net, Failure, Am, MonitorSection}

  -- The power supply that a new process makes for the sections of another.
  abbrev pub reinitialised : PowerSupply F Am → PowerSupply F Am
  reinitialised i = init F zi i.s (map_sources zi.section i.monitors)

  -- A new power supply is recoverable.
  pub init-IsRecoverable :
      (s : Section F) (sections : Sources MonitorSection)
      → IsRecoverable F zi zcl a (init F zi (record s { present = no_keys }) sections)
  unfolding init
  init-IsRecoverable s sections = (
    (
      λ q. q,
      λ n q. absurd (false≢true (ap or_false (sym (of_three none n)) ∙ q)),
      λ x q. absurd (false≢true (ap or_false (sym (of_all none x)) ∙ q)),
    ),
    λ q. q,
    λ n q. absurd (false≢true (sym (of_three false n) ∙ q)),
    λ x q. absurd (false≢true (sym (of_all false x) ∙ q)),
  )

  flags_of_recoverable :
      (i : PowerSupply F Am) → IsRecoverable F zi zcl a i → flags_of F zi i.s.present ≡ i.present
  flags_of_recoverable i ((m, b, x), mains, battery, written) =
      let of_b : (n : Battery)
          → or_false (of_battery n i.s.present.battery) ≡ of_battery n i.present.battery =
        λ n. same_flag _ _ (b n) (battery n) in
      let of_x : (y : Source)
          → or_false (of_source y i.s.present.sources) ≡ of_source y i.present.sources =
        λ y. same_flag _ _ (x y) (λ has. (written y has).0) in
      rw
        (
          same_flag _ _ m mains,
          of_b battery1,
          of_b battery2,
          of_b battery3,
          of_x mains_voltage,
          of_x mains_frequency,
          of_x (battery_voltage battery1),
          of_x (battery_voltage battery2),
          of_x (battery_voltage battery3),
          of_x (battery_percentage battery1),
          of_x (battery_percentage battery2),
          of_x (battery_percentage battery3),
        )
        refl

  reinitialised-Loads :
      (i : PowerSupply F Am)
      → IsRecoverable F zi zcl a i
      → i.present.sources.mains_frequency ≡ false
      → (y : Source) → Loads F zi y (reinitialised i)
  unfolding init
  reinitialised-Loads i ((m, b, x), mains, battery, written) without = by_source
    where
      loadable :
          (y : Source)
          → or_false (of_source y i.s.present.sources) ≡ true
          → IsLoadable zi (of_source (slot y) i.monitors)
      loadable y has = (written y (x y has)).1

      by_source : (y : Source) → Loads F zi y (init F zi i.s (map_sources zi.section i.monitors))
      by_source mains_voltage = loadable mains_voltage
      by_source mains_frequency = λ has. absurd (false≢true (sym without ∙ x mains_frequency has))
      by_source (battery_voltage battery1) = loadable (battery_voltage battery1)
      by_source (battery_voltage battery2) = loadable (battery_voltage battery2)
      by_source (battery_voltage battery3) = loadable (battery_voltage battery3)
      by_source (battery_percentage battery1) = loadable (battery_percentage battery1)
      by_source (battery_percentage battery2) = loadable (battery_percentage battery2)
      by_source (battery_percentage battery3) = loadable (battery_percentage battery3)

  -- When Enumerate of a power supply, whose section agreed with its flags and whose monitors could
  -- be loaded, reports no error and the device has no mains frequency, Load of a new process on the
  -- sections that it leaves attaches without an error, with the same flags of what the device has.
  pub power_supply_loads :
      (m : Settings) (i : PowerSupply F Am) (net later : Net)
      → Recovers zi
      → IsRecoverable F zi zcl a i
      → (enumerate F zi zcl a m i net).0.1 ≡ none
      → (enumerate F zi zcl a m i net).1.present.sources.mains_frequency ≡ false
      → ((load F zi (reinitialised (enumerate F zi zcl a m i net).1) later).0 ≡ (true, none))
        × ((load F zi (reinitialised (enumerate F zi zcl a m i net).1) later).1.present
            ≡ (enumerate F zi zcl a m i net).1.present)
  unfolding init
  power_supply_loads m i net later r k fine without =
      let i' = (enumerate F zi zcl a m i net).1 in
      let k' = enumerate-IsRecoverable F zi zcl a m i net r k fine in
      let (loads, flags) =
        load-LoadsAs F zi (reinitialised i') later (reinitialised-Loads i' k' without) in
      (loads, flags ∙ flags_of_recoverable i' k')
