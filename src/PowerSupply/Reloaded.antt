-- ===== src/PowerSupply/Reloaded.antt =====
-- Load of a power supply in the next process.
use zda.Base.{
  Bool, true, ◌≡◌, refl, ap, sym, ◌∙◌, Option, none, some, none≢some, Bool-cases, inl, inr,
}
use zda.Sensor.{Value}
use zda.Implcaps.{ZdaInterface}
use zda.PowerSupply.Layout.{
  Battery, battery1, battery2, battery3, Source, mains_voltage, mains_frequency, battery_voltage,
  battery_percentage, Sources, of_source, with_source, of_battery-same,
}
use zda.PowerSupply.{Present, PowerSupply}
use zda.PowerSupply.Loading.{
  or_false, Loaded, loaded, load_one, read_mains_flags, read_battery_flags, load_battery, load,
  map_sources, map_three, Result,
}

module _ (F : Type 0) (zi : ZdaInterface Value) where
  open zi use {Net, Failure, Am, MonitorSection}

  abbrev with_monitor : Source → Am → PowerSupply F Am → PowerSupply F Am
  with_monitor x am i = record i { monitors = with_source x am i.monitors }

  -- A step of Load that goes on, with the monitor of one source or with the monitors of two.
  abbrev Goes : Source → PowerSupply F Am → Loaded F zi → Type 0
  Goes x i o = (am : Am) × (net : Net) × (o ≡ (none, with_monitor x am i, net))

  loaded-Goes :
      (x : Source) (i : PowerSupply F Am) (o : Option Failure × Am × Net)
      → o.0 ≡ none
      → Goes x i (loaded F zi x i o)
  loaded-Goes x i (none, am, net) fine = (am, net, refl)
  loaded-Goes x i (some e, am, net) fine = absurd (none≢some (sym fine))

  with_source_self : (x : Source) (s : Sources Am) → with_source x (of_source x s) s ≡ s
  with_source_self mains_voltage s = refl
  with_source_self mains_frequency s = refl
  with_source_self (battery_voltage battery1) s = refl
  with_source_self (battery_voltage battery2) s = refl
  with_source_self (battery_voltage battery3) s = refl
  with_source_self (battery_percentage battery1) s = refl
  with_source_self (battery_percentage battery2) s = refl
  with_source_self (battery_percentage battery3) s = refl

  load_one-Goes :
      (x : Source) (i : PowerSupply F Am) (net : Net)
      → (of_source x i.present.sources ≡ true → (zi.load (of_source x i.monitors) net).0 ≡ none)
      → Goes x i (load_one F zi x i net)
  unfolding load_one
  load_one-Goes x i net h = elim (Bool-cases (of_source x i.present.sources)) [
    | inl has ↦ rw has (loaded-Goes x i (zi.load (of_source x i.monitors) net) (h has))
    | inr has_not ↦ rw has_not (
      of_source x i.monitors,
      net,
      ap (λ s. (none, record i { monitors = s }, net)) (sym (with_source_self x i.monitors)),
    )
  ]

  -- The flags that Load reads, and the monitors that it loads, for one battery.
  abbrev with_both : Battery → Am → Am → PowerSupply F Am → PowerSupply F Am
  with_both n am bm i =
      with_monitor (battery_voltage n) bm
        (with_monitor (battery_percentage n) am (read_battery_flags F zi n i))

  abbrev GoesBattery : Battery → PowerSupply F Am → Loaded F zi → Type 0
  GoesBattery n i o = (am : Am) × (bm : Am) × (net : Net) × (o ≡ (none, with_both n am bm i, net))

  -- The key of a source and the monitor that Init makes for it.
  abbrev pub Loads : Source → PowerSupply F Am → Type 0
  Loads x i =
      or_false (of_source x i.s.present.sources) ≡ true
      → (net : Net) → (zi.load (of_source x i.monitors) net).0 ≡ none

  load_battery-Goes :
      (n : Battery) (i : PowerSupply F Am) (net : Net)
      → Loads (battery_percentage n) i
      → Loads (battery_voltage n) i
      → GoesBattery n i (load_battery F zi n i net)
  unfolding load_battery
  load_battery-Goes n i net p v =
      let i1 = read_battery_flags F zi n i in
      let (am, net1, e1) =
        load_one-Goes (battery_percentage n) i1 net
          (λ has. p (sym (of_battery-same n _ i.present.sources.battery_percentage) ∙ has) net) in
      let (bm, net2, e2) =
        load_one-Goes (battery_voltage n) (with_monitor (battery_percentage n) am i1) net1
          (λ has. v (sym (of_battery-same n _ i.present.sources.battery_voltage) ∙ has) net1) in
      (am, bm, net2, rw e1 e2)

  -- The flags that the keys of a section give.
  abbrev pub flags_of : Present (Option Bool) → Present Bool
  flags_of p = record {
    mains = or_false p.mains;
    battery = map_three or_false p.battery;
    sources = map_sources or_false p.sources;
  }

  abbrev LoadsAs : Present Bool → Result F zi → Type 0
  LoadsAs p o = (o.0 ≡ (true, none)) × (o.1.present ≡ p)

  pub load-LoadsAs :
      (i : PowerSupply F Am) (net : Net)
      → ((x : Source) → Loads x i)
      → LoadsAs (flags_of i.s.present) (load F zi i net)
  unfolding load
  load-LoadsAs i net h =
      let i1 = read_mains_flags F zi i in
      let (am, net1, e1) = load_one-Goes mains_voltage i1 net (λ has. h mains_voltage has net) in
      let i2 = with_monitor mains_voltage am i1 in
      let (bm, net2, e2) =
        load_one-Goes mains_frequency i2 net1 (λ has. h mains_frequency has net1) in
      let i3 = with_monitor mains_frequency bm i2 in
      let (cm, dm, net3, e3) =
        load_battery-Goes battery1 i3 net2 (h (battery_percentage battery1))
          (h (battery_voltage battery1)) in
      let i4 = with_both battery1 cm dm i3 in
      let (em, fm, net4, e4) =
        load_battery-Goes battery2 i4 net3 (h (battery_percentage battery2))
          (h (battery_voltage battery2)) in
      let i5 = with_both battery2 em fm i4 in
      let (gm, hm, net5, e5) =
        load_battery-Goes battery3 i5 net4 (h (battery_percentage battery3))
          (h (battery_voltage battery3)) in
      rw (e1, e2, e3, e4, e5) (refl, refl)
