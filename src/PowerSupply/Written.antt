-- ===== src/PowerSupply/Written.antt =====
-- The steps of enumeratePowerConfigurationCluster after its reads: each flag goes to the section,
-- and each source that the device has gets a monitor.
use zda.Base.{
  Bool, true, ◌≡◌, refl, ap, sym, ◌⊎◌, inl, inr, Option, none, some, none≢some, false≢true, ◌∙◌,
  List, [], ◌∷◌, Bool-cases,
}
use zda.Sensor.{Value}
use zda.Implcaps.{Zcl, ZdaInterface}
use zda.Implcaps.Recovery.{IsLoadable, Recovers}
use zda.PowerSupply.Layout.{
  battery1, battery2, battery3, Source, mains_voltage, mains_frequency, battery_voltage,
  battery_percentage, of_source, of_source-same, of_source-kept,
}
use zda.PowerSupply.{PowerSupply, Attributes}
use zda.PowerSupply.Cluster.{slot, attribute_type, reporting, polling}
use zda.PowerSupply.Enumerate.{
  Step, attach_monitor, keep_battery, steps, On, later_error, attach_on, step, run,
}
use zda.PowerSupply.Loading.{or_false}

module _ (F : Type 0) (zi : ZdaInterface Value) (zcl : Zcl) (a : Attributes) where
  open zi use {Net, Failure, Am}

  abbrev pub flag : Source → PowerSupply F Am → Bool
  flag source i = of_source source i.present.sources

  abbrev pub stored : Source → PowerSupply F Am → Bool
  stored source i = or_false (of_source source i.s.present.sources)

  -- A source that the device has is in the section, and its monitor can be loaded.
  abbrev pub IsWritten : Source → PowerSupply F Am → Type 0
  IsWritten source i =
      flag source i ≡ true
      → (stored source i ≡ true) × IsLoadable zi (of_source (slot source) i.monitors)

  abbrev pub Written : Source → On F zi zcl a → Type 0
  Written source p = p.last_error ≡ none → IsWritten source p.i

  no_error :
      (e before : Option Failure)
      → later_error F zi zcl a e before ≡ none
      → (e ≡ none) × (before ≡ none)
  no_error none before q = (refl, q)
  no_error (some e) before q = absurd (none≢some (sym q))

  -- What attach_on attaches can be loaded when there is no error.
  attached_loadable :
      (source : Source) (p : On F zi zcl a)
      → Recovers zi
      → (attach_on F zi zcl a source p).last_error ≡ none
      → (p.last_error ≡ none)
        × IsLoadable zi
            (zi.attach p.i.remote_endpoint zcl.power_configuration_id
              (of_source source a)
              (attribute_type zcl source)
              (reporting source)
              polling
              (of_source (slot source) p.i.monitors)
              p.net).1
  attached_loadable source p r q =
      let o =
        zi.attach p.i.remote_endpoint zcl.power_configuration_id (of_source source a)
          (attribute_type zcl source) (reporting source) polling
          (of_source (slot source) p.i.monitors) p.net in
      let (fine, before) = no_error o.0 p.last_error q in
      (before, r.attached _ _ _ _ _ _ _ o.1 _ o.2 (ap (λ e. (e, o.1, o.2)) fine))

  attach_on-kept :
      (source other : Source) (p : On F zi zcl a)
      → Recovers zi
      → Written source p
      → Written source (attach_on F zi zcl a other p)
  attach_on-kept source other p r w q has =
      let (before, loadable) = attached_loadable other p r q in
      let (in_section, was) = w before has in
      (
        of_source-kept (λ x o. or_false o ≡ true) source other (some true) p.i.s.present.sources
            refl in_section,
        of_source-kept (λ x. IsLoadable zi) (slot source) (slot other) _ p.i.monitors loadable was,
      )

  attach_on-own :
      (source : Source) (p : On F zi zcl a)
      → Recovers zi
      → Written source (attach_on F zi zcl a source p)
  attach_on-own source p r q has = (
    ap or_false (of_source-same source (some true) p.i.s.present.sources),
    rw (of_source-same (slot source) _ p.i.monitors) (attached_loadable source p r q).1,
  )

  step-kept :
      (source : Source) (x : Step) (p : On F zi zcl a)
      → Recovers zi
      → Written source p
      → Written source (step F zi zcl a x p)
  unfolding step
  step-kept source (attach_monitor other) p r w = elim (Bool-cases (flag other p.i)) [
    | inl has ↦ rw has (attach_on-kept source other p r w)
    | inr has_not ↦ rw has_not w
  ]
  step-kept source (keep_battery n) p r w = w

  step-own :
      (source : Source) (p : On F zi zcl a)
      → Recovers zi
      → Written source (step F zi zcl a (attach_monitor source) p)
  unfolding step
  step-own source p r = elim (Bool-cases (flag source p.i)) [
    | inl has ↦ rw has (attach_on-own source p r)
    | inr has_not ↦ rw has_not (λ q has. absurd (false≢true (sym has_not ∙ has)))
  ]

  abbrev Attaches : Source → List Step → Type 0
  Attaches source [] = ⊥
  Attaches source (attach_monitor x ∷ xs) = (source ≡ x) ⊎ Attaches source xs
  Attaches source (keep_battery n ∷ xs) = Attaches source xs

  run-kept :
      (source : Source) (xs : List Step) (p : On F zi zcl a)
      → Recovers zi
      → Written source p
      → Written source (run F zi zcl a xs p)
  unfolding run
  run-kept source [] p r w = w
  run-kept source (x ∷ xs) p r w =
      run-kept source xs (step F zi zcl a x p) r (step-kept source x p r w)

  run-Written :
      (source : Source) (xs : List Step) (p : On F zi zcl a)
      → Recovers zi
      → Attaches source xs
      → Written source (run F zi zcl a xs p)
  unfolding run
  run-Written source [] p r here = absurd here
  run-Written source (attach_monitor x ∷ xs) p r (inl same) =
      run-kept source xs (step F zi zcl a (attach_monitor x) p) r (rw same (step-own x p r))
  run-Written source (attach_monitor x ∷ xs) p r (inr later) =
      run-Written source xs (step F zi zcl a (attach_monitor x) p) r later
  run-Written source (keep_battery n ∷ xs) p r later =
      run-Written source xs (step F zi zcl a (keep_battery n) p) r later

  Attaches-steps : (source : Source) → Attaches source steps
  Attaches-steps mains_voltage = inl refl
  Attaches-steps mains_frequency = inr (inl refl)
  Attaches-steps (battery_percentage battery1) = inr (inr (inl refl))
  Attaches-steps (battery_voltage battery1) = inr (inr (inr (inl refl)))
  Attaches-steps (battery_percentage battery2) = inr (inr (inr (inr (inl refl))))
  Attaches-steps (battery_voltage battery2) = inr (inr (inr (inr (inr (inl refl)))))
  Attaches-steps (battery_percentage battery3) = inr (inr (inr (inr (inr (inr (inl refl))))))
  Attaches-steps (battery_voltage battery3) = inr (inr (inr (inr (inr (inr (inr (inl refl)))))))

  -- After the steps every source that the device has is written, unless there was an error.
  pub run_steps-Written :
      (source : Source) (p : On F zi zcl a) → Recovers zi → Written source (run F zi zcl a steps p)
  run_steps-Written source p r = run-Written source steps p r (Attaches-steps source)
