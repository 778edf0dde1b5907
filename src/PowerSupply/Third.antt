-- ===== src/PowerSupply/Third.antt =====
-- attributeIdToBattery, and the readings of the third battery.
use zda.Base.{
  ℕ, Bool, true, false, ◌≡◌, refl, ap, ◌∙◌, Option, none, some, Bool-cases, inl, inr, if◌then◌else◌,
  ◌==◌, nat_key, ◌||◌,
}
use zda.Sensor.{Floats, Value, int64, uint64, uint8, other_value, AttributeDataTypeValue}
use zda.PowerSupply.Layout.{
  Battery, battery1, battery2, battery3, Source, mains_voltage, mains_frequency, battery_voltage,
  battery_percentage, Sources, with_source,
}
use zda.PowerSupply.{
  Attributes, has_bit, attribute_id_to_battery, source_of, PowerSupply, update, taken, received,
  announced,
}

abbrev IsThird : Battery → Type 0
IsThird battery1 = ⊥
IsThird battery2 = ⊥
IsThird battery3 = Unit

attribute_id_to_battery-IsThird : (id : ℕ) → IsThird (attribute_id_to_battery id) → ⊥
unfolding attribute_id_to_battery
attribute_id_to_battery-IsThird id third = elim (Bool-cases (has_bit 0x20 id)) [
  | inl first ↦ rw first at third
  | inr not_first ↦ elim (Bool-cases (has_bit 0x40 id)) [
    | inl second ↦ rw (not_first, second) at third
    | inr not_second ↦ rw (not_first, not_second) at third
  ]
]

abbrev IsOfThird : Source → Type 0
IsOfThird mains_voltage = ⊥
IsOfThird mains_frequency = ⊥
IsOfThird (battery_voltage n) = IsThird n
IsOfThird (battery_percentage n) = IsThird n

abbrev NeverThird : Option Source → Type 0
NeverThird none = Unit
NeverThird (some source) = IsOfThird source → ⊥

module _ (a : Attributes) (id : ℕ) where
  source_of-NeverThird : NeverThird (source_of a id)
  unfolding source_of
  source_of-NeverThird =
      by_tests (id == a.mains_voltage) (id == a.mains_frequency)
        (id == a.battery_voltage.first
          || id == a.battery_voltage.second
          || id == a.battery_voltage.third)
        (id == a.battery_percentage.first
          || id == a.battery_percentage.second
          || id == a.battery_percentage.third)
    where
      by_tests :
          (v f bv bp : Bool)
          → NeverThird (
              if v
              then some mains_voltage
              else if f
              then some mains_frequency
              else if bv
              then some (battery_voltage (attribute_id_to_battery id))
              else if bp
              then some (battery_percentage (attribute_id_to_battery id))
              else none)
      by_tests true f bv bp = λ never. never
      by_tests false true bv bp = λ never. never
      by_tests false false true bp = attribute_id_to_battery-IsThird id
      by_tests false false false true = attribute_id_to_battery-IsThird id
      by_tests false false false false = tt

module _ {A : Type 0} where
  -- What is kept for the third battery.
  abbrev pub of_third : Sources A → A × A
  of_third s = (s.battery_voltage.third, s.battery_percentage.third)

  of_third-with_source :
      (source : Source) (x : A) (s : Sources A)
      → (IsOfThird source → ⊥)
      → of_third (with_source source x s) ≡ of_third s
  of_third-with_source mains_voltage x s never = refl
  of_third-with_source mains_frequency x s never = refl
  of_third-with_source (battery_voltage battery1) x s never = refl
  of_third-with_source (battery_voltage battery2) x s never = refl
  of_third-with_source (battery_voltage battery3) x s never = absurd (never tt)
  of_third-with_source (battery_percentage battery1) x s never = refl
  of_third-with_source (battery_percentage battery2) x s never = refl
  of_third-with_source (battery_percentage battery3) x s never = absurd (never tt)

module _ (f : Floats) {Am : Type 0} where
  open f use {Float}

  taken-of_third :
      (source : Option Source) (raw : ℕ) (i : PowerSupply Float Am)
      → NeverThird source
      → of_third (taken f source raw i).1.s.readings ≡ of_third i.s.readings
  taken-of_third none raw i never = refl
  taken-of_third (some source) raw i never = of_third-with_source source _ i.s.readings never

  received-of_third :
      (source : Option Source) (v : Value) (i : PowerSupply Float Am)
      → NeverThird source
      → of_third (received f source v i).1.s.readings ≡ of_third i.s.readings
  received-of_third source (uint64 raw) i never = taken-of_third source raw i never
  received-of_third source (int64 n) i never = refl
  received-of_third source (uint8 n) i never = refl
  received-of_third source other_value i never = refl

  readings-announced :
      (now : ℕ) (r : Bool × PowerSupply Float Am) → (announced f now r).s.readings ≡ r.1.s.readings
  readings-announced now (false, i) = refl
  readings-announced now (true, i) = refl

  -- No report, whatever its attribute and its value, changes the readings that are kept for the
  -- third battery, since attributeIdToBattery never names it.
  pub update-of_third :
      (a : Attributes) (now id : ℕ) (v : AttributeDataTypeValue) (i : PowerSupply Float Am)
      → of_third (update f a now id v i).s.readings ≡ of_third i.s.readings
  unfolding update
  update-of_third a now id v i =
      ap of_third (readings-announced now (received f (source_of a id) v.value i))
      ∙ received-of_third (source_of a id) v.value i (source_of-NeverThird a id)
