-- ===== src/PowerSupply/Sound.antt =====
-- The section of a power supply claims nothing that the device does not have, whatever the reads of
-- the two clusters find.
use zda.Base.{
  ℕ, ◌%◌, ◌==◌, nat_key, ◌∙◌, ◌||◌, not, Bool, true, false, ◌≡◌, refl, Option, none, some, List, [],
  ◌∷◌, Bool-cases, inl, inr, if◌then◌else◌,
}
use zda.Sensor.{Value}
use zda.Monitor.Reports.{ReadRecord}
use zda.Implcaps.{Zcl}
use zda.PowerSupply.Layout.{
  Battery, battery1, battery2, Source, mains_voltage, mains_frequency, battery_voltage,
  battery_percentage, of_battery, of_source, of_battery-kept, of_source-kept,
}
use zda.PowerSupply.{Present, Attributes, has_bit}
use zda.PowerSupply.Cluster.{
  has_mains, has_battery, has_source, by_low_bits, by_high_bit, as_number, by_number, by_answer,
  by_mains, mains_answers, by_battery, battery_answers,
}
use zda.PowerSupply.Loading.{or_false}

-- The flags `s` of a section are set only where the flags `p` of the device are.
abbrev pub IsSound : Present (Option Bool) → Present Bool → Type 0
IsSound s p =
    (or_false s.mains ≡ true → p.mains ≡ true)
    × ((n : Battery) → or_false (of_battery n s.battery) ≡ true → of_battery n p.battery ≡ true)
    × ((x : Source) → or_false (of_source x s.sources) ≡ true → of_source x p.sources ≡ true)

module _ (s : Present (Option Bool)) where
  has_mains-IsSound : (p : Present Bool) → IsSound s p → IsSound s (has_mains p)
  has_mains-IsSound p (m, b, x) = (λ q. refl, b, x)

  has_battery-IsSound : (n : Battery) (p : Present Bool) → IsSound s p → IsSound s (has_battery n p)
  has_battery-IsSound n p (m, b, x) =
      (m, λ k q. of_battery-kept (λ k v. v ≡ true) k n true p.battery refl (b k q), x)

  has_source-IsSound : (y : Source) (p : Present Bool) → IsSound s p → IsSound s (has_source y p)
  has_source-IsSound y p (m, b, x) =
      (m, b, λ k q. of_source-kept (λ k v. v ≡ true) k y true p.sources refl (x k q))

  by_mains-IsSound :
      (a : Attributes) (id : ℕ) (p : Present Bool) → IsSound s p → IsSound s (by_mains a id p)
  by_mains-IsSound a id p k = elim (Bool-cases (id == a.mains_voltage)) [
    | inl voltage ↦
        rw voltage (has_source-IsSound mains_voltage (has_mains p) (has_mains-IsSound p k))
    | inr other ↦ elim (Bool-cases (id == a.mains_frequency)) [
      | inl frequency ↦
          rw (other, frequency)
            (has_source-IsSound mains_frequency (has_mains p) (has_mains-IsSound p k))
      | inr neither ↦ rw (other, neither) k
    ]
  ]

  pub mains_answers-IsSound :
      (a : Attributes) (ds : List (ReadRecord Value)) (attach : Bool) (p : Present Bool)
      → IsSound s p
      → IsSound s (mains_answers a ds (attach, p)).1
  unfolding mains_answers
  mains_answers-IsSound a [] attach p k = k
  mains_answers-IsSound a (d ∷ ds) attach p k = elim (Bool-cases (d.status == 0)) [
    | inl good ↦
        rw (good, mains_answers)
          (mains_answers-IsSound a ds true (by_mains a d.report.identifier p)
            (by_mains-IsSound a d.report.identifier p k))
    | inr bad ↦ rw (bad, mains_answers) (mains_answers-IsSound a ds attach p k)
  ]

  by_battery-IsSound :
      (a : Attributes) (n : Battery) (id : ℕ) (p : Present Bool)
      → IsSound s p
      → IsSound s (by_battery a n id p)
  by_battery-IsSound a n id p k = elim (Bool-cases (id == of_battery n a.battery_percentage)) [
    | inl percentage ↦
        rw percentage
          (has_source-IsSound (battery_percentage n) (has_battery n p) (has_battery-IsSound n p k))
    | inr other ↦ elim (Bool-cases (id == of_battery n a.battery_voltage)) [
      | inl voltage ↦
          rw (other, voltage)
            (has_source-IsSound (battery_voltage n) (has_battery n p) (has_battery-IsSound n p k))
      | inr neither ↦ rw (other, neither) k
    ]
  ]

  pub battery_answers-IsSound :
      (a : Attributes) (n : Battery) (ds : List (ReadRecord Value)) (attach : Bool)
      (p : Present Bool)
      → IsSound s p
      → IsSound s (battery_answers a n ds (attach, p)).1
  unfolding battery_answers
  battery_answers-IsSound a n [] attach p k = k
  battery_answers-IsSound a n (d ∷ ds) attach p k = elim (Bool-cases (d.status == 0)) [
    | inl good ↦
        rw (good, battery_answers)
          (battery_answers-IsSound a n ds true (by_battery a n d.report.identifier p)
            (by_battery-IsSound a n d.report.identifier p k))
    | inr bad ↦ rw (bad, battery_answers) (battery_answers-IsSound a n ds true p k)
  ]

  -- What the basic cluster tells: nothing of the third battery, and nothing of the sources.
  abbrev pub IsBasic : Present Bool → Present Bool → Type 0
  IsBasic p q =
      (q.battery.third ≡ p.battery.third) × (q.sources ≡ p.sources) × (IsSound s p → IsSound s q)

  by_low_bits-IsBasic : (low : ℕ) (p : Present Bool) → IsBasic p (by_low_bits low p)
  by_low_bits-IsBasic low p =
      by_tests (low == 1 || low == 2 || low == 4 || low == 5 || low == 6) (low == 3)
    where
      by_tests :
          (mains battery : Bool)
          → IsBasic p (if mains then has_mains p else if battery then has_battery battery1 p else p)
      by_tests true battery = (refl, refl, has_mains-IsSound p)
      by_tests false true = (refl, refl, has_battery-IsSound battery1 p)
      by_tests false false = (refl, refl, λ k. k)

  by_high_bit-IsBasic : (high : Bool) (p : Present Bool) → IsBasic p (by_high_bit high p)
  by_high_bit-IsBasic false p = (refl, refl, λ k. k)
  by_high_bit-IsBasic true p = by_test p.battery.first
    where
      by_test :
          (first : Bool)
          → IsBasic p (if first then has_battery battery2 p else has_battery battery1 p)
      by_test true = (refl, refl, has_battery-IsSound battery2 p)
      by_test false = (refl, refl, has_battery-IsSound battery1 p)

  by_number-IsBasic : (v : Option ℕ) (p : Present Bool) → IsBasic p (by_number v p).1
  by_number-IsBasic none p = (refl, refl, λ k. k)
  by_number-IsBasic (some v) p =
      let low = by_low_bits-IsBasic (v % 16) p in
      let high = by_high_bit-IsBasic (has_bit 0x80 v) (by_low_bits (v % 16) p) in
      (high.0 ∙ low.0, high.1 ∙ low.1, λ k. high.2 (low.2 k))

  pub by_answer-IsBasic :
      (zcl : Zcl) (rs : List (ReadRecord Value)) (p : Present Bool)
      → IsBasic p (by_answer zcl rs p).1
  unfolding by_answer
  by_answer-IsBasic zcl [] p = (refl, refl, λ k. k)
  by_answer-IsBasic zcl (r ∷ rs) p =
      by_test (not (r.status == 0) || not (r.report.identifier == zcl.power_source))
    where
      by_test :
          (other : Bool)
          → IsBasic p (if other then (false, p) else by_number (as_number r.report.value) p).1
      by_test true = (refl, refl, λ k. k)
      by_test false = by_number-IsBasic (as_number r.report.value) p
