-- ===== src/PowerSupply/Stored.antt =====
-- The end of enumerateBasicCluster, that stores the flags of the mains and of two batteries.
use zda.Base.{Bool, true, false, ◌≡◌, refl, ap, sym, ◌∙◌, some, false≢true, if◌then◌else◌}
use zda.Sensor.{Value}
use zda.Implcaps.{Zcl, ZdaInterface}
use zda.PowerSupply.Layout.{
  Battery, battery1, battery2, battery3, Source, of_battery, of_battery-same, of_battery-kept,
}
use zda.PowerSupply.{PowerSupply, Attributes}
use zda.PowerSupply.Cluster.{set_mains, set_battery, store_mains, store_battery, store_basic}
use zda.PowerSupply.Loading.{or_false}
use zda.PowerSupply.Sound.{IsSound}
use zda.PowerSupply.Written.{IsWritten}

module _ (F : Type 0) (zi : ZdaInterface Value) (zcl : Zcl) (a : Attributes) where
  open zi use {Net, Failure, Am}

  abbrev pub Sound : PowerSupply F Am → Type 0
  Sound i = IsSound i.s.present i.present

  abbrev pub MainsStored : PowerSupply F Am → Type 0
  MainsStored i = i.present.mains ≡ true → or_false i.s.present.mains ≡ true

  abbrev pub BatteryStored : Battery → PowerSupply F Am → Type 0
  BatteryStored n i =
      of_battery n i.present.battery ≡ true → or_false (of_battery n i.s.present.battery) ≡ true

  -- The section has the flags of the device, and no others, and the monitors of its sources can be
  -- loaded.
  abbrev pub IsRecoverable : PowerSupply F Am → Type 0
  IsRecoverable i =
      Sound i
      × MainsStored i
      × ((n : Battery) → BatteryStored n i)
      × ((x : Source) → IsWritten F zi zcl a x i)

  store_mains_lem :
      (i : PowerSupply F Am)
      → Sound i
      → ((x : Source) → IsWritten F zi zcl a x i)
      → BatteryStored battery3 i
      → Sound (store_mains i)
        × MainsStored (store_mains i)
        × ((x : Source) → IsWritten F zi zcl a x (store_mains i))
        × BatteryStored battery3 (store_mains i)
  store_mains_lem i (m, b, x) w third = by_flag i.present.mains refl
    where
      by_flag :
          (has : Bool)
          → i.present.mains ≡ has
          → Sound (if has then set_mains true i else i)
            × MainsStored (if has then set_mains true i else i)
            × ((x : Source) → IsWritten F zi zcl a x (if has then set_mains true i else i))
            × BatteryStored battery3 (if has then set_mains true i else i)
      by_flag true q = ((λ _. q, b, x), λ _. refl, w, third)
      by_flag false q = ((m, b, x), λ has. absurd (false≢true (sym q ∙ has)), w, third)

  -- What storing a battery keeps: everything, and that battery is stored.
  store_battery_lem :
      (n : Battery) (i : PowerSupply F Am)
      → Sound i
      → MainsStored i
      → ((x : Source) → IsWritten F zi zcl a x i)
      → Sound (store_battery n i)
        × MainsStored (store_battery n i)
        × ((x : Source) → IsWritten F zi zcl a x (store_battery n i))
        × BatteryStored n (store_battery n i)
        × ((k : Battery) → BatteryStored k i → BatteryStored k (store_battery n i))
  store_battery_lem n i (m, b, x) mains w = by_flag (of_battery n i.present.battery) refl
    where
      by_flag :
          (has : Bool)
          → of_battery n i.present.battery ≡ has
          → Sound (if has then set_battery n true i else i)
            × MainsStored (if has then set_battery n true i else i)
            × ((x : Source) → IsWritten F zi zcl a x (if has then set_battery n true i else i))
            × BatteryStored n (if has then set_battery n true i else i)
            × ((k : Battery)
                → BatteryStored k i
                → BatteryStored k (if has then set_battery n true i else i))
      by_flag true q = (
        (
          m,
          λ k.
              of_battery-kept (λ k o. or_false o ≡ true → of_battery k i.present.battery ≡ true) k n
                (some true) i.s.present.battery (λ _. q) (b k),
          x,
        ),
        mains,
        w,
        λ _. ap or_false (of_battery-same n (some true) i.s.present.battery),
        λ k old has.
            of_battery-kept (λ k o. or_false o ≡ true) k n (some true) i.s.present.battery refl
              (old has),
      )
      by_flag false q =
          ((m, b, x), mains, w, λ has. absurd (false≢true (sym q ∙ has)), λ k old. old)

  pub store_basic-IsRecoverable :
      (i : PowerSupply F Am)
      → Sound i
      → ((x : Source) → IsWritten F zi zcl a x i)
      → BatteryStored battery3 i
      → IsRecoverable (store_basic i)
  unfolding store_basic
  store_basic-IsRecoverable i sound w third =
      let (sound1, mains1, w1, third1) = store_mains_lem i sound w third in
      let (sound2, mains2, w2, first2, kept2) =
        store_battery_lem battery1 (store_mains i) sound1 mains1 w1 in
      let (sound3, mains3, w3, second3, kept3) =
        store_battery_lem battery2 (store_battery battery1 (store_mains i)) sound2 mains2 w2 in
      (
        sound3,
        mains3,
        by_battery (store_battery battery2 (store_battery battery1 (store_mains i)))
            (kept3 battery1 first2) second3 (kept3 battery3 (kept2 battery3 third1)),
        w3,
      )
    where
      by_battery :
          (j : PowerSupply F Am)
          → BatteryStored battery1 j
          → BatteryStored battery2 j
          → BatteryStored battery3 j
          → (n : Battery) → BatteryStored n j
      by_battery j one two three battery1 = one
      by_battery j one two three battery2 = two
      by_battery j one two three battery3 = three
