-- ===== src/PowerSupply/Agreed.antt =====
-- The flags of the section after the steps of enumeratePowerConfigurationCluster.
use zda.Base.{
  Bool, true, false, ◌≡◌, refl, ◌∙◌, ◌⊎◌, inl, inr, some, List, [], ◌∷◌, Bool-cases, if◌then◌else◌,
}
use zda.Sensor.{Value}
use zda.Implcaps.{Zcl, ReadOutcome, read_failed, answer, ZdaInterface}
use zda.Monitor.{Transmission}
use zda.PowerSupply.Layout.{
  Battery, battery1, battery2, battery3, Source, of_battery, of_source, of_battery-same,
  of_battery-kept, of_source-kept,
}
use zda.PowerSupply.{Attributes}
use zda.PowerSupply.Enumerate.{
  Step, attach_monitor, keep_battery, steps, On, mains_read, read_mains, battery_read, read_battery,
  attach_on, step, run, all_read,
}
use zda.PowerSupply.Loading.{or_false}
use zda.PowerSupply.Sound.{IsSound, mains_answers-IsSound, battery_answers-IsSound}

module _ (F : Type 0) (zi : ZdaInterface Value) (zcl : Zcl) (a : Attributes) where
  open zi use {Net, Failure, Am}

  abbrev pub SoundOn : On F zi zcl a → Type 0
  SoundOn p = IsSound p.i.s.present p.i.present

  mains_read-SoundOn :
      (p : On F zi zcl a) (r : ReadOutcome Value Failure × Net)
      → SoundOn p
      → SoundOn (mains_read F zi zcl a p r)
  mains_read-SoundOn p (read_failed e, net) k = k
  mains_read-SoundOn p (answer ds, net) k =
      mains_answers-IsSound p.i.s.present a ds p.attach p.i.present k

  battery_read-SoundOn :
      (n : Battery) (p : On F zi zcl a) (r : ReadOutcome Value Failure × Net)
      → SoundOn p
      → SoundOn (battery_read F zi zcl a n p r)
  battery_read-SoundOn n p (read_failed e, net) k = k
  battery_read-SoundOn n p (answer ds, net) k =
      battery_answers-IsSound p.i.s.present a n ds p.attach p.i.present k

  read_battery-SoundOn :
      (t : Transmission) (n : Battery) (p : On F zi zcl a)
      → SoundOn p
      → SoundOn (read_battery F zi zcl a t n p)
  unfolding read_battery
  read_battery-SoundOn t n p k = battery_read-SoundOn n p _ k

  pub all_read-SoundOn :
      (t : Transmission) (p : On F zi zcl a) → SoundOn p → SoundOn (all_read F zi zcl a t p)
  unfolding read_mains
  all_read-SoundOn t p k = read_battery-SoundOn t battery3 _ (
      read_battery-SoundOn t battery2 _
        (read_battery-SoundOn t battery1 _ (mains_read-SoundOn p _ k)))

  -- The steps leave the flags of the device alone.
  present-step : (x : Step) (p : On F zi zcl a) → (step F zi zcl a x p).i.present ≡ p.i.present
  unfolding step
  present-step (attach_monitor y) p = elim (Bool-cases (of_source y p.i.present.sources)) [
    | inl has ↦ rw has refl
    | inr has_not ↦ rw has_not refl
  ]
  present-step (keep_battery n) p = refl

  pub present-run :
      (xs : List Step) (p : On F zi zcl a) → (run F zi zcl a xs p).i.present ≡ p.i.present
  unfolding run
  present-run [] p = refl
  present-run (x ∷ xs) p = present-run xs (step F zi zcl a x p) ∙ present-step x p

  attach_on-SoundOn :
      (y : Source) (p : On F zi zcl a)
      → of_source y p.i.present.sources ≡ true
      → SoundOn p
      → SoundOn (attach_on F zi zcl a y p)
  attach_on-SoundOn y p has (m, b, x) = (
    m,
    b,
    λ k.
        of_source-kept (λ k o. or_false o ≡ true → of_source k p.i.present.sources ≡ true) k y
          (some true) p.i.s.present.sources (λ _. has) (x k),
  )

  step-SoundOn : (x : Step) (p : On F zi zcl a) → SoundOn p → SoundOn (step F zi zcl a x p)
  unfolding step
  step-SoundOn (attach_monitor y) p k = by_flag _ refl
    where
      by_flag :
          (has : Bool)
          → of_source y p.i.present.sources ≡ has
          → SoundOn (if has then attach_on F zi zcl a y p else p)
      by_flag true q = attach_on-SoundOn y p q k
      by_flag false q = k
  step-SoundOn (keep_battery n) p (m, b, x) = (
    m,
    λ k.
        of_battery-kept (λ k o. or_false o ≡ true → of_battery k p.i.present.battery ≡ true) k n
          (some (of_battery n p.i.present.battery)) p.i.s.present.battery (λ q. q) (b k),
    x,
  )

  pub run-SoundOn : (xs : List Step) (p : On F zi zcl a) → SoundOn p → SoundOn (run F zi zcl a xs p)
  unfolding run
  run-SoundOn [] p k = k
  run-SoundOn (x ∷ xs) p k = run-SoundOn xs (step F zi zcl a x p) (step-SoundOn x p k)

  -- The key of a battery, or of the mains, is that of the device.
  abbrev pub Keeps : Battery → On F zi zcl a → Type 0
  Keeps n p = of_battery n p.i.s.present.battery ≡ some (of_battery n p.i.present.battery)

  abbrev pub KeepsMains : On F zi zcl a → Type 0
  KeepsMains p = p.i.s.present.mains ≡ some p.i.present.mains

  step-Keeps :
      (n : Battery) (x : Step) (p : On F zi zcl a) → Keeps n p → Keeps n (step F zi zcl a x p)
  unfolding step
  step-Keeps n (attach_monitor y) p k = elim (Bool-cases (of_source y p.i.present.sources)) [
    | inl has ↦ rw has k
    | inr has_not ↦ rw has_not k
  ]
  step-Keeps n (keep_battery m) p k =
      of_battery-kept (λ l o. o ≡ some (of_battery l p.i.present.battery)) n m _
        p.i.s.present.battery refl k

  step-KeepsMains : (x : Step) (p : On F zi zcl a) → KeepsMains p → KeepsMains (step F zi zcl a x p)
  unfolding step
  step-KeepsMains (attach_monitor y) p k = elim (Bool-cases (of_source y p.i.present.sources)) [
    | inl has ↦ rw has k
    | inr has_not ↦ rw has_not k
  ]
  step-KeepsMains (keep_battery m) p k = k

  pub run-KeepsMains :
      (xs : List Step) (p : On F zi zcl a) → KeepsMains p → KeepsMains (run F zi zcl a xs p)
  unfolding run
  run-KeepsMains [] p k = k
  run-KeepsMains (x ∷ xs) p k = run-KeepsMains xs (step F zi zcl a x p) (step-KeepsMains x p k)

  run-Keeps :
      (n : Battery) (xs : List Step) (p : On F zi zcl a) → Keeps n p → Keeps n (run F zi zcl a xs p)
  unfolding run
  run-Keeps n [] p k = k
  run-Keeps n (x ∷ xs) p k = run-Keeps n xs (step F zi zcl a x p) (step-Keeps n x p k)

  abbrev KeptBy : Battery → List Step → Type 0
  KeptBy n [] = ⊥
  KeptBy n (attach_monitor x ∷ xs) = KeptBy n xs
  KeptBy n (keep_battery m ∷ xs) = (n ≡ m) ⊎ KeptBy n xs

  run-KeptBy :
      (n : Battery) (xs : List Step) (p : On F zi zcl a)
      → KeptBy n xs
      → Keeps n (run F zi zcl a xs p)
  unfolding run step
  run-KeptBy n [] p here = absurd here
  run-KeptBy n (attach_monitor x ∷ xs) p later = run-KeptBy n xs _ later
  run-KeptBy n (keep_battery m ∷ xs) p (inl same) =
      run-Keeps n xs (step F zi zcl a (keep_battery m) p)
        (rw same (of_battery-same m _ p.i.s.present.battery))
  run-KeptBy n (keep_battery m ∷ xs) p (inr later) = run-KeptBy n xs _ later

  KeptBy-steps : (n : Battery) → KeptBy n steps
  KeptBy-steps battery1 = inl refl
  KeptBy-steps battery2 = inr (inl refl)
  KeptBy-steps battery3 = inr (inr (inl refl))

  pub run_steps-Keeps : (n : Battery) (p : On F zi zcl a) → Keeps n (run F zi zcl a steps p)
  run_steps-Keeps n p = run-KeptBy n steps p (KeptBy-steps n)
