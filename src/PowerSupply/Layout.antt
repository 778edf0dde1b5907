-- ===== src/PowerSupply/Layout.antt =====
-- The arrays of an Implementation, and what it reads from a device: each source has a flag, a
-- monitor and a reading.
use zda.Base.{◌≡◌, refl}

pub data Battery : Type 0 where
  battery1 battery2 battery3 : Battery

pub record Three (A : Type 0) : Type 0 where
  pub first : A
  pub second : A
  pub third : A

pub data Source : Type 0 where
  mains_voltage mains_frequency : Source
  battery_voltage battery_percentage : Battery → Source

pub record Sources (A : Type 0) : Type 0 where
  pub mains_voltage : A
  pub mains_frequency : A
  pub battery_voltage : Three A
  pub battery_percentage : Three A

module _ {A : Type 0} where
  abbrev pub of_battery : Battery → Three A → A
  of_battery battery1 t = t.first
  of_battery battery2 t = t.second
  of_battery battery3 t = t.third

  abbrev pub with_battery : Battery → A → Three A → Three A
  with_battery battery1 x t = record t { first = x }
  with_battery battery2 x t = record t { second = x }
  with_battery battery3 x t = record t { third = x }

  abbrev pub of_source : Source → Sources A → A
  of_source mains_voltage s = s.mains_voltage
  of_source mains_frequency s = s.mains_frequency
  of_source (battery_voltage n) s = of_battery n s.battery_voltage
  of_source (battery_percentage n) s = of_battery n s.battery_percentage

  abbrev pub with_source : Source → A → Sources A → Sources A
  with_source mains_voltage x s = record s { mains_voltage = x }
  with_source mains_frequency x s = record s { mains_frequency = x }
  with_source (battery_voltage n) x s = record s {
    battery_voltage = with_battery n x s.battery_voltage;
  }
  with_source (battery_percentage n) x s = record s {
    battery_percentage = with_battery n x s.battery_percentage;
  }

-- What holds of a value that is put into an array or a set of sources, and held there before, holds
-- there afterwards.
module _ {A : Type 0} where
  pub of_battery-same : (n : Battery) (x : A) (t : Three A) → of_battery n (with_battery n x t) ≡ x
  of_battery-same battery1 x t = refl
  of_battery-same battery2 x t = refl
  of_battery-same battery3 x t = refl

  pub of_battery-kept :
      (P : Battery → A → Type 0) (n m : Battery) (x : A) (t : Three A)
      → P m x
      → P n (of_battery n t)
      → P n (of_battery n (with_battery m x t))
  of_battery-kept P battery1 battery1 x t new old = new
  of_battery-kept P battery1 battery2 x t new old = old
  of_battery-kept P battery1 battery3 x t new old = old
  of_battery-kept P battery2 battery1 x t new old = old
  of_battery-kept P battery2 battery2 x t new old = new
  of_battery-kept P battery2 battery3 x t new old = old
  of_battery-kept P battery3 battery1 x t new old = old
  of_battery-kept P battery3 battery2 x t new old = old
  of_battery-kept P battery3 battery3 x t new old = new

  pub of_source-same :
      (source : Source) (x : A) (s : Sources A) → of_source source (with_source source x s) ≡ x
  of_source-same mains_voltage x s = refl
  of_source-same mains_frequency x s = refl
  of_source-same (battery_voltage n) x s = of_battery-same n x s.battery_voltage
  of_source-same (battery_percentage n) x s = of_battery-same n x s.battery_percentage

  pub of_source-kept :
      (P : Source → A → Type 0) (source other : Source) (x : A) (s : Sources A)
      → P other x
      → P source (of_source source s)
      → P source (of_source source (with_source other x s))
  of_source-kept P mains_voltage mains_voltage x s new old = new
  of_source-kept P mains_voltage mains_frequency x s new old = old
  of_source-kept P mains_voltage (battery_voltage m) x s new old = old
  of_source-kept P mains_voltage (battery_percentage m) x s new old = old
  of_source-kept P mains_frequency mains_voltage x s new old = old
  of_source-kept P mains_frequency mains_frequency x s new old = new
  of_source-kept P mains_frequency (battery_voltage m) x s new old = old
  of_source-kept P mains_frequency (battery_percentage m) x s new old = old
  of_source-kept P (battery_voltage n) mains_voltage x s new old = old
  of_source-kept P (battery_voltage n) mains_frequency x s new old = old
  of_source-kept P (battery_voltage n) (battery_voltage m) x s new old =
      of_battery-kept (λ k. P (battery_voltage k)) n m x s.battery_voltage new old
  of_source-kept P (battery_voltage n) (battery_percentage m) x s new old = old
  of_source-kept P (battery_percentage n) mains_voltage x s new old = old
  of_source-kept P (battery_percentage n) mains_frequency x s new old = old
  of_source-kept P (battery_percentage n) (battery_voltage m) x s new old = old
  of_source-kept P (battery_percentage n) (battery_percentage m) x s new old =
      of_battery-kept (λ k. P (battery_percentage k)) n m x s.battery_percentage new old
