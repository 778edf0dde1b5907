-- ===== src/Sensor.antt =====
-- The readings of the ZCL sensors: implcaps/zcl/temperature_sensor/impl.go, and humidity_sensor
-- and pressure_sensor beside it. A sensor is what its section holds, with the events it has sent.
pub mod Tracking
pub mod Attached
pub mod Heard
pub mod Examples
use zda.Base.{
  ℕ, ℤ, pos, negsuc, Bool, true, false, Option, none, some, List, [], ◌∷◌, ◌==◌, if◌then◌else◌,
  nat_key,
}

-- Go's float64. `decimal n k` is the literal with the digits `n`, of which `k` stand behind the
-- point.
pub record Floats : Type 1 where
  pub Float : Type 0
  pub of_int : ℤ → Float
  pub of_uint : ℕ → Float
  pub decimal : ℕ → ℕ → Float
  pub plus : Float → Float → Float
  pub minus : Float → Float → Float
  pub over : Float → Float → Float
  pub abs : Float → Float
  pub greater : Float → Float → Bool
  pub at_least : Float → Float → Bool

-- The dynamic type and value of an attribute.
pub data Value : Type 0 where
  int64 : ℤ → Value
  uint64 : ℕ → Value
  uint8 : ℕ → Value
  other_value : Value

pub data DataType : Type 0 where
  signed_int16 unsigned_int16 other_type : DataType

-- zcl.AttributeDataTypeValue
pub record AttributeDataTypeValue : Type 0 where
  pub data_type : DataType
  pub value : Value

pub data Kind : Type 0 where
  temperature humidity pressure : Kind

-- The keys of the section, and the updates sent, the newest first.
pub record Sensor (F : Type 0) : Type 0 where
  pub reading : Option F
  pub last_changed : Option ℕ
  pub last_updated : Option ℕ
  pub sent : List F

module _ (f : Floats) where
  open f use {Float, decimal}

  abbrev pub zero_float : Float
  zero_float = decimal 0 0

  -- A key that the section does not have reads as 0.
  abbrev or_zero : Option Float → Float
  or_zero none = zero_float
  or_zero (some x) = x

  -- Reading
  unfoldable pub reading : Sensor Float → Float
  reading s = or_zero s.reading

  abbrev signed : DataType → Value → (ℤ → Float) → Option Float
  signed signed_int16 (int64 value) convert = some (convert value)
  signed _ _ convert = none

  abbrev unsigned : DataType → Value → (ℕ → Float) → Option Float
  unsigned unsigned_int16 (uint64 value) convert = some (convert value)
  unsigned _ _ convert = none

  -- The tests of the type and the conversion of the value, at the start of each `update`.
  unfoldable pub new_value : Kind → AttributeDataTypeValue → Option Float
  new_value temperature v =
      signed v.data_type v.value
        (λ value. f.plus (f.over (f.of_int value) (decimal 1000 1)) (decimal 27315 2))
  new_value humidity v =
      unsigned v.data_type v.value (λ value. f.over (f.of_uint value) (decimal 100000 1))
  new_value pressure v =
      signed v.data_type v.value (λ value. f.over (f.of_int value) (decimal 100 1))

  abbrev pub threshold : Kind → Float
  threshold temperature = decimal 1 1
  threshold humidity = decimal 1 2
  threshold pressure = decimal 1 1

  -- The rest of `update`, at the time `now`.
  unfoldable pub take_value : Kind → ℕ → Float → Sensor Float → Sensor Float
  take_value kind now value s =
      let s1 =
        if f.greater (f.abs (f.minus value (reading s))) (threshold kind)
        then record s { reading = some value; last_changed = some now; sent = value ∷ s.sent }
        else s in
      record s1 { last_updated = some now }

  abbrev taken : Kind → ℕ → Option Float → Sensor Float → Sensor Float
  taken kind now none s = s
  taken kind now (some value) s = take_value kind now value s

  -- update
  unfoldable pub update : Kind → ℕ → AttributeDataTypeValue → Sensor Float → Sensor Float
  update kind now v s = taken kind now (new_value kind v) s

  unfoldable pub update_all : Kind → List (ℕ × AttributeDataTypeValue) → Sensor Float → Sensor Float
  update_all kind [] s = s
  update_all kind ((now, v) ∷ vs) s = update_all kind vs (update kind now v s)

-- LastUpdateTime
unfoldable pub last_update_time : {F : Type 0} → Sensor F → Option ℕ
last_update_time s = s.last_updated

-- LastChangeTime
unfoldable pub last_change_time : {F : Type 0} → Sensor F → Option ℕ
last_change_time s = s.last_changed
