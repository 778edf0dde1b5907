-- ===== src/Sensor/Tracking.antt =====
-- The reading follows the reported values within the sensor's threshold, and the events follow
-- the reading.
use zda.Base.{ℕ, false, ◌≡◌, refl, Option, none, some, List, [], ◌∷◌, Bool-cases, inl, inr}
use zda.Sensor.{
  Floats, AttributeDataTypeValue, Kind, Sensor, reading, new_value, threshold, take_value, taken,
  update, update_all, last_update_time,
}

module _ (f : Floats) where
  open f use {Float}

  -- The newest event, or a value from before there was one.
  abbrev newest : Float → List Float → Float
  newest before [] = before
  newest before (x ∷ xs) = x

  -- A client that reads the events, and knows the reading from before, knows the reading.
  pub record IsTold (before : Float) (s : Sensor Float) : Type 0 where
    pub told : reading f s ≡ newest before s.sent

  -- The reading is close enough to the value not to be changed by it.
  abbrev pub IsNear : Kind → Float → Float → Type 0
  IsNear kind x y = f.greater (f.abs (f.minus x y)) (threshold f kind) ≡ false

  -- No value is far from itself.
  abbrev pub IsReflexive : Type 0
  IsReflexive = (kind : Kind) (x : Float) → IsNear kind x x

  take_value-IsTold :
      (before : Float) (kind : Kind) (now : ℕ) (x : Float) (s : Sensor Float)
      → IsTold before s
      → IsTold before (take_value f kind now x s)
  unfolding take_value reading
  take_value-IsTold before kind now x s v =
      elim (Bool-cases (f.greater (f.abs (f.minus x (reading f s))) (threshold f kind))) [
        | inl far ↦ record { told = rw far refl }
        | inr near ↦ record { told = rw near v.told }
      ]

  take_value-IsNear :
      (kind : Kind) (now : ℕ) (x : Float) (s : Sensor Float)
      → IsReflexive
      → IsNear kind x (reading f (take_value f kind now x s))
  unfolding take_value reading
  take_value-IsNear kind now x s reflexive =
      elim (Bool-cases (f.greater (f.abs (f.minus x (reading f s))) (threshold f kind))) [
        | inl far ↦ rw far (reflexive kind x)
        | inr near ↦ rw near near
      ]

  update-IsTold :
      (before : Float) (kind : Kind) (now : ℕ) (v : AttributeDataTypeValue) (s : Sensor Float)
      → IsTold before s
      → IsTold before (update f kind now v s)
  unfolding update
  update-IsTold before kind now v s told = by_value (new_value f kind v)
    where
      by_value : (o : Option Float) → IsTold before (taken f kind now o s)
      by_value none = told
      by_value (some x) = take_value-IsTold before kind now x s told

  update_all-IsTold :
      (before : Float) (kind : Kind) (vs : List (ℕ × AttributeDataTypeValue)) (s : Sensor Float)
      → IsTold before s
      → IsTold before (update_all f kind vs s)
  unfolding update_all
  update_all-IsTold before kind [] s told = told
  update_all-IsTold before kind ((now, v) ∷ vs) s told =
      update_all-IsTold before kind vs (update f kind now v s)
        (update-IsTold before kind now v s told)

  -- What a new process makes of the section of a sensor: no event is sent yet.
  abbrev pub restarted : Sensor Float → Sensor Float
  restarted s = record s { sent = [] }

  restarted-IsTold : (s : Sensor Float) → IsTold (reading f s) (restarted s)
  unfolding reading
  restarted-IsTold s = record { told = refl }

  -- What a value of the right type leaves.
  pub record Tracks (before : Float) (kind : Kind) (now : ℕ) (x : Float) (s : Sensor Float)
      : Type 0 where
    pub near : IsNear kind x (reading f s)
    pub told : reading f s ≡ newest before s.sent
    pub updated : last_update_time s ≡ some now

  take_value-Tracks :
      (before : Float) (kind : Kind) (now : ℕ) (x : Float) (s : Sensor Float)
      → IsReflexive
      → IsTold before s
      → Tracks before kind now x (take_value f kind now x s)
  unfolding take_value last_update_time
  take_value-Tracks before kind now x s reflexive v = record {
    near = take_value-IsNear kind now x s reflexive;
    told = (take_value-IsTold before kind now x s v).told;
    updated = refl;
  }

  -- When no float is further from itself than the threshold: in a new process, whatever the
  -- section of the sensor has, and after any reports, a report with a value of the sensor's type
  -- leaves a reading that is within the threshold of the value; it is the one of the newest event
  -- that the process has sent, or, if it has sent none, the reading that the process started with;
  -- and the time of the last update is the time of the report.
  pub update-Tracks :
      (s : Sensor Float) (kind : Kind) (vs : List (ℕ × AttributeDataTypeValue)) (now : ℕ)
      (v : AttributeDataTypeValue) (x : Float)
      → IsReflexive
      → new_value f kind v ≡ some x
      → Tracks (reading f s) kind now x (update f kind now v (update_all f kind vs (restarted s)))
  unfolding update
  update-Tracks s kind vs now v x reflexive valid = rw valid (
      take_value-Tracks (reading f s) kind now x (update_all f kind vs (restarted s)) reflexive
        (update_all-IsTold (reading f s) kind vs (restarted s) (restarted-IsTold s)))
