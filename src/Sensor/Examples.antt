-- ===== src/Sensor/Examples.antt =====
-- A thermometer whose floats are numbers of hundredths.
use zda.Base.{
  ℤ, pos, negsuc, true, Option, none, lookup, ℕ, ◌+◌, ◌-◌, ◌≡◌, ◌↔◌, refl, ltb, leb, some, List, [],
  ◌∷◌, arith,
}
use zda.Sensor.{
  Floats, Sensor, Value, int64, uint64, signed_int16, unsigned_int16, AttributeDataTypeValue,
  temperature, humidity, pressure, reading, new_value, take_value, update, update_all,
}
use zda.Monitor
use zda.Monitor.{Monitor}
use zda.Implcaps.{get}
use zda.Implcaps.Examples.{fine, wire, transmission, interface, numbers, settings}
use zda.Monitor.Reports.{Message, ReportRecord, Occurs, deliver}
use zda.Sensor.Attached.{init, load, enumerate}
use zda.Sensor.Heard.{Reports, reloaded, sensor_hears}
use zda.Sensor.Tracking.{Tracks, IsReflexive, restarted, update-Tracks}

abbrev magnitude : ℤ → ℕ
magnitude (pos n) = n
magnitude (negsuc n) = 0

abbrev pub hundredths : Floats
hundredths = record {
  Float = ℕ;
  of_int = magnitude;
  of_uint = λ n. n;
  decimal = λ n k. n;
  plus = λ x y. x + y;
  minus = λ x y. (x - y) + (y - x);
  over = λ x y. x;
  abs = λ x. x;
  greater = λ x y. ltb y x;
  at_least = λ x y. leb y x;
}

hundredths-IsReflexive : IsReflexive hundredths
hundredths-IsReflexive temperature x = ground arith
hundredths-IsReflexive humidity x = ground arith
hundredths-IsReflexive pressure x = ground arith

program : Unit {0}
unfolding reading new_value take_value update update_all
program = tt

abbrev empty_section : Sensor ℕ
empty_section = record { reading = none; last_changed = none; last_updated = none; sent = [] }

-- A section from an older process, with a reading and its times.
abbrev older : Sensor ℕ
older = record {
  reading = some 29316;
  last_changed = some 3;
  last_updated = some 5;
  sent = 29316 ∷ [];
}

abbrev at_degree : ℕ → AttributeDataTypeValue
at_degree n = record { data_type = signed_int16; value = int64 (pos n) }

abbrev reports : List (ℕ × AttributeDataTypeValue)
reports =
    (10, at_degree 2000)
    ∷ (20, record { data_type = unsigned_int16; value = uint64 7 })
    ∷ (30, at_degree 2001)
    ∷ []

-- The second report has another type, and the third is near the first.
reports_sensor :
    update_all hundredths temperature reports (restarted hundredths empty_section) ≡ record {
      reading = some 29315;
      last_changed = some 10;
      last_updated = some 30;
      sent = 29315 ∷ [];
    }
unfolding program
reports_sensor = refl

update-Tracks_example : Tracks hundredths 29316 temperature 40 29415 (
    update hundredths temperature 40
      (at_degree 2100)
      (update_all hundredths temperature reports (restarted hundredths older)))
unfolding program
update-Tracks_example =
    update-Tracks hundredths older temperature reports 40 (at_degree 2100) 29415
      hundredths-IsReflexive refl

abbrev no_error : Option interface.Failure
no_error = none

attaching : Unit {0}
unfolding lookup get init load enumerate
attaching = tt

abbrev attached : Monitor Unit
attached = (enumerate interface numbers humidity settings (init interface interface.no_section) 0).1

sensor_hears_example :
    (no_error ≡ none)
    × ((reloaded fine wire attached 0).0 ≡ (true, none))
    × ((a : ℕ) (message : Message Value) (r : ReportRecord Value)
        → Occurs r (deliver (reloaded fine wire attached 0).1 a message)
          ↔ Reports numbers humidity transmission 4 a message r)
unfolding attaching zda.Monitor.attach zda.Monitor.poll zda.Monitor.report zda.Monitor.reattach
sensor_hears_example =
    sensor_hears fine wire numbers humidity settings (init interface interface.no_section) attached
      0 0 0 no_error refl
