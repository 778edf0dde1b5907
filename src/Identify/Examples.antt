-- ===== src/Identify/Examples.antt =====
-- A device that is asked to identify itself.
use zda.Base.{◌≡◌, refl, true, Option, none, List, [], ◌∷◌, arith, ◌+◌, ◌*◌, lookup}
use zda.Monitor
use zda.Monitor.{Monitor}
use zda.Implcaps.{one_second, get}
use zda.Implcaps.Examples.{interface, interface-Recovers, numbers, settings}
use zda.Sensor.{unsigned_int16, uint64}
use zda.Identify.{
  Section, Identify, init, load, enumerate, identify, status, update, update_duration,
  periodic_send_event, send_event, fire, identify_seconds,
}
use zda.Identify.Remaining.{IsNear, identify-IsNear}
use zda.Identify.Timers.{
  Action, reported, asked, fired, act, act_all, fire_all, IsOver, identification_ends,
}
use zda.Identify.Recovered.{identify_loads}

abbrev empty : Section
empty = record { remote_endpoint = none; end_time = none; last_changed = none; last_updated = none }

program : Unit {0}
unfolding lookup get init load enumerate identify status update update_duration periodic_send_event
    send_event fire act act_all fire_all
program = tt

abbrev new : Identify (Monitor Unit)
new = init interface empty interface.no_section

abbrev identifying : Identify (Monitor Unit)
identifying = (identify interface numbers 5000 3700 new 0).1

-- The device is asked for 3700 milliseconds, of which it takes 3 seconds.
half_way : status 6500 identifying ≡ record { identifying = true; remaining = 1500 }
unfolding program
half_way = refl

identify-IsNear_example :
    IsNear 6500 (5000 + identify_seconds 3700 * one_second) (status 6500 identifying)
unfolding program
identify-IsNear_example =
    identify-IsNear interface numbers 5000 3700 6500 new identifying 0 0 (omega arith) refl

abbrev actions : List Action
actions =
    asked 5000 3700
    ∷ fired 6000 6000
    ∷ reported 6100 (record { data_type = unsigned_int16; value = uint64 1 })
    ∷ []

-- Two timers are pending, since the report starts another one.
pending : (act_all interface numbers actions (new, 0)).0.timers ≡ 7100 ∷ 7000 ∷ []
unfolding program
pending = refl

identification_ends_example :
    ((fire_all 8000
        (act_all interface numbers actions (new, 0)).0.timers
        (act_all interface numbers actions (new, 0)).0).timers
      ≡ [])
    × IsOver
        (fire_all 8000
          (act_all interface numbers actions (new, 0)).0.timers
          (act_all interface numbers actions (new, 0)).0).sent
unfolding program
identification_ends_example =
    identification_ends interface numbers actions empty interface.no_section 0 8000
      (omega arith, (omega arith, tt)) (omega arith)

abbrev enumerated : Identify (Monitor Unit)
enumerated = (enumerate interface numbers settings new 0).1

abbrev no_error : Option interface.Failure
no_error = none

identify_loads_example :
    (no_error ≡ none)
    × ((load interface (init interface enumerated.s (interface.section enumerated.am)) 0).0
        ≡ (true, none))
    × ((load interface
          (init interface enumerated.s (interface.section enumerated.am))
          0).1.remote_endpoint
        ≡ enumerated.remote_endpoint)
unfolding program Monitor.attach Monitor.poll Monitor.report Monitor.reattach
identify_loads_example =
    identify_loads interface numbers settings new enumerated 0 0 0 no_error interface-Recovers refl
