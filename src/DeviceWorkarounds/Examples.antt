-- ===== src/DeviceWorkarounds/Examples.antt =====
-- The workarounds at concrete settings.
use zda.Base.{String, ◌≡◌, refl, true, none, [], ◌∷◌}
use zda.Implcaps.{Settings, endpoint, bool}
use zda.Implcaps.Examples.{interface, numbers}
use zda.DeviceWorkarounds.{
  DeviceWorkarounds, init, load, load_all, load_workaround, enumerate, enumerate_all,
  enumerate_workaround, enumerate_keep_alive, enabled,
}
use zda.DeviceWorkarounds.Recovered.{device_workarounds_loads}

abbrev settings : Settings
settings =
    ("ZigbeeEndpoint", endpoint 2)
    ∷ ("EnableZCLReportingKeepAlive", bool true)
    ∷ ("EnableOther", bool true)
    ∷ []

-- A workaround from an older enumeration.
abbrev before : DeviceWorkarounds
before = init ("Older" ∷ [])

abbrev after : DeviceWorkarounds
after = (enumerate interface numbers settings before 0).1

device_workarounds_loads_example :
    (true ≡ true)
    × (enabled after ≡ "ZCLReportingKeepAlive" ∷ [])
    × (load {F = interface.Failure} (init after.workarounds) ≡ ((true, none), after))
unfolding enumerate enumerate_all enumerate_workaround enumerate_keep_alive
device_workarounds_loads_example =
    device_workarounds_loads interface numbers settings before after 0 0 true
      (refl, (refl, (refl, tt))) refl

-- A second Load of the same Implementation lists a workaround twice.
loaded_twice :
    enabled (load {F = String} (load {F = String} (init ("Older" ∷ []))).1).1
    ≡ "Older" ∷ "Older" ∷ []
unfolding load load_all load_workaround init enabled
loaded_twice = refl
