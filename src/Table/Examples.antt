-- ===== src/Table/Examples.antt =====
-- A device with one capability.
use zda.Base.{ℕ, true, ◌≡◌, some, [], ◌∷◌, elem, is_some, nat_key}
use zda.Table.{Device}
use zda.Table.Capability.{device_capability, device_capabilities, device_capabilities_lem}
use zda.Table.Mirror.{device_has}
use zda.Provider.Examples.{small}

abbrev sensor : Device ℕ
sensor = record { device_id = 1; device_id_set = true; capabilities = (12, 12) ∷ [] }

device_capabilities_lem_example :
    (elem 12 (device_capabilities small sensor) ≡ is_some (device_capability small 12 sensor))
    × (device_has small 12 (some sensor) ≡ is_some (device_capability small 12 sensor))
device_capabilities_lem_example = device_capabilities_lem small 12 sensor
