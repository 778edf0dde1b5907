-- ===== src/Sensor/Heard.antt =====
-- A sensor on the monitors of attribute/monitor.go: what a new process that loads it listens to.
use zda.Base.{ℕ, Bool, true, ◌≡◌, refl, sym, ◌↔◌, Option, none, some, none≢some}
use zda.Monitor
use zda.Monitor.{Transmission, Link, Monitor, Outcome}
use zda.Monitor.Restored.{
  IsStored, IsFor, after_restart, attach-IsAttached, attach-IsFor, load-stored, load-IsFor,
}
use zda.Monitor.Reports.{ReportRecord, Message, Occurs, carried, deliver, deliver_exact}
use zda.Implcaps.{Settings, as_endpoint, get, Zcl}
use zda.Implcaps.Wired.{Wire, Error, Am, on_net, new_monitor, zda_interface, done, without_error}
use zda.Sensor.{Kind, temperature, humidity, pressure}
use zda.Sensor.Attached.{
  cluster, measured, data_type, reporting, polling, init, load, enumerate, unless_failed-true,
  unless_failed,
}

-- The cluster and the value are those that a sensor of the kind measures.
abbrev pub IsMeasured : {V : Type 0} → Zcl → Kind → ℕ → ReportRecord V → Type 0
IsMeasured zcl temperature c r =
    (c ≡ zcl.temperature_measurement_id)
    × (r.identifier ≡ zcl.measured_temperature)
    × (r.data_type ≡ zcl.type_signed_int16)
IsMeasured zcl humidity c r =
    (c ≡ zcl.relative_humidity_measurement_id)
    × (r.identifier ≡ zcl.measured_humidity)
    × (r.data_type ≡ zcl.type_unsigned_int16)
IsMeasured zcl pressure c r =
    (c ≡ zcl.pressure_measurement_id)
    × (r.identifier ≡ zcl.measured_pressure)
    × (r.data_type ≡ zcl.type_signed_int16)

-- The message goes from this endpoint of the device to the gateway, and has the measured value.
abbrev pub Reports :
    {V : Type 0} → Zcl → Kind → Transmission → ℕ → ℕ → Message V → ReportRecord V → Type 0
Reports zcl kind t e a m r =
    (a ≡ t.ieee_address)
    × (m.source_endpoint ≡ e)
    × (m.destination_endpoint ≡ t.local_endpoint)
    × (m.server_to_client ≡ true)
    × Occurs r (carried m.command)
    × IsMeasured zcl kind m.cluster_id r

-- The cluster, the attribute and the data type in the Attach of Enumerate are those of the kind.
as_measured :
    {V : Type 0} (zcl : Zcl) (kind : Kind) (c : ℕ) (r : ReportRecord V)
    → ((c ≡ cluster zcl kind)
        × (r.identifier ≡ measured zcl kind)
        × (r.data_type ≡ data_type zcl kind))
      ↔ IsMeasured zcl kind c r
as_measured zcl temperature c r = (λ all. all, λ all. all)
as_measured zcl humidity c r = (λ all. all, λ all. all)
as_measured zcl pressure c r = (λ all. all, λ all. all)

-- A monitor of these fields delivers what is addressed to it.
deliver-by_fields :
    {V N : Type 0} (z : Monitor N) (a address e local c at dt : ℕ) (m : Message V)
    (r : ReportRecord V)
    → z.ieee_address ≡ address
    → z.local_endpoint ≡ local
    → (z.remote_endpoint ≡ e)
      × (z.cluster_id ≡ c)
      × (z.attribute_id ≡ at)
      × (z.attribute_data_type ≡ dt)
    → Occurs r (deliver z a m) ↔ (
        ((a ≡ address)
          × (m.source_endpoint ≡ e)
          × (m.destination_endpoint ≡ local)
          × (m.server_to_client ≡ true)
          × (m.cluster_id ≡ c))
        × Occurs r (carried m.command)
        × ((r.identifier ≡ at) × (r.data_type ≡ dt)))
deliver-by_fields z a address e local c at dt m r is_address is_local (is_e, is_c, is_at, is_dt) =
    rw (← is_address, ← is_local, ← is_e, ← is_c, ← is_at, ← is_dt) (deliver_exact z a m r)

module _ (l : Link) {V : Type 0} (w : Wire l V) where
  open l use {Net}

  abbrev endpoint_of : Settings → ℕ
  endpoint_of m = get as_endpoint m "ZigbeeEndpoint" 1

  -- The sensor that a new process loads from the section of one.
  abbrev pub reloaded : Am l → Net → (Bool × Option (Error l)) × Am l × Net
  reloaded am net = load (zda_interface l w) (init (zda_interface l w) am.config) net

  -- It is attached, and its monitor has these fields.
  abbrev Loads : Transmission → ℕ → ℕ → ℕ → ℕ → (Bool × Option (Error l)) × Am l × Net → Type 0
  Loads t e c a dt r =
      (r.0 ≡ (true, none))
      × (r.1.ieee_address ≡ t.ieee_address)
      × (r.1.local_endpoint ≡ t.local_endpoint)
      × (r.1.remote_endpoint ≡ e)
      × (r.1.cluster_id ≡ c)
      × (r.1.attribute_id ≡ a)
      × (r.1.attribute_data_type ≡ dt)

  unless_failed-Loads :
      (t : Transmission) (e c a dt : ℕ) (o : Outcome l)
      → o.0 ≡ none
      → IsFor l e c a dt o.1
      → o.1.ieee_address ≡ t.ieee_address
      → o.1.local_endpoint ≡ t.local_endpoint
      → Loads t e c a dt (unless_failed (zda_interface l w) (done l o))
  unless_failed-Loads t e c a dt (none, z) fine (is_e, is_c, is_a, is_dt) address local =
      (refl, address, local, is_e, is_c, is_a, is_dt)
  unless_failed-Loads t e c a dt (some x, z) fine is_for address local =
      absurd (none≢some (sym fine))

  reloaded-Loads :
      (z : Monitor Net) (am : Am l) (net : Net) (e c a dt : ℕ)
      → IsStored l z
      → IsFor l e c a dt z
      → on_net tt z ≡ am
      → Loads (l.transmission_lookup net).0 e c a dt (reloaded am net)
  unfolding load init
  reloaded-Loads z am net e c a dt in_section is_for same =
      let fresh : Monitor Net = on_net net (new_monitor z.config tt) in
      let (kept, address, local) = load-IsFor l z fresh in_section is_for in
      rw (← same) (
        unless_failed-Loads (l.transmission_lookup net).0 e c a dt
          (zda.Monitor.load l (after_restart l z.config fresh)) (load-stored l z fresh in_section)
          kept address local)

  -- Attach as Enumerate of the kind calls it.
  attached-Loads :
      (zcl : Zcl) (kind : Kind) (m : Settings) (am am' : Am l) (net net' later : Net)
      (e : Option (Error l))
      → enumerate (zda_interface l w) zcl kind m am net ≡ ((true, e), am', net')
      → (e ≡ none)
        × Loads
            (l.transmission_lookup later).0
            (endpoint_of m)
            (cluster zcl kind)
            (measured zcl kind)
            (data_type zcl kind)
            (reloaded am' later)
  unfolding enumerate
  attached-Loads zcl kind m am am' net net' later e q =
      let o =
        zda.Monitor.attach l (endpoint_of m) (cluster zcl kind) (measured zcl kind)
          (data_type zcl kind) (reporting kind) polling (on_net net am) in
      let (attached, fine) = unless_failed-true (zda_interface l w) (done l o) e am' net' q in
      let (good, same) = without_error l o am' net' attached in
      (
        fine,
        reloaded-Loads o.1 am' later (endpoint_of m) (cluster zcl kind) (measured zcl kind)
            (data_type zcl kind) (attach-IsAttached l _ _ _ _ _ _ (on_net net am) o.1 good).0
            (attach-IsFor l _ _ _ _ _ _ (on_net net am) o.1 good) same,
      )

  -- When Enumerate of a sensor says that it attaches, it reports no error, and Load of a new
  -- process on its section attaches without an error, whatever the network does by then. A value
  -- then reaches `update` of the new process exactly when a message from the endpoint that the
  -- settings name, of the device as the gateway looks it up then, reports it, and cluster,
  -- attribute and data type are those that a sensor of the kind measures.
  pub sensor_hears :
      (zcl : Zcl) (kind : Kind) (m : Settings) (am am' : Am l) (net net' later : Net)
      (e : Option (Error l))
      → enumerate (zda_interface l w) zcl kind m am net ≡ ((true, e), am', net')
      → (e ≡ none)
        × ((reloaded am' later).0 ≡ (true, none))
        × ((a : ℕ) (message : Message V) (r : ReportRecord V)
            → Occurs r (deliver (reloaded am' later).1 a message)
              ↔ Reports zcl kind (l.transmission_lookup later).0 (endpoint_of m) a message r)
  sensor_hears zcl kind m am am' net net' later e q =
      let t = (l.transmission_lookup later).0 in
      let (fine, (loads, address, local, is_e, is_c, is_a, is_dt)) =
        attached-Loads zcl kind m am am' net net' later e q in
      (
        fine,
        loads,
        λ a message r.
            let both =
              deliver-by_fields (reloaded am' later).1 a t.ieee_address (endpoint_of m)
                t.local_endpoint (cluster zcl kind) (measured zcl kind) (data_type zcl kind) message
                r address local (is_e, is_c, is_a, is_dt) in
            let of_kind = as_measured zcl kind message.cluster_id r in
            (
              λ here.
                  let (x, there, u) = both.0 here in
                  (x.0, x.1, x.2, x.3, there, of_kind.0 (x.4, u.0, u.1)),
              λ all.
                  let (x, y, u, v, there, c) = all in
                  let own = of_kind.1 c in both.1 ((x, y, u, v, own.0), there, (own.1, own.2)),
            ),
      )
