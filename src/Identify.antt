-- ===== src/Identify.antt =====
-- implcaps/zcl/identify/impl.go: a device that identifies itself for some time. A time and a
-- duration are numbers of milliseconds, and a call reads the clock once, where the source reads it
-- again in the same call. A duration that is negative is left out.
pub mod Recovered
pub mod Remaining
pub mod Timers
mod Examples
use Prim.Native.Nat.{min}
use zda.Base.{
  ◌+◌, ◌-◌, ◌*◌, ◌/◌, ℕ, Bool, true, false, Option, none, some, List, [], ◌∷◌, if◌then◌else◌, leb,
  ltb, elem, nat_key, ◌==◌, ◌&&◌,
}
use zda.Table.{DetachType}
use zda.Monitor.{
  Transmission, attempt_configure_reporting, ReportingConfig, poll_if_reporting_failed,
  PollingConfig,
}
use zda.Implcaps.{
  Settings, as_endpoint, get, Zcl, one_second, one_minute, five_minutes, Request, ZdaInterface,
}
use zda.Sensor.{DataType, unsigned_int16, Value, uint64, AttributeDataTypeValue}
use zda.Sensor.Attached.{is_no_longer_enumerated}

-- capabilities.IdentifyState, which IdentifyUpdate carries too.
pub record IdentifyState : Type 0 where
  pub identifying : Bool
  pub remaining : ℕ

-- The keys of the section of an Implementation.
pub record Section : Type 0 where
  pub remote_endpoint : Option ℕ
  pub end_time : Option ℕ
  pub last_changed : Option ℕ
  pub last_updated : Option ℕ

-- Implementation. `timers` has when those are due that time.AfterFunc started and that have not
-- fired, since the source keeps no more than the newest in `timer`; `sent` is the events sent, the
-- newest first.
pub record Identify (Am : Type 0) : Type 0 where
  pub s : Section
  pub am : Am
  pub remote_endpoint : ℕ
  pub timer : Option ℕ
  pub timers : List ℕ
  pub sent : List IdentifyState

abbrev pub or_time : ℕ → Option ℕ → ℕ
or_time default none = default
or_time default (some t) = t

-- How long it is from `now` to `end`, 0 when that is past.
abbrev pub until : ℕ → ℕ → ℕ
until now end = end - now

-- How far two durations are apart.
abbrev pub apart : ℕ → ℕ → ℕ
apart d e = (d - e) + (e - d)

-- The list without one timer that is due then.
abbrev pub take_out : ℕ → List ℕ → List ℕ
take_out due [] = []
take_out due (t ∷ ts) = let rest = take_out due ts in if t == due then ts else t ∷ rest

-- The errors of Load.
pub data LoadError (F : Type 0) : Type 0 where
  missing_remote_endpoint : LoadError F
  monitor_failed : F → LoadError F

module _ {Am : Type 0} where
  -- sendEvent: whether the device is identifying, and the state.
  unfoldable pub send_event : ℕ → Identify Am → Bool × Identify Am
  send_event now i =
      let remaining = until now (or_time now i.s.end_time) in
      let identifying = ltb 0 remaining in
      (
        identifying,
        record i { sent = record { identifying = identifying; remaining = remaining } ∷ i.sent },
      )

  -- The end of periodicSendEvent.
  abbrev pub timed : ℕ → Bool × Identify Am → Identify Am
  timed now (true, i) = record i {
    timer = some (now + one_second);
    timers = (now + one_second) ∷ i.timers;
  }
  timed now (false, i) = record i { timer = none }

  -- periodicSendEvent
  unfoldable pub periodic_send_event : ℕ → Identify Am → Identify Am
  periodic_send_event now i = timed now (send_event now i)

  abbrev pub ended_at : ℕ → ℕ → Identify Am → Identify Am
  ended_at now duration i = record i {
    s = record i.s { end_time = some (now + duration); last_changed = some now };
  }

  -- updateDuration
  unfoldable pub update_duration : ℕ → ℕ → Identify Am → Identify Am
  update_duration now duration i =
      let current = until now (or_time now i.s.end_time) in
      let i1 =
        if leb 250 (apart current duration)
        then periodic_send_event now (ended_at now duration i)
        else i in
      record i1 { s = record i1.s { last_updated = some now } }

  abbrev updated : ℕ → DataType → Value → Identify Am → Identify Am
  updated now unsigned_int16 (uint64 seconds) i = update_duration now (seconds * one_second) i
  updated now _ _ i = i

  -- update
  unfoldable pub update : ℕ → AttributeDataTypeValue → Identify Am → Identify Am
  update now v i = updated now v.data_type v.value i

  -- Status
  unfoldable pub status : ℕ → Identify Am → IdentifyState
  status now i =
      let remaining = until now (or_time 0 i.s.end_time) in
      record { identifying = ltb 0 remaining; remaining = remaining }

  -- A timer that is due fires, at `now` or not at all.
  unfoldable pub fire : ℕ → ℕ → Identify Am → Identify Am
  fire now due i =
      if elem due i.timers && leb due now
      then periodic_send_event now (record i { timers = take_out due i.timers })
      else i

-- uint16(math.Min(0xffff, identifySeconds))
abbrev pub identify_seconds : ℕ → ℕ
identify_seconds duration = min 65535 (duration / one_second)

module _ {V : Type 0} (zi : ZdaInterface V) where
  open zi use {Net, Failure, Am, MonitorSection}

  abbrev pub Returned : Type 0
  Returned = (Bool × Option Failure) × Identify Am × Net

  abbrev pub unless_failed : Identify Am → Option Failure × Am × Net → Returned
  unless_failed i (none, am, net) = ((true, none), record i { am = am }, net)
  unless_failed i (some e, am, net) = ((false, some e), record i { am = am }, net)

  -- NewIdentify and Init, on the section and that of the monitor in it.
  unfoldable pub init : Section → MonitorSection → Identify Am
  init s monitor_section = record {
    s = s;
    am = zi.monitor monitor_section;
    remote_endpoint = 0;
    timer = none;
    timers = [];
    sent = [];
  }

  abbrev pub loaded :
      Identify Am
      → Option Failure × Am × Net
      → (Bool × Option (LoadError Failure)) × Identify Am × Net
  loaded i (none, am, net) = ((true, none), record i { am = am }, net)
  loaded i (some e, am, net) = ((false, some (monitor_failed e)), record i { am = am }, net)

  abbrev pub load_from :
      Option ℕ → Identify Am → Net → (Bool × Option (LoadError Failure)) × Identify Am × Net
  load_from none i net = ((false, some missing_remote_endpoint), i, net)
  load_from (some e) i net = loaded (record i { remote_endpoint = e }) (zi.load i.am net)

  -- Load
  unfoldable pub load : Identify Am → Net → (Bool × Option (LoadError Failure)) × Identify Am × Net
  load i net = load_from i.s.remote_endpoint i net

  abbrev reporting : ReportingConfig
  reporting = record {
    mode = attempt_configure_reporting;
    minimum_interval = one_second;
    maximum_interval = five_minutes;
    reportable_change = some 1;
  }

  abbrev polling : PollingConfig
  polling = record { mode = poll_if_reporting_failed; interval = one_minute }

  abbrev pub at_endpoint : ℕ → Identify Am → Identify Am
  at_endpoint e i = record i { remote_endpoint = e; s = record i.s { remote_endpoint = some e } }

  -- Enumerate
  unfoldable pub enumerate : Zcl → Settings → Identify Am → Net → Returned
  enumerate zcl m i net =
      let e = get as_endpoint m "ZigbeeEndpoint" 1 in
      unless_failed (at_endpoint e i) (
        zi.attach e zcl.identify_id zcl.identify_time zcl.type_unsigned_int16 reporting polling i.am
          net)

  -- Detach
  unfoldable pub detach : DetachType → Identify Am → Net → Option Failure × Identify Am × Net
  detach type i net =
      let (e, am, net1) = zi.detach (is_no_longer_enumerated type) i.am net in
      (e, record i { am = am }, net1)

  abbrev pub requested :
      ℕ → ℕ → Identify Am → Option Failure × Net → Option Failure × Identify Am × Net
  requested now seconds i (some e, net) = (some e, i, net)
  requested now seconds i (none, net) = (none, update_duration now (seconds * one_second) i, net)

  -- Identify
  unfoldable pub identify : Zcl → ℕ → ℕ → Identify Am → Net → Option Failure × Identify Am × Net
  identify zcl now duration i net =
      let (t, net1) = zi.transmission_lookup net in
      let seconds = identify_seconds duration in
      requested now seconds i (
        zi.request t
          (record {
            cluster_id = zcl.identify_id;
            destination_endpoint = i.remote_endpoint;
            command_identifier = zcl.identify_command;
            argument = seconds;
          })
          net1)
