-- ===== src/Monitor.antt =====
-- attribute/monitor.go: a monitor of one attribute of a device, by reports or by polling.
pub mod Restored
pub mod Reports
mod Examples
use zda.Base.{
  ◌+◌, ◌/◌, ◌%◌, ℕ, suc, String, Bool, true, false, Option, none, some, List, [], ◌∷◌, ◌++◌, remove,
  ◌&&◌, ◌||◌, ◌==◌, if◌then◌else◌, nat_key,
}

pub data PollingMode : Type 0 where
  poll_if_reporting_failed always_poll never_poll : PollingMode

pub record PollingConfig : Type 0 where
  pub mode : PollingMode
  pub interval : ℕ

pub data ReportingMode : Type 0 where
  attempt_configure_reporting never_configure_reporting : ReportingMode

pub record ReportingConfig : Type 0 where
  pub mode : ReportingMode
  pub minimum_interval : ℕ
  pub maximum_interval : ℕ
  pub reportable_change : Option ℕ

-- The section of a monitor, one field for each key.
pub record Config : Type 0 where
  pub reporting_configured : Option Bool
  pub polling_configured : Option Bool
  pub polling_interval : Option ℕ
  pub remote_endpoint : Option ℕ
  pub cluster_id : Option ℕ
  pub attribute_id : Option ℕ
  pub attribute_data_type : Option ℕ

-- What a transmission needs: the address, the local endpoint, the acknowledgement, the sequence.
pub record Transmission : Type 0 where
  pub ieee_address : ℕ
  pub local_endpoint : ℕ
  pub ack : Bool
  pub seq : ℕ

-- ConfigureReporting's arguments, after the transmission and the remote endpoint.
pub record Reporting : Type 0 where
  pub cluster_id : ℕ
  pub attribute_id : ℕ
  pub attribute_data_type : ℕ
  pub minimum_interval : ℕ
  pub maximum_interval : ℕ
  pub reportable_change : Option ℕ

-- The node binder, the ZCL communicator and the lookup of a transmission, with the network's state.
pub record Link : Type 1 where
  pub Net : Type 0
  pub Failure : Type 0
  pub transmission_lookup : Net → Transmission × Net
  pub bind_node_to_controller : ℕ → ℕ → ℕ → ℕ → Net → Option Failure × Net
  pub configure_reporting : Transmission → ℕ → Reporting → Net → Option Failure × Net

-- zclMonitor. `matches` is what the communicator has registered for it, by number.
pub record Monitor (N : Type 0) : Type 0 where
  pub config : Config
  pub match : ℕ
  pub matches : List ℕ
  pub next_match : ℕ
  pub ieee_address : ℕ
  pub remote_endpoint : ℕ
  pub local_endpoint : ℕ
  pub cluster_id : ℕ
  pub attribute_id : ℕ
  pub attribute_data_type : ℕ
  pub ticker : Option ℕ
  pub net : N

pub data MonitorError (F : Type 0) : Type 0 where
  missing_config : String → MonitorError F
  reporting_failed : F → MonitorError F

-- The interval that Retrieve gives, with five minutes, in milliseconds, where there is none.
abbrev or_five_minutes : Option ℕ → ℕ
or_five_minutes none = 300000
or_five_minutes (some d) = d

abbrev pub start_ticker : Option Bool → Option ℕ → Option ℕ → Option ℕ
start_ticker (some true) interval ticker = some (or_five_minutes interval)
start_ticker (some false) interval ticker = ticker
start_ticker none interval ticker = ticker

-- uint16(math.Round(d.Seconds())) of a duration in milliseconds.
abbrev seconds : ℕ → ℕ
seconds d = ((d + 500) / 1000) % 65536

-- reattach
unfoldable pub reattach : {N : Type 0} → Monitor N → Monitor N
reattach z = record z {
  match = z.next_match;
  matches = z.next_match ∷ z.matches;
  next_match = suc z.next_match;
  ticker = start_ticker z.config.polling_configured z.config.polling_interval z.ticker;
}

module _ (l : Link) where
  open l use {Net, Failure}

  abbrev pub Outcome : Type 0
  Outcome = Option (MonitorError Failure) × Monitor Net

  -- if v, ok := …; ok { rest } else { return an error for the key }
  abbrev pub require : String → Option ℕ → Monitor Net → (ℕ → Outcome) → Outcome
  require key none z rest = (some (missing_config key), z)
  require key (some v) z rest = rest v

  abbrev pub looked_up : Monitor Net → Monitor Net
  looked_up z =
      let (t, net) = l.transmission_lookup z.net in
      record z { ieee_address = t.ieee_address; local_endpoint = t.local_endpoint; net = net }

  -- Load
  unfoldable pub load : Monitor Net → Outcome
  load z =
      let z1 = looked_up z in
      require "RemoteEndpoint" z1.config.remote_endpoint z1 λ e.
        let z2 : Monitor Net = record z1 { remote_endpoint = e } in
        require "ClusterID" z2.config.cluster_id z2 λ c.
          let z3 : Monitor Net = record z2 { cluster_id = c } in
          require "AttributeID" z3.config.attribute_id z3 λ a.
            let z4 : Monitor Net = record z3 { attribute_id = a } in
            require "AttributeDataType" z4.config.attribute_data_type z4
              λ dt. (none, reattach (record z4 { attribute_data_type = dt }))

  -- The start of Attach, that stores what is attached.
  abbrev pub stored : ℕ → ℕ → ℕ → ℕ → Monitor Net → Monitor Net
  stored e c a dt z = record z {
    remote_endpoint = e;
    cluster_id = c;
    attribute_id = a;
    attribute_data_type = dt;
    config = record z.config {
      remote_endpoint = some e;
      cluster_id = some c;
      attribute_id = some a;
      attribute_data_type = some dt;
    };
  }

  abbrev reporting_of : ReportingConfig → Monitor Net → Reporting
  reporting_of rc z = record {
    cluster_id = z.cluster_id;
    attribute_id = z.attribute_id;
    attribute_data_type = z.attribute_data_type;
    minimum_interval = seconds rc.minimum_interval;
    maximum_interval = seconds rc.maximum_interval;
    reportable_change = rc.reportable_change;
  }

  abbrev pub configured : Monitor Net → Option Failure × Net → Option Failure × Monitor Net
  configured z (some e, net) = (some e, record z { net = net })
  configured z (none, net) =
      (none, record z { net = net; config = record z.config { reporting_configured = some true } })

  abbrev pub bound :
      Transmission
      → ReportingConfig
      → Monitor Net
      → Option Failure × Net
      → Option Failure × Monitor Net
  bound t rc z (some e, net) = (some e, record z { net = net })
  bound t rc z (none, net) =
      configured z (l.configure_reporting t z.remote_endpoint (reporting_of rc z) net)

  -- The binding and the reporting, by rc.Mode: reportingErr, and the monitor.
  unfoldable pub report :
      Transmission → ReportingConfig → ReportingMode → Monitor Net → Option Failure × Monitor Net
  report t rc never_configure_reporting z = (none, z)
  report t rc attempt_configure_reporting z = bound t rc z (
      l.bind_node_to_controller t.ieee_address t.local_endpoint z.remote_endpoint z.cluster_id
        z.net)

  abbrev pub polled : PollingConfig → Monitor Net → Monitor Net
  polled pc z = record z {
    config = record z.config {
      polling_configured = some true;
      polling_interval = some pc.interval;
    };
  }

  -- The decision about polling, by reportingErr and the mode.
  unfoldable pub poll : PollingConfig → PollingMode → Option Failure × Monitor Net → Outcome
  poll pc always_poll (e, z) = (none, reattach (polled pc z))
  poll pc poll_if_reporting_failed (some e, z) = (none, reattach (polled pc z))
  poll pc poll_if_reporting_failed (none, z) = (none, reattach z)
  poll pc never_poll (some e, z) = (some (reporting_failed e), z)
  poll pc never_poll (none, z) = (none, reattach z)

  -- Attach
  unfoldable pub attach : ℕ → ℕ → ℕ → ℕ → ReportingConfig → PollingConfig → Monitor Net → Outcome
  attach e c a dt rc pc z =
      let t = (l.transmission_lookup z.net).0 in
      poll pc pc.mode (report t rc rc.mode (stored e c a dt (looked_up z)))

  abbrev unconfigured : Option Bool → Monitor Net → Monitor Net
  unconfigured (some true) z =
      let (t, net) = l.transmission_lookup z.net in
      let off : Reporting = record {
        cluster_id = z.cluster_id;
        attribute_id = z.attribute_id;
        attribute_data_type = z.attribute_data_type;
        minimum_interval = 65535;
        maximum_interval = 0;
        reportable_change = none;
      } in
      let t1 : Transmission = record t { local_endpoint = z.local_endpoint } in
      record z { net = (l.configure_reporting t1 z.remote_endpoint off net).1 }
  unconfigured (some false) z = z
  unconfigured none z = z

  abbrev forget : Monitor Net → Monitor Net
  forget z = record z {
    config = record z.config { reporting_configured = none; polling_configured = none };
  }

  -- Detach, up to the end of the poller that it stops.
  unfoldable pub detach : Bool → Monitor Net → Monitor Net
  detach unconfigure z =
      let z1 : Monitor Net = record z { matches = remove z.match z.matches } in
      let z2 =
        if unconfigure then forget (unconfigured z1.config.reporting_configured z1) else z1 in
      record z2 { ticker = none }
