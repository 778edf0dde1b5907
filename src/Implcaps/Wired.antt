-- ===== src/Implcaps/Wired.antt =====
-- zda_interface.go: the interface that the gateway gives, with the monitors of attribute/monitor.go.
use zda.Base.{ℕ, ◌⊎◌, inl, inr, ◌≡◌, refl, ap, sym, Option, none, some, none≢some, List, []}
use zda.Monitor
use zda.Monitor.{
  Transmission, Reporting, PollingConfig, ReportingConfig, Config, Link, Monitor, MonitorError,
  load, attach, Outcome,
}
use zda.Monitor.Restored.{IsStored, attach-IsAttached, load-stored}
use zda.Implcaps.{ReadOutcome, Request, ZdaInterface}
use zda.Implcaps.Recovery.{Recovers}

-- An error of a monitor, or of the network.
abbrev pub Error : Link → Type 0
Error l = MonitorError l.Failure ⊎ l.Failure

-- The calls of the communicator that no monitor makes.
pub record Wire (l : Link) (V : Type 0) : Type 0 where
  pub read_attributes : Transmission → ℕ → ℕ → List ℕ → l.Net → ReadOutcome V (Error l) × l.Net
  pub request : Transmission → Request → l.Net → Option (Error l) × l.Net

abbrev empty_config : Config
empty_config = record {
  reporting_configured = none;
  polling_configured = none;
  polling_interval = none;
  remote_endpoint = none;
  cluster_id = none;
  attribute_id = none;
  attribute_data_type = none;
}

-- NewMonitor and Init.
abbrev pub new_monitor : {N : Type 0} → Config → N → Monitor N
new_monitor config net = record {
  config = config;
  match = 0;
  matches = [];
  next_match = 1;
  ieee_address = 0;
  remote_endpoint = 0;
  local_endpoint = 0;
  cluster_id = 0;
  attribute_id = 0;
  attribute_data_type = 0;
  ticker = none;
  net = net;
}

-- A monitor that is not at work leaves the network to the others.
abbrev pub on_net : {N M : Type 0} → M → Monitor N → Monitor M
on_net net z = record {
  config = z.config;
  match = z.match;
  matches = z.matches;
  next_match = z.next_match;
  ieee_address = z.ieee_address;
  remote_endpoint = z.remote_endpoint;
  local_endpoint = z.local_endpoint;
  cluster_id = z.cluster_id;
  attribute_id = z.attribute_id;
  attribute_data_type = z.attribute_data_type;
  ticker = z.ticker;
  net = net;
}

module _ (l : Link) where
  open l use {Net, Failure}

  abbrev pub Am : Type 0
  Am = Monitor Unit

  abbrev pub monitor_error : Option (MonitorError Failure) → Option (Error l)
  monitor_error none = none
  monitor_error (some e) = some (inl e)

  abbrev pub done : Outcome l → Option (Error l) × Am × Net
  done (e, z) = (monitor_error e, on_net tt z, z.net)

  abbrev failure : Option Failure × Net → Option (Error l) × Net
  failure (none, net) = (none, net)
  failure (some e, net) = (some (inr e), net)

  -- zdaInterface, the methods that capabilities call.
  abbrev pub zda_interface : {V : Type 0} → Wire l V → ZdaInterface V
  zda_interface w = record {
    Net = Net;
    Failure = Error l;
    MonitorSection = Config;
    Am = Am;
    no_section = empty_config;
    monitor = λ config. new_monitor config tt;
    section = λ z. z.config;
    load = λ z net. done (load l (on_net net z));
    attach = λ e c a dt rc pc z net. done (attach l e c a dt rc pc (on_net net z));
    detach = λ unconfigure z net. done (none, zda.Monitor.detach l unconfigure (on_net net z));
    transmission_lookup = l.transmission_lookup;
    bind_node_to_controller = λ a s e c net. failure (l.bind_node_to_controller a s e c net);
    configure_reporting = λ t e r net. failure (l.configure_reporting t e r net);
    read_attributes = w.read_attributes;
    request = w.request;
  }

  loadable :
      (z : Monitor Net) (net : Net)
      → IsStored l z
      → monitor_error (load l (on_net net (new_monitor z.config tt))).0 ≡ none
  loadable z net in_section =
      ap monitor_error (load-stored l z (on_net net (new_monitor z.config tt)) in_section)

  pub without_error :
      (o : Outcome l) (m : Am) (net : Net)
      → done o ≡ (none, m, net)
      → (o ≡ (none, o.1)) × (on_net tt o.1 ≡ m)
  without_error (none, z) m net e = (refl, ap (λ t. t.1) e)
  without_error (some x, z) m net e = absurd (none≢some (sym (ap (λ t. t.0) e)))

  -- The monitors of attribute/monitor.go can be loaded when they were attached without an error.
  pub zda_interface-Recovers : {V : Type 0} (w : Wire l V) → Recovers (zda_interface w)
  unfolding load
  zda_interface-Recovers w = record {
    attached = λ e c a dt rc pc m m' net net' ok net''.
        let o = attach l e c a dt rc pc (on_net net m) in
        let (good, same) = without_error o m' net' ok in
        rw (← same)
          (loadable o.1 net'' (attach-IsAttached l e c a dt rc pc (on_net net m) o.1 good).0);
    never_attached = λ net e. none≢some (sym e);
    kept = λ s. refl;
  }
