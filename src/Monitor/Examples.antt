-- ===== src/Monitor/Examples.antt =====
-- A monitor on a network where binding fails, so that it polls.
use zda.Base.{ℕ, true, false, ◌≡◌, refl, none, some, [], ◌∷◌, ◌↔◌, nat_key}
use zda.Monitor.{
  Config, poll_if_reporting_failed, PollingConfig, attempt_configure_reporting, ReportingConfig,
  Link, Monitor, reattach, load, report, poll, attach,
}
use zda.Monitor.Restored.{after_restart, Listens, load-attach}
use zda.Monitor.Reports.{
  ReportRecord, Message, read_attributes_response, report_attributes, Occurs, zcl_filter, reported,
  answered, zcl_message, deliver, carried, IsAddressed, IsMonitored, deliver_exact,
}

abbrev unbound : Link
unbound = record {
  Net = ℕ;
  Failure = Unit {0};
  transmission_lookup =
      λ net. (record { ieee_address = 7; local_endpoint = 1; ack = false; seq = 0 }, net);
  bind_node_to_controller = λ a local e c net. (some tt, net);
  configure_reporting = λ t e r net. (none, net);
}

abbrev empty_config : Config
empty_config = record {
  reporting_configured = none;
  polling_configured = none;
  polling_interval = none;
  remote_endpoint = none;
  cluster_id = none;
  attribute_id = none;
  attribute_data_type = none;
}

abbrev new_monitor : Monitor ℕ
new_monitor = record {
  config = empty_config;
  match = 0;
  matches = [];
  next_match = 1;
  ieee_address = 0;
  remote_endpoint = 0;
  local_endpoint = 0;
  cluster_id = 0;
  attribute_id = 0;
  attribute_data_type = 0;
  ticker = none;
  net = 0;
}

abbrev reporting : ReportingConfig
reporting = record {
  mode = attempt_configure_reporting;
  minimum_interval = 60000;
  maximum_interval = 300000;
  reportable_change = some 10;
}

abbrev polling : PollingConfig
polling = record { mode = poll_if_reporting_failed; interval = 60000 }

program : Unit {0}
unfolding reattach load report poll attach zcl_filter reported answered zcl_message deliver
program = tt

abbrev attached : Monitor ℕ
attached = (attach unbound 1 1026 0 41 reporting polling new_monitor).1

attached_polls : attached.ticker ≡ some 60000
unfolding program
attached_polls = refl

load-attach_example :
    ((load unbound (after_restart unbound attached.config new_monitor)).0 ≡ none)
    × Listens unbound attached (load unbound (after_restart unbound attached.config new_monitor)).1
load-attach_example =
    load-attach unbound 1 1026 0 41 reporting polling new_monitor attached new_monitor refl
      (unfold program in refl)

abbrev measured : ReportRecord ℕ
measured = record { identifier = 0; data_type = 41; value = 2150 }

abbrev message : Message ℕ
message = record {
  source_endpoint = 1;
  destination_endpoint = 1;
  server_to_client = true;
  cluster_id = 1026;
  command = read_attributes_response (record { status = 0; report = measured } ∷ []);
}

measured_delivered : deliver attached 7 message ≡ measured ∷ []
unfolding program
measured_delivered = refl

deliver_exact_example : Occurs measured (deliver attached 7 message) ↔ (
    IsAddressed attached 7 message
    × Occurs measured (carried message.command)
    × IsMonitored attached measured)
deliver_exact_example = deliver_exact attached 7 message measured

-- A message of another cluster, or a value of another data type, is not for the monitor.
other_cluster : deliver attached 7 (record message { cluster_id = 1027 }) ≡ []
unfolding program
other_cluster = refl

other_data_type :
    deliver attached 7
      (record message { command = report_attributes (record measured { data_type = 33 } ∷ []) })
    ≡ []
unfolding program
other_data_type = refl
