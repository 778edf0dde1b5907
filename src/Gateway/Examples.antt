-- ===== src/Gateway/Examples.antt =====
-- A gateway that loads one node with a device, and that another node joins.
use zda.Base.{ℕ, String, ◌≡◌, refl, ◌+◌, none, some, List, [], ◌∷◌, nat_key, lookup, put, is_some}
use zda.Table.Ops.{get_device}
use zda.Table.Lookup.{is_same}
use zda.Discovery.{Network, stop}
use zda.Enumerate.Examples.{toy}
use zda.Enumerate.Factory.{mapping}
use zda.Provider.{ReadResult, event, node_join}
use zda.Provider.Examples.{small}
use zda.Persistence.{Reader}
use zda.Gateway.{
  Adapter, Zda, new, start, stop_gateway, running, devices, capabilities,
  gateway_device_capabilities, gateway_device_capability,
}
use zda.Gateway.Listed.{once, times, devices_lists_all}

abbrev keys_at : List String → List String
keys_at [] = []
keys_at (a ∷ []) = "0000000000000007" ∷ []
keys_at (a ∷ b ∷ []) = []
keys_at (a ∷ b ∷ c ∷ []) = "4" ∷ []
keys_at (a ∷ b ∷ c ∷ d ∷ rest) = []

abbrev recorded : Reader small
recorded = record {
  section_keys = λ path store. keys_at path;
  get_int = λ path key store. none;
  get_string = λ path key store. none;
}

-- The state of the network counts the calls that register an endpoint.
abbrev counting : Network
counting = record {
  Net = ℕ;
  Failure = Unit {0};
  permit_join = λ net. (none, net);
  deny_join = λ net. (none, net);
  request_node_leave = λ a net. (none, net);
  force_node_leave = λ a net. (none, net);
}

abbrev adapter : Adapter counting
adapter = record {
  adapter_node = λ net. 99;
  register_adapter_endpoint = λ e net. (none, net + 1);
  profile_home_automation = 260;
  device_discovery_flag = 3;
}

abbrev started : Zda small counting
started = (start adapter (new small [] 0)).1

abbrev reports : List ReadResult
reports = event (node_join 9) ∷ []

devices_lists_all_example :
    times 7 4 (devices (running toy recorded reports started))
    ≡ once (is_same 7 4 99 0)
      + once (is_some (get_device small 7 4 (running toy recorded reports started).table))
unfolding start
devices_lists_all_example = devices_lists_all adapter toy recorded reports [] 0 started 7 4 refl

program : Unit {0}
unfolding start new stop stop_gateway capabilities mapping put lookup gateway_device_capabilities
    gateway_device_capability
program = tt

all_capabilities : capabilities small toy ≡ 1 ∷ 2 ∷ 11 ∷ 12 ∷ 13 ∷ 14 ∷ 15 ∷ 16 ∷ 17 ∷ []
unfolding program
all_capabilities = refl

own_capability : gateway_device_capability adapter 3 started ≡ some started.dd
unfolding program
own_capability = refl

no_other_capability : gateway_device_capability adapter 2 started ≡ none
unfolding program
no_other_capability = refl

stopped : (stop_gateway started).dd.timers ≡ []
unfolding program
stopped = refl
