-- ===== src/Gateway.antt =====
-- gateway.go, with getDevices and getDevicesOnNode of table.go: the gateway around the table, its
-- own device and the list of all devices. A device in a list is its address and sub-identifier.
pub mod Tidy
pub mod Loaded
pub mod Listed
mod Examples
use zda.Base.{
  ℕ, suc, Bool, true, false, Option, none, some, List, [], ◌∷◌, ◌++◌, Assoc, keys, put, ◌==◌,
  if◌then◌else◌, nat_key,
}
use zda.Table.{Host, Device, Node}
use zda.Table.Ops.{State}
use zda.Discovery.{Network, Discovery, stop}
use zda.Enumerate.Factory.{Implementations, mapping}
use zda.Provider.{ReadResult}
use zda.Provider.Loop.{fresh}
use zda.Persistence.{Reader, start_provider_loop}

-- RegisterAdapterEndpoint's arguments; the two lists of clusters are empty.
pub record Endpoint : Type 0 where
  pub endpoint : ℕ
  pub profile : ℕ
  pub device_id : ℕ
  pub device_version : ℕ

-- What Start calls of the Zigbee provider, with the state of its network, and two constants.
pub record Adapter (n : Network) : Type 0 where
  pub adapter_node : n.Net → ℕ
  pub register_adapter_endpoint : Endpoint → n.Net → Option n.Failure × n.Net
  pub profile_home_automation : ℕ
  pub device_discovery_flag : ℕ

-- ZDA. The self device is its identifier and its discovery; `loops` counts the provider loops that
-- were started. Before Start the identifier is nil, and 0 here.
pub record Zda (h : Host) (n : Network) : Type 0 where
  pub table : State h
  pub self_address : ℕ
  pub self_sub_identifier : ℕ
  pub dd : Discovery n.Net
  pub canceled : Bool
  pub loops : ℕ

module _ {N : Type 0} where
  abbrev pub new_discovery : N → Discovery N
  new_discovery net = record {
    discovering = false;
    allow_timer = none;
    allow_expires_at = 0;
    timers = [];
    next_timer = 1;
    net = net;
    sent = [];
  }

abbrev pub at_address : ℕ → List ℕ → List (ℕ × ℕ)
at_address a [] = []
at_address a (s ∷ ss) = (a, s) ∷ at_address a ss

module _ {I : Type 0} where
  -- getDevicesOnNode
  unfoldable pub get_devices_on_node : Node I → List (ℕ × ℕ)
  get_devices_on_node n = at_address n.address (keys n.device)

  -- getDevices
  unfoldable pub get_devices : Assoc ℕ (Node I) → List (ℕ × ℕ)
  get_devices [] = []
  get_devices ((a, n) ∷ m) = get_devices_on_node n ++ get_devices m

module _ (h : Host) {V : Type 0} (f : Implementations h V) where
  abbrev all_flags : List ℕ → Assoc ℕ (Unit {0}) → Assoc ℕ (Unit {0})
  all_flags [] caps = caps
  all_flags (c ∷ cs) caps = all_flags cs (put c tt caps)

  abbrev flags : {K : Type 0} → Assoc K ℕ → List ℕ
  flags [] = []
  flags ((name, c) ∷ m) = c ∷ flags m

  -- Capabilities
  unfoldable pub capabilities : List ℕ
  capabilities = keys (
      all_flags (flags (mapping h f))
        (put h.device_removal_flag tt (put h.enumerate_device_flag tt [])))

-- New
unfoldable pub new : (h : Host) {n : Network} → h.Store → n.Net → Zda h n
new h store net = record {
  table = fresh h store;
  self_address = 0;
  self_sub_identifier = 0;
  dd = new_discovery net;
  canceled = false;
  loops = 0;
}

module _ {h : Host} {n : Network} where
  -- Self
  abbrev pub self : Zda h n → ℕ × ℕ
  self z = (z.self_address, z.self_sub_identifier)

  -- Devices
  unfoldable pub devices : Zda h n → List (ℕ × ℕ)
  devices z = self z ∷ get_devices z.table.node

  -- Stop
  unfoldable pub stop_gateway : Zda h n → Zda h n
  stop_gateway z = record z { dd = stop z.dd; canceled = true }

  -- The goroutine that Start starts, on what the provider reports.
  unfoldable pub running :
      {V : Type 0} (f : Implementations h V) (r : Reader h) → List ReadResult → Zda h n → Zda h n
  running f r rs z = record z { table = start_provider_loop h f r rs z.table }

module _ {n : Network} (p : Adapter n) where
  abbrev pub adapter_endpoint : Endpoint
  adapter_endpoint = record {
    endpoint = 1;
    profile = p.profile_home_automation;
    device_id = 1;
    device_version = 1;
  }

  -- Capabilities of the gateway's own device.
  unfoldable pub gateway_device_capabilities : List ℕ
  gateway_device_capabilities = p.device_discovery_flag ∷ []

  module _ {h : Host} where
    -- Capability of the gateway's own device.
    unfoldable pub gateway_device_capability : ℕ → Zda h n → Option (Discovery n.Net)
    gateway_device_capability c z = if c == p.device_discovery_flag then some z.dd else none

    abbrev pub registered : Zda h n → Option n.Failure × n.Net → Option n.Failure × Zda h n
    registered z (some e, net) = (some e, record z { dd = new_discovery net })
    registered z (none, net) = (none, record z { dd = new_discovery net; loops = suc z.loops })

    abbrev pub with_self : Zda h n → Zda h n
    with_self z = record z {
      self_address = p.adapter_node z.dd.net;
      self_sub_identifier = 0;
      dd = new_discovery z.dd.net;
    }

    -- Start, that makes a new deviceDiscovery.
    unfoldable pub start : Zda h n → Option n.Failure × Zda h n
    start z = registered (with_self z) (p.register_adapter_endpoint adapter_endpoint z.dd.net)
