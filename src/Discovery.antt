-- ===== src/Discovery.antt =====
-- device_discovery.go, the window in which devices may join, and device_removal.go.
pub mod Window
pub mod Ending
mod Examples
use zda.Base.{
  ℕ, suc, ◌+◌, ◌-◌, Bool, true, false, Option, none, some, List, [], ◌∷◌, Assoc, lookup, delete,
  nat_key,
}

-- zigbee.NetworkJoining and zigbee.NodeRemover, with the state of the network that they change.
pub record Network : Type 1 where
  pub Net : Type 0
  pub Failure : Type 0
  pub permit_join : Net → Option Failure × Net
  pub deny_join : Net → Option Failure × Net
  pub request_node_leave : ℕ → Net → Option Failure × Net
  pub force_node_leave : ℕ → Net → Option Failure × Net

pub data DiscoveryEvent : Type 0 where
  device_discovery_enabled : ℕ → DiscoveryEvent
  device_discovery_disabled : DiscoveryEvent

-- deviceDiscovery. A time is a number, and the zero time is 0. A timer is a number too; `timers`
-- has those that time.AfterFunc has started and that have neither been stopped nor fired.
pub record Discovery (N : Type 0) : Type 0 where
  pub discovering : Bool
  pub allow_timer : Option ℕ
  pub allow_expires_at : ℕ
  pub timers : Assoc ℕ ℕ
  pub next_timer : ℕ
  pub net : N
  pub sent : List DiscoveryEvent

-- capabilities.DeviceDiscoveryStatus
pub record DiscoveryStatus : Type 0 where
  pub discovering : Bool
  pub remaining_duration : ℕ

-- allowTimer.Stop(), which has no effect on a timer that has fired.
abbrev pub stop_timer : Option ℕ → Assoc ℕ ℕ → Assoc ℕ ℕ
stop_timer none timers = timers
stop_timer (some t) timers = delete t timers

module _ {N : Type 0} where
  -- Status
  unfoldable pub status : ℕ → Discovery N → DiscoveryStatus
  status now d = record {
    discovering = d.discovering;
    remaining_duration = d.allow_expires_at - now;
  }

  -- Stop
  unfoldable pub stop : Discovery N → Discovery N
  stop d = record d { timers = stop_timer d.allow_timer d.timers }

module _ (n : Network) where
  open n use {Net, Failure}

  -- Enable: the error, and the state.
  unfoldable pub enable : ℕ → ℕ → Discovery Net → Option Failure × Discovery Net
  enable now duration d =
      let (e, net) = n.permit_join d.net in
      elim e [
        | some e ↦ (some e, record d { net = net })
        | none ↦ (
          none,
          record {
            discovering = true;
            allow_timer = some d.next_timer;
            allow_expires_at = now + duration;
            timers = (d.next_timer, now + duration) ∷ stop_timer d.allow_timer d.timers;
            next_timer = suc d.next_timer;
            net = net;
            sent = device_discovery_enabled duration ∷ d.sent;
          },
        )
      ]

  -- Disable: the error, and the state.
  unfoldable pub disable : Discovery Net → Option Failure × Discovery Net
  disable d =
      let (e, net) = n.deny_join d.net in
      elim e [
        | some e ↦ (some e, record d { net = net })
        | none ↦ (
          none,
          record d {
            discovering = false;
            allow_timer = none;
            allow_expires_at = 0;
            net = net;
            sent = device_discovery_disabled ∷ d.sent;
          },
        )
      ]

  -- The function of a timer that is due: Disable, whose error is logged.
  unfoldable pub fire : ℕ → Discovery Net → Discovery Net
  fire t d = elim (lookup t d.timers) [
    | none ↦ d
    | some _ ↦ (disable (record d { timers = delete t d.timers })).1
  ]

  -- What happens to the discovery, at a time.
  pub data Step : Type 0 where
    call_enable : ℕ → ℕ → Step
    call_disable call_stop : Step
    timer_fires : ℕ → Step

  unfoldable pub step : Step → Discovery Net → Discovery Net
  step (call_enable now duration) d = (enable now duration d).1
  step call_disable d = (disable d).1
  step call_stop d = stop d
  step (timer_fires t) d = fire t d

  unfoldable pub run : List Step → Discovery Net → Discovery Net
  run [] d = d
  run (s ∷ ss) d = run ss (step s d)

-- capabilities.RemovalType; the value of another type than the two is `unknown`.
pub data RemovalType : Type 0 where
  request force : RemovalType
  unknown : ℕ → RemovalType

pub data RemoveError (F : Type 0) : Type 0 where
  failed : F → RemoveError F
  unknown_removal_type : ℕ → RemoveError F

module _ (n : Network) where
  open n use {Net, Failure}

  abbrev failed_with : Option Failure → Option (RemoveError Failure)
  failed_with none = none
  failed_with (some e) = some (failed e)

  -- Remove, for the node with this address.
  unfoldable pub remove : ℕ → RemovalType → Net → Option (RemoveError Failure) × Net
  remove a request net = let (e, net1) = n.request_node_leave a net in (failed_with e, net1)
  remove a force net = let (e, net1) = n.force_node_leave a net in (failed_with e, net1)
  remove a (unknown t) net = (some (unknown_removal_type t), net)
