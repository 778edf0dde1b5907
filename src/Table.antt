-- ===== src/Table.antt =====
-- table.go, and what it needs of node.go, device.go, persistence.go and da_events.go: the nodes
-- that the gateway knows, the devices on each, and the capabilities attached to each device.
-- Nodes and devices are values in the table, found by their address and their sub-identifier,
-- where the source follows pointers; an operation that is handed a pointer takes these instead.
pub mod Text
pub mod Ops
pub mod Lookup
pub mod Mirror
pub mod Capability
mod Examples
use Prim.Native.Nat.{◌^◌}
use zda.Base.{ℕ, String, Bool, Option, List, Assoc}

-- implcaps/interface.go
pub data DetachType : Type 0 where
  device_removed no_longer_enumerated failed_attach : DetachType

-- What other repositories give: the persistence sections (a section is named by its path), the
-- text of an address, the flags and names of capabilities; and the capability implementations,
-- behind the interface ZDACapability. `detach` may write to the store, and fail.
pub record Host : Type 1 where
  pub Store : Type 0
  pub Impl : Type 0
  pub Failure : Type 0
  pub section : List String → Store → Store
  pub section_delete : List String → String → Store → Store
  pub set_int : List String → String → ℕ → Store → Store
  pub address_text : ℕ → String
  pub enumerate_device_flag : ℕ
  pub device_removal_flag : ℕ
  pub standard_name : ℕ → String
  pub capability : Impl → ℕ
  pub detach : Impl → DetachType → Store → Option Failure × Store

-- The events of the table and of the enumeration, with the address and the sub-identifier of the
-- device. The status in the event at an enumeration's end is left out.
pub data Event : Type 0 where
  device_added device_gone : ℕ → ℕ → Event
  capability_added capability_gone : ℕ → ℕ → ℕ → Event
  enumerate_device_start enumerate_device_stopped : ℕ → ℕ → Event

pub record Device (I : Type 0) : Type 0 where
  pub device_id : ℕ
  pub device_id_set : Bool
  pub capabilities : Assoc ℕ I

pub record Node (I : Type 0) : Type 0 where
  pub address : ℕ
  pub sequence : List ℕ
  pub enumeration_held : Bool  -- the weight of enumerationSem is taken
  pub device : Assoc ℕ (Device I)
  pub use_aps_ack : Bool

-- `sent` is what went through the channel `events`, the newest first; `started` is the nodes for
-- which an enumeration has been started.
pub record Gateway (S I : Type 0) : Type 0 where
  pub node : Assoc ℕ (Node I)
  pub store : S
  pub sent : List Event
  pub started : List ℕ
