-- ===== src/Enumerate.antt =====
-- enumerate_device.go, and what node.go has for it: the enumeration of a node.
pub mod Inventory
pub mod NodeTable
pub mod Factory
pub mod Capabilities
pub mod Devices
pub mod Run
pub mod Examples
