-- ===== src/Lib.antt =====
-- The ZDA library turns the nodes of a Zigbee network into devices with capabilities. This
-- library models its core as functions that pass their state explicitly.
--
-- Parts and files (paths are from the root of the repository):
-- Base: what the parts share. Tests has Boolean tests and the interface of equality, Lists
-- the predicates on lists, Maps association lists for Go maps, Errors results with an error.
-- Rules: rules/engine.go. Rules holds the data, Rules/Compile and Rules/Loader the compilation
-- of rule sets in the order of their dependencies (CompileRules, compileRuleSet,
-- compileRules), Rules/Execute the run of the compiled rules (Execute, executeRule). The
-- expression language is a parameter, the record ExprLang.
-- Node: node.go, the transaction sequence and the sub-identifiers of devices. A channel is
-- the list of what it holds.
-- Table: table.go with device.go, da_events.go and persistence.go. Table holds the data and
-- the interface Host of what the table calls outside, Table/Ops the operations. The tables
-- are association lists; an event is put in front of the list `sent`.
-- Enumerate: enumerate_device.go with the inventory of node.go and implcaps/factory/mapping.go.
-- Inventory holds the interrogation of a node, the rules' input and the grouping of endpoints,
-- NodeTable the update of a node's devices, Factory the names of the capabilities, and
-- Capabilities the update of a device's capabilities. The implementations of capabilities are
-- parameters, the record Implementations, and so are the queries to a node, the record Querier.
-- Discovery: device_discovery.go and device_removal.go. A run is a list of calls and timers;
-- Discovery/Window has its invariant and Discovery/Ending the end of a window.
-- Implcaps: implcaps/utils.go and what implcaps/interface.go gives a capability, the record
-- ZdaInterface. Implcaps/Wired is zda_interface.go, that fills it with the monitors, and
-- Implcaps/Recovery states what the capabilities rely on in a monitor.
-- Sensor: implcaps/zcl/temperature_sensor, humidity_sensor and pressure_sensor, the readings in
-- Sensor, the rest in Sensor/Attached, and what a loaded sensor listens to in Sensor/Heard.
-- Identify: implcaps/zcl/identify. Identify/Timers has the runs of its calls and timers.
-- PowerSupply: implcaps/zcl/power_supply. PowerSupply holds Status and update, Layout the arrays,
-- Cluster the two clusters that Enumerate reads, Enumerate the calls, Loading Init, Load and Detach.
-- Monitor: attribute/monitor.go. Monitor holds Attach, Load and Detach, Monitor/Reports the filter
-- of incoming messages. The section of a monitor is a record with a field for each key.
-- ProductInformation and DeviceWorkarounds: implcaps/generic. A section is the keys that the
-- capability writes to it; the sections in one are the list of their names.
-- Persistence: provider_load.go and persistence.go. Persistence/Parse has the parts of strconv that
-- they use, Persistence/Kept the laws of the sections that the load relies on.
-- Provider: provider_loop.go, the handling of what the Zigbee provider reports, as a run over
-- the list of its answers.
-- Gateway: gateway.go, with the lists of the devices of table.go: New, Start, Stop and Devices, over
-- the table, the discovery and the provider loop. Gateway/Tidy and Gateway/Loaded show that each
-- operation keeps the table in order.
-- How they interact: Start of the gateway runs the provider loop, which starts with the load from
-- persistence; the loop creates and removes nodes and devices in the table, the table tells the
-- events, and an enumeration runs the rules to choose a device's capabilities. A capability calls
-- the network and its monitors through ZdaInterface, and keeps what it needs in its section.
--
-- Bounds and fuel: the recursion of compileRuleSet runs on fuel, one for each rule set not yet
-- loaded and one more, and Rules/Loader/Failure proves that this is enough. Bytes are numbers below 256 and
-- their wrap-around is written out.
--
-- Not modelled: locks and goroutines (a step is the body that runs under the lock), contexts and
-- their deadlines, logging, JSON decoding and the file system, the ZCL communicator and the
-- Zigbee provider, which are packages of their own; the poller of a monitor, a goroutine that only
-- reads an attribute; the status that an enumeration stores for its clients; the test doubles.
pub mod Base
pub mod Rules
pub mod Node
pub mod Table
pub mod Provider
pub mod Enumerate
pub mod Discovery
pub mod Sensor
pub mod Monitor
pub mod Implcaps
pub mod Identify
pub mod PowerSupply
pub mod Persistence
pub mod DeviceWorkarounds
pub mod Gateway
pub mod ProductInformation
