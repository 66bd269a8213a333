-- ===== src/Node.antt =====
-- src/dji_serial_bridge_node.cpp: the bridge node, one module for each group of its methods.
pub mod State
pub mod Handlers
pub mod Receive
pub mod Transmit
pub mod Callbacks
pub mod ReadLoop
pub mod Diagnostics
pub mod Start
pub mod Actions
pub mod Tally
pub mod Consistent
pub mod System
pub mod Recall
