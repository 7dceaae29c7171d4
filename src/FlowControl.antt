-- ===== src/FlowControl.antt =====
-- stream/flow_control.go: the flow control of streams.
pub mod Receive
pub mod Send
pub mod Conserved
pub mod Progress
pub mod Tests
