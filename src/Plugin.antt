-- ===== src/Plugin.antt =====
-- plugin/setup.go: loading the configured plugins and setting them up in the order of what they
-- depend on.
pub mod Setup
pub mod Ends
pub mod Order
pub mod Tests
