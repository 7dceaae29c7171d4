-- ===== src/LoadBalance.antt =====
-- naming/loadbalance: the load balancers.
pub mod Weighted
pub mod Balanced
pub mod Selected
pub mod Rounds
pub mod Plain
mod PlainTests
mod Tests
