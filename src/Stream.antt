-- ===== src/Stream.antt =====
-- stream/client.go and stream/server.go: the two ends of a stream above its codec.
pub mod Client
pub mod Receiving
pub mod Order
pub mod Carried
pub mod Recv
pub mod Messages
pub mod Single
pub mod Handshake
pub mod Dispatcher
pub mod Pointers
pub mod Live
pub mod Served
pub mod Failing
mod Tests
