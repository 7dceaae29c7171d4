-- ===== src/Codec.antt =====
-- codec.go: the trpc frame, its framer and the unary codecs.
pub mod Outcome
pub mod Frame
pub mod Message
pub mod Server
pub mod Respond
pub mod Client
pub mod Metadata
pub mod Exchange
pub mod Stream
mod Tests
