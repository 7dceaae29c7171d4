-- ===== src/Codec/Exchange.antt =====
-- codec.go: a request or a response from one side's Encode to the other side's Decode.
pub mod Request
pub mod Response
pub mod Oversize
