-- ===== src/Codec/Stream/Arrives.antt =====
-- codec_stream.go: what one side decodes of the frames that the other side encoded.
pub mod Data
pub mod Init
pub mod Error
