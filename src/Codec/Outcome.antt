-- ===== src/Codec/Outcome.antt =====
-- What a function of codec.go returns: a value, one of its errors, or a run-time panic of Go.
use trpc_go.Common.{ℕ, Option, none, some}

pub data CodecError : Type 0 where
  -- codec.go's error variables and types
  head_overflows_uint16 head_overflows_uint32 attachment_overflows_uint32 : CodecError
  frame_too_large : ℕ → CodecError
  -- of ReadFrame
  read_eof read_unexpected_eof short_header short_frame : CodecError
  magic_mismatch : ℕ → CodecError
  total_len_too_small total_len_too_large : ℕ → CodecError
  -- of the two Decode methods
  buf_len_invalid head_len_empty head_len_invalid unmarshal_failed : CodecError
  total_len_not_actual : ℕ → ℕ → CodecError
  attachment_len : ℕ → ℕ → CodecError
  stream_decode_failed : CodecError
  request_id_mismatch : ℕ → ℕ → CodecError
  rsp_head_type_invalid : CodecError
  -- of the two Encode methods
  unknown_frame_type req_head_type_invalid marshal_failed read_attachment_failed : CodecError
  stream_encode_failed : CodecError
  -- codec_stream.go's, beside unknown_frame_type
  encode_close_frame encode_feedback_frame uninitialized_meta : CodecError

pub data Outcome {ℓ} (A : Type ℓ) : Type ℓ where
  ok : A → Outcome A
  err : CodecError → Outcome A
  panic : Outcome A

infixl 5 ◌>>=◌
abbrev pub ◌>>=◌ {ℓ κ} : {A : Type ℓ} {B : Type κ} → Outcome A → (A → Outcome B) → Outcome B
ok a >>= f = f a
err e >>= f = err e
panic >>= f = panic

-- A read that Go checks at run time: out of range it panics.
abbrev pub checked {ℓ} : {A : Type ℓ} → Option A → Outcome A
checked none = panic
checked (some a) = ok a

-- An operation that panics only through what its caller hands it never does so here.
abbrev pub IsPanic {ℓ} : {A : Type ℓ} → Outcome A → Type 0
IsPanic panic = Unit
IsPanic (ok _) = ⊥
IsPanic (err _) = ⊥
