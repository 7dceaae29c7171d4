-- ===== src/Codec/Stream.antt =====
-- codec_stream.go: the frames of a stream, the messages that the codecs read and write, and the
-- table of initialised streams that the server keeps. The pointers to protobuf messages that a
-- message holds are values here; a function that writes through one returns the message with the
-- new value.
pub mod Client
pub mod Server
pub mod Table
pub mod Frames
pub mod Arrives
pub mod Lifecycle
mod Tests
use trpc_go.Common.{ℕ, Bool, List, [], ◌∷◌, ◌++◌, Option, none, some, length, ◌==◌, if◌then◌else◌}
use trpc_go.Common.Dict.{Key, Dict, lookup, insert, delete}
use trpc_go.Wire.BigEndian.{Bytes}
use trpc_go.Wire.Slice.{slice}
use trpc_go.Codec.Outcome.{Outcome, checked}
use trpc_go.Codec.Frame.{Protocol, FrameHead, frame_head_len, construct}
use trpc_go.Codec.Message.{Msg}

-- trpcpb.TrpcStreamInitRequestMeta
pub record InitRequestMeta : Type 0 where
  pub caller : Bytes
  pub callee : Bytes
  pub func : Bytes
  pub message_type : ℕ
  pub trans_info : Dict Bytes

-- trpcpb.TrpcStreamInitResponseMeta
pub record InitResponseMeta : Type 0 where
  pub ret : ℕ
  pub error_msg : Bytes

-- trpcpb.TrpcStreamInitMeta; the two parts are pointers, `none` is nil.
pub record InitMeta : Type 0 where
  pub request_meta : Option InitRequestMeta
  pub response_meta : Option InitResponseMeta
  pub init_window_size : ℕ
  pub content_type : ℕ
  pub content_encoding : ℕ

-- trpcpb.TrpcStreamCloseMeta
pub record CloseMeta : Type 0 where
  pub close_type : ℕ
  pub ret : ℕ
  pub msg : Bytes
  pub message_type : ℕ
  pub trans_info : Dict Bytes
  pub func_ret : ℕ

-- trpcpb.TrpcStreamFeedBackMeta
pub record FeedbackMeta : Type 0 where
  pub window_size_increment : ℕ

-- msg.StreamFrame(), of type interface{}
pub data StreamFrame : Type 0 where
  no_frame : StreamFrame
  init_frame : InitMeta → StreamFrame
  close_frame : CloseMeta → StreamFrame
  feedback_frame : FeedbackMeta → StreamFrame

-- The constants of trpcpb that codec_stream.go reads.
pub record StreamProtocol : Type 0 where
  pub init_type : ℕ
  pub data_type : ℕ
  pub feedback_type : ℕ
  pub close_type : ℕ
  pub reset : ℕ

-- proto.Marshal and proto.Unmarshal for the three messages.
pub record StreamProto : Type 0 where
  pub marshal_init : InitMeta → Option Bytes
  pub unmarshal_init : Bytes → Option InitMeta
  pub marshal_close : CloseMeta → Option Bytes
  pub unmarshal_close : Bytes → Option CloseMeta
  pub marshal_feedback : FeedbackMeta → Option Bytes
  pub unmarshal_feedback : Bytes → Option FeedbackMeta

-- A message with the fields that only streams use. `network`, `local` and `remote` are what the
-- addresses of its connection print as.
pub record StreamMsg : Type 0 where
  pub msg : Msg
  pub stream_id : ℕ
  pub frame : StreamFrame
  pub network : Bytes
  pub local : Bytes
  pub remote : Bytes

abbrev pub with_msg : StreamMsg → Msg → StreamMsg
with_msg sm m = record sm { msg = m }

abbrev pub with_frame : StreamMsg → StreamFrame → StreamMsg
with_frame sm f = record sm { frame = f }

-- addrutil.AddrToKey
unfoldable pub addr_to_key : StreamMsg → Key
addr_to_key sm = sm.network ++ (b'_' ∷ (sm.local ++ (b'_' ∷ sm.remote)))

-- buf[frameHeadLen:]
unfoldable pub behind_head : Bytes → Outcome Bytes
unfolding slice
behind_head buf = checked (slice frame_head_len (length buf) buf)

-- frameWrite
unfoldable pub frame_write : Protocol → ℕ → FrameHead → Bytes → Outcome Bytes
frame_write pb max_frame_size h stream_buf = construct pb max_frame_size h [] stream_buf []

-- initMetas: addr → streamID → *TrpcStreamInitMeta. The key of a stream id is the one-element text.
-- Of the metadata that an entry points to, the model has the request part. It is all that is read
-- through the table. The message that the Init frame was decoded into holds the same pointer, and
-- encodeInitFrame of the server writes through that, but never the request part.
abbrev pub InitMetas : Type 0
InitMetas = Dict (Dict InitRequestMeta)

-- The lookup in setInitMeta.
unfoldable pub find_init_meta : Key → ℕ → InitMetas → Option InitRequestMeta
find_init_meta addr id metas = elim (lookup addr metas) [
  | none ↦ none
  | some streams ↦ lookup (id ∷ []) streams
]

-- storeInitMeta
unfoldable pub store_init_meta : Key → ℕ → InitRequestMeta → InitMetas → InitMetas
store_init_meta addr id req metas = elim (lookup addr metas) [
  | some streams ↦ insert addr (insert (id ∷ []) req streams) metas
  | none ↦ insert addr (insert (id ∷ []) req []) metas
]

-- deleteInitMeta. Deleting from a nil map does nothing, and its length is 0.
unfoldable pub delete_init_meta : Key → ℕ → InitMetas → InitMetas
delete_init_meta addr id metas = elim (lookup addr metas) [
  | none ↦ delete addr metas
  | some streams ↦
      let rest = delete (id ∷ []) streams in
      if length rest == 0 then delete addr metas else insert addr rest metas
]
