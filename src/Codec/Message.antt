-- ===== src/Codec/Message.antt =====
-- codec/message_impl.go and internal/attachment/attachment.go: the part of a message that the unary
-- codecs of codec.go read and write, and the two protocol heads of the trpc protocol package.
use trpc_go.Common.{ℕ, Bool, Option, none, some}
use trpc_go.Common.Dict.{Dict}
use trpc_go.Wire.BigEndian.{Bytes}
use trpc_go.Codec.Frame.{FrameHead}

pub record RequestProtocol : Type 0 where
  pub version : ℕ
  pub call_type : ℕ
  pub request_id : ℕ
  pub timeout : ℕ
  pub caller : Bytes
  pub callee : Bytes
  pub func : Bytes
  pub message_type : ℕ
  pub trans_info : Dict Bytes
  pub content_type : ℕ
  pub content_encoding : ℕ
  pub attachment_size : ℕ

pub record ResponseProtocol : Type 0 where
  pub version : ℕ
  pub call_type : ℕ
  pub request_id : ℕ
  pub ret : ℕ
  pub func_ret : ℕ
  pub error_msg : Bytes
  pub message_type : ℕ
  pub trans_info : Dict Bytes
  pub content_type : ℕ
  pub content_encoding : ℕ
  pub attachment_size : ℕ

-- A field of type interface{}: nil, a value of another type, or a pointer to the type in question.
pub data Head {ℓ} (A : Type ℓ) : Type ℓ where
  absent other : Head A
  present : A → Head A

-- errs.Error's Type, with the three that codec.go tells apart.
pub data ErrorType : Type 0 where
  framework business callee_framework : ErrorType

-- errs.Error. `chained` is what its method Error returns if it has a cause.
pub record RspError : Type 0 where
  pub kind : ErrorType
  pub code : ℕ
  pub msg : Bytes
  pub chained : Option Bytes

-- errs.Msg of such an error
unfoldable pub msg_of : RspError → Bytes
msg_of e = elim e.chained [ none ↦ e.msg | some text ↦ text ]

-- An attachment's reader: what io.ReadAll gets from it, or the error that it fails with.
pub data Attachment : Type 0 where
  no_attachment broken : Attachment
  readable : Bytes → Attachment

-- `msg`. request_timeout is in nanoseconds, as time.Duration is. A metadata map that is nil is the
-- empty one: the code only asks for its length.
pub record Msg : Type 0 where
  pub frame_head : Head FrameHead
  pub request_id : ℕ
  pub request_timeout : ℕ
  pub serialization_type : ℕ
  pub compress_type : ℕ
  pub call_type : ℕ
  pub dyeing : Bool
  pub dyeing_key : Bytes
  pub env_transfer : Bytes
  pub caller_service_name : Bytes
  pub callee_service_name : Bytes
  pub server_rpc_name : Bytes
  pub client_rpc_name : Bytes
  pub server_meta_data : Dict Bytes
  pub client_meta_data : Dict Bytes
  pub server_req_head : Head RequestProtocol
  pub server_rsp_head : Head ResponseProtocol
  pub client_req_head : Head RequestProtocol
  pub client_rsp_head : Head ResponseProtocol
  pub server_rsp_err : Option RspError
  pub client_rsp_err : Option RspError
  pub client_request_attachment : Attachment
  pub client_response_attachment : Attachment
  pub server_request_attachment : Attachment
  pub server_response_attachment : Attachment
