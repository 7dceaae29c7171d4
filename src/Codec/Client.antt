-- ===== src/Codec/Client.antt =====
-- codec.go: ClientCodec, with its request id counter.
pub mod Decode
use Prim.Native.Nat.{bit_or}
use trpc_go.Common.{
  ℕ, ◌+◌, ◌*◌, ◌/◌, ◌%◌, ◌^◌, Bool, true, false, not, List, [], ◌∷◌, Option, none, some, length,
  ltb, ◌==◌, if◌then◌else◌,
}
use trpc_go.Common.Dict.{Dict, lookup, insert, merge}
use trpc_go.Wire.BigEndian.{Bytes}
use trpc_go.Wire.Slice.{slice}
use trpc_go.Codec.Outcome.{
  CodecError, Outcome, ok, err, panic, checked, buf_len_invalid, head_len_empty, head_len_invalid,
  unmarshal_failed, total_len_not_actual, attachment_len, request_id_mismatch,
  rsp_head_type_invalid, unknown_frame_type, req_head_type_invalid, marshal_failed,
  read_attachment_failed,
}
use trpc_go.Codec.Frame.{
  Protocol, FrameHead, frame_head_len, cur_protocol_version, extract, construct, is_stream,
  is_unary, new_default_unary_frame_head, upgrade_protocol,
}
use trpc_go.Codec.Message.{
  RequestProtocol, ResponseProtocol, Head, absent, other, present, business, callee_framework,
  RspError, Attachment, no_attachment, readable, Msg,
}
use trpc_go.Codec.Server.{Proto, length_u32, sub_u32, zero_response, dyeing_key, env_transfer}
use trpc_go.Codec.Respond.{load_or_store_default_unary_frame_head, read_all}

pub record ClientCodec : Type 0 where
  pub default_caller : Bytes
  pub request_id : ℕ

unfoldable pub new_default_unary_request_protocol : Protocol → RequestProtocol
new_default_unary_request_protocol pb = record {
  version = pb.proto_v1;
  call_type = pb.unary_call;
  request_id = 0;
  timeout = 0;
  caller = [];
  callee = [];
  func = [];
  message_type = 0;
  trans_info = [];
  content_type = 0;
  content_encoding = 0;
  attachment_size = 0;
}

-- `none` is the error on a head of another type.
unfoldable pub load_or_store_default_request_protocol :
    Protocol → Msg → Option (RequestProtocol × Msg)
unfolding new_default_unary_request_protocol
load_or_store_default_request_protocol pb msg = elim msg.client_req_head [
  | present req ↦ some (req, msg)
  | other ↦ none
  | absent ↦
      let req = new_default_unary_request_protocol pb in
      some (req, record msg { client_req_head = present req })
]

unfoldable pub update_caller_service_name : Msg → Bytes → Msg
update_caller_service_name msg name = elim msg.caller_service_name [
  | [] ↦ record msg { caller_service_name = name }
  | c ∷ s ↦ msg
]

-- `trans[key] = value` if the value is not empty.
unfoldable pub insert_non_empty : Bytes → Bytes → Dict Bytes → Dict Bytes
insert_non_empty key [] trans = trans
insert_non_empty key (c ∷ s) trans = insert key (c ∷ s) trans

-- The environment of the message, or none at all in place of an inherited one.
unfoldable pub set_env : Bytes → Dict Bytes → Dict Bytes
set_env (c ∷ s) trans = insert env_transfer (c ∷ s) trans
set_env [] trans = elim (lookup env_transfer trans) [
  | none ↦ trans
  | some old ↦ insert env_transfer [] trans
]

unfoldable pub set_client_trans_info : Msg → Dict Bytes → Dict Bytes
unfolding insert_non_empty set_env merge
set_client_trans_info msg trans =
    set_env msg.env_transfer
      (insert_non_empty dyeing_key msg.dyeing_key (merge trans msg.client_meta_data))

-- time.Millisecond is 1000000.
unfoldable pub update_request_protocol : Protocol → RequestProtocol → Msg → RequestProtocol
update_request_protocol pb req msg = record req {
  request_id = msg.request_id;
  caller = msg.caller_service_name;
  callee = msg.callee_service_name;
  func = msg.client_rpc_name;
  content_type = msg.serialization_type % 2 ^ 32;
  content_encoding = msg.compress_type % 2 ^ 32;
  timeout = msg.request_timeout / 1000000 % 2 ^ 32;
  message_type = if msg.dyeing then bit_or req.message_type pb.dyeing_message else req.message_type;
  trans_info = set_client_trans_info msg req.trans_info;
  call_type = msg.call_type % 2 ^ 32;
}

-- From the moment the attachment is read. The request head is a pointer that the message holds.
unfoldable pub encode_request :
    Protocol → Proto → ℕ → ClientCodec → Msg → RequestProtocol → Bytes → Bytes → Msg × Outcome Bytes
encode_request pb proto m c msg req req_body attm =
    let named = update_caller_service_name msg c.default_caller in
    let sized : RequestProtocol = record req { attachment_size = length_u32 attm } in
    let filled = update_request_protocol pb sized named in
    let h = upgrade_protocol (new_default_unary_frame_head pb) cur_protocol_version c.request_id in
    (
      record named { client_req_head = present filled },
      elim (proto.marshal_req filled) [
        | none ↦ err marshal_failed
        | some req_head ↦ construct pb m h req_head req_body attm
      ],
    )

-- ClientCodec.Encode: the codec and the message after it, and the frame or the error.
unfoldable pub client_encode :
    Protocol → Proto → ℕ → ClientCodec → Msg → Bytes → ClientCodec × Msg × Outcome Bytes
client_encode pb proto m c msg req_body =
    let (h, msg') = load_or_store_default_unary_frame_head pb msg in
    if is_stream pb h
    then (let (msg'', result) = proto.stream_encode msg' req_body in (c, msg'', result))
    else if not (is_unary pb h)
    then (c, msg', err unknown_frame_type)
    else elim (load_or_store_default_request_protocol pb msg') [
      | none ↦ (c, msg', err req_head_type_invalid)
      | some (req, msg'') ↦
          let next : ClientCodec = record c { request_id = (c.request_id + 1) % 2 ^ 32 } in
          let numbered : Msg = record msg'' { request_id = next.request_id } in
          elim (read_all msg''.client_request_attachment) [
            | none ↦ (next, numbered, err read_attachment_failed)
            | some attm ↦
                let (sent, result) = encode_request pb proto m next numbered req req_body attm in
                (next, sent, result)
          ]
    ]

-- The error that the response carries; without one the message keeps what it has.
unfoldable pub with_client_rsp_err : Msg → ResponseProtocol → Msg
with_client_rsp_err msg rsp = record msg {
  client_rsp_err =
      if not (rsp.ret == 0)
      then some
          (record { kind = callee_framework; code = rsp.ret; msg = rsp.error_msg; chained = none })
      else if not (rsp.func_ret == 0)
      then some
          (record { kind = business; code = rsp.func_ret; msg = rsp.error_msg; chained = none })
      else msg.client_rsp_err;
}

-- The response attachment to keep: none that is empty, and one only if the caller has attachments.
unfoldable pub response_attachment : Attachment → Attachment → Bytes → Attachment
response_attachment asked old [] = old
response_attachment asked old (b ∷ attm) = elim asked [
  | no_attachment ↦ old
  | _ ↦ readable (b ∷ attm)
]

-- The end of updateMsg.
unfoldable pub accept_rsp : Msg → FrameHead → ℕ → Bytes → Msg
accept_rsp msg h request_id attm = record msg {
  frame_head = present (upgrade_protocol h cur_protocol_version request_id);
  request_id = request_id;
  client_response_attachment =
      response_attachment msg.client_request_attachment msg.client_response_attachment attm;
}

-- The request head that updateMsg compares with, and what it does when the ids differ.
unfoldable pub check_request_id :
    Option (RequestProtocol × Msg) → Msg → FrameHead → ℕ → Bytes → Msg × Option CodecError
check_request_id none msg h id attm = (accept_rsp msg h id attm, none)
check_request_id (some (req, stored)) msg h id attm =
    if not (id == req.request_id)
    then (stored, some (request_id_mismatch id req.request_id))
    else (accept_rsp stored h id attm, none)

-- updateMsg: the message after it, and its error.
unfoldable pub update_msg :
    Protocol → Msg → FrameHead → ResponseProtocol → Bytes → Msg × Option CodecError
update_msg pb msg h rsp attm =
    let typed : Msg = record msg {
      frame_head = present h;
      compress_type = rsp.content_encoding;
      serialization_type = rsp.content_type;
      client_meta_data = merge msg.client_meta_data rsp.trans_info;
    } in
    let answered = with_client_rsp_err typed rsp in
    check_request_id (load_or_store_default_request_protocol pb answered) answered h rsp.request_id
      attm

unfoldable pub client_decode_body :
    Protocol → Msg → FrameHead → ResponseProtocol → ℕ → Bytes → Msg × Outcome Bytes
client_decode_body pb msg h rsp head_end rsp_buf =
    let attachment_begin = sub_u32 h.total_len rsp.attachment_size in
    let s = sub_u32 (length_u32 rsp_buf) attachment_begin in
    if not (rsp.attachment_size == s)
    then (msg, err (attachment_len s rsp.attachment_size))
    else elim (slice attachment_begin (length rsp_buf) rsp_buf) [
      | none ↦ (msg, panic)
      | some attm ↦
          let (updated, failure) = update_msg pb msg h rsp attm in
          elim failure [
            | some e ↦ (updated, err e)
            | none ↦ (updated, checked (slice head_end attachment_begin rsp_buf))
          ]
    ]

-- ClientCodec.Decode once the frame head is read and stored. The response head is a pointer that
-- the message holds, and proto.Unmarshal fills it.
unfoldable pub client_decode_head : Protocol → Proto → Msg → FrameHead → Bytes → Msg × Outcome Bytes
client_decode_head pb proto msg h rsp_buf =
    let head_end = (frame_head_len + h.header_len) % 2 ^ 32 in
    if not (h.total_len == length_u32 rsp_buf)
    then (msg, err (total_len_not_actual h.total_len (length rsp_buf)))
    else if not (h.frame_type == pb.unary_frame)
    then proto.stream_decode msg rsp_buf
    else if h.header_len == 0
    then (msg, err head_len_empty)
    else if ltb (length_u32 rsp_buf) head_end
    then (msg, err head_len_invalid)
    else elim msg.client_rsp_head [
      | other ↦ (msg, err rsp_head_type_invalid)
      | _ ↦ elim (slice frame_head_len head_end rsp_buf) [
        | none ↦ (msg, panic)
        | some part ↦ elim (proto.unmarshal_rsp part) [
          | none ↦ (
            record msg { client_rsp_head = present (proto.partial_rsp part) },
            err unmarshal_failed,
          )
          | some rsp ↦
              client_decode_body pb (record msg { client_rsp_head = present rsp }) h rsp head_end
                rsp_buf
        ]
      ]
    ]

-- ClientCodec.Decode: the message after it, and the body or the error.
unfoldable pub client_decode : Protocol → Proto → Msg → Bytes → Msg × Outcome Bytes
client_decode pb proto msg rsp_buf =
    if ltb (length rsp_buf) frame_head_len
    then (msg, err buf_len_invalid)
    else elim (extract rsp_buf) [
      | ok h ↦ client_decode_head pb proto (record msg { frame_head = present h }) h rsp_buf
      | err e ↦ (msg, err e)
      | panic ↦ (msg, panic)
    ]
