-- ===== src/Codec/Stream/Tests.antt =====
-- Witnesses for the theorems on the stream codecs.
use trpc_go.Common.{
  ℕ, if◌then◌else◌, ◌≡◌, refl, ap, Bool, false, List, [], ◌∷◌, ◌++◌, Option, none, some, length,
  arith, codes, take, drop, Option-cases, inl, inr, take-length, drop-length,
}
use trpc_go.Wire.BigEndian.{Bytes}
use trpc_go.Codec.Outcome.{ok}
use trpc_go.Codec.Frame.{FrameHead, extract}
use trpc_go.Codec.Frame.RoundTrip.{Fits}
use trpc_go.Codec.Message.{callee_framework, Msg, present, business, RspError}
use trpc_go.Codec.Tests.Sample.{pb, blank, text}
use trpc_go.Codec.Stream.{
  InitRequestMeta, InitResponseMeta, InitMeta, CloseMeta, FeedbackMeta, StreamFrame, no_frame,
  init_frame, StreamProtocol, StreamProto, StreamMsg,
}
use trpc_go.Codec.Stream.{InitMetas, find_init_meta, store_init_meta, addr_to_key, with_msg}
use trpc_go.Codec.Stream.Client.{client_stream_encode, client_stream_decode, callee_error}
use trpc_go.Codec.Stream.Server.{server_stream_decode, server_stream_encode, update_msg_by_init}
use trpc_go.Common.Dict.{Key}
use trpc_go.Codec.Stream.Table.{same_stream}
use trpc_go.Codec.Stream.Arrives.Data.{data_arrives}
use trpc_go.Codec.Stream.Arrives.Init.{Introduces, held_request, told, init_arrives}
use trpc_go.Codec.Stream.Arrives.Error.{error_arrives}
use trpc_go.Codec.Stream.Lifecycle.{
  Call, decodes, encodes, Effect, known, applied, opens, ends, nothing, run_calls,
  run_calls-applied,
}
use trpc_go.Codec.Stream.Frames.{read_by, streamed, head_read, IsStreamProtocol, IsStreamProto}

abbrev sp : StreamProtocol
sp = record { init_type = 1; data_type = 2; feedback_type = 3; close_type = 4; reset = 1 }

sp-IsStreamProtocol : IsStreamProtocol sp
sp-IsStreamProtocol = record {
  init_data = ground arith;
  init_close = ground arith;
  data_close = ground arith;
  close_byte = omega arith;
}

-- Metadata without a map or a response part; every text has its length in front.
abbrev marshal_init : InitMeta → Option Bytes
marshal_init x = elim x.response_meta [
  | some r ↦ none
  | none ↦ elim x.request_meta [
    | none ↦ none
    | some req ↦ elim req.trans_info [
      | _ ∷ _ ↦ none
      | [] ↦ some (
          x.init_window_size
          ∷ x.content_type
          ∷ x.content_encoding
          ∷ req.message_type
          ∷ (text req.caller ++ (text req.callee ++ req.func)))
    ]
  ]
]

abbrev after_callee : (Bytes → Bytes → InitMeta) → Bytes → Option InitMeta
after_callee make [] = none
after_callee make (k ∷ t) = some (make (take k t) (drop k t))

abbrev unmarshal_init : Bytes → Option InitMeta
unmarshal_init (w ∷ ct ∷ ce ∷ m ∷ n ∷ s) =
    after_callee
      (λ callee func. record {
        request_meta = some (record {
          caller = take n s;
          callee = callee;
          func = func;
          message_type = m;
          trans_info = [];
        });
        response_meta = none;
        init_window_size = w;
        content_type = ct;
        content_encoding = ce;
      })
      (drop n s)
unmarshal_init _ = none

init_round : (x : InitMeta) (b : Bytes) → marshal_init x ≡ some b → unmarshal_init b ≡ some x
init_round x b e = elim (Option-cases x.request_meta) [
  | inl a ↦ ground arith
  | inr (req, a) ↦ ground (
    arith,
    take-length req.caller (text req.callee ++ req.func),
    drop-length req.caller (text req.callee ++ req.func),
    take-length req.callee req.func,
    drop-length req.callee req.func,
  )
]

abbrev marshal_close : CloseMeta → Option Bytes
marshal_close x = elim x.trans_info [
  | _ ∷ _ ↦ none
  | [] ↦ some (x.close_type ∷ x.ret ∷ x.message_type ∷ x.func_ret ∷ x.msg)
]

abbrev unmarshal_close : Bytes → Option CloseMeta
unmarshal_close (c ∷ r ∷ m ∷ f ∷ s) =
    some
      (record { close_type = c; ret = r; msg = s; message_type = m; trans_info = []; func_ret = f })
unmarshal_close _ = none

close_round : (x : CloseMeta) (b : Bytes) → marshal_close x ≡ some b → unmarshal_close b ≡ some x
close_round x b e = ground arith

abbrev proto : StreamProto
proto = record {
  marshal_init = marshal_init;
  unmarshal_init = unmarshal_init;
  marshal_close = marshal_close;
  unmarshal_close = unmarshal_close;
  marshal_feedback = λ x. none;
  unmarshal_feedback = λ b. none;
}

proto-IsStreamProto : IsStreamProto proto
proto-IsStreamProto = record { init_round = init_round; close_round = close_round }

abbrev open_head : FrameHead
open_head = record {
  frame_type = 1;
  stream_frame_type = 1;
  total_len = 0;
  header_len = 0;
  stream_id = 101;
  protocol_version = 0;
  frame_reserved = 0;
}

abbrev data_head : FrameHead
data_head = record open_head { stream_frame_type = 2 }

abbrev message : Msg → StreamMsg
message msg = record {
  msg = msg;
  stream_id = 0;
  frame = no_frame;
  network = codes "tcp";
  local = codes "a";
  remote = codes "b";
}

-- A client that opens a stream.
abbrev opener : StreamMsg
opener = message (record blank {
  frame_head = present open_head;
  serialization_type = 2;
  callee_service_name = codes "svc";
  client_rpc_name = codes "/svc/m";
})

abbrev sender : StreamMsg
sender = message (record blank { frame_head = present data_head })

abbrev chain : Bytes
chain = codes "type:business, code:5, msg:no, caused by EOF"

abbrev failed : RspError
failed = record { kind = business; code = 5; msg = codes "no"; chained = some chain }

-- A server whose handler has failed.
abbrev failing : StreamMsg
failing = message (record blank { frame_head = present data_head; server_rsp_err = some failed })

abbrev receiver : StreamMsg
receiver = message blank

open_head-Fits : Fits pb open_head
open_head-Fits = record {
  magic = omega arith;
  frame_type = omega arith;
  stream_frame_type = omega arith;
  stream_id = omega arith;
  protocol_version = omega arith;
  frame_reserved = omega arith;
}

data_head-Fits : Fits pb data_head
data_head-Fits = record {
  magic = omega arith;
  frame_type = omega arith;
  stream_frame_type = omega arith;
  stream_id = omega arith;
  protocol_version = omega arith;
  frame_reserved = omega arith;
}

abbrev opened_request : InitRequestMeta
opened_request = record {
  caller = [];
  callee = codes "svc";
  func = codes "/svc/m";
  message_type = 0;
  trans_info = [];
}

abbrev one_stream : InitMetas
one_stream = (codes "tcp_a_b", (((101 ∷ []), opened_request) ∷ [])) ∷ []

abbrev data_frame : Bytes
data_frame = 9 ∷ 48 ∷ 1 ∷ 2 ∷ 0 ∷ 0 ∷ 0 ∷ 18 ∷ 0 ∷ 0 ∷ 0 ∷ 0 ∷ 0 ∷ 101 ∷ 0 ∷ 0 ∷ codes "hi"

data_arrives_example :
    (extract data_frame ≡ ok (head_read data_head data_frame))
    × (server_stream_decode pb sp proto one_stream
          (read_by receiver (head_read data_head data_frame))
          data_frame
        ≡ (
          one_stream,
          with_msg
              (streamed receiver (head_read data_head data_frame))
              (record ((read_by receiver (head_read data_head data_frame)).msg) {
                server_rpc_name = codes "/svc/m";
              }),
          ok (codes "hi"),
        ))
unfolding client_stream_encode trpc_go.Codec.Frame.is_stream
    trpc_go.Codec.Stream.Client.client_encode_frame trpc_go.Codec.Stream.Client.by_type
    trpc_go.Codec.Stream.frame_write trpc_go.Codec.Frame.construct trpc_go.Codec.Frame.head_bytes
    find_init_meta trpc_go.Common.Dict.lookup trpc_go.Common.str_eq addr_to_key
data_arrives_example =
    data_arrives pb sp proto 100 [] data_head sender receiver one_stream (codes "hi")
      sp-IsStreamProtocol (record { fits = data_head-Fits; stream = refl; kind = refl }) refl refl

init_arrives_example :
    (buf : Bytes) × (meta : InitMeta) × (req : InitRequestMeta) × (extract buf
      ≡ ok (head_read open_head buf))
    × Introduces pb [] opener.msg (held_request no_frame) meta req
    × ((server_stream_decode pb sp proto [] (read_by receiver (head_read open_head buf)) buf).2
        ≡ ok [])
    × ((server_stream_decode pb sp proto [] (read_by receiver (head_read open_head buf)) buf).1
        ≡ record (streamed receiver (head_read open_head buf)) {
          msg = told pb ((read_by receiver (head_read open_head buf)).msg) meta req;
          frame = init_frame meta;
        })
    × ((addr : Key) (id : ℕ)
        → find_init_meta addr id (
            (server_stream_decode pb sp proto []
              (read_by receiver (head_read open_head buf))
              buf).0)
          ≡ (if same_stream (codes "tcp_a_b") 101 addr id
              then some req
              else find_init_meta addr id []))
unfolding client_stream_encode trpc_go.Codec.Frame.is_stream
    trpc_go.Codec.Stream.Client.client_encode_frame trpc_go.Codec.Stream.Client.by_type
    trpc_go.Codec.Stream.Client.client_encode_init_frame trpc_go.Codec.Stream.Client.init_to_send
    trpc_go.Codec.Stream.Client.client_encode_init trpc_go.Codec.Stream.Client.init_request
    trpc_go.Codec.Client.set_client_trans_info trpc_go.Codec.Client.update_caller_service_name
    trpc_go.Common.Dict.lookup trpc_go.Codec.Stream.frame_write trpc_go.Codec.Frame.construct
    addr_to_key
init_arrives_example =
    let (meta, req, read, says, body, taken, known) =
      init_arrives pb sp proto 100 [] open_head opener receiver [] [] sp-IsStreamProtocol
        proto-IsStreamProto (record { fits = open_head-Fits; stream = refl; kind = refl }) refl
        refl in
    (_, meta, req, read, says, body, taken, known)

error_arrives_example :
    (buf : Bytes) × (h' : FrameHead) × (extract buf ≡ ok h')
    × (h'.stream_frame_type ≡ 4)
    × (find_init_meta
          (codes "tcp_a_b")
          101
          ((server_stream_encode pb sp proto 100 one_stream failing (codes "hi")).0)
        ≡ none)
    × ((client_stream_decode pb sp proto (read_by receiver h') buf).0.msg.client_rsp_err
        ≡ some (record { kind = callee_framework; code = 5; msg = chain; chained = none }))
    × ((client_stream_decode pb sp proto (read_by receiver h') buf).1 ≡ ok [])
unfolding server_stream_encode trpc_go.Codec.Frame.is_stream
    trpc_go.Codec.Stream.Server.server_encode_frame trpc_go.Codec.Stream.Client.by_type
    trpc_go.Codec.Stream.Server.server_encode_data_frame
    trpc_go.Codec.Stream.Server.server_encode_close_frame
    trpc_go.Codec.Stream.Server.build_reset_frame trpc_go.Codec.Message.msg_of
    trpc_go.Codec.Stream.Server.set_stream_close_meta_data trpc_go.Common.Dict.merge
    trpc_go.Codec.Stream.frame_write trpc_go.Codec.Frame.construct addr_to_key
error_arrives_example =
    let (h', a, b, c, d, e) =
      error_arrives pb sp proto 100 [] data_head receiver failing one_stream (codes "hi") failed
        sp-IsStreamProtocol proto-IsStreamProto
        (record { fits = data_head-Fits; stream = refl; kind = refl }) refl refl refl in
    (_, h', a, b, c, d, e)

-- A stream is opened, and ended by the handler's error.
abbrev open_frame : Bytes
open_frame =
    9
    ∷ 48
    ∷ 1
    ∷ 1
    ∷ 0
    ∷ 0
    ∷ 0
    ∷ 30
    ∷ 0
    ∷ 0
    ∷ 0
    ∷ 0
    ∷ 0
    ∷ 101
    ∷ 0
    ∷ 0
    ∷ 0
    ∷ 2
    ∷ 0
    ∷ 0
    ∷ 0
    ∷ 3
    ∷ codes "svc/svc/m"

abbrev calls : List Call
calls = decodes (read_by receiver open_head) open_frame ∷ encodes failing (codes "hi") ∷ []

run_calls-applied_example :
    known (run_calls pb sp proto 100 [] calls)
    ≡ applied
        (opens (codes "tcp_a_b") 101 opened_request ∷ ends (codes "tcp_a_b") 101 ∷ [])
        (known [])
unfolding trpc_go.Common.str_eq trpc_go.Codec.Stream.Lifecycle.effect_of
    trpc_go.Codec.Frame.is_stream trpc_go.Codec.Stream.Client.by_type
    trpc_go.Codec.Stream.Lifecycle.reset_by addr_to_key trpc_go.Codec.Stream.Lifecycle.opened_by
    trpc_go.Codec.Stream.behind_head
run_calls-applied_example = run_calls-applied pb sp proto 100 [] calls
