-- ===== src/Codec/Tests.antt =====
-- Runs of codec.go's functions, and the theorems about them at concrete inputs.
pub mod Sample
use trpc_go.Common.{
  ℕ, ◌+◌, ◌%◌, ◌^◌, ◌<◌, ◌≤◌, ◌≡◌, ◌≢◌, ◌↔◌, refl, true, false, List, [], ◌∷◌, ◌++◌, Option, none,
  some, length, arith, codes, map,
}
use trpc_go.Wire.BigEndian.{Bytes, put_uint16, put_uint32}
use trpc_go.Common.Dict.{merge, lookup}
use trpc_go.Wire.Slice.{slice}
use trpc_go.Codec.Outcome.{Outcome, ok, err, panic, IsPanic, magic_mismatch, total_len_too_small}
use trpc_go.Codec.Frame.{
  Protocol, FrameHead, construct, extract, read_frame, head_bytes, new_default_unary_frame_head,
  is_stream, is_unary, upgrade_protocol, uint16_at, uint32_at,
}
use trpc_go.Codec.Frame.RoundTrip.{Fits, with_lengths, read_frame-construct, extract-construct}
use trpc_go.Codec.Frame.Reading.{read_frame-eq-ok, read_frame_safe}
use trpc_go.Codec.Message.{
  RequestProtocol, ResponseProtocol, present, Msg, RspError, business, readable, no_attachment,
}
use trpc_go.Codec.Server.{Proto, server_decode, length_u32, new_response_protocol}
use trpc_go.Codec.Server.Decode.{server_decode-IsPanic}
use trpc_go.Codec.Client.{
  ClientCodec, client_encode, client_decode, load_or_store_default_request_protocol,
  new_default_unary_request_protocol, encode_request, update_caller_service_name,
  update_request_protocol, set_client_trans_info,
}
use trpc_go.Codec.Client.Decode.{Answered, kept_attachment, error_of}
use trpc_go.Codec.Respond.{
  server_encode, response_of, get_and_init_response_protocol, with_rsp_err,
  load_or_store_default_unary_frame_head,
}
use trpc_go.Codec.Exchange.Request.{sent_request, Received, Describes, request_arrives}
use trpc_go.Codec.Exchange.Response.{
  Answers, sized_response, seen_by_client, HasCode, response_arrives,
}
use trpc_go.Codec.Exchange.Oversize.{failed_response, oversize_reported, oversize_attachment_panics}
use Sample.{pb, proto, blank, proto-IsProto, pb-IsProtocol, proto-IsRspProto}

abbrev codec : ClientCodec
codec = record { default_caller = codes "me"; request_id = 6 }

-- A call with a two-byte attachment and a timeout of 3.5 milliseconds.
abbrev call : Msg
call = record blank {
  request_timeout = 3500000;
  serialization_type = 2;
  callee_service_name = codes "svc";
  client_rpc_name = codes "/s/m";
  client_request_attachment = readable (8 ∷ 9 ∷ []);
}

abbrev call_frame : Bytes
call_frame =
    9 ∷ 48 ∷ 0 ∷ 0 ∷ 0 ∷ 0 ∷ 0 ∷ 39 ∷ 0 ∷ 19 ∷ 0 ∷ 0 ∷ 0 ∷ 7 ∷ 1 ∷ 0 ∷ 0 ∷ 0 ∷ 7 ∷ 3 ∷ 0 ∷ 2 ∷ 0 ∷ 2
    ∷ 2 ∷ 109 ∷ 101 ∷ 3 ∷ 115 ∷ 118 ∷ 99 ∷ 47 ∷ 115 ∷ 47 ∷ 109 ∷ 104 ∷ 105 ∷ 8 ∷ 9 ∷ []

encode_call : (client_encode pb proto 100 codec call (codes "hi")).2 ≡ ok call_frame
unfolding client_encode load_or_store_default_unary_frame_head is_stream is_unary
    load_or_store_default_request_protocol new_default_unary_frame_head
    new_default_unary_request_protocol encode_request update_caller_service_name
    update_request_protocol upgrade_protocol set_client_trans_info construct head_bytes put_uint16
    put_uint32 lookup
encode_call = refl

request_arrives_example :
    let (smsg', result) = server_decode pb proto blank call_frame in
    let req = sent_request pb codec call (8 ∷ 9 ∷ []) in
    (result ≡ ok (codes "hi"))
    × Received pb blank smsg' req (8 ∷ 9 ∷ [])
    × Describes pb req codec call (8 ∷ 9 ∷ [])
request_arrives_example =
    request_arrives pb proto 100 codec call (codes "hi") (8 ∷ 9 ∷ []) blank pb-IsProtocol
      proto-IsProto (record { no_head = refl; no_req = refl; attachment = refl })
      (record { attachment = refl; meta_data = refl }) (omega arith) encode_call

-- A frame head as a peer may send it.
abbrev some_head : FrameHead
some_head = record {
  frame_type = 0;
  stream_frame_type = 0;
  total_len = 0;
  header_len = 0;
  stream_id = 7;
  protocol_version = 1;
  frame_reserved = 0;
}

some_head-Fits : Fits pb some_head
some_head-Fits = record {
  magic = omega arith;
  frame_type = omega arith;
  stream_frame_type = omega arith;
  stream_id = omega arith;
  protocol_version = omega arith;
  frame_reserved = omega arith;
}

abbrev small_frame : Bytes
small_frame = 9 ∷ 48 ∷ 0 ∷ 0 ∷ 0 ∷ 0 ∷ 0 ∷ 19 ∷ 0 ∷ 1 ∷ 0 ∷ 0 ∷ 0 ∷ 7 ∷ 1 ∷ 0 ∷ 65 ∷ 66 ∷ 67 ∷ []

construct_small : construct pb 100 some_head (65 ∷ []) (66 ∷ []) (67 ∷ []) ≡ ok small_frame
unfolding construct head_bytes put_uint16 put_uint32
construct_small = refl

read_frame-construct_example :
    read_frame pb 100 (small_frame ++ (1 ∷ 2 ∷ [])) ≡ ok (small_frame, 1 ∷ 2 ∷ [])
read_frame-construct_example =
    read_frame-construct pb 100 some_head (65 ∷ []) (66 ∷ []) (67 ∷ []) (1 ∷ 2 ∷ []) some_head-Fits
      (omega arith) construct_small

read_frame-eq-ok_example :
    (small_frame ++ (1 ∷ []) ≡ small_frame ++ (1 ∷ []))
    × (16 ≤ length small_frame)
    × (length small_frame ≤ 100)
    × (uint16_at 0 2 small_frame ≡ ok 0x930)
    × (uint32_at 4 8 small_frame ≡ ok 19)
read_frame-eq-ok_example = read_frame-eq-ok pb 100 (small_frame ++ (1 ∷ [])) (
    read_frame-construct pb 100 some_head (65 ∷ []) (66 ∷ []) (67 ∷ []) (1 ∷ []) some_head-Fits
      (omega arith) construct_small)

read_frame_safe_example : ¬ IsPanic (read_frame pb 100 (9 ∷ 48 ∷ 0 ∷ []))
read_frame_safe_example = read_frame_safe pb 100 (9 ∷ 48 ∷ 0 ∷ [])

-- A request whose header states an attachment of 200 bytes that is not there.
abbrev lying_request : RequestProtocol
lying_request = record {
  version = 0;
  call_type = 0;
  request_id = 7;
  timeout = 0;
  caller = [];
  callee = [];
  func = [];
  message_type = 0;
  trans_info = [];
  content_type = 0;
  content_encoding = 0;
  attachment_size = 200;
}

abbrev lying_frame : Bytes
lying_frame =
    9 ∷ 48 ∷ 0 ∷ 0 ∷ 0 ∷ 0 ∷ 0 ∷ 26 ∷ 0 ∷ 10 ∷ 0 ∷ 0 ∷ 0 ∷ 7 ∷ 1 ∷ 0 ∷ 0 ∷ 0 ∷ 7 ∷ 0 ∷ 0 ∷ 0 ∷ 0
    ∷ 200 ∷ 0 ∷ 0 ∷ []

server_decode-IsPanic_example :
    IsPanic (server_decode pb proto blank lying_frame).1 ↔ (26 < 16 + 10 + 200)
unfolding extract slice
server_decode-IsPanic_example =
    server_decode-IsPanic pb proto blank lying_frame (0 ∷ 0 ∷ 7 ∷ 0 ∷ 0 ∷ 0 ∷ 0 ∷ 200 ∷ 0 ∷ 0 ∷ [])
      (with_lengths some_head 26 10) lying_request refl refl (omega arith) refl (omega arith)
      (omega arith) refl refl (omega arith)

abbrev asked : RequestProtocol
asked = record lying_request { attachment_size = 0 }

abbrev waiting : Msg
waiting = record blank { client_req_head = present asked; client_request_attachment = readable [] }

-- The handler failed with code 5 and left an attachment of one byte.
abbrev answer : Msg
answer = record blank {
  frame_head = present some_head;
  server_rsp_head = present (new_response_protocol pb asked);
  server_response_attachment = readable (3 ∷ []);
  server_rsp_err = some (record { kind = business; code = 5; msg = codes "no"; chained = none });
}

abbrev answer_head : Bytes
answer_head = 0 ∷ 0 ∷ 7 ∷ 0 ∷ 5 ∷ 0 ∷ 0 ∷ 0 ∷ 1 ∷ 110 ∷ 111 ∷ []

answer-HasCode : HasCode answer
answer-HasCode = record { code = λ e p. ground arith }

response_arrives_example :
    (buf : Bytes) × ((server_encode pb proto 100 answer (codes "hi")).1 ≡ ok buf)
    × ((client_decode pb proto waiting buf).1 ≡ ok (codes "hi"))
    × Answered (client_decode pb proto waiting buf).0 (sized_response pb answer (3 ∷ []))
    × ((client_decode pb proto waiting buf).0.client_rsp_err ≡ seen_by_client answer.server_rsp_err)
    × ((client_decode pb proto waiting buf).0.client_response_attachment ≡ readable (3 ∷ []))
    × Answers pb (sized_response pb answer (3 ∷ [])) asked answer (3 ∷ [])
unfolding new_response_protocol get_and_init_response_protocol response_of with_rsp_err merge
response_arrives_example =
    response_arrives pb proto 100 answer waiting some_head asked asked (codes "hi") (3 ∷ [])
      answer_head pb-IsProtocol proto-IsRspProto some_head-Fits
      (record { frame = refl; unary = refl; rsp = refl; attachment = refl }) answer-HasCode
      (record { sent = refl; no_error = refl; no_rsp = refl }) refl (omega arith) (omega arith) refl
      (omega arith) (omega arith)

abbrev failed_head : Bytes
failed_head = 0 ∷ 0 ∷ 7 ∷ 2 ∷ 0 ∷ 0 ∷ 0 ∷ 0 ∷ 0 ∷ codes "failed"

abbrev long_answer : Msg
long_answer = record blank {
  frame_head = present some_head;
  server_rsp_head = present (new_response_protocol pb asked);
}

abbrev long_body : Bytes
long_body = codes "this is longer than the limit"

oversize_reported_example :
    (buf : Bytes) × ((server_encode pb proto 40 long_answer long_body).1 ≡ ok buf)
    × ((client_decode pb proto waiting buf).1 ≡ ok [])
    × ((client_decode pb proto waiting buf).0.client_rsp_err
        ≡ error_of (failed_response pb proto 40 long_answer []))
unfolding new_response_protocol get_and_init_response_protocol response_of with_rsp_err merge
oversize_reported_example =
    oversize_reported pb proto 40 long_answer waiting some_head asked asked long_body []
      (0 ∷ 0 ∷ 7 ∷ 0 ∷ 0 ∷ 0 ∷ 0 ∷ 0 ∷ 0 ∷ []) failed_head pb-IsProtocol proto-IsRspProto
      some_head-Fits (record { frame = refl; unary = refl; rsp = refl; attachment = refl })
      (record { sent = refl; no_error = refl; no_rsp = refl }) refl (omega arith)
      (record {
        marshalled = refl;
        failed = refl;
        head_small = omega arith;
        attachment_small = omega arith;
        too_large = omega arith;
        failed_small = omega arith;
        failed_fits = omega arith;
        limit = omega arith;
      })
      refl

abbrev long_answer_with : Msg
long_answer_with = record long_answer { server_response_attachment = readable (3 ∷ []) }

oversize_attachment_panics_example :
    (buf : Bytes) × ((server_encode pb proto 40 long_answer_with long_body).1 ≡ ok buf)
    × IsPanic (client_decode pb proto waiting buf).1
unfolding new_response_protocol get_and_init_response_protocol response_of with_rsp_err merge
oversize_attachment_panics_example =
    oversize_attachment_panics pb proto 40 long_answer_with waiting some_head asked asked long_body
      (3 ∷ []) (0 ∷ 0 ∷ 7 ∷ 0 ∷ 0 ∷ 0 ∷ 0 ∷ 0 ∷ 1 ∷ [])
      (0 ∷ 0 ∷ 7 ∷ 2 ∷ 0 ∷ 0 ∷ 0 ∷ 0 ∷ 1 ∷ codes "failed") pb-IsProtocol proto-IsRspProto
      some_head-Fits (record { frame = refl; unary = refl; rsp = refl; attachment = refl })
      (record { sent = refl; no_error = refl; no_rsp = refl }) refl (omega arith)
      (record {
        marshalled = refl;
        failed = refl;
        head_small = omega arith;
        attachment_small = omega arith;
        too_large = omega arith;
        failed_small = omega arith;
        failed_fits = omega arith;
        limit = omega arith;
      })
      (omega arith)
