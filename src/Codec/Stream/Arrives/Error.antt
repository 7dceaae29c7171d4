-- ===== src/Codec/Stream/Arrives/Error.antt =====
-- codec_stream.go: the handler's error from the server to the client.
use trpc_go.Common.{ℕ, ◌≡◌, refl, ◌∙◌, ap, [], Option, none, some, arith}
use trpc_go.Wire.BigEndian.{Bytes}
use trpc_go.Codec.Outcome.{ok}
use trpc_go.Codec.Frame.{Protocol, FrameHead, extract}
use trpc_go.Codec.Message.{msg_of, callee_framework, present, RspError}
use trpc_go.Codec.Stream.{
  CloseMeta, StreamProtocol, StreamProto, StreamMsg, behind_head, frame_write, InitMetas,
  addr_to_key, find_init_meta,
}
use trpc_go.Codec.Stream.Client.{
  unmarshalled, callee_error, client_stream_decode, client_decode_frame, client_closed, close_error,
}
use trpc_go.Codec.Stream.Server.{
  Served, server_stream_encode, server_encode_frame, server_encode_data_frame,
  server_encode_close_frame, build_reset_frame, set_stream_close_meta_data,
}
use trpc_go.Codec.Stream.Table.{find-delete_self}
use trpc_go.Codec.Stream.Frames.{
  behind-frame_write, extract-frame_write, by_type-data, by_type-close, IsStreamProtocol,
  IsStreamProto, IsStreamHead, marshalled-eq-ok, client_dispatch, server_encodes, read_by, streamed,
  head_read,
}

module _ (pb : Protocol) (sp : StreamProtocol) (proto : StreamProto) (m : ℕ)
    (default_caller : Bytes) where
  reset_error :
      (close : CloseMeta) (old : Option RspError)
      → close.close_type ≡ sp.reset
      → close_error sp close old ≡ some (callee_error close.ret close.msg)
  unfolding close_error
  reset_error close old q = ground arith

  server_sends_error :
      (h : FrameHead) (server : StreamMsg) (metas : InitMetas) (body : Bytes) (e : RspError)
      → IsStreamProtocol sp
      → h.stream_frame_type ≡ sp.data_type
      → server.msg.server_rsp_err ≡ some e
      → server_encode_frame pb sp proto m metas h server body
        ≡ server_encode_close_frame pb sp proto m metas
            (record h { stream_frame_type = sp.close_type })
            (build_reset_frame sp server h e)
  unfolding server_encode_frame server_encode_data_frame
  server_sends_error h server metas body e sp_ok kind q =
      by_type-data sp sp_ok (h.stream_frame_type) _ _ _ _ _ kind
      ∙ ap
          (λ (o : Option RspError). elim o as (λ x. Served) [
            | none ↦ (metas, server, frame_write pb m h body)
            | some e ↦
                server_encode_close_frame pb sp proto m metas
                  (record h { stream_frame_type = sp.close_type }) (build_reset_frame sp server h e)
          ])
          q

  client_gets_close :
      (h : FrameHead) (sm : StreamMsg) (part buf : Bytes) (close : CloseMeta)
      → IsStreamProtocol sp
      → h.stream_frame_type ≡ sp.close_type
      → behind_head buf ≡ ok part
      → proto.unmarshal_close part ≡ some close
      → client_decode_frame pb sp proto h sm buf ≡ (client_closed sp sm close, ok [])
  unfolding client_decode_frame
  client_gets_close h sm part buf close sp_ok kind a b = rw (
    client_decode_frame,
    by_type-close sp sp_ok (h.stream_frame_type) _ _ _ _ _ kind,
    unmarshalled,
    a,
    b,
  )

  -- An error that the server's handler has returned when a Data frame is due goes to the client in
  -- place of the data: the server's Encode sends a Close frame and forgets the stream, and the
  -- client's Decode of the frame sets the error as one of the callee's framework, with its code and its message, or for
  -- an error with a cause the text of the whole chain in place of its message.
  pub error_arrives :
      (h : FrameHead) (client server : StreamMsg) (metas : InitMetas) (body : Bytes) (e : RspError)
      {buf : Bytes}
      → IsStreamProtocol sp
      → IsStreamProto proto
      → IsStreamHead pb h sp.data_type
      → server.msg.frame_head ≡ present h
      → server.msg.server_rsp_err ≡ some e
      → (server_stream_encode pb sp proto m metas server body).2 ≡ ok buf
      → (h' : FrameHead) × (extract buf ≡ ok h')
        × (h'.stream_frame_type ≡ sp.close_type)
        × (find_init_meta
              (addr_to_key server)
              h.stream_id
              ((server_stream_encode pb sp proto m metas server body).0)
            ≡ none)
        × ((client_stream_decode pb sp proto (read_by client h') buf).0.msg.client_rsp_err
            ≡ some (record {
              kind = callee_framework;
              code = e.code;
              msg = elim e.chained [ none ↦ e.msg | some text ↦ text ];
              chained = none;
            }))
        × ((client_stream_decode pb sp proto (read_by client h') buf).1 ≡ ok [])
  unfolding server_encode_close_frame build_reset_frame addr_to_key client_closed
      set_stream_close_meta_data msg_of callee_error
  error_arrives h client server metas body e {buf} sp_ok proto_ok is_head head_sent failed sent =
      let same =
        server_encodes pb sp proto m default_caller metas h server body is_head.stream head_sent
        ∙ server_sends_error h server metas body e sp_ok is_head.kind failed in
      let reset : FrameHead = record h { stream_frame_type = sp.close_type } in
      let (part, a, b) = marshalled-eq-ok pb m reset _ (rw same at sent) in
      let closed =
        client_gets_close (head_read reset buf) (streamed client (head_read reset buf)) part buf _
          sp_ok refl (behind-frame_write pb m reset part b) (proto_ok.close_round _ part a) in
      let decoded =
        client_dispatch pb sp proto (head_read reset buf) client buf is_head.stream ∙ closed in
      (
        head_read reset buf,
        extract-frame_write pb m reset part
            (record {
              magic = is_head.fits.magic;
              frame_type = is_head.fits.frame_type;
              stream_frame_type = sp_ok.close_byte;
              stream_id = is_head.fits.stream_id;
              protocol_version = is_head.fits.protocol_version;
              frame_reserved = is_head.fits.frame_reserved;
            })
            b,
        refl,
        rw same (find-delete_self (addr_to_key server) h.stream_id metas),
        rw decoded (reset_error _ _ refl),
        rw decoded,
      )
