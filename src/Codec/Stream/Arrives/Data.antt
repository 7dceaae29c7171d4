-- ===== src/Codec/Stream/Arrives/Data.antt =====
-- codec_stream.go: Data frames from the client to the server.
use trpc_go.Common.{ℕ, ◌≡◌, ◌∙◌, none, some}
use trpc_go.Wire.BigEndian.{Bytes}
use trpc_go.Codec.Outcome.{ok, err, uninitialized_meta}
use trpc_go.Codec.Frame.{Protocol, FrameHead, extract}
use trpc_go.Codec.Message.{present}
use trpc_go.Codec.Stream.{
  StreamProtocol, StreamProto, StreamMsg, with_msg, frame_write, InitMetas, addr_to_key,
  find_init_meta,
}
use trpc_go.Codec.Stream.Client.{client_stream_encode}
use trpc_go.Codec.Stream.Server.{server_stream_decode}
use trpc_go.Codec.Stream.Frames.{
  behind-frame_write, extract-frame_write, IsStreamProtocol, IsStreamHead, server_dispatch,
  client_encodes, client_sends_data, server_gets_data, read_by, streamed, head_read,
}

module _ (pb : Protocol) (sp : StreamProtocol) (proto : StreamProto) (m : ℕ) (caller : Bytes) where
  -- The bytes that the client sends in a Data frame arrive: if the server knows the stream, its
  -- Decode returns them and sets the procedure's name of the stream, and if it does not, Decode
  -- returns the error for a stream that was not initialised, whatever the bytes.
  pub data_arrives :
      (h : FrameHead) (client server : StreamMsg) (metas : InitMetas) (body : Bytes) {buf : Bytes}
      → IsStreamProtocol sp
      → IsStreamHead pb h sp.data_type
      → client.msg.frame_head ≡ present h
      → (client_stream_encode pb sp proto m caller client body).1 ≡ ok buf
      → (extract buf ≡ ok (head_read h buf))
        × (server_stream_decode pb sp proto metas (read_by server (head_read h buf)) buf
            ≡ (elim (find_init_meta (addr_to_key server) h.stream_id metas) [
              | none ↦ (metas, streamed server (head_read h buf), err uninitialized_meta)
              | some req ↦ (
                metas,
                with_msg
                    (streamed server (head_read h buf))
                    (record ((read_by server (head_read h buf)).msg) {
                      server_rpc_name = req.func;
                    }),
                ok body,
              )
            ]))
  unfolding addr_to_key
  data_arrives h client server metas body {buf} sp_ok is_head head_sent e =
      let path =
        client_encodes pb sp proto m caller h client body is_head.stream head_sent
        ∙ client_sends_data pb sp proto m caller h client body sp_ok is_head.kind in
      let sent : frame_write pb m h body ≡ ok buf = rw path at e in
      (
        extract-frame_write pb m h body is_head.fits sent,
        server_dispatch pb sp proto metas (head_read h buf) server buf is_head.stream
            ∙ server_gets_data pb sp proto m caller (head_read h buf)
                (streamed server (head_read h buf)) metas body buf sp_ok is_head.kind
                (behind-frame_write pb m h body sent),
      )
