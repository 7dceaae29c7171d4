-- ===== src/Codec/Stream/Arrives/Init.antt =====
-- codec_stream.go: Init frames from the client to the server.
use trpc_go.Common.{
  ap, not, ◌==◌, ◌∷◌, Option, none, codes, str_eq, arith, if◌then◌else◌, ℕ, ◌%◌, ◌^◌, ◌≡◌, refl,
  ◌∙◌, [], some, Option-cases, inl, inr,
}
use Prim.Native.Nat.{bit_and, bit_or}
use trpc_go.Common.Dict.{Key, Dict, lookup}
use trpc_go.Codec.Metadata.{value_or, sent_value, lookup-named_trans_info}
use trpc_go.Codec.Client.{update_caller_service_name}
use trpc_go.Codec.Server.{with_trans_info}
use trpc_go.Codec.Stream.Table.{same_stream, find-store}
use trpc_go.Wire.BigEndian.{Bytes}
use trpc_go.Codec.Outcome.{ok}
use trpc_go.Codec.Frame.{Protocol, FrameHead, extract}
use trpc_go.Codec.Message.{Msg, present}
use trpc_go.Codec.Stream.{
  InitRequestMeta, InitMeta, StreamFrame, no_frame, init_frame, close_frame, feedback_frame,
  StreamProtocol, StreamProto, StreamMsg, behind_head, frame_write, InitMetas, addr_to_key,
  find_init_meta,
}
use trpc_go.Codec.Stream.Client.{
  client_stream_encode, init_to_send, client_encode_init_frame, client_encode_init, init_request,
}
use trpc_go.Codec.Stream.Server.{
  server_initialised, update_msg_by_init, read_request, server_decode_init, server_stream_decode,
  server_decode_frame,
}
use trpc_go.Codec.Stream.Frames.{
  behind-frame_write, extract-frame_write, by_type-init, panic-ne-ok, IsStreamProtocol,
  IsStreamProto, IsStreamHead, marshalled-eq-ok, server_dispatch, client_encodes, client_sends_init,
  read_by, streamed, head_read,
}

-- The request part that the message of a client holds already: that of its init metadata, or an
-- empty one.
abbrev pub held_request : StreamFrame → InitRequestMeta
held_request (init_frame meta) = elim meta.request_meta [
  | some req ↦ req
  | none ↦ record { caller = []; callee = []; func = []; message_type = 0; trans_info = [] }
]
held_request _ = record { caller = []; callee = []; func = []; message_type = 0; trans_info = [] }

-- What the init metadata that a client sends says of the call, for the message that it is given and
-- the request part that this holds.
pub record Introduces (pb : Protocol) (default_caller : Bytes) (client : Msg)
    (held : InitRequestMeta) (meta : InitMeta) (req : InitRequestMeta) : Type 0 where
  pub requested : meta.request_meta ≡ some req
  pub caller : req.caller ≡ (
      if str_eq client.caller_service_name [] then default_caller else client.caller_service_name)
  pub callee : req.callee ≡ client.callee_service_name
  pub func : req.func ≡ client.client_rpc_name
  pub content_type : meta.content_type ≡ client.serialization_type % 2 ^ 32
  pub content_encoding : meta.content_encoding ≡ client.compress_type % 2 ^ 32
  pub message_type :
      req.message_type
      ≡ (if client.dyeing then bit_or held.message_type pb.dyeing_message else held.message_type)
  pub meta_data : (k : Key) → lookup k req.trans_info ≡ sent_value client held.trans_info k

-- The message of the server that has been told this metadata.
abbrev pub told : Protocol → Msg → InitMeta → InitRequestMeta → Msg
told pb msg meta req = record msg {
  caller_service_name = req.caller;
  callee_service_name = req.callee;
  server_rpc_name = req.func;
  serialization_type = meta.content_type;
  compress_type = meta.content_encoding;
  dyeing = not (bit_and req.message_type pb.dyeing_message == 0);
  server_meta_data = elim req.trans_info [ [] ↦ msg.server_meta_data | e ∷ info ↦ e ∷ info ];
  dyeing_key = value_or (lookup (codes "trpc-dyeing-key") req.trans_info) msg.dyeing_key;
  env_transfer = value_or (lookup (codes "trpc-env") req.trans_info) msg.env_transfer;
}

with_trans_info-eq :
    (msg : Msg) (info : Dict Bytes)
    → with_trans_info msg info ≡ record msg {
      server_meta_data = elim info [ [] ↦ msg.server_meta_data | e ∷ t ↦ e ∷ t ];
      dyeing_key = value_or (lookup (codes "trpc-dyeing-key") info) msg.dyeing_key;
      env_transfer = value_or (lookup (codes "trpc-env") info) msg.env_transfer;
    }
unfolding with_trans_info lookup
with_trans_info-eq msg [] = refl
with_trans_info-eq msg (e ∷ info) = refl

update_msg_by_init-eq :
    (pb : Protocol) (msg : Msg) (meta : InitMeta) (req : InitRequestMeta)
    → update_msg_by_init pb msg meta req ≡ told pb msg meta req
unfolding update_msg_by_init read_request
update_msg_by_init-eq pb msg meta req =
    with_trans_info-eq (read_request pb msg meta req) req.trans_info

chosen : Option (InitMeta × InitRequestMeta × (InitMeta → StreamFrame)) → InitRequestMeta
chosen none = record { caller = []; callee = []; func = []; message_type = 0; trans_info = [] }
chosen (some (meta, req, store)) = req

held_request-chosen : (frame : StreamFrame) → held_request frame ≡ chosen (init_to_send frame)
unfolding init_to_send chosen
held_request-chosen no_frame = refl
held_request-chosen (init_frame meta) = ground arith
held_request-chosen (close_frame x) = refl
held_request-chosen (feedback_frame x) = refl

module _ (pb : Protocol) (sp : StreamProtocol) (proto : StreamProto) (m : ℕ)
    (default_caller : Bytes) where
  -- The metadata of a frame that encodeInitFrame built, and the message that it leaves.
  client_encode_init-eq-ok :
      (h : FrameHead) (client : StreamMsg) (meta : InitMeta) (req : InitRequestMeta)
      (store : InitMeta → StreamFrame) {buf : Bytes}
      → (client_encode_init pb sp proto m default_caller h client meta req store).1 ≡ ok buf
      → (meta' : InitMeta) × (req' : InitRequestMeta) × (part : Bytes) × Introduces pb
          default_caller client.msg req meta' req'
        × (proto.marshal_init meta' ≡ some part)
        × (frame_write pb m h part ≡ ok buf)
  unfolding client_encode_init init_request update_caller_service_name str_eq
  client_encode_init-eq-ok h client meta req store e =
      let (part, a, b) = marshalled-eq-ok pb m h _ e in
      (
        _,
        _,
        part,
        record {
          requested = refl;
          caller = ground arith;
          callee = ground arith;
          func = ground arith;
          content_type = ground arith;
          content_encoding = ground arith;
          message_type = ground arith;
          meta_data = λ k. lookup-named_trans_info client.msg default_caller req.trans_info k;
        },
        a,
        b,
      )

  client_encode_init_frame-eq-ok :
      (h : FrameHead) (client : StreamMsg) {buf : Bytes}
      → (client_encode_init_frame pb sp proto m default_caller h client).1 ≡ ok buf
      → (meta : InitMeta) × (req : InitRequestMeta) × (part : Bytes) × Introduces pb default_caller
          client.msg
          (held_request client.frame)
          meta
          req
        × (proto.marshal_init meta ≡ some part)
        × (frame_write pb m h part ≡ ok buf)
  unfolding client_encode_init_frame chosen
  client_encode_init_frame-eq-ok h client {buf} e =
      elim (Option-cases (init_to_send client.frame)) [
        | inl a ↦ absurd (panic-ne-ok (rw (client_encode_init_frame, a) at e))
        | inr ((meta, req, store), a) ↦
            let sent = rw (client_encode_init_frame, a) at e in
            let (meta', req', part, says, b, c) =
              client_encode_init-eq-ok h client meta req store sent in
            let held : held_request client.frame ≡ req =
              held_request-chosen client.frame ∙ ap chosen a in
            (meta', req', part, rw held says, b, c)
      ]

  server_gets_init :
      (h : FrameHead) (sm : StreamMsg) (metas : InitMetas) (part buf : Bytes) (meta : InitMeta)
      (req : InitRequestMeta)
      → IsStreamProtocol sp
      → h.stream_frame_type ≡ sp.init_type
      → behind_head buf ≡ ok part
      → proto.unmarshal_init part ≡ some meta
      → meta.request_meta ≡ some req
      → server_decode_frame pb sp proto metas h sm buf
        ≡ (let (metas', sm') = server_initialised pb metas sm meta req in (metas', sm', ok []))
  unfolding server_decode_frame server_decode_init
  server_gets_init h sm metas part buf meta req sp_ok kind a b c =
      rw
        (
          server_decode_frame,
          by_type-init sp sp_ok (h.stream_frame_type) _ _ _ _ _ kind,
          server_decode_init,
          a,
          b,
        )
        (simp c)

  -- An Init frame that the client's Encode returns introduces the stream. It carries metadata with
  -- the caller's name (or the default one), callee, procedure, serialization, compression, dyeing
  -- flag and metadata of the client's message, these key by key. The server's Decode takes them over
  -- into its message, and from then on knows the stream of that address and id by their request
  -- part, and the other streams as before.
  pub init_arrives :
      (h : FrameHead) (client server : StreamMsg) (metas : InitMetas) (body : Bytes) {buf : Bytes}
      → IsStreamProtocol sp
      → IsStreamProto proto
      → IsStreamHead pb h sp.init_type
      → client.msg.frame_head ≡ present h
      → (client_stream_encode pb sp proto m default_caller client body).1 ≡ ok buf
      → let (metas', server', result) =
          server_stream_decode pb sp proto metas (read_by server (head_read h buf)) buf in
        (meta : InitMeta) × (req : InitRequestMeta) × (extract buf ≡ ok (head_read h buf))
        × Introduces pb default_caller client.msg (held_request client.frame) meta req
        × (result ≡ ok [])
        × (server' ≡ record (streamed server (head_read h buf)) {
          msg = told pb ((read_by server (head_read h buf)).msg) meta req;
          frame = init_frame meta;
        })
        × ((addr : Key) (id : ℕ)
            → find_init_meta addr id metas' ≡ (
                if same_stream (addr_to_key server) h.stream_id addr id
                then some req
                else find_init_meta addr id metas))
  unfolding server_initialised addr_to_key
  init_arrives h client server metas body {buf} sp_ok proto_ok is_head head_sent e =
      let same =
        client_encodes pb sp proto m default_caller h client body is_head.stream head_sent
        ∙ client_sends_init pb sp proto m default_caller h client body sp_ok is_head.kind in
      let (meta, req, part, says, a, b) = client_encode_init_frame-eq-ok h client (rw same at e) in
      let decoded =
        server_dispatch pb sp proto metas (head_read h buf) server buf is_head.stream
        ∙ server_gets_init (head_read h buf) (streamed server (head_read h buf)) metas part buf meta
            req sp_ok is_head.kind (behind-frame_write pb m h part b)
            (proto_ok.init_round meta part a) says.requested in
      let before = (read_by server (head_read h buf)).msg in
      (
        meta,
        req,
        extract-frame_write pb m h part is_head.fits b,
        says,
        ap (λ r. r.2) decoded,
        ap (λ r. r.1) decoded
            ∙ ap
                (λ x. record (streamed server (head_read h buf)) {
                  msg = x;
                  frame = init_frame meta;
                })
                (update_msg_by_init-eq pb before meta req),
        λ addr id.
            ap (λ r. find_init_meta addr id (r.0)) decoded
            ∙ find-store (addr_to_key server) h.stream_id req metas addr id,
      )
