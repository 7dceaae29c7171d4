-- ===== src/Codec/Stream/Lifecycle.antt =====
-- codec_stream.go: the table of ServerStreamCodec over any sequence of calls, against a flat table
-- that frames open streams in and end them in.
use trpc_go.Common.{
  ℕ, ◌≡◌, refl, ◌∙◌, ap, fun_ext, ◌⊎◌, Bool, true, false, not, List, [], ◌∷◌, Option, none, some,
  ◌==◌, if◌then◌else◌, Option-cases, inl, inr,
}
use trpc_go.Common.Dict.{Key}
use trpc_go.Wire.BigEndian.{Bytes}
use trpc_go.Codec.Outcome.{Outcome, ok, err, panic, CodecError}
use trpc_go.Codec.Frame.{Protocol, FrameHead, is_stream}
use trpc_go.Codec.Message.{Head, present, absent, other, Msg}
use trpc_go.Codec.Stream.{
  InitRequestMeta, StreamFrame, no_frame, init_frame, close_frame, feedback_frame, StreamProtocol,
  StreamProto, StreamMsg, behind_head, InitMetas, addr_to_key, find_init_meta,
}
use trpc_go.Codec.Stream.Client.{Returned, by_type, on_head}
use trpc_go.Codec.Stream.Server.{
  Served, set_init_meta, initialised, server_initialised, server_decode_init, server_decode_frame,
  server_stream_decode, server_encode_close_frame, server_encode_data_frame, server_encode_frame,
  server_stream_encode, build_reset_frame,
}
use trpc_go.Codec.Stream.Table.{same_stream, find-store, find-delete}

-- A call of one of the codec's two methods.
pub data Call : Type 0 where
  decodes encodes : StreamMsg → Bytes → Call

-- What a call does to the streams that the server knows.
pub data Effect : Type 0 where
  nothing : Effect
  opens : Key → ℕ → InitRequestMeta → Effect
  ends : Key → ℕ → Effect

-- The flat table: what is known of the stream of an address and an id.
abbrev pub Streams : Type 0
Streams = Key → ℕ → Option InitRequestMeta

abbrev pub apply : Effect → Streams → Streams
apply nothing streams addr id = streams addr id
apply (opens a i req) streams addr id =
    if same_stream a i addr id then some req else streams addr id
apply (ends a i) streams addr id = if same_stream a i addr id then none else streams addr id

abbrev pub applied : List Effect → Streams → Streams
applied [] streams = streams
applied (e ∷ es) streams = applied es (apply e streams)

abbrev pub known : InitMetas → Streams
known metas addr id = find_init_meta addr id metas

-- An Init frame opens its stream if it can be read and has a request part.
unfoldable pub opened_by : StreamProto → StreamMsg → ℕ → Bytes → Effect
opened_by proto sm id buf = elim (behind_head buf) [
  | panic ↦ nothing
  | err e ↦ nothing
  | ok part ↦ elim (proto.unmarshal_init part) [
    | none ↦ nothing
    | some meta ↦ elim (meta.request_meta) [
      | none ↦ nothing
      | some req ↦ opens (addr_to_key sm) id req
    ]
  ]
]

-- A Close frame ends the stream of the head; without close metadata, that of the message.
unfoldable pub closed_by : StreamMsg → ℕ → Effect
closed_by sm id = elim (sm.frame) [
  | close_frame close ↦ ends (addr_to_key sm) id
  | _ ↦ ends (addr_to_key sm) sm.stream_id
]

-- A Data frame ends its stream if the handler has returned an error.
unfoldable pub reset_by : StreamMsg → ℕ → Effect
reset_by sm id = elim (sm.msg.server_rsp_err) [ none ↦ nothing | some e ↦ ends (addr_to_key sm) id ]

module _ (pb : Protocol) (sp : StreamProtocol) (proto : StreamProto) where
  unfoldable pub effect_of : Call → Effect
  effect_of (decodes sm buf) =
      on_head sm.msg.frame_head
        (λ h.
          if not (is_stream pb h)
          then nothing
          else by_type sp (h.stream_frame_type) (opened_by proto sm h.stream_id buf) nothing nothing
              nothing nothing)
        nothing
  effect_of (encodes sm buf) =
      on_head sm.msg.frame_head
        (λ h.
          if not (is_stream pb h)
          then nothing
          else by_type sp (h.stream_frame_type) nothing (reset_by sm h.stream_id)
              (closed_by sm h.stream_id) nothing nothing)
        nothing

  abbrev pub effects : List Call → List Effect
  effects [] = []
  effects (c ∷ cs) = effect_of c ∷ effects cs

module _ (pb : Protocol) (sp : StreamProtocol) (proto : StreamProto) (m : ℕ) where
  unfoldable pub after_call : InitMetas → Call → InitMetas
  after_call metas (decodes sm buf) = (server_stream_decode pb sp proto metas sm buf).0
  after_call metas (encodes sm buf) = (server_stream_encode pb sp proto m metas sm buf).0

  unfoldable pub run_calls : InitMetas → List Call → InitMetas
  run_calls metas [] = metas
  run_calls metas (c ∷ cs) = run_calls (after_call metas c) cs

outcome-cases {ℓ} :
    {A : Type ℓ} (o : Outcome A)
    → ((o ≡ panic) ⊎ ((e : CodecError) × (o ≡ err e))) ⊎ ((x : A) × (o ≡ ok x))
outcome-cases panic = inl (inl refl)
outcome-cases (err e) = inl (inr (e, refl))
outcome-cases (ok x) = inr (x, refl)

-- Two tests on the same condition agree when their branches do.
if-agrees {ℓ κ ι} :
    {A : Type ℓ} {B : Type κ} (R : A → B → Type ι) (c : Bool) (a : A) (a' : B) (b : A) (b' : B)
    → R a a'
    → R b b'
    → R (if c then a else b) (if c then a' else b')
if-agrees R true a a' b b' ra rb = ra
if-agrees R false a a' b b' ra rb = rb

-- So do two switches over the same frame type.
by_type-agrees {ℓ κ ι} :
    {A : Type ℓ} {B : Type κ} (R : A → B → Type ι) (sp : StreamProtocol) (t : ℕ) (a b c d e : A)
    (a' b' c' d' e' : B)
    → R a a'
    → R b b'
    → R c c'
    → R d d'
    → R e e'
    → R (by_type sp t a b c d e) (by_type sp t a' b' c' d' e')
unfolding by_type
by_type-agrees R sp t a b c d e a' b' c' d' e' ra rb rc rd re =
    if-agrees R (t == sp.init_type) _ _ _ _ ra (
      if-agrees R (t == sp.data_type) _ _ _ _ rb (
        if-agrees R (t == sp.close_type) _ _ _ _ rc
          (if-agrees R (t == sp.feedback_type) _ _ _ _ rd re)))

-- What is found of a stream after a call is what its effect says.
abbrev Agrees : InitMetas → Key → ℕ → Served → Effect → Type 0
Agrees metas addr id served e = find_init_meta addr id (served.0) ≡ apply e (known metas) addr id

initialised-Agrees :
    (metas : InitMetas) (sm : StreamMsg) (continue : StreamMsg → Returned) (addr : Key) (id : ℕ)
    → Agrees metas addr id (initialised metas sm continue) nothing
initialised-Agrees metas sm continue addr id = elim (Option-cases (set_init_meta metas sm)) [
  | inl a ↦ rw (initialised, a)
  | inr (sm', a) ↦ rw (initialised, a)
]

server_decode_init-Agrees :
    (pb : Protocol) (proto : StreamProto) (metas : InitMetas) (sm : StreamMsg) (i : ℕ) (buf : Bytes)
    (addr : Key) (id : ℕ)
    → Agrees metas addr id
        (server_decode_init pb proto metas (record sm { stream_id = i }) buf)
        (opened_by proto sm i buf)
unfolding server_decode_init opened_by server_initialised addr_to_key
server_decode_init-Agrees pb proto metas sm i buf addr id = elim (outcome-cases (behind_head buf)) [
  | inl (inl a) ↦ rw (server_decode_init, opened_by, a)
  | inl (inr (e, a)) ↦ rw (server_decode_init, opened_by, a)
  | inr (part, a) ↦ elim (Option-cases (proto.unmarshal_init part)) [
    | inl b ↦ rw (server_decode_init, opened_by, a, b)
    | inr (meta, b) ↦ elim (Option-cases (meta.request_meta)) [
      | inl c ↦ rw (server_decode_init, opened_by, a, b, c)
      | inr (req, c) ↦
          rw (server_decode_init, opened_by, a, b, c)
            (find-store (addr_to_key sm) i req metas addr id)
    ]
  ]
]

server_encode_close_frame-Agrees :
    (pb : Protocol) (sp : StreamProtocol) (proto : StreamProto) (m : ℕ) (metas : InitMetas)
    (h : FrameHead) (msg : Msg) (i : ℕ) (frame : StreamFrame) (network local remote : Bytes)
    (addr : Key) (id : ℕ)
    → (let sm : StreamMsg = record {
      msg = msg;
      stream_id = i;
      frame = frame;
      network = network;
      local = local;
      remote = remote;
    } in
        Agrees metas addr id
          (server_encode_close_frame pb sp proto m metas h sm)
          (closed_by sm (h.stream_id)))
unfolding server_encode_close_frame closed_by
server_encode_close_frame-Agrees pb sp proto m metas h msg i no_frame n l r addr id =
    find-delete (addr_to_key _) i metas addr id
server_encode_close_frame-Agrees pb sp proto m metas h msg i (init_frame x) n l r addr id =
    find-delete (addr_to_key _) i metas addr id
server_encode_close_frame-Agrees pb sp proto m metas h msg i (close_frame x) n l r addr id =
    find-delete (addr_to_key _) h.stream_id metas addr id
server_encode_close_frame-Agrees pb sp proto m metas h msg i (feedback_frame x) n l r addr id =
    find-delete (addr_to_key _) i metas addr id

server_encode_data_frame-Agrees :
    (pb : Protocol) (sp : StreamProtocol) (proto : StreamProto) (m : ℕ) (metas : InitMetas)
    (h : FrameHead) (sm : StreamMsg) (buf : Bytes) (addr : Key) (id : ℕ)
    → Agrees metas addr id
        (server_encode_data_frame pb sp proto m metas h sm buf)
        (reset_by sm (h.stream_id))
unfolding server_encode_data_frame reset_by server_encode_close_frame build_reset_frame addr_to_key
server_encode_data_frame-Agrees pb sp proto m metas h sm buf addr id =
    elim (Option-cases (sm.msg.server_rsp_err)) [
      | inl a ↦ rw (server_encode_data_frame, reset_by, a)
      | inr (e, a) ↦
          rw (server_encode_data_frame, reset_by, a)
            (find-delete (addr_to_key sm) h.stream_id metas addr id)
    ]

-- A case on the frame head agrees when its branches do.
on_head-agrees {ℓ κ ι} :
    {A : Type ℓ} {B : Type κ} (R : A → B → Type ι) (head : Head FrameHead) (f : FrameHead → A)
    (f' : FrameHead → B) (n : A) (n' : B)
    → ((h : FrameHead) → R (f h) (f' h))
    → R n n'
    → R (on_head head f n) (on_head head f' n')
on_head-agrees R (present h) f f' n n' rf rn = rf h
on_head-agrees R absent f f' n n' rf rn = rn
on_head-agrees R other f f' n n' rf rn = rn

decode-Agrees :
    (pb : Protocol) (sp : StreamProtocol) (proto : StreamProto) (metas : InitMetas) (sm : StreamMsg)
    (buf : Bytes) (addr : Key) (id : ℕ)
    → Agrees metas addr id
        (server_stream_decode pb sp proto metas sm buf)
        (effect_of pb sp proto (decodes sm buf))
unfolding server_stream_decode server_decode_frame effect_of
decode-Agrees pb sp proto metas sm buf addr id =
    let R : Served → Effect → Type 0 = Agrees metas addr id in
    on_head-agrees R sm.msg.frame_head _ _ _ _
      (λ h. if-agrees R (not (is_stream pb h)) _ _ _ _ refl (
        by_type-agrees R sp h.stream_frame_type _ _ _ _ _ _ _ _ _ _
          (server_decode_init-Agrees pb proto metas sm h.stream_id buf addr id)
          (initialised-Agrees metas _ _ addr id) (initialised-Agrees metas _ _ addr id)
          (initialised-Agrees metas _ _ addr id) refl))
      refl

encode-Agrees :
    (pb : Protocol) (sp : StreamProtocol) (proto : StreamProto) (m : ℕ) (metas : InitMetas)
    (sm : StreamMsg) (buf : Bytes) (addr : Key) (id : ℕ)
    → Agrees metas addr id
        (server_stream_encode pb sp proto m metas sm buf)
        (effect_of pb sp proto (encodes sm buf))
unfolding server_stream_encode server_encode_frame effect_of
encode-Agrees pb sp proto m metas sm buf addr id =
    let R : Served → Effect → Type 0 = Agrees metas addr id in
    on_head-agrees R sm.msg.frame_head _ _ _ _
      (λ h. if-agrees R (not (is_stream pb h)) _ _ _ _ refl (
        by_type-agrees R sp h.stream_frame_type _ _ _ _ _ _ _ _ _ _ refl
          (server_encode_data_frame-Agrees pb sp proto m metas h sm buf addr id)
          (server_encode_close_frame-Agrees pb sp proto m metas h sm.msg sm.stream_id sm.frame
            sm.network sm.local sm.remote addr id)
          refl refl))
      refl

after_call-Agrees :
    (pb : Protocol) (sp : StreamProtocol) (proto : StreamProto) (m : ℕ) (metas : InitMetas)
    (c : Call) (addr : Key) (id : ℕ)
    → known (after_call pb sp proto m metas c) addr id
      ≡ apply (effect_of pb sp proto c) (known metas) addr id
unfolding after_call
after_call-Agrees pb sp proto m metas (decodes sm buf) addr id =
    decode-Agrees pb sp proto metas sm buf addr id
after_call-Agrees pb sp proto m metas (encodes sm buf) addr id =
    encode-Agrees pb sp proto m metas sm buf addr id

-- For any protocol, decoding of metadata, frame limit, table of initialised streams and sequence
-- of calls of the server codec's Decode and Encode, whether they succeed, fail or panic: what the
-- table holds afterwards for an address and a stream id, the request part of the metadata of an
-- Init frame, is what the flat table holds after the effects of the calls in their order. So a
-- stream is known if and only if the last call with an effect on its address and id was the decoding
-- of a readable Init frame with a request part; the sending of a Close frame, or of a Data frame with
-- an error of the handler, ends it; no other call changes that part, and none of them touches a
-- stream of another address or id.
pub run_calls-applied :
    (pb : Protocol) (sp : StreamProtocol) (proto : StreamProto) (m : ℕ) (metas : InitMetas)
    (cs : List Call)
    → known (run_calls pb sp proto m metas cs) ≡ applied (effects pb sp proto cs) (known metas)
unfolding run_calls
run_calls-applied pb sp proto m metas [] = refl
run_calls-applied pb sp proto m metas (c ∷ cs) =
    run_calls-applied pb sp proto m (after_call pb sp proto m metas c) cs
    ∙ ap (applied (effects pb sp proto cs))
        (fun_ext (λ addr. fun_ext (λ id. after_call-Agrees pb sp proto m metas c addr id)))
