-- ===== src/Stream/Served.antt =====
-- stream/server.go: every message leaves the streams of the table live.
use trpc_go.Common.{
  ℕ, ◌≡◌, refl, Bool, true, false, [], ◌∷◌, Option, none, some, ◌==◌, if◌then◌else◌, get_elem?,
  arith, Option-cases, inl, inr, ◌⊎◌,
}
use trpc_go.Common.Dict.{Key, lookup}
use trpc_go.Common.Table.{find_in}
use trpc_go.Wire.BigEndian.{Bytes}
use trpc_go.Codec.Stream.{StreamProtocol}
use trpc_go.Stream.Client.{error_response, message_response, reset_or_eof}
use trpc_go.Stream.Dispatcher.{
  ServerStream, Dispatcher, Reply, unknown_frame_type, Loaded, missing, loaded, load_server_stream,
  receive, with_increment, handle_data, handle_close, handle_feedback_frame, handle_init, Service,
  Request, handle_by_stream_frame_type, stream_handle_func, new_stream_dispatcher, Serves, starts,
  handles, handler_ends,
}
use trpc_go.Stream.Pointers.{loaded-found}
use trpc_go.Stream.Live.{
  IsLive, with_increment-IsHarmless, receive-IsHarmless, change-IsLive, end_handler-IsLive,
  stored-IsLive, handle_error-IsLive,
}

if-IsLive :
    (b : Bool) (x y : Dispatcher × Reply)
    → IsLive (x.0)
    → IsLive (y.0)
    → IsLive ((if b then x else y).0)
if-IsLive true x y p q = p
if-IsLive false x y p q = q

Loaded-cases : (l : Loaded) → ((e : Reply) × (l ≡ missing e)) ⊎ ((h : ℕ) × (l ≡ loaded h))
Loaded-cases (missing e) = inl (e, refl)
Loaded-cases (loaded h) = inr (h, refl)

handle_data-IsLive :
    (addr : Key) (id : ℕ) (req : Bytes) (d : Dispatcher)
    → IsLive d
    → IsLive ((handle_data addr id req d).0)
unfolding handle_data
handle_data-IsLive addr id req d live = elim (Loaded-cases (load_server_stream addr id d.table)) [
  | inl (e, n) ↦ rw (handle_data, n) live
  | inr (h, n) ↦
      rw (handle_data, n)
        (change-IsLive (receive (message_response req)) h d
          (receive-IsHarmless (message_response req)) live)
]

handle_close-IsLive :
    (addr : Key) (id : ℕ) (e : Option ℕ) (d : Dispatcher)
    → IsLive d
    → IsLive ((handle_close addr id e d).0)
unfolding handle_close
handle_close-IsLive addr id e d live = elim (Loaded-cases (load_server_stream addr id d.table)) [
  | inl (x, n) ↦ rw (handle_close, n) live
  | inr (h, n) ↦
      (let r = error_response (reset_or_eof e) in
        rw (handle_close, n) (change-IsLive (receive r) h d (receive-IsHarmless r) live))
]

handle_feedback_frame-IsLive :
    (addr : Key) (id : ℕ) (i : Option ℕ) (d : Dispatcher)
    → IsLive d
    → IsLive ((handle_feedback_frame addr id i d).0)
unfolding handle_feedback_frame
handle_feedback_frame-IsLive addr id none d live =
    elim (Loaded-cases (load_server_stream addr id d.table)) [
      | inl (x, n) ↦ rw (handle_feedback_frame, n) live
      | inr (h, n) ↦ rw (handle_feedback_frame, n) live
    ]
handle_feedback_frame-IsLive addr id (some i) d live =
    elim (Loaded-cases (load_server_stream addr id d.table)) [
      | inl (x, n) ↦ rw (handle_feedback_frame, n) live
      | inr (h, n) ↦
          rw (handle_feedback_frame, n)
            (change-IsLive (with_increment i) h d (with_increment-IsHarmless i) live)
    ]

handle_init-IsLive :
    (sv : Service) (addr : Key) (id : ℕ) (w : Option ℕ) (d : Dispatcher)
    → IsLive d
    → IsLive ((handle_init sv addr id w d).0)
unfolding handle_init
handle_init-IsLive sv addr id none d live = stored-IsLive addr id _ d live
handle_init-IsLive sv addr id (some w) d live = stored-IsLive addr id _ d live

stream_handle_func-IsLive :
    (pb : StreamProtocol) (sv : Service) (q : Request) (d : Dispatcher)
    → IsLive d
    → IsLive ((stream_handle_func pb sv q d).0)
unfolding stream_handle_func handle_by_stream_frame_type
stream_handle_func-IsLive pb sv q d live = elim (Option-cases (q.frame_type)) [
  | inl n ↦ elim (Option-cases (q.rsp_err)) [
    | inl n' ↦ rw (stream_handle_func, n, n') live
    | inr (e, n') ↦ rw (stream_handle_func, n, n') (handle_error-IsLive q.addr (some e) d live)
  ]
  | inr (t, n) ↦
      rw (stream_handle_func, n)
        (if-IsLive (t == pb.init_type) _ _
          (handle_init-IsLive sv q.addr q.stream_id q.window d live)
          (if-IsLive (t == pb.data_type) _ _
            (handle_data-IsLive q.addr q.stream_id q.payload d live)
            (if-IsLive (t == pb.close_type) _ _
              (handle_close-IsLive q.addr q.stream_id q.rsp_err d live)
              (if-IsLive (t == pb.feedback_type) _ (d, unknown_frame_type)
                (handle_feedback_frame-IsLive q.addr q.stream_id q.increment d live) live))))
]

pub Serves-IsLive :
    (pb : StreamProtocol) (sv : Service) (d : Dispatcher) → Serves pb sv d → IsLive d
unfolding new_stream_dispatcher find_in lookup
Serves-IsLive pb sv _ starts = λ a k h e. absurd (ground arith)
Serves-IsLive pb sv _ (handles d q r) =
    stream_handle_func-IsLive pb sv q d (Serves-IsLive pb sv d r)
Serves-IsLive pb sv _ (handler_ends d h s e r at) =
    end_handler-IsLive h s e d at (Serves-IsLive pb sv d r)

-- The stream that the dispatcher finds for a frame was made by the Init frame of the same connection
-- and stream id, and it is not over: neither has its handler ended nor has its connection failed. It
-- holds for any sequence of messages, on any connections, and of ends of handlers, also where a
-- client gives the id of a stream that is at work to another one.
pub loaded_is_live :
    (pb : StreamProtocol) (sv : Service) (d : Dispatcher) (addr : Key) (id h : ℕ)
    → Serves pb sv d
    → load_server_stream addr id d.table ≡ loaded h
    → (s : ServerStream) × (get_elem? d.streams h ≡ some s)
      × (s.addr ≡ addr)
      × (s.stream_id ≡ id)
      × (s.done ≡ false)
loaded_is_live pb sv d addr id h r e =
    let (s, at, sa, sk, sd) =
      Serves-IsLive pb sv d r addr (id ∷ []) h (loaded-found addr id h d.table e) in
    (s, at, sa, ground arith, sd)
