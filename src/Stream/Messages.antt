-- ===== src/Stream/Messages.antt =====
-- stream/client.go: the calls of RecvMsg where the server streams.
use mathlib.Core.List.{append-nil}
use trpc_go.Common.{
  ℕ, suc, ◌≡◌, refl, sym, ap, ◌∙◌, Bool, true, List, [], ◌∷◌, ◌++◌, map, Option, none, some, All,
  Option-cases, inl, inr,
}
use trpc_go.Wire.BigEndian.{Bytes}
use trpc_go.Codec.Stream.{StreamProtocol}
use trpc_go.FlowControl.Receive.{ReceiveControl}
use trpc_go.FlowControl.Send.{SendControl}
use trpc_go.Stream.Client.{
  StreamError, Response, error_response, message_response, ContextError, Seen, recv, recv_msg,
}
use trpc_go.Stream.Receiving.{ClientStream, Occurs}
use trpc_go.Stream.Order.{received_in_order}
use trpc_go.Stream.Carried.{IsDistinct, Carries, Carries-responses}
use trpc_go.Stream.Recv.{Feeds, seen, recv-message, recv-error}

map-map {ℓ} :
    {M : Type ℓ} (sent : List (Bytes × M))
    → map message_response (map (λ x. x.0) sent) ≡ map (λ x. message_response (x.0)) sent
map-map [] = refl
map-map (x ∷ sent) = ap (λ l. message_response (x.0) ∷ l) (map-map sent)

module _ {ℓ} {M : Type ℓ} (unmarshal : Bytes → Option M) (ctx_err : ContextError)
    (loads : ℕ → Bool × Bool) where
  -- Calls of RecvMsg where the server streams, as many as these responses, from the n-th recv on.
  unfoldable pub recv_all :
      ℕ → List Response → Option ReceiveControl → List (Option StreamError × Option M)
  recv_all n [] c = []
  recv_all n (r ∷ rs) c =
      let one =
        recv_msg unmarshal true (seen ctx_err loads n (some r)) (seen ctx_err loads n none) c in
      (one.err, one.message) ∷ recv_all (suc n) rs (one.r_control)

  -- A payload is what a message is marshalled to.
  abbrev pub IsMarshalled : Bytes × M → Type ℓ
  IsMarshalled (p, m) = unmarshal p ≡ some m

  recv_msg_streaming :
      (one two : Seen) (c : Option ReceiveControl)
      → recv_msg unmarshal true one two c ≡ recv unmarshal one c
  unfolding recv_msg recv
  recv_msg_streaming one two c = elim (Option-cases ((recv unmarshal one c).err)) [
    | inl e ↦ rw (recv_msg, e) refl
    | inr (x, e) ↦ rw (recv_msg, e) refl
  ]

  recv_all-messages :
      (n : ℕ) (sent : List (Bytes × M)) (e : StreamError) (c : Option ReceiveControl)
      → Feeds c
      → All IsMarshalled sent
      → recv_all n (map (λ x. message_response (x.0)) sent ++ (error_response e ∷ [])) c
        ≡ map (λ x. (none, some (x.1))) sent ++ ((some e, none) ∷ [])
  unfolding recv_all
  recv_all-messages n [] e c h u =
      rw
        (recv_msg_streaming (seen ctx_err loads n (some (error_response e)))
          (seen ctx_err loads n none) c)
        (ap (λ r. (r.err, r.message) ∷ []) (recv-error unmarshal ctx_err loads n e c))
  recv_all-messages n ((p, m) ∷ sent) e c h (head, tail) =
      let (no_err, message, feeds) = recv-message unmarshal ctx_err loads n p m c h head in
      rw
        (
          recv_msg_streaming (seen ctx_err loads n (some (message_response p)))
              (seen ctx_err loads n none) c,
          no_err,
          message,
        )
        (ap (λ l. (none, some m) ∷ l)
          (recv_all-messages (suc n) sent e
            ((recv unmarshal (seen ctx_err loads n (some (message_response p))) c).r_control) feeds
            tail))

  -- What the calls of RecvMsg return where the server streams and the arrivals have been taken from
  -- the queue: the messages that were sent, in their order and without an error, and then the error
  -- that ends the stream, which is io.EOF for a Close frame without an error. It holds whatever
  -- order the goroutines ran in and whenever the flag of close was seen to be set, if the payloads
  -- unmarshal to the messages and the feedback function returns no error.
  pub messages_arrive :
      (pb : StreamProtocol) (control : Option SendControl) (s : ClientStream)
      (sent : List (Bytes × M)) (e : StreamError) (c : Option ReceiveControl)
      → IsDistinct pb
      → Occurs pb control s
      → Carries pb s.arrived (map (λ x. x.0) sent) e
      → s.recv_queue.queue.list ≡ []
      → All IsMarshalled sent
      → Feeds c
      → recv_all 0 s.recv_queue.taken c
        ≡ map (λ x. (none, some (x.1))) sent ++ ((some e, none) ∷ [])
  messages_arrive pb control s sent e c d o carried empty u h =
      let (order, loops) = received_in_order pb control s o in
      let wire = Carries-responses pb s.arrived (map (λ x. x.0) sent) e d carried in
      let taken : s.recv_queue.taken
          ≡ map (λ x. message_response (x.0)) sent ++ (error_response e ∷ []) =
        sym (ap (λ l. s.recv_queue.taken ++ l) empty ∙ append-nil s.recv_queue.taken)
        ∙ order
        ∙ wire
        ∙ ap (λ l. l ++ (error_response e ∷ [])) (map-map sent) in
      rw taken (recv_all-messages 0 sent e c h u)
