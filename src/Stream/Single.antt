-- ===== src/Stream/Single.antt =====
-- stream/client.go: a call of RecvMsg where the server does not stream.
use trpc_go.Common.{
  ℕ, ◌≡◌, ◌≢◌, ◌↔◌, refl, sym, ap, ◌∙◌, Bool, false, List, [], ◌∷◌, ◌++◌, map, Option, none, some,
  arith, get_elem?, Option-cases, inl, inr,
}
use trpc_go.Wire.BigEndian.{Bytes}
use trpc_go.Codec.Stream.{StreamProtocol}
use trpc_go.FlowControl.Receive.{ReceiveControl}
use trpc_go.Stream.Client.{
  StreamError, eof, decode_fail, Arrival, error_response, message_response, ContextError, Seen,
  recv, recv_msg, expect_eof,
}
use trpc_go.Stream.Receiving.{responses}
use trpc_go.Stream.Carried.{IsDistinct, Carries, Carries-responses}
use trpc_go.Stream.Recv.{Feeds, seen, recv-message, recv-error, recv-undecoded}

expect_eof_iff :
    (ps : List Bytes) (e : StreamError)
    → ps ≡ []
    → expect_eof (some e) ≡ none ↔ (ps ≡ []) × (e ≡ eof)
unfolding expect_eof
expect_eof_iff ps e empty = (λ x. (empty, ground arith), λ (_, x). ground arith)

expect_eof-cases : (o : Option StreamError) → expect_eof o ≡ none → o ≡ some eof
unfolding expect_eof
expect_eof-cases o h = ground arith

module _ {ℓ} {M : Type ℓ} (unmarshal : Bytes → Option M) (ctx_err : ContextError)
    (loads : ℕ → Bool × Bool) where
  recv_msg-first_fails :
      (one two : Seen) (c : Option ReceiveControl) (x : StreamError)
      → (recv unmarshal one c).err ≡ some x
      → (recv_msg unmarshal false one two c).err ≡ some x
  unfolding recv_msg
  recv_msg-first_fails one two c x e = rw (recv_msg, e) e

  recv_msg-second :
      (one two : Seen) (c : Option ReceiveControl)
      → (recv unmarshal one c).err ≡ none
      → (recv_msg unmarshal false one two c).err
        ≡ expect_eof ((recv unmarshal two ((recv unmarshal one c).r_control)).err)
  unfolding recv_msg
  recv_msg-second one two c e = rw (recv_msg, e) refl

  -- Neither a second message nor bytes that are none end the stream.
  second_message :
      (n : ℕ) (p : Bytes) (c : Option ReceiveControl)
      → Feeds c
      → expect_eof ((recv unmarshal (seen ctx_err loads n (some (message_response p))) c).err)
        ≢ none
  second_message n p c h x =
      let ended = expect_eof-cases _ x in
      elim (Option-cases (unmarshal p)) [
        | inl e ↦ (let undecoded = recv-undecoded unmarshal ctx_err loads n p c h e in ground arith)
        | inr (m, e) ↦
            (let (no_err, _, _) = recv-message unmarshal ctx_err loads n p m c h e in ground arith)
      ]

  -- The case of the first message that unmarshals.
  first_message :
      (p : Bytes) (m : M) (ps : List Bytes) (e : StreamError) (c : Option ReceiveControl)
      → Feeds c
      → expect_eof (
            (recv unmarshal
              (seen ctx_err loads 1
                (get_elem? (map message_response ps ++ (error_response e ∷ [])) 0))
              c).err)
          ≡ none
        ↔ (ps ≡ []) × (e ≡ eof)
  first_message p m [] e c h =
      rw (recv-error unmarshal ctx_err loads 1 e c) (expect_eof_iff [] e refl)
  first_message p m (q ∷ ps) e c h =
      (λ x. absurd (second_message 1 q c h x), λ (x, _). absurd (ground arith))

  one_message_lem :
      (ps : List Bytes) (e : StreamError) (c : Option ReceiveControl)
      → Feeds c
      → (recv_msg unmarshal false
            (seen ctx_err loads 0
              (get_elem? (map message_response ps ++ (error_response e ∷ [])) 0))
            (seen ctx_err loads 1
              (get_elem? (map message_response ps ++ (error_response e ∷ [])) 1))
            c).err
          ≡ none
        ↔ (p : Bytes) × (m : M) × (ps ≡ p ∷ []) × (unmarshal p ≡ some m) × (e ≡ eof)
  one_message_lem [] e c h =
      let fails =
        recv_msg-first_fails (seen ctx_err loads 0 (some (error_response e)))
          (seen ctx_err loads 1 none) c e
          (ap (λ r. r.err) (recv-error unmarshal ctx_err loads 0 e c)) in
      (λ x. absurd (ground (arith, fails)), λ (p, m, x, _, _). absurd (ground arith))
  one_message_lem (p ∷ ps) e c h =
      let later = map message_response ps ++ (error_response e ∷ []) in
      let one = seen ctx_err loads 0 (some (message_response p)) in
      let two = seen ctx_err loads 1 (get_elem? later 0) in
      elim (Option-cases (unmarshal p)) [
        | inl n ↦
            (let fails =
                recv_msg-first_fails one two c decode_fail
                  (recv-undecoded unmarshal ctx_err loads 0 p c h n) in
              (
                λ x. absurd (ground (arith, fails)),
                λ (q, m, x, u, _). absurd (ground (arith, fails)),
              ))
        | inr (m, u) ↦
            (let (no_err, _, feeds) = recv-message unmarshal ctx_err loads 0 p m c h u in
              let second = recv_msg-second one two c no_err in
              let (to, from) = first_message p m ps e ((recv unmarshal one c).r_control) feeds in
              (
                λ x.
                    (let (empty, ends) = to (sym second ∙ x) in
                      (p, m, ap (λ l. p ∷ l) empty, u, ends)),
                λ (q, _, x, _, ends). second ∙ from (ground arith, ends),
              ))
      ]

  -- What a call of RecvMsg returns where the server does not stream: no error exactly if one message
  -- arrives, it unmarshals, and a Close frame without an error follows. Otherwise there is an error:
  -- for a second message, for a stream that ends without one, or with another error than io.EOF. It
  -- holds if the feedback function returns no error.
  pub one_message_iff :
      (pb : StreamProtocol) (rs : List Arrival) (ps : List Bytes) (e : StreamError)
      (c : Option ReceiveControl)
      → IsDistinct pb
      → Carries pb rs ps e
      → Feeds c
      → (recv_msg unmarshal false
            (seen ctx_err loads 0 (get_elem? (responses pb rs) 0))
            (seen ctx_err loads 1 (get_elem? (responses pb rs) 1))
            c).err
          ≡ none
        ↔ (p : Bytes) × (m : M) × (ps ≡ p ∷ []) × (unmarshal p ≡ some m) × (e ≡ eof)
  one_message_iff pb rs ps e c d carried h =
      rw (Carries-responses pb rs ps e d carried) (one_message_lem ps e c h)
