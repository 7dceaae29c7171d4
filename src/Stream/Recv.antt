-- ===== src/Stream/Recv.antt =====
-- stream/client.go: what recv returns for one response.
use trpc_go.Common.{
  ℕ, ◌≡◌, refl, sym, ◌∙◌, Bool, true, false, Option, none, some, length, ◌+◌, arith, ◌%◌, ◌^◌,
  Option-cases, inl, inr,
}
use trpc_go.Wire.BigEndian.{Bytes}
use trpc_go.FlowControl.Receive.{ReceiveControl, on_recv, feed_back, with_un_updated}
use trpc_go.Stream.Client.{
  StreamError, decode_fail, Response, error_response, message_response, ContextError, recv_flow_ctl,
  Seen, recv_response, recv, decode_message,
}

-- A control whose feedback function returns no error.
abbrev pub Feeds : Option ReceiveControl → Type 0
Feeds none = Unit
Feeds (some r) = (f : ℕ → Bool) → r.fb ≡ some f → (n : ℕ) → f n ≡ true

on_recv-Feeds :
    (n : ℕ) (r : ReceiveControl)
    → Feeds (some r)
    → ((on_recv n r).succeeded ≡ true) × ((on_recv n r).control.fb ≡ r.fb)
unfolding on_recv feed_back with_un_updated
on_recv-Feeds n r h = elim (Option-cases (r.fb)) [
  | inl e ↦ ground arith
  | inr (f, e) ↦ (let works = h f e ((r.un_updated + n) % 2 ^ 32) in ground (arith, works))
]

recv_flow_ctl-Feeds :
    (closed : Bool × Bool) (n : ℕ) (c : Option ReceiveControl)
    → Feeds c
    → ((recv_flow_ctl closed n c).1 ≡ none) × Feeds ((recv_flow_ctl closed n c).0)
unfolding recv_flow_ctl
recv_flow_ctl-Feeds closed n none h = (refl, tt)
recv_flow_ctl-Feeds (true, after) n (some r) h = (refl, h)
recv_flow_ctl-Feeds (false, after) n (some r) h =
    let (works, same) = on_recv-Feeds (n % 2 ^ 32) r h in rw works (refl, λ f e. h f (sym same ∙ e))

-- What the n-th call of recv sees that gets this response; `loads` has the loads of closed.
abbrev pub seen : ContextError → (ℕ → Bool × Bool) → ℕ → Option Response → Seen
seen ctx_err loads n o = record { gets = o; ctx_err = ctx_err; closed = loads n }

module _ {ℓ} {M : Type ℓ} (unmarshal : Bytes → Option M) (ctx_err : ContextError)
    (loads : ℕ → Bool × Bool) where
  -- recv of a payload
  pub recv-message :
      (n : ℕ) (p : Bytes) (m : M) (c : Option ReceiveControl)
      → Feeds c
      → unmarshal p ≡ some m
      → ((recv unmarshal (seen ctx_err loads n (some (message_response p))) c).err ≡ none)
        × ((recv unmarshal (seen ctx_err loads n (some (message_response p))) c).message ≡ some m)
        × Feeds ((recv unmarshal (seen ctx_err loads n (some (message_response p))) c).r_control)
  unfolding recv recv_response decode_message
  recv-message n p m c h e =
      let (works, feeds) = recv_flow_ctl-Feeds (loads n) (length p) c h in
      rw (recv, recv_response, works, decode_message, e) (refl, refl, feeds)

  pub recv-error :
      (n : ℕ) (e : StreamError) (c : Option ReceiveControl)
      → recv unmarshal (seen ctx_err loads n (some (error_response e))) c
        ≡ record { r_control = c; err = some e; message = none }
  unfolding recv recv_response
  recv-error n e c = refl

  pub recv-undecoded :
      (n : ℕ) (p : Bytes) (c : Option ReceiveControl)
      → Feeds c
      → unmarshal p ≡ none
      → (recv unmarshal (seen ctx_err loads n (some (message_response p))) c).err ≡ some decode_fail
  unfolding recv recv_response decode_message
  recv-undecoded n p c h e =
      let (works, feeds) = recv_flow_ctl-Feeds (loads n) (length p) c h in
      rw (recv, recv_response, works, decode_message, e) refl
