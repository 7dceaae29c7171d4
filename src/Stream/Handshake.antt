-- ===== src/Stream/Handshake.antt =====
-- stream/config.go, and the flow control that stream/client.go and stream/server.go set up with the
-- two Init frames of a stream.
use trpc_go.Common.{
  ℕ, ◌-◌, ◌^◌, ◌<◌, ◌≤◌, ◌≡◌, refl, Bool, true, false, Option, none, some, leb, ◌==◌, if◌then◌else◌,
  arith,
}
use trpc_go.FlowControl.Receive.{ReceiveControl}
use trpc_go.FlowControl.Send.{SendControl, new_send_control}

abbrev pub default_init_window_size : ℕ
default_init_window_size = 65535

abbrev pub max_init_window_size : ℕ
max_init_window_size = 2 ^ 32 - 1

-- getWindowSize
unfoldable pub get_window_size : ℕ → ℕ
get_window_size s =
    if leb s default_init_window_size
    then default_init_window_size
    else if leb max_init_window_size s
    then max_init_window_size
    else s

-- newReceiveControl
unfoldable pub new_receive_control : ℕ → (ℕ → Bool) → ReceiveControl
new_receive_control buffer fb = record { buffer = buffer; un_updated = 0; fb = some fb }

-- The two controls of an end of a stream, of which each may be nil.
pub record Controls : Type 0 where
  pub r_control : Option ReceiveControl
  pub s_control : Option SendControl

abbrev pub no_controls : Controls
no_controls = record { r_control = none; s_control = none }

-- invoke: the window of the client's Init frame.
unfoldable pub client_window : Bool → ℕ → ℕ
client_window disabled max_window_size = if disabled then 0 else get_window_size max_window_size

-- invoke: the control of the receiver, if the options have none.
unfoldable pub config_receive_control : ℕ → (ℕ → Bool) → Controls → Controls
config_receive_control w feedback c = elim (c.r_control) [
  | none ↦ record { r_control = some (new_receive_control w feedback); s_control = c.s_control }
  | some r ↦ c
]

-- configSendControl
unfoldable pub config_send_control : ℕ → Controls → Controls
config_send_control init_window_size c =
    if init_window_size == 0 then no_controls else elim (c.s_control) [
      | none ↦ record {
        r_control = c.r_control;
        s_control = some (new_send_control init_window_size);
      }
      | some s ↦ c
    ]

-- setSendControl, for the window of the client's Init frame.
unfoldable pub set_send_control : ℕ → Controls → Controls
set_send_control w c =
    if w == 0
    then no_controls
    else record { r_control = c.r_control; s_control = some (new_send_control w) }

-- handleInit: the controls of the server, and the window of its own Init frame.
unfoldable pub accept_init : ℕ → (ℕ → Bool) → ℕ → Controls × ℕ
accept_init max_window_size feedback cw =
    let w = get_window_size max_window_size in
    let controls : Controls = record {
      r_control = some (new_receive_control w feedback);
      s_control = none;
    } in
    (set_send_control cw controls, if cw == 0 then 0 else w)

-- The controls of the two ends, client first, behind the two Init frames, for a client whose options
-- have none: with DisabledFlowControl, the MaxWindowSize of each end and its feedback function.
unfoldable pub handshake : Bool → ℕ → (ℕ → Bool) → ℕ → (ℕ → Bool) → Controls × Controls
handshake disabled client_max client_fb server_max server_fb =
    let w = client_window disabled client_max in
    let (server, reply) = accept_init server_max server_fb w in
    (config_send_control reply (config_receive_control w client_fb no_controls), server)

-- The controls of an end that sends with this window and receives with this buffer.
abbrev pub controls : ℕ → ℕ → (ℕ → Bool) → Controls
controls window buffer fb = record {
  r_control = some (record { buffer = buffer; un_updated = 0; fb = some fb });
  s_control = some (new_send_control window);
}

pub get_window_size-bounds : (s : ℕ) → (65535 ≤ get_window_size s) × (get_window_size s < 2 ^ 32)
unfolding get_window_size
get_window_size-bounds s = ground arith

fitting :
    (disabled : Bool) (client_max server_max : ℕ) (client_fb server_fb : ℕ → Bool)
    → handshake disabled client_max client_fb server_max server_fb ≡ (
        if disabled then (no_controls, no_controls) else (
          controls (get_window_size server_max) (get_window_size client_max) client_fb,
          controls (get_window_size client_max) (get_window_size server_max) server_fb,
        ))
unfolding handshake client_window accept_init set_send_control config_send_control
    config_receive_control new_receive_control
fitting true client_max server_max client_fb server_fb = refl
fitting false client_max server_max client_fb server_fb =
    let (c, _) = get_window_size-bounds client_max in
    let (s, _) = get_window_size-bounds server_max in
    let client_sets : (get_window_size client_max == 0) ≡ false = ground arith in
    let server_sets : (get_window_size server_max == 0) ≡ false = ground arith in
    rw (client_sets, server_sets) refl

-- The two Init frames leave the ends with flow control that fits: if the client disables it, neither
-- end has any; otherwise each end sends with a window that is the buffer of the other end's
-- receiver, which is at least 65535 and below 2^32 whatever the options say.
pub windows_agree :
    (disabled : Bool) (client_max server_max : ℕ) (client_fb server_fb : ℕ → Bool)
    → (handshake disabled client_max client_fb server_max server_fb ≡ (
        if disabled then (no_controls, no_controls) else (
          controls (get_window_size server_max) (get_window_size client_max) client_fb,
          controls (get_window_size client_max) (get_window_size server_max) server_fb,
        )))
      × (65535 ≤ get_window_size client_max)
      × (get_window_size client_max < 2 ^ 32)
      × (65535 ≤ get_window_size server_max)
      × (get_window_size server_max < 2 ^ 32)
windows_agree disabled client_max server_max client_fb server_fb =
    let (c, c') = get_window_size-bounds client_max in
    let (s, s') = get_window_size-bounds server_max in
    (fitting disabled client_max server_max client_fb server_fb, c, c', s, s')
