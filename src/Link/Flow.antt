-- ===== src/Link/Flow.antt =====
-- server/sim/link_state_machine.py: the automatic flow from RESET to CONNECT, driven by the UI's
-- polls of `get_snapshot`, on a transport that works and receives nothing.
pub mod Setup
pub mod Stall
pub mod Quiet
use gaggia_esp_c3_mini_serve.Prelude.{
  ℕ, ◌+◌, ◌<◌, ◌≡◌, refl, length, sym, ap, ◌∙◌, not, ◌&&◌, Bool, true, false, Option, none, some,
  List, [], ◌∷◌, ◌++◌, Bool-cases, inl, inr, if◌then◌else◌, arith,
}
use gaggia_esp_c3_mini_serve.FrameCodec.{Frame, MessageType}
use gaggia_esp_c3_mini_serve.FrameCodec.RoundTrip.{IsFrame}
use gaggia_esp_c3_mini_serve.Python.{Raised}
use gaggia_esp_c3_mini_serve.Python.Text.{Text, text, Unicode}
use gaggia_esp_c3_mini_serve.Python.Utf8.{encode}
use gaggia_esp_c3_mini_serve.Link.State.{
  Link, LinkState, in_keepalive, next_sequence, validate_config, build_initialize_payload,
}
use gaggia_esp_c3_mini_serve.Link.Interfaces.{Transport, DataManager}
use gaggia_esp_c3_mini_serve.Link.World.{
  World, Ends, done, ◌▸◌, on_link, counts_data, after_send, send_bytes, send_command, after_try,
  try_send, enter_initialize, await_connect, begin_connect, start_initialize, begin_initialize,
  advance_from, advance_automatic_flow,
}
use gaggia_esp_c3_mini_serve.Link.Frames.{handle_frames, poll_received_frames}
use gaggia_esp_c3_mini_serve.Link.Snapshot.{
  enforce_timeout, schedule_shot_done, shot_done_now, drop_shot_done, check_port_alive,
  expects_port, send_shot_done, snapshot, get_snapshot,
}
use gaggia_esp_c3_mini_serve.Link.Calls.{Clock}
use gaggia_esp_c3_mini_serve.Link.Commands.{on_serial, reset_link, reset}

-- States of a transport in which the port is open, nothing is received and the send of every frame
-- that fits a packet succeeds, and which polls, sends and clearing the buffers do not leave.
pub record Working (t : Transport) (P : t.State → Type 0) : Type 0 where
  pub is_open : (s : t.State) → P s → t.port_open s ≡ true
  pub nothing : (s : t.State) → P s → (t.pop_received_frames s).0 ≡ []
  pub after_pop : (s : t.State) → P s → P (t.pop_received_frames s).1
  pub sends : (f : Frame) (s : t.State) → IsFrame f → P s → (t.send_frame f s).0 ≡ none
  pub after_sending : (f : Frame) (s : t.State) → IsFrame f → P s → P (t.send_frame f s).1
  pub after_clear : (s : t.State) → P s → P (t.clear_buffers s)

-- What a call leaves that ends without an exception: the stage, and the fields that the next
-- stages read.
pub record Reaches {t : Transport} {d : DataManager} (P : t.State → Type 0) (state : LinkState)
    (stage : Option LinkState) (l : Link) (r : Ends (World t d)) : Type 0 where
  pub no_exception : r.0 ≡ none
  pub in_state : r.1.link.current_state ≡ state
  pub pending : r.1.link.pending_auto_stage ≡ stage
  pub same_config : r.1.link.config ≡ l.config
  pub same_wifi : (r.1.link.wifi_enabled ≡ l.wifi_enabled) × (r.1.link.wifi_ready ≡ l.wifi_ready)
  pub same_integers :
      (r.1.link.server_live_integer ≡ l.server_live_integer)
      × (r.1.link.client_live_integer ≡ l.client_live_integer)
  pub same_setup : r.1.link.initialize_completed ≡ l.initialize_completed
  pub works : P r.1.serial

enforce_timeout-outside :
    (now : ℕ) (l : Link) → in_keepalive l.current_state ≡ false → enforce_timeout now l ≡ l
unfolding enforce_timeout
enforce_timeout-outside now l e = ground arith

-- A frame with the live integers of the link and that payload fits a packet.
pub record Fits (l : Link) (payload : Text) : Type 0 where
  pub server_fits : l.server_live_integer < 4294967296
  pub client_fits : l.client_live_integer < 4294967296
  pub payload_fits : length (encode payload) < 65536

next_sequence-IsFrame :
    (type : MessageType) (payload : Text) (l : Link)
    → Fits l payload
    → IsFrame (record {
      message_type = type;
      host_live_integer = (next_sequence l).server_live_integer;
      device_live_integer = (next_sequence l).client_live_integer;
      sequence = (next_sequence l).sequence;
      payload = encode payload;
    })
unfolding next_sequence
next_sequence-IsFrame type payload l h = record {
  payload_fits = h.payload_fits;
  host_fits = h.server_fits;
  device_fits = h.client_fits;
  sequence_fits = omega arith;
}

reset_link-Fits : (l : Link) → Fits (reset_link l) (text "reset")
unfolding reset_link text encode
reset_link-Fits l = record {
  server_fits = omega arith;
  client_fits = omega arith;
  payload_fits = omega arith;
}

enter_initialize-Fits :
    (payload : Text) (l : Link) → Fits l payload → Fits (enter_initialize l) payload
unfolding enter_initialize
enter_initialize-Fits payload l h = record {
  server_fits = h.server_fits;
  client_fits = h.client_fits;
  payload_fits = h.payload_fits;
}

pub some-ne-none : {e : Raised} → ¬ (some e ≡ none)
some-ne-none p = cc

module _ {t : Transport} {d : DataManager} {P : t.State → Type 0} (h : Working t P) where
  -- Nothing received, a poll only takes the empty queue.
  poll-nothing :
      (u : Unicode) (now : ℕ) (w : World t d)
      → P w.serial
      → poll_received_frames u now w
        ≡ done (record w { serial = (t.pop_received_frames w.serial).1 })
  unfolding poll_received_frames handle_frames
  poll-nothing u now w p = rw (h.nothing w.serial p, handle_frames)

  -- Outside the keepalive exchange, making a snapshot sends nothing and keeps the stage.
  snapshot-Reaches :
      (mono : ℕ) (w : World t d)
      → P w.serial
      → in_keepalive w.link.current_state ≡ false
      → Reaches P w.link.current_state w.link.pending_auto_stage w.link (snapshot mono w)
  unfolding snapshot send_shot_done schedule_shot_done shot_done_now drop_shot_done
  snapshot-Reaches mono w p e = ground arith

  check_port_alive-open : (w : World t d) → P w.serial → check_port_alive w ≡ w
  unfolding check_port_alive
  check_port_alive-open w p = rw (h.is_open w.serial p) (ground arith)

  -- Outside the keepalive exchange a poll of the UI is one step of the automatic flow and a
  -- snapshot.
  pub get_snapshot-step :
      (u : Unicode) (now mono : ℕ) (w : World t d)
      → P w.serial
      → in_keepalive w.link.current_state ≡ false
      → get_snapshot u now mono w ≡ (
          advance_automatic_flow (record w { serial = (t.pop_received_frames w.serial).1 })
          ▸ snapshot mono)
  unfolding get_snapshot
  get_snapshot-step u now mono w p e =
      let w1 : World t d = record w { serial = (t.pop_received_frames w.serial).1 } in
      rw (poll-nothing u now w p) (
        rw (check_port_alive-open w1 (h.after_pop w.serial p))
          (rw (enforce_timeout-outside now w1.link e) refl))

  pub then_snapshot :
      (mono : ℕ) (state : LinkState) (stage : Option LinkState) (l : Link) (r : Ends (World t d))
      → in_keepalive state ≡ false
      → Reaches P state stage l r
      → Reaches P state stage l (r ▸ snapshot mono)
  then_snapshot mono state stage l (some e, w) k r = absurd (some-ne-none r.no_exception)
  then_snapshot mono state stage l (none, w) k r =
      ground (arith, snapshot-Reaches mono w r.works (ap in_keepalive r.in_state ∙ k))

  counted-Reaches :
      (type : MessageType) (w : World t d) (s : t.State)
      → P s
      → Reaches P w.link.current_state w.link.pending_auto_stage w.link
          (done (record w { link = counts_data type w.link; serial = s }))
  counted-Reaches MessageType.payload_data w s p = ground arith
  counted-Reaches _ w s p = ground arith

  after_sent-Reaches :
      (type : MessageType) (prefix : Text) (next : World t d → Ends (World t d)) (w : World t d)
      (state : LinkState) (stage : Option LinkState) (l : Link) (r : Option Raised × t.State)
      → r.0 ≡ none
      → P r.1
      → ((w' : World t d)
          → Reaches P w.link.current_state w.link.pending_auto_stage w.link (done w')
          → Reaches P state stage l (next w'))
      → Reaches P state stage l (after_try prefix next (after_send type w r))
  after_sent-Reaches type prefix next w state stage l (none, s) e p k =
      k (record w { link = counts_data type w.link; serial = s }) (counted-Reaches type w s p)
  after_sent-Reaches type prefix next w state stage l (some x, s) e p k = absurd (some-ne-none e)

  next_sequence-Reaches :
      (l : Link) (w : World t d)
      → Reaches P
          (next_sequence l).current_state
          (next_sequence l).pending_auto_stage
          (next_sequence l)
          (done w)
      → Reaches P l.current_state l.pending_auto_stage l (done w)
  unfolding next_sequence
  next_sequence-Reaches l w r = ground arith

  -- On a working transport a command is sent, and what follows it starts from the same stage.
  try_send-Reaches :
      (type : MessageType) (payload prefix : Text) (next : World t d → Ends (World t d))
      (w : World t d) (state : LinkState) (stage : Option LinkState) (l : Link)
      → Fits w.link payload
      → P w.serial
      → ((w' : World t d)
          → Reaches P w.link.current_state w.link.pending_auto_stage w.link (done w')
          → Reaches P state stage l (next w'))
      → Reaches P state stage l (try_send type payload prefix next w)
  unfolding try_send send_command send_bytes
  try_send-Reaches type payload prefix next w state stage l f p k =
      let frame : Frame = record {
        message_type = type;
        host_live_integer = (next_sequence w.link).server_live_integer;
        device_live_integer = (next_sequence w.link).client_live_integer;
        sequence = (next_sequence w.link).sequence;
        payload = encode payload;
      } in
      after_sent-Reaches type prefix next (on_link next_sequence w) state stage l
        (t.send_frame frame w.serial)
        (h.sends frame w.serial (next_sequence-IsFrame type payload w.link f) p)
        (h.after_sending frame w.serial (next_sequence-IsFrame type payload w.link f) p)
        (λ w' r. k w' (next_sequence-Reaches w.link w' r))

  -- A reset leaves the link in RESET with the initialize stage pending.
  pub reset-Reaches :
      (w : World t d)
      → P w.serial
      → Reaches P LinkState.reset (some LinkState.initialize) (reset_link w.link) (reset w)
  unfolding reset
  reset-Reaches w p =
      try_send-Reaches MessageType.reset (text "reset") (text "reset transmit failed")
        (λ w. done (on_link (λ l. record l { pending_auto_stage = some LinkState.initialize }) w))
        (on_link reset_link (on_serial t.clear_buffers w)) LinkState.reset
        (some LinkState.initialize) (reset_link w.link) (reset_link-Fits w.link)
        (h.after_clear w.serial p) (λ w' r. noted w.link w' r)
    where
      noted :
          (l : Link) (w' : World t d)
          → Reaches P
              (reset_link l).current_state
              (reset_link l).pending_auto_stage
              (reset_link l)
              (done w')
          → Reaches P LinkState.reset
              (some LinkState.initialize)
              (reset_link l)
              (done (on_link (λ l. record l { pending_auto_stage = some LinkState.initialize }) w'))
      noted l w' r = unfold reset_link in ground arith

  -- The initialize stage leaves the link in INITIALIZE with the connect stage pending.
  pub begin_initialize-Reaches :
      (w : World t d)
      → Fits w.link (build_initialize_payload w.link.config)
      → P w.serial
      → validate_config w.link ≡ none
      → Reaches P LinkState.initialize
          (some LinkState.connect)
          (enter_initialize w.link)
          (begin_initialize w)
  unfolding begin_initialize start_initialize await_connect
  begin_initialize-Reaches w f p v =
      rw (v, begin_initialize)
        (rw (h.is_open w.serial p) (
          try_send-Reaches MessageType.initialize (build_initialize_payload w.link.config)
            (text "initialize transmit failed") (λ w. done (on_link await_connect w))
            (on_link enter_initialize w) LinkState.initialize (some LinkState.connect)
            (enter_initialize w.link)
            (enter_initialize-Fits (build_initialize_payload w.link.config) w.link f) p
            (λ w' r. noted w.link w' r)))
    where
      noted :
          (l : Link) (w' : World t d)
          → Reaches P
              (enter_initialize l).current_state
              (enter_initialize l).pending_auto_stage
              (enter_initialize l)
              (done w')
          → Reaches P LinkState.initialize
              (some LinkState.connect)
              (enter_initialize l)
              (done (on_link await_connect w'))
      noted l w' r = unfold enter_initialize await_connect in ground arith
