-- ===== src/Link/Frames.antt =====
-- server/sim/link_state_machine.py: `_poll_received_frames_locked`, frame by frame.
use gaggia_esp_c3_mini_serve.Prelude.{
  ℕ, ◌+◌, ◌%◌, Bool, true, false, not, ◌&&◌, ◌||◌, Option, none, some, List, [], ◌∷◌, ◌==◌,
  if◌then◌else◌,
}
use gaggia_esp_c3_mini_serve.Prelude.Bytes.{Bytes}
use gaggia_esp_c3_mini_serve.FrameCodec.{Frame, MessageType}
use gaggia_esp_c3_mini_serve.Python.{value_error}
use gaggia_esp_c3_mini_serve.Python.Text.{Text, text, strip, eq_text, starts_with, or_else, Unicode}
use gaggia_esp_c3_mini_serve.Python.Utf8.{decode_replace}
use gaggia_esp_c3_mini_serve.Link.State.{
  Link, LinkState, in_keepalive, is_connect, set_state, clear_runtime_flow, clear_connection_fault,
  record_total_error,
}
use gaggia_esp_c3_mini_serve.SerialLink.Metadata.{payload_text}
use gaggia_esp_c3_mini_serve.Link.Telemetry.{
  Ingested, ingested, threw, ingest_telemetry, Direction, request, response, classify_keepalive,
  describe_raises, handle_bridge_error,
}
use gaggia_esp_c3_mini_serve.Link.Interfaces.{Transport, DataManager}
use gaggia_esp_c3_mini_serve.Link.World.{World, Ends, done, ◌▸◌, on_link}
use gaggia_esp_c3_mini_serve.Link.Client.{on_payload, handle_client_data_command}

abbrev follows : Option ℕ → ℕ → Bool
follows none sequence = true
follows (some last) sequence = sequence == (last + 1) % 65536

-- The check of the peer's sequence number, and the number remembered.
unfoldable pub track_sequence : ℕ → Link → Link
track_sequence sequence l =
    let remembered = record l { last_peer_sequence = some sequence } in
    if in_keepalive l.current_state && not (follows l.last_peer_sequence sequence)
    then record remembered {
      bottom_layer_sequence_error_count = l.bottom_layer_sequence_error_count + 1;
    }
    else remembered

-- An ERROR frame.
unfoldable pub handle_error_frame : Text → Link → Link
unfolding record_total_error handle_bridge_error
handle_error_frame payload l =
    let counted = record_total_error l in
    if eq_text payload (text "keepalive_retry_exhausted")
    then set_state LinkState.initialize [] (record counted {
      watchdog_armed = false;
      running_integer_seeded = false;
      last_running_integer_rx_at = none;
      wifi_connected = false;
      tcp_connected = false;
    })
    else handle_bridge_error payload counted

abbrev or_now : Option ℕ → ℕ → Option ℕ
or_now none now = some now
or_now (some at) now = some at

-- The tests of the two live integers: the host's is even, the device's odd, and the device's is
-- the one before.
unfoldable pub counters_match : Frame → Bool
counters_match frame =
    frame.host_live_integer % 2 == 0
    && (frame.device_live_integer % 2 == 1
        && frame.device_live_integer + 1 == frame.host_live_integer)

-- What a valid keepalive of either direction does.
keepalive_seen : ℕ → ℕ → ℕ → Link → Link
unfolding clear_connection_fault
keepalive_seen now server client l = record (clear_connection_fault l) {
  running_integer_seeded = true;
  server_live_integer = server;
  client_live_integer = client;
  last_running_integer_rx_at = some now;
  watchdog_armed = true;
  wifi_connected = true;
  tcp_connected = true;
  bridge_ready = true;
  initialize_completed = true;
  connect_completed = true;
  bottom_layer_retry_count = 0;
}

unfoldable pub handle_request : ℕ → Frame → Link → Link
unfolding counters_match keepalive_seen
handle_request now frame l =
    if counters_match frame
    then set_state LinkState.keepalive_client_return []
        (record (keepalive_seen now frame.host_live_integer (frame.host_live_integer + 1) l) {
          keepalive_req_count = l.keepalive_req_count + 1;
          session_started_at = or_now l.session_started_at now;
          pending_auto_stage = none;
        })
    else l

unfoldable pub handle_response : ℕ → Frame → Link → Link
unfolding counters_match keepalive_seen
handle_response now frame l =
    if counters_match frame
    then set_state LinkState.keepalive_server_send []
        (record (keepalive_seen now frame.host_live_integer frame.device_live_integer l) {
          keepalive_resp_count = l.keepalive_resp_count + 1;
        })
    else l

client_connected : Link → Link
client_connected l = record l {
  pending_auto_stage = none;
  connect_completed = true;
  watchdog_armed = false;
  wifi_connected = true;
  tcp_connected = true;
  bridge_ready = true;
}

reset_acknowledged : Link → Link
unfolding clear_runtime_flow
reset_acknowledged l = set_state LinkState.reset [] (record (clear_runtime_flow l) {
  wifi_ready = false;
  wifi_connected = false;
  tcp_connected = false;
  bridge_ready = true;
})

initialize_acknowledged : Link → Link
initialize_acknowledged l = set_state LinkState.initialize [] (record l {
  wifi_ready = true;
  wifi_connected = false;
  tcp_connected = false;
  bridge_ready = true;
  initialize_completed = true;
})

-- The texts by which the bridge acknowledges commands and reports the TCP session.
unfoldable pub handle_acknowledgement : Text → Link → Link
unfolding client_connected reset_acknowledged initialize_acknowledged
handle_acknowledgement payload l =
    if eq_text payload (text "connect_ack")
    then set_state LinkState.connect []
        (record l { wifi_connected = true; tcp_connected = false; bridge_ready = true })
    else if eq_text payload (text "tcp_connected")
    then set_state LinkState.connect []
        (record l { wifi_connected = true; tcp_connected = true; bridge_ready = true })
    else if starts_with payload (text "client_connected")
    then set_state LinkState.connect [] (client_connected l)
    else if eq_text payload (text "disconnect_ack")
    then set_state LinkState.disconnect []
        (record l { tcp_connected = false; watchdog_armed = false })
    else if eq_text payload (text "reset_ack")
    then reset_acknowledged l
    else if eq_text payload (text "initialize_ack")
    then initialize_acknowledged l
    else if is_connect l.current_state
        && (eq_text payload (text "client_connected")
            || (eq_text payload (text "connect_success") || eq_text payload (text "tcp_connected")))
    then client_connected l
    else l

unfoldable pub keepalive_by : Direction → ℕ → Frame → Text → Link → Link
unfolding handle_request handle_response handle_acknowledgement
keepalive_by request now frame payload l = handle_request now frame l
keepalive_by response now frame payload l = handle_response now frame l
keepalive_by _ now frame payload l = handle_acknowledgement payload l

unfoldable pub is_uplink : Bytes → Bool
is_uplink [] = false
is_uplink (b ∷ bytes) = b == 0xD1

module _ {t : Transport} {d : DataManager} where
  -- A DATA frame: a binary uplink packet, or a text.
  unfoldable pub handle_data : Unicode → Frame → World t d → Ends (World t d)
  unfolding is_uplink handle_client_data_command
  handle_data u frame w =
      let counted =
        on_link (λ l. record l { data_frames_rx_count = l.data_frames_rx_count + 1 }) w in
      let received = strip (decode_replace frame.payload) in
      if is_uplink frame.payload
      then done (on_payload (d.receive_uplink frame.payload) counted)
      else handle_client_data_command u received (
          on_link
            (λ l. record l {
              last_received_client_text = or_else received (text "Empty client payload");
            })
            counted)

  unfoldable pub dispatch : Unicode → ℕ → Frame → MessageType → Text → World t d → Ends (World t d)
  unfolding handle_error_frame keepalive_by handle_acknowledgement handle_data
  dispatch u now frame MessageType.error payload w = done (on_link (handle_error_frame payload) w)
  dispatch u now frame MessageType.keepalive payload w =
      done (on_link (keepalive_by (classify_keepalive payload) now frame payload) w)
  dispatch u now frame MessageType.payload_data payload w = handle_data u frame w
  dispatch u now frame _ payload w = done (on_link (handle_acknowledgement payload) w)

  unfoldable pub after_ingest : Unicode → ℕ → Frame → Text → Ingested → World t d → Ends (World t d)
  unfolding track_sequence dispatch
  after_ingest u now frame payload (threw e) w = (some e, w)
  after_ingest u now frame payload (ingested l) w =
      let w' = record w { link = l } in
      if describe_raises u frame.message_type payload
      then (some value_error, w')
      else dispatch u now frame frame.message_type payload
          (on_link (track_sequence frame.sequence) w')

  -- One round of the loop over the received frames.
  unfoldable pub handle_frame : Unicode → ℕ → Frame → World t d → Ends (World t d)
  unfolding after_ingest
  handle_frame u now frame w =
      let payload = payload_text u frame in
      after_ingest u now frame payload (ingest_telemetry u payload w.link) w

  -- A raise leaves the loop: the frames behind it are not handled, and no longer queued.
  unfoldable pub handle_frames : Unicode → ℕ → List Frame → World t d → Ends (World t d)
  unfolding handle_frame
  handle_frames u now [] w = done w
  handle_frames u now (frame ∷ frames) w = handle_frame u now frame w ▸ handle_frames u now frames

  -- `_poll_received_frames_locked`
  unfoldable pub poll_received_frames : Unicode → ℕ → World t d → Ends (World t d)
  unfolding handle_frames
  poll_received_frames u now w =
      let (frames, serial) = t.pop_received_frames w.serial in
      handle_frames u now frames (record w { serial = serial })
