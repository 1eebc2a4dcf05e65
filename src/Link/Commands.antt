-- ===== src/Link/Commands.antt =====
-- server/sim/link_state_machine.py: the calls that the API makes of `LinkRuntime`. Each ends with
-- making a snapshot.
use gaggia_esp_c3_mini_serve.Prelude.{
  ℕ, ◌+◌, Bool, true, false, not, ◌&&◌, Option, none, some, [], ◌++◌, ◌==◌, if◌then◌else◌,
}
use gaggia_esp_c3_mini_serve.Prelude.Bytes.{Bytes}
use gaggia_esp_c3_mini_serve.FrameCodec.{MessageType}
use gaggia_esp_c3_mini_serve.Python.{Raised}
use gaggia_esp_c3_mini_serve.Python.Text.{Text, text, strip, eq_text, or_else, Unicode}
use gaggia_esp_c3_mini_serve.Link.State.{
  Link, LinkState, TransportConfig, in_keepalive, is_error, set_state, clear_runtime_flow,
  clear_connection_fault, set_runtime_fault, next_sequence,
}
use gaggia_esp_c3_mini_serve.Link.Interfaces.{Transport, DataManager}
use gaggia_esp_c3_mini_serve.Link.World.{
  World, Ends, done, ◌▸◌, on_link, try_send, begin_initialize,
}
use gaggia_esp_c3_mini_serve.Link.Client.{on_payload, send_logged}
use gaggia_esp_c3_mini_serve.Link.Frames.{poll_received_frames}
use gaggia_esp_c3_mini_serve.Link.Opening.{Opened, open_with_retry}

abbrev or_keep {ℓ} : {A : Type ℓ} → Option A → A → A
or_keep none old = old
or_keep (some new) old = new

-- The arguments of `configure_transport`.
pub record ConfigRequest : Type 0 where
  pub serial_port : Option Text
  pub wifi_ssid : Option Text
  pub wifi_password : Option Text
  pub server_ip : Option Text
  pub server_port : Option ℕ
  pub wifi_connect_timeout_ms : Option ℕ
  pub tcp_connect_timeout_ms : Option ℕ
  pub keepalive_period_ms : Option ℕ

abbrev map_strip : Option Text → Option Text
map_strip none = none
map_strip (some s) = some (strip s)

abbrev new_port : Option Text → Text → Text
new_port none old = old
new_port (some name) old = or_else (strip name) old

unfoldable pub updated_config : ConfigRequest → TransportConfig → TransportConfig
updated_config r c = record {
  serial_port = new_port r.serial_port c.serial_port;
  wifi_ssid = or_keep (map_strip r.wifi_ssid) c.wifi_ssid;
  wifi_password = or_keep r.wifi_password c.wifi_password;
  server_ip = or_keep (map_strip r.server_ip) c.server_ip;
  server_port = or_keep r.server_port c.server_port;
  wifi_connect_timeout_ms = or_keep r.wifi_connect_timeout_ms c.wifi_connect_timeout_ms;
  tcp_connect_timeout_ms = or_keep r.tcp_connect_timeout_ms c.tcp_connect_timeout_ms;
  keepalive_period_ms = or_keep r.keepalive_period_ms c.keepalive_period_ms;
}

-- The fields that `reset` clears.
unfoldable pub reset_link : Link → Link
unfolding clear_runtime_flow clear_connection_fault
reset_link l =
    set_state LinkState.reset [] (record (clear_connection_fault (clear_runtime_flow l)) {
      server_live_integer = 0;
      client_live_integer = 0;
      wifi_ready = false;
      wifi_connected = false;
      tcp_connected = false;
      bridge_ready = false;
      bottom_layer_retry_count = 0;
      session_started_at = none;
      keepalive_req_count = 0;
      keepalive_resp_count = 0;
      data_frames_rx_count = 0;
      data_frames_tx_count = 0;
      transport_min_delay_ms = 0;
      ka_timing_valid = false;
      watchdog_timeout_count = 0;
    })

-- The fields that `toggle_wifi_enabled` and `force_release_transport` clear.
unfoldable pub idle_link : Bool → Link → Link
unfolding clear_runtime_flow clear_connection_fault
idle_link bridge_ready l =
    set_state LinkState.reset [] (record (clear_connection_fault (clear_runtime_flow l)) {
      bridge_ready = bridge_ready;
      wifi_ready = false;
      wifi_connected = false;
      tcp_connected = false;
      bottom_layer_retry_count = 0;
    })

unfoldable pub closed_link : Link → Link
unfolding clear_runtime_flow
closed_link l = set_state LinkState.reset [] (record (clear_runtime_flow l) {
  bridge_ready = false;
  wifi_ready = false;
  wifi_connected = false;
  tcp_connected = false;
})

unfoldable pub open_failed : Text → Text → Link → Link
unfolding set_runtime_fault
open_failed port cause l =
    set_runtime_fault
      (text "COM open failed on "
        ++ (port ++ (text ": " ++ or_else cause (text "COM port not found"))))
      (record l { bridge_ready = false })

module _ {t : Transport} {d : DataManager} where
  abbrev pub on_serial : (t.State → t.State) → World t d → World t d
  on_serial f w = record w { serial = f w.serial }

  -- A text that is sent if the port is open, and where a RuntimeError is only logged.
  unfoldable pub send_if_open : Text → World t d → Ends (World t d)
  unfolding send_logged
  send_if_open payload w = if t.port_open w.serial then send_logged payload w else done w

  unfoldable pub configure_port : Text → World t d → World t d
  configure_port name w =
      let port = or_else (strip name) (text "COM4") in
      on_serial (t.configure_port port)
        (on_link (λ l. record l { config = record l.config { serial_port = port } }) w)

  unfoldable pub configure_transport : ConfigRequest → World t d → World t d
  unfolding updated_config
  configure_transport r w =
      let w' = on_link (λ l. record l { config = updated_config r l.config }) w in
      elim r.serial_port [
        | none ↦ w'
        | some name ↦ on_serial (t.configure_port w'.link.config.serial_port) w'
      ]

  -- `reset`
  unfoldable pub reset : World t d → Ends (World t d)
  unfolding reset_link try_send
  reset w =
      try_send MessageType.reset (text "reset") (text "reset transmit failed")
        (λ w. done (on_link (λ l. record l { pending_auto_stage = some LinkState.initialize }) w))
        (on_link reset_link (on_serial t.clear_buffers w))

  unfoldable pub opened : Opened t.State → World t d → Ends (World t d)
  unfolding open_failed reset
  opened o w =
      let w' = record w { serial = o.serial } in
      if o.attempts == 0
      then done (on_link (open_failed w.link.config.serial_port o.cause) w')
      else reset (
          on_payload d.start
            (on_serial t.clear_buffers (on_link (λ l. record l { bridge_ready = true }) w')))

  -- `open_transport`, with no port name, as the API calls it. The lock is free while the port is
  -- opened; no other call comes between.
  unfoldable pub open_transport : Unicode → World t d → Ends (World t d)
  unfolding opened open_with_retry
  open_transport u w =
      if t.port_open w.serial && eq_text (t.port_name w.serial) w.link.config.serial_port
      then done w
      else opened (open_with_retry t u w.serial) w

  unfoldable pub close_transport : World t d → World t d
  unfolding closed_link
  close_transport w = on_link closed_link (on_serial t.close_port (on_payload d.stop w))

  unfoldable pub force_release_transport : World t d → World t d
  unfolding idle_link
  force_release_transport w =
      on_link (idle_link false) (on_serial (λ s. (t.force_release_port s).1) (on_payload d.stop w))

  -- `toggle_wifi_enabled`; whether the port is open is read before the send.
  unfoldable pub toggle_wifi_enabled : World t d → Ends (World t d)
  unfolding send_if_open idle_link
  toggle_wifi_enabled w =
      let toggled = on_link (λ l. record l { wifi_enabled = not l.wifi_enabled }) w in
      send_if_open (if toggled.link.wifi_enabled then text "wifi_enable" else text "wifi_disable")
        toggled
      ▸ λ w'. done (on_link (idle_link (t.port_open w.serial)) w')

  unfoldable pub after_poll_initialize : World t d → Ends (World t d)
  unfolding clear_runtime_flow begin_initialize
  after_poll_initialize w =
      if is_error w.link.current_state
      then done w
      else begin_initialize (on_link clear_runtime_flow w)

  -- `initialize`
  unfoldable pub initialize : Unicode → ℕ → World t d → Ends (World t d)
  unfolding after_poll_initialize poll_received_frames
  initialize u now w = poll_received_frames u now w ▸ after_poll_initialize

  -- `send_keepalive` only polls.
  unfoldable pub send_keepalive : Unicode → ℕ → World t d → Ends (World t d)
  unfolding poll_received_frames
  send_keepalive u now w = poll_received_frames u now w

  -- `send_data` behind its poll: sent only in a keepalive state.
  unfoldable pub send_data_now : Text → World t d → Ends (World t d)
  unfolding try_send
  send_data_now payload w =
      if in_keepalive w.link.current_state
      then try_send MessageType.payload_data payload (text "send data transmit failed")
          (λ w. done (on_link (λ l. set_state l.current_state [] l) w))
          (on_link (λ l. record l { initialize_completed = true; connect_completed = true }) w)
      else done w

  unfoldable pub send_data : Unicode → ℕ → Text → World t d → Ends (World t d)
  unfolding send_data_now poll_received_frames
  send_data u now payload w = poll_received_frames u now w ▸ send_data_now payload

  -- A packet whose send raises is dropped.
  abbrev pub after_downlink : Option Raised → World t d → World t d
  after_downlink none w =
      on_link (λ l. record l { data_frames_tx_count = l.data_frames_tx_count + 1 }) w
  after_downlink (some e) w = w

  unfoldable pub send_downlink_now : Bytes → World t d → World t d
  unfolding next_sequence
  send_downlink_now bytes w =
      let w' = on_link next_sequence w in
      let r =
        t.send_frame
          (record {
            message_type = MessageType.payload_data;
            host_live_integer = w'.link.server_live_integer;
            device_live_integer = w'.link.client_live_integer;
            sequence = w'.link.sequence;
            payload = bytes;
          })
          w'.serial in
      after_downlink r.0 (record w' { serial = r.1 })

  -- `send_downlink_data_packet`; no other call comes between its two locked parts.
  unfoldable pub send_downlink : Bytes → World t d → World t d
  unfolding send_downlink_now
  send_downlink bytes w = if in_keepalive w.link.current_state then send_downlink_now bytes w else w
