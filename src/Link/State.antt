-- ===== src/Link/State.antt =====
-- server/sim/link_state_machine.py: the state of `LinkRuntime` and the helpers that change it alone.
use gaggia_esp_c3_mini_serve.Prelude.{
  ℕ, ◌+◌, ◌%◌, Bool, true, false, not, ◌||◌, Option, none, some, ◌++◌, leb, ltb, ◌==◌,
  if◌then◌else◌,
}
use gaggia_esp_c3_mini_serve.Python.Text.{Text, text, strip, is_empty, show}
use gaggia_esp_c3_mini_serve.Python.Payload.{Signed}

pub data LinkState : Type 0 where
  reset initialize connect keepalive_server_send keepalive_client_return disconnect error :
      LinkState

pub record TransportConfig : Type 0 where
  pub serial_port : Text
  pub wifi_ssid : Text
  pub wifi_password : Text
  pub server_ip : Text
  pub server_port : ℕ
  pub wifi_connect_timeout_ms : ℕ
  pub tcp_connect_timeout_ms : ℕ
  pub keepalive_period_ms : ℕ

unfoldable pub default_config : TransportConfig
default_config = record {
  serial_port = text "COM4";
  wifi_ssid = text "EyalSimulatorAP";
  wifi_password = text "espresso1234";
  server_ip = text "192.168.4.1";
  server_port = 3333;
  wifi_connect_timeout_ms = 10000;
  tcp_connect_timeout_ms = 3000;
  keepalive_period_ms = 100;
}

abbrev pub bottom_layer_retry_limit : ℕ
bottom_layer_retry_limit = 3

abbrev pub top_layer_failure_limit : ℕ
top_layer_failure_limit = 3

abbrev pub running_integer_timeout_ms : ℕ
running_integer_timeout_ms = 400

-- Times are milliseconds of the clock that the code reads.
pub record Link : Type 0 where
  pub current_state : LinkState
  pub config : TransportConfig
  pub server_live_integer : ℕ
  pub client_live_integer : ℕ
  pub connection_fault : Bool
  pub consecutive_keepalive_failures : ℕ
  pub bottom_layer_retry_count : ℕ
  pub top_layer_failure_count : ℕ
  pub top_layer_connect_streak : ℕ
  pub bottom_layer_checksum_error_count : ℕ
  pub bottom_layer_sequence_error_count : ℕ
  pub last_peer_sequence : Option ℕ
  pub sequence : ℕ
  pub transport_last_delay_ms : Signed
  pub transport_max_delay_ms : ℕ
  pub total_error_count : ℕ
  pub firmware_error_telemetry_seen : Bool
  pub firmware_delay_telemetry_missing_warned : Bool
  pub watchdog_armed : Bool
  pub running_integer_seeded : Bool
  pub last_running_integer_rx_at : Option ℕ
  pub pending_auto_stage : Option LinkState
  pub last_error : Text
  pub wifi_enabled : Bool
  pub wifi_ready : Bool
  pub wifi_connected : Bool
  pub tcp_connected : Bool
  pub bridge_ready : Bool
  pub initialize_completed : Bool
  pub connect_completed : Bool
  pub last_received_client_text : Text
  pub last_brew_active : Bool
  pub shot_done_pending : Bool
  pub shot_done_due : ℕ
  pub session_started_at : Option ℕ
  pub keepalive_req_count : ℕ
  pub keepalive_resp_count : ℕ
  pub data_frames_rx_count : ℕ
  pub data_frames_tx_count : ℕ
  pub transport_min_delay_ms : ℕ
  pub ka_timing_valid : Bool
  pub watchdog_timeout_count : ℕ

abbrev no_client_text : Text
no_client_text = text "No client text received yet."

-- `__init__`
unfoldable pub new : Link
new = record {
  current_state = LinkState.reset;
  config = default_config;
  server_live_integer = 0;
  client_live_integer = 0;
  connection_fault = false;
  consecutive_keepalive_failures = 0;
  bottom_layer_retry_count = 0;
  top_layer_failure_count = 0;
  top_layer_connect_streak = 0;
  bottom_layer_checksum_error_count = 0;
  bottom_layer_sequence_error_count = 0;
  last_peer_sequence = none;
  sequence = 0;
  transport_last_delay_ms = record { negative = false; size = 0 };
  transport_max_delay_ms = 0;
  total_error_count = 0;
  firmware_error_telemetry_seen = false;
  firmware_delay_telemetry_missing_warned = false;
  watchdog_armed = false;
  running_integer_seeded = false;
  last_running_integer_rx_at = none;
  pending_auto_stage = none;
  last_error = text "";
  wifi_enabled = true;
  wifi_ready = false;
  wifi_connected = false;
  tcp_connected = false;
  bridge_ready = false;
  initialize_completed = false;
  connect_completed = false;
  last_received_client_text = no_client_text;
  last_brew_active = false;
  shot_done_pending = false;
  shot_done_due = 0;
  session_started_at = none;
  keepalive_req_count = 0;
  keepalive_resp_count = 0;
  data_frames_rx_count = 0;
  data_frames_tx_count = 0;
  transport_min_delay_ms = 0;
  ka_timing_valid = false;
  watchdog_timeout_count = 0;
}

-- `_current_state in (KEEPALIVE_SERVER_SEND, KEEPALIVE_CLIENT_RETURN)`
abbrev pub in_keepalive : LinkState → Bool
in_keepalive LinkState.keepalive_server_send = true
in_keepalive LinkState.keepalive_client_return = true
in_keepalive _ = false

abbrev pub is_error : LinkState → Bool
is_error LinkState.error = true
is_error _ = false

abbrev pub is_connect : LinkState → Bool
is_connect LinkState.connect = true
is_connect _ = false

-- `_set_state(state, message, error)`
abbrev pub set_state : LinkState → Text → Link → Link
set_state state cause l = record l { current_state = state; last_error = cause }

-- `_clear_runtime_flow_locked`
unfoldable pub clear_runtime_flow : Link → Link
clear_runtime_flow l = record l {
  watchdog_armed = false;
  initialize_completed = false;
  connect_completed = false;
  pending_auto_stage = none;
  top_layer_connect_streak = 0;
  last_peer_sequence = none;
  running_integer_seeded = false;
  last_running_integer_rx_at = none;
  last_received_client_text = no_client_text;
  last_brew_active = false;
  shot_done_pending = false;
  shot_done_due = 0;
}

-- `_clear_connection_fault_locked`
unfoldable pub clear_connection_fault : Link → Link
clear_connection_fault l = record l {
  connection_fault = false;
  consecutive_keepalive_failures = 0;
  top_layer_failure_count = 0;
}

-- `_record_total_error_locked`
unfoldable pub record_total_error : Link → Link
record_total_error l =
    if l.firmware_error_telemetry_seen
    then l
    else record l { total_error_count = l.total_error_count + 1 }

-- `_set_runtime_fault_locked` without its count of the error
unfoldable pub latch_fault : Text → Link → Link
unfolding clear_runtime_flow
latch_fault message l = set_state LinkState.error message (record (clear_runtime_flow l) {
  tcp_connected = false;
  wifi_connected = false;
  connection_fault = true;
})

-- `_set_runtime_fault_locked`
unfoldable pub set_runtime_fault : Text → Link → Link
unfolding record_total_error latch_fault
set_runtime_fault message l = latch_fault message (record_total_error l)

-- `_record_top_layer_failure_locked`
unfoldable pub record_top_layer_failure : Text → Link → Link
unfolding record_total_error latch_fault clear_runtime_flow
record_top_layer_failure message l =
    let counted = record (record_total_error l) {
      top_layer_failure_count = l.top_layer_failure_count + 1;
      consecutive_keepalive_failures = l.consecutive_keepalive_failures + 1;
    } in
    if leb top_layer_failure_limit counted.top_layer_failure_count
    then latch_fault message counted
    else set_state LinkState.reset message
        (record (clear_runtime_flow counted) { tcp_connected = false; wifi_connected = false })

-- `_schedule_bottom_layer_retry_locked`
unfoldable pub schedule_bottom_layer_retry : Text → Bool → Link → Link
unfolding record_total_error record_top_layer_failure clear_runtime_flow
schedule_bottom_layer_retry message checksum_failure l =
    let counted = record (record_total_error l) {
      bottom_layer_retry_count = l.bottom_layer_retry_count + 1;
      bottom_layer_checksum_error_count =
          if checksum_failure
          then l.bottom_layer_checksum_error_count + 1
          else l.bottom_layer_checksum_error_count;
    } in
    if leb bottom_layer_retry_limit counted.bottom_layer_retry_count
    then record_top_layer_failure (text "BottomLayer retries exhausted") counted
    else set_state LinkState.connect message
        (record (clear_runtime_flow counted) { tcp_connected = false; wifi_connected = false })

-- `_next_sequence`: the number is the new field.
unfoldable pub next_sequence : Link → Link
next_sequence l = record l { sequence = (l.sequence + 1) % 65536 }

-- `_build_initialize_payload`
unfoldable pub build_initialize_payload : TransportConfig → Text
build_initialize_payload c =
    text "ssid="
    ++ (c.wifi_ssid
        ++ (text ";password="
            ++ (c.wifi_password
                ++ (text ";server_ip="
                    ++ (c.server_ip
                        ++ (text ";server_port="
                            ++ (show c.server_port
                                ++ (text ";wifi_timeout_ms="
                                    ++ (show c.wifi_connect_timeout_ms
                                        ++ (text ";tcp_timeout_ms="
                                            ++ (show c.tcp_connect_timeout_ms
                                                ++ (text ";keepalive_ms="
                                                    ++ show c.keepalive_period_ms))))))))))))

-- `_validate_config_locked`: the first fault of the configuration, if it has one.
unfoldable pub validate_config : Link → Option Text
validate_config l =
    if is_empty (strip l.config.serial_port)
    then some (text "COM port not found")
    else if not l.wifi_enabled
    then some (text "Wi-Fi is disabled")
    else if is_empty (strip l.config.wifi_ssid)
    then some (text "Wi-Fi AP is offline")
    else if is_empty (strip l.config.server_ip)
    then some (text "TCP server not found")
    else if l.config.server_port == 0 || ltb 65535 l.config.server_port
    then some (text "generic unknown failure")
    else if l.config.keepalive_period_ms == 0
    then some (text "generic unknown failure")
    else none
