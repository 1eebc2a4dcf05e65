-- ===== src/Link/Telemetry.antt =====
-- server/sim/link_state_machine.py: what a received payload text tells, and the error frames.
use gaggia_esp_c3_mini_serve.Prelude.{
  ℕ, Bool, true, false, not, ◌&&◌, ◌||◌, Option, none, some, [], ltb, ◌==◌, if◌then◌else◌,
}
use gaggia_esp_c3_mini_serve.FrameCodec.{MessageType, is_keepalive}
use gaggia_esp_c3_mini_serve.Python.{Raised, value_error}
use gaggia_esp_c3_mini_serve.Python.Text.{Text, text, eq_text, starts_with, Unicode}
use gaggia_esp_c3_mini_serve.Python.Payload.{
  is_invalid, Parsed, value, missing, invalid, Signed, parse_u32, parse_i32, parse_text,
}
use gaggia_esp_c3_mini_serve.Link.State.{Link, LinkState, set_state}

abbrev nonnegative : Signed → Bool
nonnegative d = not d.negative || d.size == 0

take_last_delay : Option Signed → Link → Link
take_last_delay none l = l
take_last_delay (some d) l =
    let seen = record l { transport_last_delay_ms = d } in
    if nonnegative d
    then record seen {
      transport_min_delay_ms =
          if not l.ka_timing_valid || ltb d.size l.transport_min_delay_ms
          then d.size
          else l.transport_min_delay_ms;
      ka_timing_valid = true;
    }
    else seen

take_max_delay : Option ℕ → Link → Link
take_max_delay none l = l
take_max_delay (some n) l = record l { transport_max_delay_ms = n }

-- The latch of the log line on missing delay telemetry.
note_missing : Option Signed → Option ℕ → Text → Link → Link
note_missing none none payload l =
    if starts_with payload (text "ka_")
    then record l { firmware_delay_telemetry_missing_warned = true }
    else l
note_missing _ _ payload l = record l { firmware_delay_telemetry_missing_warned = false }

take_total_errors : Option ℕ → Link → Link
take_total_errors none l = l
take_total_errors (some n) l = record l {
  total_error_count = n;
  firmware_error_telemetry_seen = true;
}

-- What parsing gives the code: a value, None, or an exception.
pub data Ingested : Type 0 where
  ingested : Link → Ingested
  threw : Raised → Ingested

unfoldable pub store_telemetry : Option Signed → Option ℕ → Option ℕ → Text → Link → Link
unfolding take_last_delay take_max_delay note_missing take_total_errors
store_telemetry last max total payload l =
    take_total_errors total
      (note_missing last max payload (take_max_delay max (take_last_delay last l)))

abbrev pub with_total : Option Signed → Option ℕ → Parsed ℕ → Text → Link → Ingested
with_total last max invalid payload l = threw value_error
with_total last max missing payload l = ingested (store_telemetry last max none payload l)
with_total last max (value n) payload l = ingested (store_telemetry last max (some n) payload l)

abbrev pub with_max : Option Signed → Parsed ℕ → Parsed ℕ → Text → Link → Ingested
with_max last invalid total payload l = threw value_error
with_max last missing total payload l = with_total last none total payload l
with_max last (value n) total payload l = with_total last (some n) total payload l

-- `_ingest_firmware_telemetry_from_payload_locked`
unfoldable pub ingest_telemetry : Unicode → Text → Link → Ingested
ingest_telemetry u payload l =
    with_max (parse_i32 u payload (text "td_last_ms")) (parse_u32 u payload (text "td_max_ms"))
      (parse_u32 u payload (text "terr")) payload l

pub data Direction : Type 0 where
  request response legacy unknown : Direction

-- `_classify_keepalive_direction`
unfoldable pub classify_keepalive : Text → Direction
classify_keepalive payload =
    if starts_with payload (text "ka_req")
    then request
    else if starts_with payload (text "ka_resp")
    then response
    else if starts_with payload (text "keepalive")
    then legacy
    else unknown

-- `_describe_frame_for_log` makes a log text only, but its parsing can raise the ValueError.
unfoldable pub describe_raises : Unicode → MessageType → Text → Bool
describe_raises u t payload =
    is_keepalive t
    && (is_invalid (parse_u32 u payload (text "sid"))
        || is_invalid (parse_u32 u payload (text "req")))

abbrev reason_or_unknown : Option Text → Text
reason_or_unknown none = text "unknown"
reason_or_unknown (some reason) = reason

client_closed : Link → Link
client_closed l = set_state LinkState.connect [] (record l {
  watchdog_armed = false;
  running_integer_seeded = false;
  last_running_integer_rx_at = none;
  tcp_connected = false;
  connect_completed = false;
  shot_done_pending = false;
  shot_done_due = 0;
})

-- `_handle_bridge_error_frame_locked`; what it returns only chooses a log line.
unfoldable pub handle_bridge_error : Text → Link → Link
unfolding client_closed
handle_bridge_error payload l =
    if starts_with payload (text "realtime_data_halted")
      && eq_text (reason_or_unknown (parse_text payload (text "reason"))) (text "tcp_client_closed")
    then client_closed l
    else l
