-- ===== src/SerialLink/Metadata.antt =====
-- server/transport/serial_link.py: what the reader thread reads of a KEEPALIVE frame for its log.
use gaggia_esp_c3_mini_serve.Prelude.{◌&&◌, ◌||◌, Bool}
use gaggia_esp_c3_mini_serve.FrameCodec.{Frame, is_keepalive}
use gaggia_esp_c3_mini_serve.Python.Text.{Text, text, strip, lower, Unicode}
use gaggia_esp_c3_mini_serve.Python.Utf8.{decode_ignore}
use gaggia_esp_c3_mini_serve.Python.Payload.{is_invalid, parse_u32}

-- `frame.payload.decode("utf-8", errors="ignore").strip().lower()`
unfoldable pub payload_text : Unicode → Frame → Text
payload_text u frame = lower u (strip (decode_ignore frame.payload))

-- Whether `_format_keepalive_metadata` raises: the text that it makes is for the log only, but an
-- integer in it may raise a ValueError.
unfoldable pub metadata_raises : Unicode → Frame → Bool
unfolding payload_text
metadata_raises u frame =
    is_keepalive frame.message_type
    && (is_invalid (parse_u32 u (payload_text u frame) (text "sid"))
        || is_invalid (parse_u32 u (payload_text u frame) (text "req")))
