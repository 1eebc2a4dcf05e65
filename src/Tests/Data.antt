-- ===== src/Tests/Data.antt =====
-- Frames and a serial port, for the tests.
use gaggia_esp_c3_mini_serve.Python.Text.{Unicode}
use gaggia_esp_c3_mini_serve.Prelude.{true, ◌==◌, none, some, [], ◌∷◌, arith}
use gaggia_esp_c3_mini_serve.FrameCodec.{Frame, MessageType}
use gaggia_esp_c3_mini_serve.FrameCodec.RoundTrip.{IsFrame}
use gaggia_esp_c3_mini_serve.Python.Text.{Unicode}
use gaggia_esp_c3_mini_serve.SerialLink.State.{Handle, Serial}

abbrev pub frame_a : Frame
frame_a = record {
  message_type = MessageType.keepalive;
  host_live_integer = 4;
  device_live_integer = 3;
  sequence = 7;
  payload = 107 ∷ 97 ∷ [];
}

abbrev pub frame_b : Frame
frame_b = record {
  message_type = MessageType.payload_data;
  host_live_integer = 4;
  device_live_integer = 5;
  sequence = 8;
  payload = 0xA5 ∷ 0x5A ∷ 0 ∷ [];
}

pub frame_a-IsFrame : IsFrame frame_a
frame_a-IsFrame = record {
  payload_fits = omega arith;
  host_fits = omega arith;
  device_fits = omega arith;
  sequence_fits = omega arith;
}

pub frame_b-IsFrame : IsFrame frame_b
frame_b-IsFrame = record {
  payload_fits = omega arith;
  host_fits = omega arith;
  device_fits = omega arith;
  sequence_fits = omega arith;
}

abbrev pub port : Handle
port = record { identity = 1; is_open = true }

abbrev pub manager : Serial
manager = record {
  port_name = 67 ∷ 79 ∷ 77 ∷ 52 ∷ [];
  serial = some port;
  reader_running = true;
  rx_buffer = [];
  rx_frames = [];
  tx_max_attempts = 3;
  last_error = [];
  tx_frames = 0;
  rx_frames_count = 0;
  tx_bytes = 0;
  rx_bytes = 0;
  write_calls = 0;
}

-- A database of characters that knows the superscript two: it is a digit and no decimal.
abbrev pub superscripts : Unicode
superscripts = record {
  lower_of = λ c. c ∷ [];
  is_digit_of = λ c. c == 178;
  decimal_of = λ c. none;
  int_error = λ s. [];
}
