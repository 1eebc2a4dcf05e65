-- ===== src/SerialLink/State.antt =====
-- server/transport/serial_link.py: the state of `SerialLinkManager`, and its operations that do
-- neither read nor write the port.
use gaggia_esp_c3_mini_serve.Prelude.{
  ℕ, Bool, true, false, ◌&&◌, Option, none, some, List, [], ◌==◌, if◌then◌else◌,
}
use gaggia_esp_c3_mini_serve.Prelude.Bytes.{Bytes}
use gaggia_esp_c3_mini_serve.FrameCodec.{Frame}
use gaggia_esp_c3_mini_serve.Python.Text.{Text, text, strip, or_else}

-- A pyserial object: which one it is, and its `is_open`.
pub record Handle : Type 0 where
  pub identity : ℕ
  pub is_open : Bool

-- `write_calls` counts the calls of the port's `write`, to say which one the next is.
pub record Serial : Type 0 where
  pub port_name : Text
  pub serial : Option Handle
  pub reader_running : Bool
  pub rx_buffer : Bytes
  pub rx_frames : List Frame
  pub tx_max_attempts : ℕ
  pub last_error : Text
  pub tx_frames : ℕ
  pub rx_frames_count : ℕ
  pub tx_bytes : ℕ
  pub rx_bytes : ℕ
  pub write_calls : ℕ

-- `__init__`, with the port's name and the number of attempts that it reads from the environment.
unfoldable pub new : Text → ℕ → Serial
new port_name tx_max_attempts = record {
  port_name = port_name;
  serial = none;
  reader_running = false;
  rx_buffer = [];
  rx_frames = [];
  tx_max_attempts = tx_max_attempts;
  last_error = [];
  tx_frames = 0;
  rx_frames_count = 0;
  tx_bytes = 0;
  rx_bytes = 0;
  write_calls = 0;
}

abbrev pub handle_open : Option Handle → Bool
handle_open none = false
handle_open (some h) = h.is_open

-- `get_snapshot().port_open`
abbrev pub port_open : Serial → Bool
port_open s = handle_open s.serial

-- `current is self._serial and self._serial is not None and self._serial.is_open`
abbrev pub still_active : Handle → Option Handle → Bool
still_active current none = false
still_active current (some h) = current.identity == h.identity && h.is_open

-- `_detach_serial_locked`; the port that it returns is closed by the caller and dropped.
unfoldable pub detach : Text → Serial → Serial
detach error s = record s { serial = none; reader_running = false; last_error = error }

unfoldable pub configure_port : Text → Serial → Serial
configure_port name s = record s { port_name = or_else (strip name) s.port_name; last_error = [] }

-- What pyserial answers to the request to open a port.
pub data Opening : Type 0 where
  opened : Handle → Opening
  refused : Text → Opening
  not_installed : Opening

-- `open_port`; the text is that of the RuntimeError that it raises. No other thread opens the
-- port between its two locked parts.
unfoldable pub open_port : Opening → Serial → Option Text × Serial
open_port not_installed s =
    (some (text "pyserial is not installed in the simulator environment."), s)
open_port (refused error) s =
    if port_open s
    then (none, record s { last_error = [] })
    else (some error, record s { serial = none; last_error = error })
open_port (opened h) s =
    if port_open s
    then (none, record s { last_error = [] })
    else (none, record s { serial = some h; reader_running = true; last_error = [] })

unfoldable pub close_port : Serial → Serial
close_port s = record s { serial = none; reader_running = false; last_error = [] }

-- `force_release_port`, with the processes that the operating system let it stop.
unfoldable pub force_release_port : List ℕ → Serial → List ℕ × Serial
unfolding close_port
force_release_port killed s = (killed, record (close_port s) { last_error = [] })

unfoldable pub pop_received_frames : Serial → List Frame × Serial
pop_received_frames s = (s.rx_frames, record s { rx_frames = [] })

unfoldable pub clear_buffers : Serial → Serial
clear_buffers s = record s { rx_buffer = []; rx_frames = []; last_error = [] }
