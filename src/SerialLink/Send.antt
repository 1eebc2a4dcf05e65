-- ===== src/SerialLink/Send.antt =====
-- server/transport/serial_link.py: `send_frame` with its retries.
use gaggia_esp_c3_mini_serve.Prelude.{
  ℕ, zero, suc, ◌+◌, Bool, ◌&&◌, ◌||◌, Option, none, some, List, [], ◌++◌, length, ltb,
  if◌then◌else◌,
}
use gaggia_esp_c3_mini_serve.Prelude.Bytes.{Bytes}
use gaggia_esp_c3_mini_serve.FrameCodec.{Frame, encode_frame}
use gaggia_esp_c3_mini_serve.Python.{Raised, runtime_error, overflow_error}
use gaggia_esp_c3_mini_serve.Python.Text.{Text, text, contains, lower, or_else, Unicode}
use gaggia_esp_c3_mini_serve.SerialLink.State.{Handle, Serial, still_active, detach}
use gaggia_esp_c3_mini_serve.SerialLink.Receive.{Read, reader_steps}

-- The exception of a write: its text, and whether it is a `SerialTimeoutException`.
pub record WriteError : Type 0 where
  pub message : Text
  pub is_timeout : Bool

-- One call of the port's `write`: what the reader thread does meanwhile, since the lock is free,
-- and how the call ends.
pub record Write : Type 0 where
  pub meanwhile : List Read
  pub error : Option WriteError

not_open_message : Text → Text
not_open_message port = text "Serial port " ++ (port ++ text " is not open.")

write_failed_message : Text → Text
write_failed_message port = text "Serial port " ++ (port ++ text " write failed.")

-- What an attempt comes to: the frame is counted as sent, another attempt is due, or the frame is
-- given up with the text of the error.
pub data Attempt : Type 0 where
  sent : Serial → Attempt
  retry : Serial → Attempt
  failed : Text → Serial → Attempt

module _ (u : Unicode) (device : ℕ → Write) where
  -- `_is_retryable_write_error`
  retryable : WriteError → Bool
  retryable e = e.is_timeout || contains (lower u e.message) (text "timeout")

  unfoldable pub after_write : Option WriteError → Handle → Text → ℕ → Bytes → Serial → Attempt
  unfolding retryable write_failed_message detach
  after_write none current port attempt bytes s = sent (record s {
    tx_frames = s.tx_frames + 1;
    tx_bytes = s.tx_bytes + length bytes;
    last_error = [];
  })
  after_write (some e) current port attempt bytes s =
      if still_active current s.serial
      then (if ltb attempt s.tx_max_attempts && retryable e
          then retry (record s { last_error = e.message })
          else failed (or_else e.message (write_failed_message port)) (detach e.message s))
      else failed (write_failed_message port) (record s { last_error = e.message })

  unfoldable pub attempt_on : Handle → ℕ → Bytes → Serial → Attempt
  unfolding after_write not_open_message
  attempt_on current attempt bytes s =
      let w = device s.write_calls in
      if current.is_open
      then after_write w.error current s.port_name attempt bytes
          (reader_steps u w.meanwhile (record s { write_calls = s.write_calls + 1 }))
      else failed (not_open_message s.port_name) s

  unfoldable pub send_attempt : ℕ → Bytes → Serial → Attempt
  unfolding attempt_on
  send_attempt attempt bytes s = elim s.serial [
    | none ↦ failed (not_open_message s.port_name) s
    | some current ↦ attempt_on current attempt bytes s
  ]

  -- `for attempt in range(1, tx_max_attempts + 1)`, by the number of attempts left.
  unfoldable pub send_loop : ℕ → ℕ → Bytes → Serial → Option Raised × Serial
  unfolding send_attempt
  send_loop zero attempt bytes s = (some (runtime_error (write_failed_message s.port_name)), s)
  send_loop (suc left) attempt bytes s = elim (send_attempt attempt bytes s) [
    | sent s' ↦ (none, s')
    | retry s' ↦ send_loop left (attempt + 1) bytes s'
    | failed message s' ↦ (some (runtime_error message), s')
  ]

  -- `encode_frame` stands before the loop, and its OverflowError is not caught.
  unfoldable pub send_frame : Frame → Serial → Option Raised × Serial
  unfolding send_loop
  send_frame frame s = elim (encode_frame frame) [
    | none ↦ (some overflow_error, s)
    | some bytes ↦ send_loop s.tx_max_attempts 1 bytes s
  ]
