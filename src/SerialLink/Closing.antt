-- ===== src/SerialLink/Closing.antt =====
-- server/transport/serial_link.py: how `send_frame` ends.
use gaggia_esp_c3_mini_serve.Prelude.{
  ℕ, zero, suc, ◌+◌, ◌≤◌, ◌<◌, ◌≡◌, refl, ◌∙◌, inl, inr, false, Option, none, some, length,
  Option-cases, Bool-cases, arith,
}
use gaggia_esp_c3_mini_serve.Prelude.Bytes.{Bytes}
use gaggia_esp_c3_mini_serve.FrameCodec.{Frame, encode_frame}
use gaggia_esp_c3_mini_serve.Python.{
  Raised, runtime_error, value_error, overflow_error, other_error,
}
use gaggia_esp_c3_mini_serve.Python.Text.{Text, Unicode}
use gaggia_esp_c3_mini_serve.SerialLink.State.{Handle, Serial, port_open}
use gaggia_esp_c3_mini_serve.SerialLink.Receive.{reader_steps}
use gaggia_esp_c3_mini_serve.SerialLink.Send.{
  Write, WriteError, Attempt, sent, retry, failed, after_write, attempt_on, send_attempt, send_loop,
  send_frame,
}
use gaggia_esp_c3_mini_serve.SerialLink.Delivery.{Reads, reader_steps-Reads}

-- What an attempt may leave of the state `s`.
abbrev AttemptEnds : ℕ → ℕ → Serial → Attempt → Type 0
AttemptEnds size attempt s (sent s') =
    (s'.tx_frames ≡ s.tx_frames + 1)
    × (s'.tx_bytes ≡ s.tx_bytes + size)
    × (s'.write_calls ≡ s.write_calls + 1)
AttemptEnds size attempt s (retry s') =
    (attempt < s.tx_max_attempts)
    × (s'.tx_max_attempts ≡ s.tx_max_attempts)
    × (s'.tx_frames ≡ s.tx_frames)
    × (s'.tx_bytes ≡ s.tx_bytes)
    × (s'.write_calls ≡ s.write_calls + 1)
AttemptEnds size attempt s (failed message s') =
    (port_open s' ≡ false)
    × (s'.tx_frames ≡ s.tx_frames)
    × (s'.tx_bytes ≡ s.tx_bytes)
    × (s'.write_calls ≤ s.write_calls + 1)

-- How a call of `send_frame` ends on a frame of `size` bytes, with at most `limit` writes: the frame
-- is counted once; or the port is closed and nothing is counted.
abbrev pub SendEnds : ℕ → ℕ → Serial → Option Raised × Serial → Type 0
SendEnds size limit s (none, s') =
    (s'.tx_frames ≡ s.tx_frames + 1)
    × (s'.tx_bytes ≡ s.tx_bytes + size)
    × (s'.write_calls ≤ s.write_calls + limit)
SendEnds size limit s (some (runtime_error message), s') =
    (port_open s' ≡ false)
    × (s'.tx_frames ≡ s.tx_frames)
    × (s'.tx_bytes ≡ s.tx_bytes)
    × (s'.write_calls ≤ s.write_calls + limit)
SendEnds size limit s (some overflow_error, s') = ⊥
SendEnds size limit s (some value_error, s') = ⊥
SendEnds size limit s (some other_error, s') = ⊥

-- What a retry leaves is as good a start as the state before it, with one write used up.
SendEnds-retry :
    (size limit : ℕ) (s s1 : Serial) (r : Option Raised × Serial)
    → s1.tx_frames ≡ s.tx_frames
    → s1.tx_bytes ≡ s.tx_bytes
    → s1.write_calls ≡ s.write_calls + 1
    → SendEnds size limit s1 r
    → SendEnds size (suc limit) s r
SendEnds-retry size limit s s1 (none, s') a b c e = omega arith
SendEnds-retry size limit s s1 (some (runtime_error message), s') a b c e =
    (e.0, e.1 ∙ a, e.2 ∙ b, omega arith)
SendEnds-retry size limit s s1 (some overflow_error, s') a b c e = e
SendEnds-retry size limit s s1 (some value_error, s') a b c e = e
SendEnds-retry size limit s s1 (some other_error, s') a b c e = e

-- The same for the bytes that the encoder gives, if it gives any.
abbrev pub FrameEnds : Option Bytes → ℕ → Serial → Option Raised × Serial → Type 0
FrameEnds none limit s r = r ≡ (some overflow_error, s)
FrameEnds (some bytes) limit s r = SendEnds (length bytes) limit s r

module _ (u : Unicode) (device : ℕ → Write) where
  after_write-ends :
      (o : Option WriteError) (h : Handle) (port : Text) (attempt : ℕ) (bytes : Bytes)
      (s s1 : Serial)
      → s.serial ≡ some h
      → Reads (record s { write_calls = s.write_calls + 1 }) s1
      → AttemptEnds (length bytes) attempt s (after_write u device o h port attempt bytes s1)
  unfolding after_write
  after_write-ends o h port attempt bytes s s1 e r = ground arith

  attempt_on-ends :
      (h : Handle) (attempt : ℕ) (bytes : Bytes) (s : Serial)
      → s.serial ≡ some h
      → AttemptEnds (length bytes) attempt s (attempt_on u device h attempt bytes s)
  unfolding attempt_on
  attempt_on-ends h attempt bytes s e = elim (Bool-cases h.is_open) [
    | inl o ↦ simp o (
        after_write-ends w.error h s.port_name attempt bytes s (reader_steps u w.meanwhile called) e
          (reader_steps-Reads u w.meanwhile called))
    | inr c ↦ simp c (ground arith)
  ]
    where
      w : Write
      w = device s.write_calls

      called : Serial
      called = record s { write_calls = s.write_calls + 1 }

  send_attempt-ends :
      (attempt : ℕ) (bytes : Bytes) (s : Serial)
      → AttemptEnds (length bytes) attempt s (send_attempt u device attempt bytes s)
  unfolding send_attempt
  send_attempt-ends attempt bytes s = elim (Option-cases s.serial) [
    | inl e ↦ rw (e, send_attempt) (rw e, refl, refl, omega arith)
    | inr (h, e) ↦ rw (e, send_attempt) (attempt_on-ends h attempt bytes s e)
  ]

  send_loop-ends :
      (left attempt : ℕ) (bytes : Bytes) (s : Serial)
      → 1 ≤ left
      → left + attempt ≡ s.tx_max_attempts + 1
      → SendEnds (length bytes) left s (send_loop u device left attempt bytes s)
  unfolding send_loop
  send_loop-ends zero attempt bytes s h k = elim h [ ]
  send_loop-ends (suc left) attempt bytes s h k =
      go (send_attempt u device attempt bytes s) refl (send_attempt-ends attempt bytes s)
        (send_loop-ends left (attempt + 1) bytes)
    where
      go :
          (a : Attempt)
          → send_attempt u device attempt bytes s ≡ a
          → AttemptEnds (length bytes) attempt s a
          → ((s' : Serial)
              → 1 ≤ left
              → left + (attempt + 1) ≡ s'.tx_max_attempts + 1
              → SendEnds (length bytes) left s' (send_loop u device left (attempt + 1) bytes s'))
          → SendEnds (length bytes) (suc left) s (send_loop u device (suc left) attempt bytes s)
      go (sent s') e ends ih = rw (e, send_loop) (omega arith)
      go (retry s') e ends ih =
          rw (e, send_loop)
            (SendEnds-retry (length bytes) left s s'
              (send_loop u device left (attempt + 1) bytes s') ends.2 ends.3 ends.4
              (ih s' (omega arith) (omega arith)))
      go (failed m s') e ends ih = rw (e, send_loop) (ends.0, ends.1, ends.2, omega arith)

  -- `send_frame`, with at least one attempt allowed, on any device. For a frame that can be encoded
  -- it makes at most `tx_max_attempts` writes and returns or raises a RuntimeError: if it returns,
  -- the frame and its bytes are counted once; if it raises, the port is closed afterwards and
  -- nothing is counted. For any other frame it raises an OverflowError and changes nothing.
  pub send_frame-ends :
      (frame : Frame) (s : Serial)
      → 1 ≤ s.tx_max_attempts
      → FrameEnds (encode_frame frame) s.tx_max_attempts s (send_frame u device frame s)
  unfolding send_frame
  send_frame-ends frame s h = elim (Option-cases (encode_frame frame)) [
    | inl e ↦ rw (e, send_frame) refl
    | inr (bytes, e) ↦
        rw (e, send_frame) (send_loop-ends s.tx_max_attempts 1 bytes s h (omega arith))
  ]
