-- ===== src/Link/Flow/Quiet.antt =====
-- server/transport/serial_link.py: an open port whose writes succeed and that receives nothing is a
-- transport on which the automatic flow can run.
use gaggia_esp_c3_mini_serve.Prelude.{
  ℕ, zero, suc, ◌+◌, ◌≤◌, ◌≡◌, refl, ap, ◌∙◌, true, Option, none, some, List, [], length,
}
use gaggia_esp_c3_mini_serve.FrameCodec.{Frame}
use gaggia_esp_c3_mini_serve.FrameCodec.RoundTrip.{IsFrame, packet, encode_frame-packet}
use gaggia_esp_c3_mini_serve.Prelude.Bytes.{Bytes}
use gaggia_esp_c3_mini_serve.Python.{Raised}
use gaggia_esp_c3_mini_serve.Python.Text.{Unicode}
use gaggia_esp_c3_mini_serve.SerialLink.State
use gaggia_esp_c3_mini_serve.SerialLink.State.{Handle, Serial, Opening}
use gaggia_esp_c3_mini_serve.SerialLink.Receive.{reader_steps}
use gaggia_esp_c3_mini_serve.SerialLink.Send.{
  Write, sent, after_write, attempt_on, send_attempt, send_loop, send_frame,
}
use gaggia_esp_c3_mini_serve.Link.SerialTransport.{Port, serial_transport}
use gaggia_esp_c3_mini_serve.Link.Flow.{Working}

-- A device whose writes all succeed while nothing is read.
abbrev pub quiet_device : ℕ → Write
quiet_device n = record { meanwhile = []; error = none }

pub record Ready (s : Serial) : Type 0 where
  pub handle : Handle
  pub has_handle : s.serial ≡ some handle
  pub is_open : handle.is_open ≡ true
  pub may_send : 1 ≤ s.tx_max_attempts
  pub no_frames : s.rx_frames ≡ []

abbrev pub PortReady : Port → Type 0
PortReady p = Ready p.manager

-- What a successful send leaves.
record Sent (r : Option Raised × Serial) : Type 0 where
  no_exception : r.0 ≡ none
  ready : Ready r.1

abbrev counted : Bytes → Serial → Serial
counted bytes s = record s {
  write_calls = s.write_calls + 1;
  tx_frames = s.tx_frames + 1;
  tx_bytes = s.tx_bytes + length bytes;
  last_error = [];
}

module _ (u : Unicode) where
  attempt_on-ready :
      (h : Handle) (attempt : ℕ) (bytes : Bytes) (s : Serial)
      → h.is_open ≡ true
      → attempt_on u quiet_device h attempt bytes s ≡ sent (counted bytes s)
  unfolding attempt_on after_write reader_steps
  attempt_on-ready h attempt bytes s o = simp o refl

  attempt-ready :
      (h : Handle) (attempt : ℕ) (bytes : Bytes) (s s' : Serial)
      → h.is_open ≡ true
      → s.serial ≡ some h
      → counted bytes s ≡ s'
      → send_attempt u quiet_device attempt bytes s ≡ sent s'
  unfolding send_attempt
  attempt-ready h attempt bytes s s' o e c =
      rw (e, send_attempt) (attempt_on-ready h attempt bytes s o ∙ ap sent c)

  send_loop-Ready :
      (left : ℕ) (bytes : Bytes) (s : Serial)
      → 1 ≤ left
      → Ready s
      → Sent (send_loop u quiet_device left 1 bytes s)
  unfolding send_loop
  send_loop-Ready zero bytes s n r = elim n [ ]
  send_loop-Ready (suc left) bytes s n r =
      rw (attempt-ready r.handle 1 bytes s (counted bytes s) r.is_open r.has_handle refl, send_loop)
        (record {
          no_exception = refl;
          ready = record {
            handle = r.handle;
            has_handle = r.has_handle;
            is_open = r.is_open;
            may_send = r.may_send;
            no_frames = r.no_frames;
          };
        })

  send_frame-Ready :
      (f : Frame) (s : Serial) → IsFrame f → Ready s → Sent (send_frame u quiet_device f s)
  unfolding send_frame
  send_frame-Ready f s h r =
      rw (encode_frame-packet f h, send_frame)
        (send_loop-Ready s.tx_max_attempts (packet f) s r.may_send r)

  pub quiet-Working :
      (answers : ℕ → Opening) (kills : ℕ → List ℕ)
      → Working (serial_transport u quiet_device answers kills) PortReady
  unfolding State.pop_received_frames State.clear_buffers
  quiet-Working answers kills = record {
    is_open = λ p r. rw r.has_handle r.is_open;
    nothing = λ p r. r.no_frames;
    after_pop = λ p r. record {
      handle = r.handle;
      has_handle = r.has_handle;
      is_open = r.is_open;
      may_send = r.may_send;
      no_frames = refl;
    };
    sends = λ f p h r. (send_frame-Ready f p.manager h r).no_exception;
    after_sending = λ f p h r. (send_frame-Ready f p.manager h r).ready;
    after_clear = λ p r. record {
      handle = r.handle;
      has_handle = r.has_handle;
      is_open = r.is_open;
      may_send = r.may_send;
      no_frames = refl;
    };
  }
