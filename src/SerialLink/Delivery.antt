-- ===== src/SerialLink/Delivery.antt =====
-- server/transport/serial_link.py: what the reader thread queues, and what it leaves alone.
use gaggia_esp_c3_mini_serve.Prelude.{
  true, false, ℕ, ◌+◌, ◌≤◌, ◌<◌, ◌≡◌, refl, sym, ap, take, drop, length-take, length-drop,
  take-append-drop, ◌∙◌, ◌⊎◌, none, List, [], ◌∷◌, ◌++◌, length, All, arith,
}
use mathlib.Core.List.{append-nil, append_assoc}
use gaggia_esp_c3_mini_serve.Prelude.Bytes.{Bytes}
use gaggia_esp_c3_mini_serve.FrameCodec.{
  Frame, FrameDecodeError, Decoded, returned, raised, out_of_fuel, wait, fail, find_sof,
  decode_round, decode_frames,
}
use gaggia_esp_c3_mini_serve.FrameCodec.RoundTrip.{IsFrame, packet}
use gaggia_esp_c3_mini_serve.FrameCodec.Stream.{
  packets, decode_frames-stream, decode_frames-stream_lost,
}
use gaggia_esp_c3_mini_serve.FrameCodec.Faults.{decode_round-cut}
use gaggia_esp_c3_mini_serve.Python.Text.{Unicode}
use gaggia_esp_c3_mini_serve.SerialLink.Metadata.{metadata_raises}
use gaggia_esp_c3_mini_serve.SerialLink.State.{detach, Serial}
use gaggia_esp_c3_mini_serve.SerialLink.Receive.{
  Read, chunk, read_error, receive, queue_frames, after_decode, reader_step, reader_steps,
}

-- What holds of the state after some rounds of the reader thread: the port is the same or none,
-- and all that the sender counts is untouched.
pub record Reads (s s' : Serial) : Type 0 where
  pub same_port : (s'.serial ≡ s.serial) ⊎ (s'.serial ≡ none)
  pub same_name : s'.port_name ≡ s.port_name
  pub same_limit : s'.tx_max_attempts ≡ s.tx_max_attempts
  pub same_frames : s'.tx_frames ≡ s.tx_frames
  pub same_bytes : s'.tx_bytes ≡ s.tx_bytes
  pub same_calls : s'.write_calls ≡ s.write_calls

Reads-trans : (s s1 s2 : Serial) → Reads s s1 → Reads s1 s2 → Reads s s2
Reads-trans s s1 s2 a b = ground arith

queue_frames-Reads : (u : Unicode) (fs : List Frame) (s : Serial) → Reads s (queue_frames u fs s)
unfolding queue_frames detach
queue_frames-Reads u [] s = ground arith
queue_frames-Reads u (f ∷ fs) s =
    let s1 = record s {
      rx_frames = s.rx_frames ++ (f ∷ []);
      rx_frames_count = s.rx_frames_count + 1;
      last_error = [];
    } in
    ground (arith, queue_frames-Reads u fs s1)

after_decode-Reads : (u : Unicode) (d : Decoded) (s : Serial) → Reads s (after_decode u d s)
unfolding after_decode
after_decode-Reads u (returned fs left) s =
    ground (arith, queue_frames-Reads u fs (record s { rx_buffer = left }))
after_decode-Reads u (raised e left) s = ground arith
after_decode-Reads u out_of_fuel s = ground arith

receive-Reads : (u : Unicode) (bs : Bytes) (s : Serial) → Reads s (receive u bs s)
unfolding receive
receive-Reads u [] s = ground arith
receive-Reads u (b ∷ bs) s =
    let buffer = s.rx_buffer ++ (b ∷ bs) in
    let s' = record s { rx_bytes = s.rx_bytes + length (b ∷ bs); rx_buffer = buffer } in
    ground (arith, after_decode-Reads u (decode_frames buffer) s')

reader_step-Reads : (u : Unicode) (r : Read) (s : Serial) → Reads s (reader_step u r s)
unfolding reader_step
reader_step-Reads u (chunk bs) s = ground (arith, receive-Reads u bs s)
reader_step-Reads u (read_error e) s = ground arith

pub reader_steps-Reads : (u : Unicode) (rs : List Read) (s : Serial) → Reads s (reader_steps u rs s)
unfolding reader_steps
reader_steps-Reads u [] s = ground arith
reader_steps-Reads u (r ∷ rs) s =
    ground (arith, reader_step-Reads u r s, reader_steps-Reads u rs (reader_step u r s))

-- A frame whose keepalive metadata can be read, if it has any.
abbrev pub Loggable : Unicode → Frame → Type 0
Loggable u f = metadata_raises u f ≡ false

queue_frames-All :
    (u : Unicode) (fs : List Frame) (s : Serial)
    → All (Loggable u) fs
    → ((queue_frames u fs s).rx_frames ≡ s.rx_frames ++ fs)
      × ((queue_frames u fs s).rx_buffer ≡ s.rx_buffer)
      × ((queue_frames u fs s).rx_frames_count ≡ s.rx_frames_count + length fs)
unfolding queue_frames
queue_frames-All u [] s h = (sym (append-nil s.rx_frames), refl, omega arith)
queue_frames-All u (f ∷ fs) s h =
    let s1 = record s {
      rx_frames = s.rx_frames ++ (f ∷ []);
      rx_frames_count = s.rx_frames_count + 1;
      last_error = [];
    } in
    let k = queue_frames-All u fs s1 h.1 in
    simp h.0 (k.0 ∙ append_assoc s.rx_frames (f ∷ []) fs, k.1, k.2 ∙ (omega arith))

-- Bytes that complete the buffer to whole packets, and a tail in which one decoder round finds no
-- whole packet, queue exactly those frames, in order, behind the ones queued before, provided that
-- the keepalive metadata of each can be read.
pub receive-packets :
    (u : Unicode) (bs : Bytes) (fs : List Frame) (tail left : Bytes) (s : Serial)
    → 0 < length bs
    → s.rx_buffer ++ bs ≡ packets fs tail
    → All IsFrame fs
    → All (Loggable u) fs
    → decode_round tail ≡ wait left
    → ((receive u bs s).rx_frames ≡ s.rx_frames ++ fs)
      × ((receive u bs s).rx_buffer ≡ left)
      × ((receive u bs s).rx_frames_count ≡ s.rx_frames_count + length fs)
unfolding receive after_decode
receive-packets u [] fs tail left s n e h g r = absurd (omega arith)
receive-packets u (b ∷ bs) fs tail left s n e h g r =
    let d : decode_frames (s.rx_buffer ++ (b ∷ bs)) ≡ returned fs left =
      rw e (decode_frames-stream fs tail left h r) in
    let s1 = record s { rx_bytes = s.rx_bytes + length (b ∷ bs); rx_buffer = left } in
    rw (d, after_decode) (queue_frames-All u fs s1 g)

-- When the bytes complete the buffer to whole packets, and the keepalive metadata of the first frame
-- cannot be read, the reader thread ends and drops the port: that frame is queued, and those behind
-- it are lost.
pub receive-crash :
    (u : Unicode) (bs : Bytes) (rest : List Frame) (f : Frame) (tail left : Bytes) (s : Serial)
    → 0 < length bs
    → s.rx_buffer ++ bs ≡ packets (f ∷ rest) tail
    → All IsFrame (f ∷ rest)
    → metadata_raises u f ≡ true
    → decode_round tail ≡ wait left
    → ((receive u bs s).rx_frames ≡ s.rx_frames ++ (f ∷ []))
      × ((receive u bs s).serial ≡ none)
      × ((receive u bs s).reader_running ≡ false)
unfolding receive after_decode queue_frames detach
receive-crash u [] rest f tail left s n e h g r = absurd (omega arith)
receive-crash u (b ∷ bs) rest f tail left s n e h g r =
    let d : decode_frames (s.rx_buffer ++ (b ∷ bs)) ≡ returned (f ∷ rest) left =
      rw e (decode_frames-stream (f ∷ rest) tail left h r) in
    rw (d, after_decode) (rw g (refl, refl, refl))

-- Frames that a read completes together with a packet behind them that the decoder refuses are lost:
-- none of them is queued, and their bytes are gone from the buffer.
pub receive-lost :
    (u : Unicode) (bs : Bytes) (fs : List Frame) (tail left : Bytes) (error : FrameDecodeError)
    (s : Serial)
    → 0 < length bs
    → s.rx_buffer ++ bs ≡ packets fs tail
    → All IsFrame fs
    → decode_round tail ≡ fail error left
    → ((receive u bs s).rx_frames ≡ s.rx_frames) × ((receive u bs s).rx_buffer ≡ left)
unfolding receive after_decode
receive-lost u [] fs tail left error s n e h r = absurd (omega arith)
receive-lost u (b ∷ bs) fs tail left error s n e h r =
    let d : decode_frames (s.rx_buffer ++ (b ∷ bs)) ≡ raised error left =
      rw e (decode_frames-stream_lost fs tail left error h r) in
    (rw (d, after_decode), rw (d, after_decode))

-- A packet that arrives in two reads, cut anywhere behind its SOF, is queued by the second, provided
-- that its keepalive metadata can be read.
pub receive-cut :
    (u : Unicode) (n : ℕ) (f : Frame) (s : Serial)
    → IsFrame f
    → Loggable u f
    → 2 ≤ n
    → n < length (packet f)
    → s.rx_buffer ≡ []
    → let s' = receive u (drop n (packet f)) (receive u (take n (packet f)) s) in
      (s'.rx_frames ≡ s.rx_frames ++ (f ∷ [])) × (s'.rx_buffer ≡ [])
receive-cut u n f s h g lo hi e =
    let first =
      receive-packets u (take n (packet f)) [] (take n (packet f)) (take n (packet f)) s
        (omega (arith, length-take {0} n (packet f))) (rw e) tt tt (decode_round-cut n f h lo hi) in
    let s1 = receive u (take n (packet f)) s in
    let second =
      receive-packets u (drop n (packet f)) (f ∷ []) [] [] s1
        (omega (arith, length-drop {0} n (packet f)))
        (rw first.1 (take-append-drop n (packet f) ∙ sym (append-nil (packet f)))) (h, tt) (g, tt)
        (unfold decode_round find_sof in refl) in
    (second.0 ∙ ap (λ l. l ++ (f ∷ [])) (first.0 ∙ append-nil s.rx_frames), second.1)
