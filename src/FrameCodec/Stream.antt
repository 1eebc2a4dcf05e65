-- ===== src/FrameCodec/Stream.antt =====
-- ServerInterface/frame_codec.py: `decode_frames` on a stream of encoded frames.
use gaggia_esp_c3_mini_serve.Prelude.{
  ℕ, zero, suc, ◌+◌, ◌≤◌, ◌<◌, ◌≡◌, ap, ◌∙◌, List, [], ◌∷◌, ◌++◌, length, length-append, All, arith,
}
use mathlib.Core.List.{append-nil, append_assoc}
use gaggia_esp_c3_mini_serve.Prelude.Bytes.{Bytes, little}
use gaggia_esp_c3_mini_serve.FrameCodec.{
  Frame, FrameDecodeError, crc16_ccitt, Decoded, wait, fail, got, decode_round, returned, raised,
  decode_loop, decode_frames,
}
use gaggia_esp_c3_mini_serve.FrameCodec.RoundTrip.{IsFrame, body, packet, decode_round-packet}

-- The packets of the frames, one behind another, and then `tail`.
abbrev pub packets : List Frame → Bytes → Bytes
packets [] tail = tail
packets (f ∷ fs) tail = packet f ++ packets fs tail

pub length-packets :
    (fs : List Frame) (tail : Bytes) → length fs + length tail ≤ length (packets fs tail)
length-packets [] tail = omega arith
length-packets (f ∷ fs) tail = omega (
  arith,
  length-packets fs tail,
  length-append {0} (packet f) (packets fs tail),
  length-append {0} (body f) (little 2 (crc16_ccitt (body f))),
)

decode_loop-got :
    (fuel : ℕ) (buffer left : Bytes) (f : Frame) (frames : List Frame)
    → decode_round buffer ≡ got f left
    → decode_loop (suc fuel) buffer frames ≡ decode_loop fuel left (frames ++ (f ∷ []))
unfolding decode_loop
decode_loop-got fuel buffer left f frames e = rw (e, decode_loop)

-- The loop takes the packets off the buffer one by one, and ends as it ends on the tail.
decode_loop-packets :
    (fs : List Frame) (fuel : ℕ) (tail : Bytes) (frames : List Frame) (end : List Frame → Decoded)
    → ((n : ℕ) (acc : List Frame) → decode_loop (suc n) tail acc ≡ end acc)
    → All IsFrame fs
    → length fs < fuel
    → decode_loop fuel (packets fs tail) frames ≡ end (frames ++ fs)
decode_loop-packets [] (suc fuel) tail frames end ends h k = rw append-nil (ends fuel frames)
decode_loop-packets (f ∷ fs) (suc fuel) tail frames end ends h k =
    decode_loop-got fuel (packets (f ∷ fs) tail) (packets fs tail) f frames
      (decode_round-packet f (packets fs tail) h.0)
    ∙ (decode_loop-packets fs fuel tail (frames ++ (f ∷ [])) end ends h.1 (omega arith)
        ∙ ap end (append_assoc frames (f ∷ []) fs))
decode_loop-packets fs zero tail frames end ends h k = elim k [ ]

decode_frames-packets :
    (fs : List Frame) (tail : Bytes) (end : List Frame → Decoded)
    → ((n : ℕ) (acc : List Frame) → decode_loop (suc n) tail acc ≡ end acc)
    → All IsFrame fs
    → decode_frames (packets fs tail) ≡ end fs
unfolding decode_frames
decode_frames-packets fs tail end ends h =
    decode_loop-packets fs (suc (length (packets fs tail))) tail [] end ends h
      (omega (arith, length-packets fs tail))

-- Frames that are sent one behind another are all returned, in order, and what stands behind them
-- stays in the buffer as one round leaves it, provided that this round finds no whole packet there.
pub decode_frames-stream :
    (fs : List Frame) (tail left : Bytes)
    → All IsFrame fs
    → decode_round tail ≡ wait left
    → decode_frames (packets fs tail) ≡ returned fs left
decode_frames-stream fs tail left h e =
    decode_frames-packets fs tail (λ acc. returned acc left) ends h
  where
    ends : (n : ℕ) (acc : List Frame) → decode_loop (suc n) tail acc ≡ returned acc left
    ends n acc = unfold decode_loop in rw (e, decode_loop)

-- When a round behind well-formed packets finds a packet that it refuses, `decode_frames` raises,
-- and none of the frames in front of it is returned or left in the buffer.
pub decode_frames-stream_lost :
    (fs : List Frame) (tail left : Bytes) (error : FrameDecodeError)
    → All IsFrame fs
    → decode_round tail ≡ fail error left
    → decode_frames (packets fs tail) ≡ raised error left
decode_frames-stream_lost fs tail left error h e =
    decode_frames-packets fs tail (λ acc. raised error left) ends h
  where
    ends : (n : ℕ) (acc : List Frame) → decode_loop (suc n) tail acc ≡ raised error left
    ends n acc = unfold decode_loop in rw (e, decode_loop)
