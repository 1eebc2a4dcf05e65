-- ===== src/FrameCodec/Faults.antt =====
-- ServerInterface/frame_codec.py: noise, and packets that arrive in parts.
use gaggia_esp_c3_mini_serve.Prelude.{
  ℕ, zero, suc, ◌+◌, ◌≤◌, ◌≡◌, refl, none, some, [], ◌∷◌, ◌++◌, length, length-take, take, drop,
  ltb, lt→ltb, ◌<◌, Bool-cases, inl, inr, arith,
}
use mathlib.Core.List.{append-nil}
use gaggia_esp_c3_mini_serve.Prelude.Bytes.{Bytes, from_bytes}
use gaggia_esp_c3_mini_serve.FrameCodec.{
  Frame, find_sof, wait, got, read_at_sof, decode_round, returned, decode_loop, decode_frames,
}
use gaggia_esp_c3_mini_serve.FrameCodec.RoundTrip.{
  IsFrame, packet, from_bytes-little_two, length-packet, read_at_sof-packet,
}
use gaggia_esp_c3_mini_serve.FrameCodec.Stream.{decode_frames-stream}

-- No SOF in front is found by the search, so it goes on to the SOF that follows.
find_sof-append :
    (noise : Bytes) (bs : Bytes)
    → find_sof noise ≡ none
    → find_sof (noise ++ (0xA5 ∷ 0x5A ∷ bs)) ≡ some (0xA5 ∷ 0x5A ∷ bs)
unfolding find_sof
find_sof-append [] bs h = refl
find_sof-append (b ∷ []) bs h = ground arith
find_sof-append (b ∷ c ∷ noise) bs h = ground (arith, find_sof-append (c ∷ noise) bs)

-- Noise with no SOF in it is dropped: the frame behind it is decoded as if the noise were not there.
pub decode_round-noise :
    (noise rest : Bytes) (f : Frame)
    → find_sof noise ≡ none
    → IsFrame f
    → decode_round (noise ++ (packet f ++ rest)) ≡ got f rest
unfolding decode_round
decode_round-noise noise rest f h k =
    rw (find_sof-append noise (drop 2 (packet f ++ rest)) h, decode_round)
      (read_at_sof-packet f rest k)

-- A buffer with no SOF in it is emptied, and no frame comes of it.
pub decode_frames-idle : (bs : Bytes) → find_sof bs ≡ none → decode_frames bs ≡ returned [] []
unfolding decode_frames decode_round decode_loop
decode_frames-idle bs h = rw (h, decode_round, decode_loop)

-- The decoder waits on a buffer that starts with a SOF and whose header asks for more than is there.
read_at_sof-short :
    (n : ℕ) (buffer : Bytes)
    → from_bytes (take 2 (drop 3 buffer)) ≡ n
    → length buffer < 15 + n + 2
    → read_at_sof buffer ≡ wait buffer
unfolding read_at_sof
read_at_sof-short n buffer e h = elim (Bool-cases (ltb (length buffer) 17)) [
  | inl short ↦ rw short
  | inr long ↦ rw (long, e, lt→ltb (length buffer) (15 + n + 2) h)
]

read_at_sof-first : (buffer : Bytes) → length buffer < 17 → read_at_sof buffer ≡ wait buffer
unfolding read_at_sof
read_at_sof-first buffer h = rw (lt→ltb (length buffer) 17 h)

-- A packet that is cut anywhere behind its SOF stays in the buffer, for the next bytes to complete.
pub decode_round-cut :
    (n : ℕ) (f : Frame)
    → IsFrame f
    → 2 ≤ n
    → n < length (packet f)
    → decode_round (take n (packet f)) ≡ wait (take n (packet f))
unfolding decode_round find_sof
decode_round-cut zero f h lo hi = elim lo [ ]
decode_round-cut (suc zero) f h lo hi = absurd (omega arith)
decode_round-cut (suc (suc zero)) f h lo hi = read_at_sof-first (take 2 (packet f)) (omega arith)
decode_round-cut (suc (suc (suc zero))) f h lo hi =
    read_at_sof-first (take 3 (packet f)) (omega arith)
decode_round-cut (suc (suc (suc (suc zero)))) f h lo hi =
    read_at_sof-first (take 4 (packet f)) (omega arith)
decode_round-cut (suc (suc (suc (suc (suc n))))) f h lo hi =
    let m : ℕ = suc (suc (suc (suc (suc n)))) in
    read_at_sof-short (length f.payload) (take m (packet f))
      (from_bytes-little_two (length f.payload) h.payload_fits)
      (omega (arith, length-packet f, length-take {0} m (packet f)))

-- A packet that is cut between the two bytes of its SOF is lost: the first part empties the
-- buffer, and if the bytes behind the first hold no SOF of their own, the second part does too.
-- Received in one part, the same packet is decoded.
pub decode_frames-cut_in_sof :
    (f : Frame)
    → IsFrame f
    → find_sof (drop 1 (packet f)) ≡ none
    → (decode_frames (packet f) ≡ returned (f ∷ []) [])
      × (decode_frames (take 1 (packet f)) ≡ returned [] [])
      × (decode_frames ([] ++ drop 1 (packet f)) ≡ returned [] [])
decode_frames-cut_in_sof f h e = (
  rw append-nil at
      (decode_frames-stream (f ∷ []) [] [] (h, tt) (unfold decode_round find_sof in refl)),
  decode_frames-idle (take 1 (packet f)) (unfold find_sof in refl),
  decode_frames-idle (drop 1 (packet f)) e,
)
