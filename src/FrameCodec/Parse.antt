-- ===== src/FrameCodec/Parse.antt =====
-- ServerInterface/frame_codec.py: `decode_frames` on any buffer, well formed or not.
use gaggia_esp_c3_mini_serve.Prelude.{
  ℕ, zero, suc, ◌+◌, ◌-◌, ◌≤◌, ◌<◌, ◌≡◌, refl, ◌≢◌, inl, inr, false, some, List, [], ◌∷◌, ◌++◌,
  length, take, drop, get_or, length-drop, ltb, ◌==◌, Bool-cases, Option-cases, arith,
}
use gaggia_esp_c3_mini_serve.Prelude.Bytes.{Bytes, from_bytes}
use gaggia_esp_c3_mini_serve.FrameCodec.{
  Frame, to_type, crc16_ccitt, find_sof, Round, wait, fail, got, read_packet, check_packet,
  read_at_sof, decode_round, out_of_fuel, decode_loop, decode_frames,
}

find_sof-le : (bytes at : Bytes) → find_sof bytes ≡ some at → length at ≤ length bytes
unfolding find_sof
find_sof-le [] at h = ground arith
find_sof-le (b ∷ []) at h = ground arith
find_sof-le (b ∷ c ∷ bs) at h = ground (arith, find_sof-le (c ∷ bs) at)

-- What a round may leave of a buffer of that size: a round after which the loop goes on, or that
-- raises, leaves less.
abbrev Shrinks : ℕ → Round → Type 0
Shrinks size (wait left) = length left ≤ size
Shrinks size (fail e left) = length left < size
Shrinks size (got frame left) = length left < size

read_packet-Shrinks :
    (size : ℕ) (packet rest : Bytes) → length rest < size → Shrinks size (read_packet packet rest)
unfolding read_packet
read_packet-Shrinks size packet rest h = elim (Option-cases (to_type (get_or packet 2 0))) [
  | inl e ↦ rw (e, read_packet) h
  | inr (t, e) ↦ rw (e, read_packet) h
]

check_packet-Shrinks :
    (size : ℕ) (packet buffer rest : Bytes)
    → length rest < size
    → length (drop 2 buffer) < size
    → Shrinks size (check_packet packet buffer rest)
unfolding check_packet
check_packet-Shrinks size packet buffer rest h k =
    let same =
      from_bytes (drop (length packet - 2) packet)
      == crc16_ccitt (take (length packet - 2) packet) in
    elim (Bool-cases same) [
      | inl e ↦ rw e (read_packet-Shrinks size packet rest h)
      | inr e ↦ rw e k
    ]

-- A cut in a buffer of 17 bytes at least leaves less.
shorter :
    (n : ℕ) (buffer : Bytes)
    → ltb (length buffer) 17 ≡ false
    → length (drop (suc n) buffer) < length buffer
shorter n buffer h = omega (arith, length-drop {0} (suc n) buffer, not_short (length buffer) h)
  where
    not_short : (k : ℕ) → ltb k 17 ≡ false → 17 ≤ k
    not_short k e = ground arith

read_at_sof-Shrinks : (buffer : Bytes) → Shrinks (length buffer) (read_at_sof buffer)
unfolding read_at_sof
read_at_sof-Shrinks buffer =
    let n = from_bytes (take 2 (drop 3 buffer)) in
    let total : ℕ = 15 + n + 2 in
    elim (Bool-cases (ltb (length buffer) 17)) [
      | inl e ↦ rw e (omega arith)
      | inr long ↦ rw long (elim (Bool-cases (ltb (length buffer) total)) [
        | inl e ↦ rw e (omega arith)
        | inr e ↦ rw e (
            check_packet-Shrinks (length buffer) (take total buffer) buffer (drop total buffer)
              (omega (
                arith,
                length-drop {0} total buffer,
                shorter 1 buffer long,
                length-drop {0} 2 buffer,
              ))
              (shorter 1 buffer long))
      ])
    ]

-- Whatever the buffer, a round that goes on or raises has removed at least one byte.
pub decode_round-Shrinks : (buffer : Bytes) → Shrinks (length buffer) (decode_round buffer)
unfolding decode_round
decode_round-Shrinks buffer = elim (Option-cases (find_sof buffer)) [
  | inl e ↦ rw (e, decode_round) (omega arith)
  | inr (at, e) ↦
      rw (e, decode_round)
        (Shrinks-mono (read_at_sof at) (find_sof-le buffer at e) (read_at_sof-Shrinks at))
]
  where
    Shrinks-mono : (r : Round) {m n : ℕ} → m ≤ n → Shrinks m r → Shrinks n r
    Shrinks-mono (wait left) h k = omega arith
    Shrinks-mono (fail e left) h k = omega arith
    Shrinks-mono (got frame left) h k = omega arith

decode_loop-ne-out_of_fuel :
    (fuel : ℕ) (buffer : Bytes) (frames : List Frame)
    → length buffer < fuel
    → decode_loop fuel buffer frames ≢ out_of_fuel
unfolding decode_loop
decode_loop-ne-out_of_fuel zero buffer frames h = absurd (omega arith)
decode_loop-ne-out_of_fuel (suc fuel) buffer frames h =
    by_round (decode_round buffer) refl (decode_loop-ne-out_of_fuel fuel)
  where
    by_round :
        (r : Round)
        → decode_round buffer ≡ r
        → ((b : Bytes) (fs : List Frame) → length b < fuel → decode_loop fuel b fs ≢ out_of_fuel)
        → decode_loop (suc fuel) buffer frames ≢ out_of_fuel
    by_round (wait left) e ih = rw (e, decode_loop) (λ p. cc)
    by_round (fail x left) e ih = rw (e, decode_loop) (λ p. cc)
    by_round (got frame left) e ih =
        rw (e, decode_loop)
          (ih left (frames ++ (frame ∷ [])) (smaller (rw e at (decode_round-Shrinks buffer))))
      where
        smaller : length left < length buffer → length left < fuel
        smaller k = omega arith

-- On every buffer `decode_frames` returns or raises.
pub decode_frames-ne-out_of_fuel : (buffer : Bytes) → decode_frames buffer ≢ out_of_fuel
unfolding decode_frames
decode_frames-ne-out_of_fuel buffer =
    decode_loop-ne-out_of_fuel (suc (length buffer)) buffer [] (omega arith)
