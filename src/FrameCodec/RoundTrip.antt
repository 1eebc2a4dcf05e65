-- ===== src/FrameCodec/RoundTrip.antt =====
-- ServerInterface/frame_codec.py: what the encoder writes, and one decoder round on it.
use gaggia_esp_c3_mini_serve.Prelude.{
  ℕ, ◌+◌, ◌-◌, ◌<◌, ◌≡◌, refl, ◌∙◌, sym, some, List, ◌∷◌, ◌++◌, length, take, drop, length-append,
  take-append, drop-append, lt→ltb, ge→ltb, eq→==, arith,
}
use gaggia_esp_c3_mini_serve.Prelude.Bytes.{Bytes, little, from_bytes}
use gaggia_esp_c3_mini_serve.FrameCodec.{
  Frame, MessageType, reset, type_code, to_type, encode_frame, crc16_ccitt, crc16_ccitt-lt,
  find_sof, got, read_packet, check_packet, read_at_sof, decode_round,
}

-- A frame whose fields fit the fields of the packet.
pub record IsFrame (f : Frame) : Type 0 where
  pub payload_fits : length f.payload < 65536
  pub host_fits : f.host_live_integer < 4294967296
  pub device_fits : f.device_live_integer < 4294967296
  pub sequence_fits : f.sequence < 65536

-- The packet without its checksum, and the packet.
abbrev pub body : Frame → Bytes
body f =
    0xA5
      ∷ 0x5A
      ∷ type_code f.message_type
      ∷ (little 2 (length f.payload)
          ++ (little 4 f.host_live_integer
              ++ (little 4 f.device_live_integer ++ little 2 f.sequence)))
    ++ f.payload

abbrev pub packet : Frame → Bytes
packet f = body f ++ little 2 (crc16_ccitt (body f))

-- The encoder succeeds on each frame that fits, and writes `packet`.
pub encode_frame-packet : (f : Frame) → IsFrame f → encode_frame f ≡ some (packet f)
unfolding encode_frame
encode_frame-packet f h = rw (
  lt→ltb (length f.payload) 65536 h.payload_fits,
  lt→ltb f.host_live_integer 4294967296 h.host_fits,
  lt→ltb f.device_live_integer 4294967296 h.device_fits,
  lt→ltb f.sequence 65536 h.sequence_fits,
  lt→ltb (crc16_ccitt (body f)) 65536 (crc16_ccitt-lt (body f)),
)

pub from_bytes-little_two : (n : ℕ) → n < 65536 → from_bytes (little 2 n) ≡ n
from_bytes-little_two n h = omega arith

pub from_bytes-little_four : (n : ℕ) → n < 4294967296 → from_bytes (little 4 n) ≡ n
from_bytes-little_four n h = omega arith

take-append_at {ℓ} : {A : Type ℓ} (n : ℕ) (xs ys : List A) → n ≡ length xs → take n (xs ++ ys) ≡ xs
take-append_at n xs ys e = rw e (take-append xs ys)

drop-append_at {ℓ} : {A : Type ℓ} (n : ℕ) (xs ys : List A) → n ≡ length xs → drop n (xs ++ ys) ≡ ys
drop-append_at n xs ys e = rw e (drop-append xs ys)

-- A buffer that starts with a whole packet, whose checksum is the one over its body, is cut there.
pub read_at_sof-split :
    (n : ℕ) (front crc rest : Bytes)
    → from_bytes (take 2 (drop 3 ((front ++ crc) ++ rest))) ≡ n
    → length front ≡ 15 + n
    → length crc ≡ 2
    → from_bytes crc ≡ crc16_ccitt front
    → read_at_sof ((front ++ crc) ++ rest) ≡ read_packet (front ++ crc) rest
unfolding read_at_sof check_packet
read_at_sof-split n front crc rest size long short check =
    let whole : length (front ++ crc) ≡ 15 + n + 2 = omega (arith, length-append {0} front crc) in
    let all : length ((front ++ crc) ++ rest) ≡ 15 + n + 2 + length rest =
      omega (arith, length-append {0} (front ++ crc) rest) in
    rw (
      size,
      take-append_at (15 + n + 2) (front ++ crc) rest (sym whole),
      drop-append_at (15 + n + 2) (front ++ crc) rest (sym whole),
      take-append_at (length (front ++ crc) - 2) front crc (omega arith),
      drop-append_at (length (front ++ crc) - 2) front crc (omega arith),
      ge→ltb (length ((front ++ crc) ++ rest)) 17 (omega arith),
      ge→ltb (length ((front ++ crc) ++ rest)) (15 + n + 2) (omega arith),
      eq→== (from_bytes crc) (crc16_ccitt front) check,
    )

to_type-type_code : (t : MessageType) → to_type (type_code t) ≡ some t
to_type-type_code reset = refl
to_type-type_code _ = refl

read_packet-packet :
    (f : Frame) (rest : Bytes) → IsFrame f → read_packet (packet f) rest ≡ got f rest
unfolding read_packet
read_packet-packet f rest h =
    rw (to_type-type_code f.message_type, read_packet)
      (rw (
        from_bytes-little_four f.host_live_integer h.host_fits,
        from_bytes-little_four f.device_live_integer h.device_fits,
        from_bytes-little_two f.sequence h.sequence_fits,
        take-append_at (length (packet f) - 2) (body f) (little 2 (crc16_ccitt (body f)))
            (omega (arith, length-append {0} (body f) (little 2 (crc16_ccitt (body f))))),
      ))

pub read_at_sof-packet :
    (f : Frame) (rest : Bytes) → IsFrame f → read_at_sof (packet f ++ rest) ≡ got f rest
read_at_sof-packet f rest h =
    read_at_sof-split (length f.payload) (body f) (little 2 (crc16_ccitt (body f))) rest
      (from_bytes-little_two (length f.payload) h.payload_fits) (omega arith) refl
      (from_bytes-little_two (crc16_ccitt (body f)) (crc16_ccitt-lt (body f)))
    ∙ read_packet-packet f rest h

pub length-packet : (f : Frame) → length (packet f) ≡ 15 + length f.payload + 2
length-packet f = omega (arith, length-append {0} (body f) (little 2 (crc16_ccitt (body f))))

-- One decoder round reads back an encoded frame, whatever follows it in the buffer.
pub decode_round-packet :
    (f : Frame) (rest : Bytes) → IsFrame f → decode_round (packet f ++ rest) ≡ got f rest
unfolding decode_round find_sof
decode_round-packet f rest h = read_at_sof-packet f rest h
