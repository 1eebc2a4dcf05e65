-- ===== src/FrameCodec.antt =====
-- ServerInterface/frame_codec.py: the framed packet, its checksum, the encoder and the decoder of
-- a receive buffer. A byte is a number below 256.
mod Crc
pub mod Parse
pub mod RoundTrip
pub mod Stream
pub mod Faults
pub mod Encoded
pub use Crc.{crc16_ccitt-lt}
unfoldable pub use Crc.{crc16_ccitt}
use gaggia_esp_c3_mini_serve.Prelude.{
  ℕ, zero, suc, ◌+◌, ◌-◌, ◌<◌, Bool, true, false, ◌&&◌, Option, none, some, List, [], ◌∷◌, ◌++◌,
  length, take, drop, get_or, ltb, ◌==◌, if◌then◌else◌,
}
use gaggia_esp_c3_mini_serve.Prelude.Bytes.{Bytes, to_bytes, from_bytes}

-- The Python name `MessageType.DATA` is `payload_data` here.
pub data MessageType : Type 0 where
  reset initialize connect disconnect keepalive error ack payload_data : MessageType

pub record Frame : Type 0 where
  pub message_type : MessageType
  pub host_live_integer : ℕ
  pub device_live_integer : ℕ
  pub sequence : ℕ
  pub payload : Bytes

abbrev pub is_keepalive : MessageType → Bool
is_keepalive keepalive = true
is_keepalive _ = false

-- `int(frame.message_type)`
abbrev pub type_code : MessageType → ℕ
type_code reset = 1
type_code initialize = 2
type_code connect = 3
type_code disconnect = 4
type_code keepalive = 5
type_code error = 6
type_code ack = 7
type_code payload_data = 8

-- `MessageType(n)`; `none` is its ValueError.
abbrev pub to_type : ℕ → Option MessageType
to_type n =
    if n == 1
    then some reset
    else if n == 2
    then some initialize
    else if n == 3
    then some connect
    else if n == 4
    then some disconnect
    else if n == 5
    then some keepalive
    else if n == 6
    then some error
    else if n == 7
    then some ack
    else if n == 8
    then some payload_data
    else none

infixl 5 ◌>>=◌
abbrev ◌>>=◌ {ℓ κ} : {A : Type ℓ} {B : Type κ} → Option A → (A → Option B) → Option B
none >>= f = none
some a >>= f = f a

-- `none` is the OverflowError that `to_bytes` raises when a field does not fit.
unfoldable pub encode_frame : Frame → Option Bytes
encode_frame frame = do
  size ← to_bytes (length frame.payload) 2
  host ← to_bytes frame.host_live_integer 4
  device ← to_bytes frame.device_live_integer 4
  sequence ← to_bytes frame.sequence 2
  let header = 0xA5 ∷ 0x5A ∷ type_code frame.message_type ∷ (size ++ (host ++ (device ++ sequence)))
  let body = header ++ frame.payload
  crc ← to_bytes (crc16_ccitt body) 2
  some (body ++ crc)

pub data FrameDecodeError : Type 0 where
  crc_mismatch : ℕ → ℕ → FrameDecodeError
  unsupported_type : ℕ → FrameDecodeError

-- `buffer.find(SOF)`, as the part of the buffer from there on.
unfoldable pub find_sof : Bytes → Option Bytes
find_sof [] = none
find_sof (b ∷ []) = none
find_sof (b ∷ c ∷ bs) =
    let later = find_sof (c ∷ bs) in if b == 0xA5 && c == 0x5A then some (b ∷ c ∷ bs) else later

-- One round of the decoder's loop: what it does with the buffer.
pub data Round : Type 0 where
  wait : Bytes → Round
  fail : FrameDecodeError → Bytes → Round
  got : Frame → Bytes → Round

-- The round's part that builds a frame from a packet whose checksum is right.
unfoldable pub read_packet : Bytes → Bytes → Round
read_packet packet rest = elim (to_type (get_or packet 2 0)) [
  | none ↦ fail (unsupported_type (get_or packet 2 0)) rest
  | some message_type ↦
      got
        (record {
          message_type = message_type;
          host_live_integer = from_bytes (take 4 (drop 5 packet));
          device_live_integer = from_bytes (take 4 (drop 9 packet));
          sequence = from_bytes (take 2 (drop 13 packet));
          payload = drop 15 (take (length packet - 2) packet);
        })
        rest
]

-- The checksum test on a whole packet; a mismatch drops the two bytes of the SOF only.
unfoldable pub check_packet : Bytes → Bytes → Bytes → Round
check_packet packet buffer rest =
    let expected_crc = from_bytes (drop (length packet - 2) packet) in
    let actual_crc = crc16_ccitt (take (length packet - 2) packet) in
    if expected_crc == actual_crc
    then read_packet packet rest
    else fail (crc_mismatch expected_crc actual_crc) (drop 2 buffer)

-- `HEADER_SIZE` is 15 and `CRC_SIZE` is 2.
unfoldable pub read_at_sof : Bytes → Round
read_at_sof buffer =
    let total_length = 15 + from_bytes (take 2 (drop 3 buffer)) + 2 in
    if ltb (length buffer) (15 + 2)
    then wait buffer
    else if ltb (length buffer) total_length
    then wait buffer
    else check_packet (take total_length buffer) buffer (drop total_length buffer)

unfoldable pub decode_round : Bytes → Round
decode_round buffer = elim (find_sof buffer) [ none ↦ wait [] | some at ↦ read_at_sof at ]

-- What `decode_frames` leaves: the list that it returns, or the error that it raises, and the
-- buffer after it. A raise drops the list that was being built.
pub data Decoded : Type 0 where
  returned : List Frame → Bytes → Decoded
  raised : FrameDecodeError → Bytes → Decoded
  out_of_fuel : Decoded

decode_loop : ℕ → Bytes → List Frame → Decoded
decode_loop zero buffer frames = out_of_fuel
decode_loop (suc fuel) buffer frames = elim (decode_round buffer) [
  | wait left ↦ returned frames left
  | fail e left ↦ raised e left
  | got frame left ↦ decode_loop fuel left (frames ++ (frame ∷ []))
]

-- Each round that goes on removes at least one byte, so this fuel is enough.
pub decode_frames : Bytes → Decoded
decode_frames buffer = decode_loop (suc (length buffer)) buffer []
