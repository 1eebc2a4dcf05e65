-- ===== src/FrameCodec/Crc.antt =====
-- ServerInterface/frame_codec.py: `crc16_ccitt`.
use Prim.Native.Nat.{bit_and, bit_xor}
use gaggia_esp_c3_mini_serve.Prelude.{
  ℕ, zero, suc, ◌*◌, ◌%◌, ◌^◌, ◌<◌, ◌≡◌, refl, [], ◌∷◌, ◌==◌, if◌then◌else◌, arith,
}
use gaggia_esp_c3_mini_serve.Prelude.Bytes.{Bytes}

-- One round of the inner loop; `& 0xFFFF` is `% 2 ^ 16`.
crc_bit : ℕ → ℕ
crc_bit crc =
    if bit_and crc 0x8000 == 0 then crc * 2 % 2 ^ 16 else bit_xor (crc * 2) 0x1021 % 2 ^ 16

crc_bits : ℕ → ℕ → ℕ
crc_bits zero crc = crc
crc_bits (suc rounds) crc = crc_bits rounds (crc_bit crc)

crc_from : ℕ → Bytes → ℕ
crc_from crc [] = crc
crc_from crc (byte ∷ rest) = crc_from (crc_bits 8 (bit_xor crc (byte * 2 ^ 8))) rest

unfoldable pub crc16_ccitt : Bytes → ℕ
unfolding crc_from crc_bits crc_bit
crc16_ccitt bytes = crc_from 0xFFFF bytes

crc_bit-lt : (crc : ℕ) → crc_bit crc < 65536
unfolding crc_bit
crc_bit-lt crc = ground arith

crc_bits-lt : (rounds crc : ℕ) → crc_bits (suc rounds) crc < 65536
unfolding crc_bits
crc_bits-lt zero crc = crc_bit-lt crc
crc_bits-lt (suc rounds) crc = crc_bits-lt rounds (crc_bit crc)

crc_from-lt : (crc : ℕ) (bytes : Bytes) → crc < 65536 → crc_from crc bytes < 65536
unfolding crc_from
crc_from-lt crc [] h = h
crc_from-lt crc (byte ∷ rest) h =
    crc_from-lt (crc_bits 8 (bit_xor crc (byte * 2 ^ 8))) rest (crc_bits-lt 7 _)

-- The checksum fits its two bytes, whatever the input.
pub crc16_ccitt-lt : (bytes : Bytes) → crc16_ccitt bytes < 65536
unfolding crc16_ccitt
crc16_ccitt-lt bytes = crc_from-lt 65535 bytes (omega arith)

-- The check value of CRC-16/CCITT-FALSE, at "123456789".
crc16_check :
    crc16_ccitt (0x31 ∷ 0x32 ∷ 0x33 ∷ 0x34 ∷ 0x35 ∷ 0x36 ∷ 0x37 ∷ 0x38 ∷ 0x39 ∷ []) ≡ 0x29B1
unfolding crc16_ccitt
crc16_check = refl
