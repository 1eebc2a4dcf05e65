-- ===== src/Uplink.antt =====
-- server/sim/data_payload.py: the uplink packets and the queue in which `DataPayloadManager` keeps
-- them. A float of a packet is left as its four bytes, which `struct` reads; the preview text of the
-- last packet is not modelled.
pub mod Queue
use gaggia_esp_c3_mini_serve.Prelude.{
  ℕ, zero, suc, ◌+◌, ◌-◌, Bool, true, false, Option, none, some, List, [], ◌∷◌, ◌++◌, length, take,
  drop, get_or, ltb, leb, ◌==◌, if◌then◌else◌,
}
use gaggia_esp_c3_mini_serve.Prelude.Bytes.{Bytes, from_bytes}
use gaggia_esp_c3_mini_serve.Python.Text.{Text}
use gaggia_esp_c3_mini_serve.Python.Utf8.{decode_replace}
use gaggia_esp_c3_mini_serve.Python.Payload.{Signed}

abbrev pub fifo_depth : ℕ
fifo_depth = 10

-- The dict that `decode_uplink` returns; its `magic` is always 0xD1.
pub record Packet : Type 0 where
  pub seq : ℕ
  pub timestamp_ms : ℕ
  pub f : List Bytes
  pub i : List Signed
  pub s : Text

-- `n` fields of four bytes
unfoldable pub words : ℕ → Bytes → List Bytes
words zero bytes = []
words (suc n) bytes = take 4 bytes ∷ words n (drop 4 bytes)

-- A 32-bit integer in two's complement
abbrev pub signed_word : Bytes → Signed
signed_word bytes =
    let n = from_bytes bytes in
    if ltb n 2147483648
    then record { negative = false; size = n }
    else record { negative = true; size = 4294967296 - n }

unfoldable pub signed_words : List Bytes → List Signed
signed_words [] = []
signed_words (b ∷ bs) = signed_word b ∷ signed_words bs

abbrev both_zero : ℕ → Bytes → Bytes
both_zero b [] = if b == 0 then [] else b ∷ []
both_zero b (c ∷ rest) = b ∷ c ∷ rest

-- `s_raw.rstrip(b"\x00")`
rstrip_zero : Bytes → Bytes
rstrip_zero [] = []
rstrip_zero (b ∷ bytes) = both_zero b (rstrip_zero bytes)

-- `decode_uplink`: 539 bytes, the first of them 0xD1.
unfoldable pub decode_uplink : Bytes → Option Packet
unfolding words signed_words rstrip_zero
decode_uplink payload =
    if length payload == 539
    then (if get_or payload 0 0 == 0xD1
        then some (record {
          seq = from_bytes (take 4 (drop 1 payload));
          timestamp_ms = from_bytes (take 4 (drop 5 payload));
          f = words 100 (drop 9 payload);
          i = signed_words (words 20 (drop 409 payload));
          s = decode_replace (rstrip_zero (take 50 (drop 489 payload)));
        })
        else none)
    else none

-- `-1` of `_last_ul_seq` is `none`.
pub record Uplink : Type 0 where
  pub fifo : List Packet
  pub rx_count : ℕ
  pub drop_count : ℕ
  pub last_seq : Option ℕ

unfoldable pub empty_uplink : Uplink
empty_uplink = record { fifo = []; rx_count = 0; drop_count = 0; last_seq = none }

-- `append` of a deque with `maxlen=FIFO_DEPTH`
unfoldable pub push : Packet → List Packet → List Packet
push p fifo = if leb fifo_depth (length fifo) then drop 1 fifo ++ (p ∷ []) else fifo ++ (p ∷ [])

unfoldable pub accept : Packet → Uplink → Uplink
unfolding push
accept p u = record {
  fifo = push p u.fifo;
  rx_count = u.rx_count + 1;
  drop_count = if leb fifo_depth (length u.fifo) then u.drop_count + 1 else u.drop_count;
  last_seq = some p.seq;
}

abbrev accept_decoded : Option Packet → Uplink → Uplink
accept_decoded none u = u
accept_decoded (some p) u = accept p u

unfoldable pub receive_uplink : Bytes → Uplink → Uplink
unfolding decode_uplink accept
receive_uplink payload u = accept_decoded (decode_uplink payload) u

abbrev popped : List Packet → Uplink → Option Packet × Uplink
popped [] u = (none, u)
popped (p ∷ fifo) u = (some p, record u { fifo = fifo })

unfoldable pub pop_uplink : Uplink → Option Packet × Uplink
pop_uplink u = popped u.fifo u
