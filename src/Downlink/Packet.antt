-- ===== src/Downlink/Packet.antt =====
-- server/sim/data_payload.py: `encode_downlink`.
use gaggia_esp_c3_mini_serve.Prelude.{
  ℕ, ◌-◌, ◌%◌, ◌^◌, List, [], ◌∷◌, ◌++◌, take, length, replicate, leb, if◌then◌else◌,
}
use gaggia_esp_c3_mini_serve.Prelude.Bytes.{Bytes, little}
use gaggia_esp_c3_mini_serve.Python.Text.{Text}
use gaggia_esp_c3_mini_serve.Python.Utf8.{encode_replace}
use gaggia_esp_c3_mini_serve.Python.Integer.{ℤ, pos, negsuc}
use gaggia_esp_c3_mini_serve.Python.Object.{
  overflow_error, struct_error, Result, ok, err, ◌>>=◌, Numbers, or_raise,
}

abbrev pub data_size_floats : ℕ
data_size_floats = 100

abbrev pub data_size_int : ℕ
data_size_int = 20

abbrev pub data_size_string : ℕ
data_size_string = 50

-- The format `i`: two's complement, and `struct.error` out of the range.
unfoldable pub pack_int : ℤ → Result Bytes
pack_int (pos n) = if leb n 2147483647 then ok (little 4 n) else err struct_error
pack_int (negsuc n) = if leb n 2147483647 then ok (little 4 (4294967295 - n)) else err struct_error

unfoldable pub pack_ints : List ℤ → Result Bytes
unfolding pack_int
pack_ints [] = ok []
pack_ints (n ∷ ns) = do bytes ← pack_int n; rest ← pack_ints ns; ok (bytes ++ rest)

module _ (py : Numbers) where
  unfoldable pub pack_floats : List py.Float → Result Bytes
  pack_floats [] = ok []
  pack_floats (x ∷ xs) = do
    bytes ← or_raise overflow_error (py.pack_float x)
    rest ← pack_floats xs
    ok (bytes ++ rest)

-- `(list(xs) + [zero] * size)[:size]`
unfoldable pub padded {ℓ} : {A : Type ℓ} → ℕ → A → List A → List A
padded size nought xs = take size (xs ++ replicate size nought)

-- `text.encode("utf-8", errors="replace")[:50].ljust(50, b"\x00")`
unfoldable pub text_field : Text → Bytes
text_field s =
    let cut = take data_size_string (encode_replace s) in
    cut ++ replicate (data_size_string - length cut) 0

module _ (py : Numbers) where
  unfoldable pub encode_downlink : ℕ → List py.Float → List ℤ → Text → Result Bytes
  unfolding pack_floats pack_ints padded text_field
  encode_downlink seq floats ints s = do
    floats ← pack_floats py (padded data_size_floats (py.decimal 0 0) floats)
    ints ← pack_ints (padded data_size_int (pos 0) ints)
    ok (0xD0 ∷ little 4 (seq % 2 ^ 32) ++ floats ++ ints ++ text_field s)
