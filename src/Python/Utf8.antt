-- ===== src/Python/Utf8.antt =====
-- Python's UTF-8 codec: `bytes.decode("utf-8", errors=...)` and `str.encode("utf-8")`.
use gaggia_esp_c3_mini_serve.Prelude.{
  ℕ, zero, suc, ◌+◌, ◌*◌, ◌/◌, ◌%◌, ◌-◌, ◌&&◌, [], ◌∷◌, ◌++◌, ltb, leb, ◌==◌, if◌then◌else◌, ◌≡◌,
  refl,
}
use gaggia_esp_c3_mini_serve.Prelude.Bytes.{Bytes}
use gaggia_esp_c3_mini_serve.Python.Text.{Text}

-- The decoder between two bytes: how many continuation bytes are due, the bits read so far, and
-- the range in which the next byte has to lie.
pub record Pending : Type 0 where
  pub due : ℕ
  pub bits : ℕ
  pub low : ℕ
  pub high : ℕ

abbrev idle : Pending
idle = record { due = 0; bits = 0; low = 0x80; high = 0xBF }

abbrev lead : ℕ → ℕ → ℕ → ℕ → Pending
lead due bits low high = record { due = due; bits = bits; low = low; high = high }

-- A byte where a character starts: the characters that it ends, and the decoder after it.
first_byte : Text → ℕ → Text × Pending
first_byte bad b =
    if ltb b 0x80
    then (b ∷ [], idle)
    else if ltb b 0xC2
    then (bad, idle)
    else if ltb b 0xE0
    then ([], lead 1 (b - 0xC0) 0x80 0xBF)
    else if b == 0xE0
    then ([], lead 2 0 0xA0 0xBF)
    else if b == 0xED
    then ([], lead 2 13 0x80 0x9F)
    else if ltb b 0xF0
    then ([], lead 2 (b - 0xE0) 0x80 0xBF)
    else if b == 0xF0
    then ([], lead 3 0 0x90 0xBF)
    else if ltb b 0xF4
    then ([], lead 3 (b - 0xF0) 0x80 0xBF)
    else if b == 0xF4
    then ([], lead 3 4 0x80 0x8F)
    else (bad, idle)

after_bad : Text → Text × Pending → Text × Pending
after_bad bad (out, p) = (bad ++ out, p)

-- A byte in the middle of a character. One out of range ends the broken character, which `bad`
-- stands for, and is read anew as a first byte.
next_byte : Text → Pending → ℕ → ℕ → Text × Pending
unfolding first_byte after_bad
next_byte bad p zero b = first_byte bad b
next_byte bad p (suc due) b =
    if leb p.low b && leb b p.high
    then (if due == 0
        then ((p.bits * 64 + (b - 0x80)) ∷ [], idle)
        else ([], lead due (p.bits * 64 + (b - 0x80)) 0x80 0xBF))
    else after_bad bad (first_byte bad b)

decode_from : Text → Pending → Bytes → Text
unfolding next_byte
decode_from bad p [] = if p.due == 0 then [] else bad
decode_from bad p (b ∷ bs) = let (out, p') = next_byte bad p p.due b in out ++ decode_from bad p' bs

-- `errors="ignore"`
unfoldable pub decode_ignore : Bytes → Text
unfolding decode_from
decode_ignore bytes = decode_from [] idle bytes

-- `errors="replace"`: U+FFFD for each broken character
unfoldable pub decode_replace : Bytes → Text
unfolding decode_from
decode_replace bytes = decode_from (0xFFFD ∷ []) idle bytes

encode_char : ℕ → Bytes
encode_char c =
    if ltb c 0x80
    then c ∷ []
    else if ltb c 0x800
    then (0xC0 + c / 64) ∷ (0x80 + c % 64) ∷ []
    else if ltb c 0x10000
    then (0xE0 + c / 4096) ∷ (0x80 + c / 64 % 64) ∷ (0x80 + c % 64) ∷ []
    else (0xF0 + c / 262144) ∷ (0x80 + c / 4096 % 64) ∷ (0x80 + c / 64 % 64) ∷ (0x80 + c % 64) ∷ []

-- `s.encode("utf-8")`, for a text with no surrogate in it.
unfoldable pub encode : Text → Bytes
unfolding encode_char
encode [] = []
encode (c ∷ s) = encode_char c ++ encode s

replace_surrogates : Text → Text
replace_surrogates [] = []
replace_surrogates (c ∷ s) =
    let rest = replace_surrogates s in if leb 0xD800 c && leb c 0xDFFF then 63 ∷ rest else c ∷ rest

-- `s.encode("utf-8", errors="replace")`: a surrogate becomes a question mark.
unfoldable pub encode_replace : Text → Bytes
unfolding encode replace_surrogates
encode_replace s = encode (replace_surrogates s)

decode_broken :
    decode_replace (0x41 ∷ 0xE2 ∷ 0x82 ∷ 0x42 ∷ 0xC3 ∷ []) ≡ (0x41 ∷ 0xFFFD ∷ 0x42 ∷ 0xFFFD ∷ [])
unfolding decode_replace
decode_broken = refl

decode_euro : decode_ignore (encode (0x20AC ∷ 0x1F600 ∷ [])) ≡ (0x20AC ∷ 0x1F600 ∷ [])
unfolding decode_ignore encode
decode_euro = refl
