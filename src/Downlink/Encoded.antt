-- ===== src/Downlink/Encoded.antt =====
-- server/sim/data_payload.py: a packet of `encode_downlink` read back as the client reads it.
use gaggia_esp_c3_mini_serve.Prelude.{
  ℕ, suc, ◌+◌, ◌-◌, ◌*◌, ◌%◌, ◌^◌, ◌≤◌, true, false, List, [], ◌∷◌, ◌++◌, map, take, drop, length,
  get_or, replicate, leb, Option, none, some, ◌≡◌, refl, sym, ap, ◌∙◌, arith, lt→ltb, ge→ltb,
  Bool-cases, inl, inr, length-append, length-take, length-replicate, take-append, drop-append,
}
use gaggia_esp_c3_mini_serve.Prelude.Bytes.{Bytes, little, from_bytes, length-little}
use gaggia_esp_c3_mini_serve.FrameCodec.RoundTrip.{from_bytes-little_four}
use mathlib.Core.Path.{subst}
use mathlib.Core.List.{append_assoc}
use gaggia_esp_c3_mini_serve.Python.Text.{Text}
use gaggia_esp_c3_mini_serve.Python.Utf8.{encode_replace}
use gaggia_esp_c3_mini_serve.Python.Payload.{Signed}
use gaggia_esp_c3_mini_serve.Python.Integer.{ℤ, pos, negsuc}
use gaggia_esp_c3_mini_serve.Python.Object.{
  ok, err, >>=-ok, >>=-inv, ok_eq, Numbers, or_raise, overflow_error, struct_error,
}
use gaggia_esp_c3_mini_serve.Uplink.{words, signed_word, signed_words}
use gaggia_esp_c3_mini_serve.Downlink.Packet.{
  pack_int, pack_ints, pack_floats, padded, text_field, encode_downlink, data_size_floats,
  data_size_int,
}

-- `struct` packs a float in four bytes.
abbrev pub IsFourBytes : Numbers → Type 0
IsFourBytes py = (x : py.Float) (b : Bytes) → py.pack_float x ≡ some b → length b ≡ 4

err_ok {ℓ κ} : {A : Type ℓ} {B : Type κ} {b : A} → err struct_error ≡ ok b → B
err_ok e = cc

-- An integer as its sign and its absolute value
abbrev pub signed : ℤ → Signed
signed (pos n) = record { negative = false; size = n }
signed (negsuc n) = record { negative = true; size = n + 1 }

abbrev Reads : ℤ → Bytes → Type 0
Reads n b = (length b ≡ 4) × (signed_word b ≡ signed n)

little-Reads_pos : (n : ℕ) → n ≤ 2147483647 → Reads (pos n) (little 4 n)
little-Reads_pos n h = (
  length-little 4 n,
  rw (from_bytes-little_four n (omega arith), lt→ltb n 2147483648 (omega arith)) refl,
)

little-Reads_negsuc : (n : ℕ) → n ≤ 2147483647 → Reads (negsuc n) (little 4 (4294967295 - n))
little-Reads_negsuc n h = (
  length-little 4 (4294967295 - n),
  rw
      (
        from_bytes-little_four (4294967295 - n) (omega arith),
        ge→ltb (4294967295 - n) 2147483648 (omega arith),
      )
      (ap (λ k. record { negative = true; size = k }) (omega arith)),
)

-- The four bytes of an integer, and what they are read as
pack_int-Reads : (n : ℤ) (b : Bytes) → pack_int n ≡ ok b → Reads n b
unfolding pack_int
pack_int-Reads (pos n) b h = elim (Bool-cases (leb n 2147483647)) [
  | inl e ↦ subst (λ b. Reads (pos n) b) (ok_eq (rw e at h)) (little-Reads_pos n (ground arith))
  | inr e ↦ err_ok (rw e at h)
]
pack_int-Reads (negsuc n) b h = elim (Bool-cases (leb n 2147483647)) [
  | inl e ↦
      subst (λ b. Reads (negsuc n) b) (ok_eq (rw e at h)) (little-Reads_negsuc n (ground arith))
  | inr e ↦ err_ok (rw e at h)
]

length-padded {ℓ} : {A : Type ℓ} (n : ℕ) (a : A) (xs : List A) → length (padded n a xs) ≡ n
unfolding padded
length-padded n a xs = omega (
  arith,
  length-take n (xs ++ replicate n a),
  length-append xs (replicate n a),
  length-replicate n a,
)

length-text_field : (s : Text) → length (text_field s) ≡ 50
unfolding text_field
length-text_field s =
    let e = encode_replace s in
    omega (
      arith,
      length-append (take 50 e) (replicate (50 - length (take 50 e)) 0),
      length-take 50 e,
      length-replicate {A = ℕ} (50 - length (take 50 e)) 0,
    )

words-append :
    (n : ℕ) (b rest : Bytes) → length b ≡ 4 → words (suc n) (b ++ rest) ≡ b ∷ words n rest
unfolding words
words-append n b rest h =
    ap (λ k. take k (b ++ rest) ∷ words n (drop k (b ++ rest))) (sym h)
    ∙ (ap (λ l. l ∷ words n (drop (length b) (b ++ rest))) (take-append b rest)
        ∙ ap (λ l. b ∷ words n l) (drop-append b rest))

pack_ints-reads :
    (ns : List ℤ) (bytes rest : Bytes)
    → pack_ints ns ≡ ok bytes
    → (length bytes ≡ 4 * length ns)
      × (signed_words (words (length ns) (bytes ++ rest)) ≡ map signed ns)
unfolding pack_ints signed_words words
pack_ints-reads [] bytes rest h = (ap (λ b. length b) (sym (ok_eq h)), refl)
pack_ints-reads (n ∷ ns) bytes rest h =
    let (b, at, h1) = >>=-inv (pack_int n) _ h in
    let (bs, more, h2) = >>=-inv (pack_ints ns) _ h1 in
    let (four, read) = pack_int-Reads n b at in
    let (count, reads) = pack_ints-reads ns bs rest more in
    let joined = ok_eq h2 in
    (
      ap (λ l. length l) (sym joined) ∙ omega (arith, length-append b bs, four, count),
      ap (λ l. signed_words (words (suc (length ns)) (l ++ rest))) (sym joined)
          ∙ (ap (λ l. signed_words (words (suc (length ns)) l)) (append_assoc b bs rest)
              ∙ (ap signed_words (words-append (length ns) b (bs ++ rest) four)
                  ∙ cc (read, reads))),
    )

packed : (o : Option Bytes) (b : Bytes) → or_raise overflow_error o ≡ ok b → o ≡ some b
packed (some c) b h = ap some (ok_eq h)
packed none b h = cc

pack_floats-length :
    (py : Numbers) (xs : List py.Float) (bytes : Bytes)
    → IsFourBytes py
    → pack_floats py xs ≡ ok bytes
    → length bytes ≡ 4 * length xs
unfolding pack_floats
pack_floats-length py [] bytes four h = ap (λ b. length b) (sym (ok_eq h))
pack_floats-length py (x ∷ xs) bytes four h =
    let (b, at, h1) = >>=-inv (or_raise overflow_error (py.pack_float x)) _ h in
    let (bs, more, h2) = >>=-inv (pack_floats py xs) _ h1 in
    ap (λ l. length l) (sym (ok_eq h2))
    ∙ omega (
      arith,
      length-append b bs,
      four x b (packed (py.pack_float x) b at),
      pack_floats-length py xs bs four more,
    )

-- A packet of floats that fit four bytes and integers of 32 bits is made, and a client that reads the
-- layout finds in its 535 bytes the mark 0xD0, the sequence number modulo 2^32 and the first twenty
-- integers, with zeros for those that are missing.
pub encode_downlink-reads_back :
    (py : Numbers) (seq : ℕ) (floats : List py.Float) (ints : List ℤ) (s : Text) (fs is : Bytes)
    → IsFourBytes py
    → pack_floats py (padded data_size_floats (py.decimal 0 0) floats) ≡ ok fs
    → pack_ints (padded data_size_int (pos 0) ints) ≡ ok is
    → (payload : Bytes) × (encode_downlink py seq floats ints s ≡ ok payload)
      × (length payload ≡ 535)
      × (get_or payload 0 0 ≡ 0xD0)
      × (from_bytes (take 4 (drop 1 payload)) ≡ seq % 2 ^ 32)
      × (signed_words (words 20 (drop 405 payload))
          ≡ map signed (padded data_size_int (pos 0) ints))
unfolding encode_downlink
encode_downlink-reads_back py seq floats ints s fs is four pf pi =
    let n = seq % 2 ^ 32 in
    let tail = fs ++ is ++ text_field s in
    let float_count =
      pack_floats-length py (padded data_size_floats (py.decimal 0 0) floats) fs four pf in
    let (int_count, read) =
      pack_ints-reads (padded data_size_int (pos 0) ints) is (text_field s) pi in
    (
      0xD0 ∷ little 4 n ++ tail,
      >>=-ok _ fs pf (>>=-ok _ is pi refl),
      omega (
        arith,
        length-append (little 4 n) tail,
        length-little 4 n,
        length-append (fs ++ is) (text_field s),
        length-append fs is,
        length-text_field s,
        float_count,
        int_count,
        length-padded data_size_floats (py.decimal 0 0) floats,
        length-padded data_size_int (pos 0) ints,
      ),
      refl,
      from_bytes-little_four n (omega arith),
      ap (λ l. signed_words (words 20 (drop 400 l))) (append_assoc fs is (text_field s))
          ∙ (ap (λ k. signed_words (words 20 (drop k (fs ++ (is ++ text_field s)))))
                (sym (
                  float_count
                  ∙ ap (λ k. 4 * k) (length-padded data_size_floats (py.decimal 0 0) floats)))
              ∙ (ap (λ l. signed_words (words 20 l)) (drop-append fs (is ++ text_field s))
                  ∙ (ap (λ k. signed_words (words k (is ++ text_field s)))
                        (sym (length-padded data_size_int (pos 0) ints))
                      ∙ read))),
    )
