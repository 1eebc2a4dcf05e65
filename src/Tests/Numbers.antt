-- ===== src/Tests/Numbers.antt =====
-- Numbers for the examples: thousandths from 0 up, and a NaN and an infinity. Differences stop at
-- 0, and a NaN is the answer where a number below 0 would be read.
use gaggia_esp_c3_mini_serve.Prelude.{
  ℕ, zero, suc, length, ◌≤◌, ◌≡◌, refl, sym, ap, arith, Bool-cases, inl, inr, ◌+◌, ◌-◌, ◌*◌, ◌/◌,
  ◌%◌, ◌^◌, [], ◌∷◌, Bool, true, false, ltb, ◌==◌, Option, none, some,
}
use gaggia_esp_c3_mini_serve.Prelude.Bytes.{Bytes, to_bytes, length-little}
use mathlib.Core.Path.{subst}
use native.Mathlib.Nat.{mul-le-mul_right}
use gaggia_esp_c3_mini_serve.Python.Text.{Text, text, int_of, ascii_only, show}
use gaggia_esp_c3_mini_serve.Python.Integer.{ℤ, pos, negsuc}
use gaggia_esp_c3_mini_serve.Python.Object.{
  or_value, Numbers, Result, ok, err, value_error, overflow_error,
}
use gaggia_esp_c3_mini_serve.LcdData.Slots.{IsRounding}
use gaggia_esp_c3_mini_serve.Downlink.Encoded.{IsFourBytes}

pub data Milli : Type 0 where
  milli : ℕ → Milli
  infinity nan : Milli

abbrev on_milli : (ℕ → ℕ → ℕ) → Milli → Milli → Milli
on_milli f (milli a) (milli b) = milli (f a b)
on_milli f _ _ = nan

abbrev whole : (ℕ → ℕ) → Milli → Result ℤ
whole f (milli a) = ok (pos (f a))
whole f infinity = err overflow_error
whole f nan = err value_error

abbrev less_milli : Milli → Milli → Bool
less_milli (milli a) (milli b) = ltb a b
less_milli (milli a) infinity = true
less_milli _ _ = false

abbrev equal_milli : Milli → Milli → Bool
equal_milli (milli a) (milli b) = a == b
equal_milli infinity infinity = true
equal_milli _ _ = false

abbrev of_integer : ℤ → Option Milli
of_integer (pos n) = some (milli (n * 1000))
of_integer (negsuc n) = some nan

abbrev integer_text : Option ℕ → Option ℤ
integer_text none = none
integer_text (some n) = some (pos n)

abbrev float_text : Option ℕ → Option Milli
float_text none = none
float_text (some n) = some (milli (n * 1000))

abbrev show_milli : Milli → Text
show_milli (milli a) = show (a / 1000)
show_milli infinity = text "inf"
show_milli nan = text "nan"

abbrev pack_milli : Milli → Option Bytes
pack_milli (milli a) = to_bytes a 4
pack_milli infinity = some (0 ∷ 0 ∷ 128 ∷ 127 ∷ [])
pack_milli nan = some (0 ∷ 0 ∷ 192 ∷ 127 ∷ [])

abbrev pub thousandths : Numbers
thousandths = record {
  Float = Milli;
  decimal = λ m k. milli (m * 1000 / 10 ^ k);
  of_int = of_integer;
  truncated = whole (λ a. a / 1000);
  rounded = whole (λ a. (a + 500) / 1000);
  int_of_text = λ s. integer_text (int_of ascii_only s);
  float_of_text = λ s. float_text (int_of ascii_only s);
  show_float = show_milli;
  show_general = show_milli;
  show_fixed = λ k x. show_milli x;
  less = less_milli;
  equal = equal_milli;
  add = on_milli (λ a b. a + b);
  sub = on_milli (λ a b. a - b);
  mul = on_milli (λ a b. a * b / 1000);
  div = on_milli (λ a b. a * 1000 / b);
  modulo = on_milli (λ a b. a % b);
  sin = λ x. milli 0;
  pi = milli 3142;
  pack_float = pack_milli;
}

abbrev shifted : ℕ → ℕ → ℕ
shifted m zero = m
shifted m (suc k) = m / 10 ^ suc k

-- Whole numbers, of which the products are exact.
abbrev pub wholes : Numbers
wholes = record thousandths {
  decimal = λ m k. milli (shifted m k);
  of_int = of_integer;
  truncated = whole (λ a. a);
  rounded = whole (λ a. a);
  mul = on_milli (λ a b. a * b);
  div = on_milli (λ a b. a / b);
}

pub wholes-IsRounding : IsRounding wholes
wholes-IsRounding = record { between = between; exact = λ a factor h k e. refl }
  where
    between :
        (limit factor : ℕ) (x : Milli)
        → limit ≤ 2 ^ 53
        → factor ≤ 2 ^ 53
        → limit * factor ≤ 2 ^ 53
        → less_milli (milli 0) x ≡ true
        → less_milli x (milli limit) ≡ true
        → (n : ℕ) × (wholes.rounded (wholes.mul x (milli factor)) ≡ ok (pos n))
          × (n ≤ limit * factor)
    between limit factor (milli a) h k e above below =
        (a * factor, refl, mul-le-mul_right {m = a} {n = limit} factor (ground arith))
    between limit factor infinity h k e above below = cc
    between limit factor nan h k e above below = cc

some_eq : {b c : Bytes} → some b ≡ some c → b ≡ c
some_eq e = cc

none_some {ℓ} : {A : Type ℓ} {b : Bytes} → none ≡ some b → A
none_some e = cc

pub thousandths-IsFourBytes : IsFourBytes thousandths
thousandths-IsFourBytes (milli a) b h = elim (Bool-cases (ltb a (256 ^ 4))) [
  | inl e ↦ subst (λ b. length b ≡ 4) (some_eq (rw e at h)) (length-little 4 a)
  | inr e ↦ none_some (rw e at h)
]
thousandths-IsFourBytes infinity b h = ap (λ o. length (or_value o [])) (sym h)
thousandths-IsFourBytes nan b h = ap (λ o. length (or_value o [])) (sym h)
