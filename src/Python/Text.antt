-- ===== src/Python/Text.antt =====
-- Python's `str` as a list of code points, with the methods that the program calls.
-- Python's character database is no code of the program: what it says of a code point above ASCII
-- is the record `Unicode`, which the functions that read it take as an argument.
use Prim.Native.Char.{code}
use Prim.Native.String.{String}
use gaggia_esp_c3_mini_serve.Prelude.{
  ℕ, zero, suc, ◌+◌, ◌*◌, ◌/◌, ◌%◌, ◌-◌, Bool, true, false, not, ◌&&◌, ◌||◌, Option, none, some,
  List, [], ◌∷◌, ◌++◌, length, ltb, leb, ◌==◌, if◌then◌else◌, ◌≡◌, refl,
}

abbrev pub Text : Type 0
Text = List ℕ

abbrev codes : String → Text
codes String.[] = []
codes (String.◌∷◌ c s) = code c ∷ codes s

-- A literal of the source. It stays shut in proofs.
unfoldable pub text : String → Text
text s = codes s

unfoldable pub eq_text : Text → Text → Bool
eq_text [] [] = true
eq_text [] (d ∷ t) = false
eq_text (c ∷ s) [] = false
eq_text (c ∷ s) (d ∷ t) = c == d && eq_text s t

-- `s.startswith(prefix)`
unfoldable pub starts_with : Text → Text → Bool
starts_with s [] = true
starts_with [] (d ∷ prefix) = false
starts_with (c ∷ s) (d ∷ prefix) = c == d && starts_with s prefix

-- `token in s`
unfoldable pub contains : Text → Text → Bool
unfolding starts_with
contains [] token = starts_with [] token
contains (c ∷ s) token = starts_with (c ∷ s) token || contains s token

abbrev pub is_empty : Text → Bool
is_empty [] = true
is_empty (c ∷ s) = false

-- `s or fallback`
abbrev pub or_else : Text → Text → Text
or_else [] fallback = fallback
or_else (c ∷ s) fallback = c ∷ s

-- `c.isspace()`: the whole table of Python's white space.
unfoldable pub is_space : ℕ → Bool
is_space c =
    (leb 9 c && leb c 13)
    || ((leb 28 c && leb c 32)
        || (c == 0x85
            || (c == 0xA0
                || (c == 0x1680
                    || ((leb 0x2000 c && leb c 0x200A)
                        || (c == 0x2028
                            || (c == 0x2029 || (c == 0x202F || (c == 0x205F || c == 0x3000)))))))))

unfoldable pub lstrip : Text → Text
unfolding is_space
lstrip [] = []
lstrip (c ∷ s) = let rest = lstrip s in if is_space c then rest else c ∷ s

unfoldable pub rstrip : Text → Text
unfolding is_space
rstrip [] = []
rstrip (c ∷ s) = let rest = rstrip s in if is_empty rest && is_space c then [] else c ∷ rest

unfoldable pub strip : Text → Text
unfolding lstrip rstrip
strip s = rstrip (lstrip s)

abbrev onto_first : ℕ → List Text → List Text
onto_first c [] = (c ∷ []) ∷ []
onto_first c (t ∷ ts) = (c ∷ t) ∷ ts

-- `s.split(sep)` at a separator of one character
unfoldable pub split : ℕ → Text → List Text
split sep [] = [] ∷ []
split sep (c ∷ s) = let rest = split sep s in if c == sep then [] ∷ rest else onto_first c rest

-- Python's character database above ASCII, and what the ValueError says that the integers in a
-- payload text raise.
pub record Unicode : Type 0 where
  pub lower_of : ℕ → Text
  pub is_digit_of : ℕ → Bool
  pub decimal_of : ℕ → Option ℕ
  pub int_error : Text → Text

-- A database in which no character above ASCII has a lower case or is a digit.
abbrev pub ascii_only : Unicode
ascii_only = record {
  lower_of = λ c. c ∷ [];
  is_digit_of = λ c. false;
  decimal_of = λ c. none;
  int_error = λ s. [];
}

unfoldable pub lower : Unicode → Text → Text
lower u [] = []
lower u (c ∷ s) =
    (if ltb c 128 then (if leb 65 c && leb c 90 then (c + 32) ∷ [] else c ∷ []) else u.lower_of c)
    ++ lower u s

is_digit : Unicode → ℕ → Bool
is_digit u c = if ltb c 128 then leb 48 c && leb c 57 else u.is_digit_of c

all_digits : Unicode → Text → Bool
all_digits u [] = true
all_digits u (c ∷ s) = is_digit u c && all_digits u s

-- `s.isdigit()`, which is false of the empty text.
unfoldable pub isdigit : Unicode → Text → Bool
unfolding is_digit all_digits
isdigit u s = not (is_empty s) && all_digits u s

decimal : Unicode → ℕ → Option ℕ
decimal u c =
    if ltb c 128 then (if leb 48 c && leb c 57 then some (c - 48) else none) else u.decimal_of c

abbrev shift_in : ℕ → Option ℕ → Option ℕ
shift_in acc none = none
shift_in acc (some d) = some (acc * 10 + d)

int_from : Unicode → ℕ → Text → Option ℕ
unfolding decimal
int_from u acc [] = some acc
int_from u acc (c ∷ s) = elim (shift_in acc (decimal u c)) [ none ↦ none | some n ↦ int_from u n s ]

-- `int(s)` on a text for which `isdigit` holds; `none` is its ValueError: a digit that is no
-- decimal digit, such as a superscript, or more digits than `sys.get_int_max_str_digits()`.
unfoldable pub int_of : Unicode → Text → Option ℕ
unfolding int_from
int_of u s = if ltb 4300 (length s) then none else int_from u 0 s

show_from : ℕ → ℕ → Text → Text
show_from zero n acc = acc
show_from (suc fuel) n acc =
    let more = show_from fuel (n / 10) ((n % 10 + 48) ∷ acc) in
    if ltb n 10 then (n + 48) ∷ acc else more

-- `str(n)`; a number has at most `n + 1` digits.
unfoldable pub show : ℕ → Text
unfolding show_from
show n = show_from (suc n) n []

abbrev hex_digit : ℕ → ℕ
hex_digit d = if ltb d 10 then d + 48 else d + 55

-- `f"{n:04X}"` of a number of 16 bits
unfoldable pub hex4 : ℕ → Text
hex4 n =
    hex_digit (n / 4096 % 16)
    ∷ hex_digit (n / 256 % 16)
    ∷ hex_digit (n / 16 % 16)
    ∷ hex_digit (n % 16)
    ∷ []

strip_example : strip (text "  ka_req;sid=1 ") ≡ text "ka_req;sid=1"
unfolding strip text
strip_example = refl

split_example : split 59 (text "a=1;;b") ≡ (text "a=1" ∷ [] ∷ text "b" ∷ [])
unfolding split text
split_example = refl

show_example : show 65535 ≡ text "65535"
unfolding show text
show_example = refl

int_of_example : int_of ascii_only (text "0042") ≡ some 42
unfolding int_of text
int_of_example = refl
