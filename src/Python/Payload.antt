-- ===== src/Python/Payload.antt =====
-- server/sim/link_state_machine.py and server/transport/serial_link.py: the readers of a
-- `key=value;key=value` payload.
use gaggia_esp_c3_mini_serve.Prelude.{
  true, false, ℕ, Bool, Option, none, some, List, [], ◌∷◌, ◌++◌, length, drop, if◌then◌else◌, ◌≡◌,
  refl,
}
use gaggia_esp_c3_mini_serve.Python.Text.{
  Text, text, strip, split, starts_with, is_empty, Unicode, ascii_only, isdigit, int_of,
}

-- A value, no value, or a ValueError of `int`.
pub data Parsed {ℓ} (A : Type ℓ) : Type ℓ where
  value : A → Parsed A
  missing : Parsed A
  invalid : Parsed A

-- The values that stand behind `key=` in the tokens of the payload, in their order.
unfoldable pub values_of : Text → List Text → List Text
values_of key_prefix [] = []
values_of key_prefix (token ∷ tokens) =
    let rest = values_of key_prefix tokens in
    let token = strip token in
    if starts_with token key_prefix then strip (drop (length key_prefix) token) ∷ rest else rest

unfoldable pub payload_values : Text → Text → List Text
unfolding values_of
payload_values payload key = values_of (key ++ text "=") (split 59 payload)

abbrev from_int : Option ℕ → Parsed ℕ
from_int none = invalid
from_int (some n) = value n

first_u32 : Unicode → List Text → Parsed ℕ
first_u32 u [] = missing
first_u32 u (raw ∷ rest) =
    let later = first_u32 u rest in if isdigit u raw then from_int (int_of u raw) else later

-- `_try_parse_u32_payload_value`
unfoldable pub parse_u32 : Unicode → Text → Text → Parsed ℕ
unfolding payload_values first_u32
parse_u32 u payload key = first_u32 u (payload_values payload key)

-- A signed number: its sign and its absolute value.
pub record Signed : Type 0 where
  pub negative : Bool
  pub size : ℕ

abbrev signed_int : Bool → Option ℕ → Option Signed
signed_int negative none = none
signed_int negative (some n) = some (record { negative = negative; size = n })

-- `_try_parse_i32_payload_value` catches the ValueError and gives up there.
first_i32 : Unicode → List Text → Option Signed
first_i32 u [] = none
first_i32 u (raw ∷ rest) =
    let later = first_i32 u rest in
    let negative = starts_with raw (text "-") in
    let digits = if negative then drop 1 raw else raw in
    if is_empty raw
    then later
    else if isdigit u digits
    then signed_int negative (int_of u digits)
    else later

unfoldable pub parse_i32 : Unicode → Text → Text → Option Signed
unfolding payload_values first_i32
parse_i32 u payload key = first_i32 u (payload_values payload key)

-- `_try_parse_text_payload_value`: the first value that is not empty
unfoldable pub first_text : List Text → Option Text
first_text [] = none
first_text (raw ∷ rest) = let later = first_text rest in if is_empty raw then later else some raw

unfoldable pub parse_text : Text → Text → Option Text
unfolding payload_values first_text
parse_text payload key = first_text (payload_values payload key)

abbrev pub is_invalid : Parsed ℕ → Bool
is_invalid invalid = true
is_invalid _ = false

parse_u32_example :
    parse_u32 ascii_only (text "ka_req; sid= 9 ;req=x;req=12") (text "req") ≡ value 12
unfolding parse_u32 text split strip starts_with isdigit int_of
parse_u32_example = refl
