-- ===== src/Python/Object.antt =====
-- What the program does with a value of any type: Python's `object`, `float` and `dict`, and the
-- conversions `int`, `float`, `bool` and `str`. Floating-point arithmetic and the parsing and
-- printing of numbers are no code of the program: they are the record `Numbers`.
use gaggia_esp_c3_mini_serve.Prelude.{
  ℕ, Bool, true, false, Option, none, some, List, [], ◌∷◌, ◌≡◌, refl, ap, ◌∙◌, if◌then◌else◌, ◌||◌,
  not,
}
use gaggia_esp_c3_mini_serve.Prelude.Bytes.{Bytes}
use gaggia_esp_c3_mini_serve.Python.Text.{Text, text, eq_text, is_empty}
use gaggia_esp_c3_mini_serve.Python.Integer.{ℤ, pos, eq_int, show_int}

pub data Failure : Type 0 where
  type_error value_error overflow_error key_error struct_error : Failure

pub data Result {ℓ} (A : Type ℓ) : Type ℓ where
  ok : A → Result A
  err : Failure → Result A

infixl 5 ◌>>=◌
abbrev pub ◌>>=◌ {ℓ κ} : {A : Type ℓ} {B : Type κ} → Result A → (A → Result B) → Result B
ok a >>= f = f a
err e >>= f = err e

-- A chain of calls, call by call.
pub >>=-ok {ℓ κ} :
    {A : Type ℓ} {B : Type κ} {m : Result A} (f : A → Result B) (a : A) {r : Result B}
    → m ≡ ok a
    → f a ≡ r
    → (m >>= f) ≡ r
>>=-ok f a e h = ap (λ m. m >>= f) e ∙ h

pub ok_eq {ℓ} : {A : Type ℓ} {a b : A} → ok a ≡ ok b → a ≡ b
ok_eq e = cc

pub >>=-inv {ℓ κ} :
    {A : Type ℓ} {B : Type κ} (r : Result A) (f : A → Result B) {b : B}
    → (r >>= f) ≡ ok b
    → (a : A) × (r ≡ ok a) × (f a ≡ ok b)
>>=-inv (ok a) f h = (a, refl, h)
>>=-inv (err e) f h = cc

-- `truncated` is `int(x)` and `rounded` is `round(x)`, which raise ValueError of a NaN and
-- OverflowError of an infinity; `of_int` is `float(n)`, and `none` its OverflowError. A text that
-- is no number gives `none`, a ValueError. `decimal m k` is the literal m * 10 ** -k.
-- `pack_float` is the four bytes of `struct`, and `none` its OverflowError.
-- `show_general` is `f"{x:g}"` and `show_fixed k` is `f"{x:.{k}f}"`.
pub record Numbers : Type 1 where
  pub Float : Type 0
  pub decimal : ℕ → ℕ → Float
  pub of_int : ℤ → Option Float
  pub truncated : Float → Result ℤ
  pub rounded : Float → Result ℤ
  pub int_of_text : Text → Option ℤ
  pub float_of_text : Text → Option Float
  pub show_float : Float → Text
  pub show_general : Float → Text
  pub show_fixed : ℕ → Float → Text
  pub less : Float → Float → Bool
  pub equal : Float → Float → Bool
  pub add : Float → Float → Float
  pub sub : Float → Float → Float
  pub mul : Float → Float → Float
  pub div : Float → Float → Float
  pub modulo : Float → Float → Float
  pub sin : Float → Float
  pub pi : Float
  pub pack_float : Float → Option Bytes

-- `object b t` is a value that is neither a number nor a text, whose `bool` is `b` and whose `str`
-- is `t`.
pub data Value (F : Type 0) : Type 0 where
  boolean : Bool → Value F
  integer : ℤ → Value F
  floating : F → Value F
  string : Text → Value F
  nothing : Value F
  object : Bool → Text → Value F

-- A dict, of which the program reads its values only.
abbrev pub Dict : Type 0 → Type 0
Dict F = Text → Option (Value F)

abbrev pub or_raise {ℓ} : {A : Type ℓ} → Failure → Option A → Result A
or_raise e none = err e
or_raise e (some a) = ok a

abbrev pub or_value {ℓ} : {A : Type ℓ} → Option A → A → A
or_value none default = default
or_value (some a) default = a

module _ {F : Type 0} where
  unfoldable pub dict : List (Text × Value F) → Dict F
  dict [] key = none
  dict ((name, v) ∷ rest) key =
      let later = dict rest key in if eq_text key name then some v else later

  -- `d[key] = v`
  unfoldable pub set : Text → Value F → Dict F → Dict F
  set name v d key = if eq_text key name then some v else d key

  -- `d.get(key, default)`
  unfoldable pub get : Dict F → Text → Value F → Value F
  get d key default = or_value (d key) default

  -- `d[key]`
  unfoldable pub item : Dict F → Text → Result (Value F)
  item d key = or_raise key_error (d key)

unfoldable pub mem : Text → List Text → Bool
mem key [] = false
mem key (name ∷ names) = eq_text key name || mem key names

abbrev pub of_bool : Bool → ℤ
of_bool true = pos 1
of_bool false = pos 0

-- `bool(n)`
abbrev pub nonzero : ℤ → Bool
nonzero n = not (eq_int n (pos 0))

module _ (py : Numbers) where
  -- `int(v)`
  unfoldable pub to_int : Value py.Float → Result ℤ
  to_int (boolean b) = ok (of_bool b)
  to_int (integer n) = ok n
  to_int (floating x) = py.truncated x
  to_int (string s) = or_raise value_error (py.int_of_text s)
  to_int nothing = err type_error
  to_int (object b t) = err type_error

  -- `float(v)`
  unfoldable pub to_float : Value py.Float → Result py.Float
  to_float (boolean b) = ok (py.decimal (if b then 1 else 0) 0)
  to_float (integer n) = or_raise overflow_error (py.of_int n)
  to_float (floating x) = ok x
  to_float (string s) = or_raise value_error (py.float_of_text s)
  to_float nothing = err type_error
  to_float (object b t) = err type_error

  -- `str(v)`
  unfoldable pub to_text : Value py.Float → Text
  to_text (boolean b) = if b then text "True" else text "False"
  to_text (integer n) = show_int n
  to_text (floating x) = py.show_float x
  to_text (string s) = s
  to_text nothing = text "None"
  to_text (object b t) = t

  -- `bool(v)`
  unfoldable pub to_bool : Value py.Float → Bool
  to_bool (boolean b) = b
  to_bool (integer n) = nonzero n
  to_bool (floating x) = not (py.equal x (py.decimal 0 0))
  to_bool (string s) = not (is_empty s)
  to_bool nothing = false
  to_bool (object b t) = b
