-- ===== src/LcdData/Typed.antt =====
-- server/communication/data_structures_lcd_controller.py: the type that each field of a normalized
-- dict has, and that the loops give it.
use gaggia_esp_c3_mini_serve.Prelude.{
  ℕ, zero, suc, Bool, true, false, not, ◌&&◌, Option, none, some, [], ◌∷◌, length, take,
  length-take, Option-cases, if◌then◌else◌, leb, ◌≡◌, refl, ap, arith, inl, inr,
}
use gaggia_esp_c3_mini_serve.Python.Text.{Text, text, is_empty, or_else, Unicode}
use gaggia_esp_c3_mini_serve.Python.Integer.{ℤ}
use gaggia_esp_c3_mini_serve.Python.Object.{
  Result, ok, err, ◌>>=◌, Numbers, Value, boolean, integer, floating, string, nothing, object, Dict,
  item, nonzero, to_int, to_float, to_bool, to_text,
}
use gaggia_esp_c3_mini_serve.LcdData.Fields.{
  Kind, name_kind, bool_kind, float_kind, int_kind, profile_name_length,
}
use gaggia_esp_c3_mini_serve.LcdData.Normalize.{
  recover, normalize_bool, normalize_int, normalize_float, normalize_name, normalize_field,
}

module _ {F : Type 0} where
  -- A value of the type that the kind of its field demands; a name has 1 to 25 characters.
  abbrev pub fits : Kind → Option (Value F) → Bool
  fits name_kind (some (string s)) = not (is_empty s) && leb (length s) profile_name_length
  fits bool_kind (some (boolean b)) = true
  fits float_kind (some (floating x)) = true
  fits int_kind (some (integer n)) = true
  fits kind v = false

  -- A default that the loop can read: the default of a `float` field may be a `bool`.
  abbrev pub ready : Kind → Option (Value F) → Bool
  ready name_kind (some (string s)) = true
  ready bool_kind (some (boolean b)) = true
  ready float_kind (some (floating x)) = true
  ready float_kind (some (boolean b)) = true
  ready int_kind (some (integer n)) = true
  ready kind v = false

abbrev succeeds {ℓ} : {A : Type ℓ} → Result A → Bool
succeeds (ok a) = true
succeeds (err e) = false

abbrev is_some {ℓ} : {A : Type ℓ} → Option A → Bool
is_some none = false
is_some (some a) = true

-- The conversion that the field's kind asks for takes the value, or refuses it by an exception that
-- is caught: no NaN and no infinity goes to `int`, and no integer above the range of `float` to that.
abbrev pub convertible : (py : Numbers) → Kind → Option (Value py.Float) → Bool
convertible py float_kind (some (integer n)) = is_some (py.of_int n)
convertible py bool_kind (some (floating x)) = succeeds (py.truncated x)
convertible py int_kind (some (floating x)) = succeeds (py.truncated x)
convertible py kind v = true

abbrev Reads : (py : Numbers) → Kind → Result (Value py.Float) → Type 0
Reads py kind r = (v : Value py.Float) × (r ≡ ok v) × (fits kind (some v) ≡ true)

succeeds_lem {ℓ} : {A : Type ℓ} (r : Result A) → succeeds r ≡ true → (a : A) × (r ≡ ok a)
succeeds_lem (ok a) h = (a, refl)
succeeds_lem (err e) h = cc

take-suc-fits :
    (n : ℕ) (s : Text)
    → is_empty s ≡ false
    → (not (is_empty (take (suc n) s)) && leb (length (take (suc n) s)) (suc n)) ≡ true
take-suc-fits n [] h = cc
take-suc-fits n (c ∷ s) h = ground (arith, length-take n s)

abbrev take-fits :
    (s : Text)
    → is_empty s ≡ false
    → (not (is_empty (take profile_name_length s))
        && leb (length (take profile_name_length s)) profile_name_length)
      ≡ true
take-fits s h = take-suc-fits 24 s h

or_else-fits :
    (s fallback : Text)
    → is_empty fallback ≡ false
    → (not (is_empty (take profile_name_length (or_else s fallback)))
        && leb (length (take profile_name_length (or_else s fallback))) profile_name_length)
      ≡ true
or_else-fits [] fallback h = take-fits fallback h
or_else-fits (c ∷ s) fallback h = take-fits (c ∷ s) refl

-- A name that fits is a text.
pub named_text :
    {F : Type 0} (o : Option (Value F))
    → fits name_kind o ≡ true
    → (s : Text) × (o ≡ some (string s)) × (is_empty s ≡ false)
named_text (some (string [])) h = cc
named_text (some (string (c ∷ s))) h = (c ∷ s, refl, refl)
named_text (some (boolean b)) h = cc
named_text (some (integer n)) h = cc
named_text (some (floating x)) h = cc
named_text (some nothing) h = cc
named_text (some (object b t)) h = cc
named_text none h = cc

pub normalize_name-fits :
    (py : Numbers) (raw : Value py.Float) (fallback : Text)
    → is_empty fallback ≡ false
    → fits {F = py.Float} name_kind (some (string (normalize_name py raw fallback))) ≡ true
unfolding normalize_name
normalize_name-fits py nothing fallback h = take-fits fallback h
normalize_name-fits py (boolean b) fallback h = or_else-fits (to_text py (boolean b)) fallback h
normalize_name-fits py (integer n) fallback h = or_else-fits (to_text py (integer n)) fallback h
normalize_name-fits py (floating x) fallback h = or_else-fits (to_text py (floating x)) fallback h
normalize_name-fits py (string s) fallback h = or_else-fits (to_text py (string s)) fallback h
normalize_name-fits py (object b t) fallback h = or_else-fits (to_text py (object b t)) fallback h

take-all : (n : ℕ) (s : Text) → leb (length s) n ≡ true → take n s ≡ s
take-all zero [] h = refl
take-all (suc n) [] h = refl
take-all zero (c ∷ s) h = ground arith
take-all (suc n) (c ∷ s) h = ap (λ l. c ∷ l) (take-all n s (ground arith))

-- A name that fits is not changed.
pub normalize_name-same :
    (py : Numbers) (s fallback : Text)
    → fits {F = py.Float} name_kind (some (string s)) ≡ true
    → normalize_name py (string s) fallback ≡ s
unfolding normalize_name to_text
normalize_name-same py [] fallback h = cc
normalize_name-same py (c ∷ s) fallback h = take-all profile_name_length (c ∷ s) h

pub normalize_bool_lem :
    (py : Numbers) (u : Unicode) (raw : Value py.Float) (default : Bool)
    → convertible py bool_kind (some raw) ≡ true
    → (b : Bool) × (normalize_bool py u raw default ≡ ok b)
unfolding normalize_bool
normalize_bool_lem py u (boolean b) default h = (b, refl)
normalize_bool_lem py u (integer n) default h = (_, refl)
normalize_bool_lem py u (floating x) default h =
    let (n, e) = succeeds_lem (py.truncated x) h in
    (nonzero n, ap (λ r. r >>= (λ n. ok (nonzero n))) e)
normalize_bool_lem py u (string s) default h = (_, refl)
normalize_bool_lem py u nothing default h = (_, refl)
normalize_bool_lem py u (object b t) default h = (_, refl)

pub normalize_int_lem :
    (py : Numbers) (raw : Value py.Float) (default : ℤ)
    → convertible py int_kind (some raw) ≡ true
    → (n : ℤ) × (normalize_int py raw default ≡ ok n)
unfolding normalize_int to_int
normalize_int_lem py (boolean b) default h = (_, refl)
normalize_int_lem py (integer n) default h = (_, refl)
normalize_int_lem py (floating x) default h =
    let (n, e) = succeeds_lem (py.truncated x) h in (n, ap (λ r. recover default r) e)
normalize_int_lem py (string s) default h = elim (Option-cases (py.int_of_text s)) [
  | inl e ↦ (default, rw e)
  | inr (n, e) ↦ (n, rw e)
]
normalize_int_lem py nothing default h = (_, refl)
normalize_int_lem py (object b t) default h = (_, refl)

pub normalize_float_lem :
    (py : Numbers) (raw : Value py.Float) (default : py.Float)
    → convertible py float_kind (some raw) ≡ true
    → (x : py.Float) × (normalize_float py raw default ≡ ok x)
unfolding normalize_float to_float
normalize_float_lem py (boolean b) default h = (_, refl)
normalize_float_lem py (integer n) default h = elim (Option-cases (py.of_int n)) [
  | inl e ↦ cc
  | inr (x, e) ↦ (x, rw e)
]
normalize_float_lem py (floating x) default h = (x, refl)
normalize_float_lem py (string s) default h = elim (Option-cases (py.float_of_text s)) [
  | inl e ↦ (default, rw e)
  | inr (x, e) ↦ (x, rw e)
]
normalize_float_lem py nothing default h = (_, refl)
normalize_float_lem py (object b t) default h = (_, refl)

pub normalize_field_lem :
    (py : Numbers) (u : Unicode) (kind : Kind) (d : Dict py.Float) (raw old : Value py.Float)
    → (kind ≡ name_kind → fits name_kind (d (text "name")) ≡ true)
    → ready kind (some old) ≡ true
    → convertible py kind (some raw) ≡ true
    → Reads py kind (normalize_field py u kind d raw old)
unfolding normalize_field item to_int to_float
normalize_field_lem py u name_kind d raw old named r h =
    let (s, e, nonempty) = named_text (d (text "name")) (named refl) in
    (string (normalize_name py raw s), rw e, normalize_name-fits py raw s nonempty)
normalize_field_lem py u bool_kind d raw old named r h =
    let (b, e) = normalize_bool_lem py u raw (to_bool py old) h in (boolean b, rw e, refl)
normalize_field_lem py u float_kind d raw (boolean b) named r h =
    let (x, e) = normalize_float_lem py raw (py.decimal (if b then 1 else 0) 0) h in
    (floating x, rw e, refl)
normalize_field_lem py u float_kind d raw (floating y) named r h =
    let (x, e) = normalize_float_lem py raw y h in (floating x, rw e, refl)
normalize_field_lem py u float_kind d raw (integer n) named r h = cc
normalize_field_lem py u float_kind d raw (string s) named r h = cc
normalize_field_lem py u float_kind d raw nothing named r h = cc
normalize_field_lem py u float_kind d raw (object b t) named r h = cc
normalize_field_lem py u int_kind d raw (integer m) named r h =
    let (n, e) = normalize_int_lem py raw m h in (integer n, rw e, refl)
normalize_field_lem py u int_kind d raw (boolean b) named r h = cc
normalize_field_lem py u int_kind d raw (floating x) named r h = cc
normalize_field_lem py u int_kind d raw (string s) named r h = cc
normalize_field_lem py u int_kind d raw nothing named r h = cc
normalize_field_lem py u int_kind d raw (object b t) named r h = cc
