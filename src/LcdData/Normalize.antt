-- ===== src/LcdData/Normalize.antt =====
-- server/communication/data_structures_lcd_controller.py: the readings of one value, with a default
-- for a value of another type.
use gaggia_esp_c3_mini_serve.Prelude.{◌++◌, [], ◌∷◌, List, take, Bool}
use gaggia_esp_c3_mini_serve.Python.Text.{Text, text, strip, lower, Unicode, or_else}
use gaggia_esp_c3_mini_serve.Python.Integer.{ℤ, show_int}
use gaggia_esp_c3_mini_serve.Python.Object.{
  type_error, value_error, Result, ok, err, ◌>>=◌, Numbers, Value, boolean, integer, floating,
  string, nothing, object, Dict, get, item, set, mem, nonzero, to_int, to_float, to_bool, to_text,
}
use gaggia_esp_c3_mini_serve.LcdData.Fields.{
  Kind, name_kind, bool_kind, float_kind, int_kind, profile_name_length,
}

-- `f"Profile {n}"`
unfoldable pub profile_name : ℤ → Text
profile_name n = text "Profile " ++ show_int n

-- `except (TypeError, ValueError): return default_value`
abbrev pub recover {ℓ} : {A : Type ℓ} → A → Result A → Result A
recover default (ok a) = ok a
recover default (err type_error) = ok default
recover default (err value_error) = ok default
recover default (err e) = err e

unfoldable pub truths : List Text
truths = text "1" ∷ text "true" ∷ text "yes" ∷ text "on" ∷ []

module _ (py : Numbers) (u : Unicode) where
  unfoldable pub normalize_bool : Value py.Float → Bool → Result Bool
  unfolding mem truths
  normalize_bool (boolean b) default = ok b
  normalize_bool (integer n) default = ok (nonzero n)
  normalize_bool (floating x) default = do n ← py.truncated x; ok (nonzero n)
  normalize_bool (string s) default = ok (mem (lower u (strip s)) truths)
  normalize_bool nothing default = ok default
  normalize_bool (object b t) default = ok default

module _ (py : Numbers) where
  unfoldable pub normalize_int : Value py.Float → ℤ → Result ℤ
  normalize_int raw default = recover default (to_int py raw)

  unfoldable pub normalize_float : Value py.Float → py.Float → Result py.Float
  normalize_float raw default = recover default (to_float py raw)

  abbrev name_or : Value py.Float → Text → Text
  name_or nothing fallback = fallback
  name_or raw fallback = or_else (to_text py raw) fallback

  unfoldable pub normalize_name : Value py.Float → Text → Text
  normalize_name raw fallback = take profile_name_length (name_or raw fallback)

-- A value where a `str` is needed: every other value has no slices.
abbrev as_text : {F : Type 0} → Value F → Result Text
as_text (string s) = ok s
as_text _ = err type_error

module _ (py : Numbers) (u : Unicode) where
  -- The four branches of the loops over the fields; `old` is `normalized[key]`, which the loop
  -- reads first, and `raw` what the source has for it.
  unfoldable pub normalize_field :
      Kind → Dict py.Float → Value py.Float → Value py.Float → Result (Value py.Float)
  unfolding normalize_name normalize_bool normalize_float normalize_int to_int to_float to_bool item
  normalize_field name_kind normalized raw old = do
    held ← item normalized (text "name")
    fallback ← as_text held
    ok (string (normalize_name py raw fallback))
  normalize_field bool_kind normalized raw old = do
    b ← normalize_bool py u raw (to_bool py old)
    ok (boolean b)
  normalize_field float_kind normalized raw old = do
    default ← to_float py old
    x ← normalize_float py raw default
    ok (floating x)
  normalize_field int_kind normalized raw old = do
    default ← to_int py old
    n ← normalize_int py raw default
    ok (integer n)

  -- The loop over the fields `order`, each read as `kind` says.
  unfoldable pub normalize_fields :
      (Text → Kind) → List Text → Dict py.Float → Dict py.Float → Result (Dict py.Float)
  unfolding normalize_field get item set
  normalize_fields kind [] source normalized = ok normalized
  normalize_fields kind (key ∷ order) source normalized = do
    old ← item normalized key
    v ← normalize_field (kind key) normalized (get source key old) old
    normalize_fields kind order source (set key v normalized)
