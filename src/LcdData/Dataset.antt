-- ===== src/LcdData/Dataset.antt =====
-- server/communication/data_structures_lcd_controller.py: `normalize_lcd_profile`,
-- `normalize_lcd_settings` and the dataset that they make.
use gaggia_esp_c3_mini_serve.Prelude.{ℕ, Option, none, some}
use gaggia_esp_c3_mini_serve.Python.Text.{text, Unicode}
use gaggia_esp_c3_mini_serve.Python.Integer.{pos, max_int, min_int}
use gaggia_esp_c3_mini_serve.Python.Object.{
  Result, ok, ◌>>=◌, Numbers, integer, string, Dict, get, item, set, to_int,
}
use gaggia_esp_c3_mini_serve.LcdData.Fields.{
  profile_field_order, settings_field_order, profile_kind, settings_kind, max_profiles,
}
use gaggia_esp_c3_mini_serve.LcdData.Normalize.{
  profile_name, normalize_name, normalize_int, normalize_fields,
}
use gaggia_esp_c3_mini_serve.LcdData.Defaults.{default_profile, default_settings}

module _ (py : Numbers) (u : Unicode) where
  -- The profile behind the two assignments that precede the loop.
  unfoldable pub named_profile : Dict py.Float → ℕ → Result (Dict py.Float)
  unfolding normalize_int normalize_name default_profile get set item to_int max_int
  named_profile profile index = do
    let normalized = default_profile py index
    old_id ← item normalized (text "id")
    default ← to_int py old_id
    id ← normalize_int py (get profile (text "id") old_id) default
    let id = max_int (pos 1) id
    old_name ← item normalized (text "name")
    let name = normalize_name py (get profile (text "name") old_name) (profile_name id)
    ok (set (text "name") (string name) (set (text "id") (integer id) normalized))

  unfoldable pub normalize_lcd_profile : Dict py.Float → ℕ → Result (Dict py.Float)
  unfolding normalize_fields named_profile
  normalize_lcd_profile profile index = do
    normalized ← named_profile profile index
    normalize_fields py u profile_kind profile_field_order profile normalized

  -- `settings or {}`: an absent dict has no values.
  unfoldable pub or_empty : Option (Dict py.Float) → Dict py.Float
  or_empty none = λ key. none
  or_empty (some settings) = settings

  unfoldable pub normalize_lcd_settings : Option (Dict py.Float) → Result (Dict py.Float)
  unfolding normalize_fields or_empty item set to_int max_int min_int
  normalize_lcd_settings settings = do
    normalized ←
        normalize_fields py u settings_kind settings_field_order (or_empty settings)
          (default_settings py)
    held ← item normalized (text "active_profile")
    active ← to_int py held
    ok (
        set (text "active_profile") (integer (max_int (pos 1) (min_int (pos max_profiles) active)))
          normalized)
