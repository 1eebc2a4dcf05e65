-- ===== src/LcdData/Payload.antt =====
-- server/communication/data_structures_lcd_controller.py: `build_lcd_dataset_from_presets` and
-- `encode_lcd_dataset_payload`.
use gaggia_esp_c3_mini_serve.Prelude.{
  ℕ, zero, suc, ◌+◌, ltb, if◌then◌else◌, List, [], ◌∷◌, ◌++◌, Option, none, some, length, get_or,
  map,
}
use gaggia_esp_c3_mini_serve.Python.Text.{Text, text, show, Unicode}
use gaggia_esp_c3_mini_serve.Python.Integer.{ℤ, pos, show_int}
use gaggia_esp_c3_mini_serve.Python.Object.{
  Result, ok, ◌>>=◌, Numbers, Value, boolean, integer, floating, string, nothing, object, Dict, get,
  item, to_text,
}
use gaggia_esp_c3_mini_serve.LcdData.Fields.{
  profile_field_order, settings_field_order, schema_version, max_profiles,
}
use gaggia_esp_c3_mini_serve.LcdData.Normalize.{normalize_int}
use gaggia_esp_c3_mini_serve.LcdData.Defaults.{default_profile}
use gaggia_esp_c3_mini_serve.LcdData.Dataset.{normalize_lcd_profile, normalize_lcd_settings}

pub record Dataset (F : Type 0) : Type 0 where
  pub version : ℤ
  pub settings : Dict F
  pub profiles : List (Dict F)

-- What `encode_lcd_dataset_payload` reads of a dict that should be a dataset: `settings` if that is
-- a dict, and the dicts of the list `profiles`, which are none if it is no list.
pub record RawDataset (F : Type 0) : Type 0 where
  pub version : Option (Value F)
  pub settings : Option (Dict F)
  pub profiles : List (Dict F)

-- `sep.join(parts)`
unfoldable pub join : ℕ → List Text → Text
join sep [] = []
join sep (part ∷ []) = part
join sep (part ∷ (next ∷ parts)) = part ++ sep ∷ join sep (next ∷ parts)

module _ (py : Numbers) (u : Unicode) where
  -- The loop over `range(LCD_CONTROLLER_MAX_PROFILES)`, of which `n` rounds are left.
  unfoldable pub build_profiles : ℕ → ℕ → List (Dict py.Float) → Result (List (Dict py.Float))
  unfolding normalize_lcd_profile
  build_profiles zero index presets = ok []
  build_profiles (suc n) index presets = do
    let source =
        if ltb index (length presets)
        then get_or presets index (default_profile py index)
        else default_profile py index
    profile ← normalize_lcd_profile py u source index
    profiles ← build_profiles n (index + 1) presets
    ok (profile ∷ profiles)

  unfoldable pub build_lcd_dataset_from_presets :
      List (Dict py.Float) → Option (Dict py.Float) → ℤ → Result (Dataset py.Float)
  unfolding build_profiles normalize_lcd_settings
  build_lcd_dataset_from_presets presets settings version = do
    profiles ← build_profiles max_profiles 0 presets
    settings ← normalize_lcd_settings py u settings
    ok (record { version = version; settings = settings; profiles = profiles })

module _ (py : Numbers) where
  unfoldable pub format_payload_scalar : Value py.Float → Text
  unfolding to_text
  format_payload_scalar (boolean b) = if b then text "1" else text "0"
  format_payload_scalar (integer n) = show_int n
  format_payload_scalar (floating x) = py.show_general x
  format_payload_scalar (string s) = s
  format_payload_scalar nothing = to_text py nothing
  format_payload_scalar (object b t) = to_text py (object b t)

  unfoldable pub settings_fields : List Text → Dict py.Float → Result (List Text)
  unfolding format_payload_scalar item
  settings_fields [] settings = ok []
  settings_fields (key ∷ order) settings = do
    v ← item settings key
    fields ← settings_fields order settings
    ok (format_payload_scalar v ∷ fields)

  unfoldable pub profile_fields : Dict py.Float → List Text
  unfolding format_payload_scalar get
  profile_fields profile =
      format_payload_scalar (get profile (text "id") (integer (pos 1)))
      ∷ map (λ key. format_payload_scalar (get profile key (string []))) profile_field_order

  -- The text that a dataset becomes, once it is normalized.
  unfoldable pub payload_text : Dataset py.Float → Result Text
  unfolding settings_fields profile_fields join
  payload_text dataset = do
    fields ← settings_fields settings_field_order dataset.settings
    ok (
        text "LCDProtoProfileDataset;schema="
        ++ show_int dataset.version
        ++ text ";count="
        ++ show (length dataset.profiles)
        ++ text ";settings="
        ++ join 44 fields
        ++ text ";profiles="
        ++ join 124 (map (λ profile. join 44 (profile_fields profile)) dataset.profiles))

-- `dataset.get("schema_version", LCD_CONTROLLER_DATA_SCHEMA_VERSION)`
abbrev given_version : {F : Type 0} → Option (Value F) → Value F
given_version none = integer (pos schema_version)
given_version (some v) = v

module _ (py : Numbers) (u : Unicode) where
  unfoldable pub encode_lcd_dataset_payload : RawDataset py.Float → Result Text
  unfolding build_lcd_dataset_from_presets payload_text normalize_lcd_settings normalize_int
  encode_lcd_dataset_payload dataset = do
    version ← normalize_int py (given_version dataset.version) (pos schema_version)
    once ← normalize_lcd_settings py u dataset.settings
    normal ← build_lcd_dataset_from_presets py u dataset.profiles (some once) version
    payload_text py (record normal { settings = once })

-- A dataset that the program built, as `encode_lcd_dataset_payload` reads it.
abbrev pub as_raw : {F : Type 0} → Dataset F → RawDataset F
as_raw d = record {
  version = some (integer d.version);
  settings = some d.settings;
  profiles = d.profiles;
}
