-- ===== src/Tests/LcdData.antt =====
-- server/communication/data_structures_lcd_controller.py at concrete presets: one with an id and a
-- name, a number as a text and a list where a flag should be, and six of them.
use gaggia_esp_c3_mini_serve.Prelude.{
  ℕ, List, [], ◌∷◌, ◌≡◌, refl, Option, none, some, true, false, All, length, get_or, ◌≤◌, replicate,
}
use gaggia_esp_c3_mini_serve.Python.Text.{text, eq_text, ascii_only}
use gaggia_esp_c3_mini_serve.Python.Integer.{ℤ, pos, negsuc}
use gaggia_esp_c3_mini_serve.Python.Object.{
  ok, Dict, dict, mem, Value, boolean, floating, nothing, string, integer, object,
}
use gaggia_esp_c3_mini_serve.Python.Dict.{all_of, all_of-mem}
use gaggia_esp_c3_mini_serve.LcdData.Fields.{
  profile_field_order, settings_field_order, profile_kind, settings_kind, int_kind, float_kind,
}
use gaggia_esp_c3_mini_serve.LcdData.Dataset.{
  normalize_lcd_profile, normalize_lcd_settings, or_empty,
}
use gaggia_esp_c3_mini_serve.LcdData.Payload.{
  Dataset, as_raw, build_lcd_dataset_from_presets, encode_lcd_dataset_payload, payload_text,
}
use gaggia_esp_c3_mini_serve.LcdData.Summary.{
  ProfileSummary, build_profile_summaries_from_presets, BrewHomeState, scaled,
  brew_home_state_to_legacy_int_slots,
}
use gaggia_esp_c3_mini_serve.LcdData.Typed.{convertible}
use gaggia_esp_c3_mini_serve.LcdData.Loop.{Convertible}
use gaggia_esp_c3_mini_serve.LcdData.Named.{IsProfile}
use gaggia_esp_c3_mini_serve.LcdData.Normal.{normalize_lcd_profile-IsProfile}
use gaggia_esp_c3_mini_serve.LcdData.Settings.{IsSettings, normalize_lcd_settings-IsSettings}
use gaggia_esp_c3_mini_serve.LcdData.Encoding.{
  IsPreset, IsDataset, build_lcd_dataset_from_presets-IsDataset,
  encode_lcd_dataset_payload-as_built,
}
use gaggia_esp_c3_mini_serve.LcdData.Summaries.{
  IsSource, IsSummary, build_profile_summaries_from_presets-length,
}
use gaggia_esp_c3_mini_serve.LcdData.Slots.{brew_home_state_to_legacy_int_slots-le}
use gaggia_esp_c3_mini_serve.Tests.Numbers.{
  Milli, milli, nan, infinity, thousandths, wholes, wholes-IsRounding,
}

abbrev pub lungo : Dict Milli
unfolding dict text eq_text
lungo = dict (
    (text "id", integer (pos 3))
    ∷ (text "name", string (text "Lungo"))
    ∷ (text "setpoint", string (text "905"))
    ∷ (text "tp_state", object true (text "[1]"))
    ∷ [])

lungo_id : convertible thousandths int_kind (lungo (text "id")) ≡ true
unfolding lungo dict text eq_text
lungo_id = refl

lungo_fields : Convertible thousandths profile_kind profile_field_order lungo
unfolding lungo dict text eq_text all_of profile_field_order profile_kind mem
lungo_fields =
    all_of-mem (λ key. convertible thousandths (profile_kind key) (lungo key)) profile_field_order
      refl

normalize_lcd_profile-IsProfile_example :
    (d : Dict Milli) × (normalize_lcd_profile thousandths ascii_only lungo 0 ≡ ok d) × IsProfile d
normalize_lcd_profile-IsProfile_example =
    normalize_lcd_profile-IsProfile thousandths ascii_only lungo 0 lungo_id lungo_fields

-- The active profile is out of range.
abbrev pub settings : Dict Milli
unfolding dict text eq_text
settings = dict ((text "active_profile", integer (pos 9)) ∷ [])

pub settings_read :
    Convertible thousandths settings_kind settings_field_order
      (or_empty thousandths ascii_only (some settings))
unfolding settings dict text eq_text all_of settings_field_order settings_kind mem or_empty
settings_read =
    all_of-mem (λ key. convertible thousandths (settings_kind key) (settings key))
      settings_field_order refl

normalize_lcd_settings-IsSettings_example :
    (d : Dict Milli) × (normalize_lcd_settings thousandths ascii_only (some settings) ≡ ok d)
    × IsSettings d
normalize_lcd_settings-IsSettings_example =
    normalize_lcd_settings-IsSettings thousandths ascii_only (some settings) settings_read

lungo-IsPreset : IsPreset thousandths lungo
lungo-IsPreset = record { id = lungo_id; fields = lungo_fields }

abbrev pub presets : List (Dict Milli)
presets = replicate 6 lungo

presets-IsPreset : All (λ p. IsPreset thousandths p) presets
presets-IsPreset = let p = lungo-IsPreset in (p, (p, (p, (p, (p, (p, tt))))))

build_lcd_dataset_from_presets-IsDataset_example :
    (d : Dataset Milli) × (build_lcd_dataset_from_presets thousandths ascii_only presets
        (some settings)
        (pos 12)
      ≡ ok d)
    × (d.version ≡ pos 12)
    × IsDataset d
build_lcd_dataset_from_presets-IsDataset_example =
    build_lcd_dataset_from_presets-IsDataset thousandths ascii_only presets (some settings) (pos 12)
      presets-IsPreset settings_read

encode_lcd_dataset_payload-as_built_example :
    (d : Dataset Milli) × (build_lcd_dataset_from_presets thousandths ascii_only presets
        (some settings)
        (pos 12)
      ≡ ok d)
    × (encode_lcd_dataset_payload thousandths ascii_only (as_raw d) ≡ payload_text thousandths d)
encode_lcd_dataset_payload-as_built_example =
    encode_lcd_dataset_payload-as_built thousandths ascii_only presets (some settings) (pos 12)
      presets-IsPreset settings_read

-- An infinite water level and a weight that is a NaN
abbrev reading : BrewHomeState Milli
reading = record {
  profile_id = pos 3;
  brew_elapsed_ms = pos 1500;
  brew_duration_ms = pos 30000;
  target_temperature_c = milli 93;
  target_pressure_bar = milli 9;
  target_flow_ml_s = milli 2;
  live_pressure_bar = milli 30;
  live_temperature_c = milli 92;
  live_water_level_pct = infinity;
  live_weight_g = nan;
  shot_target_preview_g = milli 36;
  warmup_on = true;
  steam_on = false;
  uptime_minutes = milli 4;
}

brew_home_state_to_legacy_int_slots-le_example :
    (slots : List ℤ) × (water weight uptime shot_target live_pressure : ℕ)
    × (brew_home_state_to_legacy_int_slots wholes reading ≡ ok slots)
    × (length slots ≡ 20)
    × (get_or slots 7 (pos 0) ≡ pos water)
    × (water ≤ 1000)
    × (get_or slots 8 (pos 0) ≡ pos weight)
    × (weight ≤ 20000)
    × (get_or slots 11 (pos 0) ≡ pos uptime)
    × (uptime ≤ 1000000)
    × (get_or slots 12 (pos 0) ≡ pos shot_target)
    × (shot_target ≤ 20000)
    × (get_or slots 13 (pos 0) ≡ pos live_pressure)
    × (live_pressure ≤ 20000)
unfolding scaled
brew_home_state_to_legacy_int_slots-le_example =
    brew_home_state_to_legacy_int_slots-le wholes wholes-IsRounding reading (pos 9000) (pos 2000)
      (pos 93000) refl refl refl

-- Each value goes to a number of the examples.
all_convertible : (o : Option (Value Milli)) → convertible thousandths float_kind o ≡ true
all_convertible none = refl
all_convertible (some (boolean b)) = refl
all_convertible (some (integer (pos n))) = refl
all_convertible (some (integer (negsuc n))) = refl
all_convertible (some (floating x)) = refl
all_convertible (some (string s)) = refl
all_convertible (some nothing) = refl
all_convertible (some (object b t)) = refl

lungo-IsSource : IsSource thousandths ascii_only lungo
lungo-IsSource = record {
  preset = lungo-IsPreset;
  pressure = all_convertible _;
  flow = all_convertible _;
  setpoint = λ index d e. all_convertible _;
  shot = all_convertible _;
}

pub presets-IsSource : All (λ p. IsSource thousandths ascii_only p) presets
presets-IsSource = let p = lungo-IsSource in (p, (p, (p, (p, (p, (p, tt))))))

build_profile_summaries_from_presets-length_example :
    (ss : List (ProfileSummary Milli)) × (build_profile_summaries_from_presets thousandths
        ascii_only presets
      ≡ ok ss)
    × (length ss ≡ 5)
    × All (λ s. IsSummary s) ss
build_profile_summaries_from_presets-length_example =
    build_profile_summaries_from_presets-length thousandths ascii_only presets presets-IsSource
