-- ===== src/LcdData/Summary.antt =====
-- server/communication/data_structures_lcd_controller.py: the summaries of the profiles, and the 20
-- integers of the packet.
use gaggia_esp_c3_mini_serve.Prelude.{ℕ, ◌+◌, leb, if◌then◌else◌, List, [], ◌∷◌, take, Bool}
use gaggia_esp_c3_mini_serve.Python.Text.{Text, text, Unicode}
use gaggia_esp_c3_mini_serve.Python.Integer.{ℤ, pos, max_int}
use gaggia_esp_c3_mini_serve.Python.Object.{
  Result, ok, ◌>>=◌, Numbers, integer, floating, string, Dict, get, to_int, to_text,
}
use gaggia_esp_c3_mini_serve.LcdData.Fields.{max_profiles, profile_name_length}
use gaggia_esp_c3_mini_serve.LcdData.Normalize.{profile_name, normalize_float}
use gaggia_esp_c3_mini_serve.LcdData.Dataset.{normalize_lcd_profile}

pub record ProfileSummary (F : Type 0) : Type 0 where
  pub profile_id : ℤ
  pub profile_name : Text
  pub target_temperature_c : F
  pub target_pressure_bar : F
  pub target_flow_ml_s : F
  pub shot_target_g : F

pub record BrewHomeState (F : Type 0) : Type 0 where
  pub profile_id : ℤ
  pub brew_elapsed_ms : ℤ
  pub brew_duration_ms : ℤ
  pub target_temperature_c : F
  pub target_pressure_bar : F
  pub target_flow_ml_s : F
  pub live_pressure_bar : F
  pub live_temperature_c : F
  pub live_water_level_pct : F
  pub live_weight_g : F
  pub shot_target_preview_g : F
  pub warmup_on : Bool
  pub steam_on : Bool
  pub uptime_minutes : F

module _ (py : Numbers) (u : Unicode) where
  -- `_normalize_float(preset.get(key, v), _normalize_float(v, 0.0))` with `v` the normalized value
  -- of another field.
  unfoldable pub target : Dict py.Float → Text → Dict py.Float → Text → Result py.Float
  unfolding normalize_float get
  target preset key normalized other = do
    let v = get normalized other (floating (py.decimal 0 0))
    default ← normalize_float py v (py.decimal 0 0)
    normalize_float py (get preset key v) default

  unfoldable pub summarize : Dict py.Float → ℕ → ℕ → Result (ProfileSummary py.Float)
  unfolding normalize_lcd_profile get target to_int to_text
  summarize preset index made = do
    normalized ← normalize_lcd_profile py u preset index
    id ← to_int py (get normalized (text "id") (integer (pos (made + 1))))
    let name = to_text py (get normalized (text "name") (string (profile_name id)))
    setpoint ←
        normalize_float py (get normalized (text "setpoint") (floating (py.decimal 930 0)))
          (py.decimal 930 0)
    let temperature =
        if py.less (py.decimal 200 0) setpoint then py.div setpoint (py.decimal 10 0) else setpoint
    pressure ← target preset (text "target_pressure_bar") normalized (text "tp_profiling_finish")
    flow ← target preset (text "target_flow_ml_sec") normalized (text "mf_profile_end")
    shot ← target preset (text "shot_target_g") normalized (text "shot_stop_on_custom_weight")
    ok (record {
      profile_id = id;
      profile_name = take profile_name_length name;
      target_temperature_c = temperature;
      target_pressure_bar = pressure;
      target_flow_ml_s = flow;
      shot_target_g = shot;
    })

  -- The loop over the presets from `index` on, with `made` summaries before it.
  unfoldable pub summaries_from :
      List (Dict py.Float) → ℕ → ℕ → Result (List (ProfileSummary py.Float))
  unfolding summarize
  summaries_from [] index made = ok []
  summaries_from (preset ∷ presets) index made =
      let later = summaries_from presets (index + 1) (made + 1) in
      do
        summary ← summarize preset index made
        rest ← (if leb max_profiles (made + 1) then ok [] else later)
        ok (summary ∷ rest)

  unfoldable pub build_profile_summaries_from_presets :
      List (Dict py.Float) → Result (List (ProfileSummary py.Float))
  unfolding summaries_from
  build_profile_summaries_from_presets presets = summaries_from presets 0 0

module _ (py : Numbers) where
  -- `max(a, b)` and `min(a, b)`, which keep `a` if the comparison with `b` is false.
  unfoldable pub max_float : py.Float → py.Float → py.Float
  max_float a b = if py.less a b then b else a

  unfoldable pub min_float : py.Float → py.Float → py.Float
  min_float a b = if py.less b a then b else a

  -- `int(round(x * factor))`
  unfoldable pub scaled : py.Float → ℕ → Result ℤ
  scaled x factor = py.rounded (py.mul x (py.decimal factor 0))

  -- `int(round(max(0.0, min(limit, x)) * factor))`
  unfoldable pub scaled_within : ℕ → py.Float → ℕ → Result ℤ
  unfolding scaled max_float min_float
  scaled_within limit x factor =
      scaled (max_float (py.decimal 0 0) (min_float (py.decimal limit 0) x)) factor

  abbrev pub validity_mask : ℕ
  validity_mask = 31

  unfoldable pub brew_home_state_to_legacy_int_slots : BrewHomeState py.Float → Result (List ℤ)
  unfolding scaled scaled_within max_int
  brew_home_state_to_legacy_int_slots state = do
    pressure ← scaled state.target_pressure_bar 1000
    flow ← scaled state.target_flow_ml_s 1000
    temperature ← scaled state.target_temperature_c 1000
    water ← scaled_within 100 state.live_water_level_pct 10
    weight ← scaled_within 200 state.live_weight_g 100
    uptime ← scaled_within 100000 state.uptime_minutes 10
    shot_target ← scaled_within 200 state.shot_target_preview_g 100
    live_pressure ← scaled_within 20 state.live_pressure_bar 1000
    ok (
        pos 0
        ∷ state.profile_id
        ∷ max_int (pos 0) state.brew_elapsed_ms
        ∷ max_int (pos 0) state.brew_duration_ms
        ∷ pressure
        ∷ flow
        ∷ temperature
        ∷ water
        ∷ weight
        ∷ pos (if state.warmup_on then 1 else 0)
        ∷ pos (if state.steam_on then 1 else 0)
        ∷ uptime
        ∷ shot_target
        ∷ live_pressure
        ∷ pos validity_mask
        ∷ pos 0
        ∷ pos 0
        ∷ pos 0
        ∷ pos 0
        ∷ pos 0
        ∷ [])
