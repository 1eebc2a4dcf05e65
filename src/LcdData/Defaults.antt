-- ===== src/LcdData/Defaults.antt =====
-- server/communication/data_structures_lcd_controller.py: the profile and the settings that the
-- dataset holds where its source gives nothing.
use gaggia_esp_c3_mini_serve.Prelude.{List, ℕ, ◌+◌, [], ◌∷◌, true, false}
use gaggia_esp_c3_mini_serve.Python.Text.{Text, text}
use gaggia_esp_c3_mini_serve.LcdData.Normalize.{profile_name, normalize_name}
use gaggia_esp_c3_mini_serve.Python.Integer.{pos}
use gaggia_esp_c3_mini_serve.Python.Object.{
  Numbers, Value, boolean, integer, floating, string, Dict, dict,
}

module _ (py : Numbers) where
  unfoldable pub default_profile_items : ℕ → List (Text × Value py.Float)
  default_profile_items index =
      (text "id", integer (pos (index + 1)))
      ∷ (
        text "name",
        string (
            normalize_name py (string (profile_name (pos (index + 1))))
              (profile_name (pos (index + 1)))),
      )
      ∷ (text "preinfusion_state", boolean true)
      ∷ (text "preinfusion_flow_state", boolean false)
      ∷ (text "preinfusion_sec", integer (pos 0))
      ∷ (text "preinfusion_bar", floating (py.decimal 0 0))
      ∷ (text "preinfusion_flow_vol", floating (py.decimal 0 0))
      ∷ (text "preinfusion_flow_time", integer (pos 0))
      ∷ (text "preinfusion_flow_pressure_target", floating (py.decimal 0 0))
      ∷ (text "preinfusion_pressure_flow_target", floating (py.decimal 0 0))
      ∷ (text "preinfusion_filled", floating (py.decimal 0 0))
      ∷ (text "preinfusion_pressure_above", boolean false)
      ∷ (text "preinfusion_weight_above", floating (py.decimal 0 0))
      ∷ (text "soak_state", boolean false)
      ∷ (text "soak_time_pressure", integer (pos 0))
      ∷ (text "soak_time_flow", integer (pos 0))
      ∷ (text "soak_keep_pressure", floating (py.decimal 0 0))
      ∷ (text "soak_keep_flow", floating (py.decimal 0 0))
      ∷ (text "soak_below_pressure", floating (py.decimal 0 0))
      ∷ (text "soak_above_pressure", floating (py.decimal 0 0))
      ∷ (text "soak_above_weight", floating (py.decimal 0 0))
      ∷ (text "preinfusion_ramp", integer (pos 0))
      ∷ (text "preinfusion_ramp_slope", integer (pos 0))
      ∷ (text "tp_state", boolean true)
      ∷ (text "tp_type", boolean false)
      ∷ (text "tp_profiling_start", floating (py.decimal 0 0))
      ∷ (text "tp_profiling_finish", floating (py.decimal 0 0))
      ∷ (text "tp_profiling_hold", integer (pos 0))
      ∷ (text "tp_profiling_hold_limit", floating (py.decimal 0 0))
      ∷ (text "tp_profiling_slope", integer (pos 0))
      ∷ (text "tp_profiling_slope_shape", integer (pos 0))
      ∷ (text "tp_profiling_flow_restriction", floating (py.decimal 0 0))
      ∷ (text "tf_profile_start", floating (py.decimal 0 0))
      ∷ (text "tf_profile_end", floating (py.decimal 0 0))
      ∷ (text "tf_profile_hold", integer (pos 0))
      ∷ (text "tf_profile_hold_limit", floating (py.decimal 0 0))
      ∷ (text "tf_profile_slope", integer (pos 0))
      ∷ (text "tf_profile_slope_shape", integer (pos 0))
      ∷ (text "tf_profiling_pressure_restriction", floating (py.decimal 0 0))
      ∷ (text "profiling_state", boolean true)
      ∷ (text "mf_profile_state", boolean true)
      ∷ (text "mp_profiling_start", floating (py.decimal 0 0))
      ∷ (text "mp_profiling_finish", floating (py.decimal 0 0))
      ∷ (text "mp_profiling_slope", integer (pos 0))
      ∷ (text "mp_profiling_slope_shape", integer (pos 0))
      ∷ (text "mp_profiling_flow_restriction", floating (py.decimal 0 0))
      ∷ (text "mf_profile_start", floating (py.decimal 0 0))
      ∷ (text "mf_profile_end", floating (py.decimal 0 0))
      ∷ (text "mf_profile_slope", integer (pos 0))
      ∷ (text "mf_profile_slope_shape", integer (pos 0))
      ∷ (text "mf_profiling_pressure_restriction", floating (py.decimal 0 0))
      ∷ (text "setpoint", integer (pos 930))
      ∷ (text "stop_on_weight_state", boolean true)
      ∷ (text "shot_dose", floating (py.decimal 18 0))
      ∷ (text "shot_stop_on_custom_weight", floating (py.decimal 36 0))
      ∷ (text "shot_preset", integer (pos 0))
      ∷ []

  unfoldable pub default_profile : ℕ → Dict py.Float
  unfolding default_profile_items
  default_profile index = dict (default_profile_items index)

  unfoldable pub default_settings_items : List (Text × Value py.Float)
  default_settings_items =
      (text "steam_setpoint", integer (pos 1450))
      ∷ (text "offset_temp", integer (pos 0))
      ∷ (text "hpwr", integer (pos 1000))
      ∷ (text "main_divider", integer (pos 100))
      ∷ (text "brew_divider", integer (pos 100))
      ∷ (text "active_profile", integer (pos 1))
      ∷ (text "power_line_frequency", integer (pos 50))
      ∷ (text "lcd_sleep", integer (pos 30))
      ∷ (text "warmup_state", boolean true)
      ∷ (text "home_on_shot_finish", boolean false)
      ∷ (text "brew_delta_state", boolean false)
      ∷ (text "basket_prefill", boolean false)
      ∷ (text "scales_f1", integer (pos 1))
      ∷ (text "scales_f2", integer (pos 1))
      ∷ (text "pump_flow_at_zero", floating (py.decimal 0 0))
      ∷ (text "led_state", boolean true)
      ∷ (text "led_disco", boolean false)
      ∷ (text "led_r", integer (pos 255))
      ∷ (text "led_g", integer (pos 190))
      ∷ (text "led_b", integer (pos 120))
      ∷ []

  unfoldable pub default_settings : Dict py.Float
  unfolding default_settings_items
  default_settings = dict default_settings_items
