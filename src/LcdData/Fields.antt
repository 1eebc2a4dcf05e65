-- ===== src/LcdData/Fields.antt =====
-- server/communication/data_structures_lcd_controller.py: the fields of the LCD dataset, their
-- order in the payload, the type of each and its default.
use gaggia_esp_c3_mini_serve.Prelude.{ℕ, List, [], ◌∷◌, if◌then◌else◌}
use gaggia_esp_c3_mini_serve.Python.Text.{Text, text, eq_text}
use gaggia_esp_c3_mini_serve.Python.Object.{mem}

abbrev pub schema_version : ℕ
schema_version = 12

abbrev pub max_profiles : ℕ
max_profiles = 5

abbrev pub profile_name_length : ℕ
profile_name_length = 25

unfoldable pub settings_field_order : List Text
unfolding text
settings_field_order =
    text "steam_setpoint"
    ∷ text "offset_temp"
    ∷ text "hpwr"
    ∷ text "main_divider"
    ∷ text "brew_divider"
    ∷ text "active_profile"
    ∷ text "power_line_frequency"
    ∷ text "lcd_sleep"
    ∷ text "warmup_state"
    ∷ text "home_on_shot_finish"
    ∷ text "brew_delta_state"
    ∷ text "basket_prefill"
    ∷ text "scales_f1"
    ∷ text "scales_f2"
    ∷ text "pump_flow_at_zero"
    ∷ text "led_state"
    ∷ text "led_disco"
    ∷ text "led_r"
    ∷ text "led_g"
    ∷ text "led_b"
    ∷ []

unfoldable pub profile_field_order : List Text
unfolding text
profile_field_order =
    text "name"
    ∷ text "preinfusion_state"
    ∷ text "preinfusion_flow_state"
    ∷ text "preinfusion_sec"
    ∷ text "preinfusion_bar"
    ∷ text "preinfusion_flow_vol"
    ∷ text "preinfusion_flow_time"
    ∷ text "preinfusion_flow_pressure_target"
    ∷ text "preinfusion_pressure_flow_target"
    ∷ text "preinfusion_filled"
    ∷ text "preinfusion_pressure_above"
    ∷ text "preinfusion_weight_above"
    ∷ text "soak_state"
    ∷ text "soak_time_pressure"
    ∷ text "soak_time_flow"
    ∷ text "soak_keep_pressure"
    ∷ text "soak_keep_flow"
    ∷ text "soak_below_pressure"
    ∷ text "soak_above_pressure"
    ∷ text "soak_above_weight"
    ∷ text "preinfusion_ramp"
    ∷ text "preinfusion_ramp_slope"
    ∷ text "tp_state"
    ∷ text "tp_type"
    ∷ text "tp_profiling_start"
    ∷ text "tp_profiling_finish"
    ∷ text "tp_profiling_hold"
    ∷ text "tp_profiling_hold_limit"
    ∷ text "tp_profiling_slope"
    ∷ text "tp_profiling_slope_shape"
    ∷ text "tp_profiling_flow_restriction"
    ∷ text "tf_profile_start"
    ∷ text "tf_profile_end"
    ∷ text "tf_profile_hold"
    ∷ text "tf_profile_hold_limit"
    ∷ text "tf_profile_slope"
    ∷ text "tf_profile_slope_shape"
    ∷ text "tf_profiling_pressure_restriction"
    ∷ text "profiling_state"
    ∷ text "mf_profile_state"
    ∷ text "mp_profiling_start"
    ∷ text "mp_profiling_finish"
    ∷ text "mp_profiling_slope"
    ∷ text "mp_profiling_slope_shape"
    ∷ text "mp_profiling_flow_restriction"
    ∷ text "mf_profile_start"
    ∷ text "mf_profile_end"
    ∷ text "mf_profile_slope"
    ∷ text "mf_profile_slope_shape"
    ∷ text "mf_profiling_pressure_restriction"
    ∷ text "setpoint"
    ∷ text "stop_on_weight_state"
    ∷ text "shot_dose"
    ∷ text "shot_stop_on_custom_weight"
    ∷ text "shot_preset"
    ∷ []

unfoldable pub profile_bool_fields : List Text
unfolding text
profile_bool_fields =
    text "preinfusion_state"
    ∷ text "preinfusion_flow_state"
    ∷ text "soak_state"
    ∷ text "tp_state"
    ∷ text "tp_type"
    ∷ text "profiling_state"
    ∷ text "mf_profile_state"
    ∷ text "stop_on_weight_state"
    ∷ []

unfoldable pub settings_bool_fields : List Text
unfolding text
settings_bool_fields =
    text "warmup_state"
    ∷ text "home_on_shot_finish"
    ∷ text "brew_delta_state"
    ∷ text "basket_prefill"
    ∷ text "led_state"
    ∷ text "led_disco"
    ∷ []

unfoldable pub profile_float_fields : List Text
unfolding text
profile_float_fields =
    text "preinfusion_bar"
    ∷ text "preinfusion_flow_vol"
    ∷ text "preinfusion_flow_pressure_target"
    ∷ text "preinfusion_pressure_flow_target"
    ∷ text "preinfusion_filled"
    ∷ text "preinfusion_pressure_above"
    ∷ text "preinfusion_weight_above"
    ∷ text "soak_keep_pressure"
    ∷ text "soak_keep_flow"
    ∷ text "soak_below_pressure"
    ∷ text "soak_above_pressure"
    ∷ text "soak_above_weight"
    ∷ text "tp_profiling_start"
    ∷ text "tp_profiling_finish"
    ∷ text "tp_profiling_hold_limit"
    ∷ text "tp_profiling_flow_restriction"
    ∷ text "tf_profile_start"
    ∷ text "tf_profile_end"
    ∷ text "tf_profile_hold_limit"
    ∷ text "tf_profiling_pressure_restriction"
    ∷ text "mp_profiling_start"
    ∷ text "mp_profiling_finish"
    ∷ text "mp_profiling_flow_restriction"
    ∷ text "mf_profile_start"
    ∷ text "mf_profile_end"
    ∷ text "mf_profiling_pressure_restriction"
    ∷ text "shot_dose"
    ∷ text "shot_stop_on_custom_weight"
    ∷ []

unfoldable pub settings_float_fields : List Text
unfolding text
settings_float_fields = text "pump_flow_at_zero" ∷ []

-- How the loops over the fields read a value: the branches of their `if` chains.
pub data Kind : Type 0 where
  name_kind bool_kind float_kind int_kind : Kind

unfoldable pub profile_kind : Text → Kind
unfolding mem profile_bool_fields profile_float_fields
profile_kind key =
    if eq_text key (text "name")
    then name_kind
    else if mem key profile_bool_fields
    then bool_kind
    else if mem key profile_float_fields
    then float_kind
    else int_kind

unfoldable pub settings_kind : Text → Kind
unfolding mem settings_bool_fields settings_float_fields
settings_kind key =
    if mem key settings_bool_fields
    then bool_kind
    else if mem key settings_float_fields
    then float_kind
    else int_kind
