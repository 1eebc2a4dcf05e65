-- ===== src/Downlink/Profiles.antt =====
-- server/sim/data_payload.py: the choice of a profile, and the operations that apply one.
use gaggia_esp_c3_mini_serve.Prelude.{
  ℕ, true, false, List, [], ◌∷◌, Option, none, some, if◌then◌else◌,
}
use gaggia_esp_c3_mini_serve.Python.Text.{Text, text}
use gaggia_esp_c3_mini_serve.Python.Integer.{ℤ, pos, max_int, eq_int}
use gaggia_esp_c3_mini_serve.Python.Object.{
  Result, ok, ◌>>=◌, Numbers, Value, integer, floating, string, Dict, dict, get, set, to_int,
  to_float, to_text, or_value,
}
use gaggia_esp_c3_mini_serve.LcdData.Summary.{max_float}
use gaggia_esp_c3_mini_serve.Downlink.State.{Manager, default_brew_packet_interval_ms}

abbrev pub default_brew_profile_id : ℕ
default_brew_profile_id = 1

unfoldable pub default_brew_profile_name : Text
default_brew_profile_name = text "Classic 9 Bar"

-- The values that a profile gives to the fields of the brew and of the Home page.
pub record Applied (F : Type 0) : Type 0 where
  pub id : ℤ
  pub name : Text
  pub pressure : F
  pub flow : F
  pub temperature : F
  pub time : F
  pub shot : F

-- `a if override is None else b`
abbrev if_unset {ℓ κ} : {A : Type ℓ} {B : Type κ} → Option A → B → B → B
if_unset none a b = a
if_unset (some x) a b = b

module _ (py : Numbers) where
  -- The profile that stands in for an empty catalog. `int(93.0 * 10.0)` is 930.
  unfoldable pub fallback_profile : Dict py.Float
  unfolding default_brew_profile_name dict
  fallback_profile = dict (
      (text "id", integer (pos default_brew_profile_id))
      ∷ (text "name", string default_brew_profile_name)
      ∷ (text "setpoint", integer (pos 930))
      ∷ (text "target_temperature_c", floating (py.decimal 93 0))
      ∷ (text "target_pressure_bar", floating (py.decimal 9 0))
      ∷ (text "target_flow_ml_sec", floating (py.decimal 22 1))
      ∷ (text "brew_time_sec", floating (py.decimal 30 0))
      ∷ (text "preinfusion_seconds", floating (py.decimal 0 0))
      ∷ (text "preinfusion_sec", integer (pos 0))
      ∷ (text "shot_target_g", floating (py.decimal 36 0))
      ∷ (text "shot_stop_on_custom_weight", floating (py.decimal 36 0))
      ∷ [])

  -- `int(profile.get("id", 0))`
  unfoldable pub profile_id : Dict py.Float → Result ℤ
  unfolding to_int get
  profile_id profile = to_int py (get profile (text "id") (integer (pos 0)))

  -- The loop that looks for `desired`; `first` is what stands behind it.
  unfoldable pub find_profile : ℤ → Dict py.Float → List (Dict py.Float) → Result (Dict py.Float)
  unfolding profile_id
  find_profile desired first [] = ok first
  find_profile desired first (profile ∷ presets) =
      let later = find_profile desired first presets in
      do id ← profile_id profile; (if eq_int id desired then ok profile else later)

  unfoldable pub resolve_profile : Option ℤ → Manager py.Float → Result (Dict py.Float)
  unfolding find_profile fallback_profile
  resolve_profile requested m = elim m.profile_presets [
    | [] ↦ ok fallback_profile
    | (first ∷ presets) ↦
        find_profile (or_value requested m.selected_profile_id) first (first ∷ presets)
  ]

  -- `float(profile.get(key, default))`
  unfoldable pub float_of : Dict py.Float → Text → Value py.Float → Result py.Float
  unfolding to_float get
  float_of profile key default = to_float py (get profile key default)

  -- The conversions of `_apply_profile_locked`, in their order
  unfoldable pub read_profile : Dict py.Float → Manager py.Float → Result (Applied py.Float)
  unfolding float_of to_int to_text get default_brew_profile_name
  read_profile profile m = do
    id ← to_int py (get profile (text "id") (integer (pos default_brew_profile_id)))
    let name = to_text py (get profile (text "name") (string default_brew_profile_name))
    pressure ←
        float_of profile (text "target_pressure_bar")
          (get profile (text "tp_profiling_finish") (floating (py.decimal 9 0)))
    flow ←
        float_of profile (text "target_flow_ml_sec")
          (get profile (text "mf_profile_end") (floating (py.decimal 22 1)))
    setpoint_deci_c ←
        float_of profile (text "setpoint") (floating (py.mul (py.decimal 93 0) (py.decimal 10 0)))
    temperature ←
        float_of profile (text "target_temperature_c")
          (floating (py.div setpoint_deci_c (py.decimal 10 0)))
    time ← float_of profile (text "brew_time_sec") (floating (py.decimal 30 0))
    let default_shot = get profile (text "shot_stop_on_custom_weight") (floating (py.decimal 36 0))
    shot ←
        if_unset m.overrides.shot_target_g (float_of profile (text "shot_target_g") default_shot)
          (ok m.home.shot_target_g)
    ok (record {
      id = id;
      name = name;
      pressure = pressure;
      flow = flow;
      temperature = temperature;
      time = time;
      shot = shot;
    })

  unfoldable pub applied : Applied py.Float → Manager py.Float → Manager py.Float
  unfolding set max_float max_int
  applied a m = record m {
    selected_profile_id = a.id;
    selected_profile_name = a.name;
    brew = record m.brew {
      target_pressure_bar = a.pressure;
      target_flow_ml_sec = a.flow;
      target_temperature_c = a.temperature;
      time_sec = max_float py (py.decimal 1 0) a.time;
    };
    home = record m.home {
      shot_target_g = a.shot;
      temperature_c = if_unset m.overrides.temperature_c a.temperature m.home.temperature_c;
    };
    lcd_settings = set (text "active_profile") (integer (max_int (pos 1) a.id)) m.lcd_settings;
  }

  -- What a failing conversion leaves half assigned is not modelled: the state is lost with it.
  unfoldable pub apply_profile : Dict py.Float → Manager py.Float → Result (Manager py.Float)
  unfolding read_profile applied
  apply_profile profile m = do a ← read_profile profile m; ok (applied a m)

  unfoldable pub resolve_and_apply : Option ℤ → Manager py.Float → Result (Manager py.Float)
  unfolding resolve_profile apply_profile
  resolve_and_apply requested m = do profile ← resolve_profile requested m; apply_profile profile m

  unfoldable pub select_profile : Option ℤ → Manager py.Float → Result (Manager py.Float)
  unfolding resolve_and_apply
  select_profile requested m = do
    m ← resolve_and_apply requested m
    ok (record m { last_control_event = text "ProfileSelection" })

  -- The interval that the caller passes is deleted unread.
  unfoldable pub start_brew :
      py.Float → Option ℤ → Option ℕ → Manager py.Float → Result (Manager py.Float)
  unfolding resolve_and_apply
  start_brew now requested packet_interval_ms m = do
    m ← resolve_and_apply requested m
    ok (record m {
      packet_interval_ms = default_brew_packet_interval_ms;
      overrides = record m.overrides { weight_g = none; water_level_pct = none; warmup = none };
      brew = record m.brew { active = true; started_monotonic = now; elapsed_sec = py.decimal 0 0 };
      simulation_enabled = false;
      last_control_event = text "StartBrew";
    })
