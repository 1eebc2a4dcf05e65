-- ===== src/Downlink/Controls.antt =====
-- server/sim/data_payload.py: `configure_sine` and `configure_lcd_home_data`.
use gaggia_esp_c3_mini_serve.Prelude.{
  ℕ, Bool, List, [], ◌∷◌, Option, none, some, if◌then◌else◌, leb,
}
use gaggia_esp_c3_mini_serve.Python.Text.{text}
use gaggia_esp_c3_mini_serve.Python.Integer.{ℤ, pos, eq_int}
use gaggia_esp_c3_mini_serve.Python.Object.{
  Result, ok, ◌>>=◌, Numbers, boolean, integer, floating, Dict, set,
}
use gaggia_esp_c3_mini_serve.LcdData.Summary.{max_float, min_float}
use gaggia_esp_c3_mini_serve.Downlink.State.{
  Manager, min_packet_interval_ms, max_packet_interval_ms,
}
use gaggia_esp_c3_mini_serve.Downlink.Profiles.{profile_id, resolve_and_apply}
use gaggia_esp_c3_mini_serve.Link.Interfaces.{HomeRequest}

-- `max(MIN_PACKET_INTERVAL_MS, min(n, MAX_PACKET_INTERVAL_MS))`
unfoldable pub clamp_interval : ℕ → ℕ
clamp_interval n =
    if leb max_packet_interval_ms n
    then max_packet_interval_ms
    else if leb n min_packet_interval_ms
    then min_packet_interval_ms
    else n

-- `if value is not None: …`
abbrev pub when_given {ℓ κ} : {A : Type ℓ} {B : Type κ} → Option A → (A → B → B) → B → B
when_given none f b = b
when_given (some a) f b = f a b

abbrev pub run_given {ℓ κ} :
    {A : Type ℓ} {B : Type κ} → Option A → (A → B → Result B) → B → Result B
run_given none f b = ok b
run_given (some a) f b = f a b

module _ (py : Numbers) where
  -- `max(low, min(x, limit))`: a NaN stays one under `min`, and becomes `low` under `max`.
  unfoldable pub clamp : py.Float → ℕ → py.Float → py.Float
  unfolding max_float min_float
  clamp low limit x = max_float py low (min_float py x (py.decimal limit 0))

  unfoldable pub set_amplitude : py.Float → Manager py.Float → Manager py.Float
  unfolding clamp
  set_amplitude x m = record m { sine_amplitude = clamp (py.decimal 0 0) 1000 x }

  unfoldable pub set_frequency : py.Float → Manager py.Float → Manager py.Float
  unfolding clamp
  set_frequency x m = record m { sine_frequency_hz = clamp (py.decimal 1 2) 1000 x }

  unfoldable pub set_interval : ℕ → Manager py.Float → Manager py.Float
  unfolding clamp_interval
  set_interval n m = record m { packet_interval_ms = clamp_interval n }

  unfoldable pub configure_sine :
      Option py.Float → Option py.Float → Option ℕ → Manager py.Float → Manager py.Float
  unfolding set_amplitude set_frequency set_interval
  configure_sine amplitude frequency_hz packet_interval_ms m =
      let m = when_given amplitude set_amplitude m in
      let m = when_given frequency_hz set_frequency m in
      when_given packet_interval_ms set_interval m

  -- The loop that changes the first preset with the selected id, in place.
  unfoldable pub update_selected :
      ℤ → (Dict py.Float → Dict py.Float) → List (Dict py.Float) → Result (List (Dict py.Float))
  unfolding profile_id
  update_selected selected change [] = ok []
  update_selected selected change (profile ∷ presets) =
      let later = update_selected selected change presets in
      do
        id ← profile_id py profile
        (if eq_int id selected
            then ok (change profile ∷ presets)
            else (later >>= (λ rest. ok (profile ∷ rest))))

  -- The value is clamped, so that its rounding, here ahead of the loop, does not fail.
  unfoldable pub set_temperature : py.Float → Manager py.Float → Result (Manager py.Float)
  unfolding clamp update_selected set
  set_temperature x m = do
    let value = clamp (py.decimal 0 0) 160 x
    setpoint ← py.rounded (py.mul value (py.decimal 10 0))
    presets ←
        update_selected m.selected_profile_id
          (λ profile.
            set (text "target_temperature_c") (floating value)
              (set (text "setpoint") (integer setpoint) profile))
          m.profile_presets
    ok (record m {
      overrides = record m.overrides { temperature_c = some value };
      home = record m.home { temperature_c = value };
      brew = record m.brew { target_temperature_c = value };
      profile_presets = presets;
    })

  unfoldable pub set_water_level : py.Float → Manager py.Float → Manager py.Float
  unfolding clamp
  set_water_level x m =
      let value = clamp (py.decimal 0 0) 100 x in
      record m {
        overrides = record m.overrides { water_level_pct = some value };
        home = record m.home { water_level_pct = value };
      }

  unfoldable pub set_weight : py.Float → Manager py.Float → Manager py.Float
  unfolding clamp
  set_weight x m =
      let value = clamp (py.decimal 0 0) 200 x in
      record m {
        overrides = record m.overrides { weight_g = some value };
        home = record m.home { weight_g = value };
      }

  unfoldable pub set_shot_target : py.Float → Manager py.Float → Result (Manager py.Float)
  unfolding clamp update_selected set
  set_shot_target x m = do
    let value = clamp (py.decimal 0 0) 200 x
    presets ←
        update_selected m.selected_profile_id
          (λ profile.
            set (text "shot_target_g") (floating value)
              (set (text "shot_stop_on_custom_weight") (floating value) profile))
          m.profile_presets
    ok (record m {
      overrides = record m.overrides { shot_target_g = some value };
      home = record m.home { shot_target_g = value };
      profile_presets = presets;
    })

  unfoldable pub set_warmup : Bool → Manager py.Float → Manager py.Float
  unfolding set
  set_warmup b m = record m {
    overrides = record m.overrides { warmup = some b };
    home = record m.home { warmup_on = b };
    lcd_settings = set (text "warmup_state") (boolean b) m.lcd_settings;
  }

  unfoldable pub set_steam : Bool → Manager py.Float → Manager py.Float
  set_steam b m = record m {
    overrides = record m.overrides { steam = some b };
    home = record m.home { steam_on = b };
  }

  unfoldable pub configure_lcd_home_data :
      HomeRequest py.Float → Manager py.Float → Result (Manager py.Float)
  unfolding resolve_and_apply set_temperature set_water_level set_weight set_shot_target set_warmup
      set_steam
  configure_lcd_home_data r m = do
    m ← run_given r.profile_id (λ id m. resolve_and_apply py (some (pos id)) m) m
    m ← run_given r.temperature_c set_temperature m
    let m = when_given r.water_level_pct set_water_level m
    let m = when_given r.weight_g set_weight m
    m ← run_given r.shot_target_g set_shot_target m
    let m = when_given r.warmup_on set_warmup m
    let m = when_given r.steam_on set_steam m
    ok (record m { last_control_event = text "Screen7HomeDataSet" })
