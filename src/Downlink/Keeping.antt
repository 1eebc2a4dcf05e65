-- ===== src/Downlink/Keeping.antt =====
-- server/sim/data_payload.py: the operations on profiles, the sine and the Home page keep the state in
-- order.
use gaggia_esp_c3_mini_serve.Prelude.{ℕ, ◌≤◌, Bool, Option, none, some, arith}
use gaggia_esp_c3_mini_serve.Python.Text.{text}
use gaggia_esp_c3_mini_serve.Python.Integer.{ℤ, pos}
use gaggia_esp_c3_mini_serve.Python.Object.{Result, Numbers, Dict, set, integer, floating}
use gaggia_esp_c3_mini_serve.Link.Interfaces.{HomeRequest}
use gaggia_esp_c3_mini_serve.Downlink.State.{
  Manager, min_packet_interval_ms, max_packet_interval_ms,
}
use gaggia_esp_c3_mini_serve.Downlink.Profiles.{
  Applied, read_profile, applied, resolve_profile, apply_profile, resolve_and_apply, select_profile,
  start_brew,
}
use gaggia_esp_c3_mini_serve.Downlink.Controls.{
  configure_sine, configure_lcd_home_data, update_selected, clamp, clamp_interval, set_amplitude,
  set_frequency, set_interval, when_given, run_given, set_temperature, set_water_level, set_weight,
  set_shot_target, set_warmup, set_steam,
}
use gaggia_esp_c3_mini_serve.Downlink.Modes.{IsManaged}
use gaggia_esp_c3_mini_serve.Downlink.Returned.{OnOk, bind-OnOk, skip-OnOk, ok-OnOk}

module _ (py : Numbers) where
  abbrev pub Keeps : (Manager py.Float → Manager py.Float) → Type 0
  Keeps f = (m : Manager py.Float) → IsManaged m → IsManaged (f m)

  abbrev pub KeepsOk : (Manager py.Float → Result (Manager py.Float)) → Type 0
  KeepsOk f = (m : Manager py.Float) → IsManaged m → OnOk (λ m. IsManaged m) (f m)

  pub when_given-Keeps :
      {A : Type 0} (o : Option A) (f : A → Manager py.Float → Manager py.Float)
      → ((a : A) → Keeps (f a))
      → Keeps (λ m. when_given o f m)
  when_given-Keeps none f k m h = h
  when_given-Keeps (some a) f k m h = k a m h

  pub run_given-KeepsOk :
      {A : Type 0} (o : Option A) (f : A → Manager py.Float → Result (Manager py.Float))
      → ((a : A) → KeepsOk (f a))
      → KeepsOk (λ m. run_given o f m)
  run_given-KeepsOk none f k m h = ok-OnOk _ m h
  run_given-KeepsOk (some a) f k m h = k a m h

  pub applied-IsManaged :
      (a : Applied py.Float) (m : Manager py.Float) → IsManaged m → IsManaged (applied py a m)
  unfolding applied
  applied-IsManaged a m h = ground arith

  pub apply_profile-IsManaged :
      (profile : Dict py.Float) (m : Manager py.Float)
      → IsManaged m
      → OnOk (λ m. IsManaged m) (apply_profile py profile m)
  unfolding apply_profile
  apply_profile-IsManaged profile m h =
      skip-OnOk _ (read_profile py profile m) _ (λ a. ok-OnOk _ _ (applied-IsManaged a m h))

  pub resolve_and_apply-IsManaged :
      (id : Option ℤ) (m : Manager py.Float)
      → IsManaged m
      → OnOk (λ m. IsManaged m) (resolve_and_apply py id m)
  unfolding resolve_and_apply
  resolve_and_apply-IsManaged id m h =
      skip-OnOk _ (resolve_profile py id m) _ (λ profile. apply_profile-IsManaged profile m h)

  pub select_profile-IsManaged :
      (id : Option ℤ) (m : Manager py.Float)
      → IsManaged m
      → OnOk (λ m. IsManaged m) (select_profile py id m)
  unfolding select_profile
  select_profile-IsManaged id m h =
      bind-OnOk _ (λ m. IsManaged m) (resolve_and_apply py id m) _
        (resolve_and_apply-IsManaged id m h) (λ m' h'. ok-OnOk _ _ (ground arith))

  pub start_brew-IsManaged :
      (now : py.Float) (id : Option ℤ) (interval : Option ℕ) (m : Manager py.Float)
      → IsManaged m
      → OnOk (λ m. IsManaged m) (start_brew py now id interval m)
  unfolding start_brew
  start_brew-IsManaged now id interval m h =
      bind-OnOk _ (λ m. IsManaged m) (resolve_and_apply py id m) _
        (resolve_and_apply-IsManaged id m h) (λ m' h'. ok-OnOk _ _ (ground arith))

  pub set_temperature-IsManaged :
      (x : py.Float) (m : Manager py.Float)
      → IsManaged m
      → OnOk (λ m. IsManaged m) (set_temperature py x m)
  unfolding set_temperature
  set_temperature-IsManaged x m h =
      skip-OnOk _ (py.rounded (py.mul (clamp py (py.decimal 0 0) 160 x) (py.decimal 10 0))) _
        (λ setpoint.
          skip-OnOk _
            (update_selected py m.selected_profile_id
              (λ profile.
                set (text "target_temperature_c") (floating (clamp py (py.decimal 0 0) 160 x))
                  (set (text "setpoint") (integer setpoint) profile))
              m.profile_presets)
            _ (λ presets. ok-OnOk _ _ (ground arith)))

  pub set_shot_target-IsManaged :
      (x : py.Float) (m : Manager py.Float)
      → IsManaged m
      → OnOk (λ m. IsManaged m) (set_shot_target py x m)
  unfolding set_shot_target
  set_shot_target-IsManaged x m h =
      let value = clamp py (py.decimal 0 0) 200 x in
      skip-OnOk _
        (update_selected py m.selected_profile_id
          (λ profile.
            set (text "shot_target_g") (floating value)
              (set (text "shot_stop_on_custom_weight") (floating value) profile))
          m.profile_presets)
        _ (λ presets. ok-OnOk _ _ (ground arith))

  pub set_water_level-IsManaged : (x : py.Float) → Keeps (set_water_level py x)
  unfolding set_water_level
  set_water_level-IsManaged x m h = ground arith

  pub set_weight-IsManaged : (x : py.Float) → Keeps (set_weight py x)
  unfolding set_weight
  set_weight-IsManaged x m h = ground arith

  pub set_warmup-IsManaged : (b : Bool) → Keeps (set_warmup py b)
  unfolding set_warmup
  set_warmup-IsManaged b m h = ground arith

  pub set_steam-IsManaged : (b : Bool) → Keeps (set_steam py b)
  unfolding set_steam
  set_steam-IsManaged b m h = ground arith

  renamed_event :
      (m : Manager py.Float)
      → IsManaged m
      → IsManaged (record m { last_control_event = text "Screen7HomeDataSet" })
  renamed_event m h = ground arith

  pub configure_lcd_home_data-IsManaged :
      (r : HomeRequest py.Float) → KeepsOk (configure_lcd_home_data py r)
  unfolding configure_lcd_home_data
  configure_lcd_home_data-IsManaged r m h =
      bind-OnOk _ (λ m. IsManaged m)
        (run_given r.profile_id (λ id m. resolve_and_apply py (some (pos id)) m) m) _
        (run_given-KeepsOk r.profile_id (λ id m. resolve_and_apply py (some (pos id)) m)
          (λ id. resolve_and_apply-IsManaged (some (pos id))) m h)
        (λ m1 h1.
          bind-OnOk _ (λ m. IsManaged m) (run_given r.temperature_c (set_temperature py) m1) _
            (run_given-KeepsOk r.temperature_c (set_temperature py) set_temperature-IsManaged m1 h1)
            (λ m2 h2.
              let m3 = when_given r.water_level_pct (set_water_level py) m2 in
              let h3 =
                when_given-Keeps r.water_level_pct (set_water_level py) set_water_level-IsManaged m2
                  h2 in
              let m4 = when_given r.weight_g (set_weight py) m3 in
              let h4 = when_given-Keeps r.weight_g (set_weight py) set_weight-IsManaged m3 h3 in
              bind-OnOk _ (λ m. IsManaged m) (run_given r.shot_target_g (set_shot_target py) m4) _
                (run_given-KeepsOk r.shot_target_g (set_shot_target py) set_shot_target-IsManaged m4
                  h4)
                (λ m5 h5.
                  let m6 = when_given r.warmup_on (set_warmup py) m5 in
                  let h6 =
                    when_given-Keeps r.warmup_on (set_warmup py) set_warmup-IsManaged m5 h5 in
                  ok-OnOk _ _ (
                    renamed_event (when_given r.steam_on (set_steam py) m6)
                      (when_given-Keeps r.steam_on (set_steam py) set_steam-IsManaged m6 h6)))))

  clamp_interval-le :
      (n : ℕ)
      → (min_packet_interval_ms ≤ clamp_interval n) × (clamp_interval n ≤ max_packet_interval_ms)
  unfolding clamp_interval
  clamp_interval-le n = ground arith

  pub set_amplitude-IsManaged : (x : py.Float) → Keeps (set_amplitude py x)
  unfolding set_amplitude
  set_amplitude-IsManaged x m h = ground arith

  pub set_frequency-IsManaged : (x : py.Float) → Keeps (set_frequency py x)
  unfolding set_frequency
  set_frequency-IsManaged x m h = ground arith

  pub set_interval-IsManaged : (n : ℕ) → Keeps (set_interval py n)
  unfolding set_interval
  set_interval-IsManaged n m h = ground (arith, clamp_interval-le n)

  pub configure_sine-IsManaged :
      (a f : Option py.Float) (n : Option ℕ) → Keeps (configure_sine py a f n)
  unfolding configure_sine
  configure_sine-IsManaged a f n m h =
      when_given-Keeps n (set_interval py) set_interval-IsManaged
        (when_given f (set_frequency py) (when_given a (set_amplitude py) m))
        (when_given-Keeps f (set_frequency py) set_frequency-IsManaged
          (when_given a (set_amplitude py) m)
          (when_given-Keeps a (set_amplitude py) set_amplitude-IsManaged m h))
