-- ===== src/Downlink/Turn.antt =====
-- server/sim/data_payload.py: the two locked parts of `_generate_and_send`: what it takes from the
-- state before it builds a packet, and what it changes once the packet is sent.
use gaggia_esp_c3_mini_serve.Prelude.{
  ℕ, ◌+◌, ◌%◌, ◌^◌, Bool, true, false, not, ◌&&◌, ◌||◌, Option, none, some, if◌then◌else◌,
}
use gaggia_esp_c3_mini_serve.Python.Text.{Text, text}
use gaggia_esp_c3_mini_serve.Python.Integer.{ℤ, pos}
use gaggia_esp_c3_mini_serve.Python.Object.{Numbers}
use gaggia_esp_c3_mini_serve.LcdData.Summary.{max_float}
use gaggia_esp_c3_mini_serve.Downlink.Packet.{data_size_floats}
use gaggia_esp_c3_mini_serve.Downlink.State.{Manager, Brew, Home, Overrides}
use gaggia_esp_c3_mini_serve.Downlink.Profiles.{default_brew_profile_id, default_brew_profile_name}

-- The local variables that the first part fills. Outside brew mode those of the brew keep their
-- defaults, and in brew mode those of the sine.
pub record Turn (F : Type 0) : Type 0 where
  pub seq : ℕ
  pub packet_interval_ms : ℕ
  pub brew_mode : Bool
  pub brew_complete_after_send : Bool
  pub amplitude : F
  pub frequency_hz : F
  pub phase_rad : F
  pub phase_step : F
  pub elapsed_sec : F
  pub time_sec : F
  pub profile_id : ℤ
  pub profile_name : Text
  pub target_pressure_bar : F
  pub target_flow_ml_sec : F
  pub target_temperature_c : F
  pub home_started_monotonic : F
  pub overrides : Overrides F

module _ (py : Numbers) where
  -- `x >= y`
  unfoldable pub at_least : py.Float → py.Float → Bool
  at_least x y = py.less y x || py.equal x y

  unfoldable pub elapsed_since : py.Float → Brew py.Float → py.Float
  unfolding max_float
  elapsed_since now b = max_float py (py.decimal 0 0) (
      if py.less (py.decimal 0 0) b.started_monotonic
      then py.sub now b.started_monotonic
      else py.decimal 0 0)

  unfoldable pub brew_turn : py.Float → Manager py.Float → Turn py.Float × Manager py.Float
  unfolding elapsed_since at_least
  brew_turn now m =
      let since = elapsed_since now m.brew in
      let complete = at_least since m.brew.time_sec in
      let elapsed = if complete then m.brew.time_sec else since in
      (
        record {
          seq = m.dl_seq;
          packet_interval_ms = m.packet_interval_ms;
          brew_mode = true;
          brew_complete_after_send = complete;
          amplitude = py.decimal 0 0;
          frequency_hz = py.decimal 0 0;
          phase_rad = py.decimal 0 0;
          phase_step = py.decimal 0 0;
          elapsed_sec = elapsed;
          time_sec = m.brew.time_sec;
          profile_id = m.selected_profile_id;
          profile_name = m.selected_profile_name;
          target_pressure_bar = m.brew.target_pressure_bar;
          target_flow_ml_sec = m.brew.target_flow_ml_sec;
          target_temperature_c = m.brew.target_temperature_c;
          home_started_monotonic = m.home_started_monotonic;
          overrides = m.overrides;
        },
        record m {
          dl_seq = (m.dl_seq + 1) % 2 ^ 32;
          brew = record m.brew {
            elapsed_sec = if complete then m.brew.time_sec else m.brew.elapsed_sec;
          };
        },
      )

  unfoldable pub sine_turn : py.Float → Manager py.Float → Turn py.Float × Manager py.Float
  unfolding max_float
  sine_turn packet_interval_s m =
      let full_turn = py.mul (py.decimal 2 0) py.pi in
      let sample_rate_hz =
        py.div (py.decimal data_size_floats 0) (max_float py packet_interval_s (py.decimal 1 3)) in
      let phase_step = py.div (py.mul full_turn m.sine_frequency_hz) sample_rate_hz in
      (
        record {
          seq = m.dl_seq;
          packet_interval_ms = m.packet_interval_ms;
          brew_mode = false;
          brew_complete_after_send = false;
          amplitude = m.sine_amplitude;
          frequency_hz = m.sine_frequency_hz;
          phase_rad = m.sine_phase_rad;
          phase_step = phase_step;
          elapsed_sec = py.decimal 0 0;
          time_sec = py.decimal 30 0;
          profile_id = pos default_brew_profile_id;
          profile_name = default_brew_profile_name;
          target_pressure_bar = py.decimal 9 0;
          target_flow_ml_sec = py.decimal 22 1;
          target_temperature_c = py.decimal 93 0;
          home_started_monotonic = m.home_started_monotonic;
          overrides = m.overrides;
        },
        record m {
          dl_seq = (m.dl_seq + 1) % 2 ^ 32;
          sine_phase_rad =
              py.modulo
                (py.add m.sine_phase_rad (py.mul phase_step (py.decimal data_size_floats 0)))
                full_turn;
        },
      )

  unfoldable pub take_turn :
      py.Float → py.Float → Manager py.Float → Option (Turn py.Float) × Manager py.Float
  unfolding brew_turn sine_turn
  take_turn now packet_interval_s m =
      if not m.callback_set || (not m.simulation_enabled && not m.brew.active)
      then (none, m)
      else if m.brew.active
      then (some (brew_turn now m).0, (brew_turn now m).1)
      else (some (sine_turn packet_interval_s m).0, (sine_turn packet_interval_s m).1)

  sent_brew : Turn py.Float → Brew py.Float → Brew py.Float
  sent_brew t b =
      if t.brew_mode
      then (if t.brew_complete_after_send && b.active
          then record b {
            elapsed_sec = t.elapsed_sec;
            active = false;
            started_monotonic = py.decimal 0 0;
          }
          else record b { elapsed_sec = t.elapsed_sec })
      else b

  -- What follows a call of the callback that returns; `h` are the values that the packet carried.
  unfoldable pub after_send : Turn py.Float → Home py.Float → Manager py.Float → Manager py.Float
  unfolding sent_brew
  after_send t h m = record m {
    dl_tx_count = m.dl_tx_count + 1;
    brew = sent_brew t m.brew;
    last_control_event =
        if t.brew_mode && (t.brew_complete_after_send && m.brew.active)
        then text "BrewComplete"
        else m.last_control_event;
    home = h;
  }
