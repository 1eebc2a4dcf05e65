-- ===== src/Downlink/State.antt =====
-- server/sim/data_payload.py: the state of `DataPayloadManager`, its start and stop, and the calls
-- that switch a mode. What `time.monotonic()` returns is an argument.
use gaggia_esp_c3_mini_serve.Prelude.{ℕ, Bool, true, false, List, [], Option}
use gaggia_esp_c3_mini_serve.Python.Text.{Text, text}
use gaggia_esp_c3_mini_serve.Python.Integer.{ℤ}
use gaggia_esp_c3_mini_serve.Python.Object.{Numbers, Dict}
use gaggia_esp_c3_mini_serve.Uplink.{Uplink}

pub record Overrides (F : Type 0) : Type 0 where
  pub temperature_c : Option F
  pub water_level_pct : Option F
  pub weight_g : Option F
  pub shot_target_g : Option F
  pub warmup : Option Bool
  pub steam : Option Bool
  pub uptime_minutes : Option F

pub record Home (F : Type 0) : Type 0 where
  pub temperature_c : F
  pub pressure_bar : F
  pub water_level_pct : F
  pub weight_g : F
  pub shot_target_g : F
  pub warmup_on : Bool
  pub steam_on : Bool
  pub uptime_minutes : F

pub record Brew (F : Type 0) : Type 0 where
  pub target_pressure_bar : F
  pub target_flow_ml_sec : F
  pub target_temperature_c : F
  pub time_sec : F
  pub active : Bool
  pub started_monotonic : F
  pub elapsed_sec : F

-- `callback_set` is `_send_callback is not None`, and `running` `_thread is not None`. The fields
-- `_home_…_override_…`, `_home_…` and `_brew_…` are the records above.
pub record Manager (F : Type 0) : Type 0 where
  pub uplink : Uplink
  pub profile_presets : List (Dict F)
  pub lcd_settings : Dict F
  pub dl_seq : ℕ
  pub dl_tx_count : ℕ
  pub simulation_enabled : Bool
  pub sine_amplitude : F
  pub sine_frequency_hz : F
  pub packet_interval_ms : ℕ
  pub sine_phase_rad : F
  pub selected_profile_id : ℤ
  pub selected_profile_name : Text
  pub brew : Brew F
  pub home_started_monotonic : F
  pub overrides : Overrides F
  pub home : Home F
  pub last_control_event : Text
  pub callback_set : Bool
  pub running : Bool

abbrev pub default_brew_packet_interval_ms : ℕ
default_brew_packet_interval_ms = 100

abbrev pub min_packet_interval_ms : ℕ
min_packet_interval_ms = 10

abbrev pub max_packet_interval_ms : ℕ
max_packet_interval_ms = 5000

module _ (py : Numbers) where
  -- `_brew_active = False`, with the two fields that always go with it
  unfoldable pub end_brew : Brew py.Float → Brew py.Float
  end_brew b = record b {
    active = false;
    started_monotonic = py.decimal 0 0;
    elapsed_sec = py.decimal 0 0;
  }

  unfoldable pub reset_home : Home py.Float → Home py.Float
  reset_home h = record h { pressure_bar = py.decimal 2 1; uptime_minutes = py.decimal 0 0 }

  unfoldable pub stop : Manager py.Float → Manager py.Float
  unfolding end_brew reset_home
  stop m = record m {
    uplink = record m.uplink { fifo = [] };
    dl_seq = 0;
    simulation_enabled = false;
    sine_phase_rad = py.decimal 0 0;
    brew = end_brew m.brew;
    home = reset_home m.home;
    running = false;
  }

  unfoldable pub start : py.Float → Manager py.Float → Manager py.Float
  unfolding stop end_brew reset_home
  start now m =
      let m = stop m in
      record m {
        callback_set = true;
        dl_seq = 0;
        simulation_enabled = false;
        sine_phase_rad = py.decimal 0 0;
        brew = end_brew m.brew;
        home_started_monotonic = now;
        home = reset_home m.home;
        last_control_event = text "Idle";
        running = true;
      }

  unfoldable pub set_simulation_enabled : Bool → Manager py.Float → Manager py.Float
  unfolding end_brew
  set_simulation_enabled true m = record m {
    simulation_enabled = true;
    brew = end_brew m.brew;
    last_control_event = text "DataSimulationOn";
  }
  set_simulation_enabled false m = record m {
    simulation_enabled = false;
    last_control_event = text "DataSimulationOFF";
  }

  unfoldable pub stop_brew : Manager py.Float → Manager py.Float
  unfolding end_brew
  stop_brew m = record m { brew = end_brew m.brew; last_control_event = text "StopBrew" }
