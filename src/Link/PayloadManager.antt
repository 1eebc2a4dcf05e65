-- ===== src/Link/PayloadManager.antt =====
-- server/sim/data_payload.py: `DataPayloadManager` as the data manager that `LinkRuntime` drives. What
-- `time.monotonic()` returns is the argument `clock`, by the number of its calls before. What a call
-- that raises leaves half assigned is the argument `left`.
use gaggia_esp_c3_mini_serve.Prelude.{ℕ, ◌+◌, Option, none, some, List, map}
use gaggia_esp_c3_mini_serve.Python.{Raised}
use gaggia_esp_c3_mini_serve.Python.Text.{Text, Unicode}
use gaggia_esp_c3_mini_serve.Python.Integer.{ℤ, pos}
use gaggia_esp_c3_mini_serve.Python.Object.{Failure, Result, ok, err, ◌>>=◌, Numbers}
use gaggia_esp_c3_mini_serve.LcdData.Fields.{schema_version}
use gaggia_esp_c3_mini_serve.LcdData.Payload.{
  as_raw, build_lcd_dataset_from_presets, encode_lcd_dataset_payload,
}
use gaggia_esp_c3_mini_serve.LcdData.Summary.{ProfileSummary, build_profile_summaries_from_presets}
use gaggia_esp_c3_mini_serve.Uplink.{receive_uplink}
use gaggia_esp_c3_mini_serve.Downlink.State.{
  Manager, start, stop, set_simulation_enabled, stop_brew,
}
use gaggia_esp_c3_mini_serve.Downlink.Profiles.{select_profile, start_brew}
use gaggia_esp_c3_mini_serve.Downlink.Controls.{configure_sine, configure_lcd_home_data}
use gaggia_esp_c3_mini_serve.Link.Interfaces.{DataManager}
use gaggia_esp_c3_mini_serve.Link.Client.{raised}

-- The manager, and the number of readings of the clock.
pub record Payload (F : Type 0) : Type 0 where
  pub manager : Manager F
  pub readings : ℕ

abbrev as_id : Option ℕ → Option ℤ
as_id none = none
as_id (some id) = some (pos id)

-- The id and the name of each profile
abbrev pub named : {F : Type 0} → List (ProfileSummary F) → List (ℤ × Text)
named summaries = map (λ s. (s.profile_id, s.profile_name)) summaries

module _ (py : Numbers) (u : Unicode) where
  -- `_get_lcd_protocol_profiles`
  abbrev pub catalog : Manager py.Float → Result (List (ℤ × Text))
  catalog m = do
    summaries ← build_profile_summaries_from_presets py u m.profile_presets
    ok (named summaries)

  -- `get_lcd_profile_dataset`, as the encoder reads it: without the stages of the profiles
  abbrev pub dataset_text : Manager py.Float → Result Text
  dataset_text m = do
    dataset ←
        build_lcd_dataset_from_presets py u m.profile_presets (some m.lcd_settings)
          (pos schema_version)
    encode_lcd_dataset_payload py u (as_raw dataset)

module _ (py : Numbers) (u : Unicode) (clock : ℕ → py.Float)
    (left : Failure → Manager py.Float → Manager py.Float) where
  abbrev on_state : (Manager py.Float → Manager py.Float) → Payload py.Float → Payload py.Float
  on_state f p = record p { manager = f p.manager }

  -- How a call ends that reads the clock `reads` times if it returns.
  abbrev ends_call :
      ℕ → Payload py.Float → Result (Manager py.Float) → Option Raised × Payload py.Float
  ends_call reads p (ok m) = (none, record { manager = m; readings = p.readings + reads })
  ends_call reads p (err e) = (some (raised e), record p { manager = left e p.manager })

  abbrev pub data_payload_manager : DataManager
  data_payload_manager = record {
    State = Payload py.Float;
    Float = py.Float;
    parse_float = py.float_of_text;
    start =
        λ p. record { manager = start py (clock p.readings) p.manager; readings = p.readings + 1 };
    stop = on_state (stop py);
    receive_uplink = λ bytes. on_state (λ m. record m { uplink = receive_uplink bytes m.uplink });
    select_profile = λ id p. ends_call 0 p (select_profile py (as_id id) p.manager);
    start_brew = λ id interval p.
        ends_call 1 p (start_brew py (clock p.readings) (as_id id) interval p.manager);
    stop_brew = on_state (stop_brew py);
    configure_sine =
        λ amplitude frequency interval. on_state (configure_sine py amplitude frequency interval);
    set_simulation_enabled = λ b. on_state (set_simulation_enabled py b);
    configure_home = λ r p. ends_call 0 p (configure_lcd_home_data py r p.manager);
    selected_profile = λ p. p.manager.selected_profile_id;
    sim_enabled = λ p. p.manager.simulation_enabled;
    brew_active = λ p. p.manager.brew.active;
    lcd_profiles = λ p. catalog py u p.manager;
    lcd_dataset = λ p. dataset_text py u p.manager;
  }
