-- ===== src/Link/Interfaces.antt =====
-- What `LinkRuntime` uses of its two partners: `serial_link_manager` (server/transport/serial_link.py)
-- and `data_payload_manager` (server/sim/data_payload.py) with the dataset helpers behind it.
use gaggia_esp_c3_mini_serve.Prelude.{ℕ, Bool, false, Option, List, [], ◌≡◌}
use gaggia_esp_c3_mini_serve.Prelude.Bytes.{Bytes}
use gaggia_esp_c3_mini_serve.FrameCodec.{Frame}
use gaggia_esp_c3_mini_serve.Python.{Raised}
use gaggia_esp_c3_mini_serve.Python.Text.{Text}
use gaggia_esp_c3_mini_serve.Python.Integer.{ℤ}
use gaggia_esp_c3_mini_serve.Python.Object.{Result}

-- A call that may raise returns the exception, if there is one, beside the state that it leaves.
pub record Transport : Type 1 where
  pub State : Type 0
  pub port_open : State → Bool
  pub port_name : State → Text
  pub pop_received_frames : State → List Frame × State
  pub send_frame : Frame → State → Option Raised × State
  pub open_port : State → Option Text × State
  pub close_port : State → State
  pub force_release_port : State → List ℕ × State
  pub configure_port : Text → State → State
  pub clear_buffers : State → State
  pub pop_pop : (s : State) → (pop_received_frames (pop_received_frames s).1).0 ≡ []
  pub pop_clear : (s : State) → (pop_received_frames (clear_buffers s)).0 ≡ []
  pub close_closes : (s : State) → port_open (close_port s) ≡ false
  pub release_closes : (s : State) → port_open (force_release_port s).1 ≡ false

-- The arguments of `configure_lcd_home_data`.
pub record HomeRequest (F : Type 0) : Type 0 where
  pub profile_id : Option ℕ
  pub temperature_c : Option F
  pub water_level_pct : Option F
  pub weight_g : Option F
  pub shot_target_g : Option F
  pub warmup_on : Option Bool
  pub steam_on : Option Bool

-- `Float` is Python's `float`, which the link only hands on; `parse_float` is `float(text)`, and
-- `none` its ValueError. `lcd_profiles` are the profile ids and names of the catalog,
-- `lcd_dataset` the text of the full dataset; both raise where a preset cannot be converted. The
-- manager of the program is such a record in Link/PayloadManager.
pub record DataManager : Type 1 where
  pub State : Type 0
  pub Float : Type 0
  pub parse_float : Text → Option Float
  pub start : State → State
  pub stop : State → State
  pub receive_uplink : Bytes → State → State
  pub select_profile : Option ℕ → State → Option Raised × State
  pub start_brew : Option ℕ → Option ℕ → State → Option Raised × State
  pub stop_brew : State → State
  pub configure_sine : Option Float → Option Float → Option ℕ → State → State
  pub set_simulation_enabled : Bool → State → State
  pub configure_home : HomeRequest Float → State → Option Raised × State
  pub selected_profile : State → ℤ
  pub sim_enabled : State → Bool
  pub brew_active : State → Bool
  pub lcd_profiles : State → Result (List (ℤ × Text))
  pub lcd_dataset : State → Result Text
