-- ===== src/Downlink/Modes.antt =====
-- server/sim/data_payload.py: the operations of `DataPayloadManager` as steps, and the invariant of
-- its state.
use gaggia_esp_c3_mini_serve.Prelude.{
  ℕ, ◌^◌, ◌≤◌, ◌<◌, Bool, false, ◌&&◌, List, [], ◌∷◌, Option, ◌≡◌,
}
use gaggia_esp_c3_mini_serve.Prelude.Bytes.{Bytes}
use gaggia_esp_c3_mini_serve.Python.Integer.{ℤ}
use gaggia_esp_c3_mini_serve.Python.Object.{Result, ok, ◌>>=◌, Numbers}
use gaggia_esp_c3_mini_serve.Link.Interfaces.{HomeRequest}
use gaggia_esp_c3_mini_serve.Uplink.{receive_uplink}
use gaggia_esp_c3_mini_serve.Downlink.State.{
  Manager, start, stop, set_simulation_enabled, stop_brew, min_packet_interval_ms,
  max_packet_interval_ms,
}
use gaggia_esp_c3_mini_serve.Downlink.Profiles.{select_profile, start_brew}
use gaggia_esp_c3_mini_serve.Downlink.Controls.{configure_sine, configure_lcd_home_data}
use gaggia_esp_c3_mini_serve.Downlink.Channels.{Library}
use gaggia_esp_c3_mini_serve.Downlink.Generate.{generate_and_send}

pub data Action (F : Type 0) : Type 0 where
  started : F → Action F
  stopped : Action F
  simulation : Bool → Action F
  sine : Option F → Option F → Option ℕ → Action F
  selected : Option ℤ → Action F
  brew_started : F → Option ℤ → Option ℕ → Action F
  brew_stopped : Action F
  home_set : HomeRequest F → Action F
  received : Bytes → Action F
  generated : (Bytes → Bool) → F → F → F → Action F

module _ (py : Numbers) (library : Library py.Float) where
  unfoldable pub perform : Action py.Float → Manager py.Float → Result (Manager py.Float)
  unfolding start stop set_simulation_enabled configure_sine select_profile start_brew stop_brew
      configure_lcd_home_data generate_and_send
  perform (started now) m = ok (start py now m)
  perform stopped m = ok (stop py m)
  perform (simulation b) m = ok (set_simulation_enabled py b m)
  perform (sine amplitude frequency interval) m =
      ok (configure_sine py amplitude frequency interval m)
  perform (selected id) m = select_profile py id m
  perform (brew_started now id interval) m = start_brew py now id interval m
  perform brew_stopped m = ok (stop_brew py m)
  perform (home_set r) m = configure_lcd_home_data py r m
  perform (received payload) m = ok (record m { uplink = receive_uplink payload m.uplink })
  perform (generated cb now later interval) m =
      ok (generate_and_send py library cb now later interval m).state

  -- The calls in their order, up to the first that raises.
  unfoldable pub perform_all : List (Action py.Float) → Manager py.Float → Result (Manager py.Float)
  unfolding perform
  perform_all [] m = ok m
  perform_all (a ∷ actions) m = do m ← perform a m; perform_all actions m

-- Never both modes, an interval from 10 ms to 5 s, and a sequence number of 32 bits.
pub record IsManaged {F : Type 0} (m : Manager F) : Type 0 where
  pub exclusive : (m.simulation_enabled && m.brew.active) ≡ false
  pub least : min_packet_interval_ms ≤ m.packet_interval_ms
  pub most : m.packet_interval_ms ≤ max_packet_interval_ms
  pub seq : m.dl_seq < 2 ^ 32
