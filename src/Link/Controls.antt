-- ===== src/Link/Controls.antt =====
-- server/sim/link_state_machine.py: the calls that set the data simulation, the Home screen and the
-- telemetry counters.
use gaggia_esp_c3_mini_serve.Prelude.{
  ℕ, Bool, true, not, ◌&&◌, Option, none, some, ◌++◌, if◌then◌else◌,
}
use gaggia_esp_c3_mini_serve.Python.Text.{text}
use gaggia_esp_c3_mini_serve.Python.Integer.{show_int}
use gaggia_esp_c3_mini_serve.Link.Interfaces.{Transport, DataManager, HomeRequest}
use gaggia_esp_c3_mini_serve.Link.World.{World, Ends, done, ◌▸◌, on_link}
use gaggia_esp_c3_mini_serve.Link.Client.{on_payload, ask_payload, send_logged}
use gaggia_esp_c3_mini_serve.Link.Commands.{send_if_open}

module _ (d : DataManager) where
  abbrev pub set_enabled : Option Bool → d.State → d.State
  set_enabled none s = s
  set_enabled (some enabled) s = d.set_simulation_enabled enabled s

  -- The stream that the Home screen starts if nothing is sent.
  unfoldable pub home_stream : d.State → d.State
  home_stream s =
      if not (d.brew_active s) && not (d.sim_enabled s) then d.set_simulation_enabled true s else s

module _ {t : Transport} {d : DataManager} where
  unfoldable pub forward_simulation : Option Bool → World t d → Ends (World t d)
  unfolding send_if_open
  forward_simulation none w = done w
  forward_simulation (some enabled) w =
      send_if_open
        (if d.sim_enabled w.payload then text "DataSimulationOn" else text "DataSimulationOFF") w

  unfoldable pub configure_data_simulation :
      Option Bool → Option d.Float → Option d.Float → Option ℕ → World t d → Ends (World t d)
  unfolding forward_simulation
  configure_data_simulation enabled amplitude frequency interval w =
      forward_simulation enabled (
        on_payload (λ s. set_enabled d enabled (d.configure_sine amplitude frequency interval s)) w)

  -- Whether the port is open is read once, before both sends.
  unfoldable pub forward_home : Bool → Option ℕ → World t d → Ends (World t d)
  unfolding send_logged
  forward_home open_before none w = done w
  forward_home open_before (some id) w =
      if open_before
      then send_logged
          (text "ProfileSelection;profile="
            ++ (show_int (d.selected_profile w.payload) ++ text ";offline=0"))
          w
      else done w

  -- `configure_lcd_home_data` behind the calls of the manager
  unfoldable pub forward_home_data : Option ℕ → World t d → Ends (World t d)
  unfolding forward_home send_logged
  forward_home_data profile_id w =
      let open_before = t.port_open w.serial in
      (if open_before && d.sim_enabled w.payload
        then send_logged (text "DataSimulationOn") w
        else done w)
      ▸ forward_home open_before profile_id

  unfoldable pub configure_lcd_home_data : HomeRequest d.Float → World t d → Ends (World t d)
  unfolding home_stream forward_home_data
  configure_lcd_home_data r w =
      ask_payload (λ s. d.configure_home r (d.configure_sine none none (some 1000) s)) w ▸ λ w.
      forward_home_data r.profile_id (on_payload (home_stream d) w)

  unfoldable pub reset_total_errors : World t d → Ends (World t d)
  unfolding send_if_open
  reset_total_errors w = send_if_open (text "telemetry_reset") w ▸ λ w.
      done (on_link (λ l. record l { total_error_count = 0 }) w)

  unfoldable pub reset_transport_max_delay : World t d → Ends (World t d)
  unfolding send_if_open
  reset_transport_max_delay w = send_if_open (text "telemetry_reset_max_delay") w ▸ λ w.
      done (on_link (λ l. record l { transport_max_delay_ms = 0 }) w)
