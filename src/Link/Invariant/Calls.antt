-- ===== src/Link/Invariant/Calls.antt =====
-- server/sim/link_state_machine.py: the calls of `LinkRuntime` keep the invariant.
use gaggia_esp_c3_mini_serve.Prelude.{
  ℕ, ◌+◌, ◌==◌, ◌&&◌, if◌then◌else◌, Bool, true, false, not, ◌++◌, Option, none, some, [],
  Option-cases, Bool-cases, inl, inr, arith,
}
use gaggia_esp_c3_mini_serve.Prelude.Bytes.{Bytes}
use gaggia_esp_c3_mini_serve.FrameCodec.{MessageType}
use gaggia_esp_c3_mini_serve.Python.{Raised}
use gaggia_esp_c3_mini_serve.Python.Text.{Text, text, strip, eq_text, or_else, Unicode}
use gaggia_esp_c3_mini_serve.Python.Integer.{show_int}
use gaggia_esp_c3_mini_serve.Link.State.{
  Link, LinkState, TransportConfig, in_keepalive, is_error, clear_runtime_flow, set_state,
}
use gaggia_esp_c3_mini_serve.Link.Interfaces.{Transport, DataManager, HomeRequest}
use gaggia_esp_c3_mini_serve.Link.World.{World, Ends, done, on_link, try_send, begin_initialize}
use gaggia_esp_c3_mini_serve.Link.Client.{on_payload, ask_payload, send_logged}
use gaggia_esp_c3_mini_serve.Link.Opening.{Opened, open_with_retry}
use gaggia_esp_c3_mini_serve.Link.Commands.{
  ConfigRequest, updated_config, configure_port, configure_transport, close_transport,
  force_release_transport, on_serial, reset_link, idle_link, closed_link, open_failed, send_if_open,
  reset, opened, open_transport, toggle_wifi_enabled, after_poll_initialize, initialize,
  send_data_now, send_data, after_downlink, send_downlink_now, send_downlink,
}
use gaggia_esp_c3_mini_serve.Link.Controls.{
  set_enabled, home_stream, forward_simulation, configure_data_simulation, forward_home,
  forward_home_data, configure_lcd_home_data, reset_total_errors, reset_transport_max_delay,
}
use gaggia_esp_c3_mini_serve.Link.Frames.{poll_received_frames}
use gaggia_esp_c3_mini_serve.Link.Invariant.{
  FlowInv, LinkInv, set_runtime_fault-LinkInv, next_sequence-LinkInv, clear_runtime_flow-FlowInv,
}
use gaggia_esp_c3_mini_serve.Link.Invariant.Sending.{
  WorldInv, EndsInv, ends, ▸-inv, try_send-inv, begin_initialize-inv,
}
use gaggia_esp_c3_mini_serve.Link.Invariant.Polling.{
  if-inv, send_logged-inv, poll_received_frames-inv,
}

reset_link-LinkInv : (l : Link) → FlowInv l → LinkInv (reset_link l)
unfolding reset_link
reset_link-LinkInv l h = ground arith

idle_link-LinkInv : (b : Bool) (l : Link) → FlowInv l → LinkInv (idle_link b l)
unfolding idle_link
idle_link-LinkInv b l h = ground arith

closed_link-LinkInv : (l : Link) → FlowInv l → LinkInv (closed_link l)
unfolding closed_link
closed_link-LinkInv l h = ground arith

bridge_noted : (b : Bool) (l : Link) → LinkInv l → LinkInv (record l { bridge_ready = b })
bridge_noted b l h = ground arith

open_failed-LinkInv :
    (port cause : Text) (l : Link) → LinkInv l → LinkInv (open_failed port cause l)
unfolding open_failed
open_failed-LinkInv port cause l h =
    set_runtime_fault-LinkInv
      (text "COM open failed on "
        ++ (port ++ (text ": " ++ or_else cause (text "COM port not found"))))
      (record l { bridge_ready = false }) (bridge_noted false l h).flow

awaits_initialize :
    (l : Link) → LinkInv l → LinkInv (record l { pending_auto_stage = some LinkState.initialize })
awaits_initialize l h = ground arith

config_set : (c : TransportConfig) (l : Link) → LinkInv l → LinkInv (record l { config = c })
config_set c l h = ground arith

downlink_counted :
    (l : Link)
    → LinkInv l
    → LinkInv (record l { data_frames_tx_count = l.data_frames_tx_count + 1 })
downlink_counted l h = ground arith

wifi_toggled : (l : Link) → LinkInv l → LinkInv (record l { wifi_enabled = not l.wifi_enabled })
wifi_toggled l h = ground arith

setup_complete :
    (l : Link)
    → LinkInv l
    → LinkInv (record l { initialize_completed = true; connect_completed = true })
setup_complete l h = ground arith

error_text_cleared : (l : Link) → LinkInv l → LinkInv (set_state l.current_state [] l)
error_text_cleared l h = ground arith

errors_cleared : (l : Link) → LinkInv l → LinkInv (record l { total_error_count = 0 })
errors_cleared l h = ground arith

delay_cleared : (l : Link) → LinkInv l → LinkInv (record l { transport_max_delay_ms = 0 })
delay_cleared l h = ground arith

module _ {t : Transport} {d : DataManager} where
  send_if_open-inv :
      (payload : Text) (w : World t d) → WorldInv w → EndsInv (send_if_open payload w)
  unfolding send_if_open
  send_if_open-inv payload w h =
      if-inv (t.port_open w.serial) (send_logged payload w) (done w) (send_logged-inv payload w h)
        (ends h)

  pub close_transport-inv : (w : World t d) → WorldInv w → WorldInv (close_transport w)
  unfolding close_transport
  close_transport-inv w h = closed_link-LinkInv w.link h.flow

  pub force_release_transport-inv :
      (w : World t d) → WorldInv w → WorldInv (force_release_transport w)
  unfolding force_release_transport
  force_release_transport-inv w h = idle_link-LinkInv false w.link h.flow

  pub configure_port-inv :
      (name : Text) (w : World t d) → WorldInv w → WorldInv (configure_port name w)
  unfolding configure_port
  configure_port-inv name w h =
      config_set (record w.link.config { serial_port = or_else (strip name) (text "COM4") }) w.link
        h

  pub configure_transport-inv :
      (r : ConfigRequest) (w : World t d) → WorldInv w → WorldInv (configure_transport r w)
  unfolding configure_transport
  configure_transport-inv r w h = elim (Option-cases r.serial_port) [
    | inl e ↦ rw (e, configure_transport) (config_set (updated_config r w.link.config) w.link h)
    | inr (name, e) ↦
        rw (e, configure_transport) (config_set (updated_config r w.link.config) w.link h)
  ]

  after_downlink-inv :
      (r : Option Raised) (w : World t d) → WorldInv w → WorldInv (after_downlink r w)
  after_downlink-inv none w h = downlink_counted w.link h
  after_downlink-inv (some e) w h = h

  pub send_downlink-inv :
      (bytes : Bytes) (w : World t d) → WorldInv w → WorldInv (send_downlink bytes w)
  unfolding send_downlink send_downlink_now
  send_downlink-inv bytes w h = elim (Bool-cases (in_keepalive w.link.current_state)) [
    | inl e ↦ rw e (after_downlink-inv _ _ (next_sequence-LinkInv w.link h))
    | inr e ↦ rw e h
  ]

  pub reset-inv : (w : World t d) → FlowInv w.link → EndsInv (reset w)
  unfolding reset
  reset-inv w h =
      try_send-inv MessageType.reset (text "reset") (text "reset transmit failed")
        (λ w. done (on_link (λ l. record l { pending_auto_stage = some LinkState.initialize }) w))
        (on_link reset_link (on_serial t.clear_buffers w))
        (λ w k. ends (awaits_initialize w.link k)) (reset_link-LinkInv w.link h)

  opened-inv : (o : Opened t.State) (w : World t d) → WorldInv w → EndsInv (opened o w)
  unfolding opened
  opened-inv o w h =
      let failed = λ (l : Link). open_failed l.config.serial_port o.cause l in
      let w' = record w { serial = o.serial } in
      let started =
        on_payload d.start
          (on_serial t.clear_buffers (on_link (λ l. record l { bridge_ready = true }) w')) in
      if-inv (o.attempts == 0) (done (on_link failed w')) (reset started)
        (ends (open_failed-LinkInv w.link.config.serial_port o.cause w.link h))
        (reset-inv started (bridge_noted true w.link h).flow)

  pub open_transport-inv : (u : Unicode) (w : World t d) → WorldInv w → EndsInv (open_transport u w)
  unfolding open_transport
  open_transport-inv u w h =
      if-inv (t.port_open w.serial && eq_text (t.port_name w.serial) w.link.config.serial_port)
        (done w) (opened (open_with_retry t u w.serial) w) (ends h)
        (opened-inv (open_with_retry t u w.serial) w h)

  pub toggle_wifi_enabled-inv : (w : World t d) → WorldInv w → EndsInv (toggle_wifi_enabled w)
  unfolding toggle_wifi_enabled
  toggle_wifi_enabled-inv w h =
      let toggled = on_link (λ l. record l { wifi_enabled = not l.wifi_enabled }) w in
      let told = if toggled.link.wifi_enabled then text "wifi_enable" else text "wifi_disable" in
      ▸-inv (send_if_open told toggled) (λ w'. done (on_link (idle_link (t.port_open w.serial)) w'))
        (send_if_open-inv told toggled (wifi_toggled w.link h))
        (λ w' k. ends (idle_link-LinkInv (t.port_open w.serial) w'.link k.flow))

  after_poll_initialize-inv : (w : World t d) → WorldInv w → EndsInv (after_poll_initialize w)
  unfolding after_poll_initialize
  after_poll_initialize-inv w h =
      if-inv (is_error w.link.current_state) (done w)
        (begin_initialize (on_link clear_runtime_flow w)) (ends h)
        (begin_initialize-inv (on_link clear_runtime_flow w)
          (clear_runtime_flow-FlowInv w.link h.flow))

  pub initialize-inv :
      (u : Unicode) (now : ℕ) (w : World t d) → WorldInv w → EndsInv (initialize u now w)
  unfolding initialize
  initialize-inv u now w h =
      ▸-inv (poll_received_frames u now w) after_poll_initialize
        (poll_received_frames-inv u now w h) after_poll_initialize-inv

  send_data_now-inv :
      (payload : Text) (w : World t d) → WorldInv w → EndsInv (send_data_now payload w)
  unfolding send_data_now
  send_data_now-inv payload w h =
      let complete =
        on_link (λ l. record l { initialize_completed = true; connect_completed = true }) w in
      let cleared : World t d → Ends (World t d) =
        λ w. done (on_link (λ l. set_state l.current_state [] l) w) in
      let prefix = text "send data transmit failed" in
      if-inv (in_keepalive w.link.current_state)
        (try_send MessageType.payload_data payload prefix cleared complete) (done w)
        (try_send-inv MessageType.payload_data payload prefix cleared complete
          (λ w k. ends (error_text_cleared w.link k)) (setup_complete w.link h))
        (ends h)

  pub send_data-inv :
      (u : Unicode) (now : ℕ) (payload : Text) (w : World t d)
      → WorldInv w
      → EndsInv (send_data u now payload w)
  unfolding send_data
  send_data-inv u now payload w h =
      ▸-inv (poll_received_frames u now w) (send_data_now payload)
        (poll_received_frames-inv u now w h) (send_data_now-inv payload)

  forward_simulation-inv :
      (o : Option Bool) (w : World t d) → WorldInv w → EndsInv (forward_simulation o w)
  unfolding forward_simulation
  forward_simulation-inv none w h = ends h
  forward_simulation-inv (some b) w h =
      send_if_open-inv
        (if d.sim_enabled w.payload then text "DataSimulationOn" else text "DataSimulationOFF") w h

  pub configure_data_simulation-inv :
      (e : Option Bool) (a f : Option d.Float) (i : Option ℕ) (w : World t d)
      → WorldInv w
      → EndsInv (configure_data_simulation e a f i w)
  unfolding configure_data_simulation
  configure_data_simulation-inv e a f i w h =
      forward_simulation-inv e (on_payload (λ s. set_enabled d e (d.configure_sine a f i s)) w) h

  forward_home-inv :
      (b : Bool) (o : Option ℕ) (w : World t d) → WorldInv w → EndsInv (forward_home b o w)
  unfolding forward_home
  forward_home-inv b none w h = ends h
  forward_home-inv b (some id) w h =
      let selection =
        text "ProfileSelection;profile="
        ++ (show_int (d.selected_profile w.payload) ++ text ";offline=0") in
      if-inv b (send_logged selection w) (done w) (send_logged-inv selection w h) (ends h)

  forward_home_data-inv :
      (o : Option ℕ) (w : World t d) → WorldInv w → EndsInv (forward_home_data o w)
  unfolding forward_home_data
  forward_home_data-inv o w h =
      let simulates = t.port_open w.serial && d.sim_enabled w.payload in
      ▸-inv (if simulates then send_logged (text "DataSimulationOn") w else done w)
        (forward_home (t.port_open w.serial) o)
        (if-inv simulates (send_logged (text "DataSimulationOn") w) (done w)
          (send_logged-inv (text "DataSimulationOn") w h) (ends h))
        (forward_home-inv (t.port_open w.serial) o)

  pub configure_lcd_home_data-inv :
      (r : HomeRequest d.Float) (w : World t d) → WorldInv w → EndsInv (configure_lcd_home_data r w)
  unfolding configure_lcd_home_data
  configure_lcd_home_data-inv r w h =
      ▸-inv (ask_payload (λ s. d.configure_home r (d.configure_sine none none (some 1000) s)) w)
        (λ w. forward_home_data r.profile_id (on_payload (home_stream d) w)) (ends h)
        (λ w k. forward_home_data-inv r.profile_id (on_payload (home_stream d) w) k)

  pub reset_total_errors-inv : (w : World t d) → WorldInv w → EndsInv (reset_total_errors w)
  unfolding reset_total_errors
  reset_total_errors-inv w h =
      ▸-inv (send_if_open (text "telemetry_reset") w)
        (λ w. done (on_link (λ l. record l { total_error_count = 0 }) w))
        (send_if_open-inv (text "telemetry_reset") w h) (λ w k. ends (errors_cleared w.link k))

  pub reset_transport_max_delay-inv :
      (w : World t d) → WorldInv w → EndsInv (reset_transport_max_delay w)
  unfolding reset_transport_max_delay
  reset_transport_max_delay-inv w h =
      ▸-inv (send_if_open (text "telemetry_reset_max_delay") w)
        (λ w. done (on_link (λ l. record l { transport_max_delay_ms = 0 }) w))
        (send_if_open-inv (text "telemetry_reset_max_delay") w h)
        (λ w k. ends (delay_cleared w.link k))
