-- ===== src/Link/Invariant/Histories.antt =====
-- server/api/routes.py: every call of the API, and every history of calls, keeps the invariant.
use gaggia_esp_c3_mini_serve.Prelude.{List, [], ◌∷◌, none, some, ◌++◌}
use gaggia_esp_c3_mini_serve.Python.{
  Raised, runtime_error, value_error, overflow_error, other_error,
}
use gaggia_esp_c3_mini_serve.Python.Text.{Text, text, or_else, Unicode}
use gaggia_esp_c3_mini_serve.Link.State.{set_runtime_fault}
use gaggia_esp_c3_mini_serve.Link.Interfaces.{Transport, DataManager}
use gaggia_esp_c3_mini_serve.Link.World.{World, Ends, ◌▸◌, on_link}
use gaggia_esp_c3_mini_serve.Link.Snapshot.{snapshot}
use gaggia_esp_c3_mini_serve.Link.Commands
use gaggia_esp_c3_mini_serve.Link.Controls
use gaggia_esp_c3_mini_serve.Link.Calls.{
  Call, Clock, link_snapshot, close_transport, release_com, toggle_wifi, command_reset,
  command_initialize, command_keepalive, open_transport, update_config, send_data,
  simulation_config, lcd_home, reset_total_errors, reset_max_delay, perform, after_capture,
  after_action, capture_internal_failure, run_snapshot_action, Event, call, downlink, reader,
  sender, handle, run,
}
use gaggia_esp_c3_mini_serve.Link.Invariant.{LinkInv, set_runtime_fault-LinkInv}
use gaggia_esp_c3_mini_serve.Link.Invariant.Sending.{WorldInv, EndsInv, ▸-inv}
use gaggia_esp_c3_mini_serve.Link.Invariant.Polling.{
  poll_received_frames-inv, snapshot-inv, get_snapshot-inv,
}
use gaggia_esp_c3_mini_serve.Link.Invariant.Calls.{
  configure_port-inv, close_transport-inv, force_release_transport-inv, configure_transport-inv,
  send_downlink-inv, reset-inv, open_transport-inv, toggle_wifi_enabled-inv, initialize-inv,
  send_data-inv, configure_data_simulation-inv, configure_lcd_home_data-inv, reset_total_errors-inv,
  reset_transport_max_delay-inv,
}

module _ {t : Transport} {d : DataManager} where
  snapshot_after : (c : Clock) (r : Ends (World t d)) → EndsInv r → EndsInv (r ▸ snapshot c.mono)
  snapshot_after c r h = ▸-inv r (snapshot c.mono) h (snapshot-inv c.mono)

  perform-inv :
      (u : Unicode) (r : Call d.Float) (c : Clock) (w : World t d)
      → WorldInv w
      → EndsInv (perform u r c w)
  unfolding perform
  perform-inv u link_snapshot c w h = get_snapshot-inv u c.now c.mono w h
  perform-inv u (open_transport name) c w h =
      ▸-inv (snapshot c.mono (Commands.configure_port name w))
        (λ w. Commands.open_transport u w ▸ snapshot c.mono)
        (snapshot-inv c.mono (Commands.configure_port name w) (configure_port-inv name w h))
        (λ w k. snapshot_after c (Commands.open_transport u w) (open_transport-inv u w k))
  perform-inv u close_transport c w h =
      snapshot-inv c.mono (Commands.close_transport w) (close_transport-inv w h)
  perform-inv u release_com c w h =
      snapshot-inv c.mono (Commands.force_release_transport w) (force_release_transport-inv w h)
  perform-inv u toggle_wifi c w h =
      snapshot_after c (Commands.toggle_wifi_enabled w) (toggle_wifi_enabled-inv w h)
  perform-inv u command_reset c w h = snapshot_after c (Commands.reset w) (reset-inv w h.flow)
  perform-inv u command_initialize c w h =
      snapshot_after c (Commands.initialize u c.now w) (initialize-inv u c.now w h)
  perform-inv u command_keepalive c w h =
      snapshot_after c (Commands.send_keepalive u c.now w)
        (unfold Commands.send_keepalive in poll_received_frames-inv u c.now w h)
  perform-inv u (update_config r) c w h =
      snapshot-inv c.mono (Commands.configure_transport r w) (configure_transport-inv r w h)
  perform-inv u (send_data payload) c w h =
      snapshot_after c (Commands.send_data u c.now payload w) (send_data-inv u c.now payload w h)
  perform-inv u (simulation_config e a f i) c w h =
      snapshot_after c (Controls.configure_data_simulation e a f i w)
        (configure_data_simulation-inv e a f i w h)
  perform-inv u (lcd_home r) c w h =
      snapshot_after c (Controls.configure_lcd_home_data r w) (configure_lcd_home_data-inv r w h)
  perform-inv u reset_total_errors c w h =
      snapshot_after c (Controls.reset_total_errors w) (reset_total_errors-inv w h)
  perform-inv u reset_max_delay c w h =
      snapshot_after c (Controls.reset_transport_max_delay w) (reset_transport_max_delay-inv w h)

  after_capture-inv : (r : Ends (World t d)) → EndsInv r → WorldInv (after_capture r).1
  unfolding after_capture
  after_capture-inv (none, w) h = h.inv
  after_capture-inv (some e, w) h = h.inv

  capture-inv :
      (context detail : Text) (c : Clock) (w : World t d)
      → WorldInv w
      → EndsInv (capture_internal_failure context detail c w)
  unfolding capture_internal_failure
  capture-inv context detail c w h =
      let message = context ++ (text ": " ++ or_else detail (text "generic unknown failure")) in
      snapshot-inv c.mono (on_link (set_runtime_fault message) w)
        (set_runtime_fault-LinkInv message w.link h.flow)

  after_action-inv :
      (name : Text) (detail : Raised → Text) (c : Clock) (r : Ends (World t d))
      → EndsInv r
      → WorldInv (after_action name detail c r).1
  unfolding after_action
  after_action-inv name detail c (none, w) h = h.inv
  after_action-inv name detail c (some (runtime_error m), w) h = h.inv
  after_action-inv name detail c (some value_error, w) h =
      let r = capture_internal_failure name (detail value_error) c w in
      after_capture-inv r (capture-inv name (detail value_error) c w h.inv)
  after_action-inv name detail c (some overflow_error, w) h =
      let r = capture_internal_failure name (detail overflow_error) c w in
      after_capture-inv r (capture-inv name (detail overflow_error) c w h.inv)
  after_action-inv name detail c (some other_error, w) h =
      let r = capture_internal_failure name (detail other_error) c w in
      after_capture-inv r (capture-inv name (detail other_error) c w h.inv)

  handle-inv :
      (u : Unicode) (detail : Raised → Text) (e : Event t d) (w : World t d)
      → WorldInv w
      → WorldInv (handle u detail e w)
  unfolding handle run_snapshot_action
  handle-inv u detail (call name r c) w h =
      after_action-inv name detail c (perform u r c w) (perform-inv u r c w h)
  handle-inv u detail (downlink bytes) w h = send_downlink-inv bytes w h
  handle-inv u detail (reader step) w h = h
  handle-inv u detail (sender step) w h = h

-- From a state in which the invariant of `LinkRuntime` holds, it holds after every history of
-- requests, downlink packets, and steps of the reader and sender threads, also where requests end
-- with an exception: in a keepalive state both setup stages are complete, in the error state the
-- connection fault is latched, an armed watchdog has a seeded live integer and complete stages, a
-- seeded live integer has a time of its last reception, and the sequence number fits 16 bits.
pub run-LinkInv :
    {t : Transport} {d : DataManager} (u : Unicode) (detail : Raised → Text) (es : List (Event t d))
    (w : World t d)
    → LinkInv w.link
    → LinkInv (run u detail es w).link
unfolding run
run-LinkInv u detail [] w h = h
run-LinkInv u detail (e ∷ es) w h =
    run-LinkInv u detail es (handle u detail e w) (handle-inv u detail e w h)
