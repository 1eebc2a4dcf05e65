-- ===== src/Link/Calls.antt =====
-- server/api/routes.py: the routes, each a call of `LinkRuntime` under `_run_snapshot_action`.
use gaggia_esp_c3_mini_serve.Prelude.{ℕ, Bool, Option, none, some, List, [], ◌∷◌, ◌++◌}
use gaggia_esp_c3_mini_serve.Prelude.Bytes.{Bytes}
use gaggia_esp_c3_mini_serve.Python.{Raised, runtime_error}
use gaggia_esp_c3_mini_serve.Python.Text.{Text, text, or_else, Unicode}
use gaggia_esp_c3_mini_serve.Link.State.{set_runtime_fault}
use gaggia_esp_c3_mini_serve.Link.Interfaces.{Transport, DataManager, HomeRequest}
use gaggia_esp_c3_mini_serve.Link.World.{World, Ends, ◌▸◌, on_link}
use gaggia_esp_c3_mini_serve.Link.Snapshot.{snapshot, get_snapshot}
use gaggia_esp_c3_mini_serve.Link.Commands
use gaggia_esp_c3_mini_serve.Link.Commands.{ConfigRequest}
use gaggia_esp_c3_mini_serve.Link.Controls

-- The routes and their requests. Opening the port sets its name first.
pub data Call (F : Type 0) : Type 0 where
  link_snapshot close_transport release_com toggle_wifi : Call F
  command_reset command_initialize command_keepalive : Call F
  open_transport : Text → Call F
  update_config : ConfigRequest → Call F
  send_data : Text → Call F
  simulation_config : Option Bool → Option F → Option F → Option ℕ → Call F
  lcd_home : HomeRequest F → Call F
  reset_total_errors reset_max_delay : Call F

-- When a call is made: the two clocks that it reads.
pub record Clock : Type 0 where
  pub now : ℕ
  pub mono : ℕ

-- What the caller of a route is told: a snapshot, an error 400, or a server error where making the
-- snapshot of a caught failure fails too.
pub data Reply : Type 0 where
  snapshot_reply bad_request server_error : Reply

module _ {t : Transport} {d : DataManager} (u : Unicode) where
  unfoldable pub perform : Call d.Float → Clock → World t d → Ends (World t d)
  perform link_snapshot c w = get_snapshot u c.now c.mono w
  perform (open_transport name) c w = snapshot c.mono (Commands.configure_port name w) ▸ λ w.
      Commands.open_transport u w ▸ snapshot c.mono
  perform close_transport c w = snapshot c.mono (Commands.close_transport w)
  perform release_com c w = snapshot c.mono (Commands.force_release_transport w)
  perform toggle_wifi c w = Commands.toggle_wifi_enabled w ▸ snapshot c.mono
  perform command_reset c w = Commands.reset w ▸ snapshot c.mono
  perform command_initialize c w = Commands.initialize u c.now w ▸ snapshot c.mono
  perform command_keepalive c w = Commands.send_keepalive u c.now w ▸ snapshot c.mono
  perform (update_config r) c w = snapshot c.mono (Commands.configure_transport r w)
  perform (send_data payload) c w = Commands.send_data u c.now payload w ▸ snapshot c.mono
  perform (simulation_config e a f i) c w =
      Controls.configure_data_simulation e a f i w ▸ snapshot c.mono
  perform (lcd_home r) c w = Controls.configure_lcd_home_data r w ▸ snapshot c.mono
  perform reset_total_errors c w = Controls.reset_total_errors w ▸ snapshot c.mono
  perform reset_max_delay c w = Controls.reset_transport_max_delay w ▸ snapshot c.mono

module _ {t : Transport} {d : DataManager} where
  -- `capture_internal_failure`; `detail` is the exception as `traceback` writes it.
  unfoldable pub capture_internal_failure : Text → Text → Clock → World t d → Ends (World t d)
  unfolding set_runtime_fault
  capture_internal_failure context detail c w = snapshot c.mono (
      on_link
        (set_runtime_fault
          (context ++ (text ": " ++ or_else detail (text "generic unknown failure"))))
        w)

  unfoldable pub after_capture : Ends (World t d) → Reply × World t d
  after_capture (none, w) = (snapshot_reply, w)
  after_capture (some e, w) = (server_error, w)

  unfoldable pub after_action :
      Text → (Raised → Text) → Clock → Ends (World t d) → Reply × World t d
  unfolding capture_internal_failure after_capture
  after_action name detail c (none, w) = (snapshot_reply, w)
  after_action name detail c (some (runtime_error message), w) = (bad_request, w)
  after_action name detail c (some e, w) =
      after_capture (capture_internal_failure name (detail e) c w)

  -- `_run_snapshot_action`
  unfoldable pub run_snapshot_action :
      Unicode → Text → (Raised → Text) → Call d.Float → Clock → World t d → Reply × World t d
  unfolding perform after_action
  run_snapshot_action u name detail call c w = after_action name detail c (perform u call c w)

-- What happens to the runtime: a request, a packet of the sender thread of `data_payload_manager`, a
-- step of the reader thread, or a step of the sender thread that does not call the runtime.
pub data Event (t : Transport) (d : DataManager) : Type 0 where
  call : Text → Call d.Float → Clock → Event t d
  downlink : Bytes → Event t d
  reader : (t.State → t.State) → Event t d
  sender : (d.State → d.State) → Event t d

module _ {t : Transport} {d : DataManager} (u : Unicode) (detail : Raised → Text) where
  unfoldable pub handle : Event t d → World t d → World t d
  unfolding run_snapshot_action
  handle (call name c clock) w = (run_snapshot_action u name detail c clock w).1
  handle (downlink bytes) w = Commands.send_downlink bytes w
  handle (reader step) w = record w { serial = step w.serial }
  handle (sender step) w = record w { payload = step w.payload }

  unfoldable pub run : List (Event t d) → World t d → World t d
  unfolding handle
  run [] w = w
  run (e ∷ es) w = run es (handle e w)
