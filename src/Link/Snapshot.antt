-- ===== src/Link/Snapshot.antt =====
-- server/sim/link_state_machine.py: `get_snapshot`, which the UI polls, and its parts. The
-- snapshot's own fields are not modelled, only what making it changes.
use gaggia_esp_c3_mini_serve.Prelude.{
  ℕ, ◌+◌, Bool, true, false, not, ◌&&◌, Option, none, some, leb, if◌then◌else◌,
}
use gaggia_esp_c3_mini_serve.FrameCodec.{MessageType}
use gaggia_esp_c3_mini_serve.Python.Text.{text, Unicode}
use gaggia_esp_c3_mini_serve.Link.State.{
  Link, LinkState, running_integer_timeout_ms, in_keepalive, set_runtime_fault,
}
use gaggia_esp_c3_mini_serve.Link.Interfaces.{Transport, DataManager}
use gaggia_esp_c3_mini_serve.Link.World.{
  World, Ends, done, ◌▸◌, catch_runtime, on_link, send_command, advance_automatic_flow,
}
use gaggia_esp_c3_mini_serve.Link.Frames.{poll_received_frames}

-- RESET, ERROR and DISCONNECT do not expect an open port.
abbrev pub expects_port : LinkState → Bool
expects_port LinkState.reset = false
expects_port LinkState.error = false
expects_port LinkState.disconnect = false
expects_port _ = true

abbrev late : Option ℕ → ℕ → Bool
late none now = false
late (some at) now = not (leb now (at + running_integer_timeout_ms))

abbrev awaits_client : LinkState → Bool
awaits_client LinkState.keepalive_client_return = true
awaits_client _ = false

-- `_enforce_running_integer_timeout_locked`
unfoldable pub enforce_timeout : ℕ → Link → Link
enforce_timeout now l =
    if l.running_integer_seeded
      && (awaits_client l.current_state && late l.last_running_integer_rx_at now)
    then record l {
      watchdog_timeout_count = l.watchdog_timeout_count + 1;
      last_running_integer_rx_at = some now;
    }
    else l

-- The end of a brew schedules the `shot_done_success` message, three seconds on; a brew that runs
-- cancels it.
unfoldable pub schedule_shot_done : ℕ → Bool → Link → Link
schedule_shot_done mono brew_active l =
    if brew_active
    then record l { shot_done_pending = false; shot_done_due = 0 }
    else if l.last_brew_active
    then record l { shot_done_pending = true; shot_done_due = mono + 3000 }
    else l

unfoldable pub shot_done_now : ℕ → Bool → Link → Bool
shot_done_now mono brew_active l =
    l.shot_done_pending && (not brew_active && leb l.shot_done_due mono)

unfoldable pub drop_shot_done : Link → Link
drop_shot_done l = record l { shot_done_pending = false; shot_done_due = 0 }

module _ {t : Transport} {d : DataManager} where
  -- `_check_port_alive_locked`
  unfoldable pub check_port_alive : World t d → World t d
  check_port_alive w =
      if expects_port w.link.current_state && not (t.port_open w.serial)
      then on_link (set_runtime_fault (text "Serial port disconnected unexpectedly.")) w
      else w

  unfoldable pub send_shot_done : ℕ → Bool → World t d → Ends (World t d)
  unfolding drop_shot_done shot_done_now send_command
  send_shot_done mono brew_active w =
      if shot_done_now mono brew_active w.link
      then (if t.port_open w.serial && (w.link.tcp_connected && in_keepalive w.link.current_state)
          then catch_runtime (λ message w. done w)
              (send_command MessageType.payload_data (text "shot_done_success") w ▸ λ w.
                done (on_link drop_shot_done w))
          else done (on_link drop_shot_done w))
      else done w

  -- What `_snapshot_locked` changes. `mono` is `monotonic()`.
  unfoldable pub snapshot : ℕ → World t d → Ends (World t d)
  unfolding schedule_shot_done send_shot_done
  snapshot mono w =
      let brew_active = d.brew_active w.payload in
      send_shot_done mono brew_active (on_link (schedule_shot_done mono brew_active) w) ▸ λ w.
      done (on_link (λ l. record l { last_brew_active = brew_active }) w)

  -- `get_snapshot`
  unfoldable pub get_snapshot : Unicode → ℕ → ℕ → World t d → Ends (World t d)
  unfolding poll_received_frames check_port_alive enforce_timeout advance_automatic_flow snapshot
  get_snapshot u now mono w = poll_received_frames u now w ▸ λ w.
      advance_automatic_flow (on_link (enforce_timeout now) (check_port_alive w)) ▸ snapshot mono
