-- ===== src/Tests/Link.antt =====
-- server/sim/link_state_machine.py at a concrete runtime, serial port and data manager.
use gaggia_esp_c3_mini_serve.Prelude.{
  ℕ, ◌≡◌, refl, ◌⊎◌, inl, false, ltb, if◌then◌else◌, none, some, List, [], ◌∷◌, arith,
}
use gaggia_esp_c3_mini_serve.FrameCodec.{Frame, MessageType}
use gaggia_esp_c3_mini_serve.Python.{Raised, value_error}
use gaggia_esp_c3_mini_serve.Python.Text.{
  Text, text, strip, show, split, lower, starts_with, isdigit, int_of, ascii_only,
}
use gaggia_esp_c3_mini_serve.Python.Payload.{parse_u32}
use gaggia_esp_c3_mini_serve.Python.Utf8.{encode, decode_ignore}
use gaggia_esp_c3_mini_serve.SerialLink.State
use gaggia_esp_c3_mini_serve.SerialLink.State.{Handle, Serial, Opening, opened, refused}
use gaggia_esp_c3_mini_serve.Link.State.{
  LinkState, new, default_config, validate_config, build_initialize_payload,
}
use gaggia_esp_c3_mini_serve.Link.Interfaces.{Transport, DataManager, HomeRequest}
use gaggia_esp_c3_mini_serve.Link.PayloadManager.{data_payload_manager}
use gaggia_esp_c3_mini_serve.Downlink.State.{Manager}
use gaggia_esp_c3_mini_serve.Python.Object.{dict, nothing}
use gaggia_esp_c3_mini_serve.Link.SerialTransport.{Port, serial_transport}
use gaggia_esp_c3_mini_serve.Link.World.{World, done, ◌▸◌, on_link}
use gaggia_esp_c3_mini_serve.SerialLink.Metadata.{payload_text}
use gaggia_esp_c3_mini_serve.Link.Telemetry.{Direction, classify_keepalive}
use gaggia_esp_c3_mini_serve.Link.Frames.{
  counters_match, handle_frame, handle_acknowledgement, keepalive_by, poll_received_frames,
}
use gaggia_esp_c3_mini_serve.Link.Snapshot.{get_snapshot}
use gaggia_esp_c3_mini_serve.Link.Commands.{reset}
use gaggia_esp_c3_mini_serve.Link.Calls.{
  Clock, Event, call, downlink, reader, sender, run, command_reset, link_snapshot, lcd_home,
  send_data,
}
use gaggia_esp_c3_mini_serve.Link.Invariant.{LinkInv, new-LinkInv}
use gaggia_esp_c3_mini_serve.Link.Invariant.Histories.{run-LinkInv}
use gaggia_esp_c3_mini_serve.Link.Keepalive.{
  Matches, Accepted, Encodable, keepalive_by-accepts, keepalive_by-Encodable,
}
use gaggia_esp_c3_mini_serve.Link.Flow.Quiet.{quiet_device, Ready, PortReady, quiet-Working}
use gaggia_esp_c3_mini_serve.Link.Flow.Setup.{Connected, setup-Connected}
use gaggia_esp_c3_mini_serve.Link.Flow.Stall.{polls, Stalled, reset_ack-Stalled}
use gaggia_esp_c3_mini_serve.Link.Escapes.{poll_received_frames-unreadable}
use gaggia_esp_c3_mini_serve.Link.Mismatch.{Kept, IsExchange, handle_frame-mismatch}
use gaggia_esp_c3_mini_serve.Tests.Numbers.{Milli, milli, infinity, thousandths}
use gaggia_esp_c3_mini_serve.Tests.Downlink.{brewing}
use gaggia_esp_c3_mini_serve.Tests.Data.{superscripts, frame_a, frame_a-IsFrame, port, manager}

-- The program's data manager on thousandths, with a clock that stands still and a failing call that
-- leaves the state as it was.
abbrev bench : DataManager
bench = data_payload_manager thousandths ascii_only (λ n. milli 10000) (λ e m. m)

abbrev answer : ℕ → Opening
answer n = if ltb n 2 then refused (97 ∷ []) else opened port

abbrev no_kills : ℕ → List ℕ
no_kills n = []

abbrev transport : Transport
transport = serial_transport ascii_only quiet_device answer no_kills

abbrev ready_port : Port
ready_port = record { manager = manager; opens = 0; releases = 0 }

abbrev start : World transport bench
start = record {
  link = new;
  serial = ready_port;
  payload = record { manager = brewing; readings = 0 };
}

abbrev at_once : Clock
at_once = record { now = 1000; mono = 10 }

abbrev detail : Raised → Text
detail e = []

-- A preset whose id cannot be read
abbrev odd_presets : Manager Milli → Manager Milli
odd_presets m = record m { profile_presets = dict ((text "id", nothing) ∷ []) ∷ [] }

-- `StartBrew`
abbrev brew_frame : Frame
brew_frame = record frame_a {
  message_type = MessageType.payload_data;
  payload = 83 ∷ 116 ∷ 97 ∷ 114 ∷ 116 ∷ 66 ∷ 114 ∷ 101 ∷ 119 ∷ [];
}

-- Home values for a profile
abbrev home_values : HomeRequest Milli
home_values = record {
  profile_id = some 3;
  temperature_c = some infinity;
  water_level_pct = none;
  weight_g = none;
  shot_target_g = some (milli 40000);
  warmup_on = some false;
  steam_on = none;
}

-- A reset, two polls of the UI with a StartBrew of the client before the second, a packet of the
-- sender thread, values for the Home screen, the same where the presets cannot be read, so that the
-- request raises, and a text from the UI.
abbrev history : List (Event transport bench)
history =
    call [] command_reset at_once
    ∷ call [] link_snapshot at_once
    ∷ reader (λ p. record p { manager = record p.manager { rx_frames = brew_frame ∷ [] } })
    ∷ call [] link_snapshot at_once
    ∷ downlink (1 ∷ 2 ∷ [])
    ∷ call [] (lcd_home home_values) at_once
    ∷ sender (λ p. record p { manager = odd_presets p.manager })
    ∷ call [] (lcd_home home_values) at_once
    ∷ call [] (send_data (104 ∷ 105 ∷ [])) at_once
    ∷ []

run-LinkInv_example : LinkInv (run ascii_only detail history start).link
run-LinkInv_example = run-LinkInv ascii_only detail history start new-LinkInv

keepalive_by-accepts_example :
    (Matches frame_a
      × Accepted LinkState.keepalive_client_return 50 frame_a
          (keepalive_by Direction.request 50 frame_a [] new)
      × Accepted LinkState.keepalive_server_send 50 frame_a
          (keepalive_by Direction.response 50 frame_a [] new))
    ⊎ ((¬ Matches frame_a)
        × (keepalive_by Direction.request 50 frame_a [] new ≡ new)
        × (keepalive_by Direction.response 50 frame_a [] new ≡ new))
keepalive_by-accepts_example = keepalive_by-accepts 50 frame_a [] new

new-Encodable : Encodable new
unfolding new
new-Encodable = record {
  server_fits = omega arith;
  client_fits = omega arith;
  sequence_fits = omega arith;
}

keepalive_by-Encodable_example : Encodable (keepalive_by Direction.request 50 frame_a [] new)
keepalive_by-Encodable_example =
    keepalive_by-Encodable Direction.request 50 frame_a [] new frame_a-IsFrame new-Encodable

-- The client's number is the greatest of 32 bits, and the server's starts again at 0.
wrap_test :
    counters_match (record frame_a { host_live_integer = 0; device_live_integer = 4294967295 })
    ≡ false
unfolding counters_match
wrap_test = refl

manager-Ready : Ready manager
manager-Ready = record {
  handle = port;
  has_handle = refl;
  is_open = refl;
  may_send = omega arith;
  no_frames = refl;
}

setup-Connected_example :
    Connected PortReady
      (reset start ▸ λ w. get_snapshot ascii_only 1000 10 w ▸ get_snapshot ascii_only 1000 10)
unfolding new validate_config build_initialize_payload text encode strip default_config show
setup-Connected_example =
    setup-Connected (quiet-Working ascii_only answer no_kills) ascii_only at_once at_once start
      manager-Ready refl (omega arith)

reset_ack-Stalled_example : Stalled (quiet-Working ascii_only answer no_kills) ascii_only (
    polls ascii_only
      (at_once ∷ at_once ∷ [])
      (on_link (handle_acknowledgement (text "reset_ack")) start))
reset_ack-Stalled_example =
    reset_ack-Stalled (quiet-Working ascii_only answer no_kills) ascii_only (at_once ∷ at_once ∷ [])
      start manager-Ready

-- `terr=` and a superscript two, as UTF-8.
abbrev odd_frame : Frame
odd_frame = record {
  message_type = MessageType.payload_data;
  host_live_integer = 4;
  device_live_integer = 5;
  sequence = 8;
  payload = 116 ∷ 101 ∷ 114 ∷ 114 ∷ 61 ∷ 0xC2 ∷ 0xB2 ∷ [];
}

abbrev received : World transport bench
received = record start {
  serial = record ready_port { manager = record manager { rx_frames = odd_frame ∷ frame_a ∷ [] } };
}

poll_received_frames-unreadable_example :
    (poll_received_frames superscripts 50 received ≡ (some value_error, start))
    × (poll_received_frames superscripts 60 start
        ≡ done (record start { serial = (transport.pop_received_frames ready_port).1 }))
unfolding State.pop_received_frames parse_u32 split payload_text lower strip decode_ignore
    starts_with text isdigit int_of
poll_received_frames-unreadable_example =
    poll_received_frames-unreadable superscripts 50 odd_frame (frame_a ∷ []) received ready_port 60
      refl refl

-- A request whose live integers are swapped
abbrev swapped : Frame
swapped = record frame_a {
  message_type = MessageType.keepalive;
  host_live_integer = 5;
  device_live_integer = 6;
  payload = 107 ∷ 97 ∷ 95 ∷ 114 ∷ 101 ∷ 113 ∷ [];
}

swapped-IsExchange : IsExchange (payload_text ascii_only swapped)
unfolding classify_keepalive payload_text lower strip decode_ignore starts_with text
swapped-IsExchange = inl refl

handle_frame-mismatch_example : Kept new (handle_frame ascii_only 50 swapped start).1.link
unfolding counters_match
handle_frame-mismatch_example =
    handle_frame-mismatch ascii_only 50 swapped start refl swapped-IsExchange refl
