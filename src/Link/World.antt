-- ===== src/Link/World.antt =====
-- server/sim/link_state_machine.py: sending, and the stages of the automatic flow.
use gaggia_esp_c3_mini_serve.Prelude.{◌+◌, true, false, Option, none, some, [], ◌++◌, if◌then◌else◌}
use gaggia_esp_c3_mini_serve.Prelude.Bytes.{Bytes}
use gaggia_esp_c3_mini_serve.FrameCodec.{MessageType}
use gaggia_esp_c3_mini_serve.Python.{Raised, runtime_error}
use gaggia_esp_c3_mini_serve.Python.Text.{Text, text}
use gaggia_esp_c3_mini_serve.Python.Utf8.{encode}
use gaggia_esp_c3_mini_serve.Link.State.{
  Link, LinkState, set_state, set_runtime_fault, next_sequence, build_initialize_payload,
  validate_config,
}
use gaggia_esp_c3_mini_serve.Link.Interfaces.{Transport, DataManager}

module _ (t : Transport) (d : DataManager) where
  -- The runtime and the two singletons that it drives.
  pub record World : Type 0 where
    pub link : Link
    pub serial : t.State
    pub payload : d.State

-- How a call ends: with an exception or without, and in a world.
abbrev pub Ends : Type 0 → Type 0
Ends W = Option Raised × W

abbrev pub done : {W : Type 0} → W → Ends W
done w = (none, w)

-- What follows is not reached after a raise.
infixl 10 ◌▸◌
abbrev pub ◌▸◌ : {W : Type 0} → Ends W → (W → Ends W) → Ends W
(none, w) ▸ next = next w
(some e, w) ▸ next = (some e, w)

-- `try: ... except RuntimeError as exc: handler`
abbrev pub catch_runtime : {W : Type 0} → (Text → W → Ends W) → Ends W → Ends W
catch_runtime handler (none, w) = (none, w)
catch_runtime handler (some (runtime_error message), w) = handler message w
catch_runtime handler (some e, w) = (some e, w)

abbrev pub counts_data : MessageType → Link → Link
counts_data MessageType.payload_data l = record l {
  data_frames_tx_count = l.data_frames_tx_count + 1;
}
counts_data _ l = l

unfoldable pub enter_initialize : Link → Link
enter_initialize l = set_state LinkState.initialize [] (record l {
  wifi_ready = true;
  wifi_connected = false;
  tcp_connected = false;
  bridge_ready = true;
})

unfoldable pub await_connect : Link → Link
await_connect l = record l { pending_auto_stage = some LinkState.connect }

-- `_begin_connect_locked`
unfoldable pub begin_connect : Link → Link
unfolding set_runtime_fault
begin_connect l =
    if l.wifi_ready
    then set_state LinkState.connect [] (record l {
      pending_auto_stage = none;
      initialize_completed = true;
      wifi_connected = false;
      tcp_connected = false;
    })
    else set_runtime_fault (text "initialize did not complete before connect") l

module _ {t : Transport} {d : DataManager} where
  abbrev pub on_link : (Link → Link) → World t d → World t d
  on_link f w = record w { link = f w.link }

  abbrev pub after_send : MessageType → World t d → Option Raised × t.State → Ends (World t d)
  after_send type w (none, s) = (none, record w { link = counts_data type w.link; serial = s })
  after_send type w (some e, s) = (some e, record w { serial = s })

  -- `_send_binary_locked`, and `_send_command_locked` on an encoded text
  unfoldable pub send_bytes : MessageType → Bytes → World t d → Ends (World t d)
  send_bytes type bytes w =
      let w' = on_link next_sequence w in
      after_send type w' (
        t.send_frame
          (record {
            message_type = type;
            host_live_integer = w'.link.server_live_integer;
            device_live_integer = w'.link.client_live_integer;
            sequence = w'.link.sequence;
            payload = bytes;
          })
          w'.serial)

  unfoldable pub send_command : MessageType → Text → World t d → Ends (World t d)
  unfolding send_bytes
  send_command type payload w = send_bytes type (encode payload) w

  abbrev pub after_try : Text → (World t d → Ends (World t d)) → Ends (World t d) → Ends (World t d)
  after_try failure_prefix next (none, w) = next w
  after_try failure_prefix next (some (runtime_error message), w) =
      done (on_link (set_runtime_fault (failure_prefix ++ (text ": " ++ message))) w)
  after_try failure_prefix next (some e, w) = (some e, w)

  -- `_try_send_command_locked`, with what its callers do where it returns True; where it returns
  -- False they return.
  unfoldable pub try_send :
      MessageType → Text → Text → (World t d → Ends (World t d)) → World t d → Ends (World t d)
  unfolding send_command
  try_send type payload failure_prefix next w =
      after_try failure_prefix next (send_command type payload w)

  -- `_begin_initialize_locked` behind the check of the configuration
  unfoldable pub start_initialize : World t d → Ends (World t d)
  unfolding try_send set_runtime_fault
  start_initialize w =
      if t.port_open w.serial
      then try_send MessageType.initialize (build_initialize_payload w.link.config)
          (text "initialize transmit failed") (λ w. done (on_link await_connect w))
          (on_link enter_initialize w)
      else done (on_link (set_runtime_fault (text "COM port not found")) w)

  -- `_begin_initialize_locked`
  unfoldable pub begin_initialize : World t d → Ends (World t d)
  unfolding start_initialize enter_initialize await_connect set_runtime_fault
  begin_initialize w = elim (validate_config w.link) [
    | some config_error ↦ done (on_link (set_runtime_fault config_error) w)
    | none ↦ start_initialize w
  ]

  unfoldable pub advance_from : LinkState → Option LinkState → World t d → Ends (World t d)
  unfolding begin_initialize
  advance_from LinkState.reset (some LinkState.initialize) w = begin_initialize w
  advance_from LinkState.initialize (some LinkState.connect) w = done (on_link begin_connect w)
  advance_from _ _ w = done w

  -- `_advance_automatic_flow_locked`
  unfoldable pub advance_automatic_flow : World t d → Ends (World t d)
  unfolding advance_from
  advance_automatic_flow w = advance_from w.link.current_state w.link.pending_auto_stage w
