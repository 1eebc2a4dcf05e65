-- ===== src/Controller.antt =====
-- server/sim/controller_state.py: `SimulatorRuntime`, the states of the simulated machine. The log,
-- the transition's timestamp and the telemetry's text are not modelled. What the calls of
-- `serial_link_manager` come to is an argument; `program_names` is what they come to in this
-- program, where none of the four names exists.
pub mod Faulty
use gaggia_esp_c3_mini_serve.Prelude.{
  ℕ, Bool, true, false, Option, none, some, List, [], ◌∷◌, if◌then◌else◌,
}
use gaggia_esp_c3_mini_serve.Python.Text.{Text, text, strip, is_empty}
use gaggia_esp_c3_mini_serve.Python.Object.{mem}

pub data SimulatorState : Type 0 where
  load_sim connect_to_client initialize_machine brew idle : SimulatorState

pub record Simulator : Type 0 where
  pub client_ip_address : Text
  pub current_state : SimulatorState
  pub machine_initialized : Bool
  pub connected_to_client : Bool
  pub brew_active : Bool
  pub brew_started_at : Option ℕ
  pub last_command : Text

-- `__init__`
unfoldable pub loaded : Simulator
loaded = record {
  client_ip_address = [];
  current_state = SimulatorState.load_sim;
  machine_initialized = false;
  connected_to_client = false;
  brew_active = false;
  brew_started_at = none;
  last_command = text "Simulator loaded";
}

pub data Failure : Type 0 where
  refused : Text → Failure
  attribute_error : Text → Failure

-- What the serial link makes of the four names that this module uses of it: whether each of the
-- calls, and the read of `handshake_state` in the snapshot, raises.
pub record Names : Type 0 where
  pub configure_target : Text → Option Failure
  pub connect : Option Failure
  pub disconnect : Option Failure
  pub handshake_state : Option Failure

-- server/transport/serial_link.py: the methods of `SerialLinkManager` that have no underscore
abbrev pub manager_methods : List Text
manager_methods =
    text "configure_port"
    ∷ text "open_port"
    ∷ text "close_port"
    ∷ text "force_release_port"
    ∷ text "send_frame"
    ∷ text "pop_received_frames"
    ∷ text "clear_buffers"
    ∷ text "get_logs"
    ∷ text "get_snapshot"
    ∷ []

-- The fields of `SerialLinkSnapshot`
abbrev pub snapshot_fields : List Text
snapshot_fields =
    text "port_name"
    ∷ text "baud_rate"
    ∷ text "port_open"
    ∷ text "protocol"
    ∷ text "last_event_at"
    ∷ text "last_event"
    ∷ text "last_error"
    ∷ text "last_tx_at"
    ∷ text "last_rx_at"
    ∷ text "tx_frames"
    ∷ text "rx_frames"
    ∷ text "tx_bytes"
    ∷ text "rx_bytes"
    ∷ []

-- The lookup of a name on an object with these names
unfoldable pub attribute : List Text → Text → Option Failure
unfolding mem
attribute names name = if mem name names then none else some (attribute_error name)

unfoldable pub program_names : Names
unfolding attribute
program_names = record {
  configure_target = λ ip. attribute manager_methods (text "configure_target");
  connect = attribute manager_methods (text "connect");
  disconnect = attribute manager_methods (text "disconnect");
  handshake_state = attribute snapshot_fields (text "handshake_state");
}

-- How a call ends: with an exception or without, and in a state.
abbrev pub Outcome : Type 0
Outcome = Option Failure × Simulator

-- What follows a call of the serial link is not reached where that raises.
abbrev pub after_call : Option Failure → Simulator → (Simulator → Outcome) → Outcome
after_call none s next = next s
after_call (some e) s next = (some e, s)

-- What `reset_to_load` assigns before its call of the serial link
unfoldable pub unloaded : Simulator → Simulator
unloaded s = record s {
  brew_active = false;
  brew_started_at = none;
  machine_initialized = false;
  connected_to_client = false;
  client_ip_address = [];
  last_command = text "Reset LoadSim";
}

module _ (names : Names) where
  -- `_snapshot_locked`, without the snapshot itself
  unfoldable pub snapshot : Simulator → Outcome
  snapshot s = (names.handshake_state, s)

  -- The end of `connect_to_client`; the state InitializeMachine in it is passed without a call.
  unfoldable pub connected : Simulator → Outcome
  unfolding snapshot
  connected s = snapshot (record s {
    connected_to_client = true;
    last_command = text "Connect";
    machine_initialized = true;
    current_state = SimulatorState.idle;
  })

  unfoldable pub connecting : Simulator → Outcome
  unfolding connected
  connecting s =
      after_call names.connect (record s { current_state = SimulatorState.connect_to_client })
        connected

  -- `connect_to_client`
  unfoldable pub connect : Text → Simulator → Outcome
  unfolding connecting
  connect ip s =
      if is_empty (strip ip)
      then (some (refused (text "Client IP address is required.")), s)
      else after_call (names.configure_target (strip ip))
          (record s { client_ip_address = strip ip }) connecting

  unfoldable pub initialize_machine_only : Simulator → Outcome
  unfolding snapshot
  initialize_machine_only s =
      if is_empty s.client_ip_address
      then (some (refused (text "Client IP address must be set before initialization.")), s)
      else snapshot (record s {
        connected_to_client = true;
        machine_initialized = false;
        last_command = text "Initialize Machine";
        current_state = SimulatorState.initialize_machine;
      })

  unfoldable pub start_brew : ℕ → Simulator → Outcome
  unfolding snapshot
  start_brew now s =
      if s.machine_initialized
      then snapshot (record s {
        brew_active = true;
        brew_started_at = some now;
        last_command = text "Start Brew";
        current_state = SimulatorState.brew;
      })
      else (some (refused (text "Machine must be initialized before starting Brew.")), s)

  unfoldable pub go_idle : Simulator → Outcome
  unfolding snapshot
  go_idle s = snapshot (record s {
    brew_active = false;
    brew_started_at = none;
    machine_initialized = true;
    last_command = text "Return Idle";
    current_state = SimulatorState.idle;
  })

  unfoldable pub loading : Simulator → Outcome
  unfolding snapshot
  loading s = snapshot (record s { current_state = SimulatorState.load_sim })

  unfoldable pub reset_to_load : Simulator → Outcome
  unfolding loading unloaded
  reset_to_load s = after_call names.disconnect (unloaded s) loading

  -- `set_state`
  unfoldable pub enter : ℕ → SimulatorState → Simulator → Outcome
  unfolding reset_to_load connect initialize_machine_only start_brew go_idle
  enter now SimulatorState.load_sim s = reset_to_load s
  enter now SimulatorState.connect_to_client s = connect s.client_ip_address s
  enter now SimulatorState.initialize_machine s = initialize_machine_only s
  enter now SimulatorState.brew s = start_brew now s
  enter now SimulatorState.idle s = go_idle s

pub data Command : Type 0 where
  connect_command : Text → Command
  enter_command : SimulatorState → Command
  snapshot_command : Command

module _ (names : Names) where
  unfoldable pub carry_out : ℕ → Command → Simulator → Outcome
  unfolding connect enter snapshot
  carry_out now (connect_command ip) s = connect names ip s
  carry_out now (enter_command state) s = enter names now state s
  carry_out now snapshot_command s = snapshot names s

  -- What a history of commands, each with its time, leaves.
  unfoldable pub carry_out_all : List (ℕ × Command) → Simulator → Simulator
  unfolding carry_out
  carry_out_all [] s = s
  carry_out_all ((now, c) ∷ cs) s = carry_out_all cs (carry_out now c s).1
