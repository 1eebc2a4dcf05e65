-- ===== src/Link/Client.antt =====
-- server/sim/link_state_machine.py: the commands that the client sends in DATA frames.
use gaggia_esp_c3_mini_serve.Prelude.{
  ℕ, true, false, Option, none, some, List, [], ◌∷◌, if◌then◌else◌,
}
use gaggia_esp_c3_mini_serve.FrameCodec.{MessageType}
use gaggia_esp_c3_mini_serve.Python.{Raised, value_error, overflow_error, other_error}
use gaggia_esp_c3_mini_serve.Python.Text.{Text, text, strip, lower, starts_with, is_empty, Unicode}
use gaggia_esp_c3_mini_serve.Python.Payload.{Parsed, value, missing, invalid, parse_u32, parse_text}
use gaggia_esp_c3_mini_serve.Python.Object
use gaggia_esp_c3_mini_serve.Python.Object.{Result, ok, err}
use gaggia_esp_c3_mini_serve.LcdProtocol.{handle_client_text_command}
use gaggia_esp_c3_mini_serve.Link.Interfaces.{Transport, DataManager}
use gaggia_esp_c3_mini_serve.Link.World.{World, Ends, done, ◌▸◌, catch_runtime, send_command}

-- The value of a second key where the first has none.
abbrev pub or_parsed : Parsed ℕ → Parsed ℕ → Parsed ℕ
or_parsed missing second = second
or_parsed (value n) second = value n
or_parsed invalid second = invalid

abbrev or_option {ℓ} : {A : Type ℓ} → Option A → Option A → Option A
or_option none second = second
or_option (some a) second = some a

-- The exception of a conversion, as the link sees it
abbrev pub raised : Object.Failure → Raised
raised Object.Failure.type_error = other_error
raised Object.Failure.value_error = value_error
raised Object.Failure.overflow_error = overflow_error
raised Object.Failure.key_error = other_error
raised Object.Failure.struct_error = other_error

-- A parse in the middle of a call: its ValueError leaves the call.
abbrev pub with_parsed : {W : Type 0} → Parsed ℕ → (Option ℕ → W → Ends W) → W → Ends W
with_parsed missing f w = f none w
with_parsed (value n) f w = f (some n) w
with_parsed invalid f w = (some value_error, w)

module _ (d : DataManager) where
  -- `_try_parse_float_payload_value`
  parse_float_value : Text → Text → Option d.Float
  parse_float_value payload key = elim (parse_text payload key) [
    | none ↦ none
    | some raw ↦ d.parse_float raw
  ]

  unfoldable pub simulation_on : Text → d.State → d.State
  unfolding parse_float_value
  simulation_on normalized s = d.set_simulation_enabled true (
      d.configure_sine
        (or_option (parse_float_value normalized (text "amp"))
          (parse_float_value normalized (text "amplitude")))
        (or_option (parse_float_value normalized (text "freq"))
          (parse_float_value normalized (text "frequency_hz")))
        none s)

module _ {t : Transport} {d : DataManager} where
  -- A DATA text that is sent where a RuntimeError is only logged.
  unfoldable pub send_logged : Text → World t d → Ends (World t d)
  unfolding send_command
  send_logged payload w =
      catch_runtime (λ message w. done w) (send_command MessageType.payload_data payload w)

  -- `_send_lcd_protocol_payload_locked`, for each payload of the protocol bridge
  unfoldable pub send_all : List (Result Text) → World t d → Ends (World t d)
  unfolding send_logged
  send_all [] w = done w
  send_all (ok p ∷ ps) w = send_logged p w ▸ send_all ps
  send_all (err e ∷ ps) w = (some (raised e), w)

  abbrev pub on_payload : (d.State → d.State) → World t d → World t d
  on_payload f w = record w { payload = f w.payload }

  -- A call of the manager that may raise
  abbrev pub ask_payload : (d.State → Option Raised × d.State) → World t d → Ends (World t d)
  ask_payload f w = let r = f w.payload in (r.0, record w { payload = r.1 })

  -- ProfileSelection; `select_profile` drops its `offline`.
  unfoldable pub select_profile_command : Unicode → Text → World t d → Ends (World t d)
  select_profile_command u normalized =
      with_parsed
        (or_parsed (parse_u32 u normalized (text "profile")) (parse_u32 u normalized (text "id")))
        (λ profile_id.
          with_parsed (parse_u32 u normalized (text "offline"))
            (λ offline. ask_payload (d.select_profile profile_id)))

  unfoldable pub start_brew_command : Unicode → Text → World t d → Ends (World t d)
  unfolding send_logged
  start_brew_command u normalized =
      with_parsed (parse_u32 u normalized (text "profile")) (λ profile_id.
        with_parsed
          (or_parsed (parse_u32 u normalized (text "packet_interval_ms"))
            (parse_u32 u normalized (text "int_ms")))
          (λ interval w.
            ask_payload (d.start_brew profile_id interval) w ▸ send_logged (text "StartBrew")))

  -- The commands that are no commands of the LCD protocol.
  unfoldable pub data_simulation_event : Unicode → Text → World t d → Ends (World t d)
  unfolding select_profile_command start_brew_command simulation_on send_logged
  data_simulation_event u normalized w =
      if starts_with normalized (text "profileselection")
      then select_profile_command u normalized w
      else if starts_with normalized (text "startbrew")
      then start_brew_command u normalized w
      else if starts_with normalized (text "stopbrew")
      then send_logged (text "StopBrew") (on_payload d.stop_brew w)
      else if starts_with normalized (text "datasimulationon")
      then done (on_payload (simulation_on d normalized) w)
      else if starts_with normalized (text "datasimulationoff")
      then done (on_payload (d.set_simulation_enabled false) w)
      else done w

  unfoldable pub lcd_or_event :
      Unicode → Option (List (Result Text)) → Text → World t d → Ends (World t d)
  unfolding send_all data_simulation_event
  lcd_or_event u (some payloads) normalized w = send_all payloads w
  lcd_or_event u none normalized w = data_simulation_event u normalized w

  -- `_handle_client_data_command_locked`; the hooks of the LCD bridge are always registered, and
  -- its dataset is never empty.
  unfoldable pub handle_client_data_command : Unicode → Text → World t d → Ends (World t d)
  unfolding lcd_or_event
  handle_client_data_command u payload w =
      let normalized = lower u (strip payload) in
      if is_empty normalized
      then done w
      else lcd_or_event u
          (handle_client_text_command u true (d.lcd_profiles w.payload)
            (some (d.lcd_dataset w.payload)) payload)
          normalized w
