-- ===== src/Tests/Controller.antt =====
-- server/sim/controller_state.py at a concrete history.
use gaggia_esp_c3_mini_serve.Prelude.{ℕ, ◌≡◌, refl, none, some, List, [], ◌∷◌}
use gaggia_esp_c3_mini_serve.Python.Text.{text, strip, eq_text}
use gaggia_esp_c3_mini_serve.Python.Object.{mem}
use gaggia_esp_c3_mini_serve.Controller.{
  SimulatorState, Command, connect_command, enter_command, loaded, attribute_error, program_names,
  Names, carry_out, carry_out_all,
}
use gaggia_esp_c3_mini_serve.Controller.Faulty.{Sound, carry_out_all-Sound}

-- A connection, the way to Idle, a brew, and a reset during it.
abbrev shift : List (ℕ × Command)
shift =
    (1, connect_command (49 ∷ 48 ∷ []))
    ∷ (2, enter_command SimulatorState.idle)
    ∷ (3, enter_command SimulatorState.brew)
    ∷ (4, enter_command SimulatorState.load_sim)
    ∷ []

loaded-Sound : Sound loaded
unfolding loaded
loaded-Sound = record { timed = refl }

carry_out_all-Sound_example : Sound (carry_out_all program_names shift loaded)
carry_out_all-Sound_example = carry_out_all-Sound program_names shift loaded loaded-Sound

-- In this program a connection raises at the first call of the serial link.
connect_test :
    (carry_out program_names 1 (connect_command (49 ∷ [])) loaded).0
    ≡ some (attribute_error (text "configure_target"))
unfolding carry_out program_names text strip mem eq_text
connect_test = refl

-- With a serial link that has the names it ends in Idle.
abbrev all_there : Names
all_there = record {
  configure_target = λ ip. none;
  connect = none;
  disconnect = none;
  handshake_state = none;
}

idle_test :
    (carry_out all_there 1 (connect_command (49 ∷ [])) loaded).1.current_state ≡ SimulatorState.idle
unfolding carry_out strip
idle_test = refl
