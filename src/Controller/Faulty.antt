-- ===== src/Controller/Faulty.antt =====
-- server/sim/controller_state.py: the time of a brew, through commands that may raise.
use gaggia_esp_c3_mini_serve.Prelude.{
  ℕ, ◌≡◌, refl, Bool, true, false, Option, none, some, List, [], ◌∷◌, Bool-cases, inl, inr, arith,
}
use gaggia_esp_c3_mini_serve.Python.Text.{Text, strip, is_empty}
use gaggia_esp_c3_mini_serve.Controller.{
  Failure, SimulatorState, Simulator, Names, Outcome, Command, connect_command, enter_command,
  snapshot_command, after_call, snapshot, connected, connecting, connect, initialize_machine_only,
  start_brew, go_idle, loading, unloaded, reset_to_load, enter, carry_out, carry_out_all,
}

abbrev pub is_some : Option ℕ → Bool
is_some none = false
is_some (some n) = true

-- A brew has the time of its start, and there is none without a brew.
pub record Sound (s : Simulator) : Type 0 where
  pub timed : s.brew_active ≡ is_some s.brew_started_at

after_call-Sound :
    (r : Option Failure) (s : Simulator) (next : Simulator → Outcome)
    → Sound s
    → ((s : Simulator) → Sound s → Sound (next s).1)
    → Sound (after_call r s next).1
after_call-Sound none s next h k = k s h
after_call-Sound (some e) s next h k = h

module _ (names : Names) where
  connected-Sound : (s : Simulator) → Sound s → Sound (connected names s).1
  unfolding connected snapshot
  connected-Sound s h = ground arith

  connecting-Sound : (s : Simulator) → Sound s → Sound (connecting names s).1
  unfolding connecting
  connecting-Sound s h =
      after_call-Sound names.connect (record s { current_state = SimulatorState.connect_to_client })
        (connected names) (ground arith) connected-Sound

  connect-Sound : (ip : Text) (s : Simulator) → Sound s → Sound (connect names ip s).1
  unfolding connect
  connect-Sound ip s h = elim (Bool-cases (is_empty (strip ip))) [
    | inl e ↦ rw e h
    | inr e ↦ rw e (
        after_call-Sound (names.configure_target (strip ip))
          (record s { client_ip_address = strip ip }) (connecting names) (ground arith)
          connecting-Sound)
  ]

  loading-Sound : (s : Simulator) → Sound s → Sound (loading names s).1
  unfolding loading snapshot
  loading-Sound s h = ground arith

  reset_to_load-Sound : (s : Simulator) → Sound (reset_to_load names s).1
  unfolding reset_to_load unloaded
  reset_to_load-Sound s =
      after_call-Sound names.disconnect (unloaded s) (loading names) (record { timed = refl })
        loading-Sound

  enter-Sound :
      (now : ℕ) (state : SimulatorState) (s : Simulator)
      → Sound s
      → Sound (enter names now state s).1
  unfolding enter initialize_machine_only start_brew go_idle snapshot
  enter-Sound now SimulatorState.load_sim s h = reset_to_load-Sound s
  enter-Sound now SimulatorState.connect_to_client s h = connect-Sound s.client_ip_address s h
  enter-Sound now SimulatorState.initialize_machine s h = ground arith
  enter-Sound now SimulatorState.brew s h = ground arith
  enter-Sound now SimulatorState.idle s h = ground arith

  carry_out-Sound :
      (now : ℕ) (c : Command) (s : Simulator) → Sound s → Sound (carry_out names now c s).1
  unfolding carry_out snapshot
  carry_out-Sound now (connect_command ip) s h = connect-Sound ip s h
  carry_out-Sound now (enter_command state) s h = enter-Sound now state s h
  carry_out-Sound now snapshot_command s h = h

  -- Through every history of commands, also the ones that raise, and whichever calls of the serial
  -- link raise, a brew runs exactly while there is a time of its start.
  pub carry_out_all-Sound :
      (cs : List (ℕ × Command)) (s : Simulator) → Sound s → Sound (carry_out_all names cs s)
  unfolding carry_out_all
  carry_out_all-Sound [] s h = h
  carry_out_all-Sound ((now, c) ∷ cs) s h =
      carry_out_all-Sound cs (carry_out names now c s).1 (carry_out-Sound now c s h)
