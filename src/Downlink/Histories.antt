-- ===== src/Downlink/Histories.antt =====
-- server/sim/data_payload.py: the manager's state over any sequence of calls.
use gaggia_esp_c3_mini_serve.Prelude.{
  Bool, true, false, List, [], ◌∷◌, Option, none, some, ◌≡◌, arith, Bool-cases, inl, inr,
}
use gaggia_esp_c3_mini_serve.Prelude.Bytes.{Bytes}
use gaggia_esp_c3_mini_serve.Python.Object.{Result, ok, err, Numbers}
use gaggia_esp_c3_mini_serve.Downlink.State.{
  Manager, Home, start, stop, set_simulation_enabled, stop_brew, end_brew,
}
use gaggia_esp_c3_mini_serve.Downlink.Turn.{take_turn, after_send, Turn}
use gaggia_esp_c3_mini_serve.Downlink.Channels.{Library}
use gaggia_esp_c3_mini_serve.Downlink.Generate.{
  generate_and_send, hand_over, use_turn, build_packet,
}
use gaggia_esp_c3_mini_serve.Downlink.Modes.{
  Action, started, stopped, simulation, sine, selected, brew_started, brew_stopped, home_set,
  received, generated, perform, perform_all, IsManaged,
}
use gaggia_esp_c3_mini_serve.Downlink.Returned.{bind-OnOk, ok-OnOk}
use gaggia_esp_c3_mini_serve.Downlink.Keeping.{
  KeepsOk, Keeps, select_profile-IsManaged, start_brew-IsManaged, configure_lcd_home_data-IsManaged,
  configure_sine-IsManaged,
}

module _ (py : Numbers) where
  set_simulation_enabled-IsManaged :
      (b : Bool) (m : Manager py.Float) → IsManaged m → IsManaged (set_simulation_enabled py b m)
  unfolding set_simulation_enabled end_brew
  set_simulation_enabled-IsManaged true m h = ground arith
  set_simulation_enabled-IsManaged false m h = ground arith

  start-IsManaged :
      (now : py.Float) (m : Manager py.Float) → IsManaged m → IsManaged (start py now m)
  unfolding start stop
  start-IsManaged now m h = ground arith

  stop-IsManaged : (m : Manager py.Float) → IsManaged m → IsManaged (stop py m)
  unfolding stop
  stop-IsManaged m h = ground arith

  stop_brew-IsManaged : (m : Manager py.Float) → IsManaged m → IsManaged (stop_brew py m)
  unfolding stop_brew end_brew
  stop_brew-IsManaged m h = ground arith

  after_send-IsManaged : (t : Turn py.Float) (h : Home py.Float) → Keeps py (after_send py t h)
  unfolding after_send
  after_send-IsManaged t h m g = ground arith

  take_turn-IsManaged :
      (now interval : py.Float) (m : Manager py.Float)
      → IsManaged m
      → IsManaged (take_turn py now interval m).1
  unfolding take_turn
  take_turn-IsManaged now interval m h = ground arith

  hand_over-IsManaged :
      (cb : Bytes → Bool) (t : Turn py.Float) (r : Result (Bytes × Home py.Float))
      (m : Manager py.Float)
      → IsManaged m
      → IsManaged (hand_over py cb t m r).state
  unfolding hand_over
  hand_over-IsManaged cb t (err e) m h = h
  hand_over-IsManaged cb t (ok (payload, home)) m h = elim (Bool-cases (cb payload)) [
    | inl e ↦ rw e (after_send-IsManaged t home m h)
    | inr e ↦ rw e h
  ]

  use_turn-IsManaged :
      (library : Library py.Float) (cb : Bytes → Bool) (later interval : py.Float)
      (t : Option (Turn py.Float))
      → Keeps py (λ m. (use_turn py library cb later interval t m).state)
  unfolding use_turn
  use_turn-IsManaged library cb later interval none m h = h
  use_turn-IsManaged library cb later interval (some t) m h =
      hand_over-IsManaged cb t (build_packet py library later interval t) m h

  generate_and_send-IsManaged :
      (library : Library py.Float) (cb : Bytes → Bool) (now later interval : py.Float)
      → Keeps py (λ m. (generate_and_send py library cb now later interval m).state)
  unfolding generate_and_send
  generate_and_send-IsManaged library cb now later interval m h =
      use_turn-IsManaged library cb later interval (take_turn py now interval m).0
        (take_turn py now interval m).1 (take_turn-IsManaged now interval m h)

  perform-IsManaged :
      (library : Library py.Float) (a : Action py.Float) → KeepsOk py (perform py library a)
  unfolding perform
  perform-IsManaged library (started now) m h = ok-OnOk _ _ (start-IsManaged now m h)
  perform-IsManaged library stopped m h = ok-OnOk _ _ (stop-IsManaged m h)
  perform-IsManaged library (simulation b) m h =
      ok-OnOk _ _ (set_simulation_enabled-IsManaged b m h)
  perform-IsManaged library (sine a f n) m h = ok-OnOk _ _ (configure_sine-IsManaged py a f n m h)
  perform-IsManaged library (selected id) m h = select_profile-IsManaged py id m h
  perform-IsManaged library (brew_started now id n) m h = start_brew-IsManaged py now id n m h
  perform-IsManaged library brew_stopped m h = ok-OnOk _ _ (stop_brew-IsManaged m h)
  perform-IsManaged library (home_set r) m h = configure_lcd_home_data-IsManaged py r m h
  perform-IsManaged library (received payload) m h = ok-OnOk _ _ (ground arith)
  perform-IsManaged library (generated cb now later interval) m h =
      ok-OnOk _ _ (generate_and_send-IsManaged library cb now later interval m h)

  -- The calls of the manager keep its state in order, in whatever sequence they come and whatever the
  -- callback, the clock and the arguments are, up to the first call that raises: the simulation and
  -- a brew never run together, the packet interval stays from 10 ms to 5 s, and the sequence number
  -- fits 32 bits.
  pub perform_all-IsManaged :
      (library : Library py.Float) (actions : List (Action py.Float)) (m m' : Manager py.Float)
      → IsManaged m
      → perform_all py library actions m ≡ ok m'
      → IsManaged m'
  unfolding perform_all
  perform_all-IsManaged library actions m m' h e = (all actions m h).holds m' e
    where
      all : (actions : List (Action py.Float)) → KeepsOk py (perform_all py library actions)
      all [] m h = ok-OnOk _ m h
      all (a ∷ actions) m h =
          bind-OnOk _ (λ m. IsManaged m) (perform py library a m) _
            (perform-IsManaged library a m h) (all actions)
