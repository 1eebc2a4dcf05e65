-- ===== src/Downlink/Completion.antt =====
-- server/sim/data_payload.py: the end of a brew.
use gaggia_esp_c3_mini_serve.Prelude.{
  Bool, true, false, not, ◌&&◌, ◌||◌, none, some, if◌then◌else◌, ◌≡◌, refl, ap, ◌∙◌, arith, if_true,
  if_false,
}
use gaggia_esp_c3_mini_serve.Prelude.Bytes.{Bytes}
use gaggia_esp_c3_mini_serve.Python.Text.{text}
use gaggia_esp_c3_mini_serve.Python.Object.{ok, Numbers}
use gaggia_esp_c3_mini_serve.Downlink.State.{Manager, Home}
use gaggia_esp_c3_mini_serve.Downlink.Turn.{
  take_turn, brew_turn, after_send, at_least, elapsed_since,
}
use gaggia_esp_c3_mini_serve.Downlink.Channels.{Library}
use gaggia_esp_c3_mini_serve.Downlink.Generate.{
  generate_and_send, hand_over, use_turn, build_packet,
}

module _ (py : Numbers) where
  take_turn-brew :
      (now interval : py.Float) (m : Manager py.Float)
      → m.callback_set ≡ true
      → m.brew.active ≡ true
      → take_turn py now interval m ≡ (some (brew_turn py now m).0, (brew_turn py now m).1)
  unfolding take_turn
  take_turn-brew now interval m c a =
      if_false {b = not m.callback_set || (not m.simulation_enabled && not m.brew.active)} _ _
        (ground arith)
      ∙ if_true _ _ a

  take_turn-idle :
      (now interval : py.Float) (m : Manager py.Float)
      → m.brew.active ≡ false
      → m.simulation_enabled ≡ false
      → take_turn py now interval m ≡ (none, m)
  unfolding take_turn
  take_turn-idle now interval m a off =
      if_true {b = not m.callback_set || (not m.simulation_enabled && not m.brew.active)} _ _
        (ground arith)

  -- A call in a brew whose packet is built and taken
  generate_and_send-brew :
      (library : Library py.Float) (cb : Bytes → Bool) (now later interval : py.Float)
      (m : Manager py.Float) (payload : Bytes) (h : Home py.Float)
      → m.callback_set ≡ true
      → m.brew.active ≡ true
      → build_packet py library later interval (brew_turn py now m).0 ≡ ok (payload, h)
      → cb payload ≡ true
      → generate_and_send py library cb now later interval m ≡ record {
        payload = some payload;
        failed = false;
        state = after_send py (brew_turn py now m).0 h (brew_turn py now m).1;
      }
  unfolding generate_and_send use_turn hand_over
  generate_and_send-brew library cb now later interval m payload h c a built taken =
      ap (λ r. use_turn py library cb later interval r.0 r.1) (take_turn-brew now interval m c a)
      ∙ (ap (λ r. hand_over py cb (brew_turn py now m).0 (brew_turn py now m).1 r) built
          ∙ ap
              (λ b. record {
                payload = some payload;
                failed = false;
                state =
                    if b
                    then after_send py (brew_turn py now m).0 h (brew_turn py now m).1
                    else (brew_turn py now m).1;
              })
              taken)

  -- The state behind the last packet
  ended :
      (now : py.Float) (m : Manager py.Float) (h : Home py.Float)
      → m.brew.active ≡ true
      → at_least py (elapsed_since py now m.brew) m.brew.time_sec ≡ true
      → let s = after_send py (brew_turn py now m).0 h (brew_turn py now m).1 in
        (s.brew.active ≡ false)
        × (s.brew.elapsed_sec ≡ m.brew.time_sec)
        × (s.last_control_event ≡ text "BrewComplete")
        × (s.simulation_enabled ≡ m.simulation_enabled)
  unfolding after_send brew_turn
  ended now m h a over = (rw (over, a) refl, rw (over, a) refl, rw (over, a) refl, refl)

  idle :
      (library : Library py.Float) (cb : Bytes → Bool) (now later interval : py.Float)
      (m : Manager py.Float)
      → m.brew.active ≡ false
      → m.simulation_enabled ≡ false
      → (generate_and_send py library cb now later interval m).payload ≡ none
  unfolding generate_and_send use_turn
  idle library cb now later interval m a off =
      ap (λ r. (use_turn py library cb later interval r.0 r.1).payload)
        (take_turn-idle now interval m a off)

  -- A brew ends with the first packet that is built and taken once its time is over: with a callback
  -- and a brew whose elapsed time has reached its length, the call that sends a packet leaves no
  -- brew, the event BrewComplete and an elapsed time that is the length, and, if the simulation is
  -- off, the next call sends nothing.
  pub generate_and_send-completes :
      (library : Library py.Float) (cb : Bytes → Bool)
      (now later interval next_now next_later : py.Float) (m : Manager py.Float) (payload : Bytes)
      (h : Home py.Float)
      → m.callback_set ≡ true
      → m.brew.active ≡ true
      → m.simulation_enabled ≡ false
      → at_least py (elapsed_since py now m.brew) m.brew.time_sec ≡ true
      → build_packet py library later interval (brew_turn py now m).0 ≡ ok (payload, h)
      → cb payload ≡ true
      → let s = generate_and_send py library cb now later interval m in
        (s.payload ≡ some payload)
        × (s.state.brew.active ≡ false)
        × (s.state.brew.elapsed_sec ≡ m.brew.time_sec)
        × (s.state.last_control_event ≡ text "BrewComplete")
        × ((generate_and_send py library cb next_now next_later interval s.state).payload ≡ none)
  generate_and_send-completes library cb now later interval next_now next_later m payload h c a off
        over built taken =
      let e = generate_and_send-brew library cb now later interval m payload h c a built taken in
      let (stopped, elapsed, event, simulation) = ended now m h a over in
      (
        ap (λ s. s.payload) e,
        ap (λ s. s.state.brew.active) e ∙ stopped,
        ap (λ s. s.state.brew.elapsed_sec) e ∙ elapsed,
        ap (λ s. s.state.last_control_event) e ∙ event,
        idle library cb next_now next_later interval
            (generate_and_send py library cb now later interval m).state
            (ap (λ s. s.state.brew.active) e ∙ stopped)
            (ap (λ s. s.state.simulation_enabled) e ∙ (simulation ∙ off)),
      )
