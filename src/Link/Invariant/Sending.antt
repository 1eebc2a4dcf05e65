-- ===== src/Link/Invariant/Sending.antt =====
-- server/sim/link_state_machine.py: sending and the automatic flow keep the invariant.
use gaggia_esp_c3_mini_serve.Prelude.{
  ◌++◌, Option, none, some, Option-cases, Bool-cases, inl, inr, arith,
}
use gaggia_esp_c3_mini_serve.Prelude.Bytes.{Bytes}
use gaggia_esp_c3_mini_serve.FrameCodec.{MessageType}
use gaggia_esp_c3_mini_serve.Python.{
  Raised, runtime_error, value_error, overflow_error, other_error,
}
use gaggia_esp_c3_mini_serve.Python.Text.{Text, text}
use gaggia_esp_c3_mini_serve.Link.State.{Link, LinkState, next_sequence, validate_config}
use gaggia_esp_c3_mini_serve.Link.Interfaces.{Transport, DataManager}
use gaggia_esp_c3_mini_serve.Link.World.{
  World, Ends, ◌▸◌, catch_runtime, on_link, counts_data, after_send, send_bytes, send_command,
  after_try, try_send, enter_initialize, start_initialize, begin_initialize, advance_from,
  advance_automatic_flow,
}
use gaggia_esp_c3_mini_serve.Link.Invariant.{
  FlowInv, LinkInv, set_runtime_fault-LinkInv, enter_initialize-LinkInv, await_connect-LinkInv,
  next_sequence-LinkInv, begin_connect-LinkInv,
}

counts_data-LinkInv : (type : MessageType) (l : Link) → LinkInv l → LinkInv (counts_data type l)
counts_data-LinkInv MessageType.payload_data l h = ground arith
counts_data-LinkInv _ l h = h

module _ {t : Transport} {d : DataManager} where
  abbrev pub WorldInv : World t d → Type 0
  WorldInv w = LinkInv w.link

  -- The invariant of the world in which a call ends, with an exception or without.
  pub record EndsInv (r : Ends (World t d)) : Type 0 where
    pub inv : LinkInv r.1.link

  pub ends : {r : Ends (World t d)} → LinkInv r.1.link → EndsInv r
  ends h = record { inv = h }

  pub ▸-inv :
      (r : Ends (World t d)) (next : World t d → Ends (World t d))
      → EndsInv r
      → ((w : World t d) → WorldInv w → EndsInv (next w))
      → EndsInv (r ▸ next)
  ▸-inv (none, w) next h k = k w h.inv
  ▸-inv (some e, w) next h k = ends h.inv

  pub catch_runtime-inv :
      (handler : Text → World t d → Ends (World t d)) (r : Ends (World t d))
      → ((m : Text) (w : World t d) → WorldInv w → EndsInv (handler m w))
      → EndsInv r
      → EndsInv (catch_runtime handler r)
  catch_runtime-inv handler (none, w) k h = ends h.inv
  catch_runtime-inv handler (some (runtime_error m), w) k h = k m w h.inv
  catch_runtime-inv handler (some value_error, w) k h = ends h.inv
  catch_runtime-inv handler (some overflow_error, w) k h = ends h.inv
  catch_runtime-inv handler (some other_error, w) k h = ends h.inv

  after_send-inv :
      (type : MessageType) (w : World t d) (r : Option Raised × t.State)
      → WorldInv w
      → EndsInv (after_send type w r)
  after_send-inv type w (none, s) h = ends (counts_data-LinkInv type w.link h)
  after_send-inv type w (some e, s) h = ends h

  pub send_bytes-inv :
      (type : MessageType) (bytes : Bytes) (w : World t d)
      → WorldInv w
      → EndsInv (send_bytes type bytes w)
  unfolding send_bytes
  send_bytes-inv type bytes w h =
      after_send-inv type (on_link next_sequence w) (t.send_frame _ w.serial)
        (next_sequence-LinkInv w.link h)

  pub send_command-inv :
      (type : MessageType) (payload : Text) (w : World t d)
      → WorldInv w
      → EndsInv (send_command type payload w)
  unfolding send_command
  send_command-inv type payload w h = send_bytes-inv type _ w h

  after_try-inv :
      (failure_prefix : Text) (next : World t d → Ends (World t d)) (r : Ends (World t d))
      → ((w : World t d) → WorldInv w → EndsInv (next w))
      → EndsInv r
      → EndsInv (after_try failure_prefix next r)
  after_try-inv p next (none, w) k h = k w h.inv
  after_try-inv p next (some (runtime_error m), w) k h =
      ends (set_runtime_fault-LinkInv (p ++ (text ": " ++ m)) w.link h.inv.flow)
  after_try-inv p next (some value_error, w) k h = ends h.inv
  after_try-inv p next (some overflow_error, w) k h = ends h.inv
  after_try-inv p next (some other_error, w) k h = ends h.inv

  pub try_send-inv :
      (type : MessageType) (payload failure_prefix : Text) (next : World t d → Ends (World t d))
      (w : World t d)
      → ((w : World t d) → WorldInv w → EndsInv (next w))
      → WorldInv w
      → EndsInv (try_send type payload failure_prefix next w)
  unfolding try_send
  try_send-inv type payload p next w k h =
      after_try-inv p next (send_command type payload w) k (send_command-inv type payload w h)

  start_initialize-inv : (w : World t d) → FlowInv w.link → EndsInv (start_initialize w)
  unfolding start_initialize
  start_initialize-inv w h = elim (Bool-cases (t.port_open w.serial)) [
    | inl e ↦ rw e (
        try_send-inv MessageType.initialize _ _ _ (on_link enter_initialize w)
          (λ w k. ends (await_connect-LinkInv w.link k)) (enter_initialize-LinkInv w.link h))
    | inr e ↦ rw e (ends (set_runtime_fault-LinkInv (text "COM port not found") w.link h))
  ]

  -- Whatever the state before it, the initialize stage ends in one that satisfies the invariant.
  pub begin_initialize-inv : (w : World t d) → FlowInv w.link → EndsInv (begin_initialize w)
  unfolding begin_initialize
  begin_initialize-inv w h = elim (Option-cases (validate_config w.link)) [
    | inl e ↦ rw (e, begin_initialize) (start_initialize-inv w h)
    | inr (fault, e) ↦ rw (e, begin_initialize) (ends (set_runtime_fault-LinkInv fault w.link h))
  ]

  advance_from-inv :
      (state : LinkState) (stage : Option LinkState) (w : World t d)
      → WorldInv w
      → EndsInv (advance_from state stage w)
  unfolding advance_from
  advance_from-inv LinkState.reset (some LinkState.initialize) w h = begin_initialize-inv w h.flow
  advance_from-inv LinkState.initialize (some LinkState.connect) w h =
      ends (begin_connect-LinkInv w.link h)
  advance_from-inv _ _ w h = ends h

  pub advance_automatic_flow-inv : (w : World t d) → WorldInv w → EndsInv (advance_automatic_flow w)
  unfolding advance_automatic_flow
  advance_automatic_flow-inv w h =
      advance_from-inv w.link.current_state w.link.pending_auto_stage w h
