-- ===== src/Link/Invariant.antt =====
-- server/sim/link_state_machine.py: the invariant of `LinkRuntime`, and that its helpers keep it.
pub mod Receiving
pub mod Sending
pub mod Polling
pub mod Calls
pub mod Histories
use gaggia_esp_c3_mini_serve.Prelude.{
  ℕ, ◌+◌, ◌%◌, ◌<◌, ◌⊎◌, leb, Bool-cases, inl, inr, ◌≡◌, ◌≢◌, refl, Bool, true, false, Option, none,
  some, arith,
}
use gaggia_esp_c3_mini_serve.Python.Text.{Text}
use gaggia_esp_c3_mini_serve.Link.State.{
  Link, LinkState, new, in_keepalive, is_error, clear_runtime_flow, latch_fault, set_runtime_fault,
  next_sequence, record_top_layer_failure, record_total_error, set_state,
}
use gaggia_esp_c3_mini_serve.Link.World.{enter_initialize, await_connect, begin_connect}
use gaggia_esp_c3_mini_serve.Link.Snapshot.{enforce_timeout, schedule_shot_done}

-- What holds of the supervision flags in every state, also in the middle of a call.
pub record FlowInv (l : Link) : Type 0 where
  pub sequence_fits : l.sequence < 65536
  pub armed_seeded : l.watchdog_armed ≡ true → l.running_integer_seeded ≡ true
  pub armed_complete :
      l.watchdog_armed ≡ true → (l.initialize_completed ≡ true) × (l.connect_completed ≡ true)
  pub seeded_timed : l.running_integer_seeded ≡ true → l.last_running_integer_rx_at ≢ none

-- What holds between two calls. In a keepalive state both setup stages are complete, the server's
-- live integer is even, the client's is odd, and they are neighbours; in the error state the
-- connection fault is latched.
pub record LinkInv (l : Link) : Type 0 where
  pub flow : FlowInv l
  pub keepalive_complete :
      in_keepalive l.current_state ≡ true
      → (l.initialize_completed ≡ true) × (l.connect_completed ≡ true)
  pub keepalive_integers :
      in_keepalive l.current_state ≡ true
      → (l.server_live_integer % 2 ≡ 0)
        × (l.client_live_integer % 2 ≡ 1)
        × ((l.client_live_integer ≡ l.server_live_integer + 1)
            ⊎ (l.server_live_integer ≡ l.client_live_integer + 1))
  pub error_latched : is_error l.current_state ≡ true → l.connection_fault ≡ true

pub new-LinkInv : LinkInv new
unfolding new
new-LinkInv = ground arith

pub clear_runtime_flow-FlowInv : (l : Link) → FlowInv l → FlowInv (clear_runtime_flow l)
unfolding clear_runtime_flow
clear_runtime_flow-FlowInv l h = ground arith

pub record_total_error-FlowInv : (l : Link) → FlowInv l → FlowInv (record_total_error l)
unfolding record_total_error
record_total_error-FlowInv l h = ground arith

pub latch_fault-LinkInv : (message : Text) (l : Link) → FlowInv l → LinkInv (latch_fault message l)
unfolding latch_fault
latch_fault-LinkInv message l h = ground arith

pub set_runtime_fault-LinkInv :
    (message : Text) (l : Link) → FlowInv l → LinkInv (set_runtime_fault message l)
unfolding set_runtime_fault
set_runtime_fault-LinkInv message l h =
    latch_fault-LinkInv message (record_total_error l) (record_total_error-FlowInv l h)

pub enter_initialize-LinkInv : (l : Link) → FlowInv l → LinkInv (enter_initialize l)
unfolding enter_initialize
enter_initialize-LinkInv l h = ground arith

pub await_connect-LinkInv : (l : Link) → LinkInv l → LinkInv (await_connect l)
unfolding await_connect
await_connect-LinkInv l h = ground arith

pub next_sequence-LinkInv : (l : Link) → LinkInv l → LinkInv (next_sequence l)
unfolding next_sequence
next_sequence-LinkInv l h = ground arith

pub begin_connect-LinkInv : (l : Link) → LinkInv l → LinkInv (begin_connect l)
unfolding begin_connect
begin_connect-LinkInv l h = ground arith

pub enforce_timeout-LinkInv : (now : ℕ) (l : Link) → LinkInv l → LinkInv (enforce_timeout now l)
unfolding enforce_timeout
enforce_timeout-LinkInv now l h = ground arith

pub schedule_shot_done-LinkInv :
    (mono : ℕ) (brew : Bool) (l : Link) → LinkInv l → LinkInv (schedule_shot_done mono brew l)
unfolding schedule_shot_done
schedule_shot_done-LinkInv mono brew l h = ground arith

-- The part of a failure that goes on through reset or connect.
restart-LinkInv :
    (state : LinkState) (message : Text) (l : Link)
    → in_keepalive state ≡ false
    → is_error state ≡ false
    → FlowInv l
    → LinkInv (
        set_state state message
          (record (clear_runtime_flow l) { tcp_connected = false; wifi_connected = false }))
unfolding clear_runtime_flow
restart-LinkInv state message l a b h = ground arith

pub record_top_layer_failure-LinkInv :
    (message : Text) (l : Link) → FlowInv l → LinkInv (record_top_layer_failure message l)
unfolding record_top_layer_failure
record_top_layer_failure-LinkInv message l h =
    let counted : Link = record (record_total_error l) {
      top_layer_failure_count = l.top_layer_failure_count + 1;
      consecutive_keepalive_failures = l.consecutive_keepalive_failures + 1;
    } in
    let inv : FlowInv counted = ground (arith, record_total_error-FlowInv l h) in
    elim (Bool-cases (leb 3 (l.top_layer_failure_count + 1))) [
      | inl e ↦ rw e (latch_fault-LinkInv message counted inv)
      | inr e ↦ rw e (restart-LinkInv LinkState.reset message counted refl refl inv)
    ]
