-- ===== src/Link/Keepalive.antt =====
-- server/sim/link_state_machine.py: the step of the keepalive exchange.
use gaggia_esp_c3_mini_serve.Prelude.{
  ℕ, ◌+◌, ◌%◌, ◌<◌, ◌≡◌, refl, ◌⊎◌, inl, inr, true, false, some, Bool-cases, arith,
}
use gaggia_esp_c3_mini_serve.FrameCodec.{Frame}
use gaggia_esp_c3_mini_serve.FrameCodec.RoundTrip.{IsFrame}
use gaggia_esp_c3_mini_serve.Python.Text.{Text}
use gaggia_esp_c3_mini_serve.Link.State.{Link, LinkState}
use gaggia_esp_c3_mini_serve.Link.Telemetry.{Direction}
use gaggia_esp_c3_mini_serve.Link.Frames.{
  counters_match, handle_request, handle_response, handle_acknowledgement, keepalive_by,
}

-- The live integers and the sequence number fit the fields of a packet.
pub record Encodable (l : Link) : Type 0 where
  pub server_fits : l.server_live_integer < 4294967296
  pub client_fits : l.client_live_integer < 4294967296
  pub sequence_fits : l.sequence < 65536

handle_request-Encodable :
    (now : ℕ) (frame : Frame) (l : Link)
    → IsFrame frame
    → Encodable l
    → Encodable (handle_request now frame l)
unfolding handle_request
handle_request-Encodable now frame l f h = ground arith

handle_response-Encodable :
    (now : ℕ) (frame : Frame) (l : Link)
    → IsFrame frame
    → Encodable l
    → Encodable (handle_response now frame l)
unfolding handle_response
handle_response-Encodable now frame l f h = ground arith

handle_acknowledgement-Encodable :
    (payload : Text) (l : Link) → Encodable l → Encodable (handle_acknowledgement payload l)
unfolding handle_acknowledgement
handle_acknowledgement-Encodable payload l h = ground arith

-- A keepalive frame of any direction whose fields fit a packet leaves live integers that fit one too:
-- the request's even number is below 2 ^ 32 - 1, so the successor that the server answers with fits.
pub keepalive_by-Encodable :
    (dir : Direction) (now : ℕ) (frame : Frame) (payload : Text) (l : Link)
    → IsFrame frame
    → Encodable l
    → Encodable (keepalive_by dir now frame payload l)
unfolding keepalive_by
keepalive_by-Encodable Direction.request now frame payload l f h =
    handle_request-Encodable now frame l f h
keepalive_by-Encodable Direction.response now frame payload l f h =
    handle_response-Encodable now frame l f h
keepalive_by-Encodable _ now frame payload l f h = handle_acknowledgement-Encodable payload l h

-- The live integers of a round of the exchange: the server's number is even, and the client's is
-- the odd one before it.
pub record Matches (frame : Frame) : Type 0 where
  pub host_even : frame.host_live_integer % 2 ≡ 0
  pub neighbours : frame.device_live_integer + 1 ≡ frame.host_live_integer

-- What an accepted frame leaves of a link: it is in the keepalive state `state`, out of any fault,
-- connected, with the watchdog armed at the time of the frame.
pub record Accepted (state : LinkState) (now : ℕ) (frame : Frame) (l' : Link) : Type 0 where
  pub in_state : l'.current_state ≡ state
  pub no_fault : l'.connection_fault ≡ false
  pub no_failures :
      (l'.top_layer_failure_count ≡ 0)
      × (l'.consecutive_keepalive_failures ≡ 0)
      × (l'.bottom_layer_retry_count ≡ 0)
  pub server_integer : l'.server_live_integer ≡ frame.host_live_integer
  pub armed : (l'.watchdog_armed ≡ true) × (l'.last_running_integer_rx_at ≡ some now)
  pub connected : (l'.tcp_connected ≡ true) × (l'.bridge_ready ≡ true)

counters_match-Matches : (frame : Frame) → counters_match frame ≡ true → Matches frame
unfolding counters_match
counters_match-Matches frame e = ground arith

Matches-counters_match : (frame : Frame) → Matches frame → counters_match frame ≡ true
unfolding counters_match
Matches-counters_match frame h = ground arith

not_Matches : (frame : Frame) → counters_match frame ≡ false → ¬ Matches frame
not_Matches frame e h = ground (arith, Matches-counters_match frame h)

accepts_request :
    (now : ℕ) (frame : Frame) (l : Link)
    → counters_match frame ≡ true
    → Accepted LinkState.keepalive_client_return now frame (handle_request now frame l)
unfolding handle_request
accepts_request now frame l e = simp e (ground arith)

accepts_response :
    (now : ℕ) (frame : Frame) (l : Link)
    → counters_match frame ≡ true
    → Accepted LinkState.keepalive_server_send now frame (handle_response now frame l)
unfolding handle_response
accepts_response now frame l e = simp e (ground arith)

-- The step of the keepalive exchange accepts a frame of either direction exactly when its live
-- integers match, whatever the state of the link before it, the error state included: a request
-- leaves the link waiting for the client's return, a response leaves it about to send, and both out
-- of any fault and armed. In any other case this step leaves the link as it is; the numbers match
-- without a wrap, so that 0 does not follow 2 ^ 32 - 1. The telemetry and the sequence number of the
-- frame are read before this step and are no part of it.
pub keepalive_by-accepts :
    (now : ℕ) (frame : Frame) (payload : Text) (l : Link)
    → (Matches frame
        × Accepted LinkState.keepalive_client_return now frame
            (keepalive_by Direction.request now frame payload l)
        × Accepted LinkState.keepalive_server_send now frame
            (keepalive_by Direction.response now frame payload l))
      ⊎ ((¬ Matches frame)
          × (keepalive_by Direction.request now frame payload l ≡ l)
          × (keepalive_by Direction.response now frame payload l ≡ l))
unfolding keepalive_by handle_request handle_response
keepalive_by-accepts now frame payload l = elim (Bool-cases (counters_match frame)) [
  | inl e ↦ inl (
    counters_match-Matches frame e,
    accepts_request now frame l e,
    accepts_response now frame l e,
  )
  | inr e ↦ inr (not_Matches frame e, rw e refl, rw e refl)
]
