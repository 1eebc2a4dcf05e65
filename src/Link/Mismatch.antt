-- ===== src/Link/Mismatch.antt =====
-- server/sim/link_state_machine.py: a KEEPALIVE frame whose live integers do not match, through the
-- whole handling of a frame.
use gaggia_esp_c3_mini_serve.Prelude.{
  ℕ, ◌≡◌, refl, sym, ◌⊎◌, inl, inr, false, Option, none, some, Bool-cases, arith,
}
use mathlib.Core.Path.{subst}
use gaggia_esp_c3_mini_serve.FrameCodec.{Frame, MessageType}
use gaggia_esp_c3_mini_serve.Python.Text.{Text, text, Unicode}
use gaggia_esp_c3_mini_serve.Python.Payload.{
  Parsed, value, missing, invalid, Signed, parse_u32, parse_i32,
}
use gaggia_esp_c3_mini_serve.SerialLink.Metadata.{payload_text}
use gaggia_esp_c3_mini_serve.Link.State.{Link}
use gaggia_esp_c3_mini_serve.Link.Telemetry.{
  Ingested, ingested, threw, store_telemetry, with_total, with_max, ingest_telemetry, Direction,
  classify_keepalive, describe_raises,
}
use gaggia_esp_c3_mini_serve.Link.Interfaces.{Transport, DataManager}
use gaggia_esp_c3_mini_serve.Link.World.{World, on_link}
use gaggia_esp_c3_mini_serve.Link.Frames.{
  counters_match, handle_request, handle_response, keepalive_by, track_sequence, dispatch,
  after_ingest, handle_frame,
}

-- The fields of the keepalive exchange and of the watchdog are the same.
pub record Kept (l l' : Link) : Type 0 where
  pub state : l'.current_state ≡ l.current_state
  pub fault : l'.connection_fault ≡ l.connection_fault
  pub server : l'.server_live_integer ≡ l.server_live_integer
  pub client : l'.client_live_integer ≡ l.client_live_integer
  pub armed : l'.watchdog_armed ≡ l.watchdog_armed
  pub seen : l'.last_running_integer_rx_at ≡ l.last_running_integer_rx_at
  pub failures : l'.consecutive_keepalive_failures ≡ l.consecutive_keepalive_failures
  pub retries : l'.bottom_layer_retry_count ≡ l.bottom_layer_retry_count
  pub sequence : l'.sequence ≡ l.sequence

Kept-refl : (l : Link) → Kept l l
Kept-refl l = ground arith

Kept-trans : (a b c : Link) → Kept a b → Kept b c → Kept a c
Kept-trans a b c h k = ground arith

store_telemetry-Kept :
    (last : Option Signed) (max total : Option ℕ) (payload : Text) (l : Link)
    → Kept l (store_telemetry last max total payload l)
unfolding store_telemetry
store_telemetry-Kept last max total payload l = ground arith

track_sequence-Kept : (n : ℕ) (l : Link) → Kept l (track_sequence n l)
unfolding track_sequence
track_sequence-Kept n l = ground arith

abbrev KeptBy : Link → Ingested → Type 0
KeptBy l (ingested l') = Kept l l'
KeptBy l (threw e) = Unit

ingest_telemetry-KeptBy :
    (u : Unicode) (payload : Text) (l : Link) → KeptBy l (ingest_telemetry u payload l)
unfolding ingest_telemetry
ingest_telemetry-KeptBy u payload l =
    by_parts (parse_i32 u payload (text "td_last_ms")) (parse_u32 u payload (text "td_max_ms"))
      (parse_u32 u payload (text "terr"))
  where
    with_total-KeptBy :
        (last : Option Signed) (max : Option ℕ) (total : Parsed ℕ)
        → KeptBy l (with_total last max total payload l)
    with_total-KeptBy last max invalid = tt
    with_total-KeptBy last max missing = store_telemetry-Kept last max none payload l
    with_total-KeptBy last max (value n) = store_telemetry-Kept last max (some n) payload l

    by_parts :
        (last : Option Signed) (max total : Parsed ℕ) → KeptBy l (with_max last max total payload l)
    by_parts last invalid total = tt
    by_parts last missing total = with_total-KeptBy last none total
    by_parts last (value m) total = with_total-KeptBy last (some m) total

-- A request or a response, by the text of a frame.
abbrev pub IsExchange : Text → Type 0
IsExchange payload =
    (classify_keepalive payload ≡ Direction.request)
    ⊎ (classify_keepalive payload ≡ Direction.response)

keepalive_by-refused :
    (now : ℕ) (frame : Frame) (payload : Text) (l : Link)
    → counters_match frame ≡ false
    → IsExchange payload
    → keepalive_by (classify_keepalive payload) now frame payload l ≡ l
unfolding keepalive_by handle_request handle_response
keepalive_by-refused now frame payload l e (inl c) = rw (c, e) refl
keepalive_by-refused now frame payload l e (inr c) = rw (c, e) refl

module _ {t : Transport} {d : DataManager} (u : Unicode) (now : ℕ) where
  dispatch-refused :
      (type : MessageType) (frame : Frame) (payload : Text) (w : World t d)
      → type ≡ MessageType.keepalive
      → counters_match frame ≡ false
      → IsExchange payload
      → (dispatch u now frame type payload w).1.link ≡ w.link
  unfolding dispatch
  dispatch-refused type frame payload w k e c =
      rw k (keepalive_by-refused now frame payload w.link e c)

  after_ingest-Kept :
      (frame : Frame) (payload : Text) (r : Ingested) (w : World t d)
      → frame.message_type ≡ MessageType.keepalive
      → counters_match frame ≡ false
      → IsExchange payload
      → KeptBy w.link r
      → Kept w.link (after_ingest u now frame payload r w).1.link
  unfolding after_ingest
  after_ingest-Kept frame payload (threw e) w k m c h = Kept-refl w.link
  after_ingest-Kept frame payload (ingested l) w k m c h =
      let w' : World t d = record w { link = l } in
      elim (Bool-cases (describe_raises u frame.message_type payload)) [
        | inl e ↦ rw e h
        | inr e ↦ rw e (
            subst (λ l'. Kept w.link l')
              (sym (
                dispatch-refused frame.message_type frame payload
                  (on_link (track_sequence frame.sequence) w') k m c))
              (Kept-trans w.link l (track_sequence frame.sequence l) h
                (track_sequence-Kept frame.sequence l)))
      ]

  -- A KEEPALIVE frame, a request or a response, whose live integers do not match never feeds the
  -- watchdog: its handling, also where that raises, leaves the state of the link, the fault, both
  -- live integers, the arming and the last reception, the counts of failures and retries and the
  -- sequence number as they are.
  pub handle_frame-mismatch :
      (frame : Frame) (w : World t d)
      → frame.message_type ≡ MessageType.keepalive
      → IsExchange (payload_text u frame)
      → counters_match frame ≡ false
      → Kept w.link (handle_frame u now frame w).1.link
  unfolding handle_frame
  handle_frame-mismatch frame w k c m =
      after_ingest-Kept frame (payload_text u frame)
        (ingest_telemetry u (payload_text u frame) w.link) w k m c
        (ingest_telemetry-KeptBy u (payload_text u frame) w.link)
