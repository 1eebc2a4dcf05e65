-- ===== src/Link/Invariant/Receiving.antt =====
-- server/sim/link_state_machine.py: the handlers of received frames keep the invariant.
use gaggia_esp_c3_mini_serve.Prelude.{ℕ, Option, none, some, arith}
use gaggia_esp_c3_mini_serve.FrameCodec.{Frame}
use gaggia_esp_c3_mini_serve.Python.Text.{Text, text, Unicode}
use gaggia_esp_c3_mini_serve.Python.Payload.{
  Parsed, value, missing, invalid, Signed, parse_u32, parse_i32,
}
use gaggia_esp_c3_mini_serve.Link.State.{Link}
use gaggia_esp_c3_mini_serve.Link.Telemetry.{
  store_telemetry, Ingested, ingested, threw, with_max, ingest_telemetry, Direction, request,
  response,
}
use gaggia_esp_c3_mini_serve.Link.Frames.{
  track_sequence, handle_error_frame, handle_request, handle_response, handle_acknowledgement,
  keepalive_by,
}
use gaggia_esp_c3_mini_serve.Link.Invariant.{LinkInv}

store_telemetry-LinkInv :
    (last : Option Signed) (max total : Option ℕ) (payload : Text) (l : Link)
    → LinkInv l
    → LinkInv (store_telemetry last max total payload l)
unfolding store_telemetry
store_telemetry-LinkInv last max total payload l h = ground arith

pub track_sequence-LinkInv : (n : ℕ) (l : Link) → LinkInv l → LinkInv (track_sequence n l)
unfolding track_sequence
track_sequence-LinkInv n l h = ground arith

pub handle_error_frame-LinkInv :
    (payload : Text) (l : Link) → LinkInv l → LinkInv (handle_error_frame payload l)
unfolding handle_error_frame
handle_error_frame-LinkInv payload l h = ground arith

pub handle_request-LinkInv :
    (now : ℕ) (frame : Frame) (l : Link) → LinkInv l → LinkInv (handle_request now frame l)
unfolding handle_request
handle_request-LinkInv now frame l h = ground arith

pub handle_response-LinkInv :
    (now : ℕ) (frame : Frame) (l : Link) → LinkInv l → LinkInv (handle_response now frame l)
unfolding handle_response
handle_response-LinkInv now frame l h = ground arith

pub handle_acknowledgement-LinkInv :
    (payload : Text) (l : Link) → LinkInv l → LinkInv (handle_acknowledgement payload l)
unfolding handle_acknowledgement
handle_acknowledgement-LinkInv payload l h = ground arith

pub keepalive_by-LinkInv :
    (dir : Direction) (now : ℕ) (frame : Frame) (payload : Text) (l : Link)
    → LinkInv l
    → LinkInv (keepalive_by dir now frame payload l)
unfolding keepalive_by
keepalive_by-LinkInv request now frame payload l h = handle_request-LinkInv now frame l h
keepalive_by-LinkInv response now frame payload l h = handle_response-LinkInv now frame l h
keepalive_by-LinkInv _ now frame payload l h = handle_acknowledgement-LinkInv payload l h

abbrev pub IngestedInv : Ingested → Type 0
IngestedInv (ingested l) = LinkInv l
IngestedInv (threw e) = Unit

pub ingest_telemetry-LinkInv :
    (u : Unicode) (payload : Text) (l : Link)
    → LinkInv l
    → IngestedInv (ingest_telemetry u payload l)
unfolding ingest_telemetry
ingest_telemetry-LinkInv u payload l h =
    by_parts (parse_i32 u payload (text "td_last_ms")) (parse_u32 u payload (text "td_max_ms"))
      (parse_u32 u payload (text "terr"))
  where
    by_parts :
        (last : Option Signed) (max total : Parsed ℕ)
        → IngestedInv (with_max last max total payload l)
    by_parts last invalid total = tt
    by_parts last missing invalid = tt
    by_parts last missing missing = store_telemetry-LinkInv last none none payload l h
    by_parts last missing (value n) = store_telemetry-LinkInv last none (some n) payload l h
    by_parts last (value m) invalid = tt
    by_parts last (value m) missing = store_telemetry-LinkInv last (some m) none payload l h
    by_parts last (value m) (value n) = store_telemetry-LinkInv last (some m) (some n) payload l h
