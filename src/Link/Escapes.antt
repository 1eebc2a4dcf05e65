-- ===== src/Link/Escapes.antt =====
-- server/sim/link_state_machine.py: an exception that leaves the poll of the received frames.
use gaggia_esp_c3_mini_serve.Prelude.{
  ℕ, ◌≡◌, refl, sym, ap, ◌∙◌, true, ◌||◌, Option, some, List, [], ◌∷◌,
}
use gaggia_esp_c3_mini_serve.FrameCodec.{Frame}
use gaggia_esp_c3_mini_serve.Python.{value_error}
use gaggia_esp_c3_mini_serve.Python.Text.{Text, text, Unicode}
use gaggia_esp_c3_mini_serve.Python.Payload.{
  Parsed, value, missing, invalid, is_invalid, Signed, parse_u32, parse_i32,
}
use gaggia_esp_c3_mini_serve.SerialLink.Metadata.{payload_text}
use gaggia_esp_c3_mini_serve.Link.State.{Link}
use gaggia_esp_c3_mini_serve.Link.Telemetry.{threw, with_max, ingest_telemetry}
use gaggia_esp_c3_mini_serve.Link.Interfaces.{Transport, DataManager}
use gaggia_esp_c3_mini_serve.Link.World.{World, done}
use gaggia_esp_c3_mini_serve.Link.Frames.{
  after_ingest, handle_frame, handle_frames, poll_received_frames,
}

with_max-threw :
    (last : Option Signed) (max total : Parsed ℕ) (payload : Text) (l : Link)
    → (is_invalid max || is_invalid total) ≡ true
    → with_max last max total payload l ≡ threw value_error
with_max-threw last invalid total payload l e = refl
with_max-threw last missing invalid payload l e = refl
with_max-threw last (value n) invalid payload l e = refl
with_max-threw last missing missing payload l e = cc
with_max-threw last missing (value m) payload l e = cc
with_max-threw last (value n) missing payload l e = cc
with_max-threw last (value n) (value m) payload l e = cc

module _ {t : Transport} {d : DataManager} (u : Unicode) (now : ℕ) where
  handle_frame-threw :
      (f : Frame) (w : World t d)
      → (is_invalid (parse_u32 u (payload_text u f) (text "td_max_ms"))
          || is_invalid (parse_u32 u (payload_text u f) (text "terr")))
        ≡ true
      → handle_frame u now f w ≡ (some value_error, w)
  unfolding handle_frame after_ingest ingest_telemetry
  handle_frame-threw f w e =
      rw
        (with_max-threw (parse_i32 u (payload_text u f) (text "td_last_ms"))
          (parse_u32 u (payload_text u f) (text "td_max_ms"))
          (parse_u32 u (payload_text u f) (text "terr")) (payload_text u f) w.link e)
        refl

  -- If the `td_max_ms` or the `terr` of the first received frame has digits that `int` refuses, the
  -- poll ends with a ValueError and changes nothing of the runtime, and the poll after it, at any
  -- time, finds no frame: those that were received behind the first are never handled.
  pub poll_received_frames-unreadable :
      (f : Frame) (rest : List Frame) (w : World t d) (s : t.State) (later : ℕ)
      → t.pop_received_frames w.serial ≡ (f ∷ rest, s)
      → (is_invalid (parse_u32 u (payload_text u f) (text "td_max_ms"))
          || is_invalid (parse_u32 u (payload_text u f) (text "terr")))
        ≡ true
      → (poll_received_frames u now w ≡ (some value_error, record w { serial = s }))
        × (poll_received_frames u later (record w { serial = s })
            ≡ done (record w { serial = (t.pop_received_frames s).1 }))
  unfolding poll_received_frames handle_frames
  poll_received_frames-unreadable f rest w s later p e =
      let emptied : (t.pop_received_frames s).0 ≡ [] =
        ap (λ r. (t.pop_received_frames r.1).0) (sym p) ∙ t.pop_pop w.serial in
      (rw (p, handle_frame-threw f (record w { serial = s }) e) refl, rw emptied refl)
