-- ===== src/SerialLink/Receive.antt =====
-- server/transport/serial_link.py: the reader thread's loop, one `read` of the port at a time.
use gaggia_esp_c3_mini_serve.Prelude.{◌+◌, none, some, List, [], ◌∷◌, ◌++◌, length, if◌then◌else◌}
use gaggia_esp_c3_mini_serve.Prelude.Bytes.{Bytes}
use gaggia_esp_c3_mini_serve.FrameCodec.{
  Frame, FrameDecodeError, crc_mismatch, unsupported_type, Decoded, returned, raised, out_of_fuel,
  decode_frames,
}
use gaggia_esp_c3_mini_serve.Python.Text.{Unicode, Text, text, show, hex4}
use gaggia_esp_c3_mini_serve.SerialLink.Metadata.{payload_text, metadata_raises}
use gaggia_esp_c3_mini_serve.SerialLink.State.{Serial, detach}

-- What `current.read(256)` does: it returns bytes, none at a timeout, or raises.
pub data Read : Type 0 where
  chunk : Bytes → Read
  read_error : Text → Read

-- `str(exc)` of a FrameDecodeError
unfoldable pub decode_message : FrameDecodeError → Text
decode_message (crc_mismatch expected actual) =
    text "CRC mismatch: expected 0x"
    ++ (hex4 expected ++ (text ", computed 0x" ++ (hex4 actual ++ text ".")))
decode_message (unsupported_type n) = text "Unsupported message type " ++ show n

-- What the loop queues of the decoded frames. Each sets an event with no error. When the metadata of
-- a KEEPALIVE frame raise, `_reader_loop` ends the thread and drops the port: that frame is queued,
-- and the ones behind it are lost.
unfoldable pub queue_frames : Unicode → List Frame → Serial → Serial
unfolding metadata_raises detach
queue_frames u [] s = s
queue_frames u (f ∷ fs) s =
    let queued = record s {
      rx_frames = s.rx_frames ++ (f ∷ []);
      rx_frames_count = s.rx_frames_count + 1;
    } in
    let rest = queue_frames u fs (record queued { last_error = [] }) in
    if metadata_raises u f then detach (u.int_error (payload_text u f)) queued else rest

-- What the loop does with the result of `decode_frames`.
unfoldable pub after_decode : Unicode → Decoded → Serial → Serial
unfolding queue_frames
after_decode u (returned frames left) s = queue_frames u frames (record s { rx_buffer = left })
after_decode u (raised e left) s = record s { rx_buffer = left; last_error = decode_message e }
after_decode u out_of_fuel s = s

unfoldable pub receive : Unicode → Bytes → Serial → Serial
unfolding after_decode
receive u [] s = s
receive u (b ∷ bs) s =
    let buffer = s.rx_buffer ++ (b ∷ bs) in
    after_decode u (decode_frames buffer)
      (record s { rx_bytes = s.rx_bytes + length (b ∷ bs); rx_buffer = buffer })

unfoldable pub read_open : Unicode → Read → Serial → Serial
unfolding receive detach
read_open u (chunk bytes) s = receive u bytes s
read_open u (read_error e) s = detach e s

-- One round of `_reader_loop_inner`: it reads only while it is to run and has a port.
unfoldable pub reader_step : Unicode → Read → Serial → Serial
unfolding read_open
reader_step u r s =
    if s.reader_running then elim s.serial [ none ↦ s | some h ↦ read_open u r s ] else s

unfoldable pub reader_steps : Unicode → List Read → Serial → Serial
unfolding reader_step
reader_steps u [] s = s
reader_steps u (r ∷ rs) s = reader_steps u rs (reader_step u r s)
