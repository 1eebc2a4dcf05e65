-- ===== src/Tests/Serial.antt =====
-- server/transport/serial_link.py and ServerInterface/frame_codec.py at concrete packets and ports.
use gaggia_esp_c3_mini_serve.Prelude.{
  ℕ, ◌+◌, ◌≡◌, refl, ◌≢◌, true, false, ltb, if◌then◌else◌, none, some, [], ◌∷◌, ◌++◌, take, drop,
  arith,
}
use gaggia_esp_c3_mini_serve.Prelude.Bytes.{Bytes}
use gaggia_esp_c3_mini_serve.FrameCodec.{
  Frame, crc_mismatch, crc16_ccitt, encode_frame, find_sof, read_at_sof, check_packet, decode_round,
  got, returned, out_of_fuel, decode_frames,
}
use gaggia_esp_c3_mini_serve.FrameCodec.RoundTrip.{IsFrame, body, packet, encode_frame-packet}
use gaggia_esp_c3_mini_serve.FrameCodec.Parse.{decode_frames-ne-out_of_fuel}
use gaggia_esp_c3_mini_serve.FrameCodec.Stream.{packets, decode_frames-stream}
use gaggia_esp_c3_mini_serve.FrameCodec.Encoded.{decode_frames-encode_frame}
use gaggia_esp_c3_mini_serve.FrameCodec.Faults.{decode_round-noise, decode_frames-cut_in_sof}
use gaggia_esp_c3_mini_serve.Python.Text.{
  text, strip, split, lower, starts_with, isdigit, int_of, ascii_only,
}
use gaggia_esp_c3_mini_serve.Python.Payload.{parse_u32}
use gaggia_esp_c3_mini_serve.Python.Utf8.{decode_ignore}
use gaggia_esp_c3_mini_serve.SerialLink.Send.{Write, send_frame}
use gaggia_esp_c3_mini_serve.SerialLink.Receive.{receive}
use gaggia_esp_c3_mini_serve.SerialLink.Delivery.{
  Loggable, receive-packets, receive-crash, receive-lost, receive-cut,
}
use gaggia_esp_c3_mini_serve.SerialLink.Closing.{FrameEnds, send_frame-ends}
use gaggia_esp_c3_mini_serve.SerialLink.Metadata.{payload_text}
use gaggia_esp_c3_mini_serve.SerialLink.Metadata.{metadata_raises, payload_text}
use gaggia_esp_c3_mini_serve.Python.Payload.{parse_u32}
use gaggia_esp_c3_mini_serve.Python.Utf8.{decode_ignore}
use gaggia_esp_c3_mini_serve.Tests.Data.{
  superscripts, frame_a, frame_b, frame_a-IsFrame, frame_b-IsFrame, manager,
}

decode_frames-stream_example :
    decode_frames (packets (frame_a ∷ frame_b ∷ []) []) ≡ returned (frame_a ∷ frame_b ∷ []) []
decode_frames-stream_example =
    decode_frames-stream (frame_a ∷ frame_b ∷ []) [] [] (frame_a-IsFrame, (frame_b-IsFrame, tt))
      (unfold decode_round find_sof in refl)

decode_frames-ne-out_of_fuel_example : decode_frames (0xA5 ∷ 0x5A ∷ 0xA5 ∷ []) ≢ out_of_fuel
decode_frames-ne-out_of_fuel_example = decode_frames-ne-out_of_fuel (0xA5 ∷ 0x5A ∷ 0xA5 ∷ [])

decode_frames-encode_frame_example : decode_frames (packet frame_b) ≡ returned (frame_b ∷ []) []
decode_frames-encode_frame_example =
    decode_frames-encode_frame frame_b (packet frame_b)
      (encode_frame-packet frame_b frame_b-IsFrame)

decode_round-noise_example :
    decode_round ((1 ∷ 0x5A ∷ 2 ∷ []) ++ (packet frame_a ++ (9 ∷ []))) ≡ got frame_a (9 ∷ [])
decode_round-noise_example =
    decode_round-noise (1 ∷ 0x5A ∷ 2 ∷ []) (9 ∷ []) frame_a (unfold find_sof in refl)
      frame_a-IsFrame

decode_frames-cut_in_sof_example :
    (decode_frames (packet frame_a) ≡ returned (frame_a ∷ []) [])
    × (decode_frames (take 1 (packet frame_a)) ≡ returned [] [])
    × (decode_frames ([] ++ drop 1 (packet frame_a)) ≡ returned [] [])
decode_frames-cut_in_sof_example =
    decode_frames-cut_in_sof frame_a frame_a-IsFrame (unfold find_sof crc16_ccitt in refl)

-- A device whose first two writes time out.
abbrev slow_device : ℕ → Write
slow_device n = record {
  meanwhile = [];
  error = if ltb n 2 then some (record { message = []; is_timeout = true }) else none;
}

send_frame-ends_example :
    FrameEnds (encode_frame frame_a) 3 manager (send_frame ascii_only slow_device frame_a manager)
send_frame-ends_example = send_frame-ends ascii_only slow_device frame_a manager (omega arith)

frame_a-Loggable : Loggable ascii_only frame_a
unfolding metadata_raises payload_text parse_u32 split lower strip decode_ignore starts_with text
frame_a-Loggable = refl

frame_b-Loggable : Loggable ascii_only frame_b
unfolding metadata_raises
frame_b-Loggable = refl

receive-packets_example :
    ((receive ascii_only (packets (frame_a ∷ frame_b ∷ []) []) manager).rx_frames
      ≡ [] ++ (frame_a ∷ frame_b ∷ []))
    × ((receive ascii_only (packets (frame_a ∷ frame_b ∷ []) []) manager).rx_buffer ≡ [])
    × ((receive ascii_only (packets (frame_a ∷ frame_b ∷ []) []) manager).rx_frames_count ≡ 0 + 2)
receive-packets_example =
    receive-packets ascii_only (packets (frame_a ∷ frame_b ∷ []) []) (frame_a ∷ frame_b ∷ []) [] []
      manager (omega arith) refl (frame_a-IsFrame, (frame_b-IsFrame, tt))
      (frame_a-Loggable, (frame_b-Loggable, tt)) (unfold decode_round find_sof in refl)

-- The second packet with a checksum of zero.
abbrev corrupt : Bytes
corrupt = body frame_b ++ (0 ∷ 0 ∷ [])

receive-lost_example :
    ((receive ascii_only (packets (frame_a ∷ []) corrupt) manager).rx_frames ≡ [])
    × ((receive ascii_only (packets (frame_a ∷ []) corrupt) manager).rx_buffer ≡ drop 2 corrupt)
unfolding decode_round crc16_ccitt find_sof read_at_sof check_packet
receive-lost_example =
    receive-lost ascii_only (packets (frame_a ∷ []) corrupt) (frame_a ∷ []) corrupt (drop 2 corrupt)
      (crc_mismatch 0 (crc16_ccitt (body frame_b))) manager (omega arith) refl (frame_a-IsFrame, tt)
      refl

receive-cut_example :
    ((receive ascii_only
        (drop 6 (packet frame_a))
        (receive ascii_only (take 6 (packet frame_a)) manager)).rx_frames
      ≡ [] ++ (frame_a ∷ []))
    × ((receive ascii_only
          (drop 6 (packet frame_a))
          (receive ascii_only (take 6 (packet frame_a)) manager)).rx_buffer
        ≡ [])
receive-cut_example =
    receive-cut ascii_only 6 frame_a manager frame_a-IsFrame frame_a-Loggable (omega arith)
      (omega arith) refl

-- A request whose session id is a superscript two, as UTF-8: `sid=` and the digit.
abbrev odd_keepalive : Frame
odd_keepalive = record frame_a { payload = 115 ∷ 105 ∷ 100 ∷ 61 ∷ 0xC2 ∷ 0xB2 ∷ [] }

odd_keepalive-IsFrame : IsFrame odd_keepalive
odd_keepalive-IsFrame = record {
  payload_fits = omega arith;
  host_fits = omega arith;
  device_fits = omega arith;
  sequence_fits = omega arith;
}

receive-crash_example :
    ((receive superscripts (packets (odd_keepalive ∷ frame_b ∷ []) []) manager).rx_frames
      ≡ [] ++ (odd_keepalive ∷ []))
    × ((receive superscripts (packets (odd_keepalive ∷ frame_b ∷ []) []) manager).serial ≡ none)
    × ((receive superscripts (packets (odd_keepalive ∷ frame_b ∷ []) []) manager).reader_running
        ≡ false)
unfolding metadata_raises payload_text parse_u32 split lower strip decode_ignore starts_with text
    isdigit int_of
receive-crash_example =
    receive-crash superscripts (packets (odd_keepalive ∷ frame_b ∷ []) []) (frame_b ∷ [])
      odd_keepalive [] [] manager (omega arith) refl (odd_keepalive-IsFrame, (frame_b-IsFrame, tt))
      refl (unfold decode_round find_sof in refl)
