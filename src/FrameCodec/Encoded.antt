-- ===== src/FrameCodec/Encoded.antt =====
-- ServerInterface/frame_codec.py: what `encode_frame` gives, `decode_frames` takes back.
use gaggia_esp_c3_mini_serve.Prelude.{◌≡◌, refl, sym, ◌∙◌, some, [], ◌∷◌, arith}
use mathlib.Core.List.{append-nil}
use gaggia_esp_c3_mini_serve.Prelude.Bytes.{Bytes}
use gaggia_esp_c3_mini_serve.FrameCodec.{
  Frame, encode_frame, find_sof, decode_round, returned, decode_frames,
}
use gaggia_esp_c3_mini_serve.FrameCodec.RoundTrip.{IsFrame, packet, encode_frame-packet}
use gaggia_esp_c3_mini_serve.FrameCodec.Stream.{decode_frames-stream}

-- `encode_frame` gives bytes only if every field fits.
pub encode_frame-IsFrame : (f : Frame) (bytes : Bytes) → encode_frame f ≡ some bytes → IsFrame f
unfolding encode_frame
encode_frame-IsFrame f bytes e = ground arith

-- Whatever `encode_frame` gives is decoded to the same frame, with nothing left in the buffer.
pub decode_frames-encode_frame :
    (f : Frame) (bytes : Bytes)
    → encode_frame f ≡ some bytes
    → decode_frames bytes ≡ returned (f ∷ []) []
decode_frames-encode_frame f bytes e =
    let h = encode_frame-IsFrame f bytes e in
    let b : packet f ≡ bytes = some-inj (sym (encode_frame-packet f h) ∙ e) in
    rw (sym b) (
      rw append-nil at
        (decode_frames-stream (f ∷ []) [] [] (h, tt) (unfold decode_round find_sof in refl)))
  where
    some-inj : {a b : Bytes} → some a ≡ some b → a ≡ b
    some-inj p = cc
