-- ===== src/Tests/Uplink.antt =====
-- server/sim/data_payload.py: the queue of uplink packets at concrete payloads.
use gaggia_esp_c3_mini_serve.Prelude.{List, [], ◌∷◌, replicate}
use gaggia_esp_c3_mini_serve.Prelude.Bytes.{Bytes}
use gaggia_esp_c3_mini_serve.Uplink.{empty_uplink}
use gaggia_esp_c3_mini_serve.Uplink.Queue.{accepted, receive_all, Follows, receive_all-Follows}

-- Eleven packets, and a payload of two bytes among them.
abbrev payloads : List Bytes
payloads = (0xD1 ∷ 1 ∷ []) ∷ replicate 11 (0xD1 ∷ 7 ∷ replicate 537 0)

receive_all-Follows_example : Follows (accepted payloads) (receive_all payloads empty_uplink)
receive_all-Follows_example = receive_all-Follows payloads
