-- ===== src/Downlink/Generate.antt =====
-- server/sim/data_payload.py: `_generate_and_send`, which the sender thread calls in a loop.
use gaggia_esp_c3_mini_serve.Prelude.{
  ℕ, ◌%◌, ◌^◌, Bool, true, false, List, ◌∷◌, ◌++◌, take, drop, Option, none, some, if◌then◌else◌,
}
use gaggia_esp_c3_mini_serve.Prelude.Bytes.{Bytes}
use gaggia_esp_c3_mini_serve.Python.Text.{Text, text, show}
use gaggia_esp_c3_mini_serve.Python.Integer.{ℤ, pos, negsuc, show_int}
use gaggia_esp_c3_mini_serve.Python.Object.{Result, ok, err, ◌>>=◌, Numbers}
use gaggia_esp_c3_mini_serve.LcdData.Summary.{scaled, brew_home_state_to_legacy_int_slots}
use gaggia_esp_c3_mini_serve.Downlink.Packet.{encode_downlink}
use gaggia_esp_c3_mini_serve.Downlink.State.{Manager, Home}
use gaggia_esp_c3_mini_serve.Downlink.Turn.{Turn, take_turn, after_send}
use gaggia_esp_c3_mini_serve.Downlink.Channels.{
  Library, brew_channels, brew_floats, sine_floats, mark_home,
}
use gaggia_esp_c3_mini_serve.Downlink.Home.{brew_home, sine_home}

module _ (py : Numbers) where
  -- `ints[0] = seq & 0x7FFFFFFF`, and outside a brew -1 for the weight and no bit for it.
  unfoldable pub mark_ints : Turn py.Float → List ℤ → List ℤ
  mark_ints t ints =
      let ints = pos (t.seq % 2 ^ 31) ∷ drop 1 ints in
      if t.brew_mode
      then ints
      else take 8 ints ++ negsuc 0 ∷ take 5 (drop 9 ints) ++ pos 23 ∷ drop 15 ints

  packet_ints : Turn py.Float → Home py.Float → Result (List ℤ)
  unfolding brew_home_state_to_legacy_int_slots scaled mark_ints
  packet_ints t h = do
    elapsed_ms ← scaled py t.elapsed_sec 1000
    duration_ms ← scaled py t.time_sec 1000
    ints ← brew_home_state_to_legacy_int_slots py (record {
      profile_id = t.profile_id;
      brew_elapsed_ms = elapsed_ms;
      brew_duration_ms = duration_ms;
      target_temperature_c = t.target_temperature_c;
      target_pressure_bar = t.target_pressure_bar;
      target_flow_ml_s = t.target_flow_ml_sec;
      live_pressure_bar = h.pressure_bar;
      live_temperature_c = h.temperature_c;
      live_water_level_pct = h.water_level_pct;
      live_weight_g = h.weight_g;
      shot_target_preview_g = h.shot_target_g;
      warmup_on = h.warmup_on;
      steam_on = h.steam_on;
      uptime_minutes = py.decimal 0 0;
    })
    ok (mark_ints t ints)

  brew_text : Turn py.Float → ℕ → Text
  brew_text t cursor =
      text "brew=on;profile="
      ++ show_int t.profile_id
      ++ text ";name="
      ++ t.profile_name
      ++ text ";elapsed_s="
      ++ py.show_fixed 2 t.elapsed_sec
      ++ text ";brew_time_s="
      ++ py.show_fixed 1 t.time_sec
      ++ text ";int_ms="
      ++ show t.packet_interval_ms
      ++ text ";seq="
      ++ show t.seq
      ++ text ";sample_cursor="
      ++ show cursor

  sine_text : Turn py.Float → Text
  sine_text t =
      text "sim=on;amp="
      ++ py.show_fixed 3 t.amplitude
      ++ text ";freq="
      ++ py.show_fixed 3 t.frequency_hz
      ++ text ";int_ms="
      ++ show t.packet_interval_ms
      ++ text ";seq="
      ++ show t.seq

  -- The packet of a turn, and the values of the Home page that it carries.
  unfoldable pub build_packet :
      Library py.Float → py.Float → py.Float → Turn py.Float → Result (Bytes × Home py.Float)
  unfolding brew_channels brew_home sine_home packet_ints encode_downlink brew_text sine_text
      brew_floats sine_floats mark_home
  build_packet library later packet_interval_s t =
      if t.brew_mode
      then (do
        c ← brew_channels py library t packet_interval_s
        let h = brew_home py later t c (library.tables t.profile_id)
        ints ← packet_ints t h
        payload ← encode_downlink py t.seq (brew_floats py c) ints (brew_text t c.cursor)
        ok (payload, h))
      else (do
        let h = sine_home py later t
        ints ← packet_ints t h
        let floats = mark_home py h.temperature_c (sine_floats py t)
        payload ← encode_downlink py t.seq floats ints (sine_text t)
        ok (payload, h))

-- What a call leaves: the packet that the callback was given, and the state. An exception while the
-- packet is built ends the thread, with the state as the first locked part left it.
pub record Sent (F : Type 0) : Type 0 where
  pub payload : Option Bytes
  pub failed : Bool
  pub state : Manager F

module _ (py : Numbers) where
  -- `cb payload` is whether the callback returns; the exception that it raises else is dropped.
  unfoldable pub hand_over :
      (Bytes → Bool)
      → Turn py.Float
      → Manager py.Float
      → Result (Bytes × Home py.Float)
      → Sent py.Float
  unfolding after_send
  hand_over cb t m (err e) = record { payload = none; failed = true; state = m }
  hand_over cb t m (ok (payload, h)) = record {
    payload = some payload;
    failed = false;
    state = if cb payload then after_send py t h m else m;
  }

  unfoldable pub use_turn :
      Library py.Float
      → (Bytes → Bool)
      → py.Float
      → py.Float
      → Option (Turn py.Float)
      → Manager py.Float
      → Sent py.Float
  unfolding hand_over build_packet
  use_turn library cb later packet_interval_s none m = record {
    payload = none;
    failed = false;
    state = m;
  }
  use_turn library cb later packet_interval_s (some t) m =
      hand_over cb t m (build_packet py library later packet_interval_s t)

  unfoldable pub generate_and_send :
      Library py.Float
      → (Bytes → Bool)
      → py.Float
      → py.Float
      → py.Float
      → Manager py.Float
      → Sent py.Float
  unfolding take_turn use_turn
  generate_and_send library cb now later packet_interval_s m =
      let (t, m) = take_turn py now packet_interval_s m in
      use_turn library cb later packet_interval_s t m
