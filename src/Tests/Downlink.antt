-- ===== src/Tests/Downlink.antt =====
-- server/sim/data_payload.py at a manager with two presets.
use gaggia_esp_c3_mini_serve.Prelude.{
  ℕ, ◌≤◌, ◌+◌, ◌%◌, ◌^◌, ◌<◌, ◌⊎◌, Bool, true, false, List, [], ◌∷◌, map, length, get_or, drop,
  take, replicate, ◌≡◌, refl, none, some, arith,
}
use gaggia_esp_c3_mini_serve.Prelude.Bytes.{Bytes, from_bytes}
use gaggia_esp_c3_mini_serve.Python.Text.{Text, text, eq_text}
use gaggia_esp_c3_mini_serve.Python.Integer.{pos, negsuc}
use gaggia_esp_c3_mini_serve.Python.Object.{ok, Dict, dict, string, integer, floating}
use gaggia_esp_c3_mini_serve.Uplink.{empty_uplink, words, signed_words}
use gaggia_esp_c3_mini_serve.Downlink.Packet.{pack_floats, pack_ints, padded, encode_downlink}
use gaggia_esp_c3_mini_serve.Downlink.State.{Manager, Home}
use gaggia_esp_c3_mini_serve.Downlink.Profiles.{profile_id, resolve_profile, start_brew}
use gaggia_esp_c3_mini_serve.Downlink.Turn.{
  Turn, take_turn, brew_turn, after_send, at_least, elapsed_since,
}
use gaggia_esp_c3_mini_serve.Downlink.Channels.{Library, Tables, sample_count, history_index}
use gaggia_esp_c3_mini_serve.Downlink.Generate.{build_packet, generate_and_send}
use gaggia_esp_c3_mini_serve.Downlink.Modes.{
  Action, simulation, sine, generated, perform_all, IsManaged,
}
use gaggia_esp_c3_mini_serve.Downlink.Encoded.{signed, encode_downlink-reads_back}
use gaggia_esp_c3_mini_serve.Downlink.Samples.{Curves, build_profile_samples}
use gaggia_esp_c3_mini_serve.Downlink.Tables.{HaveLength, build_profile_samples-HaveLength}
use gaggia_esp_c3_mini_serve.Downlink.Histories.{perform_all-IsManaged}
use gaggia_esp_c3_mini_serve.Downlink.Steps.{after_send-ends_new_brew, generate_and_send-Counts}
use gaggia_esp_c3_mini_serve.Downlink.Completion.{generate_and_send-completes}
use gaggia_esp_c3_mini_serve.Downlink.Choice.{resolve_profile-id, history_index-lt}
use gaggia_esp_c3_mini_serve.Tests.Numbers.{
  Milli, milli, nan, infinity, thousandths, thousandths-IsFourBytes,
}

abbrev preset : ℕ → Text → Dict Milli
preset id name = dict (
    (text "id", integer (pos id))
    ∷ (text "name", string name)
    ∷ (text "brew_time_sec", floating (milli 2000))
    ∷ [])

-- Two profiles, a brew of two seconds that began at 10 s, and a callback.
abbrev pub brewing : Manager Milli
brewing = record {
  uplink = empty_uplink;
  profile_presets = preset 1 (text "Classic") ∷ preset 3 (text "Lungo") ∷ [];
  lcd_settings = dict [];
  dl_seq = 4294967295;
  dl_tx_count = 7;
  simulation_enabled = false;
  sine_amplitude = milli 1000;
  sine_frequency_hz = milli 1000;
  packet_interval_ms = 100;
  sine_phase_rad = milli 0;
  selected_profile_id = pos 3;
  selected_profile_name = text "Lungo";
  brew = record {
    target_pressure_bar = milli 9000;
    target_flow_ml_sec = milli 2200;
    target_temperature_c = milli 93000;
    time_sec = milli 2000;
    active = true;
    started_monotonic = milli 10000;
    elapsed_sec = milli 0;
  };
  home_started_monotonic = milli 0;
  overrides = record {
    temperature_c = none;
    water_level_pct = none;
    weight_g = none;
    shot_target_g = none;
    warmup = none;
    steam = none;
    uptime_minutes = none;
  };
  home = record {
    temperature_c = milli 93000;
    pressure_bar = milli 200;
    water_level_pct = milli 92000;
    weight_g = milli 0;
    shot_target_g = milli 36000;
    warmup_on = true;
    steam_on = false;
    uptime_minutes = milli 0;
  };
  last_control_event = text "StartBrew";
  callback_set = true;
  running = true;
}

abbrev library : Library Milli
library = record {
  dt = milli 20;
  tables = λ id. some (record {
    pressure_bar = milli 0 ∷ milli 9000 ∷ [];
    flow_ml_s = milli 0 ∷ milli 2200 ∷ [];
    temperature_c = milli 85000 ∷ milli 93000 ∷ [];
    weight_g = milli 0 ∷ milli 36000 ∷ [];
  });
}

-- The callback takes each packet.
abbrev takes : Bytes → Bool
takes payload = true

brewing-IsManaged : IsManaged brewing
brewing-IsManaged = ground arith

-- In the second half of the brew, and behind its end
abbrev halfway : Milli
halfway = milli 11000

abbrev over : Milli
over = milli 12500

abbrev period : Milli
period = milli 100

wraps_test :
    (generate_and_send thousandths library takes halfway halfway period brewing).state.dl_seq ≡ 0
unfolding generate_and_send
wraps_test = refl

generate_and_send-Counts_example :
    let s = generate_and_send thousandths library takes halfway halfway period brewing in
    ((true ≡ true)
      × (s.state.dl_seq ≡ (4294967295 + 1) % 2 ^ 32)
      × (((payload : Bytes) × (s.payload ≡ some payload)
            × (takes payload ≡ true)
            × (s.state.dl_tx_count ≡ 7 + 1))
          ⊎ (s.state.dl_tx_count ≡ 7)))
    ⊎ ((true ≡ false) × (s.payload ≡ none) × (s.state ≡ brewing))
generate_and_send-Counts_example =
    generate_and_send-Counts thousandths library takes halfway halfway period brewing

-- A failing callback, the simulation, a new interval and another brew
abbrev calls : List (Action Milli)
calls =
    generated (λ payload. false) halfway halfway period
    ∷ simulation true
    ∷ sine (some infinity) (some nan) (some 3)
    ∷ generated takes halfway halfway period
    ∷ []

behind_calls : (m : Manager Milli) × (perform_all thousandths library calls brewing ≡ ok m)
unfolding perform_all
behind_calls = (_, refl)

perform_all-IsManaged_example : IsManaged behind_calls.0
perform_all-IsManaged_example =
    perform_all-IsManaged thousandths library calls brewing behind_calls.0 brewing-IsManaged
      behind_calls.1

last_turn : Turn Milli × Manager Milli
last_turn = brew_turn thousandths over brewing

turn_taken : take_turn thousandths over period brewing ≡ (some last_turn.0, last_turn.1)
unfolding take_turn last_turn
turn_taken = refl

turn_completes : last_turn.0.brew_complete_after_send ≡ true
unfolding last_turn brew_turn at_least elapsed_since
turn_completes = refl

restarted :
    (m : Manager Milli) × (start_brew thousandths over (some (pos 1)) (some 20) last_turn.1 ≡ ok m)
unfolding last_turn brew_turn start_brew text eq_text
restarted = (_, refl)

after_send-ends_new_brew_example :
    (restarted.0.brew.active ≡ true)
    × ((after_send thousandths last_turn.0 brewing.home restarted.0).brew.active ≡ false)
    × ((after_send thousandths last_turn.0 brewing.home restarted.0).last_control_event
        ≡ text "BrewComplete")
after_send-ends_new_brew_example =
    after_send-ends_new_brew thousandths last_turn.0 brewing.home over over period (some (pos 1))
      (some 20) brewing last_turn.1 restarted.0 turn_taken turn_completes restarted.1

last_packet :
    (p : Bytes) × (h : Home Milli) × (build_packet thousandths library over period
        (brew_turn thousandths over brewing).0
      ≡ ok (p, h))
unfolding build_packet brew_turn text
last_packet = (_, _, refl)

is_over : at_least thousandths (elapsed_since thousandths over brewing.brew) (milli 2000) ≡ true
unfolding at_least elapsed_since
is_over = refl

generate_and_send-completes_example :
    let s = generate_and_send thousandths library takes over over period brewing in
    (s.payload ≡ some last_packet.0)
    × (s.state.brew.active ≡ false)
    × (s.state.brew.elapsed_sec ≡ milli 2000)
    × (s.state.last_control_event ≡ text "BrewComplete")
    × ((generate_and_send thousandths library takes over over period s.state).payload ≡ none)
generate_and_send-completes_example =
    generate_and_send-completes thousandths library takes over over period over over brewing
      last_packet.0 last_packet.1 refl refl refl is_over last_packet.2 refl

-- A brew that asks for a profile that is not there gets the first.
ids_read :
    (profile_id thousandths (preset 1 (text "Classic")) ≡ ok (pos 1))
    × ((profile_id thousandths (preset 3 (text "Lungo")) ≡ ok (pos 3)) × Unit {0})
unfolding profile_id text dict eq_text
ids_read = (refl, (refl, tt))

resolve_profile-id_example :
    (p : Dict Milli) × (resolve_profile thousandths (some (pos 9)) brewing ≡ ok p)
    × (((false ≡ true) × (profile_id thousandths p ≡ ok (pos 9)))
        ⊎ ((false ≡ false) × (p ≡ preset 1 (text "Classic"))))
resolve_profile-id_example =
    resolve_profile-id thousandths (some (pos 9)) brewing (preset 1 (text "Classic"))
      (preset 3 (text "Lungo") ∷ []) (pos 1 ∷ pos 3 ∷ []) refl ids_read

abbrev uneven : Tables Milli
uneven = record {
  pressure_bar = replicate 4 (milli 1);
  flow_ml_s = replicate 3 (milli 1);
  temperature_c = replicate 4 (milli 1);
  weight_g = replicate 5 (milli 1);
}

has_samples : 0 < sample_count uneven
unfolding sample_count
has_samples = omega arith

history_index-lt_example :
    (history_index 9 (sample_count uneven) 4 < 4)
    × (history_index 9 (sample_count uneven) 4 < 3)
    × (history_index 9 (sample_count uneven) 4 < 4)
    × (history_index 9 (sample_count uneven) 4 < 5)
history_index-lt_example = history_index-lt uneven 9 4 has_samples

-- A sequence number of 32 bits and one above, and integers of both signs
some_floats : (fs : Bytes) × (pack_floats thousandths (padded 100 (milli 0) (milli 5 ∷ [])) ≡ ok fs)
unfolding pack_floats padded
some_floats = (_, refl)

some_ints : (is : Bytes) × (pack_ints (padded 20 (pos 0) (pos 7 ∷ negsuc 2147483647 ∷ [])) ≡ ok is)
unfolding pack_ints padded
some_ints = (_, refl)

encode_downlink-reads_back_example :
    (payload : Bytes) × (encode_downlink thousandths 4294967298
        (milli 5 ∷ [])
        (pos 7 ∷ negsuc 2147483647 ∷ [])
        (text "sim=on")
      ≡ ok payload)
    × (length payload ≡ 535)
    × (get_or payload 0 0 ≡ 0xD0)
    × (from_bytes (take 4 (drop 1 payload)) ≡ 4294967298 % 2 ^ 32)
    × (signed_words (words 20 (drop 405 payload))
        ≡ map signed (padded 20 (pos 0) (pos 7 ∷ negsuc 2147483647 ∷ [])))
encode_downlink-reads_back_example =
    encode_downlink-reads_back thousandths 4294967298 (milli 5 ∷ [])
      (pos 7 ∷ negsuc 2147483647 ∷ []) (text "sim=on") some_floats.0 some_ints.0
      thousandths-IsFourBytes some_floats.1 some_ints.1

abbrev curves : Curves Milli
curves =
    let ramp = (milli 0, milli 0) ∷ (milli 250, milli 850) ∷ (milli 1000, milli 1000) ∷ [] in
    record { pressure = ramp; flow = ramp; temperature = ramp }

-- A brew of 0.1 s
abbrev short_brew : Dict Milli
short_brew = dict ((text "brew_time_sec", floating (milli 100)) ∷ [])

short_tables : (t : Tables Milli) × (build_profile_samples thousandths short_brew curves ≡ ok t)
unfolding build_profile_samples dict text eq_text
short_tables = (_, refl)

build_profile_samples-HaveLength_example :
    (n : ℕ) × (2 ≤ n)
    × HaveLength n short_tables.0
    × (history_index 1000 (sample_count short_tables.0) 4 < n)
build_profile_samples-HaveLength_example =
    build_profile_samples-HaveLength thousandths short_brew curves short_tables.0 1000 4
      short_tables.1
