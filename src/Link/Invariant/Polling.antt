-- ===== src/Link/Invariant/Polling.antt =====
-- server/sim/link_state_machine.py: polling, client commands and snapshots keep the invariant.
use gaggia_esp_c3_mini_serve.Prelude.{
  ℕ, ◌+◌, Bool, true, false, Option, none, some, List, [], ◌∷◌, Bool-cases, inl, inr, not, ◌&&◌,
  if◌then◌else◌, arith,
}
use gaggia_esp_c3_mini_serve.FrameCodec.{Frame, MessageType}
use gaggia_esp_c3_mini_serve.Python.{value_error}
use gaggia_esp_c3_mini_serve.Python.Text.{Text, text, strip, lower, is_empty, or_else, Unicode}
use gaggia_esp_c3_mini_serve.Python.Utf8.{decode_replace}
use gaggia_esp_c3_mini_serve.LcdProtocol.{handle_client_text_command}
use gaggia_esp_c3_mini_serve.Python.Payload.{Parsed, value, missing, invalid, parse_u32}
use gaggia_esp_c3_mini_serve.Link.State.{Link, in_keepalive}
use gaggia_esp_c3_mini_serve.Link.Interfaces.{Transport, DataManager}
use gaggia_esp_c3_mini_serve.Link.World.{
  World, Ends, done, ◌▸◌, on_link, send_command, advance_automatic_flow,
}
use gaggia_esp_c3_mini_serve.SerialLink.Metadata.{payload_text}
use gaggia_esp_c3_mini_serve.Link.Telemetry.{
  Ingested, ingested, threw, describe_raises, classify_keepalive, ingest_telemetry,
}
use gaggia_esp_c3_mini_serve.Python.Object.{Result, ok, err}
use gaggia_esp_c3_mini_serve.Link.Client.{
  on_payload, ask_payload, or_parsed, with_parsed, send_logged, send_all, simulation_on,
  select_profile_command, start_brew_command, data_simulation_event, lcd_or_event,
  handle_client_data_command,
}
use gaggia_esp_c3_mini_serve.Link.Frames.{
  track_sequence, handle_data, is_uplink, dispatch, after_ingest, handle_frame, handle_frames,
  poll_received_frames,
}
use gaggia_esp_c3_mini_serve.Link.Snapshot.{
  enforce_timeout, schedule_shot_done, shot_done_now, expects_port, drop_shot_done,
  check_port_alive, send_shot_done, snapshot, get_snapshot,
}
use gaggia_esp_c3_mini_serve.Link.Invariant.{
  LinkInv, set_runtime_fault-LinkInv, enforce_timeout-LinkInv, schedule_shot_done-LinkInv,
}
use gaggia_esp_c3_mini_serve.Link.Invariant.Receiving.{
  track_sequence-LinkInv, handle_error_frame-LinkInv, handle_acknowledgement-LinkInv,
  keepalive_by-LinkInv, IngestedInv, ingest_telemetry-LinkInv,
}
use gaggia_esp_c3_mini_serve.Link.Invariant.Sending.{
  WorldInv, EndsInv, ends, ▸-inv, catch_runtime-inv, send_command-inv, advance_automatic_flow-inv,
}

rx_counted :
    (l : Link)
    → LinkInv l
    → LinkInv (record l { data_frames_rx_count = l.data_frames_rx_count + 1 })
rx_counted l h = ground arith

text_kept : (s : Text) (l : Link) → LinkInv l → LinkInv (record l { last_received_client_text = s })
text_kept s l h = ground arith

drop_shot_done-LinkInv : (l : Link) → LinkInv l → LinkInv (drop_shot_done l)
unfolding drop_shot_done
drop_shot_done-LinkInv l h = ground arith

brew_noted : (b : Bool) (l : Link) → LinkInv l → LinkInv (record l { last_brew_active = b })
brew_noted b l h = ground arith

module _ {t : Transport} {d : DataManager} where
  -- Either branch of a test.
  pub if-inv :
      (b : Bool) (r s : Ends (World t d)) → EndsInv r → EndsInv s → EndsInv (if b then r else s)
  if-inv true r s h k = h
  if-inv false r s h k = k

  with_parsed-inv :
      (p : Parsed ℕ) (f : Option ℕ → World t d → Ends (World t d)) (w : World t d)
      → ((o : Option ℕ) (w : World t d) → WorldInv w → EndsInv (f o w))
      → WorldInv w
      → EndsInv (with_parsed p f w)
  with_parsed-inv missing f w k h = k none w h
  with_parsed-inv (value n) f w k h = k (some n) w h
  with_parsed-inv invalid f w k h = ends h

  pub send_logged-inv :
      (payload : Text) (w : World t d) → WorldInv w → EndsInv (send_logged payload w)
  unfolding send_logged
  send_logged-inv payload w h =
      catch_runtime-inv (λ m w. done w) (send_command MessageType.payload_data payload w)
        (λ m w k. ends k) (send_command-inv MessageType.payload_data payload w h)

  send_all-inv : (ps : List (Result Text)) (w : World t d) → WorldInv w → EndsInv (send_all ps w)
  unfolding send_all
  send_all-inv [] w h = ends h
  send_all-inv (ok p ∷ ps) w h =
      ▸-inv (send_logged p w) (send_all ps) (send_logged-inv p w h) (send_all-inv ps)
  send_all-inv (err e ∷ ps) w h = ends h

  select_profile_command-inv :
      (u : Unicode) (s : Text) (w : World t d) → WorldInv w → EndsInv (select_profile_command u s w)
  unfolding select_profile_command
  select_profile_command-inv u s w h =
      let select : Option ℕ → Option ℕ → World t d → Ends (World t d) =
        λ profile offline. ask_payload (d.select_profile profile) in
      let offline : Parsed ℕ = parse_u32 u s (text "offline") in
      with_parsed-inv (or_parsed (parse_u32 u s (text "profile")) (parse_u32 u s (text "id")))
        (λ profile. with_parsed offline (select profile)) w
        (λ profile w k. with_parsed-inv offline (select profile) w (λ o w k. ends k) k) h

  start_brew_command-inv :
      (u : Unicode) (s : Text) (w : World t d) → WorldInv w → EndsInv (start_brew_command u s w)
  unfolding start_brew_command
  start_brew_command-inv u s w h =
      let start : Option ℕ → Option ℕ → World t d → Ends (World t d) = λ profile interval w.
        ask_payload (d.start_brew profile interval) w ▸ send_logged (text "StartBrew") in
      let interval : Parsed ℕ =
        or_parsed (parse_u32 u s (text "packet_interval_ms")) (parse_u32 u s (text "int_ms")) in
      with_parsed-inv (parse_u32 u s (text "profile"))
        (λ profile. with_parsed interval (start profile)) w
        (λ profile w k.
          with_parsed-inv interval (start profile) w
            (λ i w k.
              ▸-inv (ask_payload (d.start_brew profile i) w) (send_logged (text "StartBrew"))
                (ends k) (send_logged-inv (text "StartBrew")))
            k)
        h

  data_simulation_event-inv :
      (u : Unicode) (s : Text) (w : World t d) → WorldInv w → EndsInv (data_simulation_event u s w)
  unfolding data_simulation_event
  data_simulation_event-inv u s w h = ground (
    arith,
    select_profile_command-inv u s w h,
    start_brew_command-inv u s w h,
    send_logged-inv (text "StopBrew") (on_payload d.stop_brew w) h,
    ends {r = done (on_payload (simulation_on d s) w)} h,
    ends {r = done (on_payload (d.set_simulation_enabled false) w)} h,
    ends {r = done w} h,
  )

  lcd_or_event-inv :
      (u : Unicode) (o : Option (List (Result Text))) (s : Text) (w : World t d)
      → WorldInv w
      → EndsInv (lcd_or_event u o s w)
  unfolding lcd_or_event
  lcd_or_event-inv u (some ps) s w h = send_all-inv ps w h
  lcd_or_event-inv u none s w h = data_simulation_event-inv u s w h

  handle_client_data_command-inv :
      (u : Unicode) (s : Text) (w : World t d)
      → WorldInv w
      → EndsInv (handle_client_data_command u s w)
  unfolding handle_client_data_command
  handle_client_data_command-inv u s w h =
      let normalized = lower u (strip s) in
      let payloads =
        handle_client_text_command u true (d.lcd_profiles w.payload)
          (some (d.lcd_dataset w.payload)) s in
      if-inv (is_empty normalized) (done w) (lcd_or_event u payloads normalized w) (ends h)
        (lcd_or_event-inv u payloads normalized w h)

  handle_data-inv :
      (u : Unicode) (frame : Frame) (w : World t d) → WorldInv w → EndsInv (handle_data u frame w)
  unfolding handle_data
  handle_data-inv u frame w h =
      let received = strip (decode_replace frame.payload) in
      let counted =
        on_link (λ l. record l { data_frames_rx_count = l.data_frames_rx_count + 1 }) w in
      let told = or_else received (text "Empty client payload") in
      let kept = on_link (λ l. record l { last_received_client_text = told }) counted in
      if-inv (is_uplink frame.payload) (done (on_payload (d.receive_uplink frame.payload) counted))
        (handle_client_data_command u received kept) (ends (rx_counted w.link h))
        (handle_client_data_command-inv u received kept
          (text_kept told counted.link (rx_counted w.link h)))

  dispatch-inv :
      (u : Unicode) (now : ℕ) (frame : Frame) (type : MessageType) (payload : Text) (w : World t d)
      → WorldInv w
      → EndsInv (dispatch u now frame type payload w)
  unfolding dispatch
  dispatch-inv u now frame MessageType.error payload w h =
      ends (handle_error_frame-LinkInv payload w.link h)
  dispatch-inv u now frame MessageType.keepalive payload w h =
      ends (keepalive_by-LinkInv (classify_keepalive payload) now frame payload w.link h)
  dispatch-inv u now frame MessageType.payload_data payload w h = handle_data-inv u frame w h
  dispatch-inv u now frame _ payload w h = ends (handle_acknowledgement-LinkInv payload w.link h)

  after_ingest-inv :
      (u : Unicode) (now : ℕ) (frame : Frame) (payload : Text) (i : Ingested) (w : World t d)
      → IngestedInv i
      → WorldInv w
      → EndsInv (after_ingest u now frame payload i w)
  unfolding after_ingest
  after_ingest-inv u now frame payload (threw e) w k h = ends h
  after_ingest-inv u now frame payload (ingested l) w k h =
      let w' = record w { link = l } in
      let tracked = on_link (track_sequence frame.sequence) w' in
      if-inv (describe_raises u frame.message_type payload) (some value_error, w')
        (dispatch u now frame frame.message_type payload tracked) (ends k)
        (dispatch-inv u now frame frame.message_type payload tracked
          (track_sequence-LinkInv frame.sequence l k))

  handle_frame-inv :
      (u : Unicode) (now : ℕ) (frame : Frame) (w : World t d)
      → WorldInv w
      → EndsInv (handle_frame u now frame w)
  unfolding handle_frame
  handle_frame-inv u now frame w h =
      after_ingest-inv u now frame (payload_text u frame)
        (ingest_telemetry u (payload_text u frame) w.link) w
        (ingest_telemetry-LinkInv u (payload_text u frame) w.link h) h

  handle_frames-inv :
      (u : Unicode) (now : ℕ) (frames : List Frame) (w : World t d)
      → WorldInv w
      → EndsInv (handle_frames u now frames w)
  unfolding handle_frames
  handle_frames-inv u now [] w h = ends h
  handle_frames-inv u now (f ∷ fs) w h =
      ▸-inv (handle_frame u now f w) (handle_frames u now fs) (handle_frame-inv u now f w h)
        (handle_frames-inv u now fs)

  pub poll_received_frames-inv :
      (u : Unicode) (now : ℕ) (w : World t d) → WorldInv w → EndsInv (poll_received_frames u now w)
  unfolding poll_received_frames
  poll_received_frames-inv u now w h =
      let popped = t.pop_received_frames w.serial in
      handle_frames-inv u now popped.0 (record w { serial = popped.1 }) h

  check_port_alive-inv : (w : World t d) → WorldInv w → WorldInv (check_port_alive w)
  unfolding check_port_alive
  check_port_alive-inv w h =
      elim (Bool-cases (expects_port w.link.current_state && not (t.port_open w.serial))) [
        | inl e ↦ rw e (
            set_runtime_fault-LinkInv (text "Serial port disconnected unexpectedly.") w.link h.flow)
        | inr e ↦ rw e h
      ]

  send_shot_done-inv :
      (mono : ℕ) (b : Bool) (w : World t d) → WorldInv w → EndsInv (send_shot_done mono b w)
  unfolding send_shot_done
  send_shot_done-inv mono b w h =
      if-inv (shot_done_now mono b w.link) _ _
        (if-inv
          (t.port_open w.serial && (w.link.tcp_connected && in_keepalive w.link.current_state)) _ _
          (catch_runtime-inv (λ m w. done w)
            (send_command MessageType.payload_data (text "shot_done_success") w ▸ λ w.
              done (on_link drop_shot_done w))
            (λ m w k. ends k)
            (▸-inv (send_command MessageType.payload_data (text "shot_done_success") w)
              (λ w. done (on_link drop_shot_done w))
              (send_command-inv MessageType.payload_data (text "shot_done_success") w h)
              (λ w k. ends (drop_shot_done-LinkInv w.link k))))
          (ends (drop_shot_done-LinkInv w.link h)))
        (ends h)

  pub snapshot-inv : (mono : ℕ) (w : World t d) → WorldInv w → EndsInv (snapshot mono w)
  unfolding snapshot
  snapshot-inv mono w h =
      let b : Bool = d.brew_active w.payload in
      let w' = on_link (schedule_shot_done mono b) w in
      ▸-inv (send_shot_done mono b w')
        (λ w. done (on_link (λ l. record l { last_brew_active = b }) w))
        (send_shot_done-inv mono b w' (schedule_shot_done-LinkInv mono b w.link h))
        (λ w k. ends (brew_noted b w.link k))

  pub get_snapshot-inv :
      (u : Unicode) (now mono : ℕ) (w : World t d)
      → WorldInv w
      → EndsInv (get_snapshot u now mono w)
  unfolding get_snapshot
  get_snapshot-inv u now mono w h =
      let advance : World t d → Ends (World t d) =
        λ w. advance_automatic_flow (on_link (enforce_timeout now) (check_port_alive w)) in
      ▸-inv (poll_received_frames u now w) (λ w. advance w ▸ snapshot mono)
        (poll_received_frames-inv u now w h)
        (λ w k.
          ▸-inv (advance w) (snapshot mono)
            (advance_automatic_flow-inv (on_link (enforce_timeout now) (check_port_alive w))
              (enforce_timeout-LinkInv now (check_port_alive w).link (check_port_alive-inv w k)))
            (snapshot-inv mono))
