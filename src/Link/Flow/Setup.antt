-- ===== src/Link/Flow/Setup.antt =====
-- server/sim/link_state_machine.py: the automatic flow runs from RESET to CONNECT.
use gaggia_esp_c3_mini_serve.Prelude.{
  ◌<◌, length, ◌≡◌, refl, ap, ◌∙◌, true, Option, none, some, arith,
}
use gaggia_esp_c3_mini_serve.Python.Text.{Unicode}
use gaggia_esp_c3_mini_serve.Python.Utf8.{encode}
use gaggia_esp_c3_mini_serve.Link.State.{
  Link, LinkState, in_keepalive, build_initialize_payload, validate_config,
}
use gaggia_esp_c3_mini_serve.Link.Interfaces.{Transport, DataManager}
use gaggia_esp_c3_mini_serve.Link.World.{
  World, Ends, done, ◌▸◌, on_link, enter_initialize, begin_connect, begin_initialize, advance_from,
  advance_automatic_flow,
}
use gaggia_esp_c3_mini_serve.Link.Snapshot.{snapshot, get_snapshot}
use gaggia_esp_c3_mini_serve.Link.Calls.{Clock}
use gaggia_esp_c3_mini_serve.Link.Commands.{reset_link, reset}
use gaggia_esp_c3_mini_serve.Link.Flow.{
  Working, Fits, Reaches, some-ne-none, get_snapshot-step, then_snapshot, reset-Reaches,
  begin_initialize-Reaches,
}

-- Whether the configuration is valid is read from two fields alone.
validate_config-same :
    (l l' : Link)
    → l'.config ≡ l.config
    → l'.wifi_enabled ≡ l.wifi_enabled
    → validate_config l' ≡ validate_config l
unfolding validate_config
validate_config-same l l' c w = simp (c, w) refl

-- What the flow comes to: the CONNECT state with nothing pending and the setup stage complete.
pub record Connected {t : Transport} {d : DataManager} (P : t.State → Type 0) (r : Ends (World t d))
    : Type 0 where
  pub no_exception : r.0 ≡ none
  pub in_state : r.1.link.current_state ≡ LinkState.connect
  pub pending : r.1.link.pending_auto_stage ≡ none
  pub complete : r.1.link.initialize_completed ≡ true
  pub works : P r.1.serial

module _ {t : Transport} {d : DataManager} {P : t.State → Type 0} (h : Working t P)
    (u : Unicode) where
  advance-initialize :
      (w : World t d)
      → w.link.current_state ≡ LinkState.reset
      → w.link.pending_auto_stage ≡ some LinkState.initialize
      → advance_automatic_flow w ≡ begin_initialize w
  unfolding advance_automatic_flow
  advance-initialize w e f = rw (e, f, advance_from)

  advance-connect :
      (w : World t d)
      → w.link.current_state ≡ LinkState.initialize
      → w.link.pending_auto_stage ≡ some LinkState.connect
      → advance_automatic_flow w ≡ done (on_link begin_connect w)
  unfolding advance_automatic_flow
  advance-connect w e f = rw (e, f, advance_from)

  first_poll :
      (c : Clock) (w : World t d)
      → Fits w.link (build_initialize_payload w.link.config)
      → P w.serial
      → w.link.current_state ≡ LinkState.reset
      → w.link.pending_auto_stage ≡ some LinkState.initialize
      → validate_config w.link ≡ none
      → Reaches P LinkState.initialize
          (some LinkState.connect)
          (enter_initialize w.link)
          (get_snapshot u c.now c.mono w)
  first_poll c w k p e f v =
      let w1 : World t d = record w { serial = (t.pop_received_frames w.serial).1 } in
      rw (get_snapshot-step h u c.now c.mono w p (ap in_keepalive e)) (
        rw (advance-initialize w1 e f) (
          then_snapshot h c.mono LinkState.initialize (some LinkState.connect)
            (enter_initialize w.link) (begin_initialize w1) refl
            (begin_initialize-Reaches h w1 k (h.after_pop w.serial p) v)))

  second_poll :
      (c : Clock) (w : World t d)
      → P w.serial
      → w.link.current_state ≡ LinkState.initialize
      → w.link.pending_auto_stage ≡ some LinkState.connect
      → w.link.wifi_ready ≡ true
      → Connected P (get_snapshot u c.now c.mono w)
  second_poll c w p e f v =
      let w1 : World t d = record w { serial = (t.pop_received_frames w.serial).1 } in
      rw (get_snapshot-step h u c.now c.mono w p (ap in_keepalive e)) (
        rw (advance-connect w1 e f) (
          connected c (done (on_link begin_connect w1)) w.link v
            (begun w1 (h.after_pop w.serial p) v)))
    where
      begun :
          (w : World t d)
          → P w.serial
          → w.link.wifi_ready ≡ true
          → Reaches P LinkState.connect none (begin_connect w.link) (done (on_link begin_connect w))
      begun w p v = unfold begin_connect in simp v (ground arith)

      connected :
          (c : Clock) (r : Ends (World t d)) (l : Link)
          → l.wifi_ready ≡ true
          → Reaches P LinkState.connect none (begin_connect l) r
          → Connected P (r ▸ snapshot c.mono)
      connected c r l v k =
          let k' = then_snapshot h c.mono LinkState.connect none (begin_connect l) r refl k in
          record {
            no_exception = k'.no_exception;
            in_state = k'.in_state;
            pending = k'.pending;
            complete = k'.same_setup ∙ (unfold begin_connect in simp v refl);
            works = k'.works;
          }

  continues :
      (state : LinkState) (stage : Option LinkState) (l : Link) (r : Ends (World t d))
      (next : World t d → Ends (World t d))
      → Reaches P state stage l r
      → ((w : World t d) → Reaches P state stage l (done w) → Connected P (next w))
      → Connected P (r ▸ next)
  continues state stage l (none, w) next r k = k w r
  continues state stage l (some e, w) next r k = absurd (some-ne-none r.no_exception)

  -- On a transport that works and receives nothing, with a valid configuration whose text fits a
  -- packet, `reset` and two polls of the UI behind it bring the link from any state to CONNECT, with the initialize stage
  -- complete and nothing pending, and none of the three calls raises.
  pub setup-Connected :
      (c1 c2 : Clock) (w : World t d)
      → P w.serial
      → validate_config w.link ≡ none
      → length (encode (build_initialize_payload w.link.config)) < 65536
      → Connected P (reset w ▸ λ w. get_snapshot u c1.now c1.mono w ▸ get_snapshot u c2.now c2.mono)
  setup-Connected c1 c2 w p v n =
      continues LinkState.reset (some LinkState.initialize) (reset_link w.link) (reset w)
        (λ w. get_snapshot u c1.now c1.mono w ▸ get_snapshot u c2.now c2.mono) (reset-Reaches h w p)
        (λ w' r.
          continues LinkState.initialize (some LinkState.connect) (enter_initialize w'.link)
            (get_snapshot u c1.now c1.mono w') (get_snapshot u c2.now c2.mono)
            (first_poll c1 w' (still_fits w' r) r.works r.in_state r.pending (still_valid w' r))
            (λ w'' r'.
              second_poll c2 w'' r'.works r'.in_state r'.pending
                (r'.same_wifi.1 ∙ (unfold enter_initialize in refl))))
    where
      still_fits :
          (w' : World t d)
          → Reaches P LinkState.reset (some LinkState.initialize) (reset_link w.link) (done w')
          → Fits w'.link (build_initialize_payload w'.link.config)
      still_fits w' r =
          unfold reset_link in
          (record {
            server_fits = rw r.same_integers.0 (omega arith);
            client_fits = rw r.same_integers.1 (omega arith);
            payload_fits = rw r.same_config n;
          })

      still_valid :
          (w' : World t d)
          → Reaches P LinkState.reset (some LinkState.initialize) (reset_link w.link) (done w')
          → validate_config w'.link ≡ none
      still_valid w' r =
          unfold reset_link in (validate_config-same w.link w'.link r.same_config r.same_wifi.0 ∙ v)
