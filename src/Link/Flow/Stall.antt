-- ===== src/Link/Flow/Stall.antt =====
-- server/sim/link_state_machine.py: the acknowledgement of a reset ends the automatic flow.
use gaggia_esp_c3_mini_serve.Prelude.{◌≡◌, refl, ap, none, some, List, [], ◌∷◌, arith}
use gaggia_esp_c3_mini_serve.Python.Text.{text, starts_with, eq_text, Unicode}
use gaggia_esp_c3_mini_serve.Link.State.{Link, LinkState, in_keepalive}
use gaggia_esp_c3_mini_serve.Link.Interfaces.{Transport, DataManager}
use gaggia_esp_c3_mini_serve.Link.World.{
  World, Ends, done, ◌▸◌, on_link, advance_from, advance_automatic_flow,
}
use gaggia_esp_c3_mini_serve.Link.Frames.{handle_acknowledgement}
use gaggia_esp_c3_mini_serve.Link.Snapshot.{get_snapshot}
use gaggia_esp_c3_mini_serve.Link.Calls.{Clock}
use gaggia_esp_c3_mini_serve.Link.Flow.{
  Working, Reaches, some-ne-none, get_snapshot-step, then_snapshot,
}

-- The polls of the UI, one after another.
abbrev pub polls :
    {t : Transport} {d : DataManager} → Unicode → List Clock → World t d → Ends (World t d)
polls u [] w = done w
polls u (c ∷ cs) w = get_snapshot u c.now c.mono w ▸ polls u cs

acknowledged :
    (l : Link)
    → ((handle_acknowledgement (text "reset_ack") l).current_state ≡ LinkState.reset)
      × ((handle_acknowledgement (text "reset_ack") l).pending_auto_stage ≡ none)
unfolding handle_acknowledgement text eq_text starts_with
acknowledged l = (refl, refl)

module _ {t : Transport} {d : DataManager} {P : t.State → Type 0} (h : Working t P)
    (u : Unicode) where
  -- What stays of a link in RESET with nothing pending.
  pub record Stalled (r : Ends (World t d)) : Type 0 where
    pub no_exception : r.0 ≡ none
    pub in_state : r.1.link.current_state ≡ LinkState.reset
    pub pending : r.1.link.pending_auto_stage ≡ none
    pub works : P r.1.serial

  poll-Stalled :
      (c : Clock) (w : World t d) → Stalled (done w) → Stalled (get_snapshot u c.now c.mono w)
  poll-Stalled c w s =
      let w1 : World t d = record w { serial = (t.pop_received_frames w.serial).1 } in
      rw (get_snapshot-step h u c.now c.mono w s.works (ap in_keepalive s.in_state)) (
        rw (no_step w1 s.in_state s.pending) (
          kept (
            then_snapshot h c.mono LinkState.reset none w1.link (done w1) refl
              (here w1 s.in_state s.pending (h.after_pop w.serial s.works)))))
    where
      no_step :
          (w : World t d)
          → w.link.current_state ≡ LinkState.reset
          → w.link.pending_auto_stage ≡ none
          → advance_automatic_flow w ≡ done w
      no_step w e f = unfold advance_automatic_flow in rw (e, f, advance_from)

      here :
          (w : World t d)
          → w.link.current_state ≡ LinkState.reset
          → w.link.pending_auto_stage ≡ none
          → P w.serial
          → Reaches P LinkState.reset none w.link (done w)
      here w e f p = ground arith

      kept : {l : Link} {r : Ends (World t d)} → Reaches P LinkState.reset none l r → Stalled r
      kept k = record {
        no_exception = k.no_exception;
        in_state = k.in_state;
        pending = k.pending;
        works = k.works;
      }

  polls-Stalled : (cs : List Clock) (w : World t d) → Stalled (done w) → Stalled (polls u cs w)
  polls-Stalled [] w s = s
  polls-Stalled (c ∷ cs) w s =
      continues (get_snapshot u c.now c.mono w) (poll-Stalled c w s) (polls-Stalled cs)
    where
      continues :
          (r : Ends (World t d))
          → Stalled r
          → ((w : World t d) → Stalled (done w) → Stalled (polls u cs w))
          → Stalled (r ▸ polls u cs)
      continues (none, w) r k = k w r
      continues (some e, w) r k = absurd (some-ne-none r.no_exception)

  -- When `reset_ack` is the last that a working transport receives, the automatic flow stops: no
  -- number of polls of the UI brings the link out of RESET, whatever stage was pending before.
  pub reset_ack-Stalled :
      (cs : List Clock) (w : World t d)
      → P w.serial
      → Stalled (polls u cs (on_link (handle_acknowledgement (text "reset_ack")) w))
  reset_ack-Stalled cs w p =
      polls-Stalled cs (on_link (handle_acknowledgement (text "reset_ack")) w) (record {
        no_exception = refl;
        in_state = (acknowledged w.link).0;
        pending = (acknowledged w.link).1;
        works = p;
      })
