-- ===== src/Link/SerialTransport.antt =====
-- server/transport/serial_link.py: `SerialLinkManager` as the transport that `LinkRuntime` drives.
-- What the operating system and pyserial answer are arguments: `device` to each write of the port,
-- `answers` to each attempt to open it, `kills` to each hard release.
use gaggia_esp_c3_mini_serve.Prelude.{ℕ, ◌+◌, ◌≡◌, refl, false, Option, List, []}
use gaggia_esp_c3_mini_serve.FrameCodec.{Frame}
use gaggia_esp_c3_mini_serve.Python.{Raised}
use gaggia_esp_c3_mini_serve.Python.Text.{Text, Unicode}
use gaggia_esp_c3_mini_serve.SerialLink.State
use gaggia_esp_c3_mini_serve.SerialLink.State.{Serial, Opening}
use gaggia_esp_c3_mini_serve.SerialLink.Send.{Write, send_frame}
use gaggia_esp_c3_mini_serve.Link.Interfaces.{Transport}

-- The manager, and the number of answers that were taken.
pub record Port : Type 0 where
  pub manager : Serial
  pub opens : ℕ
  pub releases : ℕ

module _ (u : Unicode) (device : ℕ → Write) (answers : ℕ → Opening) (kills : ℕ → List ℕ) where
  abbrev pub on_manager : (Serial → Serial) → Port → Port
  on_manager f p = record p { manager = f p.manager }

  abbrev pub send_on : Frame → Port → Option Raised × Port
  send_on frame p = let r = send_frame u device frame p.manager in (r.0, record p { manager = r.1 })

  abbrev pub open_on : Port → Option Text × Port
  open_on p =
      let r = State.open_port (answers p.opens) p.manager in
      (r.0, record p { manager = r.1; opens = p.opens + 1 })

  abbrev pub release_on : Port → List ℕ × Port
  release_on p =
      let r = State.force_release_port (kills p.releases) p.manager in
      (r.0, record p { manager = r.1; releases = p.releases + 1 })

  abbrev pub pop_from : Port → List Frame × Port
  pop_from p = let r = State.pop_received_frames p.manager in (r.0, record p { manager = r.1 })

  pub pop_pop : (p : Port) → (pop_from (pop_from p).1).0 ≡ []
  unfolding State.pop_received_frames
  pop_pop p = refl

  pub pop_clear : (p : Port) → (pop_from (on_manager State.clear_buffers p)).0 ≡ []
  unfolding State.pop_received_frames State.clear_buffers
  pop_clear p = refl

  pub close_closes : (p : Port) → State.port_open (on_manager State.close_port p).manager ≡ false
  unfolding State.close_port
  close_closes p = refl

  pub release_closes : (p : Port) → State.port_open (release_on p).1.manager ≡ false
  unfolding State.force_release_port
  release_closes p = refl

  abbrev pub serial_transport : Transport
  serial_transport = record {
    State = Port;
    port_open = λ p. State.port_open p.manager;
    port_name = λ p. p.manager.port_name;
    pop_received_frames = pop_from;
    send_frame = send_on;
    open_port = open_on;
    close_port = on_manager State.close_port;
    force_release_port = release_on;
    configure_port = λ name. on_manager (State.configure_port name);
    clear_buffers = on_manager State.clear_buffers;
    pop_pop = pop_pop;
    pop_clear = pop_clear;
    close_closes = close_closes;
    release_closes = release_closes;
  }
