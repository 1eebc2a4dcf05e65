-- ===== src/Link/Retries.antt =====
-- server/sim/link_state_machine.py: how often opening the port is tried.
use gaggia_esp_c3_mini_serve.Prelude.{ℕ, ◌+◌, ◌≤◌, ◌≡◌, ◌⊎◌, false, List, []}
use gaggia_esp_c3_mini_serve.Python.Text.{Text, is_empty, Unicode}
use gaggia_esp_c3_mini_serve.SerialLink.State.{Opening}
use gaggia_esp_c3_mini_serve.SerialLink.Send.{Write}
use gaggia_esp_c3_mini_serve.Link.SerialTransport.{Port, serial_transport}
use gaggia_esp_c3_mini_serve.Link.Interfaces.{Transport}
use gaggia_esp_c3_mini_serve.Link.Opening.{Opened, is_transient, serial_open_retry_limit}

-- What the loop may come to from the state `p`, when it starts at attempt `attempt`: the port is
-- open after the attempt that it tells, or no attempt opened it and there is an error text; then the
-- port was tried, and to the last attempt unless that error is not transient.
pub record Outcome (u : Unicode) (attempt : ℕ) (p : Port) (o : Opened Port) : Type 0 where
  pub bounded : o.serial.opens + attempt ≤ p.opens + serial_open_retry_limit + 1
  pub told :
      ((attempt ≤ o.attempts)
        × (o.attempts ≤ serial_open_retry_limit)
        × (o.cause ≡ [])
        × (o.serial.opens + attempt ≡ p.opens + o.attempts + 1))
      ⊎ ((o.attempts ≡ 0)
          × (is_empty o.cause ≡ false)
          × (p.opens + 1 ≤ o.serial.opens)
          × ((o.serial.opens + attempt ≡ p.opens + serial_open_retry_limit + 1)
              ⊎ (is_transient u o.cause ≡ false)))

module _ (u : Unicode) (device : ℕ → Write) (answers : ℕ → Opening) (kills : ℕ → List ℕ) where
  abbrev transport : Transport
  transport = serial_transport u device answers kills
