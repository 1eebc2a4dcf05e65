-- ===== src/Link.antt =====
-- server/sim/link_state_machine.py: `LinkRuntime`, the state machine of the transport.
-- The log, the monitor notes, display timestamps and the USB throughput are not modelled. A lock is
-- held through each call, so a call is one step; the clock of a call is its argument `now`.
pub mod State
pub mod Telemetry
pub mod Interfaces
pub mod World
pub mod Client
pub mod Frames
pub mod Opening
pub mod Snapshot
pub mod Commands
pub mod Controls
pub mod Calls
pub mod Invariant
pub mod Retries
pub mod Escapes
pub mod SerialTransport
pub mod PayloadManager
pub mod Providers
pub mod Keepalive
pub mod Mismatch
pub mod Flow
