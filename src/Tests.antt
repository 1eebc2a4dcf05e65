-- ===== src/Tests.antt =====
-- The theorems at concrete inputs.
mod Data
mod Serial
mod Link
mod Numbers
mod LcdData
mod Downlink
mod Display
mod Controller
mod Uplink
