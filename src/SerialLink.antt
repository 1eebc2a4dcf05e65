-- ===== src/SerialLink.antt =====
-- server/transport/serial_link.py: `SerialLinkManager`, the owner of the serial port.
-- The port is pyserial's: what each read and write of it does is an argument. The texts of events,
-- the log and the clock are not modelled.
pub mod State
pub mod Metadata
pub mod Send
pub mod Receive
pub mod Delivery
pub mod Closing
