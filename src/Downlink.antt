-- ===== src/Downlink.antt =====
-- server/sim/data_payload.py: the packets to the client and the part of `DataPayloadManager` that
-- makes them.
pub mod Packet
pub mod State
pub mod Profiles
pub mod Controls
pub mod Turn
pub mod Channels
pub mod Samples
pub mod Tables
pub mod Home
pub mod Generate
pub mod Modes
pub mod Returned
pub mod Keeping
pub mod Histories
pub mod Encoded
pub mod Steps
pub mod Choice
pub mod Completion
