-- ===== src/Lib.antt =====
-- The Gaggia server simulator: the Python server that drives the ESP32 serial bridge.
--
-- The program has these parts. A browser page polls an HTTP API (server/api/routes.py). Each route
-- is one call of `LinkRuntime` (server/sim/link_state_machine.py), the state machine of the link to
-- the machine's display. It sends and receives frames through `SerialLinkManager`
-- (server/transport/serial_link.py), whose reader thread decodes the bytes of the port with the
-- frame codec (ServerInterface/frame_codec.py). The frames' data go to `DataPayloadManager`
-- (server/sim/data_payload.py) and to the protocol bridge of the display
-- (server/communication/protocol_lcd_controller.py).
--
-- Prelude: names of the libraries, Boolean tests, lists and bytes over the native numbers.
-- Python: exceptions, `str` and UTF-8 as the program uses them, and the parsers of payload texts
--   (`_try_parse_u32_payload_value` and its like). What Python's character database says above
--   ASCII, and the text of an integer's ValueError, are the record `Unicode`, an argument.
-- FrameCodec: `crc16_ccitt`, `encode_frame`, `decode_frames`. A round of the decoder's loop is
--   `decode_round`; the loop runs on fuel, one more than the bytes of the buffer, which is enough
--   since each round that goes on removes a byte.
-- SerialLink: the state of `SerialLinkManager` and its methods. A read or write of pyserial's port
--   is an argument, with what the reader thread does during a write; `send_frame` recurs on the
--   attempts left.
-- LcdProtocol: `LCDControllerProtocolBridge`.
-- Link: `LinkRuntime`. `Link` holds its fields, `World` these and the two partners' states. A method
--   returns the exception that it raises, if it does, beside the world that it leaves. Interfaces
--   states what the runtime uses of the partners; SerialTransport fills the first of them with
--   `SerialLinkManager`, PayloadManager the second with `DataPayloadManager`. Frames is
--   `_poll_received_frames_locked`, Snapshot `get_snapshot`, Commands and Controls the other methods,
--   Calls the routes, and histories of calls and thread steps. Invariant, Flow, Keepalive, Mismatch,
--   Providers, Retries and Escapes hold proofs.
-- LcdData: server/communication/data_structures_lcd_controller.py. Fields holds the fields of the
--   dataset in their order and kinds, Normalize and Dataset the normalization of values, profiles and
--   settings, Payload the dataset and its text, Summary the profile summaries and the 20 integers of
--   a packet. A dict is a function from its keys to values of any type (Python/Object), and a call
--   that raises an exception that leaves it is an `err`. Floating-point arithmetic, and the parsing
--   and printing of numbers, are the record `Numbers`, an argument. Typed, Loop, Named, Normal,
--   Settings, Encoding, Slots and Summaries hold proofs.
-- Uplink: the uplink packets of server/sim/data_payload.py and their queue.
-- Downlink: the rest of `DataPayloadManager` (server/sim/data_payload.py). State holds its fields and
--   the lifecycle, Profiles and Controls the calls that change it, Packet `encode_downlink`.
--   `_generate_and_send` is Turn (its two locked parts), Channels (the samples), Home (the values of
--   the Home page) and Generate (the packet and the call). The times that the clock returns, the
--   callback and the library of samples are arguments; Samples builds a row of that library. Modes
--   runs the calls in a sequence; Returned, Keeping, Histories, Encoded, Steps, Choice, Tables and Completion hold proofs.
-- Controller: `SimulatorRuntime` (server/sim/controller_state.py), which the API does not reach. It
--   uses four names of the serial link that do not exist; what their calls come to is an argument.
-- Tests: concrete inputs.
--
-- A call holds the runtime's lock, so calls are steps in an order; the two methods that let the lock
-- go in between are one step. A call reads the clock once. Not modelled: logs, monitor notes and
-- event texts, display timestamps, the USB throughput, the fields of a snapshot other than what
-- making it changes, the validation of request bodies, the UnicodeEncodeError of lone surrogates,
-- `_kill_external_port_holders` (it runs a shell command; its result is an argument), of
-- server/sim/data_payload.py the catalog of presets with its two builders, the waiting of the
-- sender thread and `get_stats`, of which only fields of the state are read: that it raises where a
-- preset cannot be converted is left out. What a conversion that raises leaves half assigned is an
-- argument of Link/PayloadManager. The web page, the firmware and the scripts are not modelled.
pub mod Prelude
pub mod FrameCodec
pub mod Python
pub mod SerialLink
pub mod LcdProtocol
pub mod LcdData
pub mod Link
pub mod Uplink
pub mod Downlink
pub mod Controller
pub mod Tests
