-- ===== src/LcdData.antt =====
-- server/communication/data_structures_lcd_controller.py: the dataset of profiles and settings that
-- the LCD receives.
pub mod Fields
pub mod Normalize
pub mod Defaults
pub mod Dataset
pub mod Typed
pub mod Loop
pub mod Named
pub mod Normal
pub mod Settings
pub mod Encoding
pub mod Payload
pub mod Summary
pub mod Slots
pub mod Summaries
