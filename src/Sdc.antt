-- ===== src/Sdc.antt =====
-- sdc-plugin: timing constraints of the design, read from commands and written to an SDC file.
pub mod Writer
pub mod Commands
pub mod Script
pub mod FalsePaths
pub mod MaxDelays
pub mod Groups
pub mod RoundTrip
pub mod Writable
pub mod Written
pub mod Clocks
pub mod File
pub mod Attributes
pub mod Listing
pub mod CreateClock
pub mod Buffers
pub mod Chains
