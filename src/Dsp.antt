-- ===== src/Dsp.antt =====
-- dsp-ff-plugin/dsp_ff.cc: flip-flops that are moved into the registers of DSP cells.
pub mod Rules
pub mod Connections
pub mod Flops
pub mod Inspect
pub mod Registers
pub mod Dicts
pub mod Alike
pub mod Removal
pub mod Marked
pub mod Touched
pub mod Group
