-- ===== src/Iob.antt =====
-- ql-iob-plugin: placing IO cells by a PCF file and a pin map.
pub mod Pinmap
pub mod Pcf
pub mod Spec
pub mod Place
