-- ===== src/Tests.antt =====
-- Runs of the definitions on small inputs, and each theorem at an input that meets its hypotheses.
mod Iob
mod Eqn
mod Tcl
mod Sdc
mod Dsp
mod Clocks
mod Designs
mod Inv
mod Flops
mod Simd
mod BramMerge
mod Braminit
mod Buffers
