-- ===== src/Examples.antt =====
-- The theorems at concrete files, structures and packets.
mod Buffers
mod Debugger
mod Files
mod Fits
mod Relocated
mod Runs
mod Saved
mod Scanner
mod Simulator
mod Stacks
mod Structures
mod Tables
