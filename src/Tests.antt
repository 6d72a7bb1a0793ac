-- ===== src/Tests.antt =====
-- Tests at concrete inputs, and the theorems at inputs that meet their hypotheses.
mod Memory
mod Paging
mod Spaces
mod Processes
mod Signalling
mod Storage
mod Blocks
mod FileSystem
mod Files
mod Pipes
