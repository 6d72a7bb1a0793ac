-- ===== src/Process.antt =====
-- os/src/process: pids, kernel stacks, the ready queues, the table of processes, and signals.
pub mod Pid
pub mod Manager
pub mod Kernel
pub mod Signal
