-- ===== src/Kernel.antt =====
-- src/kernel and src/main.c: the scheduler and the system calls of the kernel.
pub mod Task
pub mod Scheduler
pub mod Messages
pub mod Events
pub mod Loop
