-- ===== src/Common.antt =====
-- include/common and src/common: the containers and C library routines of the kernel.
pub mod CircularBuffer
pub mod Heap
pub mod MyString
pub mod Hashtable
