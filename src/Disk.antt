-- ===== src/Disk.antt =====
-- The modules of kernel/virtio_disk.c: the request queues of its schedulers, and the virtio queue.
pub mod Request
pub mod MinHeap
pub mod Queue
pub mod Virtio
pub mod Deadline
pub mod Driver
mod Samples
mod QueueTests
mod DriverTests
