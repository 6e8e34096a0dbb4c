-- ===== src/Disk/Deadline.antt =====
-- Scheduler 3 (kernel/virtio_disk.c, `Rotate` to `InsertToRBTree`): for reads and for writes a
-- red-black tree of the requests by block number, and a ring of them by age.
-- A module for the cells that both are made of, one for the tree, one for the ring, and one for the
-- functions over all four of them.
pub mod Cells
pub mod Tree
pub mod Ring
pub mod Sched
pub mod Insert
