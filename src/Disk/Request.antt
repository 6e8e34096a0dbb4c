-- ===== src/Disk/Request.antt =====
-- `struct req` of kernel/virtio_disk.c: what the request queues hold.
use io_scheduling.Prelude.{ℕ}

-- `b` is the address of a `struct buf`; `write` is 0 for a read.
pub record Req : Type 0 where
  pub b : ℕ
  pub write : ℕ
