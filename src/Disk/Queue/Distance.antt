-- ===== src/Disk/Queue/Distance.antt =====
-- `distance` of kernel/virtio_disk.c.
use io_scheduling.Prelude.{ℕ, ◌+◌, ◌-◌, ◌^◌, ◌<◌, ◌≡◌, arith, ok}
use io_scheduling.Disk.Request.{Req}
use io_scheduling.Disk.Queue.{distance}

-- the blocks between two block numbers
abbrev pub gap : ℕ → ℕ → ℕ
gap m n = (m - n) + (n - m)

module _ (blockno : ℕ → ℕ) where
  -- Between block numbers below 2^31 distance returns the number of blocks, and overflows nowhere.
  pub distance_lem :
      (x y : Req)
      → blockno x.b < 2 ^ 31
      → blockno y.b < 2 ^ 31
      → distance blockno x y ≡ ok (gap (blockno x.b) (blockno y.b))
  unfolding distance
  distance_lem x y p q = ground arith
