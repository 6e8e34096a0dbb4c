-- ===== src/Disk/Driver/Init.antt =====
-- `virtio_disk_init` of kernel/virtio_disk.c.
use io_scheduling.Prelude.{
  ℕ, zero, suc, ◌+◌, ◌<◌, ◌≡◌, refl, arith, Bool, true, false, total_last, total_zero, total,
}
use io_scheduling.Disk.MinHeap.Order
use io_scheduling.Disk.Queue.Laws
use io_scheduling.Disk.Virtio.{num}
use io_scheduling.Disk.Virtio.Alloc.{free_count, one_if_free}
use io_scheduling.Disk.Deadline.Cells.{treesize}
use io_scheduling.Disk.Driver.{
  Driver, init_heap, init_queue, number_loop, init_direction, virtio_disk_init,
}

number_loop-below : (n : ℕ) (a : ℕ → ℕ) (j : ℕ) → j < n → number_loop n a j ≡ j
unfolding number_loop
number_loop-below zero a j h = absurd (omega arith)
number_loop-below (suc n) a j h = ground (arith, number_loop-below n a j)

total_all_free :
    (n : ℕ) (free : ℕ → Bool) → ((j : ℕ) → j < n → free j ≡ true) → total one_if_free 0 n free ≡ n
total_all_free zero free h = total_zero one_if_free 0 free
total_all_free (suc n) free h =
    let e : suc n ≡ n + 1 = omega arith in
    rw e (
      ground (
        arith,
        total_last one_if_free 0 n free n (omega arith),
        total_all_free n free (λ j p. h j (omega arith)),
        h n (omega arith),
      ))

module _ (blockno : ℕ → ℕ) (temp : ℕ) (d : Driver) where
  -- After virtio_disk_init all 128 descriptors are free, and the queues of schedulers 1 and 2 are
  -- empty and in order, if the sentinel's buffer has block number 0.
  pub virtio_disk_init_correct :
      blockno temp ≡ 0
      → (free_count (virtio_disk_init temp d).disk ≡ 128)
        × Order.IsValid blockno 0 (virtio_disk_init temp d).heap
        × Laws.IsValid blockno 0 (virtio_disk_init temp d).queue
  unfolding virtio_disk_init init_heap init_queue free_count
  virtio_disk_init_correct zero_block = (
    total_all_free num _ (λ j p. ground arith),
    record {
      size = refl;
      capacity = refl;
      inside = omega arith;
      heap = record { sentinel = zero_block; edges = λ c low high. absurd (omega arith) };
    },
    record {
      size = refl;
      capacity = refl;
      inside = omega arith;
      small = λ j p. absurd (omega arith);
      near = λ j p q. absurd (omega arith);
    },
  )

  -- After virtio_disk_init the tree and the ring for reads number their free cells 0 to 127, but
  -- those for writes keep the numbers that they had: the loops number the first ones twice.
  pub virtio_disk_init-avail :
      (((virtio_disk_init temp d).sched.tree true).avail ≡ (d.sched.tree true).avail)
      × (((virtio_disk_init temp d).sched.ring true).avail ≡ (d.sched.ring true).avail)
      × ((j : ℕ) → j < treesize → ((virtio_disk_init temp d).sched.tree false).avail j ≡ j)
      × ((j : ℕ) → j < treesize → ((virtio_disk_init temp d).sched.ring false).avail j ≡ j)
  unfolding virtio_disk_init init_direction
  virtio_disk_init-avail =
      (refl, refl, λ j p. number_loop-below treesize _ j p, λ j p. number_loop-below treesize _ j p)
