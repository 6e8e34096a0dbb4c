-- ===== src/Disk/Driver/Dispatch.antt =====
-- `rw_queue` of kernel/virtio_disk.c: the request handed to the disk.
use io_scheduling.Prelude.{
  ℕ, ◌+◌, ◌^◌, ◌≤◌, ◌<◌, ◌≡◌, refl, arith, none, some, ok, Returns, total, total_pos, le-total, leb,
  if◌then◌else◌, ◌==◌, ap,
}
use io_scheduling.Disk.Request.{Req}
use io_scheduling.Disk.MinHeap
use io_scheduling.Disk.MinHeap.{key}
use io_scheduling.Disk.MinHeap.Order
use io_scheduling.Disk.MinHeap.Insert.{insert_min_heap_correct}
use io_scheduling.Disk.Queue
use io_scheduling.Disk.Queue.Laws
use io_scheduling.Disk.Queue.Laws.{enqueue_correct}
use io_scheduling.Disk.Driver.{Driver, choose, hand_over, rw_queue}

module _ (blockno : ℕ → ℕ) (now : ℕ) (r : Req) (d : Driver) where
  -- Under scheduler 0 rw_queue hands over the request itself.
  pub choose-noop : d.io_type ≡ 0 → choose blockno now r d ≡ ok (some r, d)
  unfolding choose
  choose-noop h = ground arith

  -- For a scheduler that there is none of, rw_queue hands over no request and starts no transfer.
  pub rw_queue-unknown : 4 ≤ d.io_type → rw_queue blockno now r d ≡ ok (none, none, d)
  unfolding rw_queue choose hand_over
  rw_queue-unknown h = ground arith

  -- Under scheduler 1, with fewer than 127 requests queued, the queue takes the request up, and the
  -- one handed over is a queued one with the lowest block number, that of the new one included.
  pub choose-heap :
      (n : ℕ)
      → d.io_type ≡ 1
      → Order.IsValid blockno n d.heap
      → n + 1 < MinHeap.slots
      → Returns
          (λ (x, d').
            (x ≡ some (d'.heap.items 1))
            × Order.IsValid blockno (n + 1) d'.heap
            × ((w : Req → ℕ) → total w 1 (n + 1) d'.heap.items ≡ total w 1 n d.heap.items + w r)
            × ((c : ℕ)
                → 1 ≤ c
                → c ≤ n + 1
                → key blockno (d'.heap.items 1) ≤ key blockno (d'.heap.items c)))
          (choose blockno now r d)
  unfolding choose
  choose-heap n h v room =
      let (heap, run, (v', same)) = insert_min_heap_correct blockno n d.heap r v room in
      (
        (some (heap.items 1), record d { heap = heap }),
        ground (arith, run),
        (refl, v', same, λ c low high. Order.root_least blockno v'.heap c c (omega arith) low high),
      )

  -- Under scheduler 2, with fewer than 128 requests queued and block numbers that fit an `int`, the
  -- queue takes the request up, and the one handed over is the first: the request in service, or the
  -- new one on an empty queue.
  pub choose-queue :
      (n : ℕ)
      → d.io_type ≡ 2
      → Laws.IsValid blockno n d.queue
      → n < Queue.slots
      → blockno r.b < 2 ^ 31
      → Returns
          (λ (x, d').
            (x ≡ some (if n == 0 then r else d.queue.items 0))
            × Laws.IsValid blockno (n + 1) d'.queue
            × ((w : Req → ℕ) → total w 0 (n + 1) d'.queue.items ≡ total w 0 n d.queue.items + w r))
          (choose blockno now r d)
  unfolding choose
  choose-queue n h v room fits =
      let (q, run, (v', same, first)) = enqueue_correct blockno n d.queue r v room fits in
      ((some (q.items 0), record d { queue = q }), ground (arith, run), (ap some first, v', same))

-- requests of block `m` or below
abbrev upto : (ℕ → ℕ) → ℕ → Req → ℕ
upto blockno m x = if leb (blockno x.b) m then 1 else 0

-- Under scheduler 1, with fewer than 127 requests queued, one of them for a lower block than the
-- caller's, the request handed over is for a lower block than the caller's, and so another one.
pub choose-heap_other :
    (blockno : ℕ → ℕ) (now : ℕ) (r : Req) (d : Driver) (n c : ℕ)
    → d.io_type ≡ 1
    → Order.IsValid blockno n d.heap
    → n + 1 < MinHeap.slots
    → 1 ≤ c
    → c ≤ n
    → blockno (d.heap.items c).b < blockno r.b
    → Returns
        (λ (x, d'). (y : Req) × (x ≡ some y) × (blockno y.b < blockno r.b))
        (choose blockno now r d)
choose-heap_other blockno now r d n c h v room low high less =
    let (p, run, (is_root, v', same, least)) = choose-heap blockno now r d n h v room in
    let m = blockno (d.heap.items c).b in
    let w = upto blockno m in
    let (i, low', high', small) =
      total_pos w 1 (n + 1) p.1.heap.items
        (ground (arith, same w, le-total w 1 n d.heap.items c low (omega arith))) in
    (p, run, (p.1.heap.items 1, is_root, ground (arith, least i low', small)))
