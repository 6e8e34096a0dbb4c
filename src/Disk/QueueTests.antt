-- ===== src/Disk/QueueTests.antt =====
-- The request queues of the disk driver at concrete states.
use io_scheduling.Prelude.{ℕ, ◌+◌, ◌≤◌, ◌<◌, ◌≡◌, ◌⊎◌, arith, Returns, total}
use io_scheduling.Disk.Request.{Req}
use io_scheduling.Disk.MinHeap.{insert_min_heap, delete_from_min_heap}
use io_scheduling.Disk.MinHeap.Order
use io_scheduling.Disk.MinHeap.Insert.{insert_min_heap_correct}
use io_scheduling.Disk.MinHeap.Delete.{delete_from_min_heap_correct}
use io_scheduling.Disk.Queue.{enqueue, dequeue}
use io_scheduling.Disk.Queue.Laws
use io_scheduling.Disk.Queue.Laws.{enqueue_correct, dequeue_correct}
use io_scheduling.Disk.Queue.Nearest.{between}
use io_scheduling.Disk.Samples.{
  itself, req, tens, heap_of, heap_of-IsValid, queue_of, queue_of-IsValid,
}

insert_min_heap_correct_example :
    Returns
      (λ h'.
        Order.IsValid itself 3 h'
        × ((w : Req → ℕ) → total w 1 3 h'.items ≡ total w 1 2 tens + w (req 5)))
      (insert_min_heap itself (heap_of 2) (req 5))
insert_min_heap_correct_example =
    insert_min_heap_correct itself 2 (heap_of 2) (req 5) (heap_of-IsValid 2 (omega arith))
      (omega arith)

delete_from_min_heap_correct_example :
    Returns
      (λ h'.
        Order.IsValid itself 2 h'
        × ((w : Req → ℕ) → total w 1 2 h'.items + w (req 10) ≡ total w 1 3 tens))
      (delete_from_min_heap itself (heap_of 3))
delete_from_min_heap_correct_example =
    delete_from_min_heap_correct itself 2 (heap_of 3) (heap_of-IsValid 3 (omega arith))

enqueue_correct_example :
    Returns
      (λ q'.
        Laws.IsValid itself 3 q'
        × ((w : Req → ℕ) → total w 0 3 q'.items ≡ total w 0 2 tens + w (req 5))
        × (q'.items 0 ≡ req 0))
      (enqueue itself (queue_of 2) (req 5))
enqueue_correct_example =
    enqueue_correct itself 2 (queue_of 2) (req 5) (queue_of-IsValid 2 (omega arith)) (omega arith)
      (omega arith)

dequeue_correct_example :
    Returns
      (λ q'.
        Laws.IsValid itself 2 q'
        × ((w : Req → ℕ) → total w 0 2 q'.items + w (req 0) ≡ total w 0 3 tens)
        × ((◌≡◌ {A = ℕ} 2 0) ⊎ (q'.items 0 ≡ req 10))
        × ((j : ℕ) → j < 2 → between itself (req 0) (req 10) ≤ between itself (req 0) (q'.items j)))
      (dequeue itself (queue_of 3))
dequeue_correct_example = dequeue_correct itself 2 (queue_of 3) (queue_of-IsValid 3 (omega arith))
