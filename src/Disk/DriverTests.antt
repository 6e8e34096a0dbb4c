-- ===== src/Disk/DriverTests.antt =====
-- The virtio queue, the deadline tree and the whole driver at concrete states.
use io_scheduling.Prelude.{
  ℕ, ◌+◌, ◌≤◌, ◌<◌, ◌≡◌, ◌≢◌, refl, arith, [], ◌∷◌, some, ok, stop, out_of_fuel, Returns, pos,
  total,
}
use io_scheduling.Disk.Request.{Req}
use io_scheduling.Disk.MinHeap.{key}
use io_scheduling.Disk.MinHeap.Order
use io_scheduling.Disk.Virtio.{submit, free_chain, ack}
use io_scheduling.Disk.Virtio.Chain.{free_chain_ends}
use io_scheduling.Disk.Virtio.Submit.{Submitted, submit_correct}
use io_scheduling.Disk.Virtio.Interrupt.{HandedBack}
use io_scheduling.Disk.Driver.{choose, virtio_disk_intr}
use io_scheduling.Disk.Driver.Dispatch.{choose-heap, choose-heap_other}
use io_scheduling.Disk.Driver.Complete.{virtio_disk_intr-heap}
use io_scheduling.Disk.Deadline.Cells
use io_scheduling.Disk.Deadline.Cells.{Node, Section, red, black}
use io_scheduling.Disk.Deadline.Sched.{attach, first_request}
use io_scheduling.Disk.Deadline.Insert.{attach_replaces}
use io_scheduling.Disk.Samples.{
  itself, req, tens, heap_of-IsValid, busy, new_tree, new_tree-IsOpen, driver,
}

submit_correct_example : Returns (Submitted 50 50 1 busy) (submit 50 50 1 busy)
submit_correct_example = submit_correct 50 50 1 busy

free_chain_ends_example : free_chain 0 busy ≢ stop out_of_fuel
free_chain_ends_example = free_chain_ends 0 busy

attach_replaces_example :
    Returns
      (λ (p, t').
        (t'.root ≡ Cells.null)
        × (t'.size ≡ pos 1)
        × (t'.sentinel.links 0 ≡ p)
        × (first_request t' ≡ ok (req 5)))
      (attach itself new_tree (req 5))
attach_replaces_example = attach_replaces itself 0 127 new_tree (req 5) new_tree-IsOpen

choose-heap_example :
    Returns
      (λ (x, d').
        (x ≡ some (d'.heap.items 1))
        × Order.IsValid itself 3 d'.heap
        × ((w : Req → ℕ) → total w 1 3 d'.heap.items ≡ total w 1 2 tens + w (req 15))
        × ((c : ℕ) → 1 ≤ c → c ≤ 3 → key itself (d'.heap.items 1) ≤ key itself (d'.heap.items c)))
      (choose itself 0 (req 15) (driver 1 2))
choose-heap_example =
    choose-heap itself 0 (req 15) (driver 1 2) 2 refl (heap_of-IsValid 2 (omega arith))
      (omega arith)

choose-heap_other_example :
    Returns
      (λ (x, d'). (y : Req) × (x ≡ some y) × (y.b < 15))
      (choose itself 0 (req 15) (driver 1 2))
choose-heap_other_example =
    choose-heap_other itself 0 (req 15) (driver 1 2) 2 1 refl (heap_of-IsValid 2 (omega arith))
      (omega arith) (omega arith) (omega arith) (omega arith)

virtio_disk_intr-heap_example :
    Returns
      (λ d'.
        HandedBack (40 ∷ []) 1 (record busy { events = ack ∷ [] }) d'.disk
        × Order.IsValid itself 1 d'.heap
        × ((w : Req → ℕ) → total w 1 1 d'.heap.items + w (req 10) ≡ total w 1 2 tens))
      (virtio_disk_intr itself 1 (λ i. 0) (driver 1 2))
virtio_disk_intr-heap_example =
    virtio_disk_intr-heap itself (40 ∷ []) 1 (λ i. 0) (driver 1 2) (omega arith) (omega arith) refl
      ((omega arith, refl, refl), tt) 1 refl (heap_of-IsValid 2 (omega arith))
