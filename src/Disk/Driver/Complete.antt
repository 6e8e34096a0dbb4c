-- ===== src/Disk/Driver/Complete.antt =====
-- `virtio_disk_intr` of kernel/virtio_disk.c: the end of a request.
use io_scheduling.Prelude.{ℕ, ◌+◌, ◌%◌, ◌^◌, ◌<◌, ◌≡◌, arith, Returns, total, List, ◌∷◌}
use io_scheduling.Disk.Request.{Req}
use io_scheduling.Disk.MinHeap.Order
use io_scheduling.Disk.MinHeap.Delete.{delete_from_min_heap_correct}
use io_scheduling.Disk.Queue.Laws
use io_scheduling.Disk.Queue.Laws.{dequeue_correct}
use io_scheduling.Disk.Virtio.{ack}
use io_scheduling.Disk.Virtio.Interrupt.{AreDone, HandedBack, length, intr_used_correct}
use io_scheduling.Disk.Driver.{Driver, retire, virtio_disk_intr}

module _ (blockno : ℕ → ℕ) (bs : List ℕ) (device : ℕ) (used : ℕ → ℕ) (d : Driver)
    (small : d.disk.used_idx < 2 ^ 16) (few : length bs < 2 ^ 16)
    (index : device ≡ (d.disk.used_idx + length bs) % 2 ^ 16)
    (all_done : AreDone d.disk.info used d.disk.used_idx bs) where
  -- An interrupt under scheduler 1, with requests queued and the transfers of the buffers `bs` (fewer
  -- than 2^16) completed well, hands back all of `bs`, and takes exactly one request out of the
  -- queue, the root, however many transfers were completed.
  pub virtio_disk_intr-heap :
      (n : ℕ)
      → d.io_type ≡ 1
      → Order.IsValid blockno (n + 1) d.heap
      → Returns
          (λ d'.
            HandedBack bs device (record d.disk { events = ack ∷ d.disk.events }) d'.disk
            × Order.IsValid blockno n d'.heap
            × ((w : Req → ℕ)
                → total w 1 n d'.heap.items + w (d.heap.items 1) ≡ total w 1 (n + 1) d.heap.items))
          (virtio_disk_intr blockno device used d)
  unfolding virtio_disk_intr retire
  virtio_disk_intr-heap n type v =
      let (disk, run, back) = intr_used_correct bs device used d.disk small few index all_done in
      let (heap, run', (v', same)) = delete_from_min_heap_correct blockno n d.heap v in
      (record d { disk = disk; heap = heap }, ground (arith, run, run'), (back, v', same))

  -- An interrupt under scheduler 2, with requests queued and the transfers of the buffers `bs` (fewer
  -- than 2^16) completed well, hands back all of `bs`, and takes exactly one request out of the
  -- queue, the first, however many transfers were completed.
  pub virtio_disk_intr-queue :
      (n : ℕ)
      → d.io_type ≡ 2
      → Laws.IsValid blockno (n + 1) d.queue
      → Returns
          (λ d'.
            HandedBack bs device (record d.disk { events = ack ∷ d.disk.events }) d'.disk
            × Laws.IsValid blockno n d'.queue
            × ((w : Req → ℕ)
                → total w 0 n d'.queue.items + w (d.queue.items 0)
                  ≡ total w 0 (n + 1) d.queue.items))
          (virtio_disk_intr blockno device used d)
  unfolding virtio_disk_intr retire
  virtio_disk_intr-queue n type v =
      let (disk, run, back) = intr_used_correct bs device used d.disk small few index all_done in
      let (q, run', (v', same, first, near)) = dequeue_correct blockno n d.queue v in
      (record d { disk = disk; queue = q }, ground (arith, run, run'), (back, v', same))
