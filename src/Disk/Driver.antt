-- ===== src/Disk/Driver.antt =====
-- The disk driver as a whole (kernel/virtio_disk.c, `rw_queue`, `virtio_disk_init` and
-- `virtio_disk_intr`): the chosen scheduler, its queue, and the virtio queue.
-- `blockno` gives the block number of the buffer at an address; `now` is what `Nowtime` returns.
pub mod Init
pub mod Dispatch
pub mod Complete
use io_scheduling.Prelude.{
  ℕ, zero, suc, ◌+◌, ◌-◌, Bool, true, false, ◌==◌, if◌then◌else◌, Option, none, some, Run, ok,
  ◌>>=◌, update, load, ltb, pos, ◌>>◌,
}
use io_scheduling.Disk.Request.{Req}
use io_scheduling.Disk.MinHeap
use io_scheduling.Disk.MinHeap.{MinHeap}
use io_scheduling.Disk.Queue
use io_scheduling.Disk.Queue.{Queue}
use io_scheduling.Disk.Virtio
use io_scheduling.Disk.Virtio.{Disk}
use io_scheduling.Disk.Deadline.Cells.{null, sen, black, treesize}
use io_scheduling.Disk.Deadline.Tree.{Tree}
use io_scheduling.Disk.Deadline.Ring.{Ring}
use io_scheduling.Disk.Deadline.Sched
use io_scheduling.Disk.Deadline.Sched.{Sched, set_tree, set_ring}

pub record Driver : Type 0 where
  pub io_type : ℕ
  pub disk : Disk
  pub heap : MinHeap
  pub queue : Queue
  pub sched : Sched

-- `IO_switch` of kernel/proc.c
pub io_switch : ℕ → Driver → Driver
io_switch type d = record d { io_type = type }

-- the queues as virtio_disk_init leaves them
abbrev pub sentinel_req : ℕ → Req
sentinel_req temp = record { b = temp; write = 0 }

pub init_heap : ℕ → MinHeap → MinHeap
init_heap temp h = record h {
  items = update h.items 0 (sentinel_req temp);
  size = pos 0;
  capacity = 128;
}

pub init_queue : Queue → Queue
init_queue q = record q { size = pos 0; capacity = 128 }

-- the values 0, 1, ..., `n - 1` written to the first entries
pub number_loop : ℕ → (ℕ → ℕ) → ℕ → ℕ
number_loop zero a = a
number_loop (suc n) a = update (number_loop n a) n n

abbrev number_tree : Tree → Tree
number_tree t = record t { avail = number_loop treesize t.avail }

abbrev number_ring : Ring → Ring
number_ring r = record r { avail = number_loop treesize r.avail }

-- One round of the `for` over the two directions. `disk.tree->avail` and `disk.ring->avail` are
-- those of the first tree and the first ring, in both rounds.
pub init_direction : Bool → Sched → Sched
init_direction d s =
    let t = s.tree d in
    let t1 : Tree = record t {
      root = null;
      sentinel = record t.sentinel { links = update t.sentinel.links 0 null; color = black };
      size = pos 0;
      capacity = treesize;
    } in
    let s1 = set_tree s d t1 in
    let s2 = set_tree s1 false (number_tree (s1.tree false)) in
    let s3 = set_tree s2 d (record (s2.tree d) { top = pos (treesize - 1) }) in
    let r : Ring = record (s3.ring d) {
      head = sen;
      rear = sen;
      time_limit = 22;
      size = pos 0;
      capacity = treesize;
    } in
    let s4 = set_ring s3 d r in
    let s5 = set_ring s4 false (number_ring (s4.ring false)) in
    set_ring s5 d (record (s5.ring d) { top = pos (treesize - 1) })

-- the end of virtio_disk_init, after the device is set up; `temp` is the buffer of block 0 that the
-- heap's sentinel names
pub virtio_disk_init : ℕ → Driver → Driver
virtio_disk_init temp d = record d {
  disk = record d.disk { free = λ i. if ltb i Virtio.num then true else d.disk.free i };
  heap = init_heap temp d.heap;
  queue = init_queue d.queue;
  sched = init_direction true (init_direction false d.sched);
}

module _ (blockno : ℕ → ℕ) where
  -- rw_queue up to its call of virtio_disk_rw: the request that it hands over, `none` for none
  pub choose : ℕ → Req → Driver → Run (Option Req × Driver)
  choose now r d =
      if d.io_type == 0
      then ok (some r, d)
      else if d.io_type == 1
      then (do
        h ← MinHeap.insert_min_heap blockno d.heap r
        x ← load MinHeap.slots h.items 1
        ok (some x, record d { heap = h }))
      else if d.io_type == 2
      then (do
        q ← Queue.enqueue blockno d.queue r
        x ← load Queue.slots q.items 0
        ok (some x, record d { queue = q }))
      else if d.io_type == 3
      then (do
        s ← Sched.rw_deadline blockno now r d.sched
        ok (some s.ready_area, record d { sched = s }))
      else ok (none, d)

  -- the call of virtio_disk_rw for the request that was chosen, up to its first wait
  pub hand_over : Option Req × Driver → Run (Option Req × Option ℕ × Driver)
  hand_over (none, d) = ok (none, none, d)
  hand_over (some x, d) = do
    (i, disk) ← Virtio.submit x.b (blockno x.b) x.write d.disk
    ok (some x, i, record d { disk = disk })

  -- rw_queue up to the first wait of virtio_disk_rw: the request that was handed over, and the head
  -- of its chain
  pub rw_queue : ℕ → Req → Driver → Run (Option Req × Option ℕ × Driver)
  rw_queue now r d = choose now r d >>= hand_over

  -- the end of virtio_disk_intr: one request leaves the queue of the chosen scheduler
  pub retire : Driver → Run Driver
  retire d =
      if d.io_type == 1
      then (do h ← MinHeap.delete_from_min_heap blockno d.heap; ok (record d { heap = h }))
      else if d.io_type == 2
      then (do q ← Queue.dequeue blockno d.queue; ok (record d { queue = q }))
      else if d.io_type == 3
      then (do s ← Sched.prim_tree d.sched; ok (record d { sched = s }))
      else ok d

  pub virtio_disk_intr : ℕ → (ℕ → ℕ) → Driver → Run Driver
  virtio_disk_intr device used d = do
    disk ← Virtio.intr_used device used d.disk
    retire (record d { disk = disk })
