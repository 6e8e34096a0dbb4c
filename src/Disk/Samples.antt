-- ===== src/Disk/Samples.antt =====
-- States of the disk driver for the tests. A buffer's address is its block number here.
use io_scheduling.Prelude.{
  ℕ, ◌+◌, ◌*◌, ◌≤◌, ◌<◌, refl, arith, leb, ◌==◌, if◌then◌else◌, [], some, pos,
}
use io_scheduling.Disk.Request.{Req}
use io_scheduling.Disk.MinHeap.{MinHeap}
use io_scheduling.Disk.MinHeap.Order
use io_scheduling.Disk.Queue.{Queue}
use io_scheduling.Disk.Queue.Laws
use io_scheduling.Disk.Queue.Laws.{enqueue_correct, dequeue_correct}
use io_scheduling.Disk.Virtio.{Disk, null, has_next}
use io_scheduling.Disk.Virtio.Chain.{IsChain}
use io_scheduling.Disk.Driver.{Driver}
use io_scheduling.Disk.Deadline.Cells
use io_scheduling.Disk.Deadline.Cells.{Node, Section, red, black}
use io_scheduling.Disk.Deadline.Tree.{Tree}
use io_scheduling.Disk.Deadline.Ring.{Ring}
use io_scheduling.Disk.Deadline.Insert.{IsOpen}

abbrev pub itself : ℕ → ℕ
itself b = b

abbrev pub req : ℕ → Req
req b = record { b = b; write = 0 }

-- the requests for blocks 10, 20, ... in `data[1]`, `data[2]`, ...
abbrev pub tens : ℕ → Req
tens i = req (10 * i)

abbrev pub heap_of : ℕ → MinHeap
heap_of n = record { items = tens; size = pos n; capacity = 128 }

pub heap_of-IsValid : (n : ℕ) → n < 128 → Order.IsValid itself n (heap_of n)
heap_of-IsValid n h = record {
  size = refl;
  capacity = refl;
  inside = h;
  heap = record { sentinel = refl; edges = λ c low high. omega arith };
}

abbrev pub queue_of : ℕ → Queue
queue_of n = record { items = tens; size = pos n; capacity = 128 }

pub queue_of-IsValid : (n : ℕ) → n ≤ 128 → Laws.IsValid itself n (queue_of n)
queue_of-IsValid n h = record {
  size = refl;
  capacity = refl;
  inside = h;
  small = λ j p. omega arith;
  near = λ j p q. omega arith;
}

-- The chain 0, 1, 2 is in use for the buffer of block 40, and all other descriptors are free. The
-- device has completed the transfer.
abbrev pub busy : Disk
busy = record {
  desc = λ i. record { addr = null; len = 0; flags = if i == 2 then 2 else 1; next = i + 1 };
  free = λ i. leb 3 i;
  avail_ring = λ i. 0;
  avail_idx = 1;
  used_idx = 0;
  info = λ i. record { b = some 40; status = 0 };
  ops = λ i. record { type = 0; reserved = 0; sector = 0 };
  owned = λ b. b == 40;
  events = [];
}

pub busy-IsChain : IsChain 0 1 2 busy
unfolding has_next
busy-IsChain = record {
  inside = (omega arith, omega arith, omega arith);
  distinct = (omega arith, omega arith, omega arith);
  used = (refl, refl, refl);
  first = (refl, refl);
  second = (refl, refl);
  third = refl;
}

-- a tree and a ring as they are in zeroed memory, but for what virtio_disk_init writes
abbrev pub blank_node : Node
blank_node = record {
  rank = 0;
  color = red;
  item = req 0;
  links = λ k. Cells.null;
  section = Cells.null;
}

abbrev pub blank_section : Section
blank_section = record {
  rank = 0;
  time = 0;
  item = req 0;
  front = Cells.null;
  back = Cells.null;
  node = Cells.null;
}

abbrev pub new_tree : Tree
new_tree = record {
  nodes = λ i. blank_node;
  sentinel = record blank_node { color = black };
  root = Cells.null;
  top = pos 127;
  avail = λ i. i;
  size = pos 0;
  capacity = 128;
}

abbrev pub new_ring : Ring
new_ring = record {
  sections = λ i. blank_section;
  sentinel = blank_section;
  head = Cells.sen;
  rear = Cells.sen;
  top = pos 127;
  avail = λ i. i;
  time_limit = 22;
  size = pos 0;
  capacity = 128;
}

pub new_tree-IsOpen : IsOpen 0 127 new_tree
new_tree-IsOpen = record {
  root = refl;
  size = refl;
  room = omega arith;
  top = refl;
  slot = omega arith;
  fresh = omega arith;
  black = refl;
  leaf = refl;
}

abbrev pub driver : ℕ → ℕ → Driver
driver type n = record {
  io_type = type;
  disk = busy;
  heap = heap_of n;
  queue = queue_of n;
  sched = record { tree = λ d. new_tree; ring = λ d. new_ring; ready_area = req 0 };
}
