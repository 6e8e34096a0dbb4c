-- ===== src/Lib.antt =====
-- IO-scheduling: an xv6 kernel for RISC-V whose disk driver has several request schedulers.
--
-- The program's parts and the files that model them (paths from the repository's root):
-- - kernel/virtio_disk.c, the disk driver. `rw_queue` takes each request of the buffer cache, puts
--   it into the queue of the scheduler that `IO_switch` chose, and hands one request to the device
--   with `virtio_disk_rw`; `virtio_disk_intr` hands the buffers back and takes a request out of the
--   queue.
--   Disk/MinHeap.antt: scheduler 1 (`insertMinHeap` and `deleteFromMinHeap`, named
--   insert_min_heap and delete_from_min_heap).
--   Disk/Queue.antt: scheduler 2 (`distance`, `SSTF`, `enqueue`, `dequeue`).
--   Disk/Deadline/: scheduler 3 (`Rotate` to `InsertToRBTree`): Cells.antt has the cells and pointers
--   into them, Tree.antt the red-black tree, Ring.antt the ring, Sched.antt all of it.
--   Disk/Virtio.antt: descriptors, the avail ring and the requests in flight (`alloc_desc` to
--   `virtio_disk_intr`).
--   Disk/Driver.antt: `virtio_disk_init`, `rw_queue` and `virtio_disk_intr` as a whole.
-- - kernel/log.c, the redo log over the buffer cache: Log.antt, and Log/Reserve.antt for several calls
--   between begin_op and end_op, as a step relation.
-- - kernel/bio.c, the buffer cache between the file system and the driver: Bcache.antt. `bread` and
--   `bwrite` call `rw_queue`.
-- - kernel/fs.c, over the blocks that the log and the buffer cache keep: Fs.antt has the free map and
--   `bmap`, Fs/Content.antt `readi`, `writei` and `iupdate`, Fs/Truncate.antt `itrunc`,
--   Fs/Directory.antt `namecmp` and `dirlookup`, Fs/Inodes.antt the table of inodes.
-- - kernel/vm.c, page tables of three levels: Vm.antt has `walk`, `walkaddr` and `mappages`,
--   Vm/Copy.antt `copyout`, `copyin` and `copyinstr`.
-- - user/grep.c, the pattern matcher: Grep.antt.
-- - kernel/pipe.c: Pipe.antt. kernel/kalloc.c, the page allocator: Kalloc.antt. kernel/string.c:
--   Strings.antt.
-- - kernel/proc.c: Procs.antt has sleeping, waking, killing and exiting, Procs/Family.antt
--   `allocproc`, `fork` and `wait`. kernel/spinlock.c and kernel/sleeplock.c: Locks.antt, and
--   Locks/Interleaving.antt for several CPUs that share a spin lock, as a step relation.
-- - Prelude.antt and Prelude/ are shared: C arrays, the outcome of a call, counters, tests.
-- A folder named like a module has its proofs, by what they are about, and its Tests.
--
-- Conventions. A C struct is a record, an array is a function of the index whose accesses are
-- checked against the length where the source does not bound the index, and a pointer into an
-- array is an index. A call returns a `Run`: a result, or the way it stopped (`panic`; `fault` for
-- an access outside an array, a null pointer or an overflow; `out_of_fuel`). An `int` that the
-- code counts below 0 is a ℤ; unsigned values that wrap, and pids, are reduced modulo a power of
-- 2. `blockno` gives the block number of the buffer at an address: queues do not change it.
--
-- Fuel. Loops of known length recurse on the number of rounds. The others have fuel: Size + 1 rounds
-- for the heap (the index halves or doubles), 129 for free_chain (each round frees a descriptor),
-- 2^16 for the interrupt's loop (the used index has 16 bits), 31 along the list of 30 buffers, and
-- 32,769 for the pages below PHYSTOP. The loops over the cells of the
-- deadline tree have a bound by the number of cells. The loops of readi, writei, the copies to and from
-- user memory and dirlookup have their length plus 1, since each round moves a byte or passes an entry,
-- and mappages has the number of pages of its range.
--
-- Power failures. The log's disk has a number of block writes that still succeed; later ones have no
-- effect. A block is written whole or not at all.
--
-- Sleeping and waking. Functions are cut where they sleep: a step returns `none` there, and the
-- caller tries again. Locks are taken to be held through a step, and are not modelled.
--
-- Not modelled: device registers, traps, exec, the UART and the user programs but for grep's
-- matcher, which are machine access or glue; nor system calls, open files, the console, paths, the
-- inodes' life from ialloc to iput, and the freeing and copying of a process's memory. The values
-- that the device writes to its used ring and the time are parameters.
mod Prelude
pub mod Disk
pub mod Log
pub mod Pipe
pub mod Bcache
pub mod Kalloc
pub mod Strings
pub mod Fs
pub mod Grep
pub mod Vm
pub mod Locks
pub mod Procs
