-- ===== src/Disk/Virtio.antt =====
-- The driver's side of the virtio queue (kernel/virtio_disk.c, `alloc_desc` to `virtio_disk_intr`,
-- and `struct disk`): descriptors, the avail ring, requests in flight.
-- The wait for a free descriptor and the wait for the interrupt cut `virtio_disk_rw` into `submit`
-- and `finish`. The calls of other parts of the kernel and the writes to device registers are
-- listed in `events`, the latest first.
pub mod Alloc
pub mod Chain
pub mod Submit
pub mod Interrupt
use io_scheduling.Prelude.{
  ℕ, zero, suc, ◌+◌, ◌-◌, ◌*◌, ◌/◌, ◌%◌, ◌^◌, Bool, true, false, not, leb, ◌==◌, if◌then◌else◌,
  Option, none, some, List, [], ◌∷◌, ◌++◌, Run, ok, stop, fault, out_of_fuel, ◌>>=◌, ◌>>◌, panic_if,
  update, load, store,
}

-- what `addr` of a descriptor points to
pub data Addr : Type 0 where
  null : Addr
  op : ℕ → Addr  -- &disk.ops[i]
  block : ℕ → Addr  -- b->data
  status_of : ℕ → Addr  -- &disk.info[i].status

-- `struct virtq_desc`
pub record Desc : Type 0 where
  pub addr : Addr
  pub len : ℕ
  pub flags : ℕ
  pub next : ℕ

-- `struct virtio_blk_req`
pub record BlkReq : Type 0 where
  pub type : ℕ
  pub reserved : ℕ
  pub sector : ℕ

-- an entry of `info`
pub record Info : Type 0 where
  pub b : Option ℕ
  pub status : ℕ

pub data Event : Type 0 where
  wake_free : Event  -- wakeup(&disk.free[0])
  wake_buf : ℕ → Event  -- wakeup(b)
  notify : Event  -- VIRTIO_MMIO_QUEUE_NOTIFY
  ack : Event  -- VIRTIO_MMIO_INTERRUPT_ACK

-- `struct disk`, and the field `disk` of the buffers
pub record Disk : Type 0 where
  pub desc : ℕ → Desc
  pub free : ℕ → Bool
  pub avail_ring : ℕ → ℕ
  pub avail_idx : ℕ
  pub used_idx : ℕ
  pub info : ℕ → Info
  pub ops : ℕ → BlkReq
  pub owned : ℕ → Bool
  pub events : List Event

-- NUM
abbrev pub num : ℕ
num = 128

abbrev pub desc_f_next : ℕ
desc_f_next = 1

abbrev pub desc_f_write : ℕ
desc_f_write = 2

abbrev pub bsize : ℕ
bsize = 1024

abbrev pub blank : Desc
blank = record { addr = null; len = 0; flags = 0; next = 0 }

-- the `for` of alloc_desc, with `k` indices left
pub alloc_loop : ℕ → ℕ → Disk → Option ℕ × Disk
alloc_loop zero i s = (none, s)
alloc_loop (suc k) i s =
    let rest = alloc_loop k (i + 1) s in
    if s.free i then (some i, record s { free = update s.free i false }) else rest

-- `none` for -1
pub alloc_desc : Disk → Option ℕ × Disk
alloc_desc s = alloc_loop num 0 s

pub free_desc : ℕ → Disk → Run Disk
free_desc i s = do
  panic_if (leb num i)
  panic_if (s.free i)
  ok (record s {
    desc = update s.desc i blank;
    free = update s.free i true;
    events = wake_free ∷ s.events;
  })

unfoldable pub has_next : ℕ → Bool
has_next flags = flags % 2 == desc_f_next

-- the `while` of free_chain
pub free_chain_loop : ℕ → ℕ → Disk → Run Disk
free_chain_loop zero i s = stop out_of_fuel
free_chain_loop (suc k) i s = do
  d ← load num s.desc i
  s' ← free_desc i s
  let rest = free_chain_loop k d.next s'
  if has_next d.flags then rest else ok s'

-- a round frees a descriptor that was in use, so that there are `num` rounds at most
pub free_chain : ℕ → Disk → Run Disk
free_chain i s = free_chain_loop (num + 1) i s

pub free_all : List ℕ → Disk → Run Disk
free_all [] s = ok s
free_all (i ∷ is) s = free_desc i s >>= free_all is

-- the `for` of alloc3_desc, with `k` descriptors still to get; `none` for -1
pub alloc3_loop : ℕ → List ℕ → Disk → Run (Option (List ℕ) × Disk)
alloc3_loop zero idx s = ok (some idx, s)
alloc3_loop (suc k) idx s =
    let (r, s') = alloc_desc s in
    elim r [
      | none ↦ free_all idx s' >>= λ t. ok (none, t)
      | some i ↦ alloc3_loop k (idx ++ i ∷ []) s'
    ]

pub alloc3_desc : Disk → Run (Option (List ℕ) × Disk)
alloc3_desc s = alloc3_loop 3 [] s

-- What virtio_disk_rw does for a buffer `b` of block `bno`, once it has three descriptors. (The
-- flags are sums of different bits; `sector` is computed in 32 bits. Indices from alloc_desc are
-- inside every array.)
pub format : ℕ → ℕ → ℕ → ℕ → ℕ → ℕ → Disk → Disk
format i0 i1 i2 b bno write s =
    let is_read = write == 0 in
    let d0 : Desc = record { addr = op i0; len = 16; flags = desc_f_next; next = i1 } in
    let d1 : Desc = record {
      addr = block b;
      len = bsize;
      flags = (if is_read then desc_f_write else 0) + desc_f_next;
      next = i2;
    } in
    let d2 : Desc = record { addr = status_of i0; len = 1; flags = desc_f_write; next = 0 } in
    record s {
      ops = update s.ops i0 (record {
        type = if is_read then 0 else 1;
        reserved = 0;
        sector = bno * (bsize / 512) % 2 ^ 32;
      });
      desc = update (update (update s.desc i0 d0) i1 d1) i2 d2;
      info = update s.info i0 (record { b = some b; status = 0xff });
      owned = update s.owned b true;
      avail_ring = update s.avail_ring (s.avail_idx % num) i0;
      avail_idx = (s.avail_idx + 1) % 2 ^ 16;
      events = notify ∷ s.events;
    }

-- `none` where alloc3_desc failed; it never gives a list of another length
start_transfer : ℕ → ℕ → ℕ → Option (List ℕ) × Disk → Run (Option ℕ × Disk)
start_transfer b bno write (some (i0 ∷ i1 ∷ i2 ∷ []), s) =
    ok (some i0, format i0 i1 i2 b bno write s)
start_transfer b bno write (some _, s) = stop fault
start_transfer b bno write (none, s) = ok (none, s)

-- virtio_disk_rw up to the wait for the interrupt: the head of the chain, or `none` where it sleeps
-- on the free descriptors and is to try again.
pub submit : ℕ → ℕ → ℕ → Disk → Run (Option ℕ × Disk)
submit b bno write s = alloc3_desc s >>= start_transfer b bno write

-- virtio_disk_rw after the wait for the interrupt; `i0` is the head of the chain
pub finish : ℕ → Disk → Run Disk
finish i0 s = free_chain i0 (record s { info = update s.info i0 (record (s.info i0) { b = none }) })

-- one round of the `while` of virtio_disk_intr, with the device's used ring
pub complete : (ℕ → ℕ) → Disk → Run Disk
complete used s = do
  entry ← load num s.info (used (s.used_idx % num))
  panic_if (not (entry.status == 0))
  b ← elim entry.b [ some b ↦ ok b | none ↦ stop fault ]
  ok (record s {
    owned = update s.owned b false;
    used_idx = (s.used_idx + 1) % 2 ^ 16;
    events = wake_buf b ∷ s.events;
  })

pub intr_loop : ℕ → ℕ → (ℕ → ℕ) → Disk → Run Disk
intr_loop zero device used s = stop out_of_fuel
intr_loop (suc k) device used s =
    let rest = complete used s >>= intr_loop k device used in
    if s.used_idx == device then ok s else rest

-- The part of virtio_disk_intr before the request queues, for the device's index `device` and ring
-- `used`. The index is 16 bits wide, so that there are fewer than 2^16 rounds.
pub intr_used : ℕ → (ℕ → ℕ) → Disk → Run Disk
intr_used device used s = intr_loop (2 ^ 16) device used (record s { events = ack ∷ s.events })
