-- ===== src/Disk/Queue.antt =====
-- The queue of scheduler 2 (kernel/virtio_disk.c, `distance`, `SSTF`, `enqueue`, `dequeue`): the
-- request in service in `data[0]`, and the waiting one nearest to it in `data[1]`.
pub mod Distance
pub mod Nearest
pub mod Laws
use io_scheduling.Prelude.{
  ℕ, zero, suc, ◌+◌, ◌-◌, ◌%◌, ◌^◌, Bool, false, ltb, ◌==◌, if◌then◌else◌, Run, ok, stop, fault,
  ◌>>=◌, ◌>>◌, panic_if, update, load, store, ℤ, pos, negsuc, increment, decrement, index,
}
use io_scheduling.Disk.Request.{Req}

-- `struct Queue`
pub record Queue : Type 0 where
  pub items : ℕ → Req  -- data[128]
  pub size : ℤ
  pub capacity : ℕ

abbrev pub slots : ℕ
slots = 128

abbrev is_full : Queue → Bool
is_full q = elim q.size [ pos n ↦ n == q.capacity | negsuc n ↦ false ]

-- the rounds of `for (i = 1; i < size; i++)`, and of `for (i = 0; i < size - 1; i++)`
abbrev rounds : ℤ → ℕ
rounds (pos n) = n - 1
rounds (negsuc n) = 0

module _ (blockno : ℕ → ℕ) where
  -- The unsigned difference, read as an `int`; to negate the least `int` overflows.
  pub distance : Req → Req → Run ℕ
  distance x y =
      let delta = (blockno x.b + 2 ^ 32 - blockno y.b) % 2 ^ 32 in
      if ltb delta (2 ^ 31)
      then ok delta
      else if delta == 2 ^ 31
      then stop fault
      else ok (2 ^ 32 - delta)

  -- one round of the loop of SSTF
  pub sstf_round : (ℕ → Req) → ℕ → Run (ℕ → Req)
  sstf_round a i = do
    first ← load slots a 0
    cur ← load slots a i
    d ← distance first cur
    second ← load slots a 1
    d' ← distance first second
    if ltb d d' then ok (update (update a i second) 1 cur) else ok a

  pub sstf_loop : ℕ → ℕ → (ℕ → Req) → Run (ℕ → Req)
  sstf_loop zero i a = ok a
  sstf_loop (suc k) i a = sstf_round a i >>= sstf_loop k (i + 1)

  pub sstf : Queue → Run Queue
  sstf q = do a ← sstf_loop (rounds q.size) 1 q.items; ok (record q { items = a })

  pub enqueue : Queue → Req → Run Queue
  enqueue q x = do
    panic_if (is_full q)
    i ← index q.size
    a ← store slots q.items i x
    sstf (record q { items = a; size = increment q.size })

  -- the `for` of dequeue
  pub shift_loop : ℕ → ℕ → (ℕ → Req) → Run (ℕ → Req)
  shift_loop zero i a = ok a
  shift_loop (suc k) i a = do
    next ← load slots a (i + 1)
    a' ← store slots a i next
    shift_loop k (i + 1) a'

  pub dequeue : Queue → Run Queue
  dequeue q = do
    a ← shift_loop (rounds q.size) 0 q.items
    sstf (record q { items = a; size = decrement q.size })
