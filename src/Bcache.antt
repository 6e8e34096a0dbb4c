-- ===== src/Bcache.antt =====
-- The buffer cache (kernel/bio.c).
-- A buffer is its index in `bcache.buf`, and `head` is index 30. `held` says whether the caller holds a
-- buffer's sleep lock; `bget` waits for it at its end, so that its result holds once the lock is there.
-- The calls of `rw_queue` are listed in `transfers`, the latest first: the buffer and the direction.
pub mod Order
pub mod Search
pub mod Get
pub mod Release
mod Tests
use io_scheduling.Prelude.{
  ℕ, zero, suc, ◌+◌, ◌-◌, ◌%◌, ◌^◌, Bool, true, false, not, ◌==◌, ◌&&◌, if◌then◌else◌, Option, none,
  some, List, [], ◌∷◌, Run, ok, stop, panic, ◌>>=◌, ◌>>◌, panic_if, update,
}

-- NBUF, and `&bcache.head`
abbrev pub nbuf : ℕ
nbuf = 30

abbrev pub head : ℕ
head = 30

pub record Bcache : Type 0 where
  pub valid : ℕ → Bool
  pub dev : ℕ → ℕ
  pub blockno : ℕ → ℕ
  pub refcnt : ℕ → ℕ
  pub prev : ℕ → ℕ
  pub next : ℕ → ℕ
  pub held : ℕ → Bool
  pub transfers : List (ℕ × Bool)

-- buffer `b` comes first in the list
pub push_front : ℕ → Bcache → Bcache
push_front b s =
    let next1 = update s.next b (s.next head) in
    let prev1 = update s.prev b head in
    record s { prev = update prev1 (next1 head) b; next = update next1 head b }

pub unlink_buf : ℕ → Bcache → Bcache
unlink_buf b s =
    let prev1 = update s.prev (s.next b) (s.prev b) in
    record s { prev = prev1; next = update s.next (prev1 b) (s.next b) }

-- the `for` of binit, for the first `k` buffers
pub init_loop : ℕ → Bcache → Bcache
init_loop zero s = s
init_loop (suc k) s = push_front k (init_loop k s)

pub binit : Bcache → Bcache
binit s =
    init_loop nbuf (record s { prev = update s.prev head head; next = update s.next head head })

-- The loops of bget along `next` or `prev`, from `b` to the head; the list has 30 buffers.
pub search : ℕ → (ℕ → ℕ) → (ℕ → Bool) → ℕ → Option ℕ
search zero follow test b = none
search (suc k) follow test b =
    let rest = search k follow test (follow b) in
    if b == head then none else if test b then some b else rest

abbrev pub is_block : Bcache → ℕ → ℕ → ℕ → Bool
is_block s dev blockno b = s.dev b == dev && s.blockno b == blockno

abbrev pub is_unused : Bcache → ℕ → Bool
is_unused s b = s.refcnt b == 0

-- a buffer that is taken for another block
pub recycle : ℕ → ℕ → ℕ → Bcache → Bcache
recycle dev blockno b s = record s {
  dev = update s.dev b dev;
  blockno = update s.blockno b blockno;
  valid = update s.valid b false;
  refcnt = update s.refcnt b 1;
  held = update s.held b true;
}

pub bget : ℕ → ℕ → Bcache → Run (ℕ × Bcache)
bget dev blockno s = elim (search (nbuf + 1) s.next (is_block s dev blockno) (s.next head)) [
  | some b ↦ ok (
    b,
    record s {
      refcnt = update s.refcnt b ((s.refcnt b + 1) % 2 ^ 32);
      held = update s.held b true;
    },
  )
  | none ↦ elim (search (nbuf + 1) s.prev (is_unused s) (s.prev head)) [
    | some b ↦ ok (b, recycle dev blockno b s)
    | none ↦ stop panic
  ]
]

pub bread : ℕ → ℕ → Bcache → Run (ℕ × Bcache)
bread dev blockno s = do
  (b, t) ← bget dev blockno s
  ok (
      if t.valid b
      then (b, t)
      else (b, record t { transfers = (b, false) ∷ t.transfers; valid = update t.valid b true }))

pub bwrite : ℕ → Bcache → Run Bcache
bwrite b s = do panic_if (not (s.held b)); ok (record s { transfers = (b, true) ∷ s.transfers })

pub brelse : ℕ → Bcache → Run Bcache
brelse b s = do
  panic_if (not (s.held b))
  let left = (s.refcnt b + 2 ^ 32 - 1) % 2 ^ 32
  let s1 = record s { held = update s.held b false; refcnt = update s.refcnt b left }
  ok (if left == 0 then push_front b (unlink_buf b s1) else s1)

pub bpin : ℕ → Bcache → Bcache
bpin b s = record s { refcnt = update s.refcnt b ((s.refcnt b + 1) % 2 ^ 32) }

pub bunpin : ℕ → Bcache → Bcache
bunpin b s = record s { refcnt = update s.refcnt b ((s.refcnt b + 2 ^ 32 - 1) % 2 ^ 32) }
