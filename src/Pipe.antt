-- ===== src/Pipe.antt =====
-- Pipes (kernel/pipe.c).
-- `pipewrite` and `piperead` are cut where they sleep: a call goes on from there with the offset that
-- it reached. `user` is the process's memory from the address it gave, by offset; `none` and `false`
-- stand for a byte that copyin and copyout do not reach.
pub mod Fifo
pub mod Receive
pub mod Close
mod Tests
use io_scheduling.Prelude.{
  ℕ, zero, suc, ◌+◌, ◌%◌, ◌^◌, Bool, true, false, not, ◌==◌, ◌&&◌, ◌||◌, if◌then◌else◌, Option,
  none, some, List, [], ◌∷◌, update,
}

-- PIPESIZE
abbrev pub pipesize : ℕ
pipesize = 512

pub data Event : Type 0 where
  wake_readers : Event  -- wakeup(&pi->nread)
  wake_writers : Event  -- wakeup(&pi->nwrite)
  free_page : Event  -- kfree(pi)

-- `struct pipe`, and what was called for it, the latest first
pub record Pipe : Type 0 where
  pub bytes : ℕ → ℕ  -- data[PIPESIZE]
  pub nread : ℕ
  pub nwrite : ℕ
  pub readopen : Bool
  pub writeopen : Bool
  pub events : List Event

abbrev pub log_event : Event → Pipe → Pipe
log_event e p = record p { events = e ∷ p.events }

-- how a call ends: it returns -1, or returns the number of bytes, or sleeps at an offset
pub data Answer : Type 0 where
  failed : Answer
  moved : ℕ → Answer
  asleep : ℕ → Answer

-- the fields that pipealloc sets
pub open_pipe : (ℕ → ℕ) → Pipe
open_pipe bytes = record {
  bytes = bytes;
  nread = 0;
  nwrite = 0;
  readopen = true;
  writeopen = true;
  events = [];
}

pub pipeclose : Bool → Pipe → Pipe
pipeclose writable p =
    let p1 =
      if writable
      then log_event wake_readers (record p { writeopen = false })
      else log_event wake_writers (record p { readopen = false }) in
    if not p1.readopen && not p1.writeopen then log_event free_page p1 else p1

-- `pi->data[pi->nwrite++ % PIPESIZE] = ch`
pub push : ℕ → Pipe → Pipe
push ch p = record p {
  bytes = update p.bytes (p.nwrite % pipesize) ch;
  nwrite = (p.nwrite + 1) % 2 ^ 32;
}

-- the `while` of pipewrite, with `k` bytes left from offset `i`
pub write_loop : Bool → (ℕ → Option ℕ) → ℕ → ℕ → Pipe → Answer × Pipe
write_loop killed user zero i p = (moved i, log_event wake_readers p)
write_loop killed user (suc k) i p =
    let next : Answer × Pipe = elim (user i) [
      | none ↦ (moved i, log_event wake_readers p)
      | some ch ↦ write_loop killed user k (i + 1) (push ch p)
    ] in
    if not p.readopen || killed
    then (failed, p)
    else if p.nwrite == (p.nread + pipesize) % 2 ^ 32
    then (asleep i, log_event wake_readers p)
    else next

pub pipewrite : Bool → (ℕ → Option ℕ) → ℕ → Pipe → Answer × Pipe
pipewrite killed user n p = write_loop killed user n 0 p

-- the `for` of piperead, with room for `k` bytes from offset `i` on; `got` is the user's memory
pub read_loop : (ℕ → Bool) → ℕ → ℕ → (ℕ → ℕ) → Pipe → ℕ × (ℕ → ℕ) × Pipe
read_loop mapped zero i got p = (i, got, p)
read_loop mapped (suc k) i got p =
    let ch = p.bytes (p.nread % pipesize) in
    let p1 = record p { nread = (p.nread + 1) % 2 ^ 32 } in
    let rest = read_loop mapped k (i + 1) (update got i ch) p1 in
    if p.nread == p.nwrite then (i, got, p) else if mapped i then rest else (i, got, p1)

pub piperead : Bool → (ℕ → Bool) → ℕ → (ℕ → ℕ) → Pipe → Answer × (ℕ → ℕ) × Pipe
piperead killed mapped n got p =
    let (i, got', p') = read_loop mapped n 0 got p in
    if p.nread == p.nwrite && p.writeopen
    then (if killed then failed else asleep 0, got, p)
    else (moved i, got', log_event wake_writers p')
