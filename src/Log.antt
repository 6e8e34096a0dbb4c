-- ===== src/Log.antt =====
-- The redo log (kernel/log.c).
-- A block is its 32-bit words. `cache b` is what `bread` returns for block `b`; `bwrite` copies it to
-- the disk. Power may fail: `power` is the number of disk writes that still succeed, and the later
-- ones have no effect. Sleeping is left to the caller: `begin_op` returns `none` where it sleeps.
pub mod Safe
pub mod Write
pub mod Install
pub mod Commit
pub mod Recover
pub mod Ops
pub mod Reserve
mod Tests
use io_scheduling.Prelude.{
  ℕ, zero, suc, ◌+◌, ◌-◌, ◌*◌, Bool, true, false, ltb, leb, ◌==◌, ◌||◌, if◌then◌else◌, Option, none,
  some, Run, ok, stop, panic, ◌>>=◌, ◌>>◌, panic_if, update, ℤ, pos, negsuc, increment, decrement,
}

abbrev pub Block : Type 0
Block = ℕ → ℕ

-- LOGSIZE and MAXOPBLOCKS
abbrev pub logsize : ℕ
logsize = 30

abbrev pub maxopblocks : ℕ
maxopblocks = 10

-- the buffer cache and the disk under it
pub record Buffers : Type 0 where
  pub cache : ℕ → Block
  pub pins : ℕ → ℕ
  pub disk : ℕ → Block
  pub power : ℕ

-- `struct log`; `n` and `block` are its `lh`
pub record Log : Type 0 where
  pub start : ℕ
  pub size : ℕ
  pub outstanding : ℤ
  pub committing : Bool
  pub n : ℕ
  pub block : ℕ → ℕ
  pub buffers : Buffers

-- the data of the buffer of block `b` is set to `v`, and `bwrite` writes it to the disk
pub set_and_write : ℕ → Block → Buffers → Buffers
set_and_write b v m = record m {
  cache = update m.cache b v;
  disk = if m.power == 0 then m.disk else update m.disk b v;
  power = m.power - 1;
}

abbrev pub bunpin : ℕ → Buffers → Buffers
bunpin b m = record m { pins = update m.pins b (m.pins b - 1) }

abbrev pub bpin : ℕ → Buffers → Buffers
bpin b m = record m { pins = update m.pins b (m.pins b + 1) }

-- the loops over `log.lh.block[tail]`, which do not change `log.start` and `log.lh`
module _ (start : ℕ) (block : ℕ → ℕ) where
  -- the `for` of install_trans, with `k` blocks left
  pub install_loop : Bool → ℕ → ℕ → Buffers → Buffers
  install_loop recovering zero tail m = m
  install_loop recovering (suc k) tail m =
      let b = block tail in
      let m1 = set_and_write b (m.cache (start + tail + 1)) m in
      install_loop recovering k (tail + 1) (if recovering then m1 else bunpin b m1)

  -- the `for` of write_log
  pub write_log_loop : ℕ → ℕ → Buffers → Buffers
  write_log_loop zero tail m = m
  write_log_loop (suc k) tail m =
      write_log_loop k (tail + 1) (set_and_write (start + tail + 1) (m.cache (block tail)) m)

pub install_trans : Bool → Log → Log
install_trans recovering s = record s {
  buffers = install_loop s.start s.block recovering s.n 0 s.buffers;
}

pub write_log : Log → Log
write_log s = record s { buffers = write_log_loop s.start s.block s.n 0 s.buffers }

-- `n` and `block[0..n)` in the first words of the header block
pub header : ℕ → (ℕ → ℕ) → Block → Block
header n block old j = if j == 0 then n else if leb j n then block (j - 1) else old j

pub read_head : Log → Log
read_head s =
    let d = s.buffers.cache s.start in
    record s { n = d 0; block = λ i. if ltb i (d 0) then d (i + 1) else s.block i }

pub write_head : Log → Log
write_head s =
    let h = header s.n s.block (s.buffers.cache s.start) in
    record s { buffers = set_and_write s.start h s.buffers }

pub recover_from_log : Log → Log
recover_from_log s = let s1 = install_trans true (read_head s) in write_head (record s1 { n = 0 })

-- `initlog` after a reboot: the cache is empty, so that `bread` returns what is on the disk
pub initlog : ℕ → ℕ → Log → Log
initlog start size s =
    recover_from_log (record s {
      start = start;
      size = size;
      buffers = record s.buffers { cache = s.buffers.disk };
    })

pub commit : Log → Log
commit s =
    let s1 = write_head (write_log s) in
    let s2 = install_trans false s1 in if ltb 0 s.n then write_head (record s2 { n = 0 }) else s

-- `log.lh.n + (log.outstanding + 1) * MAXOPBLOCKS > LOGSIZE`
abbrev pub is_short : Log → Bool
is_short s = elim s.outstanding [
  | pos o ↦ ltb logsize (s.n + (o + 1) * maxopblocks)
  | negsuc o ↦ ltb (logsize + o * maxopblocks) s.n
]

-- one round of the `while` of begin_op
pub begin_op : Log → Option Log
begin_op s =
    if s.committing
    then none
    else if is_short s
    then none
    else some (record s { outstanding = increment s.outstanding })

abbrev is_zero : ℤ → Bool
is_zero (pos n) = n == 0
is_zero (negsuc n) = false

-- end_op; while it commits, `committing` keeps the other system calls out
pub end_op : Log → Run Log
end_op s = do
  let s1 = record s { outstanding = decrement s.outstanding }
  panic_if s1.committing
  let s2 = commit (record s1 { committing = true })
  ok (if is_zero s1.outstanding then record s2 { committing = false } else s1)

-- the `for` of log_write: the first index below `n` with this block number, or `n`
pub find_loop : ℕ → ℕ → (ℕ → ℕ) → ℕ → ℕ
find_loop zero i block b = i
find_loop (suc k) i block b =
    let rest = find_loop k (i + 1) block b in if block i == b then i else rest

abbrev is_none_out : ℤ → Bool
is_none_out (pos n) = ltb n 1
is_none_out (negsuc n) = true

pub log_write : ℕ → Log → Run Log
log_write b s = do
  panic_if (leb logsize s.n || leb (s.size - 1) s.n)
  panic_if (is_none_out s.outstanding)
  let i = find_loop s.n 0 s.block b
  let s1 = record s { block = update s.block i b }
  ok (if i == s.n then record s1 { buffers = bpin b s.buffers; n = s.n + 1 } else s1)
