-- ===== src/Fs.antt =====
-- Blocks and inodes of the file system (kernel/fs.c).
-- A block of the free map is its bytes, and a byte its bits. A block that a file uses for block numbers
-- is 32-bit words, and one that it uses for data is bytes. The inodes on the disk are numbered: inode
-- `i` is the one in place `i % 16` of block `i / 16 + inodestart`. That these parts of the disk lie
-- apart is the layout of kernel/fs.h. The calls of log_write are listed in `logged`, the latest first.
pub mod Bitmap
pub mod Bmap
pub mod Inodes
pub mod Content
pub mod Truncate
pub mod Directory
mod Tests
use io_scheduling.Prelude.{
  ℕ, zero, suc, ◌+◌, ◌-◌, ◌/◌, ◌%◌, ◌^◌, Bool, true, false, not, ltb, ◌==◌, ◌&&◌, if◌then◌else◌,
  Option, none, some, List, ◌∷◌, Run, ok, stop, panic, ◌>>=◌, ◌>>◌, panic_if, update,
}

-- BPB, NDIRECT and NINDIRECT
abbrev pub bpb : ℕ
bpb = 8192

abbrev pub ndirect : ℕ
ndirect = 12

abbrev pub nindirect : ℕ
nindirect = 256

-- `addrs` of an inode; the indirect block comes last
abbrev pub Addrs : Type 0
Addrs = ℕ → ℕ

-- `struct dinode`, and the same fields of `struct inode`
pub record Dinode : Type 0 where
  pub type : ℕ
  pub major : ℕ
  pub minor : ℕ
  pub nlink : ℕ
  pub size : ℕ
  pub addrs : Addrs

-- `size`, `ninodes`, `inodestart` and `bmapstart` of the superblock, and the blocks
pub record Fs : Type 0 where
  pub size : ℕ
  pub ninodes : ℕ
  pub inodestart : ℕ
  pub bmapstart : ℕ
  pub map : ℕ → ℕ → ℕ → Bool
  pub words : ℕ → ℕ → ℕ
  pub bytes : ℕ → ℕ → ℕ
  pub dinode : ℕ → Dinode
  pub logged : List ℕ

-- bit `bi` of a block of the free map: `data[bi / 8] & (1 << bi % 8)`
abbrev pub test_bit : ℕ → ℕ → Fs → Bool
test_bit block bi s = s.map block (bi / 8) (bi % 8)

pub set_bit : ℕ → ℕ → Bool → Fs → Fs
set_bit block bi v s = record s {
  map =
      update s.map block (update (s.map block) (bi / 8) (update (s.map block (bi / 8)) (bi % 8) v));
  logged = block ∷ s.logged;
}

-- BBLOCK
abbrev pub bblock : ℕ → Fs → ℕ
bblock b s = b / bpb + s.bmapstart

pub bzero : ℕ → Fs → Fs
bzero b s = record s {
  words = update s.words b (λ j. 0);
  bytes = update s.bytes b (λ j. 0);
  logged = b ∷ s.logged;
}

-- the inner `for` of balloc, with `k` bits left: the first bit that is not set
pub bit_loop : ℕ → ℕ → ℕ → Fs → Option ℕ
bit_loop zero b bi s = none
bit_loop (suc k) b bi s =
    let rest = bit_loop k b (bi + 1) s in
    if ltb (b + bi) s.size then (if test_bit (bblock b s) bi s then rest else some bi) else none

-- the outer `for` of balloc, with `k` blocks of the map left
pub block_loop : ℕ → ℕ → Fs → Run (ℕ × Fs)
block_loop zero b s = stop panic
block_loop (suc k) b s = elim (bit_loop bpb b 0 s) [
  | some bi ↦ ok (b + bi, bzero (b + bi) (set_bit (bblock b s) bi true s))
  | none ↦ block_loop k (b + bpb) s
]

pub balloc : Fs → Run (ℕ × Fs)
balloc s = block_loop ((s.size + bpb - 1) / bpb) 0 s

pub bfree : ℕ → Fs → Run Fs
bfree b s = do
  panic_if (not (test_bit (bblock b s) (b % bpb) s))
  ok (set_bit (bblock b s) (b % bpb) false s)

-- the indirect block of a file
pub load_indirect : Addrs → Fs → Run (ℕ × Addrs × Fs)
load_indirect addrs s =
    if addrs ndirect == 0
    then (balloc s >>= λ (block, t). ok (block, update addrs ndirect block, t))
    else ok (addrs ndirect, addrs, s)

-- entry `i` of the indirect block
pub map_indirect : ℕ → ℕ → Addrs → Fs → Run (ℕ × Addrs × Fs)
map_indirect i block addrs s =
    let a = s.words block i in
    if a == 0
    then (balloc s >>= λ (a', t). ok (
      a',
      addrs,
      record t {
        words = update t.words block (update (t.words block) i a');
        logged = block ∷ t.logged;
      },
    ))
    else ok (a, addrs, s)

pub bmap : Addrs → ℕ → Fs → Run (ℕ × Addrs × Fs)
bmap addrs bn s =
    if ltb bn ndirect
    then (if addrs bn == 0
        then (balloc s >>= λ (a, t). ok (a, update addrs bn a, t))
        else ok (addrs bn, addrs, s))
    else if ltb (bn - ndirect) nindirect
    then (load_indirect addrs s >>= λ (block, addrs', t).
        map_indirect (bn - ndirect) block addrs' t)
    else stop panic
