-- ===== src/Fs/Directory.antt =====
-- Looking up a name in a directory (kernel/fs.c, `namecmp` and `dirlookup`).
-- A name is a function of the place of its byte. `de` is filled whole by each readi.
pub mod Lookup
pub mod Dirlookup
use io_scheduling.Prelude.{
  ℕ, zero, suc, ◌+◌, ◌*◌, ◌^◌, ◌%◌, Bool, true, false, not, ltb, ◌==◌, if◌then◌else◌, Option, none,
  some, Run, ok, stop, out_of_fuel, ◌>>=◌, ◌>>◌, panic_if,
}
use io_scheduling.Fs.{Fs}
use io_scheduling.Fs.Content.{Inode, readi}
use io_scheduling.Fs.Inodes.{Itable, iget}

-- DIRSIZ, the size of a `struct dirent`, and T_DIR
abbrev pub dirsiz : ℕ
dirsiz = 14

abbrev pub entry_size : ℕ
entry_size = 16

abbrev pub t_dir : ℕ
t_dir = 1

-- whether strncmp of the `n` bytes from place `i` on is 0
pub namecmp : ℕ → ℕ → (ℕ → ℕ) → (ℕ → ℕ) → Bool
namecmp zero i p q = true
namecmp (suc n) i p q =
    let rest = namecmp n (i + 1) p q in
    if p i == q i then (if p i == 0 then true else rest) else false

-- `inum` and `name` of an entry
abbrev pub entry_inum : (ℕ → ℕ) → ℕ
entry_inum de = de 0 + 256 * de 1

abbrev pub entry_name : (ℕ → ℕ) → ℕ → ℕ
entry_name de i = de (i + 2)

abbrev pub is_whole : Option ℕ → Bool
is_whole none = false
is_whole (some n) = n == entry_size

-- what the loop of dirlookup ends with: `inum` and `off` of the entry found
abbrev pub DirOut : Type 0
DirOut = Option (ℕ × ℕ) × Inode × Fs

-- a round of it on what readi gave; `next` is the rest of the loop
pub lookup_step :
    (ℕ → ℕ) → ℕ → (Inode → Fs → Run DirOut) → Option ℕ × (ℕ → ℕ) × Inode × Fs → Run DirOut
lookup_step name off next (r, de, dp, s) =
    let rest = next dp s in
    panic_if (not (is_whole r))
    >> (if entry_inum de == 0
        then rest
        else if namecmp dirsiz 0 name (entry_name de)
        then ok (some (entry_inum de, off), dp, s)
        else rest)

-- its `for`, for at most `k` entries
pub lookup_loop : ℕ → ℕ → (ℕ → ℕ) → Inode → Fs → Run DirOut
lookup_loop zero off name dp s = stop out_of_fuel
lookup_loop (suc k) off name dp s =
    let next = λ (d : Inode) (t : Fs). lookup_loop k ((off + entry_size) % 2 ^ 32) name d t in
    let round = readi (λ i. true) off entry_size (λ i. 0) dp s >>= lookup_step name off next in
    if ltb off dp.body.size then round else ok (none, dp, s)

-- The entry of the table of inodes and `*poff`, or `none` for 0. Each round takes one of the entries.
pub dirlookup : ℕ → (ℕ → ℕ) → Inode → Fs × Itable → Run (Option (ℕ × ℕ) × Inode × Fs × Itable)
dirlookup dev name dp (s, table) =
    panic_if (not (dp.body.type == t_dir))
    >> (lookup_loop (dp.body.size + 1) 0 name dp s >>= λ (found, dp', t). elim found [
      | none ↦ ok (none, dp', t, table)
      | some (inum, off) ↦
          (iget dev inum table >>= λ (i, table'). ok (some (i, off), dp', t, table'))
    ])
