-- ===== src/Fs/Content.antt =====
-- Reading and writing a file (kernel/fs.c, `readi`, `writei`, `iupdate`).
-- `user` and `mapped` are the caller's memory from the address that it gave, by offset: a byte, or
-- `none` and `false` where either_copyin and either_copyout stop. They copy the bytes before that one.
pub mod Count
pub mod Layout
pub mod Holes
pub mod Given
pub mod Grow
pub mod Write
pub mod Writei
pub mod Read
pub mod Readi
use io_scheduling.Prelude.{
  ℕ, zero, suc, ◌+◌, ◌-◌, ◌*◌, ◌/◌, ◌%◌, ◌^◌, Bool, true, false, not, ltb, leb, ◌==◌, ◌||◌,
  if◌then◌else◌, Option, none, some, List, ◌∷◌, Run, ok, stop, out_of_fuel, ◌>>=◌, update,
}
use io_scheduling.Fs.{Fs, Dinode, Addrs, bmap}

-- BSIZE, MAXFILE and IPB
abbrev pub bsize : ℕ
bsize = 1024

abbrev pub maxfile : ℕ
maxfile = 268

abbrev pub ipb : ℕ
ipb = 16

-- `struct inode`: its number, and the fields that are on the disk as well
pub record Inode : Type 0 where
  pub inum : ℕ
  pub body : Dinode

unfoldable pub iupdate : Inode → Fs → Fs
iupdate ip s = record s {
  dinode = update s.dinode ip.inum ip.body;
  logged = (ip.inum / ipb + s.inodestart) ∷ s.logged;
}

abbrev pub min : ℕ → ℕ → ℕ
min a b = if ltb a b then a else b

-- either_copyin of `m` bytes from offset `i` to place `d` of a block; whether it succeeds
pub copy_in : (ℕ → Option ℕ) → ℕ → ℕ → ℕ → (ℕ → ℕ) → Bool × (ℕ → ℕ)
copy_in user zero i d block = (true, block)
copy_in user (suc m) i d block = elim (user i) [
  | none ↦ (false, block)
  | some c ↦ copy_in user m (i + 1) (d + 1) (update block d c)
]

-- either_copyout of `m` bytes from place `d` of a block to offset `i`
pub copy_out : (ℕ → Bool) → ℕ → ℕ → ℕ → (ℕ → ℕ) → (ℕ → ℕ) → Bool × (ℕ → ℕ)
copy_out mapped zero i d block got = (true, got)
copy_out mapped (suc m) i d block got =
    let rest = copy_out mapped m (i + 1) (d + 1) block (update got i (block d)) in
    if mapped i then rest else (false, got)

-- what the loop of writei ends with: `tot`, `off`, the block numbers and the blocks
abbrev pub WriteOut : Type 0
WriteOut = ℕ × ℕ × Addrs × Fs

-- a round of that loop on the block that bmap gave, for `m` bytes; `next` is the rest of the loop
pub write_step :
    (ℕ → Option ℕ) → ℕ → ℕ → ℕ → (Addrs → Fs → Run WriteOut) → ℕ × Addrs × Fs → Run WriteOut
write_step user m tot off next (b, addrs, s) =
    let (good, block) = copy_in user m tot (off % bsize) (s.bytes b) in
    let t : Fs = record s { bytes = update s.bytes b block } in
    let rest = next addrs (record t { logged = b ∷ t.logged }) in
    if good then rest else ok (tot, off, addrs, t)

-- The `for` of writei. A round that goes on moves at least one byte.
pub write_loop : (ℕ → Option ℕ) → ℕ → ℕ → ℕ → ℕ → Addrs → Fs → Run WriteOut
write_loop user zero tot off n addrs s = stop out_of_fuel
write_loop user (suc k) tot off n addrs s =
    let m = min (n - tot) (bsize - off % bsize) in
    let next = λ (a : Addrs) (u : Fs). write_loop user k (tot + m) (off + m) n a u in
    let round = bmap addrs (off / bsize) s >>= write_step user m tot off next in
    if ltb tot n then round else ok (tot, off, addrs, s)

-- `none` for -1
pub writei : (ℕ → Option ℕ) → ℕ → ℕ → Inode → Fs → Run (Option ℕ × Inode × Fs)
writei user off n ip s =
    let end = (off + n) % 2 ^ 32 in
    if ltb ip.body.size off || ltb end off || ltb (maxfile * bsize) end
    then ok (none, ip, s)
    else (write_loop user (n + 1) 0 off n ip.body.addrs s >>= λ (tot, off', addrs, t).
        let size = if ltb ip.body.size off' then off' else ip.body.size in
        let ip' : Inode = record ip { body = record ip.body { size = size; addrs = addrs } } in
        ok (some tot, ip', iupdate ip' t))

-- what the loop of readi ends with: `tot`, or `none` for -1, the caller's memory, and the file
abbrev pub ReadOut : Type 0
ReadOut = Option ℕ × (ℕ → ℕ) × Addrs × Fs

pub read_step :
    (ℕ → Bool)
    → ℕ
    → ℕ
    → ℕ
    → (ℕ → ℕ)
    → ((ℕ → ℕ) → Addrs → Fs → Run ReadOut)
    → ℕ × Addrs × Fs
    → Run ReadOut
read_step mapped m tot off got next (b, addrs, s) =
    let (good, got') = copy_out mapped m tot (off % bsize) (s.bytes b) got in
    let rest = next got' addrs s in if good then rest else ok (none, got', addrs, s)

-- the `for` of readi
pub read_loop : (ℕ → Bool) → ℕ → ℕ → ℕ → ℕ → (ℕ → ℕ) → Addrs → Fs → Run ReadOut
read_loop mapped zero tot off n got addrs s = stop out_of_fuel
read_loop mapped (suc k) tot off n got addrs s =
    let m = min (n - tot) (bsize - off % bsize) in
    let next = λ (g : ℕ → ℕ) (a : Addrs) (u : Fs). read_loop mapped k (tot + m) (off + m) n g a u in
    let round = bmap addrs (off / bsize) s >>= read_step mapped m tot off got next in
    if ltb tot n then round else ok (some tot, got, addrs, s)

pub readi : (ℕ → Bool) → ℕ → ℕ → (ℕ → ℕ) → Inode → Fs → Run (Option ℕ × (ℕ → ℕ) × Inode × Fs)
readi mapped off n got ip s =
    let end = (off + n) % 2 ^ 32 in
    let n' = if ltb ip.body.size end then ip.body.size - off else n in
    if ltb ip.body.size off || ltb end off
    then ok (some 0, got, ip, s)
    else (read_loop mapped (n' + 1) 0 off n' got ip.body.addrs s >>= λ (r, got', addrs, t).
        ok (r, got', record ip { body = record ip.body { addrs = addrs } }, t))
