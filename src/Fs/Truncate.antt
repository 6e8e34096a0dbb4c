-- ===== src/Fs/Truncate.antt =====
-- Giving the blocks of a file back (kernel/fs.c, `itrunc`).
pub mod Freed
pub mod Whole
use io_scheduling.Prelude.{ℕ, zero, suc, ◌+◌, ◌==◌, if◌then◌else◌, Run, ok, ◌>>=◌, update}
use io_scheduling.Fs.{Fs, Addrs, ndirect, nindirect, bfree}
use io_scheduling.Fs.Content.{Inode, iupdate}

-- the first `for`, with `k` direct blocks left
pub itrunc_direct : ℕ → ℕ → Addrs → Fs → Run (Addrs × Fs)
itrunc_direct zero i addrs s = ok (addrs, s)
itrunc_direct (suc k) i addrs s =
    let rest = itrunc_direct k (i + 1) addrs s in
    if addrs i == 0
    then rest
    else (bfree (addrs i) s >>= λ t. itrunc_direct k (i + 1) (update addrs i 0) t)

-- the second `for`, with `k` entries of the indirect block left
pub itrunc_indirect : ℕ → ℕ → ℕ → Fs → Run Fs
itrunc_indirect zero j block s = ok s
itrunc_indirect (suc k) j block s =
    let rest = itrunc_indirect k (j + 1) block s in
    if s.words block j == 0
    then rest
    else (bfree (s.words block j) s >>= λ t. itrunc_indirect k (j + 1) block t)

-- the `if` around it
pub itrunc_rest : Addrs × Fs → Run (Addrs × Fs)
itrunc_rest (addrs, s) =
    if addrs ndirect == 0
    then ok (addrs, s)
    else (itrunc_indirect nindirect 0 (addrs ndirect) s >>= λ t.
        bfree (addrs ndirect) t >>= λ u. ok (update addrs ndirect 0, u))

pub itrunc : Inode → Fs → Run (Inode × Fs)
itrunc ip s = itrunc_direct ndirect 0 ip.body.addrs s >>= itrunc_rest >>= λ (addrs, t).
    let ip' : Inode = record ip { body = record ip.body { size = 0; addrs = addrs } } in
    ok (ip', iupdate ip' t)
