-- ===== src/Fs/Content/Writei.antt =====
-- `writei` (kernel/fs.c) as a whole: the file, its size, and its copy on the disk.
use io_scheduling.Prelude.{
  ℕ, ◌+◌, ◌-◌, ◌/◌, ◌%◌, ◌^◌, ◌≤◌, ◌<◌, ◌≡◌, ◌≢◌, ◌∙◌, sym, ap, subst, arith, ltb, if◌then◌else◌,
  Run, ok, stop, panic, ◌>>=◌, Option, some,
}
use io_scheduling.Fs.{Fs, Addrs}
use io_scheduling.Fs.Bitmap.{is_used}
use io_scheduling.Fs.Content.{bsize, Inode, WriteOut, write_loop, writei, iupdate}
use io_scheduling.Fs.Content.Layout.{lookup, byte, IsFile, Extends}
use io_scheduling.Fs.Content.Holes.{span, Short}
use io_scheduling.Fs.Content.Write.{at, splice, Wrote, write_loop-Wrote}

abbrev pub max : ℕ → ℕ → ℕ
max a b = if ltb a b then b else a

-- What a write of the bytes `g 0`, ..., `g (n - 1)` at `off` answers: the file has the bytes there and
-- its old ones elsewhere, it has grown to hold them, no block of the place is missing, and its inode is
-- on the disk; or too few blocks are free.
unfoldable pub Written : ℕ → ℕ → (ℕ → ℕ) → Inode → Fs → Run (Option ℕ × Inode × Fs) → Type 0
Written off n g ip s (ok (r, ip', t)) =
    (r ≡ some n)
    × (ip'.body.size ≡ max ip.body.size (off + n))
    × IsFile ip'.body.addrs t
    × Extends s t
    × (t.dinode ip.inum ≡ ip'.body)
    × ((p : ℕ) → p < span → at ip'.body.addrs t p ≡ splice off n g (at ip.body.addrs s) p)
    × ((p : ℕ) → off ≤ p → p < off + n → lookup ip'.body.addrs t (p / bsize) ≢ 0)
Written off n g ip s (stop e) = (e ≡ panic) × Short off n ip.body.addrs s

finish : Inode → ℕ × ℕ × Addrs × Fs → Run (Option ℕ × Inode × Fs)
finish ip (tot, off', addrs, t) =
    let size = if ltb ip.body.size off' then off' else ip.body.size in
    let ip' : Inode = record ip { body = record ip.body { size = size; addrs = addrs } } in
    ok (some tot, ip', iupdate ip' t)

finish-Written :
    (off n : ℕ) (g : ℕ → ℕ) (ip : Inode) (s : Fs) (r : Run WriteOut)
    → Wrote 0 off n g ip.body.addrs s r
    → Written off n g ip s (r >>= finish ip)
unfolding Wrote Written finish iupdate byte lookup is_used
finish-Written off n g ip s (stop e) h = h
finish-Written off n g ip s (ok (tot, off', addrs, t)) (a, b, f, x, h, holes, all) = (
  ap some (omega arith),
  ground (arith, b),
  record {
    boot = f.boot;
    used = f.used;
    indirect = f.indirect;
    apart = f.apart;
    distinct = f.distinct;
  },
  record { size = x.size; used = x.used },
  ground arith,
  h,
  all,
)

-- writei of bytes that the caller has, at a place inside a well-formed file or at its end, up to the
-- largest size of a file: it answers their number, the file then has them there and keeps all other
-- bytes, is as large as it has to be, and is well formed, blocks in use stay in use, the inode on
-- the disk is the one in memory, and the file has a block for each of the bytes; or it panics, and
-- that only where the file has no block for one of the bytes, and fewer blocks are free than the
-- bytes lie in (plus one for the indirect block, where the file has none).
pub writei_correct :
    (user : ℕ → Option ℕ) (off n : ℕ) (g : ℕ → ℕ) (ip : Inode) (s : Fs)
    → IsFile ip.body.addrs s
    → off ≤ ip.body.size
    → off + n ≤ span
    → ((j : ℕ) → j < n → user j ≡ some (g j))
    → Written off n g ip s (writei user off n ip s)
unfolding writei finish
writei_correct user off n g ip s f inside fits all =
    let end : (off + n) % 2 ^ 32 ≡ off + n = omega arith in
    let all_of_n : n - 0 ≡ n = omega arith in
    let r : writei user off n ip s
        ≡ (write_loop user (n + 1) 0 off n ip.body.addrs s >>= finish ip) =
      ground (arith, end) in
    subst (Written off n g ip s) (sym r) (
      finish-Written off n g ip s (write_loop user (n + 1) 0 off n ip.body.addrs s) (
        subst
          (λ x. Wrote 0 off x g ip.body.addrs s (write_loop user (n + 1) 0 off n ip.body.addrs s))
          all_of_n
          (write_loop-Wrote user (n + 1) 0 off n g ip.body.addrs s f (omega arith) (omega arith)
            (omega arith) (λ j l. ap user (omega arith) ∙ all j (omega arith)))))
