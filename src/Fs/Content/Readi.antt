-- ===== src/Fs/Content/Readi.antt =====
-- `readi` (kernel/fs.c) as a whole, and after a `writei`.
use io_scheduling.Prelude.{
  ℕ, ◌+◌, ◌-◌, ◌/◌, ◌%◌, ◌^◌, ◌≤◌, ◌<◌, ◌≡◌, ◌≢◌, ◌∙◌, sym, ap, subst, refl, arith, Bool, true, ltb,
  if◌then◌else◌, Run, ok, stop, panic, ◌>>=◌, Option, some,
}
use io_scheduling.Fs.{Fs, Addrs}
use io_scheduling.Fs.Content.{bsize, Inode, ReadOut, read_loop, readi, writei}
use io_scheduling.Fs.Content.Layout.{blocks, lookup, IsFile, Extends}
use io_scheduling.Fs.Content.Holes.{span, Short}
use io_scheduling.Fs.Content.Write.{at, splice}
use io_scheduling.Fs.Content.Writei.{Written, writei_correct}
use io_scheduling.Fs.Content.Read.{Got, read_loop-Got, received}

-- how many of `n` bytes at `off` a file has
abbrev pub within : ℕ → ℕ → ℕ → ℕ
within size off n = if ltb size (off + n) then size - off else n

-- What a read of `n` bytes at `off` answers: it gives those of them that the file has, and the file
-- stays; or a block for them is missing, and too few are free to add it.
unfoldable pub Returned :
    ℕ → ℕ → (ℕ → ℕ) → Inode → Fs → Run (Option ℕ × (ℕ → ℕ) × Inode × Fs) → Type 0
Returned off n got ip s (ok (r, got', ip', t)) =
    (r ≡ some n)
    × ((i : ℕ) → got' i ≡ received 0 n off (at ip.body.addrs s) got i)
    × (ip'.body.size ≡ ip.body.size)
    × IsFile ip'.body.addrs t
    × ((p : ℕ) → p < span → at ip'.body.addrs t p ≡ at ip.body.addrs s p)
    × Extends s t
    × (ip'.body.type ≡ ip.body.type)
    × ((cn : ℕ) → cn < blocks → lookup ip'.body.addrs t cn ≡ 0 → lookup ip.body.addrs s cn ≡ 0)
Returned off n got ip s (stop e) = (e ≡ panic) × Short off n ip.body.addrs s

finish_read : Inode → ReadOut → Run (Option ℕ × (ℕ → ℕ) × Inode × Fs)
finish_read ip (r, got', addrs, t) =
    ok (r, got', record ip { body = record ip.body { addrs = addrs } }, t)

finish_read-Returned :
    (off n : ℕ) (got : ℕ → ℕ) (ip : Inode) (s : Fs) (r : Run ReadOut)
    → Got 0 off n got ip.body.addrs s r
    → Returned off n got ip s (r >>= finish_read ip)
unfolding Got Returned finish_read
finish_read-Returned off n got ip s (stop e) h = h
finish_read-Returned off n got ip s (ok (r, got', addrs, t)) (a, h, f, x, k, holes) =
    (a ∙ ap some (omega arith), h, refl, f, k, x, refl, holes)

-- readi at a place inside a well-formed file that is not larger than the largest, of a number of
-- bytes with which the place does not overflow, into memory that the caller has: it answers how many
-- of the bytes the file has there, gives exactly them, and the bytes and the size of the file stay,
-- and it loses no block; or it panics, and that only where the file has no block for one of those
-- bytes, and fewer blocks are free than they lie in (plus one for the indirect block, where the file
-- has none).
pub readi_correct :
    (mapped : ℕ → Bool) (off n : ℕ) (got : ℕ → ℕ) (ip : Inode) (s : Fs)
    → IsFile ip.body.addrs s
    → off ≤ ip.body.size
    → ip.body.size ≤ span
    → off + n < 2 ^ 32
    → ((j : ℕ) → j < n → mapped j ≡ true)
    → Returned off (within ip.body.size off n) got ip s (readi mapped off n got ip s)
unfolding readi finish_read
readi_correct mapped off n got ip s f inside fits word all =
    let end : (off + n) % 2 ^ 32 ≡ off + n = omega arith in
    let n' = within ip.body.size off n in
    let low : n' ≤ n = ground arith in
    let high : off + n' ≤ span = ground arith in
    let all_of_n : n' - 0 ≡ n' = omega arith in
    let r : readi mapped off n got ip s
        ≡ (read_loop mapped (n' + 1) 0 off n' got ip.body.addrs s >>= finish_read ip) =
      ground (arith, end) in
    subst (Returned off n' got ip s) (sym r) (
      finish_read-Returned off n' got ip s (read_loop mapped (n' + 1) 0 off n' got ip.body.addrs s)
        (subst
          (λ x.
            Got 0 off x got ip.body.addrs s
              (read_loop mapped (n' + 1) 0 off n' got ip.body.addrs s))
          all_of_n
          (read_loop-Got mapped (n' + 1) 0 off n' got ip.body.addrs s f (omega arith) (omega arith)
            (omega arith) (λ j l. all j (omega arith)))))

-- what a read after a write answers
unfoldable pub Same : ℕ → ℕ → (ℕ → ℕ) → Addrs → Fs → Run (Option ℕ × (ℕ → ℕ) × Inode × Fs) → Type 0
Same off n g addrs s (ok (r, got', ip', t)) = (r ≡ some n) × ((j : ℕ) → j < n → got' j ≡ g j)
Same off n g addrs s (stop e) = (e ≡ panic) × Short off n addrs s

read_back :
    (off n : ℕ) (g got : ℕ → ℕ) (addrs : Addrs) (s t : Fs) (ip : Inode)
    (r : Run (Option ℕ × (ℕ → ℕ) × Inode × Fs))
    → off + n ≤ span
    → ((p : ℕ) → off ≤ p → p < off + n → lookup ip.body.addrs t (p / bsize) ≢ 0)
    → ((p : ℕ) → p < span → at ip.body.addrs t p ≡ splice off n g (at addrs s) p)
    → Returned off n got ip t r
    → Same off n g addrs s r
unfolding Returned Same Short
read_back off n g got addrs s t ip (stop e) fits all h (p, (few, (q, low, high, hole))) =
    absurd (all q low high hole)
read_back off n g got addrs s t ip (ok (r, got', ip', u)) fits all h
      (a, k, z, f, e, x', ty, holes) =
    (a, λ j l. k j ∙ ground (arith, h (off + (j - 0)) (omega arith)))

write_and_read :
    (mapped : ℕ → Bool) (off n : ℕ) (g got : ℕ → ℕ) (ip : Inode) (s : Fs)
    (w : Run (Option ℕ × Inode × Fs))
    → ip.body.size ≤ span
    → off + n ≤ span
    → ((j : ℕ) → j < n → mapped j ≡ true)
    → Written off n g ip s w
    → Same off n g ip.body.addrs s (w >>= λ (r, ip', t). readi mapped off n got ip' t)
unfolding Written Same
write_and_read mapped off n g got ip s (stop e) size fits all h = h
write_and_read mapped off n g got ip s (ok (r, ip', t)) size fits all (a, z, f, x, k, h, there) =
    let all_of_n : within ip'.body.size off n ≡ n = ground (arith, z) in
    let small : ip'.body.size ≤ span = ground (arith, z) in
    let inside : off ≤ ip'.body.size = ground (arith, z) in
    read_back off n g got ip.body.addrs s t ip' (readi mapped off n got ip' t) fits there h (
      subst (λ m. Returned off m got ip' t (readi mapped off n got ip' t)) all_of_n
        (readi_correct mapped off n got ip' t f inside small (omega arith) all))

-- For a well-formed file that is not larger than the largest: bytes that the caller has and that
-- writei has written at a place inside the file or at its end, up to the largest size, are read back
-- from there by readi, byte for byte, into memory that the caller has. Or one of the two panics, and
-- that only where the file had no block for one of the bytes, and fewer blocks were free than they
-- lie in (plus one for the indirect block, where the file has none).
pub readi-writei :
    (user : ℕ → Option ℕ) (mapped : ℕ → Bool) (off n : ℕ) (g got : ℕ → ℕ) (ip : Inode) (s : Fs)
    → IsFile ip.body.addrs s
    → off ≤ ip.body.size
    → ip.body.size ≤ span
    → off + n ≤ span
    → ((j : ℕ) → j < n → user j ≡ some (g j))
    → ((j : ℕ) → j < n → mapped j ≡ true)
    → Same off n g ip.body.addrs s
        (writei user off n ip s >>= λ (r, ip', t). readi mapped off n got ip' t)
readi-writei user mapped off n g got ip s f inside size fits all all' =
    write_and_read mapped off n g got ip s (writei user off n ip s) size fits all'
      (writei_correct user off n g ip s f inside fits all)
