-- ===== src/Fs/Content/Write.antt =====
-- `writei` (kernel/fs.c) on the bytes of a file.
use io_scheduling.Prelude.{
  ℕ, zero, suc, ◌+◌, ◌-◌, ◌/◌, ◌%◌, ◌≤◌, ◌<◌, ◌≡◌, ◌≢◌, ◌∙◌, sym, ap, subst, refl, arith, true,
  false, ltb, leb, ◌==◌, ◌&&◌, if◌then◌else◌, update, ℕ_discrete, dec_lt, Run, ok, stop, panic, ◌∷◌,
  ◌>>=◌, Option, some,
}
use io_scheduling.Fs.{Fs, Addrs, bmap}
use io_scheduling.Fs.Bitmap.{is_used}
use io_scheduling.Fs.Content.{bsize, min, copy_in, WriteOut, write_step, write_loop}
use io_scheduling.Fs.Content.Layout.{
  blocks, lookup, byte, IsFile, Extends, Grown, byte-Grown, byte-here,
}
use io_scheduling.Fs.Content.Count.{free_blocks_same}
use io_scheduling.Fs.Content.Holes.{span, Short, Short-first, Short-later, Filled, Grown-Filled}
use io_scheduling.Fs.Content.Given.{Extends-trans}
use io_scheduling.Fs.Content.Grow.{Grows, bmap-Grows}

-- the byte at position `p` of a file
abbrev pub at : Addrs → Fs → ℕ → ℕ
at addrs s p = byte addrs s (p / bsize) (p % bsize)

-- `old` with the bytes `g 0`, ..., `g (n - 1)` at `off`
abbrev pub splice : ℕ → ℕ → (ℕ → ℕ) → (ℕ → ℕ) → ℕ → ℕ
splice off n g old p = if leb off p && ltb p (off + n) then g (p - off) else old p

copy_in_lem :
    (user : ℕ → Option ℕ) (g : ℕ → ℕ) (m i d : ℕ) (block : ℕ → ℕ)
    → ((j : ℕ) → j < m → user (i + j) ≡ some (g j))
    → ((copy_in user m i d block).0 ≡ true)
      × ((j : ℕ) → (copy_in user m i d block).1 j ≡ splice d m g block j)
unfolding copy_in
copy_in_lem user g zero i d block all = (refl, λ j. ground arith)
copy_in_lem user g (suc m) i d block all =
    let first : user i ≡ some (g 0) = ground (arith, all 0 (omega arith)) in
    let (good, same) =
      copy_in_lem user (λ j. g (j + 1)) m (i + 1) (d + 1) (update block d (g 0))
        (λ j l. ground (arith, all (j + 1) (omega arith))) in
    rw (first, copy_in) (good, λ j. same j ∙ ground arith)

-- The file's block `bn`, which is on the disk at `b`, has got the bytes `block`.
module _ (bn b : ℕ) (addrs a' : Addrs) (s t : Fs) (f : IsFile addrs s) (low : bn < blocks)
    (g : Grown bn b addrs s a' t) (block : ℕ → ℕ) where
  abbrev stored : Fs
  stored = record t { bytes = update t.bytes b block; logged = b ∷ t.logged }

  stored-IsFile : IsFile a' stored
  unfolding lookup is_used
  stored-IsFile = record {
    boot = g.file.boot;
    used = g.file.used;
    indirect = g.file.indirect;
    apart = g.file.apart;
    distinct = g.file.distinct;
  }

  stored-Extends : Extends s stored
  unfolding is_used
  stored-Extends = record { size = g.extends.size; used = g.extends.used }

  stored-Filled : Filled bn addrs s a' stored
  unfolding lookup is_used
  stored-Filled =
      let h = Grown-Filled bn b addrs a' s t g in
      let free = free_blocks_same t stored (λ a. refl) refl in
      record { here = h.here; holes = h.holes; free = rw free h.free }

  lookup-stored : (cn : ℕ) → lookup a' stored cn ≡ lookup a' t cn
  unfolding lookup
  lookup-stored cn = refl

  byte-stored :
      (cn j : ℕ)
      → cn < blocks
      → byte a' stored cn j ≡ (if cn == bn then block j else byte addrs s cn j)
  unfolding byte
  byte-stored cn j l = elim (ℕ_discrete cn bn) [
    | yes e ↦ rw e (ground (arith, lookup-stored bn, g.here, g.there))
    | no ne ↦
        (let old = byte-Grown bn b addrs a' s t cn j f g l in
          let apart : lookup a' t cn ≢ b = λ z.
            ne (
              sym (g.file.distinct bn cn low l (λ y. g.there (sym g.here ∙ y)) (g.here ∙ sym z))) in
          ground (arith, lookup-stored cn, old, apart))
  ]

-- what the loop answers that has `left` bytes from `g` still to write at `off`
unfoldable pub Wrote : ℕ → ℕ → ℕ → (ℕ → ℕ) → Addrs → Fs → Run (ℕ × ℕ × Addrs × Fs) → Type 0
Wrote tot off left g addrs s (ok (tot', off', a', t)) =
    (tot' ≡ tot + left)
    × (off' ≡ off + left)
    × IsFile a' t
    × Extends s t
    × ((p : ℕ) → p < span → at a' t p ≡ splice off left g (at addrs s) p)
    × ((cn : ℕ) → cn < blocks → lookup a' t cn ≡ 0 → lookup addrs s cn ≡ 0)
    × ((p : ℕ) → off ≤ p → p < off + left → lookup a' t (p / bsize) ≢ 0)
Wrote tot off left g addrs s (stop e) = (e ≡ panic) × Short off left addrs s

Wrote-none :
    (tot off left : ℕ) (g : ℕ → ℕ) (addrs : Addrs) (s : Fs)
    → IsFile addrs s
    → left ≡ 0
    → Wrote tot off left g addrs s (ok (tot, off, addrs, s))
unfolding Wrote
Wrote-none tot off left g addrs s f e = (
  omega arith,
  omega arith,
  f,
  record { size = refl; used = λ a u. u },
  λ p l. ground arith,
  λ cn l z. z,
  λ p low high. absurd (omega arith),
)

-- one round of the loop, and what the rounds after it give
module _ (tot off left m : ℕ) (g : ℕ → ℕ) (addrs : Addrs) (s : Fs) (a' : Addrs) (u : Fs)
    (short : m ≤ left) (fits : off + left ≤ span) (edge : m < left → off % bsize + m ≡ bsize)
    (inside : off % bsize + m ≤ bsize) (ext : Extends s u)
    (filled : Filled (off / bsize) addrs s a' u)
    (wrote : (p : ℕ) → p < span → at a' u p ≡ splice off m g (at addrs s) p) where
  Wrote-round :
      (r : Run (ℕ × ℕ × Addrs × Fs))
      → Wrote (tot + m) (off + m) (left - m) (λ j. g (j + m)) a' u r
      → Wrote tot off left g addrs s r
  unfolding Wrote
  Wrote-round (stop e) (p, h) =
      (p, Short-later off left m (off / bsize) addrs a' s u fits short edge filled h)
  Wrote-round (ok (tot', off', a2, t)) (x, y, file, ext', h, holes, all) = (
    omega arith,
    omega arith,
    file,
    Extends-trans s u t ext ext',
    λ p l. ground (arith, h p l, wrote p l),
    λ cn l z. filled.holes cn l (holes cn l z),
    λ p low high. elim (dec_lt p (off + m)) [
      | no later ↦ all p (omega arith) (omega arith)
      | yes now ↦
          (let block : p / bsize ≡ off / bsize = omega arith in
            λ z. filled.here (holes (off / bsize) (omega arith) (sym (ap (lookup a2 t) block) ∙ z)))
    ],
  )

-- what a block write of `m` bytes at `off` makes of the file
at-stored :
    (off m p : ℕ) (g block : ℕ → ℕ) (addrs a' : Addrs) (s u : Fs) (old : ℕ)
    → off % bsize + m ≤ bsize
    → byte a' u (p / bsize) (p % bsize)
      ≡ (if p / bsize == off / bsize then block (p % bsize) else at addrs s p)
    → block (p % bsize) ≡ splice (off % bsize) m g (λ i. old) (p % bsize)
    → byte addrs s (off / bsize) (p % bsize) ≡ old
    → at a' u p ≡ splice off m g (at addrs s) p
at-stored off m p g block addrs a' s u old inside h k e =
    elim (ℕ_discrete (p / bsize) (off / bsize)) [
      | yes q ↦
          (let same : byte addrs s (p / bsize) (p % bsize) ≡ old =
              ap (λ x. byte addrs s x (p % bsize)) q ∙ e in
            let place : p - off ≡ p % bsize - off % bsize = omega arith in
            let low : leb off p ≡ leb (off % bsize) (p % bsize) = ground arith in
            let high : ltb p (off + m) ≡ ltb (p % bsize) (off % bsize + m) = ground arith in
            h ∙ ground (arith, q, k, same, place, low, high))
      | no q ↦
          (let out : (leb off p && ltb p (off + m)) ≡ false = ground arith in
            h ∙ ground (arith, q, out))
    ]

write_step-Wrote :
    (user : ℕ → Option ℕ) (m tot off left : ℕ) (g : ℕ → ℕ) (addrs : Addrs) (s : Fs)
    (next : Addrs → Fs → Run WriteOut) (r : Run (ℕ × Addrs × Fs))
    → IsFile addrs s
    → m ≤ left
    → 0 < left
    → off + left ≤ span
    → (m < left → off % bsize + m ≡ bsize)
    → off % bsize + m ≤ bsize
    → off / bsize < blocks
    → ((j : ℕ) → j < m → user (tot + j) ≡ some (g j))
    → ((a' : Addrs) (u : Fs)
        → IsFile a' u
        → Wrote (tot + m) (off + m) (left - m) (λ j. g (j + m)) a' u (next a' u))
    → Grows (off / bsize) addrs s r
    → Wrote tot off left g addrs s (r >>= write_step user m tot off next)
unfolding Wrote Grows write_step
write_step-Wrote user m tot off left g addrs s next (stop e) f short more fits edge inside low all
      rec (p, few, hole) =
    (p, Short-first off left addrs s more few hole)
write_step-Wrote user m tot off left g addrs s next (ok (b, a', t)) f short more fits edge inside
      low all rec h =
    let bn = off / bsize in
    let (good, same) = copy_in_lem user g m tot (off % bsize) (t.bytes b) all in
    let block = (copy_in user m tot (off % bsize) (t.bytes b)).1 in
    let u = stored bn b addrs a' s t f low h block in
    rw (good, ◌>>=◌, write_step)
      (Wrote-round tot off left m g addrs s a' u short fits edge inside
        (stored-Extends bn b addrs a' s t f low h block)
        (stored-Filled bn b addrs a' s t f low h block)
        (λ p l.
          at-stored off m p g block addrs a' s u (t.bytes b (p % bsize)) inside
            (byte-stored bn b addrs a' s t f low h block (p / bsize) (p % bsize) (omega arith))
            (same (p % bsize))
            (sym (byte-Grown bn b addrs a' s t bn (p % bsize) f h low)
              ∙ byte-here bn b addrs a' s t (p % bsize) h))
        (next a' u) (rec a' u (stored-IsFile bn b addrs a' s t f low h block)))

pub write_loop-Wrote :
    (user : ℕ → Option ℕ) (k tot off n : ℕ) (g : ℕ → ℕ) (addrs : Addrs) (s : Fs)
    → IsFile addrs s
    → tot ≤ n
    → n - tot < k
    → off + (n - tot) ≤ span
    → ((j : ℕ) → j < n - tot → user (tot + j) ≡ some (g j))
    → Wrote tot off (n - tot) g addrs s (write_loop user k tot off n addrs s)
unfolding write_loop
write_loop-Wrote user zero tot off n g addrs s f le fuel fits all = absurd (omega arith)
write_loop-Wrote user (suc k) tot off n g addrs s f le fuel fits all = elim (dec_lt tot n) [
  | no over ↦
      (let r : write_loop user (suc k) tot off n addrs s ≡ ok (tot, off, addrs, s) = ground arith in
        subst (Wrote tot off (n - tot) g addrs s) (sym r)
          (Wrote-none tot off (n - tot) g addrs s f (omega arith)))
  | yes more ↦
      (let m = min (n - tot) (bsize - off % bsize) in
        let short : m ≤ n - tot = ground arith in
        let some_left : 0 < m = ground arith in
        let left : n - (tot + m) ≡ n - tot - m = omega arith in
        let next = λ (a : Addrs) (u : Fs). write_loop user k (tot + m) (off + m) n a u in
        let r : write_loop user (suc k) tot off n addrs s
            ≡ (bmap addrs (off / bsize) s >>= write_step user m tot off next) =
          ground arith in
        subst (Wrote tot off (n - tot) g addrs s) (sym r) (
          write_step-Wrote user m tot off (n - tot) g addrs s next (bmap addrs (off / bsize) s) f
            short (omega arith) fits (λ l. ground arith) (ground arith) (omega arith)
            (λ j l. all j (omega arith))
            (λ a' u f'.
              subst (λ x. Wrote (tot + m) (off + m) x (λ j. g (j + m)) a' u (next a' u)) left
                (write_loop-Wrote user k (tot + m) (off + m) n (λ j. g (j + m)) a' u f'
                  (omega arith) (omega arith) (omega arith)
                  (λ j l. ap user (omega arith) ∙ all (j + m) (omega arith))))
            (bmap-Grows addrs (off / bsize) s f (omega arith))))
]
