-- ===== src/Fs/Directory/Lookup.antt =====
-- The loop of `dirlookup` (kernel/fs.c) on the entries of a directory.
use io_scheduling.Prelude.{
  ℕ, zero, suc, ◌+◌, ◌-◌, ◌/◌, ◌%◌, ◌^◌, ◌≤◌, ◌<◌, ◌≡◌, ◌∙◌, sym, ap, subst, refl, arith, Bool,
  true, false, not, ◌==◌, ◌&&◌, inl, inr, ℕ_discrete, dec_lt, Run, ok, stop, panic, ◌>>=◌, Option,
  none, some, Bool-cases,
}
use io_scheduling.Fs.{Fs}
use io_scheduling.Fs.Content.{bsize, Inode, readi}
use io_scheduling.Fs.Content.Layout.{blocks, lookup, IsFile}
use io_scheduling.Fs.Content.Holes.{span, Short}
use io_scheduling.Fs.Content.Write.{at}
use io_scheduling.Fs.Content.Readi.{Returned, within, readi_correct}
use io_scheduling.Fs.Directory.{
  namecmp, dirsiz, entry_size, entry_inum, entry_name, is_whole, DirOut, lookup_step, lookup_loop,
}

namecmp_cong :
    (n i : ℕ) (p q q' : ℕ → ℕ)
    → ((j : ℕ) → j < i + n → q j ≡ q' j)
    → namecmp n i p q ≡ namecmp n i p q'
unfolding namecmp
namecmp_cong zero i p q q' h = refl
namecmp_cong (suc n) i p q q' h =
    let rest = namecmp_cong n (i + 1) p q q' (λ j l. h j (omega arith)) in
    let now = h i (omega arith) in ground (arith, now, rest)

-- the entry at `off` is in use and has this name
abbrev pub has_name : (ℕ → ℕ) → (ℕ → ℕ) → Bool
has_name name de = not (entry_inum de == 0) && namecmp dirsiz 0 name (entry_name de)

has_name_cong :
    (name de de' : ℕ → ℕ)
    → ((j : ℕ) → j < entry_size → de j ≡ de' j)
    → has_name name de ≡ has_name name de'
has_name_cong name de de' h =
    let c =
      namecmp_cong dirsiz 0 name (entry_name de) (entry_name de')
        (λ j l. h (j + 2) (omega arith)) in
    ground (arith, h 0 (omega arith), h 1 (omega arith), c)

abbrev pub entry_at : (ℕ → ℕ) → ℕ → ℕ → ℕ
entry_at bytes off j = bytes (off + j)

-- What a look-up from `off` on answers for a directory with these bytes: the first entry in use that
-- has the name, or that there is none; the bytes and the size of the directory stay; or a block of the
-- directory is missing.
unfoldable pub Looked : (ℕ → ℕ) → ℕ → Inode → Fs → Run DirOut → Type 0
Looked name off dp s (ok (some (inum, found), dp', t)) =
    (off ≤ found)
    × (found < dp.body.size)
    × (found % entry_size ≡ 0)
    × (inum ≡ entry_inum (entry_at (at dp.body.addrs s) found))
    × (has_name name (entry_at (at dp.body.addrs s) found) ≡ true)
    × ((o : ℕ)
        → off ≤ o
        → o < found
        → o % entry_size ≡ 0
        → has_name name (entry_at (at dp.body.addrs s) o) ≡ false)
    × IsFile dp'.body.addrs t
    × (dp'.body.size ≡ dp.body.size)
    × ((p : ℕ) → p < span → at dp'.body.addrs t p ≡ at dp.body.addrs s p)
Looked name off dp s (ok (none, dp', t)) =
    ((o : ℕ)
      → off ≤ o
      → o < dp.body.size
      → o % entry_size ≡ 0
      → has_name name (entry_at (at dp.body.addrs s) o) ≡ false)
    × IsFile dp'.body.addrs t
    × (dp'.body.size ≡ dp.body.size)
    × ((p : ℕ) → p < span → at dp'.body.addrs t p ≡ at dp.body.addrs s p)
Looked name off dp s (stop e) =
    (e ≡ panic)
    × ((p : ℕ) × (off ≤ p) × (p < dp.body.size) × (lookup dp.body.addrs s (p / bsize) ≡ 0))

-- the rest of the loop, after a round at `off` that has not found the name
module _ (name : ℕ → ℕ) (off : ℕ) (dp dp' : Inode) (s t : Fs) (fits : dp.body.size ≤ span)
    (whole : dp.body.size % entry_size ≡ 0) (size : dp'.body.size ≡ dp.body.size)
    (holes : (cn : ℕ)
      → cn < blocks
      → lookup dp'.body.addrs t cn ≡ 0
      → lookup dp.body.addrs s cn ≡ 0)
    (same : (p : ℕ) → p < span → at dp'.body.addrs t p ≡ at dp.body.addrs s p)
    (aligned : off % entry_size ≡ 0) (low : off < dp.body.size)
    (miss : has_name name (entry_at (at dp.body.addrs s) off) ≡ false) where
  names_same :
      (o : ℕ)
      → o < dp.body.size
      → o % entry_size ≡ 0
      → has_name name (entry_at (at dp'.body.addrs t) o)
        ≡ has_name name (entry_at (at dp.body.addrs s) o)
  names_same o l a =
      has_name_cong name (entry_at (at dp'.body.addrs t) o) (entry_at (at dp.body.addrs s) o)
        (λ j m. same (o + j) (omega arith))

  Looked-more : (r : Run DirOut) → Looked name (off + entry_size) dp' t r → Looked name off dp s r
  unfolding Looked
  Looked-more (stop e) (p, (o, g, l, hole)) =
      (p, (o, omega arith, omega arith, holes (o / bsize) (omega arith) hole))
  Looked-more (ok (none, d, u)) (all, f, z, k) = (
    λ o g l a. elim (ℕ_discrete o off) [
      | yes e ↦ ap (λ x. has_name name (entry_at (at dp.body.addrs s) x)) e ∙ miss
      | no ne ↦ sym (names_same o l a) ∙ all o (omega arith) (omega arith) a
    ],
    f,
    z ∙ size,
    λ p l. k p l ∙ same p l,
  )
  Looked-more (ok (some (inum, found), d, u)) (g, l, a, e, h, before, f, z, k) = (
    omega arith,
    omega arith,
    a,
    e ∙ ground (arith, same (found + 0) (omega arith), same (found + 1) (omega arith)),
    sym (names_same found (omega arith) a) ∙ h,
    λ o g' l' a'. elim (ℕ_discrete o off) [
      | yes e ↦ ap (λ x. has_name name (entry_at (at dp.body.addrs s) x)) e ∙ miss
      | no ne ↦ sym (names_same o (omega arith) a') ∙ before o (omega arith) l' a'
    ],
    f,
    z ∙ size,
    λ p l. k p l ∙ same p l,
  )

-- the round at `off`, on what readi gave
lookup_step-Looked :
    (name : ℕ → ℕ) (off : ℕ) (dp : Inode) (s : Fs) (next : Inode → Fs → Run DirOut)
    (r : Run (Option ℕ × (ℕ → ℕ) × Inode × Fs))
    → dp.body.size ≤ span
    → dp.body.size % entry_size ≡ 0
    → off % entry_size ≡ 0
    → off < dp.body.size
    → ((d : Inode) (t : Fs)
        → IsFile d.body.addrs t
        → d.body.size ≡ dp.body.size
        → Looked name (off + entry_size) d t (next d t))
    → Returned off entry_size (λ i. 0) dp s r
    → Looked name off dp s (r >>= lookup_step name off next)
unfolding Returned Looked lookup_step Short
lookup_step-Looked name off dp s next (stop e) fits whole aligned low rec
      (p, (few, (o, g, l, hole))) =
    (p, (o, g, omega arith, hole))
lookup_step-Looked name off dp s next (ok (n, de, d, t)) fits whole aligned low rec
      (a, k, z, f, same, x, ty, holes) =
    let here : (j : ℕ) → j < entry_size → de j ≡ entry_at (at dp.body.addrs s) off j = λ j l.
      let place : off + (j - 0) ≡ off + j = omega arith in
      k j ∙ ground (arith, ap (at dp.body.addrs s) place) in
    let names = has_name_cong name de (entry_at (at dp.body.addrs s) off) here in
    let good : is_whole n ≡ true = rw a refl in
    elim (Bool-cases (has_name name de)) [
      | inl hit ↦
          (let r : lookup_step name off next (n, de, d, t) ≡ ok (some (entry_inum de, off), d, t) =
              ground (arith, good, hit) in
            subst (Looked name off dp s) (sym r) (
              omega arith,
              low,
              aligned,
              ground (arith, here 0 (omega arith), here 1 (omega arith)),
              sym names ∙ hit,
              λ o g l a'. absurd (omega arith),
              f,
              z,
              same,
            ))
      | inr miss ↦
          (let r : lookup_step name off next (n, de, d, t) ≡ next d t =
              ground (arith, good, miss) in
            subst (Looked name off dp s) (sym r) (
              Looked-more name off dp d s t fits whole z holes same aligned low (sym names ∙ miss)
                (next d t) (rec d t f z)))
    ]

pub lookup_loop-Looked :
    (k off : ℕ) (name : ℕ → ℕ) (dp : Inode) (s : Fs)
    → IsFile dp.body.addrs s
    → dp.body.size ≤ span
    → dp.body.size % entry_size ≡ 0
    → off % entry_size ≡ 0
    → off ≤ dp.body.size
    → dp.body.size - off < k
    → Looked name off dp s (lookup_loop k off name dp s)
unfolding lookup_loop Looked
lookup_loop-Looked zero off name dp s f fits whole aligned le fuel = absurd (omega arith)
lookup_loop-Looked (suc k) off name dp s f fits whole aligned le fuel =
    elim (dec_lt off dp.body.size) [
      | no end ↦
          (let r : lookup_loop (suc k) off name dp s ≡ ok (none, dp, s) = ground arith in
            subst (Looked name off dp s) (sym r)
              ((λ o g l a. absurd (omega arith)), f, refl, λ p l. refl))
      | yes low ↦
          (let next : Inode → Fs → Run DirOut =
              λ d t. lookup_loop k ((off + entry_size) % 2 ^ 32) name d t in
            let read = readi (λ i. true) off entry_size (λ i. 0) dp s in
            let r : lookup_loop (suc k) off name dp s ≡ (read >>= lookup_step name off next) =
              ground arith in
            let no_wrap : (off + entry_size) % 2 ^ 32 ≡ off + entry_size = omega arith in
            let all : within dp.body.size off entry_size ≡ entry_size = ground arith in
            subst (Looked name off dp s) (sym r) (
              lookup_step-Looked name off dp s next read fits whole aligned low
                (λ d t f' z.
                  subst (λ x. Looked name (off + entry_size) d t (lookup_loop k x name d t))
                    (sym no_wrap)
                    (lookup_loop-Looked k (off + entry_size) name d t f' (omega arith) (omega arith)
                      (omega arith) (omega arith) (omega arith)))
                (subst (λ x. Returned off x (λ i. 0) dp s read) all
                  (readi_correct (λ i. true) off entry_size (λ i. 0) dp s f (omega arith) fits
                    (omega arith) (λ j l. refl)))))
    ]
