-- ===== src/Fs/Directory/Dirlookup.antt =====
-- `dirlookup` (kernel/fs.c) as a whole: the entry, and its inode in the table.
use io_scheduling.Prelude.{
  ℕ, zero, suc, ◌+◌, ◌/◌, ◌%◌, true, false, ◌≤◌, ◌<◌, ◌≡◌, ◌≢◌, sym, subst, refl, arith, ◌⊎◌, inl,
  inr, Run, ok, stop, panic, ◌>>=◌, Option, none, some, ℕ_discrete,
}
use io_scheduling.Fs.{Fs}
use io_scheduling.Fs.Content.{bsize, Inode}
use io_scheduling.Fs.Content.Layout.{lookup, IsFile}
use io_scheduling.Fs.Content.Holes.{span}
use io_scheduling.Fs.Content.Write.{at}
use io_scheduling.Fs.Inodes.{Itable, IsUnique, Got, iget, iget_correct, ninode}
use io_scheduling.Fs.Directory.{
  t_dir, entry_size, dirsiz, entry_inum, entry_name, namecmp, DirOut, lookup_loop, dirlookup,
}
use io_scheduling.Fs.Directory.Lookup.{Looked, has_name, entry_at, lookup_loop-Looked}

abbrev pub LookupOut : Type 0
LookupOut = Option (ℕ × ℕ) × Inode × Fs × Itable

-- The names are the same up to a NUL or the end.
abbrev SameName : (ℕ → ℕ) → (ℕ → ℕ) → Type 0
SameName p q = (i : ℕ) → i < dirsiz → ((j : ℕ) → j < i → p j ≢ 0) → p i ≡ q i

-- the same for the `n` bytes from place `i` on
abbrev SameRest : ℕ → ℕ → (ℕ → ℕ) → (ℕ → ℕ) → Type 0
SameRest n i p q = (k : ℕ) → i ≤ k → k < i + n → ((j : ℕ) → i ≤ j → j < k → p j ≢ 0) → p k ≡ q k

namecmp-SameRest :
    (n i : ℕ) (p q : ℕ → ℕ)
    → ((namecmp n i p q ≡ true) → SameRest n i p q) × (SameRest n i p q → namecmp n i p q ≡ true)
unfolding namecmp
namecmp-SameRest zero i p q = ((λ h k g l z. absurd (omega arith)), λ h. refl)
namecmp-SameRest (suc n) i p q =
    let (to, from) = namecmp-SameRest n (i + 1) p q in
    elim (ℕ_discrete (p i) (q i)) [
      | no ne ↦ (
        (λ h. absurd (ground (arith, h, ne))),
        λ h. absurd (ne (h i (omega arith) (omega arith) (λ j g l. absurd (omega arith)))),
      )
      | yes e ↦ (elim (ℕ_discrete (p i) 0) [
        | yes end ↦ (
          (λ h k g l z. elim (ℕ_discrete k i) [
            | yes y ↦ rw y e
            | no d ↦ absurd (z i (omega arith) (omega arith) end)
          ]),
          λ h. ground (arith, e, end),
        )
        | no go ↦ (
          (λ h k g l z. elim (ℕ_discrete k i) [
            | yes y ↦ rw y e
            | no d ↦
                to (ground (arith, h, e, go)) k (omega arith) (omega arith)
                  (λ j g' l'. z j (omega arith) l')
          ]),
          λ h.
              (let rest : namecmp n (i + 1) p q ≡ true = from (λ k g l z.
                  h k (omega arith) (omega arith) (λ j g' l'. elim (ℕ_discrete j i) [
                    | yes y ↦ rw y go
                    | no d ↦ z j (omega arith) l'
                  ])) in
                ground (arith, e, rest)),
        )
      ])
    ]

-- An entry is in use and has this name.
abbrev HasName : (ℕ → ℕ) → (ℕ → ℕ) → Type 0
HasName name de = (entry_inum de ≢ 0) × SameName name (entry_name de)

has_name-HasName : (name de : ℕ → ℕ) → has_name name de ≡ true → HasName name de
has_name-HasName name de h =
    let same : namecmp dirsiz 0 name (entry_name de) ≡ true = ground (arith, h) in
    let rest = (namecmp-SameRest dirsiz 0 name (entry_name de)).0 same in
    ((λ z. absurd (ground (arith, h, z))), λ i l z. rest i (omega arith) (omega arith) (λ j g. z j))

has_name-other : (name de : ℕ → ℕ) → has_name name de ≡ false → ¬ (HasName name de)
has_name-other name de h = λ (used, same).
    let rest : namecmp dirsiz 0 name (entry_name de) ≡ true =
      (namecmp-SameRest dirsiz 0 name (entry_name de)).1
        (λ k g l z. same k (omega arith) (λ j m. z j (omega arith) m)) in
    ground (arith, h, used, rest)

-- the bytes and the size of the directory are as before
abbrev Stays : Inode → Fs → Inode → Fs → Type 0
Stays dp s dp' t =
    IsFile dp'.body.addrs t
    × (dp'.body.size ≡ dp.body.size)
    × ((p : ℕ) → p < span → at dp'.body.addrs t p ≡ at dp.body.addrs s p)

-- What dirlookup answers: the first entry with the name, and the entry of the table of inodes for its
-- inode; or that no entry has the name; or a panic: it is not a directory, it has a hole, or all
-- entries of the table have references.
unfoldable pub Resolved : ℕ → (ℕ → ℕ) → Inode → Fs → Itable → Run LookupOut → Type 0
Resolved dev name dp s table (ok (some (i, off), dp', t, table')) =
    (off < dp.body.size)
    × (off % entry_size ≡ 0)
    × HasName name (entry_at (at dp.body.addrs s) off)
    × ((o : ℕ) → o < off → o % entry_size ≡ 0 → ¬ (HasName name (entry_at (at dp.body.addrs s) o)))
    × Stays dp s dp' t
    × Got dev (entry_inum (entry_at (at dp.body.addrs s) off)) table (ok (i, table'))
Resolved dev name dp s table (ok (none, dp', t, table')) =
    ((o : ℕ)
      → o < dp.body.size
      → o % entry_size ≡ 0
      → ¬ (HasName name (entry_at (at dp.body.addrs s) o)))
    × Stays dp s dp' t
    × (table' ≡ table)
Resolved dev name dp s table (stop e) =
    (e ≡ panic)
    × ((dp.body.type ≢ t_dir)
        ⊎ (((p : ℕ) × (p < dp.body.size) × (lookup dp.body.addrs s (p / bsize) ≡ 0))
            ⊎ ((j : ℕ) → j < ninode → table.ref j ≢ 0)))

with_entry :
    (dev inum off : ℕ) (name : ℕ → ℕ) (dp dp' : Inode) (s t : Fs) (table : Itable)
    (r : Run (ℕ × Itable))
    → Looked name 0 dp s (ok (some (inum, off), dp', t))
    → Got dev inum table r
    → Resolved dev name dp s table (r >>= λ (i, table'). ok (some (i, off), dp', t, table'))
unfolding Resolved Got Looked
with_entry dev inum off name dp dp' s t table (ok (i, table')) (g, l, a, e, h, before, f, z, k)
      got =
    (
      l,
      a,
      has_name-HasName name (entry_at (at dp.body.addrs s) off) h,
      λ o l' a'.
          has_name-other name (entry_at (at dp.body.addrs s) o) (before o (omega arith) l' a'),
      (f, z, k),
      subst (λ x. Got dev x table (ok (i, table'))) e got,
    )
with_entry dev inum off name dp dp' s t table (stop e) h (p, all) = (p, inr (inr all))

with_result :
    (dev : ℕ) (name : ℕ → ℕ) (dp : Inode) (s : Fs) (table : Itable) (r : Run DirOut)
    → IsUnique table
    → Looked name 0 dp s r
    → Resolved dev name dp s table (
        r >>= λ (found, dp', t). elim found [
          | none ↦ ok (none, dp', t, table)
          | some (inum, off) ↦
              (iget dev inum table >>= λ (i, table'). ok (some (i, off), dp', t, table'))
        ])
unfolding Resolved Looked
with_result dev name dp s table (stop e) u (p, (o, g, l, hole)) = (p, inr (inl (o, l, hole)))
with_result dev name dp s table (ok (none, dp', t)) u (all, f, z, k) = (
  (λ o l a. has_name-other name (entry_at (at dp.body.addrs s) o) (all o (omega arith) l a)),
  (f, z, k),
  refl,
)
with_result dev name dp s table (ok (some (inum, off), dp', t)) u h =
    with_entry dev inum off name dp dp' s t table (iget dev inum table) h
      (iget_correct dev inum table u)

-- dirlookup in a well-formed directory of whole entries that is not larger than the largest file,
-- with a table that has no inode twice: it finds the first entry in use whose name is the given one,
-- up to a NUL or 14 bytes, and gives the entry of its inode in the table with one reference more; it
-- answers 0 only where no entry in use has the name; the bytes and the size of the directory stay. A
-- panic comes only from a file that is no directory, a hole in it, or a table of inodes in which all
-- entries have references.
pub dirlookup_correct :
    (dev : ℕ) (name : ℕ → ℕ) (dp : Inode) (s : Fs) (table : Itable)
    → IsFile dp.body.addrs s
    → dp.body.size ≤ span
    → dp.body.size % entry_size ≡ 0
    → IsUnique table
    → Resolved dev name dp s table (dirlookup dev name dp (s, table))
unfolding dirlookup Resolved
dirlookup_correct dev name dp s table f fits whole u = elim (ℕ_discrete dp.body.type t_dir) [
  | no ne ↦
      (let r : dirlookup dev name dp (s, table) ≡ stop panic = ground arith in
        subst (Resolved dev name dp s table) (sym r) (refl, inl ne))
  | yes e ↦
      (let finish : DirOut → Run LookupOut = λ (found, dp', t). elim found [
        | none ↦ ok (none, dp', t, table)
        | some (inum, off) ↦
            (iget dev inum table >>= λ (i, table'). ok (some (i, off), dp', t, table'))
      ] in
        let loop = lookup_loop (dp.body.size + 1) 0 name dp s in
        let r : dirlookup dev name dp (s, table) ≡ (loop >>= finish) = ground arith in
        subst (Resolved dev name dp s table) (sym r) (
          with_result dev name dp s table loop u (
            lookup_loop-Looked (dp.body.size + 1) 0 name dp s f fits whole refl (omega arith)
              (omega arith))))
]
