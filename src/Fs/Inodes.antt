-- ===== src/Fs/Inodes.antt =====
-- The table of inodes in memory (kernel/fs.c, `iget` and `idup`).
use io_scheduling.Prelude.{
  ℕ, zero, suc, ◌+◌, ◌<◌, ◌≡◌, ◌≢◌, subst, refl, arith, Bool, true, false, ltb, ◌==◌, ◌&&◌,
  if◌then◌else◌, update, ℕ_discrete, Option, none, some, Run, ok, stop, panic, if_elim,
}

-- NINODE
abbrev pub ninode : ℕ
ninode = 50

-- `itable`, without what is read from the disk
pub record Itable : Type 0 where
  pub dev : ℕ → ℕ
  pub inum : ℕ → ℕ
  pub ref : ℕ → ℕ
  pub valid : ℕ → Bool

abbrev pub is_inode : ℕ → ℕ → Itable → ℕ → Bool
is_inode dev inum s i = ltb 0 (s.ref i) && s.dev i == dev && s.inum i == inum

abbrev is_none : Option ℕ → Bool
is_none none = true
is_none (some _) = false

-- the `for` of iget, with `k` entries left: the entry found, and the value of `empty`
pub iget_loop : ℕ → ℕ → Option ℕ → ℕ → ℕ → Itable → Option ℕ × Option ℕ
iget_loop zero i empty dev inum s = (none, empty)
iget_loop (suc k) i empty dev inum s =
    let empty' = if is_none empty && s.ref i == 0 then some i else empty in
    let rest = iget_loop k (i + 1) empty' dev inum s in
    if is_inode dev inum s i then (some i, empty) else rest

-- an entry that is taken for another inode
pub reuse : ℕ → ℕ → ℕ → Itable → Itable
reuse dev inum i s = record s {
  dev = update s.dev i dev;
  inum = update s.inum i inum;
  ref = update s.ref i 1;
  valid = update s.valid i false;
}

pub idup : ℕ → Itable → Itable
idup i s = record s { ref = update s.ref i (s.ref i + 1) }

pub iget : ℕ → ℕ → Itable → Run (ℕ × Itable)
iget dev inum s =
    let (hit, empty) = iget_loop ninode 0 none dev inum s in
    elim hit [
      | some i ↦ ok (i, idup i s)
      | none ↦ elim empty [ some i ↦ ok (i, reuse dev inum i s) | none ↦ stop panic ]
    ]

-- what the loop has found among the first `n` entries
pub Scanned : ℕ → ℕ → ℕ → Itable → Option ℕ × Option ℕ → Type 0
Scanned n dev inum s (some i, empty) = (i < n) × (is_inode dev inum s i ≡ true)
Scanned n dev inum s (none, some i) =
    ((j : ℕ) → j < n → is_inode dev inum s j ≡ false)
    × (i < n)
    × (s.ref i ≡ 0)
    × ((j : ℕ) → j < i → s.ref j ≢ 0)
Scanned n dev inum s (none, none) =
    ((j : ℕ) → j < n → is_inode dev inum s j ≡ false) × ((j : ℕ) → j < n → s.ref j ≢ 0)

extend :
    (i j : ℕ) (dev inum : ℕ) (s : Itable)
    → ((j : ℕ) → j < i → is_inode dev inum s j ≡ false)
    → is_inode dev inum s i ≡ false
    → j < i + 1
    → is_inode dev inum s j ≡ false
extend i j dev inum s all miss f = elim (ℕ_discrete j i) [
  | yes e ↦ rw e miss
  | no ne ↦ all j (omega arith)
]

step :
    (i dev inum : ℕ) (empty : Option ℕ) (s : Itable)
    → is_inode dev inum s i ≡ false
    → Scanned i dev inum s (none, empty)
    → Scanned (i + 1) dev inum s (none, if is_none empty && s.ref i == 0 then some i else empty)
unfolding Scanned
step i dev inum (some e) s miss (all, f, z, before) =
    (λ j g. extend i j dev inum s all miss g, omega arith, z, before)
step i dev inum none s miss (all, before) =
    if_elim (λ r. Scanned (i + 1) dev inum s (none, r)) (s.ref i == 0)
      (λ z. (λ j g. extend i j dev inum s all miss g, omega arith, ground arith, before))
      (λ nz. (
        λ j g. extend i j dev inum s all miss g,
        λ j g. elim (ℕ_discrete j i) [
          | yes e ↦ rw e (λ z. absurd (ground arith))
          | no ne ↦ before j (omega arith)
        ],
      ))

iget_loop_lem :
    (k i n : ℕ) (empty : Option ℕ) (dev inum : ℕ) (s : Itable)
    → n ≡ i + k
    → Scanned i dev inum s (none, empty)
    → Scanned n dev inum s (iget_loop k i empty dev inum s)
unfolding iget_loop Scanned
iget_loop_lem zero i n empty dev inum s e h =
    let e' : i ≡ n = omega arith in subst (λ m. Scanned m dev inum s (none, empty)) e' h
iget_loop_lem (suc k) i n empty dev inum s e h =
    let empty' = if is_none empty && s.ref i == 0 then some i else empty in
    if_elim (Scanned n dev inum s) (is_inode dev inum s i) (λ hit. (omega arith, hit))
      (λ miss.
        iget_loop_lem k (i + 1) n empty' dev inum s (omega arith) (step i dev inum empty s miss h))

-- No inode is in two entries with references.
unfoldable pub IsUnique : Itable → Type 0
IsUnique s =
    (i j : ℕ)
    → i < ninode
    → j < ninode
    → 0 < s.ref i
    → 0 < s.ref j
    → s.dev i ≡ s.dev j
    → s.inum i ≡ s.inum j
    → i ≡ j

-- what iget answers
unfoldable pub Got : ℕ → ℕ → Itable → Run (ℕ × Itable) → Type 0
Got dev inum s (ok (i, t)) =
    (i < ninode)
    × (t.dev i ≡ dev)
    × (t.inum i ≡ inum)
    × (t.ref i ≡ s.ref i + 1)
    × ((j : ℕ) → j ≢ i → t.ref j ≡ s.ref j)
    × IsUnique t
Got dev inum s (stop e) = (e ≡ panic) × ((j : ℕ) → j < ninode → s.ref j ≢ 0)

-- iget gives the entry of the inode with one reference more, found or newly taken, and leaves the
-- other entries their references; no inode comes to be in two entries. It panics only where all
-- entries have references.
pub iget_correct : (dev inum : ℕ) (s : Itable) → IsUnique s → Got dev inum s (iget dev inum s)
unfolding iget idup reuse Scanned Got IsUnique
iget_correct dev inum s u = answer (iget_loop ninode 0 none dev inum s) (
    iget_loop_lem ninode 0 ninode none dev inum s refl
      ((λ j f. absurd (omega arith)), (λ j f. absurd (omega arith))))
  where
    answer :
        (r : Option ℕ × Option ℕ)
        → Scanned ninode dev inum s r
        → Got dev inum s (elim r.0 [
          | some i ↦ ok (i, idup i s)
          | none ↦ elim r.1 [ some i ↦ ok (i, reuse dev inum i s) | none ↦ stop panic ]
        ])
    answer (some i, empty) (low, hit) = (
      low,
      ground arith,
      ground arith,
      ground arith,
      λ j ne. ground arith,
      λ a c p q f g e e'. ground (arith, u a c p q),
    )
    answer (none, some i) (all, low, free, before) = (
      low,
      ground arith,
      ground arith,
      ground arith,
      λ j ne. ground arith,
      λ a c p q f g e e'. ground (arith, u a c p q, all a p, all c q),
    )
    answer (none, none) (all, before) = (refl, before)
