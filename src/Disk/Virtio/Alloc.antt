-- ===== src/Disk/Virtio/Alloc.antt =====
-- `alloc_desc`, `free_desc` and `alloc3_desc` of kernel/virtio_disk.c.
use io_scheduling.Prelude.{
  ℕ, zero, suc, ◌+◌, ◌≤◌, ◌<◌, ◌≡◌, ◌≢◌, ◌⊎◌, inl, inr, refl, arith, Bool, true, false, Bool-cases,
  Option, none, some, List, [], ◌∷◌, ok, stop, panic, Returns, update, total, total-update,
  total_zero, total_last, dec_lt,
}
use io_scheduling.Disk.Virtio.{
  Disk, num, blank, wake_free, alloc_loop, alloc_desc, free_desc, free_all, alloc3_loop,
  alloc3_desc,
}

-- the state after alloc_desc took descriptor `i`
abbrev pub claim : ℕ → Disk → Disk
claim i s = record s { free = update s.free i false }

-- the state after free_desc gave descriptor `i` back
abbrev pub give_back : ℕ → Disk → Disk
give_back i s = record s {
  desc = update s.desc i blank;
  free = update s.free i true;
  events = wake_free ∷ s.events;
}

-- free_desc gives a descriptor back that is in use.
pub free_desc-ok :
    (i : ℕ) (s : Disk) → i < num → s.free i ≡ false → free_desc i s ≡ ok (give_back i s)
unfolding free_desc
free_desc-ok i s h e = ground arith

-- free_desc panics on an index outside the queue, and on a descriptor that is free.
pub free_desc-panic :
    (i : ℕ) (s : Disk) → (num ≤ i) ⊎ (s.free i ≡ true) → free_desc i s ≡ stop panic
unfolding free_desc
free_desc-panic i s h = ground arith

-- alloc_desc finds no descriptor because all are in use, or it takes one that is free.
Allocated : ℕ → ℕ → Disk → Option ℕ × Disk → Type 0
Allocated lo n s r =
    ((r ≡ (none, s)) × ((j : ℕ) → lo ≤ j → j < lo + n → s.free j ≡ false))
    ⊎ ((i : ℕ) × (r ≡ (some i, claim i s)) × (lo ≤ i) × (i < lo + n) × (s.free i ≡ true))

alloc_loop_lem : (k i : ℕ) (s : Disk) → Allocated i k s (alloc_loop k i s)
unfolding Allocated alloc_loop
alloc_loop_lem zero i s = inl (refl, λ j p q. absurd (omega arith))
alloc_loop_lem (suc k) i s = elim (Bool-cases (s.free i)) [
  | inl free ↦ inr (i, rw free, omega arith, omega arith, free)
  | inr used ↦ elim (alloc_loop_lem k (i + 1) s) [
    | inl (e, all) ↦ inl (
      rw used e,
      λ j p q. elim (dec_lt i j) [
        | yes r ↦ all j (omega arith) (omega arith)
        | no r ↦ (let here : j ≡ i = omega arith in rw here used)
      ],
    )
    | inr (j, e, p, q, free) ↦ inr (j, rw used e, omega arith, omega arith, free)
  ]
]

pub alloc_desc_lem :
    (s : Disk)
    → ((alloc_desc s ≡ (none, s)) × ((j : ℕ) → j < num → s.free j ≡ false))
      ⊎ ((i : ℕ) × (alloc_desc s ≡ (some i, claim i s)) × (i < num) × (s.free i ≡ true))
unfolding alloc_desc Allocated
alloc_desc_lem s = elim (alloc_loop_lem num 0 s) [
  | inl (e, all) ↦ inl (e, λ j p. all j (omega arith) (omega arith))
  | inr (i, e, p, q, free) ↦ inr (i, e, omega arith, free)
]

abbrev pub one_if_free : Bool → ℕ
one_if_free true = 1
one_if_free false = 0

-- how many descriptors are free
unfoldable pub free_count : Disk → ℕ
free_count s = total one_if_free 0 num s.free

total_none_free :
    (n : ℕ) (free : ℕ → Bool) → ((j : ℕ) → j < n → free j ≡ false) → total one_if_free 0 n free ≡ 0
total_none_free zero free h = total_zero one_if_free 0 free
total_none_free (suc n) free h =
    let e : suc n ≡ n + 1 = omega arith in
    rw e (
      ground (
        arith,
        total_last one_if_free 0 n free n (omega arith),
        total_none_free n free (λ j p. h j (omega arith)),
        h n (omega arith),
      ))

free_count-claim :
    (s : Disk) (i : ℕ) → i < num → s.free i ≡ true → free_count (claim i s) + 1 ≡ free_count s
unfolding free_count
free_count-claim s i h e =
    ground (arith, total-update one_if_free 0 num s.free i false (omega arith) h)

-- what alloc3_desc leaves in the state `s`
pub data Alloc3 (s : Disk) : Option (List ℕ) × Disk → Type 0 where
  -- three different descriptors that were free are now in use
  got :
      (i0 i1 i2 : ℕ)
      → i0 < num
      → i1 < num
      → i2 < num
      → i0 ≢ i1
      → i0 ≢ i2
      → i1 ≢ i2
      → s.free i0 ≡ true
      → s.free i1 ≡ true
      → s.free i2 ≡ true
      → Alloc3 s (some (i0 ∷ i1 ∷ i2 ∷ []), claim i2 (claim i1 (claim i0 s)))
  -- fewer than three are free, and the same ones are free as before
  short :
      (t : Disk)
      → free_count s < 3
      → ((j : ℕ) → t.free j ≡ s.free j)
      → (t.info ≡ s.info)
        × (t.owned ≡ s.owned)
        × (t.avail_ring ≡ s.avail_ring)
        × (t.avail_idx ≡ s.avail_idx)
        × (t.used_idx ≡ s.used_idx)
      → Alloc3 s (none, t)

-- no descriptor is left in the state `t`
abbrev NoneFree : Disk → Type 0
NoneFree t = (alloc_desc t ≡ (none, t)) × ((j : ℕ) → j < num → t.free j ≡ false)

-- two descriptors taken, and the third is asked for
module _ (s : Disk) (i0 i1 : ℕ) (p0 : i0 < num) (f0 : s.free i0 ≡ true) where
  abbrev s1 : Disk
  s1 = claim i0 s

  abbrev s2 : Disk
  s2 = claim i1 s1

  none_first : NoneFree s1 → Returns (Alloc3 s) (alloc3_loop 2 (i0 ∷ []) s1)
  unfolding alloc3_loop free_all free_count
  none_first (e, all) = (
    (none, give_back i0 s1),
    ground (arith, e, free_desc-ok i0 s1 p0),
    short (give_back i0 s1)
        (ground (arith, free_count-claim s i0 p0 f0, total_none_free num s1.free all))
        (λ j. ground arith) (refl, refl, refl, refl, refl),
  )

  module _ (p1 : i1 < num) (f1 : s1.free i1 ≡ true) where
    none_second : NoneFree s2 → Returns (Alloc3 s) (alloc3_loop 1 (i0 ∷ i1 ∷ []) s2)
    unfolding alloc3_loop free_all free_count
    none_second (e, all) = (
      (none, give_back i1 (give_back i0 s2)),
      ground (arith, e, free_desc-ok i0 s2 p0, free_desc-ok i1 (give_back i0 s2) p1),
      short (give_back i1 (give_back i0 s2))
          (ground (
            arith,
            free_count-claim s i0 p0 f0,
            free_count-claim s1 i1 p1 f1,
            total_none_free num s2.free all,
          ))
          (λ j. ground arith) (refl, refl, refl, refl, refl),
    )

    third : Returns (Alloc3 s) (alloc3_loop 1 (i0 ∷ i1 ∷ []) s2)
    unfolding alloc3_loop
    third = elim (alloc_desc_lem s2) [
      | inl full ↦ none_second full
      | inr (i2, e, p2, f2) ↦ (
        (some (i0 ∷ i1 ∷ i2 ∷ []), claim i2 s2),
        ground (arith, e),
        got i0 i1 i2 p0 p1 p2 (ground arith) (ground arith) (ground arith) f0 (ground arith)
            (ground arith),
      )
    ]

-- alloc3_desc takes three different free descriptors and changes nothing else; or fewer than three
-- are free, and it fails with the same ones free as before and the rest of the state as it was.
pub alloc3_desc_correct : (s : Disk) → Returns (Alloc3 s) (alloc3_desc s)
unfolding alloc3_desc alloc3_loop free_all free_count
alloc3_desc_correct s = elim (alloc_desc_lem s) [
  | inl (e, all) ↦ (
    (none, s),
    ground (arith, e),
    short s (ground (arith, total_none_free num s.free all)) (λ j. refl)
        (refl, refl, refl, refl, refl),
  )
  | inr (i0, e0, p0, f0) ↦ elim (alloc_desc_lem (claim i0 s)) [
    | inl full ↦ (let (r, run, v) = none_first s i0 0 p0 f0 full in (r, ground (arith, e0, run), v))
    | inr (i1, e1, p1, f1) ↦
        (let (r, run, v) = third s i0 i1 p0 f0 p1 f1 in (r, ground (arith, e0, e1, run), v))
  ]
]
