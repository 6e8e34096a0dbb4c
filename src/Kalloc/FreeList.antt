-- ===== src/Kalloc/FreeList.antt =====
-- The list of free pages (kernel/kalloc.c).
use io_scheduling.Prelude.{
  ℕ, zero, suc, ◌+◌, ◌-◌, ◌*◌, ◌/◌, ◌%◌, ◌≤◌, ◌<◌, ◌≡◌, ◌≢◌, ◌∙◌, sym, ap, refl, arith, ◌==◌, List,
  [], ◌∷◌, ok, Returns, update, if_elim, ◌⊎◌, inl, inr, subst,
}
use io_scheduling.Kalloc.{
  Kmem, pgsize, phystop, memset_page, kfree, freerange_loop, round_up, freerange, kinit, kalloc,
  count_loop, kfree_memory,
}

unfoldable pub Absent : ℕ → List ℕ → Type 0
Absent y [] = Unit
Absent y (x ∷ xs) = (y ≢ x) × Absent y xs

-- an address that kfree takes
abbrev pub IsPage : ℕ → ℕ → Type 0
IsPage end a = (a % pgsize ≡ 0) × (end ≤ a) × (a < phystop)

-- From `a` on the links go through the different pages `xs` and end at 0.
unfoldable pub IsLinked : ℕ → (ℕ → ℕ) → ℕ → List ℕ → Type 0
IsLinked end word a [] = a ≡ 0
IsLinked end word a (x ∷ xs) =
    (a ≡ x) × (a ≢ 0) × IsPage end x × Absent x xs × IsLinked end word (word x) xs

-- the free pages, in the order in which kalloc hands them out
abbrev pub IsFree : ℕ → List ℕ → Kmem → Type 0
IsFree end xs s = IsLinked end s.word s.freelist xs

-- A write to a page that is not free leaves the list.
IsLinked-update :
    (end : ℕ) (word : ℕ → ℕ) (a : ℕ) (xs : List ℕ) (y v : ℕ)
    → Absent y xs
    → IsLinked end word a xs
    → IsLinked end (update word y v) a xs
unfolding IsLinked Absent
IsLinked-update end word a [] y v far h = h
IsLinked-update end word a (x ∷ xs) y v (ne, far) (e, pos, page, apart, h) =
    let same : word x ≡ update word y v x = ground arith in
    (
      e,
      pos,
      page,
      apart,
      subst (λ b. IsLinked end (update word y v) b xs) same
          (IsLinked-update end word (word x) xs y v far h),
    )

-- what kalloc gives where the pages `xs` are free
pub Allocated : ℕ → List ℕ → Kmem → ℕ × Kmem → Type 0
Allocated end xs s (r, t) =
    ((xs ≡ []) × (r ≡ 0) × (t ≡ s))
    ⊎ ((ys : List ℕ) × (xs ≡ r ∷ ys)
        × IsPage end r
        × Absent r ys
        × IsFree end ys t
        × (t.fill r ≡ 5))

-- kalloc hands out the first free page, filled with 5s, and the others stay free; it gives 0 and
-- changes nothing if there is none.
pub kalloc_correct :
    (end : ℕ) (xs : List ℕ) (s : Kmem) → IsFree end xs s → Allocated end xs s (kalloc s)
unfolding kalloc memset_page IsLinked Allocated
kalloc_correct end [] s h =
    if_elim (Allocated end [] s) (s.freelist == 0) (λ z. inl (refl, h, refl))
      (λ nz. absurd (ground arith))
kalloc_correct end (x ∷ xs) s (e, pos, page, apart, h) =
    if_elim (Allocated end (x ∷ xs) s) (s.freelist == 0) (λ z. absurd (pos (ground arith)))
      (λ nz. inr (
        xs,
        ap (λ y. y ∷ xs) (sym e),
        rw e page,
        rw e apart,
        rw e (IsLinked-update end s.word (s.word x) xs x (5 * 0x0101010101010101) apart h),
        ground arith,
      ))

-- kfree of a page above the kernel and below PHYSTOP that is not free returns, and puts it in front of
-- the free pages.
pub kfree_correct :
    (end pa : ℕ) (xs : List ℕ) (s : Kmem)
    → 0 < end
    → IsPage end pa
    → Absent pa xs
    → IsFree end xs s
    → Returns (IsFree end (pa ∷ xs)) (kfree end pa s)
unfolding kfree memset_page IsLinked
kfree_correct end pa xs s some_kernel (aligned, low, high) apart h =
    let word1 = update s.word pa (1 * 0x0101010101010101) in
    let word2 = update word1 pa s.freelist in
    let back : s.freelist ≡ word2 pa = ground arith in
    (
      record { freelist = pa; word = word2; fill = update s.fill pa 1 },
      ground arith,
      (
        refl,
        omega arith,
        (aligned, low, high),
        apart,
        subst (λ b. IsLinked end word2 b xs) back
            (IsLinked-update end word1 s.freelist xs pa s.freelist apart
              (IsLinked-update end s.word s.freelist xs pa (1 * 0x0101010101010101) apart h)),
      ),
    )

-- the `k` pages from `p` on, the last one first, in front of `xs`
abbrev pub pages : ℕ → ℕ → List ℕ → List ℕ
pages zero p xs = xs
pages (suc k) p xs = pages k (p + pgsize) (p ∷ xs)

-- `p` and the pages behind it are not in the list
Below : ℕ → List ℕ → Type 0
Below p [] = Unit
Below p (x ∷ xs) = (x < p) × Below p xs

Below-up : (p q : ℕ) (xs : List ℕ) → p ≤ q → Below p xs → Below q xs
unfolding Below
Below-up p q [] h b = tt
Below-up p q (x ∷ xs) h (l, b) = (omega arith, Below-up p q xs h b)

Below-Absent : (p : ℕ) (xs : List ℕ) → Below p xs → Absent p xs
unfolding Below Absent
Below-Absent p [] b = tt
Below-Absent p (x ∷ xs) (l, b) = (λ e. omega arith, Below-Absent p xs b)

freerange_loop_lem :
    (end k p : ℕ) (xs : List ℕ) (s : Kmem)
    → 0 < end
    → end ≤ p
    → p % pgsize ≡ 0
    → p + k * pgsize ≤ phystop
    → Below p xs
    → IsFree end xs s
    → Returns (IsFree end (pages k p xs)) (freerange_loop end k p s)
unfolding freerange_loop Below
freerange_loop_lem end zero p xs s n l a f b h = (s, refl, h)
freerange_loop_lem end (suc k) p xs s n l a f b h =
    let (t, run, g) = kfree_correct end p xs s n (a, l, omega arith) (Below-Absent p xs b) h in
    let (u, run', g') =
      freerange_loop_lem end k (p + pgsize) (p ∷ xs) t n (omega arith) (omega arith) (omega arith)
        (omega arith, Below-up p (p + pgsize) xs (omega arith) b) g in
    (u, rw run run', g')

-- kinit on an empty list returns, and then the free pages are exactly the whole ones between the end
-- of the kernel and PHYSTOP, the last one first.
pub kinit_correct :
    (end : ℕ) (s : Kmem)
    → 0 < end
    → end ≤ phystop
    → s.freelist ≡ 0
    → let p = round_up end in
      Returns (IsFree end (pages ((phystop - p) / pgsize) p [])) (kinit end s)
unfolding kinit freerange IsLinked Below
kinit_correct end s n l e =
    let p = round_up end in
    freerange_loop_lem end ((phystop - p) / pgsize) p [] s n (omega arith) (omega arith)
      (omega arith) tt e

unfoldable pub length : List ℕ → ℕ
length [] = 0
length (x ∷ xs) = length xs + 1

count_loop_lem :
    (end k temp size : ℕ) (xs : List ℕ) (s : Kmem)
    → IsLinked end s.word temp xs
    → length xs < k
    → count_loop k temp size s ≡ ok (size + pgsize * length xs)
unfolding count_loop IsLinked length
count_loop_lem end zero temp size xs s h f = absurd (omega arith)
count_loop_lem end (suc k) temp size [] s h f = ground arith
count_loop_lem end (suc k) temp size (x ∷ xs) s (e, pos, page, apart, h) f =
    let h' : IsLinked end s.word (s.word temp) xs = rw e h in
    ground (arith, count_loop_lem end k (s.word temp) (size + pgsize) xs s h' (omega arith))

-- kfree_memory gives the size of the free pages together; there are at most 32768 of them.
pub kfree_memory_correct :
    (end : ℕ) (xs : List ℕ) (s : Kmem)
    → IsFree end xs s
    → length xs ≤ 32768
    → kfree_memory s ≡ ok (pgsize * length xs)
unfolding kfree_memory
kfree_memory_correct end xs s h f =
    count_loop_lem end 32769 s.freelist 0 xs s h (omega arith) ∙ ap ok (omega arith)
