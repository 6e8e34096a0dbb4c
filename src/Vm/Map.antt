-- ===== src/Vm/Map.antt =====
-- `mappages` (kernel/vm.c) on a page table.
use io_scheduling.Prelude.{
  ℕ, zero, suc, ◌+◌, ◌-◌, ◌/◌, ◌%◌, ◌≤◌, ◌<◌, ◌≡◌, ◌∙◌, sym, ap, subst, refl, arith, Bool, true,
  false, leb, ◌==◌, ◌&&◌, if◌then◌else◌, inl, inr, ℕ_discrete, Run, ok, stop, panic, [], ◌>>=◌,
  Option, none, some, Bool-cases,
}
use io_scheduling.Vm.{
  Vm, pte_of, is_valid, set_pte, maxva, pgsize, or_valid, round_down, map_page, mappages_loop,
  mappages,
}
use io_scheduling.Vm.Tree.{leaf, is_in, IsTable}
use io_scheduling.Vm.Fresh.{Kept}
use io_scheduling.Vm.Walk.{Walked, walk_correct}
use io_scheduling.Vm.Store.{Stored, set_pte-Stored, slot-leaf}

abbrev pub within : ℕ → ℕ → ℕ → Bool
within first last u = leb first (u / pgsize) && leb (u / pgsize) last

-- What mapping the virtual pages `first`, ..., `last` to physical pages from `page` on answers: the
-- PTEs are there and those of all other addresses are as they were; or no page for a table is left,
-- and only PTEs among these pages have changed; or one of them was mapped already.
unfoldable pub Mapped : ℕ → ℕ → ℕ → ℕ → ℕ → Vm → Run (Bool × Vm) → Type 0
Mapped root first last page perm s (ok (true, t)) =
    IsTable root t
    × ((u : ℕ)
        → u < maxva
        → leaf root t u ≡ (
            if within first last u
            then pte_of (page + (u / pgsize - first)) + or_valid perm
            else leaf root s u))
    × ((p : ℕ) → is_in p s.free ≡ false → t.bytes p ≡ s.bytes p)
    × ((p : ℕ) → is_in p t.free ≡ true → is_in p s.free ≡ true)
Mapped root first last page perm s (ok (false, t)) =
    IsTable root t
    × (t.free ≡ [])
    × ((u : ℕ) → u < maxva → within first last u ≡ false → leaf root t u ≡ leaf root s u)
    × ((p : ℕ) → is_in p s.free ≡ false → t.bytes p ≡ s.bytes p)
Mapped root first last page perm s (stop e) =
    (e ≡ panic)
    × ((u : ℕ) × (u < maxva) × (within first last u ≡ true) × (is_valid (leaf root s u) ≡ true))

-- the PTE of `va` has been written, after a walk that gave its place
module _ (root va page perm last : ℕ) (s t u : Vm) (low : va < maxva) (aligned : va % pgsize ≡ 0)
    (k : Kept root s t) (st : Stored root va (pte_of page + or_valid perm) t u) where
  leaf_now :
      (w : ℕ)
      → w < maxva
      → leaf root u w
        ≡ (if va / pgsize == w / pgsize then pte_of page + or_valid perm else leaf root s w)
  leaf_now w l = st.leaf w l ∙ ground (arith, k.leaf w)

  free_now : (p : ℕ) → is_in p u.free ≡ true → is_in p s.free ≡ true
  free_now p f = k.free p (subst (λ x. is_in p x ≡ true) st.free f)

  bytes_now : (p : ℕ) → is_in p s.free ≡ false → u.bytes p ≡ s.bytes p
  bytes_now p f = ap (λ x. x p) st.bytes ∙ k.bytes p f

  -- it was the last one
  Mapped-last : va / pgsize ≡ last → Mapped root (va / pgsize) last page perm s (ok (true, u))
  unfolding Mapped
  Mapped-last e = (st.table, λ w l. leaf_now w l ∙ ground (arith, e), bytes_now, free_now)

  Mapped-more :
      (r : Run (Bool × Vm))
      → va / pgsize < last
      → Mapped root (va / pgsize + 1) last (page + 1) perm u r
      → Mapped root (va / pgsize) last page perm s r
  unfolding Mapped
  Mapped-more (stop e) more (p, (w, l, inside, v)) =
      (p, (w, l, ground arith, ground (arith, leaf_now w l)))
  Mapped-more (ok (false, t')) more (tree, e, same, bytes) = (
    tree,
    e,
    λ w l out. same w l (ground arith) ∙ leaf_now w l ∙ ground arith,
    λ p f. bytes p (ground (arith, f, free_now p)) ∙ bytes_now p f,
  )
  Mapped-more (ok (true, t')) more (tree, h, bytes, free) = (
    tree,
    λ w l. h w l ∙ ground (arith, leaf_now w l),
    λ p f. bytes p (ground (arith, f, free_now p)) ∙ bytes_now p f,
    λ p f. free_now p (free p f),
  )

-- the round on what walk gave
map_page-Mapped :
    (root va last page perm : ℕ) (s : Vm) (next : Vm → Run (Bool × Vm)) (r : Option (ℕ × ℕ) × Vm)
    → va < maxva
    → va / pgsize ≤ last
    → Walked root va s r
    → ((t u : Vm)
        → Kept root s t
        → Stored root va (pte_of page + or_valid perm) t u
        → Mapped root (va / pgsize) last page perm s (next u))
    → Mapped root (va / pgsize) last page perm s (map_page page perm next r)
unfolding Walked Mapped map_page
map_page-Mapped root va last page perm s next (none, t) low upto (tree, k, e) rest =
    (tree, e, λ w l out. k.leaf w, k.bytes)
map_page-Mapped root va last page perm s next (some (q, j), t) low upto (tree, k, slot) rest =
    let here = slot-leaf root va t q j slot in
    elim (Bool-cases (is_valid (t.word q j))) [
      | inl v ↦
          (let r : map_page page perm next (some (q, j), t) ≡ stop panic = ground (arith, v) in
            subst (Mapped root (va / pgsize) last page perm s) (sym r)
              (refl, (va, low, ground (arith, upto), ap is_valid (sym (k.leaf va) ∙ here) ∙ v)))
      | inr z ↦
          (let u = set_pte (q, j) (pte_of page + or_valid perm) t in
            let r : map_page page perm next (some (q, j), t) ≡ next u = ground (arith, z) in
            subst (Mapped root (va / pgsize) last page perm s) (sym r) (
              rest t u k
                (set_pte-Stored root va (pte_of page + or_valid perm) t (q, j) tree slot low)))
    ]

mappages_loop-Mapped :
    (k root a last page perm : ℕ) (s : Vm)
    → IsTable root s
    → a % pgsize ≡ 0
    → last % pgsize ≡ 0
    → a ≤ last
    → last < maxva
    → (last - a) / pgsize < k
    → Mapped root (a / pgsize) (last / pgsize) page perm s (mappages_loop k root a last page perm s)
unfolding mappages_loop
mappages_loop-Mapped zero root a last page perm s h aligned aligned' le low fuel =
    absurd (omega arith)
mappages_loop-Mapped (suc k) root a last page perm s h aligned aligned' le low fuel =
    let next : Vm → Run (Bool × Vm) = λ t.
      if a == last
      then ok (true, t)
      else mappages_loop k root (a + pgsize) last (page + 1) perm t in
    let (r, e, w) = walk_correct root a s h (omega arith) in
    let place : (a + pgsize) / pgsize ≡ a / pgsize + 1 = omega arith in
    subst
      (λ x. Mapped root (a / pgsize) (last / pgsize) page perm s (x >>= map_page page perm next))
      (sym e)
      (map_page-Mapped root a (last / pgsize) page perm s next r (omega arith) (omega arith) w
        (λ t u kept st. elim (ℕ_discrete a last) [
          | yes z ↦
              (let n : next u ≡ ok (true, u) = ground arith in
                subst (Mapped root (a / pgsize) (last / pgsize) page perm s) (sym n) (
                  Mapped-last root a page perm (last / pgsize) s t u (omega arith) aligned kept st
                    (ap (λ x. x / pgsize) z)))
          | no ne ↦
              (let n : next u ≡ mappages_loop k root (a + pgsize) last (page + 1) perm u =
                  ground arith in
                let more =
                  mappages_loop-Mapped k root (a + pgsize) last (page + 1) perm u st.table
                    (omega arith) aligned' (omega arith) low (omega arith) in
                subst (Mapped root (a / pgsize) (last / pgsize) page perm s) (sym n) (
                  Mapped-more root a page perm (last / pgsize) s t u (omega arith) aligned kept st
                    (mappages_loop k root (a + pgsize) last (page + 1) perm u) (omega arith)
                    (subst
                      (λ x.
                        Mapped root x (last / pgsize) (page + 1) perm u
                          (mappages_loop k root (a + pgsize) last (page + 1) perm u))
                      place more)))
        ]))

-- mappages of at least one byte below MAXVA, on a page table: on success the PTEs of the pages that
-- the bytes are in point to the given physical pages with the given flags and the valid bit, and the PTE
-- of every other address and the bytes of the pages in use are as they were; -1 comes only when no page
-- for a table is left, and changes no PTE outside the range; it is still a page table in both cases. A
-- panic comes only when a page of the range was mapped already.
pub mappages_correct :
    (root va size page perm : ℕ) (s : Vm)
    → IsTable root s
    → 0 < size
    → va + size ≤ maxva
    → Mapped root
        (va / pgsize)
        ((va + size - 1) / pgsize)
        page
        perm
        s
        (mappages root va size page perm s)
unfolding mappages
mappages_correct root va size page perm s h some_size low =
    let a = round_down va in
    let last = round_down (va + size - 1) in
    let r : mappages root va size page perm s
        ≡ mappages_loop ((last - a) / pgsize + 1) root a last page perm s =
      ground arith in
    let first : a / pgsize ≡ va / pgsize = omega arith in
    let end : last / pgsize ≡ (va + size - 1) / pgsize = omega arith in
    subst (Mapped root (va / pgsize) ((va + size - 1) / pgsize) page perm s) (sym r) (
      subst
        (λ x.
          Mapped root x ((va + size - 1) / pgsize) page perm s
            (mappages_loop ((last - a) / pgsize + 1) root a last page perm s))
        first
        (subst
          (λ x.
            Mapped root (a / pgsize) x page perm s
              (mappages_loop ((last - a) / pgsize + 1) root a last page perm s))
          end
          (mappages_loop-Mapped ((last - a) / pgsize + 1) root a last page perm s h (omega arith)
            (omega arith) (omega arith) (omega arith) (omega arith))))
