-- ===== src/Kalloc.antt =====
-- The page allocator (kernel/kalloc.c).
-- A page is its address. `word` is its first 8 bytes, where a free page has the address of the next
-- one, and `fill` the byte that memset wrote over it last. `end` is the first address after the kernel,
-- which the linker defines.
pub mod FreeList
mod Tests
use io_scheduling.Prelude.{
  ℕ, zero, suc, ◌+◌, ◌-◌, ◌*◌, ◌/◌, ◌%◌, Bool, not, ltb, leb, ◌==◌, ◌||◌, if◌then◌else◌, Run, ok,
  stop, out_of_fuel, ◌>>=◌, ◌>>◌, panic_if, update,
}

-- PGSIZE and PHYSTOP
abbrev pub pgsize : ℕ
pgsize = 4096

abbrev pub phystop : ℕ
phystop = 0x80000000 + 128 * 1024 * 1024

pub record Kmem : Type 0 where
  pub freelist : ℕ
  pub word : ℕ → ℕ
  pub fill : ℕ → ℕ

-- `memset(pa, c, PGSIZE)`, for a `c` below 256
pub memset_page : ℕ → ℕ → Kmem → Kmem
memset_page pa c s = record s {
  word = update s.word pa (c * 0x0101010101010101);
  fill = update s.fill pa c;
}

-- PGROUNDUP
abbrev pub round_up : ℕ → ℕ
round_up a = (a + pgsize - 1) / pgsize * pgsize

module _ (end : ℕ) where
  pub kfree : ℕ → Kmem → Run Kmem
  kfree pa s = do
    panic_if (not (pa % pgsize == 0) || ltb pa end || leb phystop pa)
    let s1 = memset_page pa 1 s
    ok (record s1 { word = update s1.word pa s1.freelist; freelist = pa })

  -- the `for` of freerange, with `k` pages left
  pub freerange_loop : ℕ → ℕ → Kmem → Run Kmem
  freerange_loop zero p s = ok s
  freerange_loop (suc k) p s = kfree p s >>= freerange_loop k (p + pgsize)

  pub freerange : ℕ → ℕ → Kmem → Run Kmem
  freerange pa_start pa_end s =
      let p = round_up pa_start in freerange_loop ((pa_end - p) / pgsize) p s

  pub kinit : Kmem → Run Kmem
  kinit s = freerange end phystop s

-- 0 where there is no page left
pub kalloc : Kmem → ℕ × Kmem
kalloc s =
    let r = s.freelist in
    if r == 0 then (r, s) else (r, memset_page r 5 (record s { freelist = s.word r }))

-- the `while` of kfree_memory
pub count_loop : ℕ → ℕ → ℕ → Kmem → Run ℕ
count_loop zero temp size s = stop out_of_fuel
count_loop (suc k) temp size s =
    let rest = count_loop k (s.word temp) (size + pgsize) s in if temp == 0 then ok size else rest

-- There are 32,768 pages below PHYSTOP.
pub kfree_memory : Kmem → Run ℕ
kfree_memory s = count_loop 32769 s.freelist 0 s
