-- ===== src/Kalloc/Tests.antt =====
-- The page allocator with two free pages, for a kernel that ends at 0x80020001.
use io_scheduling.Prelude.{ℕ, refl, arith, List, [], ◌∷◌, ◌==◌, if◌then◌else◌}
use io_scheduling.Kalloc.{Kmem, kalloc}
use io_scheduling.Kalloc.FreeList.{Absent, IsLinked, IsFree, Allocated, kalloc_correct}

abbrev end : ℕ
end = 0x80020001

abbrev two_pages : List ℕ
two_pages = 0x80021000 ∷ 0x80030000 ∷ []

abbrev two : Kmem
two = record {
  freelist = 0x80021000;
  word = λ a. if a == 0x80021000 then 0x80030000 else 0;
  fill = λ a. 1;
}

two-IsFree : IsFree end two_pages two
unfolding IsLinked Absent
two-IsFree = (
  refl,
  omega arith,
  (refl, omega arith, omega arith),
  (omega arith, tt),
  (refl, omega arith, (refl, omega arith, omega arith), tt, refl),
)

kalloc_correct_example : Allocated end two_pages two (kalloc two)
kalloc_correct_example = kalloc_correct end two_pages two two-IsFree
