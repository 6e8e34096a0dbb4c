-- ===== src/Vm.antt =====
-- Page tables (kernel/vm.c).
-- A page of physical memory is its number, the address without its low 12 bits. A page that is a page
-- table is 512 words, and another one is bytes. The words are 64-bit: a page number in the upper bits,
-- and 10 flags. `free` has the free pages in the order in which kalloc takes them: Kalloc.antt has that
-- list as it stands in the pages. `none` is the null pointer, and `false` is -1.
pub mod Tree
pub mod Fresh
pub mod Walk
pub mod Store
pub mod Map
pub mod Translate
pub mod Copy
mod Tests
use io_scheduling.Prelude.{
  ℕ, zero, suc, ◌+◌, ◌-◌, ◌*◌, ◌/◌, ◌%◌, ◌^◌, Bool, true, false, not, ltb, leb, ◌==◌, ◌&&◌, ◌||◌,
  if◌then◌else◌, Option, none, some, List, [], ◌∷◌, Run, ok, stop, panic, out_of_fuel, ◌>>=◌, ◌>>◌,
  panic_if, update,
}

pub record Vm : Type 0 where
  pub word : ℕ → ℕ → ℕ
  pub bytes : ℕ → ℕ → ℕ
  pub free : List ℕ

-- PGSIZE and MAXVA
abbrev pub pgsize : ℕ
pgsize = 4096

abbrev pub maxva : ℕ
maxva = 2 ^ 38

-- PX
abbrev pub px : ℕ → ℕ → ℕ
px level va = va / 2 ^ (12 + 9 * level) % 512

-- PTE2PA and PA2PTE
abbrev pub page_of : ℕ → ℕ
page_of pte = pte / 2 ^ 10

abbrev pub pte_of : ℕ → ℕ
pte_of page = page * 2 ^ 10

-- whether PTE_V and PTE_U are set
abbrev pub is_valid : ℕ → Bool
is_valid pte = pte % 2 == 1

abbrev pub is_user : ℕ → Bool
is_user pte = pte / 16 % 2 == 1

-- PTE_FLAGS
abbrev pub flags : ℕ → ℕ
flags pte = pte % 2 ^ 10

-- `perm | PTE_V`
abbrev pub or_valid : ℕ → ℕ
or_valid perm = if perm % 2 == 1 then perm else perm + 1

-- PGROUNDDOWN and PGROUNDUP
abbrev pub round_down : ℕ → ℕ
round_down a = a / pgsize * pgsize

abbrev pub round_up : ℕ → ℕ
round_up a = (a + pgsize - 1) / pgsize * pgsize

-- a page that kalloc has given is cleared
pub clear : ℕ → Vm → Vm
clear p s = record s { word = update s.word p (λ i. 0); bytes = update s.bytes p (λ j. 0) }

pub set_pte : ℕ × ℕ → ℕ → Vm → Vm
set_pte (p, i) pte s = record s { word = update s.word p (update (s.word p) i pte) }

-- the second branch of the loop of walk: a new table for the PTE at `slot`
pub new_table : ℕ × ℕ → Vm → Option ℕ × Vm
new_table slot s = elim s.free [
  | [] ↦ (none, s)
  | p ∷ rest ↦ (some p, set_pte slot (pte_of p + 1) (clear p (record s { free = rest })))
]

-- a round of the `for` of walk
pub walk_level : ℕ → ℕ → Bool → ℕ → Vm → Option ℕ × Vm
walk_level level va alloc pt s =
    let pte = s.word pt (px level va) in
    let grown = new_table (pt, px level va) s in
    if is_valid pte then (some (page_of pte), s) else if alloc then grown else (none, s)

abbrev pub and_next {ℓ} : {A : Type ℓ} → Option ℕ × Vm → (ℕ → Vm → Option A × Vm) → Option A × Vm
and_next (none, s) next = (none, s)
and_next (some p, s) next = next p s

-- a pointer to a PTE is the page that it is in and its index
pub walk : ℕ → ℕ → Bool → Vm → Run (Option (ℕ × ℕ) × Vm)
walk pt va alloc s =
    panic_if (leb maxva va)
    >> ok (
        and_next (walk_level 2 va alloc pt s)
          (λ pt1 t. and_next (walk_level 1 va alloc pt1 t) (λ pt0 u. (some (pt0, px 0 va), u))))

-- the page of a user address, or `none` for 0
pub walkaddr : ℕ → ℕ → Vm → Run (Option ℕ)
walkaddr pt va s =
    let found = walk pt va false s >>= λ (slot, t). elim slot [
      | none ↦ ok none
      | some (p, i) ↦
          (let pte = t.word p i in
            ok (
              if not (is_valid pte)
              then none
              else if not (is_user pte)
              then none
              else if page_of pte == 0
              then none
              else some (page_of pte)))
    ] in
    if leb maxva va then ok none else found

-- a round of mappages on the PTE that walk gave
pub map_page : ℕ → ℕ → (Vm → Run (Bool × Vm)) → Option (ℕ × ℕ) × Vm → Run (Bool × Vm)
map_page page perm next (none, s) = ok (false, s)
map_page page perm next (some (p, i), s) =
    panic_if (is_valid (s.word p i)) >> next (set_pte (p, i) (pte_of page + or_valid perm) s)

-- the `for` of mappages, for at most `k` pages
pub mappages_loop : ℕ → ℕ → ℕ → ℕ → ℕ → ℕ → Vm → Run (Bool × Vm)
mappages_loop zero pt a last page perm s = stop out_of_fuel
mappages_loop (suc k) pt a last page perm s =
    let next = λ (t : Vm).
      if a == last then ok (true, t) else mappages_loop k pt (a + pgsize) last (page + 1) perm t in
    walk pt a true s >>= map_page page perm next

pub mappages : ℕ → ℕ → ℕ → ℕ → ℕ → Vm → Run (Bool × Vm)
mappages pt va size page perm s =
    let a = round_down va in
    let last = round_down (va + size - 1) in
    panic_if (size == 0) >> mappages_loop ((last - a) / pgsize + 1) pt a last page perm s
