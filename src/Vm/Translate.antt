-- ===== src/Vm/Translate.antt =====
-- `walkaddr` (kernel/vm.c) on a page table, and after `mappages`.
use io_scheduling.Prelude.{
  ℕ, ◌+◌, ◌-◌, ◌/◌, ◌%◌, ◌≤◌, ◌<◌, ◌≡◌, ◌∙◌, ap, arith, Bool, true, false, not, ltb, ◌==◌, ◌&&◌,
  if◌then◌else◌, dec_lt, Run, ok, stop, panic, [], ◌>>=◌, Option, none, some,
}
use io_scheduling.Vm.{
  Vm, page_of, pte_of, is_valid, is_user, walk, maxva, pgsize, or_valid, walkaddr, mappages,
}
use io_scheduling.Vm.Tree.{leaf, IsTable}
use io_scheduling.Vm.Walk.{Found, walk_find}
use io_scheduling.Vm.Map.{Mapped, within, mappages_correct}

-- the page that a PTE gives a user
abbrev pub user_page : ℕ → Option ℕ
user_page pte =
    if is_valid pte && is_user pte && not (page_of pte == 0) then some (page_of pte) else none

-- the page of a user address
unfoldable pub translate : ℕ → Vm → ℕ → Option ℕ
translate root s va = if ltb va maxva then user_page (leaf root s va) else none

found :
    (root va : ℕ) (s : Vm) (slot : Option (ℕ × ℕ))
    → va < maxva
    → walk root va false s ≡ ok (slot, s)
    → Found root va s slot
    → walkaddr root va s ≡ ok (translate root s va)
unfolding walkaddr translate Found
found root va s none low r h = ground (arith, r, h)
found root va s (some (q, k)) low r (slot, h) = ground (arith, r, h)

-- walkaddr gives exactly the page of a user address, and never fails.
pub walkaddr_lem : (root va : ℕ) (s : Vm) → walkaddr root va s ≡ ok (translate root s va)
unfolding walkaddr translate
walkaddr_lem root va s = elim (dec_lt va maxva) [
  | no over ↦ ground arith
  | yes low ↦ (let (slot, r, h) = walk_find root va s low in found root va s slot low r h)
]

-- what a look-up of `va` after mappages answers
unfoldable pub LooksUp : ℕ → ℕ → ℕ → Vm → Run (Bool × Vm × Option ℕ) → Type 0
LooksUp va first page s (ok (true, t, r)) = r ≡ some (page + (va / pgsize - first))
LooksUp va first page s (ok (false, t, r)) = t.free ≡ []
LooksUp va first page s (stop e) = e ≡ panic

page_part : (x y : ℕ) → y < 1024 → page_of (pte_of x + y) ≡ x
page_part x y l = omega arith

user_part : (x y : ℕ) → (pte_of x + y) / 16 % 2 ≡ y / 16 % 2
user_part x y = omega arith

valid_part : (x y : ℕ) → (pte_of x + y) % 2 ≡ y % 2
valid_part x y = omega arith

looks_up :
    (root va first last page perm : ℕ) (s : Vm) (m : Run (Bool × Vm))
    → va < maxva
    → within first last va ≡ true
    → 0 < page
    → perm < 1024
    → is_user perm ≡ true
    → Mapped root first last page perm s m
    → LooksUp va first page s (m >>= λ (done, t). walkaddr root va t >>= λ r. ok (done, t, r))
unfolding LooksUp Mapped translate
looks_up root va first last page perm s (stop e) low inside some_page small user (p, h) = p
looks_up root va first last page perm s (ok (false, t)) low inside some_page small user
      (tree, e, h, b) =
    rw (walkaddr_lem root va t) e
looks_up root va first last page perm s (ok (true, t)) low inside some_page small user
      (tree, h, b, k) =
    let pte = pte_of (page + (va / pgsize - first)) + or_valid perm in
    let l : leaf root t va ≡ pte = h va low ∙ ground (arith, inside) in
    let f : or_valid perm < 1024 = ground arith in
    let p : page_of pte ≡ page + (va / pgsize - first) =
      page_part (page + (va / pgsize - first)) (or_valid perm) f in
    let u : is_user pte ≡ true =
      ap (λ x. x == 1) (user_part (page + (va / pgsize - first)) (or_valid perm)) ∙ ground arith in
    let v : is_valid pte ≡ true =
      ground (arith, valid_part (page + (va / pgsize - first)) (or_valid perm)) in
    rw (walkaddr_lem root va t) (ground (arith, l, p, u, v))

-- After mappages of user pages on a page table walkaddr gives for each address among them its page;
-- the exceptions are that mappages answers -1, with no page for a table left, or panics.
pub walkaddr-mappages :
    (root va size page perm u : ℕ) (s : Vm)
    → IsTable root s
    → 0 < size
    → va + size ≤ maxva
    → 0 < page
    → perm < 1024
    → is_user perm ≡ true
    → within (va / pgsize) ((va + size - 1) / pgsize) u ≡ true
    → LooksUp u (va / pgsize) page s (
        mappages root va size page perm s >>= λ (done, t).
        walkaddr root u t >>= λ r. ok (done, t, r))
walkaddr-mappages root va size page perm u s h some_size low some_page small user inside =
    looks_up root u (va / pgsize) ((va + size - 1) / pgsize) page perm s
      (mappages root va size page perm s) (ground (arith, inside)) inside some_page small user
      (mappages_correct root va size page perm s h some_size low)
