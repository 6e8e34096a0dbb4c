-- ===== src/Vm/Tree.antt =====
-- What a page table of kernel/vm.c stands for, and what keeps its pages apart.
use io_scheduling.Prelude.{
  Bool-cases, ℕ, ◌≡◌, refl, arith, Bool, true, false, ◌==◌, ◌&&◌, ◌||◌, if◌then◌else◌, inl, inr,
  ◌∷◌, [], List,
}
use io_scheduling.Vm.{Vm, px, page_of, is_valid}

-- the PTE of a virtual address, 0 where a table on the way is missing
unfoldable pub leaf : ℕ → Vm → ℕ → ℕ
leaf root s va =
    let upper = s.word root (px 2 va) in
    let lower = s.word (page_of upper) (px 1 va) in
    if is_valid upper && is_valid lower then s.word (page_of lower) (px 0 va) else 0

-- the upper table has no entry for `va`, or the lower one has none, or there is a path
pub data Path3 (root : ℕ) (s : Vm) (va : ℕ) : Type 0 where
  no_upper : is_valid (s.word root (px 2 va)) ≡ false → leaf root s va ≡ 0 → Path3 root s va
  no_lower :
      (a : ℕ)
      → s.word root (px 2 va) ≡ a
      → is_valid a ≡ true
      → is_valid (s.word (page_of a) (px 1 va)) ≡ false
      → leaf root s va ≡ 0
      → Path3 root s va
  path :
      (a b : ℕ)
      → s.word root (px 2 va) ≡ a
      → is_valid a ≡ true
      → s.word (page_of a) (px 1 va) ≡ b
      → is_valid b ≡ true
      → leaf root s va ≡ s.word (page_of b) (px 0 va)
      → Path3 root s va

pub leaf-no_upper :
    (root : ℕ) (s : Vm) (va : ℕ) → is_valid (s.word root (px 2 va)) ≡ false → leaf root s va ≡ 0
unfolding leaf
leaf-no_upper root s va v = ground (arith, v)

pub leaf-no_lower :
    (root : ℕ) (s : Vm) (va a : ℕ)
    → s.word root (px 2 va) ≡ a
    → is_valid (s.word (page_of a) (px 1 va)) ≡ false
    → leaf root s va ≡ 0
unfolding leaf
leaf-no_lower root s va a e v = rw e (ground (arith, v))

pub leaf-path :
    (root : ℕ) (s : Vm) (va a b : ℕ)
    → s.word root (px 2 va) ≡ a
    → is_valid a ≡ true
    → s.word (page_of a) (px 1 va) ≡ b
    → is_valid b ≡ true
    → leaf root s va ≡ s.word (page_of b) (px 0 va)
unfolding leaf
leaf-path root s va a b e v e' v' = rw e (rw e' (ground (arith, v, v')))

pub path_cases : (root : ℕ) (s : Vm) (va : ℕ) → Path3 root s va
path_cases root s va =
    let a = s.word root (px 2 va) in
    let b = s.word (page_of a) (px 1 va) in
    elim (Bool-cases (is_valid a)) [
      | inr z ↦ no_upper z (leaf-no_upper root s va z)
      | inl v ↦ (elim (Bool-cases (is_valid b)) [
        | inr z ↦ no_lower a refl v z (leaf-no_lower root s va a refl z)
        | inl v' ↦ path a b refl v refl v' (leaf-path root s va a b refl v refl v')
      ])
    ]

unfoldable pub is_in : ℕ → List ℕ → Bool
is_in p [] = false
is_in p (q ∷ qs) = q == p || is_in p qs

unfoldable pub AllDifferent : List ℕ → Type 0
AllDifferent [] = Unit
AllDifferent (p ∷ ps) = (is_in p ps ≡ false) × AllDifferent ps

-- The role of each page: 0 for a free one, 1 for the root, 2 for the table at place `at` of the root, 3
-- for the one at place `at` of the table at place `up` of the root, and anything else for another use.
pub record Roles : Type 0 where
  pub rank : ℕ → ℕ
  pub up : ℕ → ℕ
  pub at : ℕ → ℕ

pub record HasRoles (o : Roles) (root : ℕ) (s : Vm) : Type 0 where
  pub top : o.rank root ≡ 1
  pub one :
      (i a : ℕ)
      → s.word root i ≡ a
      → is_valid a ≡ true
      → (o.rank (page_of a) ≡ 2) × (o.at (page_of a) ≡ i)
  pub two :
      (i j a b : ℕ)
      → s.word root i ≡ a
      → is_valid a ≡ true
      → s.word (page_of a) j ≡ b
      → is_valid b ≡ true
      → (o.rank (page_of b) ≡ 3) × (o.up (page_of b) ≡ i) × (o.at (page_of b) ≡ j)
  pub free : (p : ℕ) → is_in p s.free ≡ true → o.rank p ≡ 0
  pub different : AllDifferent s.free

-- `root` is a page table: a tree, none of whose pages is free.
unfoldable pub IsTable : ℕ → Vm → Type 0
IsTable root s = (o : Roles) × HasRoles o root s
