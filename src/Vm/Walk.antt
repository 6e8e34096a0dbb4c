-- ===== src/Vm/Walk.antt =====
-- `walk` (kernel/vm.c) on a page table.
use io_scheduling.Prelude.{
  ℕ, ◌+◌, ◌<◌, ◌≡◌, ◌∙◌, sym, ap, subst, refl, arith, Bool, true, false, update, inl, inr, ok, ◌∷◌,
  [], Option, none, some, List, Returns, Bool-cases,
}
use io_scheduling.Vm.{
  Vm, px, page_of, pte_of, is_valid, clear, set_pte, new_table, walk_level, walk, and_next, maxva,
}
use io_scheduling.Vm.Tree.{leaf, no_upper, no_lower, path, path_cases, is_in, IsTable}
use io_scheduling.Vm.Fresh.{
  Kept, Kept-refl, Kept-trans, with_one, roles_one, roles_two, with_one-HasRoles, with_one-leaf,
  at_root, with_two, with_two-HasRoles, with_two-leaf, at_two, root_same,
}

Kept-fresh :
    (root : ℕ) (s t : Vm) (p : ℕ) (rest : List ℕ)
    → s.free ≡ p ∷ rest
    → ((va : ℕ) → leaf root t va ≡ leaf root s va)
    → t.bytes ≡ update s.bytes p (λ j. 0)
    → t.free ≡ rest
    → Kept root s t
unfolding is_in
Kept-fresh root s t p rest e l b f = record {
  leaf = l;
  bytes = λ q out.
      ap (λ x. x q) b
      ∙ (let out' : is_in q (p ∷ rest) ≡ false = subst (λ x. is_in q x ≡ false) e out in
          ground (arith, out'));
  free = λ q inside.
      (let inside' : is_in q rest ≡ true = subst (λ x. is_in q x ≡ true) f inside in
        subst (λ x. is_in q x ≡ true) (sym e) (ground (arith, inside')));
}

-- what the first round of the loop gives
Upper : ℕ → ℕ → Vm → Option ℕ × Vm → Type 0
Upper root va s (none, t) = IsTable root t × Kept root s t × (t.free ≡ [])
Upper root va s (some q, t) =
    IsTable root t
    × Kept root s t
    × ((a : ℕ) × (t.word root (px 2 va) ≡ a) × (is_valid a ≡ true) × (q ≡ page_of a))

-- The PTE of `va` is at place `k` of page `q`.
unfoldable pub IsSlot : ℕ → Vm → ℕ → ℕ × ℕ → Type 0
IsSlot root s va (q, k) =
    (a : ℕ) × (b : ℕ) × (s.word root (px 2 va) ≡ a)
    × (is_valid a ≡ true)
    × (s.word (page_of a) (px 1 va) ≡ b)
    × (is_valid b ≡ true)
    × (q ≡ page_of b)
    × (k ≡ px 0 va)

-- what a walk that may allocate gives
unfoldable pub Walked : ℕ → ℕ → Vm → Option (ℕ × ℕ) × Vm → Type 0
Walked root va s (none, t) = IsTable root t × Kept root s t × (t.free ≡ [])
Walked root va s (some slot, t) = IsTable root t × Kept root s t × IsSlot root t va slot

fresh_one :
    (root va : ℕ) (s : Vm) (free : List ℕ)
    → IsTable root s
    → s.free ≡ free
    → is_valid (s.word root (px 2 va)) ≡ false
    → Upper root va s (elim free [
      | [] ↦ (none, s)
      | p ∷ rest ↦
          (some p, set_pte (root, px 2 va) (pte_of p + 1) (clear p (record s { free = rest })))
    ])
unfolding Upper IsTable set_pte clear
fresh_one root va s [] (o, h) e z = ((o, h), Kept-refl root s, e)
fresh_one root va s (p ∷ rest) (o, h) e z = (
  (roles_one o root s h p rest e (px 2 va) z, with_one-HasRoles o root s h p rest e (px 2 va) z),
  Kept-fresh root s (with_one o root s h p rest e (px 2 va) z) p rest e
      (with_one-leaf o root s h p rest e (px 2 va) z) refl refl,
  (
    pte_of p + 1,
    at_root o root s h p rest e (px 2 va) z (px 2 va) ∙ ground arith,
    ground arith,
    omega arith,
  ),
)

upper_lem : (root va : ℕ) (s : Vm) → IsTable root s → Upper root va s (walk_level 2 va true root s)
unfolding walk_level Upper new_table
upper_lem root va s h = elim (Bool-cases (is_valid (s.word root (px 2 va)))) [
  | inl v ↦
      (let r : walk_level 2 va true root s ≡ (some (page_of (s.word root (px 2 va))), s) =
          ground (arith, v) in
        subst (Upper root va s) (sym r)
          (h, Kept-refl root s, (s.word root (px 2 va), refl, v, refl)))
  | inr z ↦
      (let r : walk_level 2 va true root s ≡ new_table (root, px 2 va) s = ground (arith, z) in
        subst (Upper root va s) (sym r) (fresh_one root va s s.free h refl z))
]

fresh_two :
    (root va a : ℕ) (s : Vm) (free : List ℕ)
    → IsTable root s
    → s.word root (px 2 va) ≡ a
    → is_valid a ≡ true
    → s.free ≡ free
    → is_valid (s.word (page_of a) (px 1 va)) ≡ false
    → Walked root va s (
        and_next
          (elim free [
            | [] ↦ (none, s)
            | p ∷ rest ↦ (
              some p,
              set_pte (page_of a, px 1 va) (pte_of p + 1) (clear p (record s { free = rest })),
            )
          ])
          (λ pt0 u. (some (pt0, px 0 va), u)))
unfolding Walked IsTable IsSlot set_pte clear
fresh_two root va a s [] h w v e z = (h, Kept-refl root s, e)
fresh_two root va a s (p ∷ rest) (o, h) w v e z =
    let i = px 2 va in
    let j = px 1 va in
    (
      (
        roles_two o root s h p rest e i j a w v z,
        with_two-HasRoles o root s h p rest e i j a w v z,
      ),
      Kept-fresh root s (with_two o root s h p rest e i j a w v z) p rest e
          (with_two-leaf o root s h p rest e i j a w v z) refl refl,
      (
        a,
        pte_of p + 1,
        root_same o root s h p rest e i j a w v z i ∙ w,
        v,
        at_two o root s h p rest e i j a w v z j ∙ ground arith,
        ground arith,
        omega arith,
        refl,
      ),
    )

Walked-Kept :
    (root va : ℕ) (s t : Vm) (r : Option (ℕ × ℕ) × Vm)
    → Kept root s t
    → Walked root va t r
    → Walked root va s r
unfolding Walked
Walked-Kept root va s t (none, u) k (tree, k', e) = (tree, Kept-trans root s t u k k', e)
Walked-Kept root va s t (some q, u) k (tree, k', slot) = (tree, Kept-trans root s t u k k', slot)

lower_lem :
    (root va a : ℕ) (s : Vm)
    → IsTable root s
    → s.word root (px 2 va) ≡ a
    → is_valid a ≡ true
    → Walked root va s
        (and_next (walk_level 1 va true (page_of a) s) (λ pt0 u. (some (pt0, px 0 va), u)))
unfolding walk_level new_table Walked IsSlot
lower_lem root va a s h w v =
    let b = s.word (page_of a) (px 1 va) in
    let finish : Option ℕ × Vm → Option (ℕ × ℕ) × Vm =
      λ r. and_next r (λ pt0 u. (some (pt0, px 0 va), u)) in
    elim (Bool-cases (is_valid b)) [
      | inl v' ↦
          (let r : walk_level 1 va true (page_of a) s ≡ (some (page_of b), s) =
              ground (arith, v') in
            subst (λ x. Walked root va s (finish x)) (sym r)
              (h, Kept-refl root s, (a, b, w, v, refl, v', refl, refl)))
      | inr z ↦
          (let r : walk_level 1 va true (page_of a) s ≡ new_table (page_of a, px 1 va) s =
              ground (arith, z) in
            subst (λ x. Walked root va s (finish x)) (sym r)
              (fresh_two root va a s s.free h w v refl z))
    ]

rounds_lem :
    (root va : ℕ) (s : Vm) (r : Option ℕ × Vm)
    → Upper root va s r
    → Walked root va s (
        and_next r
          (λ pt1 t. and_next (walk_level 1 va true pt1 t) (λ pt0 u. (some (pt0, px 0 va), u))))
unfolding Upper Walked
rounds_lem root va s (none, t) h = h
rounds_lem root va s (some q, t) (tree, k, (a, w, v, e)) = rw e (
    Walked-Kept root va s t
      (and_next (walk_level 1 va true (page_of a) t) (λ pt0 u. (some (pt0, px 0 va), u))) k
      (lower_lem root va a t tree w v))

-- walk that may allocate, on a page table: the PTEs of all addresses and the pages in use stay as they
-- are, and it gives the place of the PTE of its address, or no free page is left.
pub walk_correct :
    (root va : ℕ) (s : Vm)
    → IsTable root s
    → va < maxva
    → Returns (Walked root va s) (walk root va true s)
unfolding walk
walk_correct root va s h low = (
  and_next (walk_level 2 va true root s)
      (λ pt1 t. and_next (walk_level 1 va true pt1 t) (λ pt0 u. (some (pt0, px 0 va), u))),
  ground arith,
  rounds_lem root va s (walk_level 2 va true root s) (upper_lem root va s h),
)

-- what a walk that may not allocate gives
unfoldable pub Found : ℕ → ℕ → Vm → Option (ℕ × ℕ) → Type 0
Found root va s none = leaf root s va ≡ 0
Found root va s (some (q, k)) = IsSlot root s va (q, k) × (leaf root s va ≡ s.word q k)

level_valid :
    (level va pt a : ℕ) (alloc : Bool) (s : Vm)
    → s.word pt (px level va) ≡ a
    → is_valid a ≡ true
    → walk_level level va alloc pt s ≡ (some (page_of a), s)
unfolding walk_level
level_valid level va pt a alloc s w v = rw w (ground (arith, v))

walk-path :
    (root va a b : ℕ) (s : Vm)
    → va < maxva
    → s.word root (px 2 va) ≡ a
    → is_valid a ≡ true
    → s.word (page_of a) (px 1 va) ≡ b
    → is_valid b ≡ true
    → walk root va false s ≡ ok (some (page_of b, px 0 va), s)
unfolding walk
walk-path root va a b s low w v w' v' =
    rw (level_valid 2 va root a false s w v, level_valid 1 va (page_of a) b false s w' v')
      (ground arith)

pub walk_find :
    (root va : ℕ) (s : Vm)
    → va < maxva
    → (slot : Option (ℕ × ℕ)) × (walk root va false s ≡ ok (slot, s)) × Found root va s slot
unfolding walk walk_level Found IsSlot
walk_find root va s low = elim (path_cases root s va) [
  | no_upper z l ↦ (none, ground (arith, z), l)
  | no_lower a w v z l ↦ (none, rw w (ground (arith, v, z)), l)
  | path a b w v w' v' l ↦ (
    some (page_of b, px 0 va),
    walk-path root va a b s low w v w' v',
    ((a, b, w, v, w', v', refl, refl), l),
  )
]
