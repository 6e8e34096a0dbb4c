-- ===== src/Vm/Store.antt =====
-- Writing a PTE (kernel/vm.c).
use io_scheduling.Prelude.{
  ℕ, ◌/◌, ◌<◌, ◌≡◌, ◌≢◌, ◌∙◌, sym, ap, refl, arith, true, ◌==◌, ◌&&◌, if◌then◌else◌, ℕ_discrete,
}
use io_scheduling.Vm.{Vm, px, page_of, is_valid, set_pte, maxva, pgsize}
use io_scheduling.Vm.Tree.{
  leaf, no_upper, no_lower, path, path_cases, leaf-path, leaf-no_upper, leaf-no_lower, Roles,
  HasRoles, IsTable,
}
use io_scheduling.Vm.Walk.{IsSlot}

same_page :
    (va u x y : ℕ)
    → va < maxva
    → u < maxva
    → (if px 2 va == px 2 u && (px 1 va == px 1 u && px 0 va == px 0 u) then x else y)
      ≡ (if va / pgsize == u / pgsize then x else y)
same_page va u x y l l' = elim (ℕ_discrete (va / pgsize) (u / pgsize)) [
  | yes e ↦
      (let a : px 2 va ≡ px 2 u = omega arith in
        let b : px 1 va ≡ px 1 u = omega arith in
        let c : px 0 va ≡ px 0 u = omega arith in ground (arith, a, b, c, e))
  | no ne ↦ (elim (ℕ_discrete (px 2 va) (px 2 u)) [
    | no d ↦ ground (arith, d, ne)
    | yes a ↦ (elim (ℕ_discrete (px 1 va) (px 1 u)) [
      | no d ↦ ground (arith, d, ne)
      | yes b ↦ (let c : px 0 va ≢ px 0 u = λ z. ne (omega arith) in ground (arith, c, ne))
    ])
  ])
]

-- The word `v` is written at the place of the PTE of `va`.
module _ (o : Roles) (root : ℕ) (s : Vm) (h : HasRoles o root s) (va a b v : ℕ)
    (w : s.word root (px 2 va) ≡ a) (va2 : is_valid a ≡ true)
    (w' : s.word (page_of a) (px 1 va) ≡ b) (vb : is_valid b ≡ true) where
  abbrev written : Vm
  written = set_pte (page_of b, px 0 va) v s

  rank_b : o.rank (page_of b) ≡ 3
  rank_b = (h.two (px 2 va) (px 1 va) a b w va2 w' vb).0

  other : (q k : ℕ) → o.rank q ≢ 3 → written.word q k ≡ s.word q k
  unfolding set_pte
  other q k ne =
      let apart : page_of b ≢ q = λ y. ne (ap o.rank (sym y) ∙ rank_b) in ground (arith, apart)

  outside : (q k : ℕ) → q ≢ page_of b → written.word q k ≡ s.word q k
  unfolding set_pte
  outside q k ne = ground arith

  upper_same : (k : ℕ) → written.word root k ≡ s.word root k
  upper_same k = other root k (λ y. absurd (ground (arith, h.top, y)))

  lower_same :
      (i c k : ℕ)
      → s.word root i ≡ c
      → is_valid c ≡ true
      → written.word (page_of c) k ≡ s.word (page_of c) k
  lower_same i c k e vc = other (page_of c) k (λ y. absurd (ground (arith, h.one i c e vc, y)))

  written-HasRoles : HasRoles o root written
  unfolding set_pte
  written-HasRoles = record {
    top = h.top;
    one = λ i c e vc. h.one i c (sym (upper_same i) ∙ e) vc;
    two = λ i j c d e vc e' vd.
        let e1 = sym (upper_same i) ∙ e in
        h.two i j c d e1 vc (sym (lower_same i c j e1 vc) ∙ e') vd;
    free = h.free;
    different = h.different;
  }

  -- an address with the same two upper indices has its PTE in the same table
  shared :
      (u c : ℕ)
      → px 2 va ≡ px 2 u
      → px 1 va ≡ px 1 u
      → s.word root (px 2 u) ≡ c
      → s.word (page_of c) (px 1 u) ≡ b
  shared u c x y e =
      let same : c ≡ a = sym e ∙ ap (s.word root) (sym x) ∙ w in
      ap (λ z. s.word (page_of z) (px 1 u)) same ∙ ap (s.word (page_of a)) (sym y) ∙ w'

  in_table :
      (k : ℕ) → written.word (page_of b) k ≡ (if px 0 va == k then v else s.word (page_of b) k)
  unfolding set_pte
  in_table k = ground arith

  -- the PTE of each address
  written-leaf :
      (u : ℕ)
      → leaf root written u ≡ (
          if px 2 va == px 2 u && (px 1 va == px 1 u && px 0 va == px 0 u)
          then v
          else leaf root s u)
  written-leaf u = elim (path_cases root s u) [
    | no_upper z l ↦
        (let l' = leaf-no_upper root written u (ground (arith, upper_same (px 2 u), z)) in
          let apart : px 2 va ≢ px 2 u =
            λ y. absurd (ground (arith, va2, z, w, ap (s.word root) y)) in
          l' ∙ ground (arith, apart, l))
    | no_lower c e vc z l ↦
        (let l' =
            leaf-no_lower root written u c (upper_same (px 2 u) ∙ e)
              (ap is_valid (lower_same (px 2 u) c (px 1 u) e vc) ∙ z) in
          elim (ℕ_discrete (px 2 va) (px 2 u)) [
            | no ne ↦ l' ∙ ground (arith, ne, l)
            | yes x ↦ (elim (ℕ_discrete (px 1 va) (px 1 u)) [
              | no ne ↦ l' ∙ ground (arith, ne, l)
              | yes y ↦ absurd (ground (arith, z, vb, shared u c x y e))
            ])
          ])
    | path c d e vc e' vd l ↦
        (let l' =
            leaf-path root written u c d (upper_same (px 2 u) ∙ e) vc
              (lower_same (px 2 u) c (px 1 u) e vc ∙ e') vd in
          let (r, up, at) = h.two (px 2 u) (px 1 u) c d e vc e' vd in
          let (r', up', at') = h.two (px 2 va) (px 1 va) a b w va2 w' vb in
          elim (ℕ_discrete (page_of d) (page_of b)) [
            | yes q ↦
                (let x : px 2 va ≡ px 2 u = sym up' ∙ ap o.up (sym q) ∙ up in
                  let y : px 1 va ≡ px 1 u = sym at' ∙ ap o.at (sym q) ∙ at in
                  let l2 : leaf root s u ≡ s.word (page_of b) (px 0 u) =
                    l ∙ ap (λ z. s.word z (px 0 u)) q in
                  l'
                  ∙ ap (λ z. written.word z (px 0 u)) q
                  ∙ in_table (px 0 u)
                  ∙ ground (arith, x, y, l2))
            | no ne ↦
                (let same : written.word (page_of d) (px 0 u) ≡ s.word (page_of d) (px 0 u) =
                    outside (page_of d) (px 0 u) ne in
                  elim (ℕ_discrete (px 2 va) (px 2 u)) [
                    | no n2 ↦ l' ∙ same ∙ ground (arith, n2, l)
                    | yes x ↦ (elim (ℕ_discrete (px 1 va) (px 1 u)) [
                      | no n1 ↦ l' ∙ same ∙ ground (arith, n1, l)
                      | yes y ↦ absurd (ne (ap page_of (sym e' ∙ shared u c x y e)))
                    ])
                  ])
          ])
  ]

pub slot-leaf :
    (root va : ℕ) (s : Vm) (q k : ℕ) → IsSlot root s va (q, k) → leaf root s va ≡ s.word q k
unfolding IsSlot
slot-leaf root va s q k (a, b, w, v, w', v', e, e') =
    leaf-path root s va a b w v w' v' ∙ ground (arith, e, e')

-- what a PTE that is written at the place of `va` changes
pub record Stored (root va v : ℕ) (s t : Vm) : Type 0 where
  pub table : IsTable root t
  pub leaf :
      (u : ℕ) → u < maxva → leaf root t u ≡ (if va / pgsize == u / pgsize then v else leaf root s u)
  pub free : t.free ≡ s.free
  pub bytes : t.bytes ≡ s.bytes

pub set_pte-Stored :
    (root va v : ℕ) (s : Vm) (slot : ℕ × ℕ)
    → IsTable root s
    → IsSlot root s va slot
    → va < maxva
    → Stored root va v s (set_pte slot v s)
unfolding IsTable IsSlot set_pte
set_pte-Stored root va v s (q, k) (o, h) (a, b, w, va2, w', vb, e, e') low =
    rw (e, e')
      (record {
        table = (o, written-HasRoles o root s h va a b v w va2 w' vb);
        leaf = λ u l.
            written-leaf o root s h va a b v w va2 w' vb u ∙ same_page va u v (leaf root s u) low l;
        free = refl;
        bytes = refl;
      })
