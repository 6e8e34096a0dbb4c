-- ===== src/Vm/Fresh.antt =====
-- A free page that `walk` (kernel/vm.c) makes a table of the tree.
use io_scheduling.Prelude.{
  ℕ, ◌+◌, ◌≡◌, ◌≢◌, ◌∙◌, sym, ap, subst, refl, arith, true, false, ◌==◌, if◌then◌else◌, update, ◌⊎◌,
  inl, inr, ℕ_discrete, ◌∷◌, List,
}
use io_scheduling.Vm.{Vm, px, page_of, pte_of, is_valid, clear, set_pte}
use io_scheduling.Vm.Tree.{
  leaf, no_upper, no_lower, path, path_cases, leaf-no_upper, leaf-no_lower, leaf-path, is_in,
  AllDifferent, Roles, HasRoles,
}

-- What a walk leaves as it was: the PTEs of all addresses, and the pages that are not free.
pub record Kept (root : ℕ) (s t : Vm) : Type 0 where
  pub leaf : (va : ℕ) → leaf root t va ≡ leaf root s va
  pub bytes : (p : ℕ) → is_in p s.free ≡ false → t.bytes p ≡ s.bytes p
  pub free : (p : ℕ) → is_in p t.free ≡ true → is_in p s.free ≡ true

pub Kept-refl : (root : ℕ) (s : Vm) → Kept root s s
Kept-refl root s = record { leaf = λ va. refl; bytes = λ p f. refl; free = λ p f. f }

pub Kept-trans : (root : ℕ) (s t u : Vm) → Kept root s t → Kept root t u → Kept root s u
Kept-trans root s t u h k = record {
  leaf = λ va. k.leaf va ∙ h.leaf va;
  bytes = λ p f. k.bytes p (ground (arith, f, h.free p)) ∙ h.bytes p f;
  free = λ p f. h.free p (k.free p f);
}

-- Page `p` becomes a table: at place `i` of the root.
module _ (o : Roles) (root : ℕ) (s : Vm) (h : HasRoles o root s) (p : ℕ) (rest : List ℕ)
    (e : s.free ≡ p ∷ rest) where
  rank_p : o.rank p ≡ 0
  unfolding is_in
  rank_p = h.free p (rw (e, is_in) (ground arith))

  rest_free : (q : ℕ) → is_in q rest ≡ true → (o.rank q ≡ 0) × (q ≢ p)
  unfolding is_in AllDifferent
  rest_free q f =
      let d : is_in p rest ≡ false = (subst AllDifferent e h.different).0 in
      (
        h.free q (rw (e, is_in) (ground (arith, f))),
        λ z. absurd (ground (arith, f, d, ap (λ x. is_in x rest) z)),
      )

  -- at place `i` of the root
  module _ (i : ℕ) (empty : is_valid (s.word root i) ≡ false) where
    abbrev pub with_one : Vm
    with_one = set_pte (root, i) (pte_of p + 1) (clear p (record s { free = rest }))

    abbrev pub roles_one : Roles
    roles_one = record o { rank = update o.rank p 2; at = update o.at p i }

    pub at_root : (j : ℕ) → with_one.word root j ≡ (if i == j then pte_of p + 1 else s.word root j)
    unfolding set_pte clear
    at_root j = ground (arith, rank_p, h.top)

    elsewhere : (q j : ℕ) → q ≢ root → with_one.word q j ≡ (if p == q then 0 else s.word q j)
    unfolding set_pte clear
    elsewhere q j ne = ground arith

    pub with_one-HasRoles : HasRoles roles_one root with_one
    unfolding set_pte clear AllDifferent
    with_one-HasRoles = record {
      top = ground (arith, h.top, rank_p);
      one = λ j a w v. elim (ℕ_discrete i j) [
        | yes z ↦ (let q : page_of a ≡ p = ground (arith, at_root j) in ground (arith, q))
        | no ne ↦ ground (arith, at_root j, h.one j a, rank_p)
      ];
      two = λ j k a b w v w' v'. elim (ℕ_discrete i j) [
        | yes z ↦
            (let q : page_of a ≡ p = ground (arith, at_root j) in
              let apart : page_of a ≢ root =
                λ y. absurd (ground (arith, rank_p, h.top, ap o.rank (sym q ∙ y))) in
              absurd (ground (arith, elsewhere (page_of a) k apart)))
        | no ne ↦
            (let w1 : s.word root j ≡ a = ground (arith, at_root j) in
              let (r, g) = h.one j a w1 v in
              let apart : page_of a ≢ root = λ y. absurd (ground (arith, r, h.top, ap o.rank y)) in
              let apart' : page_of a ≢ p = λ y. absurd (ground (arith, r, rank_p, ap o.rank y)) in
              let w2 : s.word (page_of a) k ≡ b = ground (arith, elsewhere (page_of a) k apart) in
              ground (arith, h.two j k a b w1 v w2 v', rank_p))
      ];
      free = λ q f. ground (arith, rest_free q f);
      different = (subst AllDifferent e h.different).1;
    }

    -- an entry of the root that is there stays
    kept_one :
        (va a : ℕ)
        → s.word root (px 2 va) ≡ a
        → is_valid a ≡ true
        → (with_one.word root (px 2 va) ≡ a) × (page_of a ≢ root) × (p ≢ page_of a)
    kept_one va a w v =
        let (r, g) = h.one (px 2 va) a w v in
        (
          ground (arith, at_root (px 2 va), empty, ap (λ x. is_valid (s.word root x))),
          λ y. absurd (ground (arith, r, h.top, ap o.rank y)),
          λ y. absurd (ground (arith, r, rank_p, ap o.rank y)),
        )

    pub with_one-leaf : (va : ℕ) → leaf root with_one va ≡ leaf root s va
    with_one-leaf va = elim (path_cases root s va) [
      | no_upper z l ↦ (elim (ℕ_discrete i (px 2 va)) [
        | yes y ↦
            (let top : with_one.word root (px 2 va) ≡ pte_of p + 1 =
                ground (arith, at_root (px 2 va)) in
              let q : page_of (pte_of p + 1) ≡ p = omega arith in
              let apart : p ≢ root = λ y. absurd (ground (arith, rank_p, h.top, ap o.rank y)) in
              let low : with_one.word (page_of (pte_of p + 1)) (px 1 va) ≡ 0 =
                ap (λ x. with_one.word x (px 1 va)) q
                ∙ elsewhere p (px 1 va) apart
                ∙ ground arith in
              leaf-no_lower root with_one va (pte_of p + 1) top (ground (arith, low)) ∙ sym l)
        | no ne ↦ leaf-no_upper root with_one va (ground (arith, at_root (px 2 va), z)) ∙ sym l
      ])
      | no_lower a w v z l ↦
          (let (top, apart, apart') = kept_one va a w v in
            leaf-no_lower root with_one va a top
              (ground (arith, elsewhere (page_of a) (px 1 va) apart, z))
            ∙ sym l)
      | path a b w v w' v' l ↦
          (let (top, apart, apart') = kept_one va a w v in
            let low : with_one.word (page_of a) (px 1 va) ≡ b =
              ground (arith, elsewhere (page_of a) (px 1 va) apart) in
            let (r, g, g') = h.two (px 2 va) (px 1 va) a b w v w' v' in
            let far : page_of b ≢ root = λ y. absurd (ground (arith, r, h.top, ap o.rank y)) in
            let far' : p ≢ page_of b = λ y. absurd (ground (arith, r, rank_p, ap o.rank y)) in
            leaf-path root with_one va a b top v low v'
            ∙ ground (arith, elsewhere (page_of b) (px 0 va) far)
            ∙ sym l)
    ]

  -- at place `j` of the table that is at place `i` of the root
  module _ (i j a : ℕ) (w : s.word root i ≡ a) (v : is_valid a ≡ true)
      (empty : is_valid (s.word (page_of a) j) ≡ false) where
    abbrev pub with_two : Vm
    with_two = set_pte (page_of a, j) (pte_of p + 1) (clear p (record s { free = rest }))

    abbrev pub roles_two : Roles
    roles_two = record o { rank = update o.rank p 3; up = update o.up p i; at = update o.at p j }

    rank_a : o.rank (page_of a) ≡ 2
    rank_a = (h.one i a w v).0

    pub at_two :
        (k : ℕ)
        → with_two.word (page_of a) k ≡ (if j == k then pte_of p + 1 else s.word (page_of a) k)
    unfolding set_pte clear
    at_two k =
        let apart : p ≢ page_of a = λ y. absurd (ground (arith, rank_a, rank_p, ap o.rank y)) in
        ground (arith, apart)

    beside : (q k : ℕ) → q ≢ page_of a → with_two.word q k ≡ (if p == q then 0 else s.word q k)
    unfolding set_pte clear
    beside q k ne = ground arith

    pub root_same : (k : ℕ) → with_two.word root k ≡ s.word root k
    root_same k =
        let far : root ≢ page_of a = λ y. absurd (ground (arith, rank_a, h.top, ap o.rank y)) in
        let far' : p ≢ root = λ y. absurd (ground (arith, rank_p, h.top, ap o.rank y)) in
        ground (arith, beside root k far, far')

    -- an entry of a table at the second level, in the tree as it is now
    entry_two :
        (k l a' b : ℕ)
        → s.word root k ≡ a'
        → is_valid a' ≡ true
        → with_two.word (page_of a') l ≡ b
        → is_valid b ≡ true
        → (s.word (page_of a') l ≡ b) ⊎ ((k ≡ i) × (l ≡ j) × (b ≡ pte_of p + 1))
    entry_two k l a' b w1 v1 w2 v2 =
        let (r, g) = h.one k a' w1 v1 in
        let far : p ≢ page_of a' = λ y. absurd (ground (arith, r, rank_p, ap o.rank y)) in
        elim (ℕ_discrete (page_of a') (page_of a)) [
          | no ne ↦ inl (ground (arith, beside (page_of a') l ne, far))
          | yes y ↦
              (let there : (if j == l then pte_of p + 1 else s.word (page_of a) l) ≡ b =
                  sym (at_two l) ∙ ap (λ x. with_two.word x l) (sym y) ∙ w2 in
                let same : k ≡ i = sym g ∙ ap o.at y ∙ (h.one i a w v).1 in
                elim (ℕ_discrete l j) [
                  | yes z ↦ inr (same, z, ground (arith, there))
                  | no ne ↦ inl (ap (λ x. s.word x l) y ∙ ground (arith, there))
                ])
        ]

    pub with_two-HasRoles : HasRoles roles_two root with_two
    unfolding set_pte clear AllDifferent
    with_two-HasRoles = record {
      top = ground (arith, h.top, rank_p);
      one = λ k a' w1 v1.
          let (r, g) = h.one k a' (sym (root_same k) ∙ w1) v1 in ground (arith, r, g, rank_p);
      two = λ k l a' b w1 v1 w2 v2. elim (entry_two k l a' b (sym (root_same k) ∙ w1) v1 w2 v2) [
        | inl old ↦ ground (arith, h.two k l a' b (sym (root_same k) ∙ w1) v1 old v2, rank_p)
        | inr (x, y, z) ↦ (let q : page_of b ≡ p = ground (arith, z) in ground (arith, q, x, y))
      ];
      free = λ q f. ground (arith, rest_free q f);
      different = (subst AllDifferent e h.different).1;
    }

    -- an entry of a lower table that is there stays
    kept_two :
        (va a' b : ℕ)
        → s.word root (px 2 va) ≡ a'
        → is_valid a' ≡ true
        → s.word (page_of a') (px 1 va) ≡ b
        → is_valid b ≡ true
        → with_two.word (page_of a') (px 1 va) ≡ b
    kept_two va a' b w1 v1 w2 v2 =
        let (r, g) = h.one (px 2 va) a' w1 v1 in
        let far : p ≢ page_of a' = λ y. absurd (ground (arith, r, rank_p, ap o.rank y)) in
        elim (ℕ_discrete (page_of a') (page_of a)) [
          | no ne ↦ ground (arith, beside (page_of a') (px 1 va) ne, far)
          | yes y ↦
              (let here : s.word (page_of a) (px 1 va) ≡ b =
                  ap (λ x. s.word x (px 1 va)) (sym y) ∙ w2 in
                ap (λ x. with_two.word x (px 1 va)) y
                ∙ at_two (px 1 va)
                ∙ ground (arith, here, empty, ap (λ x. is_valid (s.word (page_of a) x))))
        ]

    pub with_two-leaf : (va : ℕ) → leaf root with_two va ≡ leaf root s va
    with_two-leaf va = elim (path_cases root s va) [
      | no_upper z l ↦
          leaf-no_upper root with_two va (ground (arith, root_same (px 2 va), z)) ∙ sym l
      | no_lower a' w1 v1 z l ↦ (elim (path_cases root with_two va) [
        | no_upper z' l' ↦ l' ∙ sym l
        | no_lower a2 w2 v2 z' l' ↦ l' ∙ sym l
        | path a2 b w2 v2 w3 v3 l' ↦
            (let same : a2 ≡ a' = sym w2 ∙ root_same (px 2 va) ∙ w1 in
              elim (entry_two (px 2 va) (px 1 va) a2 b (sym (root_same (px 2 va)) ∙ w2) v2 w3 v3) [
                | inl old ↦
                    absurd (
                      ground
                        (arith, z, v3, sym (ap (λ x. s.word (page_of x) (px 1 va)) same) ∙ old))
                | inr (x, y, e') ↦
                    (let q : page_of b ≡ p = ground (arith, e') in
                      let apart : p ≢ page_of a =
                        λ y. absurd (ground (arith, rank_a, rank_p, ap o.rank y)) in
                      let zero : with_two.word (page_of b) (px 0 va) ≡ 0 =
                        ap (λ x. with_two.word x (px 0 va)) q
                        ∙ beside p (px 0 va) apart
                        ∙ ground arith in
                      l' ∙ zero ∙ sym l)
              ])
      ])
      | path a' b w1 v1 w2 v2 l ↦
          (let (r, g, g') = h.two (px 2 va) (px 1 va) a' b w1 v1 w2 v2 in
            let far : page_of b ≢ page_of a =
              λ y. absurd (ground (arith, r, rank_a, ap o.rank y)) in
            let far' : p ≢ page_of b = λ y. absurd (ground (arith, r, rank_p, ap o.rank y)) in
            leaf-path root with_two va a' b (root_same (px 2 va) ∙ w1) v1
              (kept_two va a' b w1 v1 w2 v2) v2
            ∙ ground (arith, beside (page_of b) (px 0 va) far)
            ∙ sym l)
    ]
