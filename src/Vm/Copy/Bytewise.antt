-- ===== src/Vm/Copy/Bytewise.antt =====
-- copyout (kernel/vm.c), and the same byte by byte.
use io_scheduling.Prelude.{
  ℕ, zero, suc, ◌+◌, ◌-◌, ◌/◌, ◌%◌, ◌≤◌, ◌<◌, ◌≡◌, ◌∙◌, sym, ap, refl, arith, Bool, true, false,
  ltb, ◌⊎◌, inl, inr, ℕ_discrete, dec_lt, Run, ok, Option, none, some,
}
use io_scheduling.Vm.{Vm, px, pgsize, round_down, maxva}
use io_scheduling.Vm.Tree.{leaf}
use io_scheduling.Vm.Translate.{translate, walkaddr_lem}
use io_scheduling.Vm.Copy.{poke, move_in, part, copyout_loop, copyout}

pub translate-page :
    (root va vb : ℕ) (s : Vm)
    → va / pgsize ≡ vb / pgsize
    → translate root s va ≡ translate root s vb
unfolding translate leaf
translate-page root va vb s e =
    let a : px 2 va ≡ px 2 vb = omega arith in
    let b : px 1 va ≡ px 1 vb = omega arith in
    let c : px 0 va ≡ px 0 vb = omega arith in
    let d : ltb va maxva ≡ ltb vb maxva = ground arith in rw (a, b, c, d)

-- a byte of user memory does not change the page table
translate-poke :
    (root va page j c : ℕ) (s : Vm) → translate root (poke page j c s) va ≡ translate root s va
unfolding translate leaf poke
translate-poke root va page j c s = refl

-- `n` bytes from offset `i` of `src` to the user addresses from `va` on, up to the first one that has
-- no page
pub poke_all : ℕ → ℕ → ℕ → (ℕ → ℕ) → ℕ → Vm → Bool × Vm
poke_all zero root va src i s = (true, s)
poke_all (suc n) root va src i s = elim (translate root s va) [
  | none ↦ (false, s)
  | some page ↦ poke_all n root (va + 1) src (i + 1) (poke page (va % pgsize) (src i) s)
]

poke_all-move_in :
    (n m root va page j : ℕ) (src : ℕ → ℕ) (i : ℕ) (s : Vm)
    → (0 < n → (translate root s va ≡ some page) × (va % pgsize ≡ j))
    → j + n ≤ pgsize
    → poke_all (n + m) root va src i s
      ≡ poke_all m root (va + n) src (i + n) (move_in n page j src i s)
unfolding poke_all move_in
poke_all-move_in zero m root va page j src i s here inside =
    let a : 0 + m ≡ m = omega arith in
    let b : va + 0 ≡ va = omega arith in let c : i + 0 ≡ i = omega arith in rw (a, b, c)
poke_all-move_in (suc n) m root va page j src i s here inside =
    let (h, place) = here (omega arith) in
    let t = poke page j (src i) s in
    let more =
      poke_all-move_in n m root (va + 1) page (j + 1) src (i + 1) t
        (λ some_left. (
          translate-poke root (va + 1) page j (src i) s
              ∙ translate-page root (va + 1) va s (omega arith)
              ∙ h,
          omega arith,
        ))
        (omega arith) in
    let a : suc n + m ≡ suc (n + m) = omega arith in
    let b : va + suc n ≡ va + 1 + n = omega arith in
    let c : i + suc n ≡ i + 1 + n = omega arith in rw (a, b, c) (ground (arith, h, place, more))

-- where the next round starts
module _ (va len : ℕ) (some_left : 0 < len) where
  pub part_le : part va len ≤ len
  part_le = ground arith

  pub part_pos : 0 < part va len
  part_pos = ground arith

  pub part_inside : va - round_down va + part va len ≤ pgsize
  part_inside = ground arith

  pub part_next : (len - part va len ≡ 0) ⊎ (round_down va + pgsize ≡ va + part va len)
  part_next = elim (dec_lt len (pgsize - (va - round_down va))) [
    | yes l ↦ inl (ground arith)
    | no n ↦ inr (ground arith)
  ]

  pub part_sum : len ≡ part va len + (len - part va len)
  part_sum = let l = part_le in omega arith

poke_all-next :
    (m root va vb : ℕ) (src : ℕ → ℕ) (i : ℕ) (s : Vm)
    → (m ≡ 0) ⊎ (va ≡ vb)
    → poke_all m root va src i s ≡ poke_all m root vb src i s
unfolding poke_all
poke_all-next m root va vb src i s (inl z) = rw z refl
poke_all-next m root va vb src i s (inr e) = rw e refl

poke_all-stop :
    (n root va : ℕ) (src : ℕ → ℕ) (i : ℕ) (s : Vm)
    → 0 < n
    → translate root s va ≡ none
    → poke_all n root va src i s ≡ (false, s)
unfolding poke_all
poke_all-stop zero root va src i s f e = absurd (omega arith)
poke_all-stop (suc n) root va src i s f e = rw (e, poke_all) refl

pub translate-round :
    (root va : ℕ) (s : Vm) → translate root s (round_down va) ≡ translate root s va
translate-round root va s = translate-page root (round_down va) va s (omega arith)

poke_round :
    (root va : ℕ) (src : ℕ → ℕ) (i len : ℕ) (s : Vm) (next : Vm → Run (Bool × Vm))
    → 0 < len
    → ((t : Vm)
        → next t
          ≡ ok (poke_all (len - part va len) root (round_down va + pgsize) src (i + part va len) t))
    → (r : Option ℕ) → translate root s va ≡ r
    → (elim r [
      | none ↦ ok (false, s)
      | some page ↦ next (move_in (part va len) page (va - round_down va) src i s)
    ])
      ≡ ok (poke_all len root va src i s)
poke_round root va src i len s next f rec none e =
    ap ok (sym (poke_all-stop len root va src i s f e))
poke_round root va src i len s next f rec (some page) e =
    let n = part va len in
    let t = move_in n page (va - round_down va) src i s in
    rec t
    ∙ ap ok (
        poke_all-next (len - n) root (round_down va + pgsize) (va + n) src (i + n) t
          (part_next va len f))
    ∙ ap ok (
        sym (
          poke_all-move_in n (len - n) root va page (va - round_down va) src i s
            (λ g. (e, omega arith)) (part_inside va len f)))
    ∙ ap (λ x. ok (poke_all x root va src i s)) (sym (part_sum va len f))

copyout_loop_lem :
    (k root va : ℕ) (src : ℕ → ℕ) (i len : ℕ) (s : Vm)
    → len < k
    → copyout_loop k root va src i len s ≡ ok (poke_all len root va src i s)
unfolding copyout_loop poke_all
copyout_loop_lem zero root va src i len s fuel = absurd (omega arith)
copyout_loop_lem (suc k) root va src i len s fuel = elim (ℕ_discrete len 0) [
  | yes z ↦ rw z (ground arith)
  | no ne ↦
      (let f : 0 < len = omega arith in
        let p = part_pos va len f in
        let next : Vm → Run (Bool × Vm) = λ t.
          copyout_loop k root (round_down va + pgsize) src (i + part va len) (len - part va len)
            t in
        let rec = λ (t : Vm).
          copyout_loop_lem k root (round_down va + pgsize) src (i + part va len) (len - part va len)
            t (omega arith) in
        let w = walkaddr_lem root (round_down va) s ∙ ap ok (translate-round root va s) in
        let round = poke_round root va src i len s next f rec (translate root s va) refl in
        ground (arith, ne, w, round))
]

-- copyout ends, and does what a copy byte by byte does, each byte to the page of its own address: it
-- stops with -1 at the first address that has no user page, with all bytes before it written.
pub copyout-poke_all :
    (root va : ℕ) (src : ℕ → ℕ) (len : ℕ) (s : Vm)
    → copyout root va src len s ≡ ok (poke_all len root va src 0 s)
unfolding copyout
copyout-poke_all root va src len s = copyout_loop_lem (len + 1) root va src 0 len s (omega arith)
