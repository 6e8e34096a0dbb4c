-- ===== src/Vm/Copy/Fetch.antt =====
-- copyin and copyinstr (kernel/vm.c), and the same byte by byte.
use io_scheduling.Prelude.{
  ℕ, zero, suc, ◌+◌, ◌-◌, ◌%◌, ◌≤◌, ◌<◌, ◌≡◌, ◌∙◌, sym, ap, refl, arith, Bool, true, false, ◌==◌,
  if◌then◌else◌, update, ◌⊎◌, inl, inr, ℕ_discrete, Run, ok, Option, none, some,
}
use io_scheduling.Vm.{Vm, pgsize, round_down}
use io_scheduling.Vm.Translate.{translate, walkaddr_lem}
use io_scheduling.Vm.Copy.{
  move_out, part, copyin_loop, copyin, string_loop, copyinstr_loop, copyinstr,
}
use io_scheduling.Vm.Copy.Bytewise.{
  translate-page, translate-round, part_pos, part_inside, part_next, part_sum,
}

-- `n` bytes from the user addresses from `va` on to offset `i` of `dst`, up to the first address that
-- has no page
pub peek_all : ℕ → ℕ → ℕ → Vm → ℕ → (ℕ → ℕ) → Bool × (ℕ → ℕ)
peek_all zero root va s i dst = (true, dst)
peek_all (suc n) root va s i dst = elim (translate root s va) [
  | none ↦ (false, dst)
  | some page ↦ peek_all n root (va + 1) s (i + 1) (update dst i (s.bytes page (va % pgsize)))
]

-- the same up to a NUL, which has to be among them
pub peek_string : ℕ → ℕ → ℕ → Vm → ℕ → (ℕ → ℕ) → Bool × (ℕ → ℕ)
peek_string zero root va s i dst = (false, dst)
peek_string (suc n) root va s i dst = elim (translate root s va) [
  | none ↦ (false, dst)
  | some page ↦
      (let c = s.bytes page (va % pgsize) in
        let rest = peek_string n root (va + 1) s (i + 1) (update dst i c) in
        if c == 0 then (true, update dst i 0) else rest)
]

module _ (root : ℕ) (s : Vm) where
  peek_all-move_out :
      (n m va page j i : ℕ) (dst : ℕ → ℕ)
      → (0 < n → (translate root s va ≡ some page) × (va % pgsize ≡ j))
      → j + n ≤ pgsize
      → peek_all (n + m) root va s i dst
        ≡ peek_all m root (va + n) s (i + n) (move_out n page j s i dst)
  unfolding peek_all move_out
  peek_all-move_out zero m va page j i dst here inside =
      let a : 0 + m ≡ m = omega arith in
      let b : va + 0 ≡ va = omega arith in let c : i + 0 ≡ i = omega arith in rw (a, b, c)
  peek_all-move_out (suc n) m va page j i dst here inside =
      let (h, place) = here (omega arith) in
      let more =
        peek_all-move_out n m (va + 1) page (j + 1) (i + 1) (update dst i (s.bytes page j))
          (λ some_left. (translate-page root (va + 1) va s (omega arith) ∙ h, omega arith))
          (omega arith) in
      let a : suc n + m ≡ suc (n + m) = omega arith in
      let b : va + suc n ≡ va + 1 + n = omega arith in
      let c : i + suc n ≡ i + 1 + n = omega arith in rw (a, b, c) (ground (arith, h, place, more))

  -- the rest of a string, after what string_loop has done with a part of it
  abbrev after : Bool × (ℕ → ℕ) → ((ℕ → ℕ) → Bool × (ℕ → ℕ)) → Bool × (ℕ → ℕ)
  after (true, dst) next = (true, dst)
  after (false, dst) next = next dst

  peek_string-string_loop :
      (n m va page j i : ℕ) (dst : ℕ → ℕ)
      → (0 < n → (translate root s va ≡ some page) × (va % pgsize ≡ j))
      → j + n ≤ pgsize
      → peek_string (n + m) root va s i dst
        ≡ after (string_loop n page j s i dst) (λ d. peek_string m root (va + n) s (i + n) d)
  unfolding peek_string string_loop
  peek_string-string_loop zero m va page j i dst here inside =
      let a : 0 + m ≡ m = omega arith in
      let b : va + 0 ≡ va = omega arith in let c : i + 0 ≡ i = omega arith in rw (a, b, c)
  peek_string-string_loop (suc n) m va page j i dst here inside =
      let (h, place) = here (omega arith) in
      let more =
        peek_string-string_loop n m (va + 1) page (j + 1) (i + 1) (update dst i (s.bytes page j))
          (λ some_left. (translate-page root (va + 1) va s (omega arith) ∙ h, omega arith))
          (omega arith) in
      let a : suc n + m ≡ suc (n + m) = omega arith in
      let b : va + suc n ≡ va + 1 + n = omega arith in
      let c : i + suc n ≡ i + 1 + n = omega arith in
      elim (ℕ_discrete (s.bytes page j) 0) [
        | yes z ↦ rw (a, b, c) (ground (arith, h, place, z))
        | no ne ↦ rw (a, b, c) (ground (arith, h, place, ne, more))
      ]

  peek_all-next :
      (m va vb i : ℕ) (dst : ℕ → ℕ)
      → (m ≡ 0) ⊎ (va ≡ vb)
      → peek_all m root va s i dst ≡ peek_all m root vb s i dst
  unfolding peek_all
  peek_all-next m va vb i dst (inl z) = rw z refl
  peek_all-next m va vb i dst (inr e) = rw e refl

  peek_string-next :
      (m va vb i : ℕ) (dst : ℕ → ℕ)
      → (m ≡ 0) ⊎ (va ≡ vb)
      → peek_string m root va s i dst ≡ peek_string m root vb s i dst
  unfolding peek_string
  peek_string-next m va vb i dst (inl z) = rw z refl
  peek_string-next m va vb i dst (inr e) = rw e refl

  peek_all-stop :
      (n va i : ℕ) (dst : ℕ → ℕ)
      → 0 < n
      → translate root s va ≡ none
      → peek_all n root va s i dst ≡ (false, dst)
  unfolding peek_all
  peek_all-stop zero va i dst f e = absurd (omega arith)
  peek_all-stop (suc n) va i dst f e = rw (e, peek_all) refl

  peek_string-stop :
      (n va i : ℕ) (dst : ℕ → ℕ)
      → 0 < n
      → translate root s va ≡ none
      → peek_string n root va s i dst ≡ (false, dst)
  unfolding peek_string
  peek_string-stop zero va i dst f e = absurd (omega arith)
  peek_string-stop (suc n) va i dst f e = rw (e, peek_string) refl

  peek_round :
      (va i len : ℕ) (dst : ℕ → ℕ) (next : (ℕ → ℕ) → Run (Bool × (ℕ → ℕ)))
      → 0 < len
      → ((d : ℕ → ℕ)
          → next d
            ≡ ok (peek_all (len - part va len) root (round_down va + pgsize) s (i + part va len) d))
      → (r : Option ℕ) → translate root s va ≡ r
      → (elim r [
        | none ↦ ok (false, dst)
        | some page ↦ next (move_out (part va len) page (va - round_down va) s i dst)
      ])
        ≡ ok (peek_all len root va s i dst)
  peek_round va i len dst next f rec none e = ap ok (sym (peek_all-stop len va i dst f e))
  peek_round va i len dst next f rec (some page) e =
      let n = part va len in
      let d = move_out n page (va - round_down va) s i dst in
      rec d
      ∙ ap ok
          (peek_all-next (len - n) (round_down va + pgsize) (va + n) (i + n) d (part_next va len f))
      ∙ ap ok (
          sym (
            peek_all-move_out n (len - n) va page (va - round_down va) i dst (λ g. (e, omega arith))
              (part_inside va len f)))
      ∙ ap (λ x. ok (peek_all x root va s i dst)) (sym (part_sum va len f))

  copyin_loop_lem :
      (k va i len : ℕ) (dst : ℕ → ℕ)
      → len < k
      → copyin_loop k root dst i va len s ≡ ok (peek_all len root va s i dst)
  unfolding copyin_loop peek_all
  copyin_loop_lem zero va i len dst fuel = absurd (omega arith)
  copyin_loop_lem (suc k) va i len dst fuel = elim (ℕ_discrete len 0) [
    | yes z ↦ rw z (ground arith)
    | no ne ↦
        (let f : 0 < len = omega arith in
          let p = part_pos va len f in
          let next : (ℕ → ℕ) → Run (Bool × (ℕ → ℕ)) = λ d.
            copyin_loop k root d (i + part va len) (round_down va + pgsize) (len - part va len) s in
          let rec = λ (d : ℕ → ℕ).
            copyin_loop_lem k (round_down va + pgsize) (i + part va len) (len - part va len) d
              (omega arith) in
          let w = walkaddr_lem root (round_down va) s ∙ ap ok (translate-round root va s) in
          let round = peek_round va i len dst next f rec (translate root s va) refl in
          ground (arith, ne, w, round))
  ]

  -- the outcome of a round of copyinstr
  string_round :
      (r : Bool × (ℕ → ℕ)) (next : (ℕ → ℕ) → Run (Bool × (ℕ → ℕ))) (peek : (ℕ → ℕ) → Bool × (ℕ → ℕ))
      → ((d : ℕ → ℕ) → next d ≡ ok (peek d))
      → (if r.0 then ok (true, r.1) else next r.1) ≡ ok (after r peek)
  string_round (true, d) next peek rec = refl
  string_round (false, d) next peek rec = rec d

  copyinstr_round :
      (va i len : ℕ) (dst : ℕ → ℕ) (next : (ℕ → ℕ) → Run (Bool × (ℕ → ℕ)))
      → 0 < len
      → ((d : ℕ → ℕ)
          → next d
            ≡ ok (
                peek_string
                  (len - part va len)
                  root
                  (round_down va + pgsize)
                  s
                  (i + part va len)
                  d))
      → (r : Option ℕ) → translate root s va ≡ r
      → (elim r [
        | none ↦ ok (false, dst)
        | some page ↦
            (let (got_null, d) = string_loop (part va len) page (va - round_down va) s i dst in
              let rest = next d in if got_null then ok (true, d) else rest)
      ])
        ≡ ok (peek_string len root va s i dst)
  copyinstr_round va i len dst next f rec none e = ap ok (sym (peek_string-stop len va i dst f e))
  copyinstr_round va i len dst next f rec (some page) e =
      let n = part va len in
      let got = string_loop n page (va - round_down va) s i dst in
      let peek : (ℕ → ℕ) → Bool × (ℕ → ℕ) = λ d. peek_string (len - n) root (va + n) s (i + n) d in
      string_round got next peek (λ d.
        rec d
        ∙ ap ok (
            peek_string-next (len - n) (round_down va + pgsize) (va + n) (i + n) d
              (part_next va len f)))
      ∙ ap ok (
          sym (
            peek_string-string_loop n (len - n) va page (va - round_down va) i dst
              (λ g. (e, omega arith)) (part_inside va len f)))
      ∙ ap (λ x. ok (peek_string x root va s i dst)) (sym (part_sum va len f))

  copyinstr_loop_lem :
      (k va i max : ℕ) (dst : ℕ → ℕ)
      → max < k
      → copyinstr_loop k root dst i va max s ≡ ok (peek_string max root va s i dst)
  unfolding copyinstr_loop peek_string
  copyinstr_loop_lem zero va i max dst fuel = absurd (omega arith)
  copyinstr_loop_lem (suc k) va i max dst fuel = elim (ℕ_discrete max 0) [
    | yes z ↦ rw z (ground arith)
    | no ne ↦
        (let f : 0 < max = omega arith in
          let p = part_pos va max f in
          let next : (ℕ → ℕ) → Run (Bool × (ℕ → ℕ)) = λ d.
            copyinstr_loop k root d (i + part va max) (round_down va + pgsize) (max - part va max)
              s in
          let rec = λ (d : ℕ → ℕ).
            copyinstr_loop_lem k (round_down va + pgsize) (i + part va max) (max - part va max) d
              (omega arith) in
          let w = walkaddr_lem root (round_down va) s ∙ ap ok (translate-round root va s) in
          let round = copyinstr_round va i max dst next f rec (translate root s va) refl in
          ground (arith, ne, w, round))
  ]

-- copyin ends, and does what a copy byte by byte does, each byte from the page of its own address: it
-- stops with -1 at the first address that has no user page.
pub copyin-peek_all :
    (root : ℕ) (dst : ℕ → ℕ) (srcva len : ℕ) (s : Vm)
    → copyin root dst srcva len s ≡ ok (peek_all len root srcva s 0 dst)
unfolding copyin
copyin-peek_all root dst srcva len s =
    copyin_loop_lem root s (len + 1) srcva 0 len dst (omega arith)

-- copyinstr ends, and does what a copy byte by byte does that ends after a NUL: it answers -1 at the
-- first address that has no user page, and if there is no NUL among the first `max` bytes.
pub copyinstr-peek_string :
    (root : ℕ) (dst : ℕ → ℕ) (srcva max : ℕ) (s : Vm)
    → copyinstr root dst srcva max s ≡ ok (peek_string max root srcva s 0 dst)
unfolding copyinstr
copyinstr-peek_string root dst srcva max s =
    copyinstr_loop_lem root s (max + 1) srcva 0 max dst (omega arith)
