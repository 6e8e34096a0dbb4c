-- ===== src/Fs/Bitmap.antt =====
-- `balloc` and `bfree` (kernel/fs.c).
use io_scheduling.Prelude.{
  ℕ, zero, suc, ◌+◌, ◌-◌, ◌*◌, ◌/◌, ◌%◌, ◌≤◌, ◌<◌, ◌≡◌, ◌≢◌, ◌∙◌, ap, refl, arith, Bool, true,
  false, not, ltb, ◌==◌, ◌&&◌, ◌||◌, if◌then◌else◌, if_elim, ◌⊎◌, inl, inr, ℕ_discrete, dec_lt,
  Option, none, some, Run, ok, stop, panic, Returns, Bool-cases, ◌∷◌, subst,
}
use io_scheduling.Fs.{
  Fs, bpb, test_bit, set_bit, bblock, bzero, bit_loop, block_loop, balloc, bfree,
}

-- block `b` is marked as used in the free map
unfoldable pub is_used : Fs → ℕ → Bool
is_used s b = test_bit (bblock b s) (b % bpb) s

-- the first free bit from `bi` on, of the `k` bits there
FirstFree : ℕ → ℕ → ℕ → Fs → Option ℕ → Type 0
FirstFree k b bi s none = (j : ℕ) → bi ≤ j → j < bi + k → b + j < s.size → is_used s (b + j) ≡ true
FirstFree k b bi s (some i) =
    (bi ≤ i)
    × (i < bi + k)
    × (b + i < s.size)
    × (is_used s (b + i) ≡ false)
    × ((j : ℕ) → bi ≤ j → j < i → is_used s (b + j) ≡ true)

used_lem :
    (b i : ℕ) (s : Fs) → b % bpb ≡ 0 → i < bpb → is_used s (b + i) ≡ test_bit (bblock b s) i s
unfolding is_used
used_lem b i s a f =
    let e : (b + i) / bpb ≡ b / bpb = omega arith in
    let e' : (b + i) % bpb ≡ i = omega arith in rw (e, e')

FirstFree-extend :
    (k b bi : ℕ) (s : Fs) (r : Option ℕ)
    → is_used s (b + bi) ≡ true
    → FirstFree k b (bi + 1) s r
    → FirstFree (suc k) b bi s r
unfolding FirstFree
FirstFree-extend k b bi s none u h =
    λ j f t g. elim (ℕ_discrete j bi) [ yes e ↦ rw e u | no ne ↦ h j (omega arith) (omega arith) g ]
FirstFree-extend k b bi s (some i) u (f, t, g, free, before) = (
  omega arith,
  omega arith,
  g,
  free,
  λ j f t. elim (ℕ_discrete j bi) [ yes e ↦ rw e u | no ne ↦ before j (omega arith) t ],
)

bit_loop_lem :
    (k b bi : ℕ) (s : Fs) → b % bpb ≡ 0 → bi + k ≤ bpb → FirstFree k b bi s (bit_loop k b bi s)
unfolding bit_loop FirstFree
bit_loop_lem zero b bi s a f = λ j g t l. absurd (omega arith)
bit_loop_lem (suc k) b bi s a f =
    let rest = bit_loop_lem k b (bi + 1) s a (omega arith) in
    let u = used_lem b bi s a (omega arith) in
    if_elim (FirstFree (suc k) b bi s) (ltb (b + bi) s.size)
      (λ inside.
        if_elim (FirstFree (suc k) b bi s) (test_bit (bblock b s) bi s)
          (λ set. FirstFree-extend k b bi s (bit_loop k b (bi + 1) s) (u ∙ set) rest)
          (λ clear.
            (omega arith, omega arith, ground arith, u ∙ clear, λ j g t. absurd (omega arith))))
      (λ outside. λ j g t l. absurd (ground arith))

-- two blocks with the same place in the free map
same_bit :
    (a b m : ℕ)
    → a / bpb + m ≡ b / bpb + m
    → a % bpb / 8 ≡ b % bpb / 8
    → a % bpb % 8 ≡ b % bpb % 8
    → a ≡ b
same_bit a b m e f g = omega arith

set_bit_lem :
    (a b : ℕ) (v : Bool) (s : Fs)
    → is_used (set_bit (bblock b s) (b % bpb) v s) a ≡ (if a == b then v else is_used s a)
unfolding is_used set_bit
set_bit_lem a b v s = elim (ℕ_discrete a b) [
  | yes e ↦ rw e (ground arith)
  | no ne ↦
      (let c : (a / bpb + s.bmapstart ≡ b / bpb + s.bmapstart)
            → (a % bpb / 8 ≡ b % bpb / 8)
            → a % bpb % 8 ≢ b % bpb % 8 =
          λ e f g. ne (same_bit a b s.bmapstart e f g) in
        ground (arith, c))
]

-- Block `b` was the first free one, and is used and zero now; nothing else changed in the map and
-- the blocks, and both blocks that changed are in the log.
pub record Taken (b : ℕ) (s t : Fs) : Type 0 where
  pub inside : b < s.size
  pub free : is_used s b ≡ false
  pub first : (a : ℕ) → a < b → is_used s a ≡ true
  pub used : (a : ℕ) → is_used t a ≡ ((a == b) || is_used s a)
  pub zeroed : (j : ℕ) → t.words b j ≡ 0
  pub others : (a : ℕ) → a ≢ b → t.words a ≡ s.words a
  pub blank : (j : ℕ) → t.bytes b j ≡ 0
  pub contents : (a : ℕ) → a ≢ b → t.bytes a ≡ s.bytes a
  pub dinode : t.dinode ≡ s.dinode
  pub size : t.size ≡ s.size
  pub logged : t.logged ≡ b ∷ bblock b s ∷ s.logged

-- what balloc answers
pub Allocated : Fs → Run (ℕ × Fs) → Type 0
Allocated s (ok (b, t)) = Taken b s t
Allocated s (stop e) = (e ≡ panic) × ((a : ℕ) → a < s.size → is_used s a ≡ true)

Taken-mark :
    (b : ℕ) (s : Fs)
    → b < s.size
    → is_used s b ≡ false
    → ((a : ℕ) → a < b → is_used s a ≡ true)
    → Taken b s (bzero b (set_bit (bblock b s) (b % bpb) true s))
unfolding bzero set_bit is_used
Taken-mark b s inside free first = record {
  inside = inside;
  free = free;
  first = first;
  used = λ a. used_after a;
  zeroed = λ j. ground arith;
  others = λ a ne. ground arith;
  blank = λ j. ground arith;
  contents = λ a ne. ground arith;
  dinode = refl;
  size = refl;
  logged = refl;
}
  where
    used_after :
        (a : ℕ)
        → is_used (bzero b (set_bit (bblock b s) (b % bpb) true s)) a ≡ ((a == b) || is_used s a)
    used_after a = set_bit_lem a b true s ∙ ground arith

block_loop_lem :
    (k b : ℕ) (s : Fs)
    → b % bpb ≡ 0
    → s.size ≤ b + k * bpb
    → ((a : ℕ) → a < b → a < s.size → is_used s a ≡ true)
    → Allocated s (block_loop k b s)
unfolding block_loop Allocated FirstFree
block_loop_lem zero b s e f all = (refl, λ a g. all a (omega arith) g)
block_loop_lem (suc k) b s e f all =
    found (λ h. block_loop_lem k (b + bpb) s (omega arith) (omega arith) h) (bit_loop bpb b 0 s)
      (bit_loop_lem bpb b 0 s e (omega arith))
  where
    upto :
        (i : ℕ)
        → ((j : ℕ) → 0 ≤ j → j < i → b + j < s.size → is_used s (b + j) ≡ true)
        → (a : ℕ) → a < b + i
        → a < s.size
        → is_used s a ≡ true
    upto i h a g l = elim (dec_lt a b) [
      | yes less ↦ all a less l
      | no more ↦
          (let c : b + (a - b) ≡ a = omega arith in
            subst (λ x. is_used s x ≡ true) c (h (a - b) (omega arith) (omega arith) (omega arith)))
    ]

    found :
        (((a : ℕ) → a < b + bpb → a < s.size → is_used s a ≡ true)
          → Allocated s (block_loop k (b + bpb) s))
        → (r : Option ℕ) → FirstFree bpb b 0 s r
        → Allocated s (elim r [
          | some bi ↦ ok (b + bi, bzero (b + bi) (set_bit (bblock b s) bi true s))
          | none ↦ block_loop k (b + bpb) s
        ])
    found on none h = on (λ a g l. upto bpb (λ j p q r. h j p (omega arith) r) a g l)
    found on (some i) (z, low, inside, free, before) =
        let d : bblock (b + i) s ≡ bblock b s = omega arith in
        let d' : (b + i) % bpb ≡ i = omega arith in
        subst (λ x. Taken (b + i) s (bzero (b + i) (set_bit x i true s))) d
          (subst (λ x. Taken (b + i) s (bzero (b + i) (set_bit (bblock (b + i) s) x true s))) d'
            (Taken-mark (b + i) s inside free
              (λ a g. upto i (λ j p q l. before j p q) a g (omega arith))))

-- balloc takes the first block that is free in the map, marks exactly it as used and zeroes it; it
-- panics exactly where no block is free.
pub balloc_correct : (s : Fs) → Allocated s (balloc s)
unfolding balloc
balloc_correct s =
    block_loop_lem ((s.size + bpb - 1) / bpb) 0 s refl (omega arith) (λ a f l. absurd (omega arith))

pub balloc_cases :
    (s : Fs)
    → ((b : ℕ) × (t : Fs) × (balloc s ≡ ok (b, t)) × Taken b s t)
      ⊎ ((balloc s ≡ stop panic) × ((a : ℕ) → a < s.size → is_used s a ≡ true))
unfolding Allocated
balloc_cases s = cases (balloc s) refl (balloc_correct s)
  where
    cases :
        (r : Run (ℕ × Fs))
        → balloc s ≡ r
        → Allocated s r
        → ((b : ℕ) × (t : Fs) × (balloc s ≡ ok (b, t)) × Taken b s t)
          ⊎ ((balloc s ≡ stop panic) × ((a : ℕ) → a < s.size → is_used s a ≡ true))
    cases (ok (b, t)) e h = inl (b, t, e, h)
    cases (stop x) e (p, h) = inr (e ∙ ap stop p, h)

pub bfree_used :
    (b : ℕ) (s : Fs) (a : ℕ)
    → is_used (set_bit (bblock b s) (b % bpb) false s) a ≡ (not (a == b) && is_used s a)
bfree_used b s a = set_bit_lem a b false s ∙ ground arith

-- bfree of a used block marks exactly it as free; bfree of a free block panics.
pub bfree_correct :
    (b : ℕ) (s : Fs)
    → ((is_used s b ≡ true)
        × Returns
            (λ t. ((a : ℕ) → is_used t a ≡ (not (a == b) && is_used s a)) × (t.words ≡ s.words))
            (bfree b s))
      ⊎ ((is_used s b ≡ false) × (bfree b s ≡ stop panic))
unfolding bfree is_used set_bit
bfree_correct b s = elim (Bool-cases (is_used s b)) [
  | inl e ↦ inl (e, (set_bit (bblock b s) (b % bpb) false s, ground arith, (bfree_used b s, refl)))
  | inr e ↦ inr (e, ground arith)
]
