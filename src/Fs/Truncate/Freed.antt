-- ===== src/Fs/Truncate/Freed.antt =====
-- The loops of `itrunc` (kernel/fs.c), and which blocks they free.
use io_scheduling.Prelude.{
  ℕ, zero, suc, ◌+◌, ◌%◌, ◌≤◌, ◌<◌, ◌≡◌, ◌≢◌, ◌∙◌, sym, ap, refl, arith, Bool, true, false, not,
  ◌==◌, ◌&&◌, ◌||◌, update, ◌⊎◌, inl, inr, ℕ_discrete, Returns,
}
use io_scheduling.Fs.{Fs, Addrs, bfree, set_bit, bblock, bpb}
use io_scheduling.Fs.Bitmap.{is_used, bfree_used}
use io_scheduling.Fs.Truncate.{itrunc_direct, itrunc_indirect}

-- whether `a` is one of `f i`, ..., `f (i + k - 1)` that are not 0
unfoldable pub listed : (ℕ → ℕ) → ℕ → ℕ → ℕ → Bool
listed f zero i a = false
listed f (suc k) i a = (not (f i == 0) && f i == a) || listed f k (i + 1) a

pub listed_in :
    (f : ℕ → ℕ) (k i j a : ℕ) → i ≤ j → j < i + k → f j ≡ a → a ≢ 0 → listed f k i a ≡ true
unfolding listed
listed_in f zero i j a p q e ne = absurd (omega arith)
listed_in f (suc k) i j a p q e ne = elim (ℕ_discrete i j) [
  | yes here ↦ (let e' : f i ≡ a = ap f here ∙ e in ground (arith, e'))
  | no more ↦
      (let h = listed_in f k (i + 1) j a (omega arith) (omega arith) e ne in ground (arith, h))
]

pub listed_out :
    (f : ℕ → ℕ) (k i a : ℕ)
    → ((j : ℕ) → i ≤ j → j < i + k → f j ≢ 0 → f j ≢ a)
    → listed f k i a ≡ false
unfolding listed
listed_out f zero i a h = refl
listed_out f (suc k) i a h =
    let rest = listed_out f k (i + 1) a (λ j p q. h j (omega arith) (omega arith)) in
    ground (arith, rest, h i (omega arith) (omega arith))

listed_cong :
    (f g : ℕ → ℕ) (k i a : ℕ) → ((j : ℕ) → i ≤ j → f j ≡ g j) → listed f k i a ≡ listed g k i a
unfolding listed
listed_cong f g zero i a h = refl
listed_cong f g (suc k) i a h =
    rw (h i (omega arith), listed_cong f g k (i + 1) a (λ j p. h j (omega arith)))

-- The blocks of `gone` have become free, and nothing else has changed.
pub record Freed (gone : ℕ → Bool) (s t : Fs) : Type 0 where
  pub size : t.size ≡ s.size
  pub used : (a : ℕ) → is_used t a ≡ (not (gone a) && is_used s a)
  pub words : t.words ≡ s.words
  pub bytes : t.bytes ≡ s.bytes
  pub dinode : t.dinode ≡ s.dinode

pub Freed-trans :
    (g h both : ℕ → Bool) (s t u : Fs)
    → ((a : ℕ) → both a ≡ (g a || h a))
    → Freed g s t
    → Freed h t u
    → Freed both s u
Freed-trans g h both s t u e p q = record {
  size = q.size ∙ p.size;
  used = λ a. q.used a ∙ ground (arith, e a, p.used a);
  words = q.words ∙ p.words;
  bytes = q.bytes ∙ p.bytes;
  dinode = q.dinode ∙ p.dinode;
}

pub Freed-none : (gone : ℕ → Bool) (s : Fs) → ((a : ℕ) → gone a ≡ false) → Freed gone s s
Freed-none gone s h = record {
  size = refl;
  used = λ a. ground (arith, h a);
  words = refl;
  bytes = refl;
  dinode = refl;
}

pub bfree-Freed :
    (b : ℕ) (s : Fs) → is_used s b ≡ true → Returns (Freed (λ a. a == b) s) (bfree b s)
unfolding bfree is_used set_bit
bfree-Freed b s u = (
  set_bit (bblock b s) (b % bpb) false s,
  ground arith,
  record { size = refl; used = bfree_used b s; words = refl; bytes = refl; dinode = refl },
)

-- Those of `f i`, ..., `f (i + k - 1)` that are not 0 are used and different.
abbrev pub IsOwn : (ℕ → ℕ) → ℕ → ℕ → Fs → Type 0
IsOwn f k i s =
    ((j l : ℕ) → i ≤ j → j < l → l < i + k → f j ≢ 0 → f j ≢ f l)
    × ((j : ℕ) → i ≤ j → j < i + k → f j ≢ 0 → is_used s (f j) ≡ true)

IsOwn-skip : (f : ℕ → ℕ) (k i : ℕ) (s : Fs) → IsOwn f (suc k) i s → IsOwn f k (i + 1) s
IsOwn-skip f k i s (distinct, used) = (
  λ j l p q m. distinct j l (omega arith) q (omega arith),
  λ j p q. used j (omega arith) (omega arith),
)

used_after :
    (f : ℕ → ℕ) (k i : ℕ) (s t : Fs)
    → f i ≢ 0
    → Freed (λ a. a == f i) s t
    → IsOwn f (suc k) i s
    → (j : ℕ) → i + 1 ≤ j
    → j < i + 1 + k
    → f j ≢ 0
    → is_used t (f j) ≡ true
used_after f k i s t ne first (distinct, used) j p q z =
    let u = used j (omega arith) (omega arith) z in
    let apart = distinct i j (omega arith) (omega arith) (omega arith) ne in
    first.used (f j) ∙ ground (arith, u, apart)

Freed-more :
    (f g : ℕ → ℕ) (k i : ℕ) (s t u : Fs)
    → Freed (λ a. a == f i) s t
    → f i ≢ 0
    → ((j : ℕ) → i + 1 ≤ j → f j ≡ g j)
    → Freed (listed g k (i + 1)) t u
    → Freed (listed f (suc k) i) s u
unfolding listed
Freed-more f g k i s t u first ne same h =
    Freed-trans (λ a. a == f i) (listed g k (i + 1)) (listed f (suc k) i) s t u
      (λ a. ground (arith, listed_cong f g k (i + 1) a same)) first h

-- what the first loop answers
abbrev pub Cleared : ℕ → ℕ → Addrs → Fs → Addrs × Fs → Type 0
Cleared k i addrs s (addrs', t) =
    Freed (listed addrs k i) s t
    × ((j : ℕ) → i ≤ j → j < i + k → addrs' j ≡ 0)
    × ((j : ℕ) → (j < i) ⊎ (i + k ≤ j) → addrs' j ≡ addrs j)

skip-Freed :
    (f : ℕ → ℕ) (k i : ℕ) (s t : Fs)
    → f i ≡ 0
    → Freed (listed f k (i + 1)) s t
    → Freed (listed f (suc k) i) s t
unfolding listed
skip-Freed f k i s t z h =
    Freed-trans (λ a. false) (listed f k (i + 1)) (listed f (suc k) i) s s t (λ a. ground arith)
      (Freed-none (λ a. false) s (λ a. refl)) h

skip-Cleared :
    (k i : ℕ) (addrs addrs' : Addrs) (s t : Fs)
    → addrs i ≡ 0
    → Cleared k (i + 1) addrs s (addrs', t)
    → Cleared (suc k) i addrs s (addrs', t)
skip-Cleared k i addrs addrs' s t z (h, cleared, kept) = (
  skip-Freed addrs k i s t z h,
  λ j p q. elim (ℕ_discrete j i) [
    | yes e ↦ kept j (inl (omega arith)) ∙ ap addrs e ∙ z
    | no ne ↦ cleared j (omega arith) (omega arith)
  ],
  λ j p. kept j (elim p [ inl l ↦ inl (omega arith) | inr r ↦ inr (omega arith) ]),
)

-- the others of the list, after `f i` has been freed
IsOwn-more :
    (f g : ℕ → ℕ) (k i : ℕ) (s t : Fs)
    → f i ≢ 0
    → Freed (λ a. a == f i) s t
    → ((j : ℕ) → i + 1 ≤ j → g j ≡ f j)
    → IsOwn f (suc k) i s
    → IsOwn g k (i + 1) t
IsOwn-more f g k i s t ne first later (distinct, used) = (
  λ j l p q m z.
      let d = distinct j l (omega arith) q (omega arith) (λ y. z (later j p ∙ y)) in
      λ e. d (sym (later j p) ∙ e ∙ later l (omega arith)),
  λ j p q z.
      rw (later j p)
        (used_after f k i s t ne first (distinct, used) j p q (λ y. z (later j p ∙ y))),
)

more-Cleared :
    (k i : ℕ) (addrs addrs' : Addrs) (s t u : Fs)
    → Freed (λ a. a == addrs i) s t
    → addrs i ≢ 0
    → Cleared k (i + 1) (update addrs i 0) t (addrs', u)
    → Cleared (suc k) i addrs s (addrs', u)
more-Cleared k i addrs addrs' s t u first ne (h, cleared, kept) = (
  Freed-more addrs (update addrs i 0) k i s t u first ne (λ j p. ground arith) h,
  λ j p q. elim (ℕ_discrete j i) [
    | yes e ↦ kept j (inl (omega arith)) ∙ ground arith
    | no d ↦ cleared j (omega arith) (omega arith)
  ],
  λ j p. elim p [
    | inl l ↦ kept j (inl (omega arith)) ∙ ground arith
    | inr r ↦ kept j (inr (omega arith)) ∙ ground arith
  ],
)

pub itrunc_direct-Cleared :
    (k i : ℕ) (addrs : Addrs) (s : Fs)
    → IsOwn addrs k i s
    → Returns (Cleared k i addrs s) (itrunc_direct k i addrs s)
unfolding itrunc_direct
itrunc_direct-Cleared zero i addrs s own = (
  (addrs, s),
  refl,
  (
    Freed-none (listed addrs zero i) s
        (λ a. listed_out addrs zero i a (λ j p q. absurd (omega arith))),
    (λ j p q. absurd (omega arith)),
    λ j p. refl,
  ),
)
itrunc_direct-Cleared (suc k) i addrs s own = elim (ℕ_discrete (addrs i) 0) [
  | yes z ↦
      (let ((addrs', t), r, h) =
          itrunc_direct-Cleared k (i + 1) addrs s (IsOwn-skip addrs k i s own) in
        ((addrs', t), ground (arith, r), skip-Cleared k i addrs addrs' s t z h))
  | no ne ↦
      (let (t, r, first) = bfree-Freed (addrs i) s (own.1 i (omega arith) (omega arith) ne) in
        let next = update addrs i 0 in
        let own' = IsOwn-more addrs next k i s t ne first (λ j p. ground arith) own in
        let ((addrs', u), r', h) = itrunc_direct-Cleared k (i + 1) next t own' in
        ((addrs', u), ground (arith, r, r'), more-Cleared k i addrs addrs' s t u first ne h))
]

pub itrunc_indirect-Freed :
    (k j block : ℕ) (s : Fs)
    → IsOwn (s.words block) k j s
    → Returns (Freed (listed (s.words block) k j) s) (itrunc_indirect k j block s)
unfolding itrunc_indirect
itrunc_indirect-Freed zero j block s own = (
  s,
  refl,
  Freed-none (listed (s.words block) zero j) s
      (λ a. listed_out (s.words block) zero j a (λ i p q. absurd (omega arith))),
)
itrunc_indirect-Freed (suc k) j block s own =
    let f = s.words block in
    elim (ℕ_discrete (f j) 0) [
      | yes z ↦
          (let (t, r, h) = itrunc_indirect-Freed k (j + 1) block s (IsOwn-skip f k j s own) in
            (t, ground (arith, r), skip-Freed f k j s t z h))
      | no ne ↦
          (let (t, r, first) = bfree-Freed (f j) s (own.1 j (omega arith) (omega arith) ne) in
            let same : (i : ℕ) → t.words block i ≡ f i = λ i. ap (λ w. w block i) first.words in
            let own' = IsOwn-more f (t.words block) k j s t ne first (λ i p. same i) own in
            let (u, r', h) = itrunc_indirect-Freed k (j + 1) block t own' in
            (
              u,
              ground (arith, r, r'),
              Freed-more f (t.words block) k j s t u first ne (λ i p. sym (same i)) h,
            ))
    ]
