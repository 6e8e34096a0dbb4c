-- ===== src/Strings/Copy.antt =====
-- `memset`, `memmove` and `safestrcpy` (kernel/string.c).
use io_scheduling.Prelude.{
  ℕ, zero, suc, ◌+◌, ◌-◌, ◌%◌, ◌≤◌, ◌<◌, ◌≡◌, ◌≢◌, ◌↔◌, ◌∙◌, refl, arith, ltb, ◌==◌, ◌&&◌, update,
  if_elim, ◌⊎◌, inl, inr, ℕ_discrete, pos,
}
use io_scheduling.Strings.{
  Memory, memset_loop, memset, forward_loop, backward_loop, memmove, memcmp, safe_loop, safestrcpy,
}

-- `m'` is `m` but for the `n` bytes from `d` on, which are `f 0`, `f 1`, ...
pub record IsWritten (d n : ℕ) (f : ℕ → ℕ) (m m' : Memory) : Type 0 where
  pub inside : (j : ℕ) → j < n → m' (d + j) ≡ f j
  pub outside : (a : ℕ) → (a < d) ⊎ (d + n ≤ a) → m' a ≡ m a

memset_loop_lem : (n d c : ℕ) (m : Memory) → IsWritten d n (λ j. c % 256) m (memset_loop n d c m)
unfolding memset_loop
memset_loop_lem zero d c m = record { inside = λ j f. absurd (omega arith); outside = λ a f. refl }
memset_loop_lem (suc n) d c m =
    let h = memset_loop_lem n (d + 1) c (update m d (c % 256)) in
    record {
      inside = λ j f. elim (ℕ_discrete j 0) [
        | yes e ↦ (let o = h.outside d (inl (omega arith)) in ground arith)
        | no ne ↦ ground (arith, h.inside (j - 1))
      ];
      outside = λ a f. h.outside a (ground arith) ∙ ground arith;
    }

forward_loop_lem :
    (n d s : ℕ) (m : Memory)
    → (d ≤ s) ⊎ (s + n ≤ d)
    → IsWritten d n (λ j. m (s + j)) m (forward_loop n d s m)
unfolding forward_loop
forward_loop_lem zero d s m apart = record {
  inside = λ j f. absurd (omega arith);
  outside = λ a f. refl;
}
forward_loop_lem (suc n) d s m apart =
    let h = forward_loop_lem n (d + 1) (s + 1) (update m d (m s)) (ground arith) in
    record {
      inside = λ j f. elim (ℕ_discrete j 0) [
        | yes e ↦ (let o = h.outside d (inl (omega arith)) in ground arith)
        | no ne ↦ ground (arith, h.inside (j - 1))
      ];
      outside = λ a f. h.outside a (ground arith) ∙ ground arith;
    }

backward_loop_lem :
    (n d s : ℕ) (m : Memory)
    → s ≤ d
    → IsWritten d n (λ j. m (s + j)) m (backward_loop n (d + n) (s + n) m)
unfolding backward_loop
backward_loop_lem zero d s m apart = record {
  inside = λ j f. absurd (omega arith);
  outside = λ a f. refl;
}
backward_loop_lem (suc n) d s m apart =
    let h = backward_loop_lem n d s (update m (d + n) (m (s + n))) apart in
    let e : d + suc n - 1 ≡ d + n = omega arith in
    let e' : s + suc n - 1 ≡ s + n = omega arith in
    rw (e, e')
      (record {
        inside = λ j f. elim (ℕ_discrete j n) [
          | yes g ↦ rw g (h.outside (d + n) (inr (omega arith)) ∙ ground arith)
          | no ne ↦ h.inside j (omega arith) ∙ ground arith
        ];
        outside = λ a f. h.outside a (ground arith) ∙ ground arith;
      })

-- memset sets exactly the `n` bytes from `dst` on, to the low byte of `c`.
pub memset_correct :
    (dst c n : ℕ) (m : Memory) → IsWritten dst n (λ j. c % 256) m (memset dst c n m)
unfolding memset
memset_correct dst c n m = memset_loop_lem n dst c m

-- memmove copies the `n` bytes from `src` on as they were before the call, also where the two ranges
-- overlap, and changes no other byte.
pub memmove_correct :
    (dst src n : ℕ) (m : Memory) → IsWritten dst n (λ j. m (src + j)) m (memmove dst src n m)
unfolding memmove
memmove_correct dst src n m =
    if_elim (IsWritten dst n (λ j. m (src + j)) m) (n == 0)
      (λ z. record { inside = λ j f. absurd (ground arith); outside = λ a f. refl })
      (λ nz.
        if_elim (IsWritten dst n (λ j. m (src + j)) m) (ltb src dst && ltb dst (src + n))
          (λ over. backward_loop_lem n dst src m (ground arith))
          (λ apart. forward_loop_lem n dst src m (ground arith)))

-- memcmp is 0 exactly where the two ranges are equal.
pub memcmp_equal :
    (n v1 v2 : ℕ) (m : Memory)
    → (memcmp v1 v2 n m ≡ pos 0) ↔ ((j : ℕ) → j < n → m (v1 + j) ≡ m (v2 + j))
unfolding memcmp
memcmp_equal zero v1 v2 m = (λ e j f. absurd (omega arith), λ e. refl)
memcmp_equal (suc n) v1 v2 m =
    let (fw, bw) = memcmp_equal n (v1 + 1) (v2 + 1) m in
    elim (ℕ_discrete (m v1) (m v2)) [
      | yes same ↦ (
        λ e j f. elim (ℕ_discrete j 0) [
          | yes z ↦ ground arith
          | no nz ↦ (let g = fw (ground arith) (j - 1) (omega arith) in ground arith)
        ],
        λ all. (let g = bw (λ j f. ground (arith, all (j + 1) (omega arith))) in ground arith),
      )
      | no differ ↦
          (λ e. absurd (ground arith), λ all. absurd (ground (arith, all 0 (omega arith))))
    ]

-- Out of the string at `t` its bytes up to a NUL are at `s`, or the first `n` of them, and a NUL follows.
pub Terminated : ℕ → ℕ → ℕ → Memory → Memory → Type 0
Terminated n s t m m' =
    (len : ℕ) × (len ≤ n)
    × ((j : ℕ) → j < len → (m' (s + j) ≡ m (t + j)) × (m (t + j) ≢ 0))
    × (m' (s + len) ≡ 0)
    × ((len ≡ n) ⊎ (m (t + len) ≡ 0))
    × ((a : ℕ) → (a < s) ⊎ (s + n < a) → m' a ≡ m a)

safe_loop_lem :
    (n s t : ℕ) (m : Memory)
    → (s + n < t) ⊎ (t + n ≤ s)
    → let (e, m') = safe_loop n s t m in Terminated n s t m (update m' e 0)
unfolding safe_loop Terminated
safe_loop_lem zero s t m apart =
    (0, omega arith, λ j f. absurd (omega arith), ground arith, inl refl, λ a f. ground arith)
safe_loop_lem (suc n) s t m apart =
    if_elim (λ (r : ℕ × Memory). Terminated (suc n) s t m (update r.1 r.0 0)) (m t == 0)
      (λ z. (
        0,
        omega arith,
        λ j f. absurd (omega arith),
        ground arith,
        inr (ground arith),
        λ a f. ground arith,
      ))
      (λ nz.
        (let (len, short, same, end, why, out) =
            safe_loop_lem n (s + 1) (t + 1) (update m s (m t)) (ground arith) in
          (
            len + 1,
            omega arith,
            λ j f. elim (ℕ_discrete j 0) [
              | yes e ↦ (let o = out s (inl (omega arith)) in ground arith)
              | no ne ↦ (let g = same (j - 1) (omega arith) in ground arith)
            ],
            ground (arith, end),
            ground (arith, why),
            λ a f. out a (ground arith) ∙ ground arith,
          )))

-- safestrcpy of at least one byte, between two ranges of memory that do not overlap: the copy ends
-- with a NUL inside its `n` bytes, holds the string before it, cut to `n - 1` bytes, and nothing
-- outside changes.
pub safestrcpy_correct :
    (n s t : ℕ) (m : Memory)
    → 0 < n
    → (s + n ≤ t) ⊎ (t + n ≤ s)
    → Terminated (n - 1) s t m (safestrcpy s t n m)
unfolding safestrcpy
safestrcpy_correct n s t m some_room apart =
    if_elim (Terminated (n - 1) s t m) (n == 0) (λ z. absurd (ground arith))
      (λ nz. safe_loop_lem (n - 1) s t m (ground arith))
