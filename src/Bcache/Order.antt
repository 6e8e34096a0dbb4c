-- ===== src/Bcache/Order.antt =====
-- The list of buffers in order of use (kernel/bio.c): what insertion at the front and removal do to it.
use io_scheduling.Prelude.{
  ℕ, zero, suc, ◌+◌, ◌-◌, ◌≤◌, ◌<◌, ◌≡◌, ◌≢◌, ◌∙◌, sym, subst, fun_ext, leb, refl, arith, ltb, ◌==◌,
  if◌then◌else◌, ℕ_discrete, dec_lt, update,
}
use io_scheduling.Bcache.{Bcache, nbuf, head, push_front, unlink_buf, init_loop, binit}

-- `o 1`, ..., `o n` are the buffers of the list in its order, between the head and the head again.
pub record IsOrder (n : ℕ) (o : ℕ → ℕ) (s : Bcache) : Type 0 where
  pub first : o 0 ≡ head
  pub last : o (n + 1) ≡ head
  pub inside : (i : ℕ) → 1 ≤ i → i ≤ n → o i < nbuf
  pub distinct : (i j : ℕ) → i ≤ n → j ≤ n → o i ≡ o j → i ≡ j
  pub forward : (i : ℕ) → i ≤ n → s.next (o i) ≡ o (i + 1)
  pub backward : (i : ℕ) → i ≤ n → s.prev (o (i + 1)) ≡ o i

-- `b` in front of the order `o`
abbrev pub cons : ℕ → (ℕ → ℕ) → ℕ → ℕ
cons b o i = if i == 0 then head else if i == 1 then b else o (i - 1)

-- the order `o` without position `p`
abbrev pub skip : ℕ → (ℕ → ℕ) → ℕ → ℕ
skip p o i = if ltb i p then o i else o (i + 1)

-- two places of an order with the same buffer
module _ (n : ℕ) (o : ℕ → ℕ) (s : Bcache) (h : IsOrder n o s) where
  head_once : (i : ℕ) → i ≤ n → o i ≡ head → i ≡ 0
  head_once i p e = h.distinct i 0 p (omega arith) (e ∙ sym h.first)

  -- what follows a place is the head exactly at the end
  pub succ_distinct : (i j : ℕ) → i ≤ n → j ≤ n → o (i + 1) ≡ o (j + 1) → i ≡ j
  succ_distinct i j p q e = elim (ℕ_discrete i n) [
    | yes a ↦ (elim (ℕ_discrete j n) [
      | yes b ↦ omega arith
      | no b ↦ (let c = head_once (j + 1) (omega arith) in ground (arith, c, h.last))
    ])
    | no a ↦ (elim (ℕ_discrete j n) [
      | yes b ↦ (let c = head_once (i + 1) (omega arith) in ground (arith, c, h.last))
      | no b ↦ (let c = h.distinct (i + 1) (j + 1) (omega arith) (omega arith) e in omega arith)
    ])
  ]

pub push_front-IsOrder :
    (n : ℕ) (o : ℕ → ℕ) (s : Bcache) (b : ℕ)
    → IsOrder n o s
    → b < nbuf
    → ((i : ℕ) → i ≤ n → o i ≢ b)
    → IsOrder (n + 1) (cons b o) (push_front b s)
unfolding push_front
push_front-IsOrder n o s b h low new = record {
  first = refl;
  last = ground (arith, h.last, h.first);
  inside = λ i from to. ground (arith, h.inside (i - 1));
  distinct = λ i j p q e. ground (
    arith,
    h.first,
    new (i - 1),
    new (j - 1),
    h.distinct (i - 1) (j - 1),
    h.distinct 0 (i - 1),
    h.distinct 0 (j - 1),
  );
  forward = λ i p.
      ground (arith, h.first, new (i - 1), h.distinct 0 (i - 1), h.forward 0, h.forward (i - 1));
  backward = λ i p. elim (ℕ_discrete i 0) [
    | yes e ↦
        (let c = not_new 0 (omega arith) in
          rw e (ground (arith, h.first, h.forward 0 (omega arith), c)))
    | no ne ↦ (elim (ℕ_discrete i 1) [
      | yes e ↦ rw e (ground (arith, h.first, h.forward 0 (omega arith)))
      | no ne' ↦
          (let k : i ≡ i - 1 + 1 = omega arith in
            let c : o (i - 1 + 1) ≢ b = not_new (i - 1) (omega arith) in
            let d : o (i - 1 + 1) ≢ o 1 = λ e.
              absurd
                (omega (arith, succ_distinct n o s h (i - 1) 0 (omega arith) (omega arith) e)) in
            ground (
              arith,
              h.first,
              h.forward 0 (omega arith),
              h.backward (i - 1) (omega arith),
              c,
              d,
              k,
            ))
    ])
  ];
}
  where
    not_new : (i : ℕ) → i ≤ n → o (i + 1) ≢ b
    not_new i p = elim (ℕ_discrete i n) [
      | yes e ↦ (λ f. absurd (ground (arith, h.last)))
      | no ne ↦ new (i + 1) (omega arith)
    ]

pub unlink_buf-IsOrder :
    (n : ℕ) (o : ℕ → ℕ) (s : Bcache) (p b : ℕ)
    → IsOrder (n + 1) o s
    → 1 ≤ p
    → p ≤ n + 1
    → o p ≡ b
    → IsOrder n (skip p o) (unlink_buf b s)
unfolding unlink_buf
unlink_buf-IsOrder n o s p b h from to place = record {
  first = ground (arith, h.first);
  last = ground (arith, h.last);
  inside = λ i f t. ground (arith, h.inside i, h.inside (i + 1));
  distinct = λ i j f t e. ground (
    arith,
    h.distinct i j,
    h.distinct (i + 1) j,
    h.distinct i (j + 1),
    h.distinct (i + 1) (j + 1),
  );
  forward = λ i f. ground (
    arith,
    next_b,
    prev_b,
    apart,
    h.distinct i (p - 1),
    h.distinct (i + 1) (p - 1),
    h.forward i,
    h.forward (i + 1),
  );
  backward = λ i f. elim (dec_lt (i + 1) p) [
    | yes less ↦
        (let d = other i (omega arith) (omega arith) in
          ground (arith, next_b, prev_b, d, h.backward i (omega arith)))
    | no more ↦ (elim (ℕ_discrete (i + 1) p) [
      | yes e ↦ (let e' : p - 1 ≡ i = omega arith in ground (arith, next_b, prev_b, e'))
      | no ne ↦
          (let d = other (i + 1) (omega arith) (omega arith) in
            ground (arith, next_b, prev_b, d, h.backward (i + 1) (omega arith)))
    ])
  ];
}
  where
    k : p ≡ p - 1 + 1
    k = omega arith

    next_b : s.next b ≡ o (p + 1)
    next_b = ground (arith, h.forward p to)

    prev_b : s.prev b ≡ o (p - 1)
    prev_b = ground (arith, h.backward (p - 1) (omega arith))

    other : (i : ℕ) → i ≤ n + 1 → i ≢ p → o (i + 1) ≢ o (p + 1)
    other i f ne e = ne (succ_distinct (n + 1) o s h i p f to e)

    apart : o (p + 1) ≢ b
    apart e = absurd (ground (arith, other (p - 1) (omega arith)))

skip_new :
    (n : ℕ) (o : ℕ → ℕ) (s : Bcache) (p b : ℕ)
    → IsOrder (n + 1) o s
    → p ≤ n + 1
    → o p ≡ b
    → (i : ℕ) → i ≤ n
    → skip p o i ≢ b
skip_new n o s p b h to place i f e = ground (arith, h.distinct i p, h.distinct (i + 1) p)

-- what brelse does to the list
pub to_front :
    (n : ℕ) (o : ℕ → ℕ) (s : Bcache) (p b : ℕ)
    → IsOrder (n + 1) o s
    → 1 ≤ p
    → p ≤ n + 1
    → o p ≡ b
    → IsOrder (n + 1) (cons b (skip p o)) (push_front b (unlink_buf b s))
to_front n o s p b h from to place =
    push_front-IsOrder n (skip p o) (unlink_buf b s) b
      (unlink_buf-IsOrder n o s p b h from to place) (ground (arith, h.inside p from to))
      (skip_new n o s p b h to place)

-- the buffers `k - 1`, ..., `0`
abbrev pub downward : ℕ → ℕ → ℕ
downward k i = if i == 0 then head else if leb i k then k - i else head

cons-downward : (k : ℕ) → cons k (downward k) ≡ downward (suc k)
cons-downward k = fun_ext λ i. ground arith

init_loop-IsOrder :
    (k : ℕ) (s : Bcache)
    → k ≤ nbuf
    → IsOrder 0 (downward 0) s
    → IsOrder k (downward k) (init_loop k s)
unfolding init_loop
init_loop-IsOrder zero s low h = h
init_loop-IsOrder (suc k) s low h =
    let e : k + 1 ≡ suc k = omega arith in
    let c =
      push_front-IsOrder k (downward k) (init_loop k s) k (init_loop-IsOrder k s (omega arith) h)
        (omega arith) (λ i f. ground arith) in
    subst (λ m. IsOrder m (downward (suc k)) (push_front k (init_loop k s))) e
      (subst (λ o. IsOrder (k + 1) o (push_front k (init_loop k s))) (cons-downward k) c)

-- binit links all 30 buffers into the list, the last one first, whatever the links were.
pub binit-IsOrder : (s : Bcache) → IsOrder nbuf (downward nbuf) (binit s)
unfolding binit
binit-IsOrder s =
    init_loop-IsOrder nbuf
      (record s { prev = update s.prev head head; next = update s.next head head }) (omega arith)
      (record {
        first = refl;
        last = refl;
        inside = λ i f t. absurd (omega arith);
        distinct = λ i j p q e. omega arith;
        forward = λ i p. ground arith;
        backward = λ i p. ground arith;
      })
