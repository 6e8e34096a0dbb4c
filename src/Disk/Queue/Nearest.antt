-- ===== src/Disk/Queue/Nearest.antt =====
-- `SSTF` of kernel/virtio_disk.c, by its loop.
use io_scheduling.Prelude.{
  ℕ, zero, suc, ◌+◌, ◌^◌, ◌≤◌, ◌<◌, ◌≡◌, ◌∙◌, refl, arith, update, ltb, SameItems, Returns,
  Bool-cases, inl, inr, total-swap, if_elim, ◌==◌,
}
use io_scheduling.Disk.Request.{Req}
use io_scheduling.Disk.Queue.{slots, sstf_round, sstf_loop}
use io_scheduling.Disk.Queue.Distance.{gap, distance_lem}

module _ (blockno : ℕ → ℕ) where
  abbrev pub between : Req → Req → ℕ
  between x y = gap (blockno x.b) (blockno y.b)

  -- block numbers that fit an `int`
  abbrev pub AreSmall : ℕ → (ℕ → Req) → Type 0
  AreSmall n a = (j : ℕ) → j < n → blockno (a j).b < 2 ^ 31

  -- `a[1]` is nearest to `a[0]` among `a[1..m)`
  abbrev pub IsNearest : ℕ → (ℕ → Req) → Type 0
  IsNearest m a = (j : ℕ) → 1 ≤ j → j < m → between (a 0) (a 1) ≤ between (a 0) (a j)

  -- `b` is `a` in another order, with the same first request
  pub record IsReordered (n : ℕ) (a b : ℕ → Req) : Type 1 where
    pub first : b 0 ≡ a 0
    pub same : SameItems 0 n b 0 n a
    pub keeps : (P : Req → Type 0) → ((j : ℕ) → j < n → P (a j)) → (j : ℕ) → j < n → P (b j)

  pub IsReordered-refl : (n : ℕ) (a : ℕ → Req) → IsReordered n a a
  IsReordered-refl n a = record { first = refl; same = λ w. refl; keeps = λ P h. h }

  IsReordered-trans :
      {n : ℕ} {a b c : ℕ → Req} → IsReordered n a b → IsReordered n b c → IsReordered n a c
  IsReordered-trans p q = record {
    first = q.first ∙ p.first;
    same = λ w. q.same w ∙ p.same w;
    keeps = λ P h. q.keeps P (p.keeps P h);
  }

  swap-IsReordered :
      (n : ℕ) (a : ℕ → Req) (i : ℕ)
      → 1 ≤ i
      → i < n
      → IsReordered n a (update (update a i (a 1)) 1 (a i))
  swap-IsReordered n a i low high = record {
    first = ground arith;
    same = λ w. total-swap w 0 n a i 1 (omega arith) (omega arith) (omega arith) (omega arith);
    keeps = λ P h j p.
        if_elim P (1 == j) (λ e. h i high)
          (λ e. if_elim P (i == j) (λ f. h 1 (omega arith)) (λ f. h j p));
  }

  -- one round of the loop
  sstf_round_lem :
      (n : ℕ) (a : ℕ → Req) (i : ℕ)
      → n ≤ slots
      → 1 ≤ i
      → i < n
      → AreSmall n a
      → IsNearest i a
      → Returns (λ b. IsReordered n a b × IsNearest (i + 1) b) (sstf_round blockno a i)
  unfolding sstf_round
  sstf_round_lem n a i inside low high small near =
      let d = distance_lem blockno (a 0) (a i) (small 0 (omega arith)) (small i high) in
      let d' = distance_lem blockno (a 0) (a 1) (small 0 (omega arith)) (small 1 (omega arith)) in
      elim (Bool-cases (ltb (between (a 0) (a i)) (between (a 0) (a 1)))) [
        | inl nearer ↦ (
          update (update a i (a 1)) 1 (a i),
          ground (arith, d, d'),
          (swap-IsReordered n a i low high, λ j p q. ground (arith, near j p)),
        )
        | inr further ↦
            (a, ground (arith, d, d'), (IsReordered-refl n a, λ j p q. ground (arith, near j p)))
      ]

  pub sstf_loop_lem :
      (k n : ℕ) (a : ℕ → Req) (i : ℕ)
      → n ≤ slots
      → 1 ≤ i
      → i + k ≡ n
      → AreSmall n a
      → IsNearest i a
      → Returns (λ b. IsReordered n a b × IsNearest n b) (sstf_loop blockno k i a)
  unfolding sstf_loop
  sstf_loop_lem zero n a i inside low e small near =
      (a, refl, (IsReordered-refl n a, λ j p q. near j p (omega arith)))
  sstf_loop_lem (suc k) n a i inside low e small near =
      let (b, run, (order, near')) = sstf_round_lem n a i inside low (omega arith) small near in
      let (c, run', (order', near'')) =
        sstf_loop_lem k n b (i + 1) inside (omega arith) (omega arith)
          (order.keeps (λ r. blockno r.b < 2 ^ 31) small) near' in
      (c, rw run run', (IsReordered-trans order order', near''))
