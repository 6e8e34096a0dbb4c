-- ===== src/Disk/MinHeap/Order.antt =====
-- The heap order of scheduler 1's queue (kernel/virtio_disk.c), and that of a heap with a hole.
use native.Mathlib.Decide.{dec_lt}
use io_scheduling.Prelude.{ℕ, zero, suc, ◌/◌, ◌≤◌, ◌<◌, ◌≡◌, ◌≢◌, arith, pos, update}
use io_scheduling.Disk.Request.{Req}
use io_scheduling.Disk.MinHeap.{MinHeap, slots, key}

module _ (blockno : ℕ → ℕ) where
  -- `a[1..n]` is a min-heap behind a sentinel of block 0
  pub record IsHeap (n : ℕ) (a : ℕ → Req) : Type 0 where
    pub sentinel : key blockno (a 0) ≡ 0
    pub edges : (c : ℕ) → 2 ≤ c → c ≤ n → key blockno (a (c / 2)) ≤ key blockno (a c)

  -- the queue holds `n` requests, all of them inside the array
  pub record IsValid (n : ℕ) (h : MinHeap) : Type 0 where
    pub size : h.size ≡ pos n
    pub capacity : h.capacity ≡ slots
    pub inside : n < slots
    pub heap : IsHeap n h.items

  -- `a[1..n]` is a heap but for the hole `p`, and `x` fits above what is below the hole
  pub record IsOpen (n : ℕ) (a : ℕ → Req) (p : ℕ) (x : Req) : Type 0 where
    pub low : 1 ≤ p
    pub high : p ≤ n
    pub sentinel : key blockno (a 0) ≡ 0
    pub edges :
        (c : ℕ) → 2 ≤ c → c ≤ n → c ≢ p → c / 2 ≢ p → key blockno (a (c / 2)) ≤ key blockno (a c)
    pub below : (c : ℕ) → 2 ≤ c → c ≤ n → c / 2 ≡ p → key blockno x ≤ key blockno (a c)
    pub bridged :
        (c : ℕ) → 2 ≤ c → c ≤ n → c / 2 ≡ p → 2 ≤ p → key blockno (a (p / 2)) ≤ key blockno (a c)

  pub IsOpen-fill :
      {n : ℕ} {a : ℕ → Req} {p : ℕ} {x : Req}
      → IsOpen n a p x
      → key blockno (a (p / 2)) ≤ key blockno x
      → IsHeap n (update a p x)
  IsOpen-fill {n} {a} {p} {x} o h = record {
    sentinel = ground (arith, o.low);
    edges = λ c low high. ground (arith, o.edges c low high, o.below c low high, o.low);
  }

  pub IsOpen-up :
      {n : ℕ} {a : ℕ → Req} {p : ℕ} {x : Req}
      → IsOpen n a p x
      → key blockno x < key blockno (a (p / 2))
      → IsOpen n (update a p (a (p / 2))) (p / 2) x
  IsOpen-up {n} {a} {p} {x} o h = record {
    low = ground (arith, o.sentinel, o.low);
    high = omega (arith, o.high);
    sentinel = ground (arith, o.low, o.sentinel);
    edges = λ c low high e f. ground (arith, o.edges c low high, o.edges p, o.bridged c low high);
    below = λ c low high e. ground (arith, o.edges c low high);
    bridged = λ c low high e two. ground (arith, o.edges c low high, o.edges (p / 2), o.high);
  }

  -- the root is a least request
  pub root_least :
      {n : ℕ} {a : ℕ → Req}
      → IsHeap n a
      → (k c : ℕ) → c ≤ k
      → 1 ≤ c
      → c ≤ n
      → key blockno (a 1) ≤ key blockno (a c)
  root_least h zero c f low high = absurd (omega arith)
  root_least h (suc k) c f low high = elim (dec_lt 1 c) [
    | yes p ↦
        omega (
          arith,
          h.edges c p high,
          root_least h k (c / 2) (omega arith) (omega arith) (omega arith),
        )
    | no p ↦ (let e : c ≡ 1 = omega arith in rw e (omega arith))
  ]
