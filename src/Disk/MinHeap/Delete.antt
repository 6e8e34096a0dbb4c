-- ===== src/Disk/MinHeap/Delete.antt =====
-- `deleteFromMinHeap` of kernel/virtio_disk.c.
use io_scheduling.Prelude.{
  ℕ, zero, suc, ◌+◌, ◌*◌, ◌/◌, ◌≤◌, ◌<◌, ◌≡◌, ◌≢◌, ◌∙◌, ◌⊎◌, refl, arith, pos, update, total, ltb,
  leb, SameItems, Returns, Bool-cases, inl, inr, total-update, total_zero, total_last, ◌>>=◌, ◌==◌,
}
use io_scheduling.Disk.Request.{Req}
use io_scheduling.Disk.MinHeap.{
  MinHeap, slots, key, pick_child, sift_down, sift_up, insert_min_heap, delete_from_min_heap,
}
use io_scheduling.Disk.MinHeap.Order.{IsHeap, IsValid}

module _ (blockno : ℕ → ℕ) where
  -- `a[1..n]` is a heap but for the hole `p`, and `x` fits below what is above the hole
  record IsSinking (n : ℕ) (a : ℕ → Req) (p : ℕ) (x : Req) : Type 0 where
    low : 1 ≤ p
    high : p ≤ n
    sentinel : key blockno (a 0) ≡ 0
    edges :
        (c : ℕ) → 2 ≤ c → c ≤ n → c ≢ p → c / 2 ≢ p → key blockno (a (c / 2)) ≤ key blockno (a c)
    above : 2 ≤ p → key blockno (a (p / 2)) ≤ key blockno x
    bridged :
        (c : ℕ) → 2 ≤ c → c ≤ n → c / 2 ≡ p → 2 ≤ p → key blockno (a (p / 2)) ≤ key blockno (a c)

  -- `c` is a least child of `p`
  record IsLeastChild (n : ℕ) (a : ℕ → Req) (p : ℕ) (c : ℕ) : Type 0 where
    parent : c / 2 ≡ p
    high : c ≤ n
    least : (s : ℕ) → s ≤ n → s / 2 ≡ p → key blockno (a c) ≤ key blockno (a s)

  pick_child_least :
      (n : ℕ) (a : ℕ → Req) (p : ℕ)
      → n < slots
      → p * 2 ≤ n
      → Returns (IsLeastChild n a p) (pick_child blockno n a (p * 2))
  unfolding pick_child
  pick_child_least n a p inside h = elim (Bool-cases (p * 2 == n)) [
    | inl last ↦ (
      p * 2,
      rw last,
      record {
        parent = omega arith;
        high = h;
        least = λ s low q. (let e : s ≡ p * 2 = ground arith in rw e (omega arith));
      },
    )
    | inr inner ↦ elim (Bool-cases (ltb (key blockno (a (p * 2 + 1))) (key blockno (a (p * 2))))) [
      | inl right ↦ (
        p * 2 + 1,
        ground arith,
        record {
          parent = omega arith;
          high = ground arith;
          least = λ s low q. ground (arith, either s q);
        },
      )
      | inr left ↦ (
        p * 2,
        ground arith,
        record { parent = omega arith; high = h; least = λ s low q. ground (arith, either s q) },
      )
    ]
  ]
    where
      either : (s : ℕ) → s / 2 ≡ p → (s ≡ p * 2) ⊎ (s ≡ p * 2 + 1)
      either s q = omega arith

  IsSinking-fill :
      {n : ℕ} {a : ℕ → Req} {p : ℕ} {x : Req}
      → IsSinking n a p x
      → ((c : ℕ) → c ≤ n → c / 2 ≡ p → key blockno x ≤ key blockno (a c))
      → IsHeap blockno n (update a p x)
  IsSinking-fill {n} {a} {p} {x} o h = record {
    sentinel = ground (arith, o.low, o.sentinel);
    edges = λ c low high. ground (arith, o.edges c low high, h c high, o.low, o.above);
  }

  IsSinking-down :
      {n : ℕ} {a : ℕ → Req} {p : ℕ} {x : Req} {c : ℕ}
      → IsSinking n a p x
      → IsLeastChild n a p c
      → key blockno (a c) ≤ key blockno x
      → IsSinking n (update a p (a c)) c x
  IsSinking-down {n} {a} {p} {x} {c} o m h = record {
    low = omega (arith, o.low, m.parent);
    high = m.high;
    sentinel = ground (arith, o.low, o.sentinel);
    edges = λ s low high e f.
        ground (arith, o.edges s low high, m.least s high, o.bridged c, m.parent, m.high, o.low);
    above = λ two. ground (arith, m.parent);
    bridged = λ s low high e two. ground (arith, m.parent, o.edges s low high);
  }

  total-hole_down :
      (w : Req → ℕ) (n : ℕ) (a : ℕ → Req) (p c : ℕ) (x : Req)
      → 1 ≤ p
      → p < c
      → c ≤ n
      → total w 1 n (update (update a p (a c)) c x) ≡ total w 1 n (update a p x)
  total-hole_down w n a p c x low less high = ground (
    arith,
    total-update w 1 n (update a p (a c)) c x,
    total-update w 1 n a p (a c),
    total-update w 1 n a p x,
  )

  abbrev Sunk : ℕ → (ℕ → Req) → Req → ℕ × (ℕ → Req) → Type 0
  Sunk n b x (p, a) = (p ≤ n) × IsHeap blockno n (update a p x) × SameItems 1 n (update a p x) 1 n b

  sift_down_fills :
      (k n : ℕ) (a : ℕ → Req) (p : ℕ) (x : Req)
      → n < k + p
      → n < slots
      → IsSinking n a p x
      → Returns (Sunk n (update a p x) x) (sift_down blockno k n a p x)
  unfolding sift_down
  sift_down_fills zero n a p x f inside o = absurd (omega (arith, o.high))
  sift_down_fills (suc k) n a p x f inside o = elim (Bool-cases (leb (p * 2) n)) [
    | inr leaf ↦
        ((p, a), rw leaf, (o.high, IsSinking-fill o (λ c low q. absurd (ground arith)), λ w. refl))
    | inl inner ↦
        let (c, picked, m) = pick_child_least n a p inside (ground arith) in
        elim (Bool-cases (ltb (key blockno x) (key blockno (a c)))) [
          | inl less ↦ (
            (p, a),
            ground (arith, picked, m.high),
            (o.high, IsSinking-fill o (λ s low q. ground (arith, m.least s low q)), λ w. refl),
          )
          | inr more ↦
              let o' = IsSinking-down o m (ground arith) in
              let deeper : p < c = omega (arith, o.low, m.parent) in
              let (r, e, (q, heap, same)) =
                sift_down_fills k n (update a p (a c)) c x (omega arith) inside o' in
              (
                r,
                ground (arith, picked, o.high, m.high, e),
                (q, heap, λ w. same w ∙ total-hole_down w n a p c x o.low deeper m.high),
              )
        ]
  ]

  IsSinking-root :
      (n : ℕ) (a : ℕ → Req) (x : Req) → 1 ≤ n → IsHeap blockno (n + 1) a → IsSinking n a 1 x
  IsSinking-root n a x some_left h = record {
    low = omega arith;
    high = some_left;
    sentinel = h.sentinel;
    edges = λ c low high e f. h.edges c low (omega arith);
    above = λ two. absurd (omega arith);
    bridged = λ c low high e two. absurd (omega arith);
  }

  -- the last request, put in the place of the root, takes the root out
  total-replace_root :
      (w : Req → ℕ) (n : ℕ) (a : ℕ → Req)
      → 1 ≤ n
      → total w 1 n (update a 1 (a (n + 1))) + w (a 1) ≡ total w 1 (n + 1) a
  total-replace_root w n a h =
      ground (arith, total-update w 1 n a 1 (a (n + 1)), total_last w 1 n a (n + 1) (omega arith))

  -- the last request alone in the queue is taken out
  delete_from_min_heap_last :
      (h : MinHeap)
      → IsValid blockno 1 h
      → Returns
          (λ h'.
            IsValid blockno 0 h'
            × ((w : Req → ℕ) → total w 1 0 h'.items + w (h.items 1) ≡ total w 1 1 h.items))
          (delete_from_min_heap blockno h)
  unfolding delete_from_min_heap sift_down
  delete_from_min_heap_last h v = (
    record h { items = update h.items 1 (h.items 1); size = pos 0 },
    ground (arith, v.size),
    (
      record {
        size = refl;
        capacity = v.capacity;
        inside = omega arith;
        heap = record { sentinel = v.heap.sentinel; edges = λ c low high. absurd (omega arith) };
      },
      λ w. ground (
        arith,
        total_zero w 1 (update h.items 1 (h.items 1)),
        total_zero w 1 h.items,
        total_last w 1 0 h.items 1 (omega arith),
      ),
    ),
  )

  -- With `n + 1` requests queued, deleteFromMinHeap returns, keeps the heap order, and the queue
  -- then holds the old requests but for the root.
  pub delete_from_min_heap_correct :
      (n : ℕ) (h : MinHeap)
      → IsValid blockno (n + 1) h
      → Returns
          (λ h'.
            IsValid blockno n h'
            × ((w : Req → ℕ) → total w 1 n h'.items + w (h.items 1) ≡ total w 1 (n + 1) h.items))
          (delete_from_min_heap blockno h)
  unfolding delete_from_min_heap
  delete_from_min_heap_correct zero h v = delete_from_min_heap_last h v
  delete_from_min_heap_correct (suc m) h v =
      let n = suc m in
      let last = h.items (n + 1) in
      let (r, e, (q, heap, same)) =
        sift_down_fills (n + 1) n h.items 1 last (omega arith) (omega (arith, v.inside))
          (IsSinking-root n h.items last (omega arith) v.heap) in
      (
        record h { items = update r.1 r.0 last; size = pos n },
        ground (arith, v.size, v.inside, q, e),
        (
          record {
            size = refl;
            capacity = v.capacity;
            inside = omega (arith, v.inside);
            heap = heap;
          },
          λ w. ground (arith, same w, total-replace_root w n h.items),
        ),
      )

-- On an empty queue deleteFromMinHeap takes the counter below 0, and the next insertion then writes
-- its request over the sentinel: no request is counted, and `data[0]` holds the new one.
pub insert_min_heap-delete_from_min_heap_empty :
    (blockno : ℕ → ℕ) (h : MinHeap) (x : Req)
    → IsValid blockno 0 h
    → Returns
        (λ h'. (h'.size ≡ pos 0) × (h'.items 0 ≡ x))
        (delete_from_min_heap blockno h >>= λ h'. insert_min_heap blockno h' x)
unfolding delete_from_min_heap insert_min_heap sift_up
insert_min_heap-delete_from_min_heap_empty blockno h x v = (
  record h { items = update (update h.items 1 (h.items 0)) 0 x; size = pos 0 },
  ground (arith, v.size, v.heap.sentinel),
  (refl, refl),
)
