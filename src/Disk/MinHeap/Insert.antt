-- ===== src/Disk/MinHeap/Insert.antt =====
-- `insertMinHeap` of kernel/virtio_disk.c.
use io_scheduling.Prelude.{
  ℕ, zero, suc, ◌+◌, ◌/◌, ◌≤◌, ◌<◌, ◌≡◌, arith, pos, update, total, ltb, total-update, total_push,
  ◌∙◌, refl, stop, fault, SameItems, Returns, Bool-cases, inl, inr,
}
use io_scheduling.Disk.Request.{Req}
use io_scheduling.Disk.MinHeap.{MinHeap, slots, key, sift_up, insert_min_heap}
use io_scheduling.Disk.MinHeap.Order.{IsHeap, IsValid, IsOpen, IsOpen-fill, IsOpen-up}

module _ (blockno : ℕ → ℕ) where
  -- what the upward loop leaves: a hole that `x` fills to a heap of the same requests
  abbrev Sifted : ℕ → (ℕ → Req) → Req → ℕ × (ℕ → Req) → Type 0
  Sifted n b x (p, a) =
      (p ≤ n) × IsHeap blockno n (update a p x) × SameItems 1 n (update a p x) 1 n b

  -- the hole and what stands above it change places
  total-hole_up :
      (w : Req → ℕ) (n : ℕ) (a : ℕ → Req) (p : ℕ) (x : Req)
      → 1 ≤ p / 2
      → p ≤ n
      → total w 1 n (update (update a p (a (p / 2))) (p / 2) x) ≡ total w 1 n (update a p x)
  total-hole_up w n a p x low high = ground (
    arith,
    total-update w 1 n (update a p (a (p / 2))) (p / 2) x,
    total-update w 1 n a p (a (p / 2)),
    total-update w 1 n a p x,
  )

  sift_up_fills :
      (k n : ℕ) (a : ℕ → Req) (p : ℕ) (x : Req)
      → p < k
      → n < slots
      → IsOpen blockno n a p x
      → Returns (Sifted n (update a p x) x) (sift_up blockno k a p x)
  unfolding sift_up
  sift_up_fills zero n a p x f inside o = absurd (omega arith)
  sift_up_fills (suc k) n a p x f inside o =
      elim (Bool-cases (ltb (key blockno x) (key blockno (a (p / 2))))) [
        | inl less ↦
            let o' = IsOpen-up blockno o (ground arith) in
            let (r, e, (q, heap, same)) =
              sift_up_fills k n (update a p (a (p / 2))) (p / 2) x (omega (arith, o.low)) inside
                o' in
            (
              r,
              ground (arith, o.high, e),
              (q, heap, λ w. same w ∙ total-hole_up w n a p x o'.low o.high),
            )
        | inr more ↦ (
          (p, a),
          ground (arith, o.high),
          (o.high, IsOpen-fill blockno o (ground arith), λ w. refl),
        )
      ]

  -- the new last slot is a hole that any request fills
  IsOpen-last :
      (n : ℕ) (a : ℕ → Req) (x : Req) → IsHeap blockno n a → IsOpen blockno (n + 1) a (n + 1) x
  IsOpen-last n a x h = record {
    low = omega arith;
    high = omega arith;
    sentinel = h.sentinel;
    edges = λ c low high e f. h.edges c low (omega arith);
    below = λ c low high e. absurd (omega arith);
    bridged = λ c low high e two. absurd (omega arith);
  }

  -- While fewer than 127 requests are queued, insertMinHeap returns, keeps the heap order, and the
  -- queue then holds the old requests and the new one.
  pub insert_min_heap_correct :
      (n : ℕ) (h : MinHeap) (x : Req)
      → IsValid blockno n h
      → n + 1 < slots
      → Returns
          (λ h'.
            IsValid blockno (n + 1) h'
            × ((w : Req → ℕ) → total w 1 (n + 1) h'.items ≡ total w 1 n h.items + w x))
          (insert_min_heap blockno h x)
  unfolding insert_min_heap
  insert_min_heap_correct n h x v room =
      let (r, e, (q, heap, same)) =
        sift_up_fills (n + 1 + 1) (n + 1) h.items (n + 1) x (omega arith) room
          (IsOpen-last n h.items x v.heap) in
      (
        record h { items = update r.1 r.0 x; size = pos (n + 1) },
        ground (arith, e, v.size, v.capacity),
        (
          record { size = refl; capacity = v.capacity; inside = room; heap = heap },
          λ w. same w ∙ total_push w 1 n h.items (n + 1) x (omega arith),
        ),
      )

-- With 127 requests queued the capacity test still lets a request through, and insertMinHeap then
-- writes `data[128]`, which is outside the array.
pub insert_min_heap_overflow :
    (blockno : ℕ → ℕ) (h : MinHeap) (x : Req)
    → IsValid blockno 127 h
    → insert_min_heap blockno h x ≡ stop fault
unfolding insert_min_heap sift_up
insert_min_heap_overflow blockno h x v = ground (arith, v.size, v.capacity)
