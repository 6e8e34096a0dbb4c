-- ===== src/Disk/MinHeap.antt =====
-- The queue of scheduler 1 (kernel/virtio_disk.c, `insertMinHeap` and `deleteFromMinHeap`): a binary
-- min-heap over the block numbers, in `data[1..Size]`, with a sentinel in `data[0]`.
-- `blockno` gives the field `blockno` of the buffer at an address. No queue function writes a
-- buffer.
pub mod Order
pub mod Insert
pub mod Delete
use io_scheduling.Prelude.{
  ℕ, zero, suc, ◌+◌, ◌*◌, ◌/◌, Bool, false, ltb, leb, ◌==◌, if◌then◌else◌, Run, ok, stop,
  out_of_fuel, ◌>>=◌, ◌>>◌, panic_if, load, store, ℤ, pos, negsuc, increment, decrement, index,
}
use io_scheduling.Disk.Request.{Req}

-- `struct HNode`
pub record MinHeap : Type 0 where
  pub items : ℕ → Req  -- data[128]
  pub size : ℤ
  pub capacity : ℕ

abbrev pub slots : ℕ
slots = 128

abbrev is_full : MinHeap → Bool
is_full h = elim h.size [ pos n ↦ n == h.capacity | negsuc n ↦ false ]

module _ (blockno : ℕ → ℕ) where
  abbrev pub key : Req → ℕ
  key r = blockno r.b

  -- the `for` of insertMinHeap: the hole moves up from `p`
  pub sift_up : ℕ → (ℕ → Req) → ℕ → Req → Run (ℕ × (ℕ → Req))
  sift_up zero a p x = stop out_of_fuel
  sift_up (suc k) a p x = do
    up ← load slots a (p / 2)
    let rest = store slots a p up >>= λ a'. sift_up k a' (p / 2) x
    if ltb (key x) (key up) then rest else ok (p, a)

  pub insert_min_heap : MinHeap → Req → Run MinHeap
  insert_min_heap h x = do
    panic_if (is_full h)
    let size' = increment h.size
    start ← index size'
    (p, a) ← sift_up (start + 1) h.items start x
    a' ← store slots a p x
    ok (record h { items = a'; size = size' })

  -- the child of the hole that the loop of deleteFromMinHeap looks at
  pub pick_child : ℕ → (ℕ → Req) → ℕ → Run ℕ
  pick_child n a child = if child == n then ok child else do
    left ← load slots a child
    right ← load slots a (child + 1)
    ok (if ltb (key right) (key left) then child + 1 else child)

  -- the `for` of deleteFromMinHeap: the hole moves down from `parent`
  pub sift_down : ℕ → ℕ → (ℕ → Req) → ℕ → Req → Run (ℕ × (ℕ → Req))
  sift_down zero n a parent last = stop out_of_fuel
  sift_down (suc k) n a parent last =
      let round : Run (ℕ × (ℕ → Req)) = do
        child ← pick_child n a (parent * 2)
        c ← load slots a child
        let rest = store slots a parent c >>= λ a'. sift_down k n a' child last
        if ltb (key last) (key c) then ok (parent, a) else rest
      in if leb (parent * 2) n then round else ok (parent, a)

  pub delete_from_min_heap : MinHeap → Run MinHeap
  delete_from_min_heap h = do
    old ← index h.size
    last ← load slots h.items old
    let size' = decrement h.size
    (parent, a) ← elim size' [
      | pos n ↦ sift_down (n + 1) n h.items 1 last
      | negsuc n ↦ ok (1, h.items)
    ]
    a' ← store slots a parent last
    ok (record h { items = a'; size = size' })
