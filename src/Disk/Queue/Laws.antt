-- ===== src/Disk/Queue/Laws.antt =====
-- `enqueue` and `dequeue` of kernel/virtio_disk.c.
use io_scheduling.Prelude.{
  ℕ, zero, suc, ◌+◌, ◌-◌, ◌^◌, ◌≤◌, ◌<◌, ◌≡◌, ◌∙◌, refl, arith, pos, update, total, Returns,
  total_push, total-ext, total_first, dec_lt, ◌==◌, if◌then◌else◌, ◌⊎◌, inl, inr, stop, panic,
}
use io_scheduling.Disk.Request.{Req}
use io_scheduling.Disk.Queue.{Queue, slots, sstf, sstf_loop, shift_loop, enqueue, dequeue}
use io_scheduling.Disk.Queue.Nearest.{
  between, AreSmall, IsNearest, IsReordered, IsReordered-refl, sstf_loop_lem,
}

module _ (blockno : ℕ → ℕ) where
  -- `n` requests are queued, and the second one is nearest to the first
  pub record IsValid (n : ℕ) (q : Queue) : Type 0 where
    pub size : q.size ≡ pos n
    pub capacity : q.capacity ≡ slots
    pub inside : n ≤ slots
    pub small : AreSmall blockno n q.items
    pub near : IsNearest blockno n q.items

  sstf_lem :
      (n : ℕ) (q : Queue)
      → q.size ≡ pos n
      → q.capacity ≡ slots
      → n ≤ slots
      → AreSmall blockno n q.items
      → Returns (λ q'. IsReordered blockno n q.items q'.items × IsValid n q') (sstf blockno q)
  unfolding sstf sstf_loop
  sstf_lem zero q e cap inside small = (
    q,
    ground (arith, e),
    (
      IsReordered-refl blockno 0 q.items,
      record {
        size = e;
        capacity = cap;
        inside = inside;
        small = small;
        near = λ j p r. absurd (omega arith);
      },
    ),
  )
  sstf_lem (suc m) q e cap inside small =
      let n = suc m in
      let (a, run, (order, near)) =
        sstf_loop_lem blockno (n - 1) n q.items 1 inside (omega arith) (omega arith) small
          (λ j p r. absurd (omega arith)) in
      (
        record q { items = a },
        ground (arith, run, e),
        (
          order,
          record {
            size = e;
            capacity = cap;
            inside = inside;
            small = order.keeps (λ r. blockno r.b < 2 ^ 31) small;
            near = near;
          },
        ),
      )

  -- enqueue panics on a full queue.
  pub enqueue-full : (q : Queue) (x : Req) → IsValid slots q → enqueue blockno q x ≡ stop panic
  unfolding enqueue
  enqueue-full q x v = ground (arith, v.size, v.capacity)

  -- While fewer than 128 requests are queued, and all block numbers, also that of the new request, are
  -- below 2^31, so that no distance overflows an `int`, enqueue returns; the queue then holds the old
  -- requests and the new one, the request in service stays first, and a nearest one follows it.
  pub enqueue_correct :
      (n : ℕ) (q : Queue) (x : Req)
      → IsValid n q
      → n < slots
      → blockno x.b < 2 ^ 31
      → Returns
          (λ q'.
            IsValid (n + 1) q'
            × ((w : Req → ℕ) → total w 0 (n + 1) q'.items ≡ total w 0 n q.items + w x)
            × (q'.items 0 ≡ (if n == 0 then x else q.items 0)))
          (enqueue blockno q x)
  unfolding enqueue
  enqueue_correct n q x v room fits =
      let a = update q.items n x in
      let (q', run, (order, valid)) =
        sstf_lem (n + 1) (record q { items = a; size = pos (n + 1) }) refl v.capacity (omega arith)
          (λ j p. ground (arith, v.small j)) in
      (
        q',
        ground (arith, run, v.size, v.capacity),
        (
          valid,
          λ w. order.same w ∙ total_push w 0 n q.items n x (omega arith),
          ground (arith, order.first),
        ),
      )

  -- what the `for` of dequeue leaves
  record IsShifted (k i : ℕ) (a b : ℕ → Req) : Type 0 where
    before : (j : ℕ) → j < i → b j ≡ a j
    moved : (j : ℕ) → i ≤ j → j < i + k → b j ≡ a (j + 1)
    after : (j : ℕ) → i + k ≤ j → b j ≡ a j

  shift_loop_lem :
      (k i : ℕ) (a : ℕ → Req) → i + k < slots → Returns (IsShifted k i a) (shift_loop blockno k i a)
  unfolding shift_loop
  shift_loop_lem zero i a h = (
    a,
    refl,
    record { before = λ j p. refl; moved = λ j p q. absurd (omega arith); after = λ j p. refl },
  )
  shift_loop_lem (suc k) i a h =
      let (b, run, s) = shift_loop_lem k (i + 1) (update a i (a (i + 1))) (omega arith) in
      (
        b,
        ground (arith, run),
        record {
          before = λ j p. ground (arith, s.before j);
          moved = λ j p q. ground (arith, s.before j, s.moved j);
          after = λ j p. ground (arith, s.after j);
        },
      )

  -- With `n + 1` requests queued, dequeue returns and takes exactly the first out; the request
  -- that was second comes to the front, and no waiting request is nearer to the one taken out.
  pub dequeue_correct :
      (n : ℕ) (q : Queue)
      → IsValid (n + 1) q
      → Returns
          (λ q'.
            IsValid n q'
            × ((w : Req → ℕ) → total w 0 n q'.items + w (q.items 0) ≡ total w 0 (n + 1) q.items)
            × ((n ≡ 0) ⊎ (q'.items 0 ≡ q.items 1))
            × ((j : ℕ)
                → j < n
                → between blockno (q.items 0) (q.items 1)
                  ≤ between blockno (q.items 0) (q'.items j)))
          (dequeue blockno q)
  unfolding dequeue
  dequeue_correct n q v =
      let (a, shifted, s) = shift_loop_lem (n + 1 - 1) 0 q.items (omega (arith, v.inside)) in
      let (q', run, (order, valid)) =
        sstf_lem n (record q { items = a; size = pos n }) refl v.capacity (omega (arith, v.inside))
          (λ j p. ground (arith, v.small (j + 1), s.moved j)) in
      (
        q',
        ground (arith, run, shifted, v.size),
        (
          valid,
          λ w. ground (
            arith,
            order.same w,
            total-ext w 0 n a (λ j. q.items (j + 1)) (λ j low high. s.moved j low (omega arith)),
            total_first w 0 n q.items,
          ),
          elim (dec_lt 0 n) [
            | yes p ↦ inr (order.first ∙ s.moved 0 (omega arith) (omega arith))
            | no p ↦ inl (omega arith)
          ],
          order.keeps (λ r. between blockno (q.items 0) (q.items 1) ≤ between blockno (q.items 0) r)
              (λ j p. ground (arith, v.near (j + 1), s.moved j)),
        ),
      )
