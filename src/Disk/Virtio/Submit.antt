-- ===== src/Disk/Virtio/Submit.antt =====
-- `virtio_disk_rw` of kernel/virtio_disk.c: `submit` and `finish`.
use io_scheduling.Prelude.{
  ℕ, ◌+◌, ◌*◌, ◌%◌, ◌^◌, ℕ_discrete, ◌<◌, ◌≡◌, ◌≢◌, ◌⊎◌, inl, inr, refl, arith, true, false, Option,
  none, some, List, Returns, update, ◌==◌, ◌||◌,
}
use io_scheduling.Disk.Virtio.{
  Disk, op, block, status_of, desc_f_next, desc_f_write, num, has_next, start_transfer, format,
  submit, finish,
}
use io_scheduling.Disk.Virtio.Alloc.{claim, free_count, Alloc3, got, short, alloc3_desc_correct}
use io_scheduling.Disk.Virtio.Chain.{IsChain, freed3, free_chain_correct}

-- What the device and virtio_disk_intr find in `t`: the head `i0` is the next entry of the avail ring,
-- the three descriptors are the header of a read or a write of the sector, the buffer's data and the
-- status, and the buffer is recorded and belongs to the device; nothing else was put on the ring.
pub record IsRequested (i0 i1 i2 b bno write : ℕ) (s t : Disk) : Type 0 where
  pub head : t.avail_ring (s.avail_idx % num) ≡ i0
  pub other_heads : (j : ℕ) → j ≢ s.avail_idx % num → t.avail_ring j ≡ s.avail_ring j
  pub published : t.avail_idx ≡ (s.avail_idx + 1) % 2 ^ 16
  pub seen : t.used_idx ≡ s.used_idx
  pub recorded : (t.info i0).b ≡ some b
  pub owned : (t.owned b ≡ true) × ((c : ℕ) → c ≢ b → t.owned c ≡ s.owned c)
  pub type : ((write ≡ 0) × ((t.ops i0).type ≡ 0)) ⊎ ((write ≢ 0) × ((t.ops i0).type ≡ 1))
  pub sector : (t.ops i0).sector ≡ bno * 2 % 2 ^ 32
  pub header : ((t.desc i0).addr ≡ op i0) × ((t.desc i0).len ≡ 16)
  pub payload : ((t.desc i1).addr ≡ block b) × ((t.desc i1).len ≡ 1024)
  pub direction :
      ((write ≡ 0) × ((t.desc i1).flags ≡ desc_f_write + desc_f_next))
      ⊎ ((write ≢ 0) × ((t.desc i1).flags ≡ desc_f_next))
  pub status : ((t.desc i2).addr ≡ status_of i0) × ((t.desc i2).flags ≡ desc_f_write)

-- what `submit` leaves in the state `s`
pub data Submitted (b bno write : ℕ) (s : Disk) : Option ℕ × Disk → Type 0 where
  -- The request is on the avail ring, at the head of a chain of three descriptors that were free.
  started :
      (i0 i1 i2 : ℕ) (t : Disk)
      → IsChain i0 i1 i2 t
      → (s.free i0 ≡ true) × (s.free i1 ≡ true) × (s.free i2 ≡ true)
      → IsRequested i0 i1 i2 b bno write s t
      → t ≡ format i0 i1 i2 b bno write (claim i2 (claim i1 (claim i0 s)))
      → Submitted b bno write s (some i0, t)
  -- Fewer than three descriptors are free, and nothing was started.
  asleep :
      (t : Disk)
      → free_count s < 3
      → ((j : ℕ) → t.free j ≡ s.free j)
      → (t.info ≡ s.info)
        × (t.owned ≡ s.owned)
        × (t.avail_ring ≡ s.avail_ring)
        × (t.avail_idx ≡ s.avail_idx)
        × (t.used_idx ≡ s.used_idx)
      → Submitted b bno write s (none, t)

module _ (b bno write : ℕ) (s : Disk) where
  format-IsChain :
      (i0 i1 i2 : ℕ)
      → i0 < num
      → i1 < num
      → i2 < num
      → i0 ≢ i1
      → i0 ≢ i2
      → i1 ≢ i2
      → IsChain i0 i1 i2 (format i0 i1 i2 b bno write (claim i2 (claim i1 (claim i0 s))))
  unfolding format has_next
  format-IsChain i0 i1 i2 p0 p1 p2 d e f = record {
    inside = (p0, p1, p2);
    distinct = (d, e, f);
    used = (ground arith, ground arith, ground arith);
    first = (ground arith, ground arith);
    second = (ground arith, ground arith);
    third = ground arith;
  }

  format-IsRequested :
      (i0 i1 i2 : ℕ)
      → i0 ≢ i1
      → i0 ≢ i2
      → i1 ≢ i2
      → IsRequested i0 i1 i2 b bno write s
          (format i0 i1 i2 b bno write (claim i2 (claim i1 (claim i0 s))))
  unfolding format
  format-IsRequested i0 i1 i2 d e f = record {
    head = ground arith;
    other_heads = λ j ne. ground arith;
    published = refl;
    seen = refl;
    recorded = ground arith;
    owned = (ground arith, λ c ne. ground arith);
    type = elim (ℕ_discrete write 0) [
      | yes z ↦ inl (z, ground arith)
      | no n ↦ inr (n, ground arith)
    ];
    sector = ground arith;
    header = (ground arith, ground arith);
    payload = (ground arith, ground arith);
    direction = elim (ℕ_discrete write 0) [
      | yes z ↦ inl (z, ground arith)
      | no n ↦ inr (n, ground arith)
    ];
    status = (ground arith, ground arith);
  }

  start_lem :
      (r : Option (List ℕ) × Disk)
      → Alloc3 s r
      → Returns (Submitted b bno write s) (start_transfer b bno write r)
  unfolding start_transfer
  start_lem _ (got i0 i1 i2 p0 p1 p2 d e f q0 q1 q2) = (
    _,
    refl,
    started i0 i1 i2 _ (format-IsChain i0 i1 i2 p0 p1 p2 d e f) (q0, q1, q2)
        (format-IsRequested i0 i1 i2 d e f) refl,
  )
  start_lem _ (short t few same rest) = (_, refl, asleep t few same rest)

  -- virtio_disk_rw puts the head of a chain of three descriptors that were free on the avail ring and
  -- advances its index. The chain names the header, with the direction and the sector of the request, the
  -- data of the buffer, and the status; the buffer is recorded under the head and belongs to the device.
  -- Or it goes to sleep because fewer than three are free.
  pub submit_correct : Returns (Submitted b bno write s) (submit b bno write s)
  unfolding submit
  submit_correct =
      let (r, e, v) = alloc3_desc_correct s in
      let (r', e', v') = start_lem r v in (r', ground (arith, e, e'), v')

module _ (i0 i1 i2 b bno write : ℕ) (s : Disk) where
  abbrev begun : Disk
  begun = format i0 i1 i2 b bno write (claim i2 (claim i1 (claim i0 s)))

  -- a descriptor in use is none of three that were free
  begun_leaves :
      (s.free i0 ≡ true) × (s.free i1 ≡ true) × (s.free i2 ≡ true)
      → (j : ℕ) → s.free j ≡ false
      → (begun.desc j ≡ s.desc j) × (begun.free j ≡ false)
  unfolding format
  begun_leaves (q0, q1, q2) j used = (ground arith, ground arith)

  begun-IsChain :
      (s.free i0 ≡ true) × (s.free i1 ≡ true) × (s.free i2 ≡ true)
      → {j0 j1 j2 : ℕ} → IsChain j0 j1 j2 s
      → IsChain j0 j1 j2 begun
  begun-IsChain q {j0} {j1} {j2} c =
      let k0 = begun_leaves q j0 c.used.0 in
      let k1 = begun_leaves q j1 c.used.1 in
      let k2 = begun_leaves q j2 c.used.2 in
      record {
        inside = c.inside;
        distinct = c.distinct;
        used = (k0.1, k1.1, k2.1);
        first = rw k0.0 c.first;
        second = rw k1.0 c.second;
        third = rw k2.0 c.third;
      }

-- A transfer that starts takes no descriptor from a chain in use, and leaves the chain linked.
pub submit-IsChain :
    (b bno write : ℕ) (s : Disk) (j0 j1 j2 : ℕ)
    → IsChain j0 j1 j2 s
    → Returns (λ (r, t). (r ≡ none) ⊎ IsChain j0 j1 j2 t) (submit b bno write s)
submit-IsChain b bno write s j0 j1 j2 c =
    let (r, e, v) = submit_correct b bno write s in (r, e, keep r v)
  where
    keep : (r : Option ℕ × Disk) → Submitted b bno write s r → (r.0 ≡ none) ⊎ IsChain j0 j1 j2 r.1
    keep _ (started i0 i1 i2 t c' q h e) = inr (rw e (begun-IsChain i0 i1 i2 b bno write s q c))
    keep _ (asleep t few same rest) = inl refl

-- finish gives the chain back: afterwards its descriptors are free, the others are as before, and no
-- buffer is recorded under the head.
pub finish_correct :
    (i0 i1 i2 : ℕ) (s : Disk)
    → IsChain i0 i1 i2 s
    → Returns
        (λ t.
          ((j : ℕ) → t.free j ≡ ((i0 == j) || (i1 == j) || (i2 == j) || s.free j))
          × ((t.info i0).b ≡ none)
          × (t.owned ≡ s.owned))
        (finish i0 s)
unfolding finish
finish_correct i0 i1 i2 s c =
    let s' = record s { info = update s.info i0 (record (s.info i0) { b = none }) } in
    (
      freed3 i0 i1 i2 s',
      free_chain_correct i0 i1 i2 s' (record {
        inside = c.inside;
        distinct = c.distinct;
        used = c.used;
        first = c.first;
        second = c.second;
        third = c.third;
      }),
      (λ j. ground arith, ground arith, refl),
    )
