-- ===== src/Disk/Virtio/Chain.antt =====
-- `free_desc` and `free_chain` of kernel/virtio_disk.c.
use io_scheduling.Prelude.{
  ℕ, zero, suc, ◌+◌, ◌≤◌, ◌<◌, ◌≡◌, ◌≢◌, inl, inr, arith, Bool, true, false, Bool-cases, ok, stop,
  out_of_fuel, total, total-update, ltb, if_elim, total_zero, total_last,
}
use io_scheduling.Disk.Virtio.{Disk, num, has_next, free_chain_loop, free_chain}
use io_scheduling.Disk.Virtio.Alloc.{give_back, free_desc-ok, free_desc-panic}

abbrev one_if_used : Bool → ℕ
one_if_used true = 0
one_if_used false = 1

used_count : Disk → ℕ
used_count s = total one_if_used 0 num s.free

used_count-give_back :
    (s : Disk) (i : ℕ) → i < num → s.free i ≡ false → used_count (give_back i s) + 1 ≡ used_count s
unfolding used_count
used_count-give_back s i h e =
    ground (arith, total-update one_if_used 0 num s.free i true (omega arith) h)

used_count-le : (n : ℕ) (free : ℕ → Bool) → total one_if_used 0 n free ≤ n
used_count-le zero free = omega (arith, total_zero one_if_used 0 free)
used_count-le (suc n) free =
    let e : suc n ≡ n + 1 = omega arith in
    rw e (ground (arith, total_last one_if_used 0 n free n (omega arith), used_count-le n free))

free_chain_loop_ends :
    (k i : ℕ) (s : Disk) → used_count s < k → free_chain_loop k i s ≢ stop out_of_fuel
unfolding free_chain_loop
free_chain_loop_ends zero i s h = absurd (omega arith)
free_chain_loop_ends (suc k) i s h = elim (Bool-cases (ltb i num)) [
  | inr outside ↦ rw outside (λ e. cc)
  | inl inside ↦ elim (Bool-cases (s.free i)) [
    | inl free ↦ rw (inside, free_desc-panic i s (inr free)) (λ e. cc)
    | inr used ↦
        rw (inside, free_desc-ok i s (ground arith) used)
          (if_elim (λ r. r ≢ stop out_of_fuel) (has_next (s.desc i).flags)
            (λ _.
              free_chain_loop_ends k (s.desc i).next (give_back i s)
                (omega (arith, used_count-give_back s i (ground arith) used)))
            (λ _ e. cc))
  ]
]

-- free_chain ends from every state, with whatever the descriptors hold: 129 rounds are enough.
pub free_chain_ends : (i : ℕ) (s : Disk) → free_chain i s ≢ stop out_of_fuel
unfolding free_chain used_count
free_chain_ends i s = free_chain_loop_ends (num + 1) i s (omega (arith, used_count-le num s.free))

-- The descriptors `i0`, `i1`, `i2` are in use and linked in this order.
pub record IsChain (i0 i1 i2 : ℕ) (s : Disk) : Type 0 where
  pub inside : (i0 < num) × (i1 < num) × (i2 < num)
  pub distinct : (i0 ≢ i1) × (i0 ≢ i2) × (i1 ≢ i2)
  pub used : (s.free i0 ≡ false) × (s.free i1 ≡ false) × (s.free i2 ≡ false)
  pub first : (has_next (s.desc i0).flags ≡ true) × ((s.desc i0).next ≡ i1)
  pub second : (has_next (s.desc i1).flags ≡ true) × ((s.desc i1).next ≡ i2)
  pub third : has_next (s.desc i2).flags ≡ false

abbrev pub freed3 : ℕ → ℕ → ℕ → Disk → Disk
freed3 i0 i1 i2 s = give_back i2 (give_back i1 (give_back i0 s))

-- On a chain of three descriptors free_chain returns, with these three freed.
pub free_chain_correct :
    (i0 i1 i2 : ℕ) (s : Disk) → IsChain i0 i1 i2 s → free_chain i0 s ≡ ok (freed3 i0 i1 i2 s)
unfolding free_chain free_chain_loop
free_chain_correct i0 i1 i2 s c = ground (
  arith,
  free_desc-ok i0 s c.inside.0 c.used.0,
  free_desc-ok i1 (give_back i0 s) c.inside.1,
  free_desc-ok i2 (give_back i1 (give_back i0 s)) c.inside.2,
)
