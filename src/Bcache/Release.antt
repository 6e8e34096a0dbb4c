-- ===== src/Bcache/Release.antt =====
-- `brelse` (kernel/bio.c).
use io_scheduling.Prelude.{
  ℕ, ◌+◌, ◌-◌, ◌%◌, ◌^◌, ◌≤◌, ◌<◌, ◌≡◌, arith, true, false, ◌==◌, if◌then◌else◌, update, Returns,
  ℕ_discrete,
}
use io_scheduling.Bcache.{Bcache, nbuf, brelse, push_front, unlink_buf}
use io_scheduling.Bcache.Order.{IsOrder, cons, skip, to_front}

-- the buffer after its lock and its reference have been given back
abbrev dropped : ℕ → Bcache → Bcache
dropped b s = record s {
  held = update s.held b false;
  refcnt = update s.refcnt b ((s.refcnt b + 2 ^ 32 - 1) % 2 ^ 32);
}

dropped-IsOrder : (o : ℕ → ℕ) (s : Bcache) (b : ℕ) → IsOrder nbuf o s → IsOrder nbuf o (dropped b s)
dropped-IsOrder o s b h = record {
  first = h.first;
  last = h.last;
  inside = h.inside;
  distinct = h.distinct;
  forward = h.forward;
  backward = h.backward;
}

-- brelse by the holder of the lock of the buffer at place `p`: it drops a reference, and where that
-- was the last one the buffer comes first in the order, the others keeping theirs; otherwise the order
-- stays.
pub brelse_correct :
    (o : ℕ → ℕ) (s : Bcache) (p b : ℕ)
    → IsOrder nbuf o s
    → 1 ≤ p
    → p ≤ nbuf
    → o p ≡ b
    → s.held b ≡ true
    → 0 < s.refcnt b
    → s.refcnt b < 2 ^ 32
    → Returns
        (λ t.
          (t.held b ≡ false)
          × (t.refcnt b + 1 ≡ s.refcnt b)
          × IsOrder nbuf (if s.refcnt b == 1 then cons b (skip p o) else o) t)
        (brelse b s)
unfolding brelse push_front unlink_buf
brelse_correct o s p b h from to e held pos small = elim (ℕ_discrete (s.refcnt b) 1) [
  | yes one ↦
      (let c : (s.refcnt b == 1) ≡ true = ground arith in
        (
          push_front b (unlink_buf b (dropped b s)),
          ground arith,
          (
            ground arith,
            ground arith,
            rw c (to_front 29 o (dropped b s) p b (dropped-IsOrder o s b h) from to e),
          ),
        ))
  | no more ↦
      (let c : (s.refcnt b == 1) ≡ false = ground arith in
        (dropped b s, ground arith, (ground arith, ground arith, rw c (dropped-IsOrder o s b h))))
]
