-- ===== src/Bcache/Get.antt =====
-- `bget` and `bread` (kernel/bio.c).
use io_scheduling.Prelude.{
  refl, ℕ, ◌+◌, ◌-◌, ◌%◌, ◌^◌, ◌≤◌, ◌<◌, ◌≡◌, ◌≢◌, arith, true, false, if◌then◌else◌, update,
  if_elim, Option, none, some, Run, ok, stop, panic, ◌∷◌, ◌>>=◌,
}
use io_scheduling.Bcache.{Bcache, nbuf, head, search, bget, bread, recycle, is_block, is_unused}
use io_scheduling.Bcache.Order.{IsOrder}
use io_scheduling.Bcache.Search.{FirstOf, search_next, search_prev}

-- No block of a device but 0 (which binit leaves everywhere) is in two buffers.
unfoldable pub IsUnique : Bcache → Type 0
IsUnique s =
    (a b : ℕ)
    → a < nbuf
    → b < nbuf
    → s.dev a ≢ 0
    → s.dev a ≡ s.dev b
    → s.blockno a ≡ s.blockno b
    → a ≡ b

-- What bget answers: the block's buffer, with one reference more; or, if no buffer has the block, the
-- last unused buffer of the order, cleared for it; or a panic, if there is none.
pub data Got (o : ℕ → ℕ) (dev blockno : ℕ) (s : Bcache) : Run (ℕ × Bcache) → Type 0 where
  cached :
      (p b : ℕ)
      → 1 ≤ p
      → p ≤ nbuf
      → o p ≡ b
      → s.dev b ≡ dev
      → s.blockno b ≡ blockno
      → Got o dev blockno s (
          ok (
            b,
            record s {
              refcnt = update s.refcnt b ((s.refcnt b + 1) % 2 ^ 32);
              held = update s.held b true;
            },
          ))
  recycled :
      (p b : ℕ)
      → 1 ≤ p
      → p ≤ nbuf
      → o p ≡ b
      → s.refcnt b ≡ 0
      → ((j : ℕ) → p < j → j ≤ nbuf → s.refcnt (o j) ≢ 0)
      → ((j : ℕ) → 1 ≤ j → j ≤ nbuf → is_block s dev blockno (o j) ≡ false)
      → Got o dev blockno s (ok (b, recycle dev blockno b s))
  exhausted :
      ((j : ℕ) → 1 ≤ j → j ≤ nbuf → s.refcnt (o j) ≢ 0)
      → ((j : ℕ) → 1 ≤ j → j ≤ nbuf → is_block s dev blockno (o j) ≡ false)
      → Got o dev blockno s (stop panic)

pub bget_correct :
    (o : ℕ → ℕ) (dev blockno : ℕ) (s : Bcache)
    → IsOrder nbuf o s
    → Got o dev blockno s (bget dev blockno s)
unfolding bget FirstOf
bget_correct o dev blockno s h =
    hit (search (nbuf + 1) s.next (is_block s dev blockno) (s.next head))
      (search_next o s h (is_block s dev blockno))
  where
    miss :
        (r : Option ℕ)
        → ((j : ℕ) → 1 ≤ j → j < nbuf + 1 → is_block s dev blockno (o j) ≡ false)
        → FirstOf (λ j. o (nbuf + 1 - j)) (is_unused s) 1 (nbuf + 1) r
        → Got o dev blockno s
            (elim r [ some b ↦ ok (b, recycle dev blockno b s) | none ↦ stop panic ])
    miss none absent all =
        exhausted (λ j f t e. ground (arith, all (nbuf + 1 - j) (omega arith) (omega arith)))
          (λ j f t. absent j f (omega arith))
    miss (some b) absent (p, from, to, e, free, before) =
        recycled (nbuf + 1 - p) b (omega arith) (omega arith) e (ground arith)
          (λ j f t z. ground (arith, before (nbuf + 1 - j) (omega arith) (omega arith)))
          (λ j f t. absent j f (omega arith))

    hit :
        (r : Option ℕ)
        → FirstOf o (is_block s dev blockno) 1 (nbuf + 1) r
        → Got o dev blockno s (elim r [
          | some b ↦ ok (
            b,
            record s {
              refcnt = update s.refcnt b ((s.refcnt b + 1) % 2 ^ 32);
              held = update s.held b true;
            },
          )
          | none ↦ elim (search (nbuf + 1) s.prev (is_unused s) (s.prev head)) [
            | some b ↦ ok (b, recycle dev blockno b s)
            | none ↦ stop panic
          ]
        ])
    hit none absent =
        miss (search (nbuf + 1) s.prev (is_unused s) (s.prev head)) absent
          (search_prev o s h (is_unused s))
    hit (some b) (p, from, to, e, same, before) =
        cached p b from (omega arith) e (ground arith) (ground arith)

-- every buffer has a place in the order
unfoldable pub IsFull : (ℕ → ℕ) → Type 0
IsFull o = (b : ℕ) → b < nbuf → (p : ℕ) × (1 ≤ p) × (p ≤ nbuf) × (o p ≡ b)

-- all buffers of the order have references
pub IsBusy : (ℕ → ℕ) → Bcache → Type 0
IsBusy o s = (j : ℕ) → 1 ≤ j → j ≤ nbuf → s.refcnt (o j) ≢ 0

-- `P` holds of the state that a call returns with, and `Q` where it panics.
pub After : (Bcache → Type 0) → Type 0 → Run (ℕ × Bcache) → Type 0
After P Q (ok (b, t)) = P t
After P Q (stop e) = (e ≡ panic) × Q

recycle-IsUnique :
    (dev blockno b : ℕ) (s : Bcache)
    → ((a : ℕ) → a < nbuf → is_block s dev blockno a ≡ false)
    → IsUnique s
    → IsUnique (recycle dev blockno b s)
unfolding recycle IsUnique
recycle-IsUnique dev blockno b s absent u =
    λ a c p q z e f. ground (arith, u a c p q, absent a p, absent c q)

Got-IsUnique :
    (o : ℕ → ℕ) (dev blockno : ℕ) (s : Bcache) (r : Run (ℕ × Bcache))
    → IsFull o
    → IsUnique s
    → Got o dev blockno s r
    → After IsUnique (IsBusy o s) r
unfolding After IsUnique IsFull IsBusy
Got-IsUnique o dev blockno s r full u (cached p b from to e f g) = u
Got-IsUnique o dev blockno s r full u (recycled p b from to e free later absent) =
    recycle-IsUnique dev blockno b s
      (λ a low. let (q, f, t, e) = full a low in ground (arith, absent q f t)) u
Got-IsUnique o dev blockno s r full u (exhausted all absent) = (refl, all)

-- With all buffers in the list, where no block is in two buffers, bread leaves no block in two
-- buffers; it panics only where all buffers have references.
pub bread-IsUnique :
    (o : ℕ → ℕ) (dev blockno : ℕ) (s : Bcache)
    → IsOrder nbuf o s
    → IsFull o
    → IsUnique s
    → After IsUnique (IsBusy o s) (bread dev blockno s)
unfolding bread After IsUnique
bread-IsUnique o dev blockno s h full u =
    read (bget dev blockno s)
      (Got-IsUnique o dev blockno s (bget dev blockno s) full u (bget_correct o dev blockno s h))
  where
    read :
        (r : Run (ℕ × Bcache))
        → After IsUnique (IsBusy o s) r
        → After IsUnique (IsBusy o s) (
            r >>= λ (b, t). ok (
              if t.valid b then (b, t) else (
                b,
                record t { transfers = (b, false) ∷ t.transfers; valid = update t.valid b true },
              )))
    read (stop e) a = a
    read (ok (b, t)) a = if_elim (λ (x : ℕ × Bcache). IsUnique x.1) (t.valid b) (λ v. a) (λ v. a)
