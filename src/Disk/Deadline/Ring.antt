-- ===== src/Disk/Deadline/Ring.antt =====
-- The ring of scheduler 3: requests in the order in which they came, with their times.
use io_scheduling.Prelude.{
  ℕ, Bool, false, ◌==◌, if◌then◌else◌, Run, ok, stop, fault, ◌>>=◌, ◌>>◌, panic_if, load, store, ℤ,
  pos, negsuc, increment, decrement, index,
}
use io_scheduling.Disk.Request.{Req}
use io_scheduling.Disk.Deadline.Cells.{Ptr, null, sen, cell, is_null, treesize, Section}

-- `struct Ring`
pub record Ring : Type 0 where
  pub sections : ℕ → Section
  pub sentinel : Section
  pub head : Ptr
  pub rear : Ptr
  pub top : ℤ  -- pos
  pub avail : ℕ → ℕ
  pub time_limit : ℕ
  pub size : ℤ
  pub capacity : ℕ

-- `*p`
unfoldable pub get : Ring → Ptr → Run Section
get r null = stop fault
get r sen = ok r.sentinel
get r (cell i) = load treesize r.sections i

-- `*p = s`
unfoldable pub put : Ring → Ptr → Section → Run Ring
put r null s = stop fault
put r sen s = ok (record r { sentinel = s })
put r (cell i) s = store treesize r.sections i s >>= λ ss. ok (record r { sections = ss })

unfoldable pub set_front : Ring → Ptr → Ptr → Run Ring
set_front r p q = get r p >>= λ s. put r p (record s { front = q })

unfoldable pub set_back : Ring → Ptr → Ptr → Run Ring
set_back r p q = get r p >>= λ s. put r p (record s { back = q })

unfoldable pub set_node : Ring → Ptr → Ptr → Run Ring
set_node r p q = get r p >>= λ s. put r p (record s { node = q })

abbrev is_full : Ring → Bool
is_full r = elim r.size [ pos n ↦ n == r.capacity | negsuc n ↦ false ]

-- `ring->avail[++ring->pos] = rank`
unfoldable pub push_avail : Ring → ℕ → Run Ring
push_avail r rank = do
  i ← index (increment r.top)
  avail ← store treesize r.avail i rank
  ok (record r { top = increment r.top; avail = avail })

-- InsertToRing at the time `now`: the ring and the new section
unfoldable pub insert_to_ring : ℕ → Ring → Req → Run (Ptr × Ring)
insert_to_ring now r x = do
  panic_if (is_full r)
  i ← index r.top
  a ← load treesize r.avail i
  let p = cell a
  s ← get r p
  let r1 = record r { size = increment r.size; top = decrement r.top }
  r2 ← put r1 p (record s { item = x; time = now; front = r.rear })
  r3 ← set_back r2 r2.rear p
  ok (p, record r3 { rear = p })

-- the ring's part of PrimRBTree: the section `p` is taken out
unfoldable pub unlink : Ptr → Ring → Run Ring
unlink p r = do
  s ← get r p
  r1 ← push_avail r s.rank
  let r2 = record r1 { size = decrement r1.size }
  s2 ← get r2 p
  r3 ← set_back r2 s2.front s2.back
  s3 ← get r3 p
  if is_null s3.back then ok r3 else set_front r3 s3.back s3.front
