-- ===== src/Disk/Deadline/Sched.antt =====
-- Scheduler 3 as a whole: trees and rings for reads (false) and writes (true), and the ready area.
-- `now` stands for the calls of `Nowtime` in one step of the scheduler.
use io_scheduling.Prelude.{
  ℕ, zero, suc, ◌+◌, ◌-◌, ◌%◌, ◌^◌, Bool, true, false, ltb, ◌==◌, if◌then◌else◌, Run, ok, stop,
  out_of_fuel, ◌>>=◌, ◌>>◌, panic_if, load, pos, negsuc, increment, decrement, index,
}
use io_scheduling.Disk.Request.{Req}
use io_scheduling.Disk.Deadline.Cells.{Ptr, null, sen, cell, is_null, same, red, black, treesize}
use io_scheduling.Disk.Deadline.Tree
use io_scheduling.Disk.Deadline.Tree.{Tree}
use io_scheduling.Disk.Deadline.Ring
use io_scheduling.Disk.Deadline.Ring.{Ring}

-- `disk.tree`, `disk.ring` and `disk.readyArea`; index `false` is 0
pub record Sched : Type 0 where
  pub tree : Bool → Tree
  pub ring : Bool → Ring
  pub ready_area : Req

abbrev pub set_tree : Sched → Bool → Tree → Sched
set_tree s false t = record s { tree = λ d. if d then s.tree true else t }
set_tree s true t = record s { tree = λ d. if d then t else s.tree false }

abbrev pub set_ring : Sched → Bool → Ring → Sched
set_ring s false r = record s { ring = λ d. if d then s.ring true else r }
set_ring s true r = record s { ring = λ d. if d then r else s.ring false }

abbrev pub is_write : Req → Bool
is_write x = if x.write == 0 then false else true

abbrev pub is_empty : Tree → Bool
is_empty t = elim t.size [ pos n ↦ n == 0 | negsuc n ↦ false ]

abbrev pub is_full : Tree → Bool
is_full t = elim t.size [ pos n ↦ n == t.capacity | negsuc n ↦ false ]

-- the tree that GetFromRBTree and PrimRBTree of `tree[0]` turn to
abbrev pub current : Sched → Bool
current s = is_empty (s.tree false)

-- the request of the leftmost node
unfoldable pub first_request : Tree → Run Req
first_request t = do p ← Tree.leftmost Tree.walk t sen; n ← Tree.get t p; ok n.item

-- GetFromRBTree(&disk.tree[0])
unfoldable pub get_from_tree : Sched → Run Req
get_from_tree s = first_request (s.tree (current s))

-- PrimRBTree(&disk.tree[0])
unfoldable pub prim_tree : Sched → Run Sched
prim_tree s = do
  let d = current s
  let t = s.tree d
  let t1 = record t { size = if is_empty t then t.size else decrement t.size }
  temp ← Tree.leftmost Tree.walk t1 sen
  n ← Tree.get t1 temp
  t2 ← Tree.push_avail t1 n.rank
  t3 ← Tree.set_link t2 (n.links 2) 0 null
  r ← Ring.unlink n.section (s.ring (is_write n.item))
  n' ← Tree.get t3 temp
  let balance = Tree.balance_deletion Tree.walk temp t3
  t4 ← if is_null (n'.links 1) then balance else Tree.set_link t3 (n'.links 2) 0 (n'.links 1)
  ok (set_ring (set_tree s d t4) (is_write n.item) r)

-- what RenewReadyArea does for an expired section `p` at the front of ring `d`
unfoldable pub expire : Bool → Ptr → Sched → Run Sched
expire d p s = do
  section ← Ring.get (s.ring d) p
  let s1 = record s { ready_area = section.item }
  let w = is_write section.item
  t ← Tree.delete_node section.node (s1.tree w)
  let s2 = set_tree s1 w t
  let r = s2.ring d
  r1 ← Ring.push_avail (record r { size = decrement r.size }) section.rank
  let r2 = record r1 { sentinel = record r1.sentinel { back = section.back } }
  r3 ← Ring.set_front r2 section.back sen
  ok (set_ring s2 d r3)

-- one round of the `for` of RenewReadyArea; the age is an unsigned 64-bit difference
unfoldable pub renew_round : ℕ → Bool → Sched → Run Sched
renew_round now d s =
    let p = (s.ring d).sentinel.back in
    let check : Run Sched = do
      section ← Ring.get (s.ring d) p
      let age = (now + 2 ^ 64 - section.time) % 2 ^ 64
      if ltb (s.ring d).time_limit age then expire d p s else ok s
    in if is_null p then ok s else check

unfoldable pub renew_ready_area : ℕ → Sched → Run Sched
renew_ready_area now s = do
  s1 ← renew_round now false s
  s2 ← renew_round now true s1
  x ← get_from_tree s2
  ok (record s2 { ready_area = x })

module _ (blockno : ℕ → ℕ) where
  -- the `while` of InsertToRBTree: the last node on the way down, and the side
  unfoldable pub descend : ℕ → Tree → Ptr → Ptr → ℕ → Req → Run (Ptr × ℕ)
  descend zero t tmp hot dir x = stop out_of_fuel
  descend (suc k) t null hot dir x = ok (hot, dir)
  descend (suc k) t tmp hot dir x = do
    n ← Tree.get t tmp
    let left = ltb (blockno x.b) (blockno n.item.b)
    let side : ℕ = if left then 0 else 1
    next ← load 3 n.links side
    descend k t next tmp side x

  -- InsertToRBTree up to RenewReadyArea: the new node and the tree
  unfoldable pub attach : Tree → Req → Run (Ptr × Tree)
  attach t x = do
    panic_if (is_full t)
    (hot, dir) ← descend Tree.walk t t.root sen 0 x
    i ← index t.top
    a ← load treesize t.avail i
    let tmp = cell a
    let t1 = record t { size = increment t.size; top = decrement t.top }
    n ← Tree.get t1 tmp
    t2 ← Tree.put t1 tmp (record n { color = red; item = x })
    t3 ← Tree.set_link t2 tmp 2 hot
    t4 ← Tree.set_link t3 hot dir tmp
    t5 ← if same hot sen then Tree.set_color t4 tmp black else Tree.set_link t4 hot 1 tmp
    t6 ← Tree.balance_addition Tree.walk tmp t5
    ok (tmp, t6)

  -- InsertToRBTree on `disk.tree[d]`
  unfoldable pub insert_to_tree : ℕ → Bool → Req → Sched → Run (Ptr × Sched)
  insert_to_tree now d x s = do
    (p, t) ← attach (s.tree d) x
    s' ← renew_ready_area now (set_tree s d t)
    ok (p, s')

  -- the part of rw_queue for scheduler 3: the request goes into the ring and the tree of its
  -- direction, and the two cells are linked
  unfoldable pub rw_deadline : ℕ → Req → Sched → Run Sched
  rw_deadline now x s = do
    let d = is_write x
    (section, r) ← Ring.insert_to_ring now (s.ring d) x
    (node, s1) ← insert_to_tree now d x (set_ring s d r)
    r1 ← Ring.set_node (s1.ring d) section node
    let s2 = set_ring s1 d r1
    n ← Tree.get (s2.tree d) node
    t ← Tree.put (s2.tree d) node (record n { section = section })
    ok (set_tree s2 d t)
