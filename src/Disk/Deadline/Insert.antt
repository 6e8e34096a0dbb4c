-- ===== src/Disk/Deadline/Insert.antt =====
-- `InsertToRBTree` of kernel/virtio_disk.c on a tree whose `root` is null.
use io_scheduling.Prelude.{
  ℕ, ◌+◌, ◌<◌, ◌≡◌, ◌≢◌, refl, sym, suc, arith, true, false, ok, pos, Returns, update, decrement,
  increment,
}
use mathlib.Core.Path.{subst}
use io_scheduling.Disk.Request.{Req}
use io_scheduling.Disk.Deadline.Cells.{Ptr, null, sen, cell, red, black, treesize, Node}
use io_scheduling.Disk.Deadline.Tree
use io_scheduling.Disk.Deadline.Tree.{Tree}
use io_scheduling.Disk.Deadline.Sched.{
  Sched, first_request, get_from_tree, renew_round, renew_ready_area, descend, attach,
}

-- a tree without a `root`, with `n` requests counted, and with a free node left at `avail[k]`
pub record IsOpen (n k : ℕ) (t : Tree) : Type 0 where
  pub root : t.root ≡ null
  pub size : t.size ≡ pos n
  pub room : n ≢ t.capacity
  pub top : t.top ≡ pos k
  pub slot : k < treesize
  pub fresh : t.avail k < treesize
  pub black : t.sentinel.color ≡ black
  pub leaf : (t.nodes (t.avail k)).links 0 ≡ null

module _ (t : Tree) (i : ℕ) (inside : i < treesize) where
  abbrev with_node : Node → Tree
  with_node n = record t { nodes = update t.nodes i n }

  abbrev with_parent : Ptr → Tree
  with_parent q = with_node (record (t.nodes i) { links = update (t.nodes i).links 2 q })

  abbrev painted : Tree
  painted = with_node (record (t.nodes i) { color = black })

  get-cell : Tree.get t (cell i) ≡ ok (t.nodes i)
  unfolding Tree.get
  get-cell = ground arith

  put-cell : (n : Node) → Tree.put t (cell i) n ≡ ok (with_node n)
  unfolding Tree.put
  put-cell n = ground arith

  set_parent-cell : (q : Ptr) → Tree.set_link t (cell i) 2 q ≡ ok (with_parent q)
  unfolding Tree.set_link
  set_parent-cell q = rw (get-cell, put-cell)

  set_color-cell : Tree.set_color t (cell i) black ≡ ok painted
  unfolding Tree.set_color
  set_color-cell = rw (get-cell, put-cell)

abbrev with_first : Tree → Ptr → Tree
with_first t q = record t { sentinel = record t.sentinel { links = update t.sentinel.links 0 q } }

set_first-sen : (t : Tree) (q : Ptr) → Tree.set_link t sen 0 q ≡ ok (with_first t q)
unfolding Tree.set_link Tree.get Tree.put
set_first-sen t q = refl

-- the tree after InsertToRBTree has attached the new node
module _ (n k : ℕ) (t : Tree) (x : Req) where
  abbrev i : ℕ
  i = t.avail k

  abbrev taken : Tree
  taken = record t { size = increment t.size; top = decrement t.top }

  abbrev grown : IsOpen n k t → Tree
  grown o =
      let t2 = with_node taken i o.fresh (record (t.nodes i) { color = red; item = x }) in
      painted (with_first (with_parent t2 i o.fresh sen) (cell i)) i o.fresh

  balance-grown :
      (o : IsOpen n k t) → Tree.balance_addition Tree.walk (cell i) (grown o) ≡ ok (grown o)
  unfolding Tree.balance_addition Tree.link Tree.get Tree.color_of Tree.blacken_root
  balance-grown o = ground (arith, o.fresh, o.black, o.root)

  module _ (blockno : ℕ → ℕ) where
    descend_stop : (k : ℕ) (p : Ptr) → null ≡ p → descend blockno (suc k) t p sen 0 x ≡ ok (sen, 0)
    unfolding descend
    descend_stop m p e = subst (λ q. descend blockno (suc m) t q sen 0 x ≡ ok (sen, 0)) e refl

    descend-null : IsOpen n k t → descend blockno Tree.walk t t.root sen 0 x ≡ ok (sen, 0)
    descend-null o = descend_stop 128 t.root (sym o.root)

    attach-grown : (o : IsOpen n k t) → attach blockno t x ≡ ok (cell i, grown o)
    unfolding attach
    attach-grown o =
        let t2 = with_node taken i o.fresh (record (t.nodes i) { color = red; item = x }) in
        let t3 = with_parent t2 i o.fresh sen in
        ground (
          arith,
          o.size,
          o.room,
          o.top,
          o.slot,
          descend-null o,
          get-cell taken i o.fresh,
          put-cell taken i o.fresh (record (t.nodes i) { color = red; item = x }),
          set_parent-cell t2 i o.fresh sen,
          set_first-sen t3 (cell i),
          set_color-cell (with_first t3 (cell i)) i o.fresh,
          balance-grown o,
        )

  -- the request that a walk to the left then finds
  first_request-grown : (o : IsOpen n k t) → first_request (grown o) ≡ ok x
  unfolding first_request Tree.leftmost Tree.link Tree.get
  first_request-grown o = ground (arith, o.fresh, o.leaf)

-- attach in a tree whose `root` is null, that has room, whose next free cell is in the array and has a
-- null left link, and whose sentinel is black: the new node hangs at the sentinel, in the place of
-- whatever hung there; `root` stays null, the size counts one more, and the request that a walk to the
-- left from the sentinel finds is the new one, also where an earlier one has a lower block number.
pub attach_replaces :
    (blockno : ℕ → ℕ) (n k : ℕ) (t : Tree) (x : Req)
    → IsOpen n k t
    → Returns
        (λ (p, t').
          (t'.root ≡ null)
          × (t'.size ≡ pos (n + 1))
          × (t'.sentinel.links 0 ≡ p)
          × (first_request t' ≡ ok x))
        (attach blockno t x)
attach_replaces blockno n k t x o = (
  (cell (t.avail k), grown n k t x o),
  attach-grown n k t x blockno o,
  (o.root, ground (arith, o.size), refl, first_request-grown n k t x o),
)

-- RenewReadyArea ends with the request of the tree for reads, or of the tree for writes while no
-- read is counted, whichever requests had expired.
pub renew_ready_area_last :
    (now : ℕ) (s s1 s2 : Sched) (x : Req)
    → renew_round now false s ≡ ok s1
    → renew_round now true s1 ≡ ok s2
    → get_from_tree s2 ≡ ok x
    → renew_ready_area now s ≡ ok (record s2 { ready_area = x })
unfolding renew_ready_area
renew_ready_area_last now s s1 s2 x e f g = rw (e, f, g)
