-- ===== src/Disk/Deadline/Tree.antt =====
-- The red-black tree of scheduler 3: the functions that touch one tree only.
-- Links are read and written one at a time, in the order of the source.
use io_scheduling.Prelude.{
  ℕ, zero, suc, ◌-◌, not, if◌then◌else◌, ◌&&◌, Run, ok, stop, fault, out_of_fuel, ◌>>=◌, load,
  store, ℤ, increment, index,
}
use io_scheduling.Disk.Deadline.Cells.{
  Ptr, null, sen, cell, same, is_null, Color, red, black, is_red, treesize, Node,
}

-- `struct RBTree`
pub record Tree : Type 0 where
  pub nodes : ℕ → Node
  pub sentinel : Node
  pub root : Ptr
  pub top : ℤ  -- pos
  pub avail : ℕ → ℕ
  pub size : ℤ
  pub capacity : ℕ

-- `*p`
unfoldable pub get : Tree → Ptr → Run Node
get t null = stop fault
get t sen = ok t.sentinel
get t (cell i) = load treesize t.nodes i

-- `*p = n`
unfoldable pub put : Tree → Ptr → Node → Run Tree
put t null n = stop fault
put t sen n = ok (record t { sentinel = n })
put t (cell i) n = store treesize t.nodes i n >>= λ nodes. ok (record t { nodes = nodes })

-- `p->p[k]`; the array has three entries
unfoldable pub link : Tree → Ptr → ℕ → Run Ptr
link t p k = do n ← get t p; load 3 n.links k

-- `p->p[k] = q`
unfoldable pub set_link : Tree → Ptr → ℕ → Ptr → Run Tree
set_link t p k q = do n ← get t p; links ← store 3 n.links k q; put t p (record n { links = links })

unfoldable pub color_of : Tree → Ptr → Run Color
color_of t p = get t p >>= λ n. ok n.color

unfoldable pub set_color : Tree → Ptr → Color → Run Tree
set_color t p c = get t p >>= λ n. put t p (record n { color = c })

-- `Rotate(node, dir)`, to the left if `dir` is 0
unfoldable pub rotate : Tree → Ptr → ℕ → Run Tree
rotate t node dir = do
  new_p ← link t node (1 - dir)
  up ← link t node 2
  left ← link t up 0
  t1 ← set_link t up (if same node left then 0 else 1) new_p
  up1 ← link t1 node 2
  t2 ← set_link t1 new_p 2 up1
  inner ← link t2 new_p dir
  t3 ← set_link t2 node (1 - dir) inner
  outer ← link t3 new_p (1 - dir)
  t4 ← set_link t3 outer 2 new_p
  t5 ← set_link t4 node 2 new_p
  set_link t5 new_p dir node

-- the end of BalanceAfterAddition
unfoldable pub blacken_root : Tree → Run Tree
blacken_root t = if is_null t.root then ok t else set_color t t.root black

-- one round of the `while` of BalanceAfterAddition, below a red parent `p`
unfoldable pub balance_round : Tree → Ptr → Ptr → Run (Ptr × Tree)
balance_round t node p = do
  g ← link t p 2
  left ← link t g 0
  let dir : ℕ = if same p left then 0 else 1
  u ← link t g (1 - dir)
  c ← color_of t u
  let recolor : Run (Ptr × Tree) = do
    t1 ← set_color t p black
    t2 ← set_color t1 u black
    t3 ← set_color t2 g red
    ok (g, t3)
  let turn : Run (Ptr × Tree) = do
    right ← link t p 1
    let inner : Run (Ptr × Tree) = rotate t p dir >>= λ t1. ok (p, t1)
    let outer : Run (Ptr × Tree) = do
      t1 ← set_color t p black
      t2 ← set_color t1 g red
      t3 ← rotate t2 g (1 - dir)
      ok (node, t3)
    if same node right then inner else outer
  if is_red c then recolor else turn

unfoldable pub balance_addition : ℕ → Ptr → Tree → Run Tree
balance_addition zero node t = stop out_of_fuel
balance_addition (suc k) node t = do
  p ← link t node 2
  c ← color_of t p
  let again : Run Tree = balance_round t node p >>= λ (node', t'). balance_addition k node' t'
  if is_red c then again else blacken_root t

-- the `for` that looks for an empty link of a node; `p[3]` is outside the node
unfoldable pub empty_link : (ℕ → Ptr) → Run ℕ
empty_link links =
    if is_null (links 0)
    then ok 0
    else if is_null (links 1)
    then ok 1
    else if is_null (links 2)
    then ok 2
    else stop fault

-- the body of BalanceAfterDeletion: the tree, and the node to go on from
unfoldable pub deletion_round : Ptr → Tree → Run (Ptr × Tree)
deletion_round temp t = do
  n ← get t temp
  dir ← empty_link n.links
  let p = n.links 2
  let settled : Run (Ptr × Tree) = set_color t temp black >>= λ t'. ok (null, t')
  let red_brother : Ptr → Ptr → Run (Ptr × Tree) = λ b c_in. do
    t1 ← set_color t b black
    t2 ← set_color t1 c_in red
    t3 ← rotate t2 p dir
    ok (null, t3)
  let fix_outer : Tree → Ptr → Ptr → Run (Ptr × Tree) = λ t b c_out. do
    c ← color_of t p
    t1 ← set_color t b c
    t2 ← set_color t1 c_out black
    t3 ← set_color t2 p black
    t4 ← rotate t3 p dir
    ok (null, t4)
  let go_up : Ptr → Run (Ptr × Tree) =
      λ b. do t1 ← set_color t p black; t2 ← set_color t1 b red; ok (p, t2)
  let black_brother : Ptr → Ptr → Ptr → Run (Ptr × Tree) = λ b c_in c_out.
      let turn : Run (Ptr × Tree) = do
        t1 ← set_color t c_in black
        t2 ← set_color t1 b red
        t3 ← rotate t2 b (1 - dir)
        fix_outer t3 c_in b
      in if not (is_null c_in) && is_null c_out
        then turn
        else if is_null c_out
        then go_up b
        else fix_outer t b c_out
  let deeper : Run (Ptr × Tree) = do
    b ← link t p (1 - dir)
    c_in ← link t b dir
    c_out ← link t b (1 - dir)
    c ← color_of t b
    if is_red c then red_brother b c_in else black_brother b c_in c_out
  let below : Run (Ptr × Tree) = do c ← color_of t p; if is_red c then settled else deeper
  if same p sen then settled else below

unfoldable pub balance_deletion : ℕ → Ptr → Tree → Run Tree
balance_deletion zero temp t = stop out_of_fuel
balance_deletion (suc k) temp t = deletion_round temp t >>= λ (next, t').
    (let again = balance_deletion k next t' in if is_null next then ok t' else again)

-- the `while` that goes down the left links from `p`
unfoldable pub leftmost : ℕ → Tree → Ptr → Run Ptr
leftmost zero t p = stop out_of_fuel
leftmost (suc k) t p = do
  l ← link t p 0
  let rest = leftmost k t l
  if is_null l then ok p else rest

-- `tree->avail[++tree->pos] = rank`
unfoldable pub push_avail : Tree → ℕ → Run Tree
push_avail t rank = do
  i ← index (increment t.top)
  avail ← store treesize t.avail i rank
  ok (record t { top = increment t.top; avail = avail })

-- the `for` that finds the side on which `node` hangs; `p[3]` is outside the parent
unfoldable pub side_of : (ℕ → Ptr) → Ptr → Run ℕ
side_of links node =
    if same (links 0) node
    then ok 0
    else if same (links 1) node
    then ok 1
    else if same (links 2) node
    then ok 2
    else stop fault

-- the fuel of the walks over a tree: more than its nodes
abbrev pub walk : ℕ
walk = 129

unfoldable pub delete_node : Ptr → Tree → Run Tree
delete_node node t = do
  n ← get t node
  up ← get t (n.links 2)
  dir ← side_of up.links node
  t1 ← set_link t (n.links 2) dir null
  t2 ← push_avail t1 n.rank
  t3 ← set_link t2 (n.links 2) 0 null
  balance_deletion walk (n.links 2) t3
