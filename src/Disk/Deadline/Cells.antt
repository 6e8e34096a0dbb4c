-- ===== src/Disk/Deadline/Cells.antt =====
-- Pointers into the nodes of a tree or the sections of a ring, and the two cell types.
use io_scheduling.Prelude.{ℕ, Bool, true, false, ◌==◌}
use io_scheduling.Disk.Request.{Req}

-- NULL, the address of the sentinel `sen`, or that of an array entry
pub data Ptr : Type 0 where
  null : Ptr
  sen : Ptr
  cell : ℕ → Ptr

abbrev pub same : Ptr → Ptr → Bool
same null null = true
same null sen = false
same null (cell j) = false
same sen null = false
same sen sen = true
same sen (cell j) = false
same (cell i) null = false
same (cell i) sen = false
same (cell i) (cell j) = i == j

abbrev pub is_null : Ptr → Bool
is_null null = true
is_null sen = false
is_null (cell i) = false

pub data Color : Type 0 where
  red black : Color

abbrev pub is_red : Color → Bool
is_red red = true
is_red black = false

-- TREESIZE
abbrev pub treesize : ℕ
treesize = 128

-- `struct Node`: `links 0` and `links 1` are the children, `links 2` is the parent
pub record Node : Type 0 where
  pub rank : ℕ
  pub color : Color
  pub item : Req
  pub links : ℕ → Ptr
  pub section : Ptr

-- `struct Section`
pub record Section : Type 0 where
  pub rank : ℕ
  pub time : ℕ
  pub item : Req
  pub front : Ptr
  pub back : Ptr
  pub node : Ptr
