-- ===== src/Bcache/Tests.antt =====
-- The buffer cache after binit, with block `i` of device 1 in buffer `i` and the lock of buffer 4 held.
use io_scheduling.Prelude.{
  ◌+◌, ◌-◌, ◌≡◌, refl, arith, true, false, ◌==◌, if◌then◌else◌, [], Returns,
}
use io_scheduling.Bcache.{Bcache, nbuf, bread, brelse}
use io_scheduling.Bcache.Order.{IsOrder, cons, skip, downward}
use io_scheduling.Bcache.Get.{IsUnique, IsFull, After, IsBusy, bread-IsUnique}
use io_scheduling.Bcache.Release.{brelse_correct}

abbrev blank : Bcache
blank = record {
  valid = λ b. true;
  dev = λ b. 1;
  blockno = λ b. b;
  refcnt = λ b. if b == 4 then 1 else 0;
  prev = λ b. 0;
  next = λ b. 0;
  held = λ b. b == 4;
  transfers = [];
}

-- the same with the links that binit makes
abbrev linked : Bcache
linked = record blank {
  prev = λ b. if b == 30 then 0 else b + 1;
  next = λ b. if b == 0 then 30 else b - 1;
}

linked-IsOrder : IsOrder nbuf (downward nbuf) linked
linked-IsOrder = record {
  first = refl;
  last = refl;
  inside = λ i f t. ground arith;
  distinct = λ i j p q e. ground arith;
  forward = λ i p. ground arith;
  backward = λ i p. ground arith;
}

linked-IsUnique : IsUnique linked
unfolding IsUnique
linked-IsUnique = λ a b p q z e f. f

downward-IsFull : IsFull (downward nbuf)
unfolding IsFull
downward-IsFull = λ b low. (30 - b, omega arith, omega arith, ground arith)

bread-IsUnique_example : After IsUnique (IsBusy (downward nbuf) linked) (bread 1 50 linked)
bread-IsUnique_example =
    bread-IsUnique (downward nbuf) 1 50 linked linked-IsOrder downward-IsFull linked-IsUnique

brelse_correct_example :
    Returns
      (λ t.
        (t.held 4 ≡ false)
        × (t.refcnt 4 + 1 ≡ 1)
        × IsOrder nbuf (cons 4 (skip 26 (downward nbuf))) t)
      (brelse 4 linked)
brelse_correct_example =
    brelse_correct (downward nbuf) linked 26 4 linked-IsOrder (omega arith) (omega arith) refl refl
      (omega arith) (omega arith)
