-- ===== src/Pipe/Close.antt =====
-- `pipeclose` of kernel/pipe.c.
use io_scheduling.Prelude.{◌≡◌, Bool, true, false, not, if◌then◌else◌, ◌∷◌, arith}
use io_scheduling.Pipe.{Pipe, pipeclose, wake_readers, wake_writers, free_page}

-- Closing the two ends of an open pipe, in either order: the first close frees nothing and wakes the
-- other side, the second frees the page, once.
pub pipeclose_both :
    (w : Bool) (p : Pipe)
    → p.readopen ≡ true
    → p.writeopen ≡ true
    → let first = if w then wake_readers else wake_writers in
      let second = if w then wake_writers else wake_readers in
      ((pipeclose w p).events ≡ first ∷ p.events)
      × ((pipeclose (not w) (pipeclose w p)).events ≡ free_page ∷ second ∷ first ∷ p.events)
unfolding pipeclose
pipeclose_both true p r w = (ground arith, ground arith)
pipeclose_both false p r w = (ground arith, ground arith)
