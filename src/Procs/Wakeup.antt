-- ===== src/Procs/Wakeup.antt =====
-- `wakeup` (kernel/proc.c).
use io_scheduling.Prelude.{
  ℕ, zero, suc, ◌+◌, ◌≡◌, refl, arith, Bool, not, ltb, leb, ◌==◌, ◌&&◌, if◌then◌else◌, update,
  if_elim,
}
use io_scheduling.Procs.{Procs, runnable, is_sleeping, nproc, wakeup_loop, wakeup}

-- process `q` sleeps on `chan`, and is not the caller
abbrev pub waits_for : ℕ → ℕ → Procs → ℕ → Bool
waits_for me chan s q = not (q == me) && is_sleeping (s.state q) && s.chan q == chan

-- `t` is `s` but for the states of the processes from `lo` to `hi - 1` that wait, which can run.
pub record IsWoken (lo hi me ch : ℕ) (s t : Procs) : Type 0 where
  pub state :
      (q : ℕ)
      → t.state q ≡ (if leb lo q && ltb q hi && waits_for me ch s q then runnable else s.state q)
  pub chan : t.chan ≡ s.chan
  pub killed : t.killed ≡ s.killed
  pub xstate : t.xstate ≡ s.xstate
  pub pid : t.pid ≡ s.pid
  pub parent : t.parent ≡ s.parent
  pub initproc : t.initproc ≡ s.initproc

wakeup_loop_lem :
    (k p hi me chan : ℕ) (s : Procs)
    → hi ≡ p + k
    → IsWoken p hi me chan s (wakeup_loop k p me chan s)
unfolding wakeup_loop
wakeup_loop_lem zero p hi me chan s e = record {
  state = λ q. ground arith;
  chan = refl;
  killed = refl;
  xstate = refl;
  pid = refl;
  parent = refl;
  initproc = refl;
}
wakeup_loop_lem (suc k) p hi me chan s e =
    if_elim (λ s1. IsWoken p hi me chan s (wakeup_loop k (p + 1) me chan s1))
      (waits_for me chan s p)
      (λ wake.
        let s1 : Procs = record s { state = update s.state p runnable } in
        let h = wakeup_loop_lem k (p + 1) hi me chan s1 (omega arith) in
        record {
          state = λ q. ground (arith, h.state q);
          chan = h.chan;
          killed = h.killed;
          xstate = h.xstate;
          pid = h.pid;
          parent = h.parent;
          initproc = h.initproc;
        })
      (λ stay.
        let h = wakeup_loop_lem k (p + 1) hi me chan s (omega arith) in
        record {
          state = λ q. ground (arith, h.state q);
          chan = h.chan;
          killed = h.killed;
          xstate = h.xstate;
          pid = h.pid;
          parent = h.parent;
          initproc = h.initproc;
        })

-- wakeup makes exactly the processes that sleep on the channel runnable, but for the caller, and
-- changes nothing else of a process.
pub wakeup_correct : (me chan : ℕ) (s : Procs) → IsWoken 0 nproc me chan s (wakeup me chan s)
unfolding wakeup
wakeup_correct me chan s = wakeup_loop_lem nproc 0 nproc me chan s refl
