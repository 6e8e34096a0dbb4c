-- ===== src/Procs/Tests.antt =====
-- Three processes: init (0) asleep on its own channel, its child 1, and process 2, a child of 1.
use io_scheduling.Prelude.{true, ℕ, ◌+◌, ◌<◌, ◌≡◌, refl, arith, false, ◌==◌, if◌then◌else◌, Returns}
use io_scheduling.Procs.{Procs, sleeping, runnable, unused, zombie, is_sleeping, nproc, exit}
use io_scheduling.Procs.Family.{wait, fork}
use io_scheduling.Procs.Family.Fork.{HasPids, Forked, fork_correct}
use io_scheduling.Procs.Family.Reap.{Reaped, wait-exit}
use io_scheduling.Procs.Lifecycle.{exit_correct}

abbrev three : Procs
three = record {
  state = λ p.
      if p == 0 then sleeping else if p == 1 then runnable else if p == 2 then sleeping else unused;
  chan = λ p. if p == 0 then 1 else if p == 2 then 99 else 0;
  killed = λ p. false;
  xstate = λ p. 0;
  pid = λ p. p + 1;
  parent = λ p. if p == 1 then 1 else if p == 2 then 2 else 0;
  nextpid = 4;
  initproc = 0;
}

exit_correct_example :
    Returns
      (λ t.
        (t.state 1 ≡ zombie)
        × (t.xstate 1 ≡ 7)
        × ((q : ℕ) → q < nproc → t.parent q ≡ (if three.parent q == 2 then 1 else three.parent q))
        × ((q : ℕ) → q < nproc → t.chan q ≡ 1 → is_sleeping (t.state q) ≡ false)
        × (t.pid ≡ three.pid))
      (exit 1 7 three)
exit_correct_example = exit_correct 1 7 three (omega arith) (omega arith) (omega arith)

three-HasPids : HasPids three
three-HasPids = record {
  below = λ p l u. ground (arith, u);
  different = λ p q l m u v e. omega arith;
}

fork_correct_example : Forked 1 true three (fork 1 true true true three)
fork_correct_example = fork_correct 1 true true true three (omega arith) three-HasPids

-- process 1 waits for process 2
wait-exit_example : Returns (λ t. Reaped 2 3 7 t (wait 1 true t)) (exit 2 7 three)
wait-exit_example =
    wait-exit 1 2 7 three (omega arith) (omega arith) (omega arith) (omega arith) refl
      (λ q l e. ground (arith, e))
