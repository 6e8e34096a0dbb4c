-- ===== src/Procs/Lifecycle.antt =====
-- `reparent` and `exit` (kernel/proc.c).
use io_scheduling.Prelude.{
  ℕ, zero, suc, ◌+◌, ◌<◌, ◌≡◌, ◌≢◌, ◌∙◌, refl, arith, false, ltb, leb, ◌==◌, ◌&&◌, if◌then◌else◌,
  update, if_elim, Returns, ap,
}
use io_scheduling.Procs.{Procs, zombie, is_sleeping, nproc, wakeup, reparent_loop, reparent, exit}
use io_scheduling.Procs.Wakeup.{wakeup_correct}

-- the children of `p` from `lo` to `hi - 1` have been given to init
pub record IsReparented (lo hi p : ℕ) (s t : Procs) : Type 0 where
  pub parent :
      (q : ℕ)
      → t.parent q
        ≡ (if leb lo q && ltb q hi && s.parent q == p + 1 then s.initproc + 1 else s.parent q)
  pub chan : t.chan ≡ s.chan
  pub pid : t.pid ≡ s.pid
  pub initproc : t.initproc ≡ s.initproc

reparent_loop_lem :
    (k pp hi p : ℕ) (s : Procs) → hi ≡ pp + k → IsReparented pp hi p s (reparent_loop k pp p s)
unfolding reparent_loop
reparent_loop_lem zero pp hi p s e = record {
  parent = λ q. ground arith;
  chan = refl;
  pid = refl;
  initproc = refl;
}
reparent_loop_lem (suc k) pp hi p s e =
    if_elim (λ s1. IsReparented pp hi p s (reparent_loop k (pp + 1) p s1)) (s.parent pp == p + 1)
      (λ child.
        let s1 : Procs = record s { parent = update s.parent pp (s.initproc + 1) } in
        let w = wakeup_correct p (s.initproc + 1) s1 in
        let h = reparent_loop_lem k (pp + 1) hi p (wakeup p (s.initproc + 1) s1) (omega arith) in
        record {
          parent =
              λ q. (let a = ap (λ f. f q) w.parent in ground (arith, h.parent q, a, w.initproc));
          chan = h.chan ∙ w.chan;
          pid = h.pid ∙ w.pid;
          initproc = h.initproc ∙ w.initproc;
        })
      (λ other.
        let h = reparent_loop_lem k (pp + 1) hi p s (omega arith) in
        record {
          parent = λ q. ground (arith, h.parent q);
          chan = h.chan;
          pid = h.pid;
          initproc = h.initproc;
        })

-- exit of a process other than init, which is not its own parent: it becomes a zombie with its status,
-- its children become those of init, no process is left asleep on the channel of its parent, and
-- all keep their pids.
pub exit_correct :
    (me status : ℕ) (s : Procs)
    → me ≢ s.initproc
    → s.parent me ≢ me + 1
    → me < nproc
    → Returns
        (λ t.
          (t.state me ≡ zombie)
          × (t.xstate me ≡ status)
          × ((q : ℕ)
              → q < nproc
              → t.parent q ≡ (if s.parent q == me + 1 then s.initproc + 1 else s.parent q))
          × ((q : ℕ) → q < nproc → t.chan q ≡ s.parent me → is_sleeping (t.state q) ≡ false)
          × (t.pid ≡ s.pid))
        (exit me status s)
unfolding exit reparent
exit_correct me status s live own inside =
    let s1 = reparent_loop nproc 0 me s in
    let h = reparent_loop_lem nproc 0 nproc me s refl in
    let w = wakeup_correct me (s1.parent me) s1 in
    let s2 = wakeup me (s1.parent me) s1 in
    (
      record s2 { xstate = update s2.xstate me status; state = update s2.state me zombie },
      ground arith,
      (
        ground arith,
        ground arith,
        λ q low. ap (λ f. f q) w.parent ∙ ground (arith, h.parent q),
        λ q low e. (let a = ap (λ f. f q) w.chan in ground (arith, w.state q, a, h.parent me)),
        w.pid ∙ h.pid,
      ),
    )
