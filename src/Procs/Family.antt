-- ===== src/Procs/Family.antt =====
-- Making and reaping processes (kernel/proc.c: `allocproc`, `freeproc`, `fork`, `wait`).
-- Whether a page, a page table or a copy of the memory could be made is an argument. A process's pages,
-- registers, files and directory are left out.
pub mod Fork
pub mod Reap
use io_scheduling.Prelude.{
  ℕ, zero, suc, ◌+◌, Bool, true, false, not, ◌==◌, ◌&&◌, ◌||◌, if◌then◌else◌, Option, none, some,
  update,
}
use io_scheduling.Procs.{
  Procs, ProcState, unused, used, runnable, nproc, is_zombie, allocpid, go_to_sleep,
}

abbrev pub is_unused : ProcState → Bool
is_unused unused = true
is_unused _ = false

pub freeproc : ℕ → Procs → Procs
freeproc p s = record s {
  pid = update s.pid p 0;
  parent = update s.parent p 0;
  chan = update s.chan p 0;
  killed = update s.killed p false;
  xstate = update s.xstate p 0;
  state = update s.state p unused;
}

-- the `for` of allocproc, with `k` processes left
pub find_unused : ℕ → ℕ → Procs → Option ℕ
find_unused zero p s = none
find_unused (suc k) p s =
    let rest = find_unused k (p + 1) s in if is_unused (s.state p) then some p else rest

-- from `found` on
pub set_up : Bool → Bool → ℕ → Procs → Option ℕ × Procs
set_up frame table p s =
    let (pid, s1) = allocpid s in
    let s2 = record s1 { pid = update s1.pid p pid; state = update s1.state p used } in
    if frame && table then (some p, s2) else (none, freeproc p s2)

-- `frame` and `table`: kalloc gives a trapframe, and proc_pagetable a page table
pub allocproc : Bool → Bool → Procs → Option ℕ × Procs
allocproc frame table s = elim (find_unused nproc 0 s) [
  | none ↦ (none, s)
  | some p ↦ set_up frame table p s
]

-- fork on what allocproc gave
pub fork_child : ℕ → Bool → Option ℕ × Procs → Option ℕ × Procs
fork_child me copied (none, s) = (none, s)
fork_child me copied (some p, s) =
    let s1 = record s { parent = update s.parent p (me + 1) } in
    let s2 = record s1 { state = update s1.state p runnable } in
    if copied then (some (s.pid p), s2) else (none, freeproc p s)

-- the pid of the child, or `none` for -1; `copied`: uvmcopy succeeds
pub fork : ℕ → Bool → Bool → Bool → Procs → Option ℕ × Procs
fork me frame table copied s = fork_child me copied (allocproc frame table s)

-- the `for` of wait, with `k` processes left: the first child that is a zombie, and `havekids`
pub find_zombie : ℕ → ℕ → ℕ → Bool → Procs → Option ℕ × Bool
find_zombie zero q me kids s = (none, kids)
find_zombie (suc k) q me kids s =
    let is_child = s.parent q == me + 1 in
    let rest = find_zombie k (q + 1) me (kids || is_child) s in
    if is_child && is_zombie (s.state q) then (some q, true) else rest

-- The answer of wait: a child's pid, with the status that is copied out; or -1; or the process sleeps,
-- and looks again after that.
pub data Waited : Type 0 where
  reaped : ℕ → ℕ → Procs → Waited
  failed : Waited
  asleep : Procs → Waited

-- `copies`: `addr` is 0, or copyout of the status succeeds
pub wait : ℕ → Bool → Procs → Waited
wait me copies s =
    let (child, kids) = find_zombie nproc 0 me false s in
    elim child [
      | some q ↦ if copies then reaped (s.pid q) (s.xstate q) (freeproc q s) else failed
      | none ↦ if not kids || s.killed me then failed else asleep (go_to_sleep me (me + 1) s)
    ]
