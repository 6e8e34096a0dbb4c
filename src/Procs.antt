-- ===== src/Procs.antt =====
-- Processes (kernel/proc.c): sleeping, waking, killing, exiting and waiting.
-- A process is its index in `proc`; a channel and a parent are 0 for null, and the process with index
-- `p` is `p + 1` as a channel or a parent. Functions are cut at `sched`, where another process runs.
pub mod Wakeup
pub mod Lifecycle
pub mod Family
mod Tests
use io_scheduling.Prelude.{
  ℕ, zero, suc, ◌+◌, ◌%◌, ◌^◌, Bool, true, false, not, ◌==◌, ◌&&◌, ◌||◌, if◌then◌else◌, Option,
  none, some, Run, ok, stop, ◌>>=◌, ◌>>◌, panic_if, update,
}

-- NPROC
abbrev pub nproc : ℕ
nproc = 64

-- `enum procstate`
pub data ProcState : Type 0 where
  unused used sleeping runnable running zombie : ProcState

abbrev pub is_sleeping : ProcState → Bool
is_sleeping sleeping = true
is_sleeping _ = false

abbrev pub is_zombie : ProcState → Bool
is_zombie zombie = true
is_zombie _ = false

-- `proc[NPROC]`, `nextpid` and `initproc`; a pid is the 32-bit pattern of its `int`
pub record Procs : Type 0 where
  pub state : ℕ → ProcState
  pub chan : ℕ → ℕ
  pub killed : ℕ → Bool
  pub xstate : ℕ → ℕ
  pub pid : ℕ → ℕ
  pub parent : ℕ → ℕ
  pub nextpid : ℕ
  pub initproc : ℕ

pub allocpid : Procs → ℕ × Procs
allocpid s = (s.nextpid, record s { nextpid = (s.nextpid + 1) % 2 ^ 32 })

-- sleep up to `sched`, and after it
pub go_to_sleep : ℕ → ℕ → Procs → Procs
go_to_sleep me chan s = record s {
  chan = update s.chan me chan;
  state = update s.state me sleeping;
}

pub tidy_up : ℕ → Procs → Procs
tidy_up me s = record s { chan = update s.chan me 0 }

-- the `for` of wakeup, with `k` processes left
pub wakeup_loop : ℕ → ℕ → ℕ → ℕ → Procs → Procs
wakeup_loop zero p me chan s = s
wakeup_loop (suc k) p me chan s =
    let wake = not (p == me) && is_sleeping (s.state p) && s.chan p == chan in
    wakeup_loop k (p + 1) me chan
      (if wake then record s { state = update s.state p runnable } else s)

pub wakeup : ℕ → ℕ → Procs → Procs
wakeup me chan s = wakeup_loop nproc 0 me chan s

-- `false` for -1
pub kill_loop : ℕ → ℕ → ℕ → Procs → Bool × Procs
kill_loop zero p pid s = (false, s)
kill_loop (suc k) p pid s =
    let rest = kill_loop k (p + 1) pid s in
    let s1 = record s { killed = update s.killed p true } in
    if s.pid p == pid
    then (
      true,
      if is_sleeping (s.state p) then record s1 { state = update s.state p runnable } else s1,
    )
    else rest

pub kill : ℕ → Procs → Bool × Procs
kill pid s = kill_loop nproc 0 pid s

-- the `for` of reparent, with `k` processes left
pub reparent_loop : ℕ → ℕ → ℕ → Procs → Procs
reparent_loop zero pp p s = s
reparent_loop (suc k) pp p s =
    let s1 = record s { parent = update s.parent pp (s.initproc + 1) } in
    reparent_loop k (pp + 1) p (if s.parent pp == p + 1 then wakeup p (s.initproc + 1) s1 else s)

pub reparent : ℕ → Procs → Procs
reparent p s = reparent_loop nproc 0 p s

-- exit up to `sched`, without the closing of the process's files and directory
pub exit : ℕ → ℕ → Procs → Run Procs
exit me status s = do
  panic_if (me == s.initproc)
  let s1 = reparent me s
  let s2 = wakeup me (s1.parent me) s1
  ok (record s2 { xstate = update s2.xstate me status; state = update s2.state me zombie })
