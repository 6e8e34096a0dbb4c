-- ===== src/Locks/Interleaving.antt =====
-- Several CPUs that share one spin lock (kernel/spinlock.c), as a step relation.
-- The swap and the store of the holder are one step, and so are the stores of release.
-- A CPU that finds the lock taken spins with its interrupts off, and tries again in a later step.
-- `before` is no state of the program: it records whether a CPU's interrupts were on when it called
-- acquire last.
use io_scheduling.Prelude.{ℕ, ◌≡◌, Bool, false, none, some, ok, pos, update}
use io_scheduling.Locks.{Cpu, Spinlock, try_lock, acquire, release}

-- where a CPU is: in no call and without the lock, in the loop of acquire, or with the lock
pub data Mode : Type 0 where
  away spinning inside : Mode

pub record Sys : Type 0 where
  pub cpu : ℕ → Cpu
  pub before : ℕ → Bool
  pub mode : ℕ → Mode
  pub lock : Spinlock

pub data Step : Sys → Sys → Type 0 where
  enter :
      (s : Sys) (me : ℕ) (c : Cpu) (l : Spinlock)
      → s.mode me ≡ away
      → acquire me (s.cpu me, s.lock) ≡ ok (c, some l)
      → Step s (record {
        cpu = update s.cpu me c;
        before = update s.before me (s.cpu me).intr;
        mode = update s.mode me inside;
        lock = l;
      })
  miss :
      (s : Sys) (me : ℕ) (c : Cpu)
      → s.mode me ≡ away
      → acquire me (s.cpu me, s.lock) ≡ ok (c, none)
      → Step s (record s {
        cpu = update s.cpu me c;
        before = update s.before me (s.cpu me).intr;
        mode = update s.mode me spinning;
      })
  win :
      (s : Sys) (me : ℕ) (l : Spinlock)
      → s.mode me ≡ spinning
      → try_lock me s.lock ≡ some l
      → Step s (record s { mode = update s.mode me inside; lock = l })
  leave :
      (s : Sys) (me : ℕ) (c : Cpu) (l : Spinlock)
      → s.mode me ≡ inside
      → release me (s.cpu me, s.lock) ≡ ok (c, l)
      → Step s (record s { cpu = update s.cpu me c; mode = update s.mode me away; lock = l })

-- all CPUs without locks, and the lock as initlock leaves it
pub record IsStart (s : Sys) : Type 0 where
  pub away : (me : ℕ) → s.mode me ≡ away
  pub noff : (me : ℕ) → (s.cpu me).noff ≡ pos 0
  pub unlocked : s.lock.locked ≡ false

pub data Reach : Sys → Type 0 where
  here : {s : Sys} → IsStart s → Reach s
  next : {s t : Sys} → Reach s → Step s t → Reach t
