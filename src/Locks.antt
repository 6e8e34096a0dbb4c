-- ===== src/Locks.antt =====
-- Spin locks and interrupts (kernel/spinlock.c), and sleep locks (kernel/sleeplock.c).
-- A lock's holder is a CPU, or for a sleep lock the id of a process. `acquire` and `acquiresleep` are
-- one try: they return `none` where the lock is taken, and the caller spins or sleeps.
pub mod Nesting
pub mod Interleaving
pub mod Exclusion
mod Tests
use io_scheduling.Prelude.{
  ℕ, zero, suc, ◌+◌, Bool, true, false, not, ltb, ◌==◌, ◌&&◌, ◌||◌, if◌then◌else◌, Option, none,
  some, Run, ok, stop, panic, ◌>>=◌, ◌>>◌, panic_if, ℤ, pos, negsuc, increment, decrement,
}

-- `noff` and `intena` of `struct cpu`, and whether device interrupts are on
pub record Cpu : Type 0 where
  pub noff : ℤ
  pub intena : Bool
  pub intr : Bool

abbrev is_zero : ℤ → Bool
is_zero (pos n) = n == 0
is_zero (negsuc n) = false

abbrev is_positive : ℤ → Bool
is_positive (pos n) = ltb 0 n
is_positive (negsuc n) = false

pub push_off : Cpu → Cpu
push_off c = record c {
  intr = false;
  intena = if is_zero c.noff then c.intr else c.intena;
  noff = increment c.noff;
}

pub pop_off : Cpu → Run Cpu
pop_off c = do
  panic_if c.intr
  panic_if (not (is_positive c.noff))
  let left = decrement c.noff
  ok (record c { noff = left; intr = (is_zero left && c.intena) || c.intr })

-- `struct spinlock`: `cpu` is 0 where no CPU holds it, and CPU `c` is `c + 1`
pub record Spinlock : Type 0 where
  pub locked : Bool
  pub cpu : ℕ

abbrev pub holding : ℕ → Spinlock → Bool
holding me l = l.locked && l.cpu == me + 1

-- one round of the `while` of acquire: `none` where the swap found the lock taken
pub try_lock : ℕ → Spinlock → Option Spinlock
try_lock me l = if l.locked then none else some (record { locked = true; cpu = me + 1 })

-- acquire up to the end of its first round
pub acquire : ℕ → Cpu × Spinlock → Run (Cpu × Option Spinlock)
acquire me (c, l) = do panic_if (holding me l); ok (push_off c, try_lock me l)

pub release : ℕ → Cpu × Spinlock → Run (Cpu × Spinlock)
release me (c, l) = do
  panic_if (not (holding me l))
  c' ← pop_off c
  ok (c', record { locked = false; cpu = 0 })

-- `struct sleeplock`
pub record Sleeplock : Type 0 where
  pub locked : Bool
  pub pid : ℕ

pub acquiresleep : ℕ → Sleeplock → Option Sleeplock
acquiresleep me l = if l.locked then none else some (record { locked = true; pid = me })

pub releasesleep : Sleeplock → Sleeplock
releasesleep l = record { locked = false; pid = 0 }

pub holdingsleep : ℕ → Sleeplock → Bool
holdingsleep me l = l.locked && l.pid == me
