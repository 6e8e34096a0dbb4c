-- ===== src/Locks/Tests.antt =====
-- CPU 0 takes a free lock, with its interrupts on before.
use io_scheduling.Prelude.{ℕ, ◌≡◌, refl, true, false, pos, Returns, update}
use io_scheduling.Locks.{Cpu, push_off, acquire, release, try_lock}
use io_scheduling.Locks.Interleaving.{Sys, away, inside, enter, IsStart, Reach, here, next}
use io_scheduling.Locks.Exclusion.{Reach-exclusive, Reach-release}

abbrev idle : Cpu
idle = record { noff = pos 0; intena = false; intr = true }

abbrev first : Sys
first = record {
  cpu = λ a. idle;
  before = λ a. false;
  mode = λ a. away;
  lock = record { locked = false; cpu = 0 };
}

first-IsStart : IsStart first
first-IsStart = record { away = λ a. refl; noff = λ a. refl; unlocked = refl }

abbrev busy : Cpu
busy = record { noff = pos 1; intena = true; intr = false }

abbrev second : Sys
second = record {
  cpu = update first.cpu 0 busy;
  before = update first.before 0 true;
  mode = update first.mode 0 inside;
  lock = record { locked = true; cpu = 1 };
}

second-Reach : Reach second
unfolding acquire push_off try_lock
second-Reach =
    next (here first-IsStart) (enter first 0 busy (record { locked = true; cpu = 1 }) refl refl)

Reach-exclusive_example : ◌≡◌ {A = ℕ} 0 0 × ((second.cpu 0).intr ≡ false)
Reach-exclusive_example = Reach-exclusive 0 0 second-Reach refl refl

Reach-release_example :
    Returns
      (λ (c, l). (l.locked ≡ false) × (c.intr ≡ true) × (c.noff ≡ pos 0))
      (release 0 (busy, second.lock))
Reach-release_example = Reach-release 0 second-Reach refl
