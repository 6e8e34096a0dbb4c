-- ===== src/Locks/Nesting.antt =====
-- `push_off` and `pop_off`, and the locks that nest by them (kernel/spinlock.c).
use io_scheduling.Prelude.{
  ℕ, zero, suc, ◌+◌, ◌≡◌, ◌∙◌, sym, if◌then◌else◌, refl, arith, true, false, ◌==◌, ◌&&◌, ◌⊎◌, inl,
  inr, some, Run, ok, ◌>>=◌, Returns, pos,
}
use io_scheduling.Locks.{Cpu, Spinlock, push_off, pop_off, try_lock, acquire, release}

-- interrupts are off while a section is open
abbrev pub IsNested : ℕ → Cpu → Type 0
IsNested n c = (c.noff ≡ pos n) × ((n ≡ 0) ⊎ (c.intr ≡ false))

-- `k` sections are opened, and `k` are closed
pub pushes : ℕ → Cpu → Cpu
pushes zero c = c
pushes (suc k) c = pushes k (push_off c)

pub pops : ℕ → Cpu → Run Cpu
pops zero c = ok c
pops (suc k) c = pop_off c >>= pops k

-- the state in the innermost of `k` sections
pushes_lem :
    (k n : ℕ) (c : Cpu)
    → c.noff ≡ pos n
    → ((pushes (suc k) c).noff ≡ pos (n + suc k))
      × ((pushes (suc k) c).intr ≡ false)
      × ((pushes (suc k) c).intena ≡ (if n == 0 then c.intr else c.intena))
unfolding pushes push_off
pushes_lem zero n c e = (ground arith, refl, ground arith)
pushes_lem (suc k) n c e =
    let (a, b, d) = pushes_lem k (n + 1) (push_off c) (ground arith) in
    (ground (arith, a), b, ground (arith, d))

pub pop_off_lem :
    (m : ℕ) (c : Cpu)
    → c.noff ≡ pos (suc m)
    → c.intr ≡ false
    → pop_off c ≡ ok (record c { noff = pos m; intr = m == 0 && c.intena })
unfolding pop_off
pop_off_lem m c e f = ground arith

pops_lem :
    (k n : ℕ) (c : Cpu)
    → c.noff ≡ pos (n + suc k)
    → c.intr ≡ false
    → Returns (λ d. (d.noff ≡ pos n) × (d.intr ≡ (n == 0 && c.intena))) (pops (suc k) c)
unfolding pops
pops_lem zero n c e f =
    let g : c.noff ≡ pos (suc n) = ground arith in
    (
      record c { noff = pos n; intr = n == 0 && c.intena },
      ground (arith, pop_off_lem n c g f),
      (refl, refl),
    )
pops_lem (suc k) n c e f =
    let g : c.noff ≡ pos (suc (n + suc k)) = ground arith in
    let d : Cpu = record c { noff = pos (n + suc k); intr = n + suc k == 0 && c.intena } in
    let (x, run, h) = pops_lem k n d refl (ground arith) in
    (x, ground (arith, pop_off_lem (n + suc k) c g f, run), h)

-- On a CPU whose interrupts are off where its depth is above 0: after any number of push_offs interrupts
-- are off, and as many pop_offs then return and leave interrupts and the depth as they were before.
pub pushes-pops :
    (k n : ℕ) (c : Cpu)
    → IsNested n c
    → ((k ≡ 0) ⊎ ((pushes k c).intr ≡ false))
      × Returns (λ d. (d.noff ≡ c.noff) × (d.intr ≡ c.intr)) (pops k (pushes k c))
unfolding pushes pops
pushes-pops zero n c h = (inl refl, (c, refl, (refl, refl)))
pushes-pops (suc k) n c (e, off) =
    let (a, b, d) = pushes_lem k n c e in
    let (x, run, (f, g)) = pops_lem k n (pushes (suc k) c) a b in
    (inr b, (x, run, (f ∙ sym e, ground (arith, g, d))))

-- A CPU with no section open or with interrupts off takes a free lock and gives it back: in between it
-- holds the lock with interrupts off, and in the end all is as it was before.
pub acquire-release :
    (me n : ℕ) (c : Cpu) (l : Spinlock)
    → IsNested n c
    → l.locked ≡ false
    → Returns
        (λ (d, r).
          (d.intr ≡ false)
          × ((m : Spinlock) × (r ≡ some m)
              × (m.locked ≡ true)
              × Returns
                  (λ (e, l'). (e.noff ≡ c.noff) × (e.intr ≡ c.intr) × (l'.locked ≡ false))
                  (release me (d, m))))
        (acquire me (c, l))
unfolding acquire release push_off try_lock
acquire-release me n c l (e, off) free =
    let d : Cpu = push_off c in
    let x : Cpu = record d { noff = pos n; intr = n == 0 && d.intena } in
    let m : Spinlock = record { locked = true; cpu = me + 1 } in
    let run : pop_off d ≡ ok x = pop_off_lem n d (ground arith) refl in
    (
      (d, some m),
      ground arith,
      (
        refl,
        (
          m,
          refl,
          refl,
          (
            (x, record { locked = false; cpu = 0 }),
            ground (arith, run),
            (sym e, ground arith, refl),
          ),
        ),
      ),
    )
