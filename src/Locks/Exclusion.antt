-- ===== src/Locks/Exclusion.antt =====
-- Mutual exclusion by a spin lock (kernel/spinlock.c) on the steps of several CPUs.
use io_scheduling.Prelude.{
  fun_ext, ℕ, ◌+◌, ◌≡◌, ◌≢◌, ◌∙◌, sym, ap, subst, refl, arith, Bool, true, false, inl, inr, Option,
  none, some, ok, Returns, pos, update, ℕ_discrete, Bool-cases,
}
use io_scheduling.Locks.{Cpu, Spinlock, push_off, pop_off, holding, try_lock, acquire, release}
use io_scheduling.Locks.Nesting.{pop_off_lem}
use io_scheduling.Locks.Interleaving.{
  Sys, Step, IsStart, Reach, away, inside, enter, miss, win, leave, here, next,
}

pub record Inv (s : Sys) : Type 0 where
  pub holder : (me : ℕ) → s.mode me ≡ inside → (s.lock.locked ≡ true) × (s.lock.cpu ≡ me + 1)
  pub idle : (me : ℕ) → s.mode me ≡ away → (s.cpu me).noff ≡ pos 0
  pub busy : (me : ℕ) → s.mode me ≢ away → ((s.cpu me).noff ≡ pos 1) × ((s.cpu me).intr ≡ false)
  pub saved : (me : ℕ) → s.mode me ≢ away → (s.cpu me).intena ≡ s.before me
  pub taken : s.lock.locked ≡ true → (me : ℕ) × (s.mode me ≡ inside) × (s.lock.cpu ≡ me + 1)

IsStart-Inv : {s : Sys} → IsStart s → Inv s
IsStart-Inv {s} h = record {
  holder = λ me m. absurd (ground (arith, m, h.away me));
  idle = λ me m. h.noff me;
  busy = λ me ne. absurd (ne (h.away me));
  saved = λ me ne. absurd (ne (h.away me));
  taken = λ l. absurd (ground (arith, l, h.unlocked));
}

try_some :
    (me : ℕ) (l l' : Spinlock)
    → try_lock me l ≡ some l'
    → (l.locked ≡ false) × (l'.locked ≡ true) × (l'.cpu ≡ me + 1)
unfolding try_lock
try_some me l l' e = elim (Bool-cases l.locked) [
  | inl t ↦ absurd (ground (arith, e, t))
  | inr f ↦
      (let r : some (record { locked = true; cpu = me + 1 }) ≡ some l' = ground (arith, e, f) in
        (f, ground (arith, r), ground (arith, r)))
]

push_off_lem :
    (c : Cpu)
    → c.noff ≡ pos 0
    → ((push_off c).noff ≡ pos 1) × ((push_off c).intr ≡ false) × ((push_off c).intena ≡ c.intr)
unfolding push_off
push_off_lem c e = (ground (arith, e), refl, ground (arith, e))

-- the answer of the first round of acquire
acquire_ok :
    (me : ℕ) (c c' : Cpu) (l : Spinlock) (r : Option Spinlock)
    → acquire me (c, l) ≡ ok (c', r)
    → (push_off c ≡ c') × (try_lock me l ≡ r)
unfolding acquire
acquire_ok me c c' l r e = elim (Bool-cases (holding me l)) [
  | inl h ↦ absurd (ground (arith, e, h))
  | inr f ↦
      (let x : Cpu × Option Spinlock = (push_off c, try_lock me l) in
        let q : ok x ≡ ok (c', r) = ground (arith, e, f) in (ground (arith, q), ground (arith, q)))
]

release_ok :
    (me : ℕ) (c c' : Cpu) (l l' : Spinlock)
    → c.noff ≡ pos 1
    → c.intr ≡ false
    → release me (c, l) ≡ ok (c', l')
    → (c'.noff ≡ pos 0) × (l'.locked ≡ false)
unfolding release pop_off
release_ok me c c' l l' n i e = elim (Bool-cases (holding me l)) [
  | inr f ↦ absurd (ground (arith, e, f))
  | inl h ↦
      (let run = pop_off_lem 0 c n i in
        let x : Cpu × Spinlock =
          (record c { noff = pos 0; intr = c.intena }, record { locked = false; cpu = 0 }) in
        let q : ok x ≡ ok (c', l') = ground (arith, e, h, run) in
        (ground (arith, q), ground (arith, q)))
]

-- CPU `me` has got the lock, which was free.
got-Inv :
    (s : Sys) (me : ℕ) (c : Cpu) (was : Bool) (l : Spinlock)
    → Inv s
    → s.lock.locked ≡ false
    → (l.locked ≡ true) × (l.cpu ≡ me + 1)
    → (c.noff ≡ pos 1) × (c.intr ≡ false)
    → c.intena ≡ was
    → Inv (record {
      cpu = update s.cpu me c;
      before = update s.before me was;
      mode = update s.mode me inside;
      lock = l;
    })
got-Inv s me c was l i free (t, owner) (n, off) keep = record {
  holder = λ a m. elim (ℕ_discrete me a) [
    | yes e ↦ (t, owner ∙ ap (λ x. x + 1) e)
    | no ne ↦ (let h = i.holder a (ground (arith, m, ne)) in absurd (ground (arith, h, free)))
  ];
  idle = λ a m. ground (arith, m, i.idle a);
  busy = λ a m. elim (ℕ_discrete me a) [
    | yes e ↦ (ground (arith, n, e), ground (arith, off, e))
    | no ne ↦
        (let h = i.busy a (λ y. m (ground (arith, y, ne))) in
          (ground (arith, h, ne), ground (arith, h, ne)))
  ];
  saved = λ a m. elim (ℕ_discrete me a) [
    | yes e ↦ ground (arith, keep, e)
    | no ne ↦ (let h = i.saved a (λ y. m (ground (arith, y, ne))) in ground (arith, h, ne))
  ];
  taken = λ f. (me, ground arith, owner);
}

Step-Inv : {s t : Sys} → Step s t → Inv s → Inv t
Step-Inv (enter s me c l m e) i =
    let (pc, tl) = acquire_ok me (s.cpu me) c s.lock (some l) e in
    let (free, t, o) = try_some me s.lock l tl in
    let (n, off, old) = push_off_lem (s.cpu me) (i.idle me m) in
    got-Inv s me c (s.cpu me).intr l i free (t, o)
      (ap (λ x. x.noff) (sym pc) ∙ n, ap (λ x. x.intr) (sym pc) ∙ off)
      (ap (λ x. x.intena) (sym pc) ∙ old)
Step-Inv (miss s me c m e) i =
    let (pc, tl) = acquire_ok me (s.cpu me) c s.lock none e in
    let (n, off, old) = push_off_lem (s.cpu me) (i.idle me m) in
    record {
      holder = λ a h. i.holder a (ground (arith, h));
      idle = λ a h. ground (arith, h, i.idle a);
      busy = λ a h. elim (ℕ_discrete me a) [
        | yes z ↦
            (let d : update s.cpu me c a ≡ push_off (s.cpu me) = ground (arith, pc, z) in
              (ap (λ x. x.noff) d ∙ n, ap (λ x. x.intr) d ∙ off))
        | no ne ↦
            (let b = i.busy a (λ y. h (ground (arith, y, ne))) in
              (ground (arith, b, ne), ground (arith, b, ne)))
      ];
      saved = λ a h. elim (ℕ_discrete me a) [
        | yes z ↦
            (let d : update s.cpu me c a ≡ push_off (s.cpu me) = ground (arith, pc, z) in
              ap (λ x. x.intena) d ∙ ground (arith, old, z))
        | no ne ↦ (let b = i.saved a (λ y. h (ground (arith, y, ne))) in ground (arith, b, ne))
      ];
      taken = λ f. (let (a, h, owner) = i.taken f in (a, ground (arith, h, m), owner));
    }
Step-Inv (win s me l m e) i =
    let (free, t, o) = try_some me s.lock l e in
    let same : update s.cpu me (s.cpu me) ≡ s.cpu = fun_ext (λ a. ground arith) in
    let same' : update s.before me (s.before me) ≡ s.before = fun_ext (λ a. ground arith) in
    let live : s.mode me ≢ away = λ y. absurd (ground (arith, y, m)) in
    subst (λ x. Inv (record s { cpu = x; mode = update s.mode me inside; lock = l })) same
      (subst
        (λ x. Inv (record {
          cpu = update s.cpu me (s.cpu me);
          before = x;
          mode = update s.mode me inside;
          lock = l;
        }))
        same'
        (got-Inv s me (s.cpu me) (s.before me) l i free (t, o) (i.busy me live) (i.saved me live)))
Step-Inv (leave s me c l m e) i =
    let (n, off) = i.busy me (λ y. absurd (ground (arith, y, m))) in
    let (n', free) = release_ok me (s.cpu me) c s.lock l n off e in
    record {
      holder = λ a h. elim (ℕ_discrete me a) [
        | yes z ↦ absurd (ground (arith, h, z))
        | no ne ↦
            (let (t, o) = i.holder a (ground (arith, h, ne)) in
              let (t', o') = i.holder me m in absurd (ne (omega arith)))
      ];
      idle = λ a h. ground (arith, h, i.idle a, n');
      busy = λ a h.
          (let ne : me ≢ a = λ z. h (ground (arith, z)) in
            let b = i.busy a (λ y. h (ground (arith, y, ne))) in
            (ground (arith, b, ne), ground (arith, b, ne)));
      saved = λ a h.
          (let ne : me ≢ a = λ z. h (ground (arith, z)) in
            let b = i.saved a (λ y. h (ground (arith, y, ne))) in ground (arith, b, ne));
      taken = λ f. absurd (ground (arith, f, free));
    }

Reach-Inv : {s : Sys} → Reach s → Inv s
Reach-Inv (here h) = IsStart-Inv h
Reach-Inv (next r st) = Step-Inv st (Reach-Inv r)

-- Mutual exclusion: however the CPUs interleave, two of them never have the lock at once; and the one
-- that has it has its interrupts off.
pub Reach-exclusive :
    {s : Sys} (a b : ℕ)
    → Reach s
    → s.mode a ≡ inside
    → s.mode b ≡ inside
    → (a ≡ b) × ((s.cpu a).intr ≡ false)
Reach-exclusive {s} a b r m m' =
    let i = Reach-Inv r in
    let (t, o) = i.holder a m in
    let (t', o') = i.holder b m' in (omega arith, (i.busy a (λ y. absurd (ground (arith, y, m)))).1)

-- acquire never panics where a CPU is in no call, however the CPUs interleave: it has got the lock with
-- interrupts off, or has found it with another CPU, and it remembers whether interrupts were on.
pub Reach-acquire :
    {s : Sys} (a : ℕ)
    → Reach s
    → s.mode a ≡ away
    → Returns
        (λ (c, l). (c.intr ≡ false) × (c.intena ≡ (s.cpu a).intr) × (l ≡ try_lock a s.lock))
        (acquire a (s.cpu a, s.lock))
unfolding acquire push_off
Reach-acquire {s} a r m =
    let i = Reach-Inv r in
    let free : holding a s.lock ≡ false = elim (Bool-cases (holding a s.lock)) [
      | inr f ↦ f
      | inl h ↦
          (let (b, m', o) = i.taken (ground (arith, h)) in
            let same : b ≡ a = ground (arith, h, o) in
            absurd (ground (arith, m, sym (ap s.mode same) ∙ m')))
    ] in
    (
      (push_off (s.cpu a), try_lock a s.lock),
      ground (arith, free),
      (refl, ground (arith, i.idle a m), refl),
    )

-- release never panics where a CPU has the lock, however the CPUs interleave: the lock is free, and
-- interrupts are on exactly if they were on when the CPU called acquire.
pub Reach-release :
    {s : Sys} (a : ℕ)
    → Reach s
    → s.mode a ≡ inside
    → Returns
        (λ (c, l). (l.locked ≡ false) × (c.intr ≡ s.before a) × (c.noff ≡ pos 0))
        (release a (s.cpu a, s.lock))
unfolding release
Reach-release {s} a r m =
    let i = Reach-Inv r in
    let (n, off) = i.busy a (λ y. absurd (ground (arith, y, m))) in
    let run = pop_off_lem 0 (s.cpu a) n off in
    let h = i.holder a m in
    (
      (
        record (s.cpu a) { noff = pos 0; intr = (s.cpu a).intena },
        record { locked = false; cpu = 0 },
      ),
      ground (arith, h, run),
      (refl, i.saved a (λ y. absurd (ground (arith, y, m))), refl),
    )
