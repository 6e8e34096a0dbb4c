-- ===== src/Procs/Family/Reap.antt =====
-- `wait` (kernel/proc.c), and after `exit`.
use io_scheduling.Prelude.{
  ℕ, zero, suc, ◌+◌, ◌<◌, ◌≡◌, ◌≢◌, ◌∙◌, sym, ap, subst, refl, arith, Bool, true, false, not, ◌==◌,
  ◌&&◌, ◌||◌, if◌then◌else◌, ◌⊎◌, inl, inr, ℕ_discrete, Option, none, some, Bool-cases, Returns,
}
use io_scheduling.Procs.{
  Procs, ProcState, unused, used, runnable, running, zombie, sleeping, nproc, is_zombie,
  go_to_sleep, exit,
}
use io_scheduling.Procs.Lifecycle.{exit_correct}
use io_scheduling.Procs.Family.{freeproc, find_zombie, Waited, reaped, failed, asleep, wait}

abbrev is_reapable : ℕ → Procs → ℕ → Bool
is_reapable me s q = s.parent q == me + 1 && is_zombie (s.state q)

-- whether `me` has children below `hi`
abbrev Kids : ℕ → ℕ → Procs → Bool → Type 0
Kids hi me s true = (r : ℕ) × (r < hi) × (s.parent r ≡ me + 1)
Kids hi me s false = (r : ℕ) → r < hi → s.parent r ≢ me + 1

-- what the loop finds among the processes below `hi`
unfoldable Scanned : ℕ → ℕ → Procs → Option ℕ × Bool → Type 0
Scanned hi me s (some q, kids) =
    (q < hi) × (is_reapable me s q ≡ true) × ((r : ℕ) → r < q → is_reapable me s r ≡ false)
Scanned hi me s (none, kids) = ((r : ℕ) → r < hi → is_reapable me s r ≡ false) × Kids hi me s kids

more-Kids :
    (q me : ℕ) (s : Procs) (kids : Bool)
    → Kids q me s kids
    → Kids (q + 1) me s (kids || s.parent q == me + 1)
more-Kids q me s true (r, l, e) = (r, omega arith, e)
more-Kids q me s false all = elim (ℕ_discrete (s.parent q) (me + 1)) [
  | yes e ↦
      (let b : (s.parent q == me + 1) ≡ true = ground arith in
        subst (Kids (q + 1) me s) (sym b) (q, omega arith, e))
  | no ne ↦
      (let b : (s.parent q == me + 1) ≡ false = ground arith in
        subst (Kids (q + 1) me s) (sym b) (λ r l. elim (ℕ_discrete r q) [
          | yes e ↦ (λ z. ne (sym (ap s.parent e) ∙ z))
          | no d ↦ all r (omega arith)
        ]))
]

one_more :
    (q r me : ℕ) (s : Procs)
    → ((r : ℕ) → r < q → is_reapable me s r ≡ false)
    → is_reapable me s q ≡ false
    → r < q + 1
    → is_reapable me s r ≡ false
one_more q r me s before now l = elim (ℕ_discrete r q) [
  | yes e ↦ ap (is_reapable me s) e ∙ now
  | no ne ↦ before r (omega arith)
]

find_zombie-Scanned :
    (k q hi me : ℕ) (kids : Bool) (s : Procs)
    → hi ≡ q + k
    → Scanned q me s (none, kids)
    → Scanned hi me s (find_zombie k q me kids s)
unfolding find_zombie Scanned
find_zombie-Scanned zero q hi me kids s e h =
    subst (λ x. Scanned x me s (none, kids)) (omega arith) h
find_zombie-Scanned (suc k) q hi me kids s e (before, known) =
    elim (Bool-cases (is_reapable me s q)) [
      | inl found ↦
          (let r : find_zombie (suc k) q me kids s ≡ (some q, true) = ground (arith, found) in
            subst (Scanned hi me s) (sym r) (omega arith, found, before))
      | inr miss ↦
          (let kids' = kids || s.parent q == me + 1 in
            let r : find_zombie (suc k) q me kids s ≡ find_zombie k (q + 1) me kids' s =
              ground (arith, miss) in
            subst (Scanned hi me s) (sym r) (
              find_zombie-Scanned k (q + 1) hi me kids' s (omega arith)
                (λ r l. one_more q r me s before miss l, more-Kids q me s kids known)))
    ]

-- What wait answers: the pid and status of a child that is a zombie, whose slot is then free, with all
-- other processes as they were; -1 without children, when killed, or when the status cannot be copied
-- out; and it sleeps where it has children and none of them is a zombie.
unfoldable pub Answered : ℕ → Bool → Procs → Waited → Type 0
Answered me copies s (reaped pid status t) =
    (q : ℕ) × (q < nproc)
    × (s.parent q ≡ me + 1)
    × (s.state q ≡ zombie)
    × (pid ≡ s.pid q)
    × (status ≡ s.xstate q)
    × (t ≡ freeproc q s)
Answered me copies s failed =
    (copies ≡ false)
    ⊎ (((r : ℕ) → r < nproc → s.parent r ≡ me + 1 → s.state r ≢ zombie)
        × (((r : ℕ) → r < nproc → s.parent r ≢ me + 1) ⊎ (s.killed me ≡ true)))
Answered me copies s (asleep t) =
    ((r : ℕ) → r < nproc → s.parent r ≡ me + 1 → s.state r ≢ zombie)
    × ((r : ℕ) × (r < nproc) × (s.parent r ≡ me + 1))
    × (t ≡ go_to_sleep me (me + 1) s)

zombie_lem : (x : ProcState) → is_zombie x ≡ true → x ≡ zombie
zombie_lem zombie h = refl
zombie_lem unused h = absurd (ground (arith, h))
zombie_lem used h = absurd (ground (arith, h))
zombie_lem sleeping h = absurd (ground (arith, h))
zombie_lem runnable h = absurd (ground (arith, h))
zombie_lem running h = absurd (ground (arith, h))

no_zombie :
    (me : ℕ) (s : Procs)
    → ((r : ℕ) → r < nproc → is_reapable me s r ≡ false)
    → (r : ℕ) → r < nproc
    → s.parent r ≡ me + 1
    → s.state r ≢ zombie
no_zombie me s all r l e z =
    let y : is_zombie (s.state r) ≡ true = ap is_zombie z in absurd (ground (arith, all r l, e, y))

answer :
    (me : ℕ) (copies : Bool) (s : Procs) (r : Option ℕ × Bool)
    → Scanned nproc me s r
    → Answered me copies s (elim r.0 [
      | some q ↦ if copies then reaped (s.pid q) (s.xstate q) (freeproc q s) else failed
      | none ↦ if not r.1 || s.killed me then failed else asleep (go_to_sleep me (me + 1) s)
    ])
unfolding Answered Scanned
answer me true s (some q, kids) (low, h, before) =
    (q, low, ground (arith, h), zombie_lem (s.state q) (ground (arith, h)), refl, refl, refl)
answer me false s (some q, kids) (low, h, before) = inl refl
answer me copies s (none, false) (all, none_there) = inr (no_zombie me s all, inl none_there)
answer me copies s (none, true) (all, (r, l, e)) = elim (Bool-cases (s.killed me)) [
  | inl k ↦
      subst (λ b. Answered me copies s (if b then failed else asleep (go_to_sleep me (me + 1) s)))
        (sym k) (inr (no_zombie me s all, inr k))
  | inr k ↦
      subst (λ b. Answered me copies s (if b then failed else asleep (go_to_sleep me (me + 1) s)))
        (sym k) (no_zombie me s all, (r, l, e), refl)
]

-- wait scans the table for a child that is a zombie. It answers the pid and the status of the first one
-- and frees its slot; it fails if the status cannot be copied out, and, where no child is a zombie, if
-- there are no children or the process is killed; else it sleeps until a child wakes it.
pub wait_correct : (me : ℕ) (copies : Bool) (s : Procs) → Answered me copies s (wait me copies s)
unfolding wait Scanned
wait_correct me copies s = answer me copies s (find_zombie nproc 0 me false s) (
    find_zombie-Scanned nproc 0 nproc me false s refl
      ((λ r l. absurd (omega arith)), λ r l. absurd (omega arith)))

-- what wait answers after the exit of the only child
reap_only :
    (p c status x : ℕ) (s t : Procs) (w : Waited)
    → ((q : ℕ) → q < nproc → t.parent q ≡ p + 1 → q ≡ c)
    → c < nproc
    → t.parent c ≡ p + 1
    → t.state c ≡ zombie
    → t.xstate c ≡ status
    → t.pid c ≡ x
    → Answered p true t w
    → w ≡ reaped x status (freeproc c t)
unfolding Answered
reap_only p c status x s t (reaped pid st u) only low par z st_c pid_c (q, l, e, y, a, b, d) =
    let same : q ≡ c = only q l e in
    let a' : pid ≡ x = a ∙ ap t.pid same ∙ pid_c in
    let b' : st ≡ status = b ∙ ap t.xstate same ∙ st_c in
    let d' : u ≡ freeproc c t = d ∙ ap (λ k. freeproc k t) same in rw (a', b', d') refl
reap_only p c status x s t failed only low par z st_c pid_c (inl no_copy) =
    absurd (ground (arith, no_copy))
reap_only p c status x s t failed only low par z st_c pid_c (inr (none_dead, rest)) =
    absurd (none_dead c low par z)
reap_only p c status x s t (asleep u) only low par z st_c pid_c (none_dead, kids, e) =
    absurd (none_dead c low par z)

-- wait has answered the pid and the status of the process of slot `c`: the slot is free, without a pid and
-- a parent, and all other processes are as they were in `t`.
unfoldable pub Reaped : ℕ → ℕ → ℕ → Procs → Waited → Type 0
Reaped c x status t (reaped pid st u) =
    (pid ≡ x)
    × (st ≡ status)
    × (u.state c ≡ unused)
    × (u.pid c ≡ 0)
    × (u.parent c ≡ 0)
    × ((q : ℕ)
        → q ≢ c
        → (u.state q ≡ t.state q)
          × (u.pid q ≡ t.pid q)
          × (u.parent q ≡ t.parent q)
          × (u.xstate q ≡ t.xstate q))
Reaped c x status t failed = ⊥
Reaped c x status t (asleep u) = ⊥

freeproc-Reaped :
    (c x status : ℕ) (t : Procs) → Reaped c x status t (reaped x status (freeproc c t))
unfolding Reaped freeproc
freeproc-Reaped c x status t = (
  refl,
  refl,
  ground arith,
  ground arith,
  ground arith,
  λ q ne. (ground arith, ground arith, ground arith, ground arith),
)

-- exit and then wait: a process whose only child, another process, has exited gets the child's pid
-- and status from wait, where the status can be copied out. The child's slot is then unused, without
-- a pid and a parent, and the other processes are as wait found them; neither of the two is init.
pub wait-exit :
    (p c status : ℕ) (s : Procs)
    → c ≢ s.initproc
    → p ≢ s.initproc
    → p ≢ c
    → c < nproc
    → s.parent c ≡ p + 1
    → ((q : ℕ) → q < nproc → s.parent q ≡ p + 1 → q ≡ c)
    → Returns (λ t. Reaped c (s.pid c) status t (wait p true t)) (exit c status s)
wait-exit p c status s live live' apart low par only =
    let (t, r, (z, st, parents, awake, pids)) =
      exit_correct c status s live (λ y. apart (omega arith)) low in
    let par' : t.parent c ≡ p + 1 = ground (arith, parents c low) in
    (
      t,
      r,
      subst (Reaped c (s.pid c) status t)
          (sym (
            reap_only p c status (s.pid c) s t (wait p true t)
              (λ q l e. only q l (ground (arith, parents q l))) low par' z st (ap (λ f. f c) pids)
              (wait_correct p true t)))
          (freeproc-Reaped c (s.pid c) status t),
    )
