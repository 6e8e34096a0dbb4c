-- ===== src/Procs/Family/Fork.antt =====
-- `allocproc` and `fork` (kernel/proc.c), and the pids.
use io_scheduling.Prelude.{
  ℕ, zero, suc, ◌+◌, ◌%◌, ◌^◌, ◌<◌, ◌≡◌, ◌≢◌, ◌∙◌, sym, ap, subst, refl, arith, Bool, true, false,
  ◌&&◌, update, ◌⊎◌, inl, inr, ℕ_discrete, Option, none, some, Bool-cases,
}
use io_scheduling.Procs.{Procs, used, runnable, nproc, allocpid}
use io_scheduling.Procs.Family.{
  is_unused, freeproc, find_unused, set_up, allocproc, fork_child, fork,
}

-- The pids of the processes are below `nextpid`, and no two are the same.
pub record HasPids (s : Procs) : Type 0 where
  pub below : (p : ℕ) → p < nproc → is_unused (s.state p) ≡ false → s.pid p < s.nextpid
  pub different :
      (p q : ℕ)
      → p < nproc
      → q < nproc
      → is_unused (s.state p) ≡ false
      → is_unused (s.state q) ≡ false
      → s.pid p ≡ s.pid q
      → p ≡ q

-- what the loop of allocproc finds
unfoldable FirstUnused : ℕ → Procs → Option ℕ → Type 0
FirstUnused hi s none = (r : ℕ) → r < hi → is_unused (s.state r) ≡ false
FirstUnused hi s (some p) = (p < hi) × (is_unused (s.state p) ≡ true)

find_unused_lem :
    (k p hi : ℕ) (s : Procs)
    → hi ≡ p + k
    → ((r : ℕ) → r < p → is_unused (s.state r) ≡ false)
    → FirstUnused hi s (find_unused k p s)
unfolding find_unused FirstUnused
find_unused_lem zero p hi s e before = λ r l. before r (omega arith)
find_unused_lem (suc k) p hi s e before = elim (Bool-cases (is_unused (s.state p))) [
  | inl f ↦
      (let r : find_unused (suc k) p s ≡ some p = ground (arith, f) in
        subst (FirstUnused hi s) (sym r) (omega arith, f))
  | inr u ↦
      (let r : find_unused (suc k) p s ≡ find_unused k (p + 1) s = ground (arith, u) in
        subst (FirstUnused hi s) (sym r) (
          find_unused_lem k (p + 1) hi s (omega arith) (λ q l. elim (ℕ_discrete q p) [
            | yes y ↦ ap (λ x. is_unused (s.state x)) y ∙ u
            | no ne ↦ before q (omega arith)
          ])))
]

-- What fork answers. A child: an unused slot has got the next pid and the parent and can run, and all
-- other processes are as they were. Or -1: the table is full or memory is short, and no process has
-- come or gone.
unfoldable pub Forked : ℕ → Bool → Procs → Option ℕ × Procs → Type 0
Forked me room s (some pid, t) =
    (pid ≡ s.nextpid)
    × (t.nextpid ≡ s.nextpid + 1)
    × HasPids t
    × ((p : ℕ) × (p < nproc)
        × (is_unused (s.state p) ≡ true)
        × (t.state p ≡ runnable)
        × (t.pid p ≡ pid)
        × (t.parent p ≡ me + 1)
        × ((q : ℕ)
            → q ≢ p
            → (t.state q ≡ s.state q) × (t.pid q ≡ s.pid q) × (t.parent q ≡ s.parent q)))
Forked me room s (none, t) =
    HasPids t
    × ((room ≡ false) ⊎ ((r : ℕ) → r < nproc → is_unused (s.state r) ≡ false))
    × ((q : ℕ) → is_unused (t.state q) ≡ is_unused (s.state q))

-- slot `p` is taken for a process with the next pid
module _ (s : Procs) (p me : ℕ) (small : s.nextpid + 1 < 2 ^ 31) (h : HasPids s)
    (free : is_unused (s.state p) ≡ true) where
  abbrev child : Procs
  child = record s {
    nextpid = (s.nextpid + 1) % 2 ^ 32;
    pid = update s.pid p s.nextpid;
    state = update (update s.state p used) p runnable;
    parent = update s.parent p (me + 1);
  }

  child-HasPids : HasPids child
  child-HasPids =
      let step : (s.nextpid + 1) % 2 ^ 32 ≡ s.nextpid + 1 = omega arith in
      record {
        below = λ q l u. elim (ℕ_discrete p q) [
          | yes e ↦ ground (arith, e, step)
          | no ne ↦ (let b = h.below q l (ground (arith, u, ne)) in ground (arith, b, ne, step))
        ];
        different = λ q r l m u v e. elim (ℕ_discrete p q) [
          | yes y ↦ (elim (ℕ_discrete p r) [
            | yes z ↦ sym y ∙ z
            | no ne ↦
                (let b = h.below r m (ground (arith, v, ne)) in
                  absurd (ground (arith, e, y, ne, b)))
          ])
          | no d ↦ (elim (ℕ_discrete p r) [
            | yes z ↦
                (let b = h.below q l (ground (arith, u, d)) in absurd (ground (arith, e, z, d, b)))
            | no ne ↦
                h.different q r l m (ground (arith, u, d)) (ground (arith, v, ne))
                  (ground (arith, e, d, ne))
          ])
        ];
      }

  -- the slot is given back
  abbrev undone : Procs
  undone = freeproc p (record s {
    nextpid = (s.nextpid + 1) % 2 ^ 32;
    pid = update s.pid p s.nextpid;
    state = update s.state p used;
  })

  undone_same : (q : ℕ) → is_unused (undone.state q) ≡ is_unused (s.state q)
  unfolding freeproc
  undone_same q = ground (arith, free)

  undone-HasPids : HasPids undone
  unfolding freeproc
  undone-HasPids =
      let step : (s.nextpid + 1) % 2 ^ 32 ≡ s.nextpid + 1 = omega arith in
      record {
        below = λ q l u.
            (let ne : p ≢ q = λ y. absurd (ground (arith, u, y)) in
              let b = h.below q l (ground (arith, u, ne)) in ground (arith, b, ne, step));
        different = λ q r l m u v e.
            (let d : p ≢ q = λ y. absurd (ground (arith, u, y)) in
              let ne : p ≢ r = λ y. absurd (ground (arith, v, y)) in
              h.different q r l m (ground (arith, u, d)) (ground (arith, v, ne))
                (ground (arith, e, d, ne)));
      }

fork_slot :
    (me : ℕ) (frame table copied : Bool) (s : Procs) (r : Option ℕ)
    → s.nextpid + 1 < 2 ^ 31
    → HasPids s
    → FirstUnused nproc s r
    → Forked me
        (frame && (table && copied))
        s
        (fork_child me copied (elim r [ none ↦ (none, s) | some p ↦ set_up frame table p s ]))
unfolding Forked FirstUnused set_up fork_child allocpid
fork_slot me frame table copied s none small h all = (h, inr all, λ q. refl)
fork_slot me true true true s (some p) small h (low, free) = (
  ground arith,
  omega arith,
  child-HasPids s p me small h free,
  (
    p,
    low,
    free,
    ground arith,
    refl,
    ground arith,
    λ q ne. (ground arith, ground arith, ground arith),
  ),
)
fork_slot me true true false s (some p) small h (low, free) =
    (undone-HasPids s p me small h free, inl refl, undone_same s p me small h free)
fork_slot me true false copied s (some p) small h (low, free) =
    (undone-HasPids s p me small h free, inl refl, undone_same s p me small h free)
fork_slot me false table copied s (some p) small h (low, free) =
    (undone-HasPids s p me small h free, inl refl, undone_same s p me small h free)

-- fork where the pids are all different and below `nextpid`, and `nextpid + 1` does not overflow as an
-- `int`: a child gets the next pid, which no process has, in a slot that was unused, with the caller as
-- its parent, and it can run; -1 comes only from a full table or a lack of memory, and a slot taken for
-- the child is then unused again. The pids are all different afterwards.
pub fork_correct :
    (me : ℕ) (frame table copied : Bool) (s : Procs)
    → s.nextpid + 1 < 2 ^ 31
    → HasPids s
    → Forked me (frame && (table && copied)) s (fork me frame table copied s)
unfolding fork allocproc
fork_correct me frame table copied s small h =
    fork_slot me frame table copied s (find_unused nproc 0 s) small h
      (find_unused_lem nproc 0 nproc s refl (λ r l. absurd (omega arith)))
