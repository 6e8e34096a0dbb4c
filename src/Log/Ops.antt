-- ===== src/Log/Ops.antt =====
-- `begin_op`, `end_op` and `log_write` of kernel/log.c.
use io_scheduling.Prelude.{
  ℕ, zero, suc, ◌+◌, ◌*◌, ◌≤◌, ◌<◌, ◌≡◌, ◌≢◌, ◌⊎◌, inl, inr, refl, arith, ℕ_discrete, ◌==◌, true,
  if_elim, none, pos, Returns, update, stop, panic,
}
use io_scheduling.Log.{Log, logsize, maxopblocks, bpin, begin_op, find_loop, log_write}
use io_scheduling.Log.Safe.{IsHome}
use io_scheduling.Log.Commit.{IsPending}

-- begin_op sleeps exactly while a commit runs or the room does not suffice.
pub begin_op-none :
    (s : Log) (o : ℕ)
    → s.outstanding ≡ pos o
    → (s.committing ≡ true) ⊎ (logsize < s.n + maxopblocks * (o + 1))
    → begin_op s ≡ none
unfolding begin_op
begin_op-none s o h e = ground arith

-- where the loop of log_write ends: at the block, or at the end of a list without it
Found : ℕ → ℕ → (ℕ → ℕ) → ℕ → ℕ → Type 0
Found k i block b r =
    ((i ≤ r) × (r < i + k) × (block r ≡ b))
    ⊎ ((r ≡ i + k) × ((j : ℕ) → i ≤ j → j < i + k → block j ≢ b))

find_loop_lem : (k i : ℕ) (block : ℕ → ℕ) (b : ℕ) → Found k i block b (find_loop k i block b)
unfolding find_loop Found
find_loop_lem zero i block b = inr (omega arith, λ j low high. absurd (omega arith))
find_loop_lem (suc k) i block b =
    if_elim (Found (suc k) i block b) (block i == b)
      (λ e. inl (omega arith, omega arith, ground arith))
      (λ ne. elim (find_loop_lem k (i + 1) block b) [
        | inl (low, high, e) ↦ inl (omega arith, omega arith, e)
        | inr (e, all) ↦ inr (
          omega arith,
          λ j low high. elim (ℕ_discrete j i) [
            | yes f ↦ rw f (λ g. ground arith)
            | no f ↦ all j (omega arith) (omega arith)
          ],
        )
      ])

-- the state of a transaction in which the caller of log_write has changed block `b` in the cache
pub record IsPendingBut (b : ℕ) (s : Log) : Type 0 where
  pub fits : s.n < s.size
  pub empty : s.buffers.disk s.start 0 ≡ 0
  pub homes : (i : ℕ) → i < s.n → IsHome s.start s.size (s.block i)
  pub home : IsHome s.start s.size b
  pub clean :
      (c : ℕ)
      → b ≢ c
      → IsHome s.start s.size c
      → (s.buffers.disk c ≡ s.buffers.cache c) ⊎ ((i : ℕ) × (i < s.n) × (s.block i ≡ c))

-- what log_write of block `b` leaves: the list has the block, once more only if it was not there,
-- and then the block is pinned in the cache
pub record IsAdded (b : ℕ) (s t : Log) : Type 0 where
  pub pending : IsPending t
  pub growth :
      ((t.n ≡ s.n) × (t.buffers.pins ≡ s.buffers.pins))
      ⊎ ((t.n ≡ s.n + 1)
          × (t.buffers.pins ≡ update s.buffers.pins b (s.buffers.pins b + 1))
          × ((i : ℕ) → i < s.n → s.block i ≢ b))
  pub listed : (i : ℕ) × (i < t.n) × (t.block i ≡ b)

module _ (b o : ℕ) (s : Log) (p : IsPendingBut b s) where
  absorb : (i : ℕ) → i < s.n → s.block i ≡ b → IsAdded b s (record s { block = update s.block i b })
  absorb i high e = record {
    pending = record {
      fits = p.fits;
      empty = p.empty;
      homes = λ j h. ground (arith, p.homes j, p.home);
      clean = λ c home. elim (ℕ_discrete b c) [
        | yes f ↦ inr (i, high, ground arith)
        | no f ↦ elim (p.clean c f home) [
          | inl g ↦ inl g
          | inr (j, h, g) ↦ inr (j, h, ground arith)
        ]
      ];
    };
    growth = inl (refl, refl);
    listed = (i, high, ground arith);
  }

  append :
      s.n + 1 < s.size
      → ((i : ℕ) → i < s.n → s.block i ≢ b)
      → IsAdded b s
          (record s { block = update s.block s.n b; buffers = bpin b s.buffers; n = s.n + 1 })
  append room fresh = record {
    pending = record {
      fits = room;
      empty = p.empty;
      homes = λ j h.
          if_elim (IsHome s.start s.size) (s.n == j) (λ _. p.home) (λ ne. p.homes j (ground arith));
      clean = λ c home. elim (ℕ_discrete b c) [
        | yes f ↦ inr (s.n, omega arith, ground arith)
        | no f ↦ elim (p.clean c f home) [
          | inl g ↦ inl g
          | inr (j, h, g) ↦ inr (j, omega arith, ground arith)
        ]
      ];
    };
    growth = inr (refl, refl, fresh);
    listed = (s.n, omega arith, ground arith);
  }

  -- Within a system call and with room in the log, log_write returns, and the transaction, in which
  -- block `b` was changed, is ready to commit again: the list of the log has the block, which was
  -- added and pinned if it was not there.
  pub log_write_correct :
      s.outstanding ≡ pos (o + 1)
      → s.n < logsize
      → s.n + 1 < s.size
      → Returns (IsAdded b s) (log_write b s)
  unfolding log_write Found
  log_write_correct out room space = elim (find_loop_lem s.n 0 s.block b) [
    | inl (low, high, e) ↦
        (let i = find_loop s.n 0 s.block b in
          (record s { block = update s.block i b }, ground (arith, out), absorb i (omega arith) e))
    | inr (e, fresh) ↦
        (let last : find_loop s.n 0 s.block b ≡ s.n = omega arith in
          (
            record s { block = update s.block s.n b; buffers = bpin b s.buffers; n = s.n + 1 },
            rw last (ground (arith, out)),
            append space (λ j h. fresh j (omega arith) (omega arith)),
          ))
  ]

-- log_write panics on a full log, and outside of a system call.
pub log_write-panic :
    (b : ℕ) (s : Log)
    → (logsize ≤ s.n) ⊎ ((s.size ≤ s.n + 1) ⊎ (s.outstanding ≡ pos 0))
    → log_write b s ≡ stop panic
unfolding log_write
log_write-panic b s h = ground arith
