-- ===== src/Log/Write.antt =====
-- `write_log` of kernel/log.c, and single writes of a block.
use io_scheduling.Prelude.{
  ℕ, zero, suc, ◌+◌, ◌-◌, ◌≤◌, ◌<◌, ◌≡◌, ◌≢◌, ◌⊎◌, inl, inr, refl, arith, dec_lt, ℕ_discrete,
  Bool-cases, ◌==◌, if◌then◌else◌,
}
use io_scheduling.Log.{Block, Buffers, set_and_write, write_log_loop}

-- block `b` is now `v`, on the disk too unless power failed before
pub record IsUpdated (b : ℕ) (v : Block) (m m' : Buffers) : Type 0 where
  pub cached : (c : ℕ) → m'.cache c ≡ (if b == c then v else m.cache c)
  pub other : (c : ℕ) → b ≢ c → m'.disk c ≡ m.disk c
  pub written : (m'.disk b ≡ m.disk b) ⊎ (m'.disk b ≡ v)
  pub done : (m.power ≡ 0) ⊎ (m'.disk b ≡ v)
  pub spent : m'.power ≡ m.power - 1
  pub dead : (m.power ≢ 0) ⊎ (m'.disk ≡ m.disk)

pub set_and_write_lem : (b : ℕ) (v : Block) (m : Buffers) → IsUpdated b v m (set_and_write b v m)
unfolding set_and_write
set_and_write_lem b v m = elim (Bool-cases (m.power == 0)) [
  | inl off ↦ record {
    cached = λ c. refl;
    other = λ c ne. ground arith;
    written = inl (ground arith);
    done = inl (ground arith);
    spent = refl;
    dead = inr (ground arith);
  }
  | inr on ↦ record {
    cached = λ c. refl;
    other = λ c ne. ground arith;
    written = inr (ground arith);
    done = inr (ground arith);
    spent = refl;
    dead = inl (ground arith);
  }
]

module _ (start : ℕ) (block : ℕ → ℕ) where
  -- what the loop of write_log leaves, with `k` blocks from index `tail`
  pub record IsWritten (k tail : ℕ) (m m' : Buffers) : Type 0 where
    pub cache_rest : (b : ℕ) → (b ≤ start + tail) ⊎ (start + tail + k < b) → m'.cache b ≡ m.cache b
    pub disk_rest : (b : ℕ) → (b ≤ start + tail) ⊎ (start + tail + k < b) → m'.disk b ≡ m.disk b
    pub cached : (i : ℕ) → tail ≤ i → i < tail + k → m'.cache (start + i + 1) ≡ m.cache (block i)
    pub done :
        (m'.power ≡ 0)
        ⊎ ((i : ℕ) → tail ≤ i → i < tail + k → m'.disk (start + i + 1) ≡ m.cache (block i))
    pub spent : m'.power ≡ m.power - k

  -- the blocks that are logged lie outside the part of the log that is written
  abbrev pub AreOutside : ℕ → ℕ → Type 0
  AreOutside k tail =
      (i : ℕ) → tail ≤ i → i < tail + k → (block i ≤ start + tail) ⊎ (start + tail + k < block i)

  write_log_step :
      (k tail : ℕ) (m m1 m' : Buffers)
      → AreOutside (suc k) tail
      → IsUpdated (start + tail + 1) (m.cache (block tail)) m m1
      → IsWritten k (tail + 1) m1 m'
      → IsWritten (suc k) tail m m'
  write_log_step k tail m m1 m' home c w = record {
    cache_rest = λ b out. ground (arith, w.cache_rest b, c.cached b);
    disk_rest = λ b out. ground (arith, w.disk_rest b, c.other b);
    cached = λ i low high. elim (ℕ_discrete i tail) [
      | yes e ↦ rw e (ground (arith, w.cache_rest (start + tail + 1), c.cached (start + tail + 1)))
      | no ne ↦ ground (arith, w.cached i, c.cached (block i), home i)
    ];
    done = elim w.done [
      | inl off ↦ inl off
      | inr rest ↦ elim (dec_lt 0 m.power) [
        | no off ↦ inl (omega (arith, w.spent, c.spent))
        | yes on ↦ inr (λ i low high. elim (ℕ_discrete i tail) [
          | yes e ↦ rw e (ground (arith, w.disk_rest (start + tail + 1), c.done))
          | no ne ↦ ground (arith, rest i, c.cached (block i), home i)
        ])
      ]
    ];
    spent = omega (arith, w.spent, c.spent);
  }

  -- write_log copies each logged block into the log, on the disk too unless power fails.
  pub write_log_loop_lem :
      (k tail : ℕ) (m : Buffers)
      → AreOutside k tail
      → IsWritten k tail m (write_log_loop start block k tail m)
  unfolding write_log_loop
  write_log_loop_lem zero tail m home = record {
    cache_rest = λ b out. refl;
    disk_rest = λ b out. refl;
    cached = λ i low high. absurd (omega arith);
    done = inr (λ i low high. absurd (omega arith));
    spent = omega arith;
  }
  write_log_loop_lem (suc k) tail m home =
      let m1 = set_and_write (start + tail + 1) (m.cache (block tail)) m in
      write_log_step k tail m m1 (write_log_loop start block k (tail + 1) m1) home
        (set_and_write_lem (start + tail + 1) (m.cache (block tail)) m)
        (write_log_loop_lem k (tail + 1) m1 (λ i low high.
          elim (home i (omega arith) (omega arith)) [
            | inl p ↦ inl (omega arith)
            | inr p ↦ inr (omega arith)
          ]))
