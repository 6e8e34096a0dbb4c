-- ===== src/Log/Install.antt =====
-- `install_trans` of kernel/log.c.
use io_scheduling.Prelude.{
  ℕ, zero, suc, ◌+◌, ◌-◌, ◌≤◌, ◌<◌, ◌≡◌, ◌⊎◌, ◌∙◌, inl, inr, refl, arith, dec_lt, ℕ_discrete, Bool,
  true, false,
}
use io_scheduling.Log.{Block, Buffers, set_and_write, bunpin, install_loop}
use io_scheduling.Log.Safe.{IsHome}
use io_scheduling.Log.Write.{IsUpdated, set_and_write_lem}

module _ (start size : ℕ) (block : ℕ → ℕ) (t : ℕ → Block) where
  -- The cached log holds the contents `t` of the blocks that are installed.
  pub record IsReady (k tail : ℕ) (m : Buffers) : Type 0 where
    pub fits : tail + k < size
    pub homes : (i : ℕ) → tail ≤ i → i < tail + k → IsHome start size (block i)
    pub copies : (i : ℕ) → tail ≤ i → i < tail + k → m.cache (start + i + 1) ≡ t (block i)

  -- block `b` is installed by the rounds from `tail`
  abbrev pub IsListed : ℕ → ℕ → ℕ → Type 0
  IsListed k tail b = (i : ℕ) × (tail ≤ i) × (i < tail + k) × (block i ≡ b)

  -- what the loop leaves
  pub record IsInstalled (k tail : ℕ) (m m' : Buffers) : Type 0 where
    pub log_cache : (b : ℕ) → start ≤ b → b < start + size → m'.cache b ≡ m.cache b
    pub log_disk : (b : ℕ) → start ≤ b → b < start + size → m'.disk b ≡ m.disk b
    pub rest : (b : ℕ) → (m'.disk b ≡ m.disk b) ⊎ ((m'.disk b ≡ t b) × IsListed k tail b)
    pub done :
        (m'.power ≡ 0) ⊎ ((i : ℕ) → tail ≤ i → i < tail + k → m'.disk (block i) ≡ t (block i))
    pub spent : m'.power ≡ m.power - k

  install_step_rest :
      (k tail : ℕ) (m m1 m' : Buffers)
      → IsReady (suc k) tail m
      → IsUpdated (block tail) (m.cache (start + tail + 1)) m m1
      → IsInstalled k (tail + 1) m1 m'
      → (b : ℕ) → (m'.disk b ≡ m.disk b) ⊎ ((m'.disk b ≡ t b) × IsListed (suc k) tail b)
  install_step_rest k tail m m1 m' r c w b = elim (w.rest b) [
    | inr (e, (i, low, high, f)) ↦ inr (e, (i, omega arith, omega arith, f))
    | inl e ↦ elim (ℕ_discrete (block tail) b) [
      | no ne ↦ inl (e ∙ c.other b ne)
      | yes f ↦ elim c.written [
        | inl g ↦ inl (e ∙ (rw f at g))
        | inr g ↦ inr (
          e ∙ (rw f at (g ∙ r.copies tail (omega arith) (omega arith))),
          (tail, omega arith, omega arith, f),
        )
      ]
    ]
  ]

  install_step :
      (k tail : ℕ) (m m1 m' : Buffers)
      → IsReady (suc k) tail m
      → IsUpdated (block tail) (m.cache (start + tail + 1)) m m1
      → IsInstalled k (tail + 1) m1 m'
      → IsInstalled (suc k) tail m m'
  install_step k tail m m1 m' r c w = record {
    log_cache = λ b low high. ground (arith, w.log_cache b, c.cached b, r.homes tail);
    log_disk = λ b low high. ground (arith, w.log_disk b, c.other b, r.homes tail);
    rest = install_step_rest k tail m m1 m' r c w;
    done = elim w.done [
      | inl off ↦ inl off
      | inr rest ↦ elim (dec_lt 0 m.power) [
        | no off ↦ inl (omega (arith, w.spent, c.spent))
        | yes on ↦ inr (λ i low high. elim (ℕ_discrete i tail) [
          | no ne ↦ rest i (omega arith) (omega arith)
          | yes e ↦ rw e (elim (w.rest (block tail)) [
            | inr (f, listed) ↦ f
            | inl f ↦ elim c.done [
              | inl off ↦ absurd (omega arith)
              | inr g ↦ f ∙ g ∙ r.copies tail (omega arith) (omega arith)
            ]
          ])
        ])
      ]
    ];
    spent = omega (arith, w.spent, c.spent);
  }

  set_and_write-IsReady :
      (k tail : ℕ) (m m1 : Buffers)
      → IsReady (suc k) tail m
      → IsUpdated (block tail) (m.cache (start + tail + 1)) m m1
      → IsReady k (tail + 1) m1
  set_and_write-IsReady k tail m m1 r c = record {
    fits = omega (arith, r.fits);
    homes = λ i low high. r.homes i (omega arith) (omega arith);
    copies =
        λ i low high. ground (arith, r.fits, r.copies i, c.cached (start + i + 1), r.homes tail);
  }

  -- install_trans copies each logged block to its home, unless power fails, and leaves every other
  -- block of the disk as it is.
  pub install_loop_lem :
      (recovering : Bool) (k tail : ℕ) (m : Buffers)
      → IsReady k tail m
      → IsInstalled k tail m (install_loop start block recovering k tail m)
  unfolding install_loop
  install_loop_lem recovering zero tail m r = record {
    log_cache = λ b low high. refl;
    log_disk = λ b low high. refl;
    rest = λ b. inl refl;
    done = inr (λ i low high. absurd (omega arith));
    spent = omega arith;
  }
  install_loop_lem true (suc k) tail m r =
      let m1 = set_and_write (block tail) (m.cache (start + tail + 1)) m in
      let c = set_and_write_lem (block tail) (m.cache (start + tail + 1)) m in
      install_step k tail m m1 (install_loop start block true k (tail + 1) m1) r c
        (install_loop_lem true k (tail + 1) m1 (set_and_write-IsReady k tail m m1 r c))
  install_loop_lem false (suc k) tail m r =
      let m1 = set_and_write (block tail) (m.cache (start + tail + 1)) m in
      let c = set_and_write_lem (block tail) (m.cache (start + tail + 1)) m in
      let m2 = bunpin (block tail) m1 in
      let c2 : IsUpdated (block tail) (m.cache (start + tail + 1)) m m2 = record {
        cached = c.cached;
        other = c.other;
        written = c.written;
        done = c.done;
        spent = c.spent;
        dead = c.dead;
      } in
      install_step k tail m m2 (install_loop start block false k (tail + 1) m2) r c2
        (install_loop_lem false k (tail + 1) m2 (set_and_write-IsReady k tail m m2 r c2))
