-- ===== src/Log/Commit.antt =====
-- `commit` of kernel/log.c, over all points at which power may fail.
use mathlib.Core.Path.{subst}
use io_scheduling.Prelude.{
  ℕ, zero, suc, ◌+◌, ◌-◌, ◌*◌, ◌≤◌, ◌<◌, ◌≡◌, ◌⊎◌, ◌∙◌, sym, ap, inl, inr, refl, arith, dec_lt, ltb,
  false, if_elim,
}
use io_scheduling.Log.{
  Block, Buffers, Log, set_and_write, bunpin, install_loop, install_trans, write_log_loop,
  write_log, header, write_head, commit,
}
use io_scheduling.Log.Safe.{IsHome, IsSafe}
use io_scheduling.Log.Write.{IsUpdated, set_and_write_lem, IsWritten, write_log_loop_lem}
use io_scheduling.Log.Install.{IsReady, IsInstalled, install_loop_lem}
use io_scheduling.Log.Recover.{IsDone, install-IsSafe, clear-IsSafe}

-- without power nothing reaches the disk
set_and_write_off :
    (b : ℕ) (v : Block) (m : Buffers) → m.power ≡ 0 → (set_and_write b v m).disk ≡ m.disk
unfolding set_and_write
set_and_write_off b v m off = ground (arith, off)

install_loop_off :
    (start : ℕ) (block : ℕ → ℕ) (k tail : ℕ) (m : Buffers)
    → m.power ≡ 0
    → ((install_loop start block false k tail m).disk ≡ m.disk)
      × ((install_loop start block false k tail m).power ≡ 0)
unfolding install_loop
install_loop_off start block zero tail m off = (refl, off)
install_loop_off start block (suc k) tail m off =
    let m1 = bunpin (block tail) (set_and_write (block tail) (m.cache (start + tail + 1)) m) in
    let c = set_and_write_lem (block tail) (m.cache (start + tail + 1)) m in
    let (e, f) = install_loop_off start block k (tail + 1) m1 (omega (arith, c.spent)) in
    (e ∙ set_and_write_off (block tail) (m.cache (start + tail + 1)) m off, f)

-- A transaction that is ready to commit: the log on the disk is empty, the blocks that it lists lie
-- outside the log, and only these differ between the cache and the disk.
pub record IsPending (s : Log) : Type 0 where
  pub fits : s.n < s.size
  pub empty : s.buffers.disk s.start 0 ≡ 0
  pub homes : (i : ℕ) → i < s.n → IsHome s.start s.size (s.block i)
  pub clean :
      (b : ℕ)
      → IsHome s.start s.size b
      → (s.buffers.disk b ≡ s.buffers.cache b) ⊎ ((i : ℕ) × (i < s.n) × (s.block i ≡ b))

module _ (s : Log) (p : IsPending s) where
  abbrev m0 : Buffers
  m0 = s.buffers

  abbrev m1 : Buffers
  m1 = write_log_loop s.start s.block s.n 0 m0

  abbrev head_block : Block
  head_block = header s.n s.block (m1.cache s.start)

  abbrev m2 : Buffers
  m2 = set_and_write s.start head_block m1

  abbrev m3 : Buffers
  m3 = install_loop s.start s.block false s.n 0 m2

  abbrev clear_block : Block
  clear_block = header 0 s.block (m3.cache s.start)

  abbrev m4 : Buffers
  m4 = set_and_write s.start clear_block m3

  abbrev old : ℕ → Block
  old = m0.disk

  abbrev new : ℕ → Block
  new = m0.cache

  written : IsWritten s.start s.block s.n 0 m0 m1
  written = write_log_loop_lem s.start s.block s.n 0 m0 (λ i low high.
      elim (p.homes i (omega arith)) [
        | inl below ↦ inl (omega arith)
        | inr above ↦ inr (omega (arith, p.fits))
      ])

  -- before the header is written, the old contents are safe
  safe1 : IsSafe s.start s.size old m1.disk
  safe1 =
      let same : m1.disk s.start ≡ old s.start = written.disk_rest s.start (inl (omega arith)) in
      let zero_head : m1.disk s.start 0 ≡ 0 = ap (λ (w : Block). w 0) same ∙ p.empty in
      record {
        fits = omega (arith, zero_head, p.fits);
        homes = λ i high. absurd (omega (arith, zero_head));
        copies = λ i high. absurd (omega (arith, zero_head));
        rest = λ b home. inl (
            written.disk_rest b (elim home [
              | inl below ↦ inl (omega arith)
              | inr above ↦ inr (omega (arith, p.fits))
            ]));
      }

  off_safe : m1.power ≡ 0 → m4.disk ≡ m1.disk
  off_safe off =
      let c = set_and_write_lem s.start head_block m1 in
      let (e, f) = install_loop_off s.start s.block s.n 0 m2 (omega (arith, c.spent)) in
      set_and_write_off s.start clear_block m3 f ∙ e ∙ set_and_write_off s.start head_block m1 off

  module _ (on : 0 < m1.power) where
    head_set : IsUpdated s.start head_block m1 m2
    head_set = set_and_write_lem s.start head_block m1

    head_on_disk : m2.disk s.start ≡ head_block
    head_on_disk = elim head_set.done [ inl off ↦ absurd (omega arith) | inr e ↦ e ]

    head_words : (head_block 0 ≡ s.n) × ((i : ℕ) → i < s.n → head_block (i + 1) ≡ s.block i)
    unfolding header
    head_words =
        (refl, λ i high. (let e : i + 1 - 1 ≡ i = omega arith in ground (arith, ap s.block e)))

    count : m2.disk s.start 0 ≡ s.n
    count = ap (λ (w : Block). w 0) head_on_disk ∙ head_words.0

    listed : (i : ℕ) → i < s.n → m2.disk s.start (i + 1) ≡ s.block i
    listed i high = ap (λ (w : Block). w (i + 1)) head_on_disk ∙ head_words.1 i high

    logged : (i : ℕ) → i < s.n → m2.disk (s.start + i + 1) ≡ new (s.block i)
    logged i high = elim written.done [
      | inl off ↦ absurd (omega arith)
      | inr all ↦
          head_set.other (s.start + i + 1) (λ e. omega arith) ∙ all i (omega arith) (omega arith)
    ]

    home_kept : (b : ℕ) → IsHome s.start s.size b → m2.disk b ≡ old b
    home_kept b home =
        head_set.other b (λ e. omega (arith, p.fits))
        ∙ written.disk_rest b
            (elim home [ inl below ↦ inl (omega arith) | inr above ↦ inr (omega (arith, p.fits)) ])

    -- after the header is written, the new contents are safe
    safe2 : IsSafe s.start s.size new m2.disk
    safe2 = record {
      fits = omega (arith, count, p.fits);
      homes = λ i high.
          (let less : i < s.n = omega (arith, count) in rw (listed i less) (p.homes i less));
      copies = λ i high.
          (let less : i < s.n = omega (arith, count) in
            logged i less ∙ ap new (sym (listed i less)));
      rest = λ b home. elim (p.clean b home) [
        | inl e ↦ inl (home_kept b home ∙ e)
        | inr (i, high, e) ↦ inr (i, omega (arith, count), listed i high ∙ e)
      ];
    }

    ready : IsReady s.start s.size s.block new s.n 0 m2
    ready = record {
      fits = omega (arith, p.fits);
      homes = λ i low high. p.homes i (omega arith);
      copies = λ i low high.
          (let there = head_set.cached (s.start + i + 1) in
            ground (arith, there, written.cached i));
    }

    installed : IsInstalled s.start s.size s.block new (m2.disk s.start 0) 0 m2 m3
    installed =
        subst (λ k. IsInstalled s.start s.size s.block new k 0 m2 m3) (sym count)
          (install_loop_lem s.start s.size s.block new false s.n 0 m2 ready)

    safe4 :
        IsSafe s.start s.size new m4.disk
        × ((m3.power ≡ 0) ⊎ (IsDone s.start s.size new m4.disk × (m4.disk s.start 0 ≡ 0)))
    unfolding header
    safe4 =
        let (safe3, fin) =
          install-IsSafe s.start s.size new s.block m2 m3 (omega (arith, p.fits)) safe2
            (λ i high. sym (listed i (omega (arith, count)))) installed in
        clear-IsSafe s.start s.size new clear_block m3 m4 (omega (arith, p.fits)) refl safe3 fin
          (set_and_write_lem s.start clear_block m3)

-- Wherever power fails during commit, the disk is safe for the contents before the transaction or
-- for those after it: recovery gives the home blocks as they all were on the disk, or as they all
-- were in the cache.
pub commit-IsSafe :
    (s : Log)
    → IsPending s
    → IsSafe s.start s.size s.buffers.disk (commit s).buffers.disk
      ⊎ IsSafe s.start s.size s.buffers.cache (commit s).buffers.disk
unfolding commit write_log write_head install_trans
commit-IsSafe s p =
    if_elim
      (λ (r : Log).
        IsSafe s.start s.size (old s p) r.buffers.disk
        ⊎ IsSafe s.start s.size (new s p) r.buffers.disk)
      (ltb 0 s.n)
      (λ _. elim (dec_lt 0 (m1 s p).power) [
        | yes on ↦ inr (safe4 s p on).0
        | no off ↦
            inl (
              subst (IsSafe s.start s.size (old s p)) (sym (off_safe s p (omega arith)))
                (safe1 s p))
      ])
      (λ _. inl (record {
        fits = omega (arith, p.empty, p.fits);
        homes = λ i high. absurd (omega (arith, p.empty));
        copies = λ i high. absurd (omega (arith, p.empty));
        rest = λ b home. inl refl;
      }))

-- Unless power fails, commit brings every home block on the disk to its contents in the cache and
-- leaves an empty log on the disk: 2 * n + 2 disk writes for n logged blocks are enough.
pub commit_complete :
    (s : Log)
    → IsPending s
    → 2 * s.n + 2 ≤ s.buffers.power
    → IsDone s.start s.size s.buffers.cache (commit s).buffers.disk
      × ((commit s).buffers.disk s.start 0 ≡ 0)
unfolding commit write_log write_head install_trans
commit_complete s p enough =
    if_elim
      (λ (r : Log). IsDone s.start s.size (new s p) r.buffers.disk × (r.buffers.disk s.start 0 ≡ 0))
      (ltb 0 s.n)
      (λ _.
        let on : 0 < (m1 s p).power = omega (arith, (written s p).spent) in
        elim (safe4 s p on).1 [
          | inl off ↦ absurd (
              omega (
                arith,
                (written s p).spent,
                (head_set s p on).spent,
                (installed s p on).spent,
                count s p on,
              ))
          | inr all ↦ all
        ])
      (λ empty. (
        λ b home. elim (p.clean b home) [ inl e ↦ e | inr (i, high, e) ↦ absurd (ground arith) ],
        p.empty,
      ))
