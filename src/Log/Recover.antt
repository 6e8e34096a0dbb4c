-- ===== src/Log/Recover.antt =====
-- `initlog` and `recover_from_log` of kernel/log.c.
use io_scheduling.Prelude.{
  ℕ, ◌+◌, ◌≤◌, ◌<◌, ◌≡◌, ◌⊎◌, ◌∙◌, sym, ap, inl, inr, refl, arith, dec_lt, ltb, true, if◌then◌else◌,
}
use mathlib.Core.Path.{subst}
use io_scheduling.Log.{
  Block, Buffers, Log, set_and_write, install_loop, install_trans, header, read_head, write_head,
  recover_from_log, initlog,
}
use io_scheduling.Log.Safe.{IsHome, IsLogged, IsSafe}
use io_scheduling.Log.Write.{IsUpdated, set_and_write_lem}
use io_scheduling.Log.Install.{IsReady, IsInstalled, install_loop_lem}

module _ (start size : ℕ) (t : ℕ → Block) where
  -- all home blocks have the contents `t`
  abbrev pub IsDone : (ℕ → Block) → Type 0
  IsDone d = (b : ℕ) → IsHome start size b → d b ≡ t b

  -- `block` is the list of the header on the disk
  abbrev pub Lists : (ℕ → ℕ) → (ℕ → Block) → Type 0
  Lists block d = (i : ℕ) → i < d start 0 → block i ≡ d start (i + 1)

  IsLogged-ext :
      (d d' : ℕ → Block)
      → d' start ≡ d start
      → (b : ℕ) → IsLogged start size d b
      → IsLogged start size d' b
  IsLogged-ext d d' e b (i, high, f) = (i, rw e high, ap (λ (w : Block). w (i + 1)) e ∙ f)

  pub install-IsSafe :
      (block : ℕ → ℕ) (m m' : Buffers)
      → 0 < size
      → IsSafe start size t m.disk
      → Lists block m.disk
      → IsInstalled start size block t (m.disk start 0) 0 m m'
      → IsSafe start size t m'.disk × ((m'.power ≡ 0) ⊎ IsDone m'.disk)
  install-IsSafe block m m' pos_size s lists w = (
    record {
      fits = rw same s.fits;
      homes = λ i high. rw same (s.homes i (rw same at high));
      copies = λ i high.
          (let less : i < m.disk start 0 = rw same at high in
            w.log_disk (start + i + 1) (omega arith) (omega (arith, s.fits))
            ∙ s.copies i less
            ∙ ap (λ (v : Block). t (v (i + 1))) (sym same));
      rest = λ b home. elim (w.rest b) [
        | inr (e, listed) ↦ inl e
        | inl e ↦ elim (s.rest b home) [
          | inl f ↦ inl (e ∙ f)
          | inr l ↦ inr (IsLogged-ext m.disk m'.disk same b l)
        ]
      ];
    },
    elim w.done [
      | inl off ↦ inl off
      | inr all ↦ inr (λ b home. elim (w.rest b) [
        | inr (e, listed) ↦ e
        | inl e ↦ elim (s.rest b home) [
          | inl f ↦ e ∙ f
          | inr (i, high, f) ↦
              (let g : block i ≡ b = lists i high ∙ f in
                rw g at (all i (omega arith) (omega arith)))
        ]
      ])
    ],
  )
    where
      same : m'.disk start ≡ m.disk start
      same = w.log_disk start (omega arith) (omega arith)

  -- the header is cleared when the blocks are at home
  pub clear-IsSafe :
      (h : Block) (m m' : Buffers)
      → 0 < size
      → h 0 ≡ 0
      → IsSafe start size t m.disk
      → (m.power ≡ 0) ⊎ IsDone m.disk
      → IsUpdated start h m m'
      → IsSafe start size t m'.disk × ((m.power ≡ 0) ⊎ (IsDone m'.disk × (m'.disk start 0 ≡ 0)))
  clear-IsSafe h m m' pos_size zero_head s fin c = elim (dec_lt 0 m.power) [
    | no off ↦ elim c.dead [
      | inl on ↦ absurd (on (omega arith))
      | inr e ↦ (subst (IsSafe start size t) (sym e) s, inl (omega arith))
    ]
    | yes on ↦ elim fin [
      | inl off ↦ absurd (omega arith)
      | inr all ↦ elim c.done [
        | inl off ↦ absurd (omega arith)
        | inr e ↦
            (let none_left : m'.disk start 0 ≡ 0 = ap (λ (w : Block). w 0) e ∙ zero_head in
              let home : IsDone m'.disk = λ b home. ground (arith, c.other b, all b home) in
              (
                record {
                  fits = rw none_left pos_size;
                  homes = λ i high. absurd (omega arith);
                  copies = λ i high. absurd (omega arith);
                  rest = λ b p. inl (home b p);
                },
                inr (home, none_left),
              ))
      ]
    ]
  ]

-- Recovery after a reboot: from a disk that is safe for the contents `t` the disk is safe for them
-- afterwards, wherever power fails on the way; and unless it fails before the last write, every
-- block outside the log has these contents and the log is empty.
pub initlog_correct :
    (start size : ℕ) (t : ℕ → Block) (s : Log)
    → 0 < size
    → IsSafe start size t s.buffers.disk
    → let m = s.buffers in
      let m' = (initlog start size s).buffers in
      IsSafe start size t m'.disk
      × ((m.power ≤ m.disk start 0) ⊎ (IsDone start size t m'.disk × (m'.disk start 0 ≡ 0)))
unfolding initlog recover_from_log install_trans read_head write_head header
initlog_correct start size t s pos_size safe =
    let d = s.buffers.disk in
    let n = d start 0 in
    let m = record s.buffers { cache = d } in
    let block : ℕ → ℕ = λ i. if ltb i n then d start (i + 1) else s.block i in
    let ready : IsReady start size block t n 0 m = record {
      fits = omega (arith, safe.fits);
      homes = λ i low high. ground (arith, safe.homes i);
      copies = λ i low high. ground (arith, safe.copies i);
    } in
    let w = install_loop_lem start size block t true n 0 m ready in
    let m1 = install_loop start block true n 0 m in
    let (safe1, fin) =
      install-IsSafe start size t block m m1 pos_size safe (λ i high. ground arith) w in
    let h = header 0 block (m1.cache start) in
    let (safe2, fin2) =
      clear-IsSafe start size t h m1 (set_and_write start h m1) pos_size refl safe1 fin
        (set_and_write_lem start h m1) in
    (safe2, elim fin2 [ inl off ↦ inl (omega (arith, w.spent)) | inr all ↦ inr all ])
