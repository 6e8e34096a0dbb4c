-- ===== src/Fs/Bmap.antt =====
-- `bmap` (kernel/fs.c).
use io_scheduling.Prelude.{
  ℕ, ◌+◌, ◌-◌, ◌≤◌, ◌<◌, ◌≡◌, ◌≢◌, ◌∙◌, sym, subst, refl, arith, true, false, update, ◌⊎◌, inl, inr,
  ℕ_discrete, dec_lt, Run, ok, stop, panic, ◌∷◌,
}
use io_scheduling.Fs.{Fs, Addrs, ndirect, nindirect, bmap, load_indirect, map_indirect}
use io_scheduling.Fs.Bitmap.{is_used, Taken, balloc_cases}

-- Fewer than two blocks are free.
pub IsFull : Fs → Type 0
IsFull s = (a b : ℕ) → a < s.size → b < s.size → is_used s a ≡ false → is_used s b ≡ false → a ≡ b

-- what bmap answers for block `bn` of a file
pub Mapped : ℕ → Fs → Run (ℕ × Addrs × Fs) → Type 0
Mapped bn s (ok (a, addrs, t)) =
    (a ≢ 0) × (bn < ndirect + nindirect) × (bmap addrs bn t ≡ ok (a, addrs, t))
Mapped bn s (stop e) = (e ≡ panic) × ((ndirect + nindirect ≤ bn) ⊎ IsFull s)

settled_direct :
    (addrs : Addrs) (bn : ℕ) (s : Fs)
    → bn < ndirect
    → addrs bn ≢ 0
    → bmap addrs bn s ≡ ok (addrs bn, addrs, s)
unfolding bmap
settled_direct addrs bn s low ne = ground arith

settled_indirect :
    (addrs : Addrs) (bn : ℕ) (s : Fs)
    → ndirect ≤ bn
    → bn < ndirect + nindirect
    → addrs ndirect ≢ 0
    → s.words (addrs ndirect) (bn - ndirect) ≢ 0
    → bmap addrs bn s ≡ ok (s.words (addrs ndirect) (bn - ndirect), addrs, s)
unfolding bmap load_indirect map_indirect
settled_indirect addrs bn s low high ne ne' = ground arith

-- where balloc fails
pub IsFull-all : (s : Fs) → ((a : ℕ) → a < s.size → is_used s a ≡ true) → IsFull s
unfolding IsFull
IsFull-all s all = λ a b f g e e'. absurd (ground (arith, all a f))

IsFull-Taken :
    (b : ℕ) (s t : Fs)
    → Taken b s t
    → t.size ≡ s.size
    → ((a : ℕ) → a < t.size → is_used t a ≡ true)
    → IsFull s
unfolding IsFull
IsFull-Taken b s t h z all = λ a c f g e e'.
    let x : a ≡ b = ground (arith, h.used a, all a (omega arith)) in
    let y : c ≡ b = ground (arith, h.used c, all c (omega arith)) in x ∙ sym y

direct_lem :
    (addrs : Addrs) (bn : ℕ) (s : Fs)
    → is_used s 0 ≡ true
    → bn < ndirect
    → Mapped bn s (bmap addrs bn s)
unfolding bmap Mapped
direct_lem addrs bn s boot low = elim (ℕ_discrete (addrs bn) 0) [
  | no ne ↦
      rw (settled_direct addrs bn s low ne) (ne, omega arith, settled_direct addrs bn s low ne)
  | yes e ↦ (elim (balloc_cases s) [
    | inr (f, all) ↦
        (let r : bmap addrs bn s ≡ stop panic = ground (arith, f) in
          subst (Mapped bn s) (sym r) (refl, inr (IsFull-all s all)))
    | inl (b, t, f, h) ↦
        (let r : bmap addrs bn s ≡ ok (b, update addrs bn b, t) = ground (arith, f) in
          let ne : b ≢ 0 = λ z. absurd (ground (arith, h.free)) in
          let again : bmap (update addrs bn b) bn t ≡ ok (b, update addrs bn b, t) = ground arith in
          subst (Mapped bn s) (sym r) (ne, omega arith, again))
  ])
]

map_indirect_lem :
    (addrs : Addrs) (bn block : ℕ) (s t : Fs)
    → ndirect ≤ bn
    → bn < ndirect + nindirect
    → addrs ndirect ≡ block
    → block ≢ 0
    → is_used t 0 ≡ true
    → (((a : ℕ) → a < t.size → is_used t a ≡ true) → IsFull s)
    → Mapped bn s (map_indirect (bn - ndirect) block addrs t)
unfolding map_indirect Mapped
map_indirect_lem addrs bn block s t low high e nb boot full =
    elim (ℕ_discrete (t.words block (bn - ndirect)) 0) [
      | no ne ↦
          (let r : map_indirect (bn - ndirect) block addrs t
                ≡ ok (t.words block (bn - ndirect), addrs, t) =
              ground arith in
            let again : bmap addrs bn t ≡ ok (t.words block (bn - ndirect), addrs, t) =
              ground (arith, settled_indirect addrs bn t low high) in
            subst (Mapped bn s) (sym r) (ne, high, again))
      | yes z ↦ (elim (balloc_cases t) [
        | inr (f, all) ↦
            (let r : map_indirect (bn - ndirect) block addrs t ≡ stop panic = ground (arith, f) in
              subst (Mapped bn s) (sym r) (refl, inr (full all)))
        | inl (b, u, f, h) ↦
            (let v : Fs = record u {
              words = update u.words block (update (u.words block) (bn - ndirect) b);
              logged = block ∷ u.logged;
            } in
              let r : map_indirect (bn - ndirect) block addrs t ≡ ok (b, addrs, v) =
                ground (arith, f) in
              let ne : b ≢ 0 = λ z. absurd (ground (arith, h.free)) in
              let again : bmap addrs bn v ≡ ok (b, addrs, v) =
                ground (arith, settled_indirect addrs bn v low high) in
              subst (Mapped bn s) (sym r) (ne, high, again))
      ])
    ]

-- Where the boot block 0 is marked as used, bmap gives a block other than 0 for every block number of
-- a file, and gives the same one from then on without changing anything; it panics only for block
-- numbers from 268 on, or where fewer than two blocks are free.
pub bmap_correct :
    (addrs : Addrs) (bn : ℕ) (s : Fs) → is_used s 0 ≡ true → Mapped bn s (bmap addrs bn s)
unfolding bmap Mapped load_indirect
bmap_correct addrs bn s boot = elim (dec_lt bn ndirect) [
  | yes low ↦ direct_lem addrs bn s boot low
  | no more ↦ (elim (dec_lt bn (ndirect + nindirect)) [
    | no out ↦
        (let r : bmap addrs bn s ≡ stop panic = ground arith in
          subst (Mapped bn s) (sym r) (refl, inl (omega arith)))
    | yes high ↦ (elim (ℕ_discrete (addrs ndirect) 0) [
      | no ne ↦
          (let r : bmap addrs bn s ≡ map_indirect (bn - ndirect) (addrs ndirect) addrs s =
              ground arith in
            subst (Mapped bn s) (sym r) (
              map_indirect_lem addrs bn (addrs ndirect) s s (omega arith) high refl ne boot
                (IsFull-all s)))
      | yes z ↦ (elim (balloc_cases s) [
        | inr (f, all) ↦
            (let r : bmap addrs bn s ≡ stop panic = ground (arith, f) in
              subst (Mapped bn s) (sym r) (refl, inr (IsFull-all s all)))
        | inl (b, t, f, h) ↦
            (let addrs' : Addrs = update addrs ndirect b in
              let r : bmap addrs bn s ≡ map_indirect (bn - ndirect) b addrs' t =
                ground (arith, f) in
              let ne : b ≢ 0 = λ z. absurd (ground (arith, h.free)) in
              subst (Mapped bn s) (sym r) (
                map_indirect_lem addrs' bn b s t (omega arith) high refl ne
                  (ground (arith, h.used 0)) (IsFull-Taken b s t h h.size)))
      ])
    ])
  ])
]
