-- ===== src/Fs/Content/Grow.antt =====
-- `bmap` (kernel/fs.c) on the blocks of one file.
use io_scheduling.Prelude.{
  ℕ, ◌+◌, ◌-◌, ◌≤◌, ◌<◌, ◌≡◌, ◌≢◌, ◌∙◌, sym, ap, subst, refl, arith, true, update, inl, inr,
  ℕ_discrete, dec_lt, Run, ok, stop, panic, ◌∷◌,
}
use io_scheduling.Fs.{Fs, Addrs, ndirect, bmap, load_indirect, map_indirect}
use io_scheduling.Fs.Bitmap.{is_used, balloc_cases}
use io_scheduling.Fs.Content.Count.{free_blocks, missing, free_blocks-all}
use io_scheduling.Fs.Content.Layout.{blocks, lookup, IsFile, Grown}
use io_scheduling.Fs.Content.Given.{Taken-ne, given-Grown, kept-Grown, Based, Based-Grown, new_base}

-- what bmap answers for block `bn` of a file
unfoldable pub Grows : ℕ → Addrs → Fs → Run (ℕ × Addrs × Fs) → Type 0
Grows bn addrs s (ok (b, addrs', t)) = Grown bn b addrs s addrs' t
Grows bn addrs s (stop e) =
    (e ≡ panic) × (free_blocks s < 1 + missing addrs) × (lookup addrs s bn ≡ 0)

no_room :
    (addrs : Addrs) (bn : ℕ) (s : Fs)
    → ((a : ℕ) → a < s.size → is_used s a ≡ true)
    → lookup addrs s bn ≡ 0
    → Grows bn addrs s (stop panic)
unfolding Grows
no_room addrs bn s full hole = let none_left = free_blocks-all s full in (refl, omega arith, hole)

direct-Grows :
    (addrs : Addrs) (bn : ℕ) (s : Fs)
    → IsFile addrs s
    → bn < ndirect
    → Grows bn addrs s (bmap addrs bn s)
unfolding bmap Grows lookup
direct-Grows addrs bn s f low = elim (ℕ_discrete (addrs bn) 0) [
  | no ne ↦
      (let here : lookup addrs s bn ≡ addrs bn = ground arith in
        let r : bmap addrs bn s ≡ ok (lookup addrs s bn, addrs, s) = ground arith in
        subst (Grows bn addrs s) (sym r)
          (kept-Grown bn addrs s f (omega arith) (λ z. ne (sym here ∙ z))))
  | yes e ↦ (elim (balloc_cases s) [
    | inr (g, full) ↦
        (let r : bmap addrs bn s ≡ stop panic = ground (arith, g) in
          subst (Grows bn addrs s) (sym r) (no_room addrs bn s full (ground (arith, e))))
    | inl (b, t, g, k) ↦
        (let r : bmap addrs bn s ≡ ok (b, update addrs bn b, t) = ground (arith, g) in
          subst (Grows bn addrs s) (sym r) (
            given-Grown bn b addrs (update addrs bn b) s t t f k (omega arith) (ground arith)
              (ground arith) (ground arith)
              (λ cn l ne.
                ground
                  (arith, k.others (addrs ndirect) (Taken-ne b (addrs ndirect) s t k f.indirect)))
              (λ a. refl) refl (λ a. refl)))
  ])
]

indirect-Grows :
    (addrs : Addrs) (bn : ℕ) (s : Fs)
    → IsFile addrs s
    → ndirect ≤ bn
    → bn < blocks
    → addrs ndirect ≢ 0
    → Grows bn addrs s (map_indirect (bn - ndirect) (addrs ndirect) addrs s)
unfolding map_indirect Grows lookup is_used
indirect-Grows addrs bn s f low high ne = elim (ℕ_discrete (lookup addrs s bn) 0) [
  | no there ↦
      (let r : map_indirect (bn - ndirect) (addrs ndirect) addrs s
            ≡ ok (lookup addrs s bn, addrs, s) =
          ground arith in
        subst (Grows bn addrs s) (sym r) (kept-Grown bn addrs s f high there))
  | yes e ↦ (elim (balloc_cases s) [
    | inr (g, full) ↦
        (let r : map_indirect (bn - ndirect) (addrs ndirect) addrs s ≡ stop panic =
            ground (arith, g) in
          subst (Grows bn addrs s) (sym r) (no_room addrs bn s full e))
    | inl (b, t, g, k) ↦
        (let i = bn - ndirect in
          let block = addrs ndirect in
          let u : Fs = record t {
            words = update t.words block (update (t.words block) i b);
            logged = block ∷ t.logged;
          } in
          let r : map_indirect i block addrs s ≡ ok (b, addrs, u) = ground (arith, g) in
          subst (Grows bn addrs s) (sym r) (
            given-Grown bn b addrs addrs s t u f k high refl (ground arith) e
              (λ cn l ne.
                (let w =
                    ap (λ h. h (cn - ndirect))
                      (k.others block (Taken-ne b block s t k f.indirect)) in
                  ground (arith, w)))
              (λ a. refl) refl (λ a. refl)))
  ])
]

Grows-Based :
    (bn : ℕ) (addrs a1 : Addrs) (s t : Fs) (r : Run (ℕ × Addrs × Fs))
    → IsFile addrs s
    → bn < blocks
    → Based addrs s a1 t
    → Grows bn a1 t r
    → Grows bn addrs s r
unfolding Grows
Grows-Based bn addrs a1 s t (ok (b, a2, u)) f low h g = Based-Grown bn b addrs a1 a2 s t u f low h g
Grows-Based bn addrs a1 s t (stop e) f low h (p, few, hole) =
    let now : missing a1 ≡ 0 = ground (arith, h.there) in
    let old : missing addrs ≡ 1 = ground (arith, h.before) in
    let one = h.free in (p, omega arith, sym (h.same bn low) ∙ hole)

-- bmap on a file: it gives the file's block, or adds a zeroed one, and the bytes of the file stay; or
-- it panics, for a block that the file has not, because no block is free, or only one where the file
-- has no indirect block either.
pub bmap-Grows :
    (addrs : Addrs) (bn : ℕ) (s : Fs)
    → IsFile addrs s
    → bn < blocks
    → Grows bn addrs s (bmap addrs bn s)
unfolding bmap load_indirect Grows lookup
bmap-Grows addrs bn s f low = elim (dec_lt bn ndirect) [
  | yes direct ↦ direct-Grows addrs bn s f direct
  | no more ↦ (elim (ℕ_discrete (addrs ndirect) 0) [
    | no ne ↦
        (let r : bmap addrs bn s ≡ map_indirect (bn - ndirect) (addrs ndirect) addrs s =
            ground arith in
          subst (Grows bn addrs s) (sym r) (indirect-Grows addrs bn s f (omega arith) low ne))
    | yes e ↦ (elim (balloc_cases s) [
      | inr (g, full) ↦
          (let r : bmap addrs bn s ≡ stop panic = ground (arith, g) in
            subst (Grows bn addrs s) (sym r) (no_room addrs bn s full (ground (arith, e))))
      | inl (b, t, g, k) ↦
          (let a1 : Addrs = update addrs ndirect b in
            let base = new_base b addrs s t f e k in
            let r : bmap addrs bn s ≡ map_indirect (bn - ndirect) b a1 t = ground (arith, g) in
            subst (Grows bn addrs s) (sym r) (
              Grows-Based bn addrs a1 s t (map_indirect (bn - ndirect) b a1 t) f low base
                (indirect-Grows a1 bn t base.file (omega arith) low base.there)))
    ])
  ])
]
