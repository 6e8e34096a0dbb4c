-- ===== src/Fs/Content/Layout.antt =====
-- The blocks of a file (kernel/fs.c): which ones they are, and what keeps two files apart.
use io_scheduling.Prelude.{
  ℕ, ◌+◌, ◌-◌, ◌≤◌, ◌<◌, ◌≡◌, ◌≢◌, ap, arith, true, ltb, ◌==◌, if◌then◌else◌, ◌⊎◌, inl, inr,
  ℕ_discrete,
}
use io_scheduling.Fs.{Fs, Addrs, ndirect}
use io_scheduling.Fs.Bitmap.{is_used}
use io_scheduling.Fs.Content.Count.{free_blocks, missing}

abbrev pub blocks : ℕ
blocks = 268

-- the disk block of block `bn` of a file, 0 for none
unfoldable pub lookup : Addrs → Fs → ℕ → ℕ
lookup addrs s bn =
    if ltb bn ndirect
    then addrs bn
    else if addrs ndirect == 0
    then 0
    else s.words (addrs ndirect) (bn - ndirect)

pub lookup_direct : (addrs : Addrs) (s : Fs) (bn : ℕ) → bn < ndirect → lookup addrs s bn ≡ addrs bn
unfolding lookup
lookup_direct addrs s bn l = ground arith

pub lookup_indirect :
    (addrs : Addrs) (s : Fs) (j : ℕ)
    → addrs ndirect ≢ 0
    → lookup addrs s (ndirect + j) ≡ s.words (addrs ndirect) j
unfolding lookup
lookup_indirect addrs s j ne =
    let place : ndirect + j - ndirect ≡ j = omega arith in
    ground (arith, ap (s.words (addrs ndirect)) place)

-- A file's blocks are in use and different, and the indirect block is another one.
pub record IsFile (addrs : Addrs) (s : Fs) : Type 0 where
  pub boot : is_used s 0 ≡ true
  pub used : (bn : ℕ) → bn < blocks → is_used s (lookup addrs s bn) ≡ true
  pub indirect : is_used s (addrs ndirect) ≡ true
  pub apart : (bn : ℕ) → bn < blocks → lookup addrs s bn ≢ 0 → lookup addrs s bn ≢ addrs ndirect
  pub distinct :
      (bn cn : ℕ)
      → bn < blocks
      → cn < blocks
      → lookup addrs s bn ≢ 0
      → lookup addrs s bn ≡ lookup addrs s cn
      → bn ≡ cn

-- byte `j` of block `bn` of a file; what is not there reads as 0
unfoldable pub byte : Addrs → Fs → ℕ → ℕ → ℕ
byte addrs s bn j = if lookup addrs s bn == 0 then 0 else s.bytes (lookup addrs s bn) j

-- what is used in `s` is used in `t`
pub record Extends (s t : Fs) : Type 0 where
  pub size : t.size ≡ s.size
  pub used : (a : ℕ) → is_used s a ≡ true → is_used t a ≡ true

-- Block `b` has come to be block `bn` of the file, or has been before; all else of it is as it was.
pub record Grown (bn b : ℕ) (addrs : Addrs) (s : Fs) (addrs' : Addrs) (t : Fs) : Type 0 where
  pub file : IsFile addrs' t
  pub here : lookup addrs' t bn ≡ b
  pub there : b ≢ 0
  pub others : (cn : ℕ) → cn < blocks → cn ≢ bn → lookup addrs' t cn ≡ lookup addrs s cn
  pub blank : (lookup addrs s bn ≡ b) ⊎ ((lookup addrs s bn ≡ 0) × ((j : ℕ) → t.bytes b j ≡ 0))
  pub bytes : (a : ℕ) → is_used s a ≡ true → t.bytes a ≡ s.bytes a
  pub extends : Extends s t
  pub free : free_blocks s + missing addrs' ≤ free_blocks t + 1 + missing addrs

pub byte-here :
    (bn b : ℕ) (addrs addrs' : Addrs) (s t : Fs) (j : ℕ)
    → Grown bn b addrs s addrs' t
    → byte addrs' t bn j ≡ t.bytes b j
unfolding byte
byte-here bn b addrs addrs' s t j g = ground (arith, g.here, g.there)

-- the bytes of the file stay
pub byte-Grown :
    (bn b : ℕ) (addrs addrs' : Addrs) (s t : Fs) (cn j : ℕ)
    → IsFile addrs s
    → Grown bn b addrs s addrs' t
    → cn < blocks
    → byte addrs' t cn j ≡ byte addrs s cn j
unfolding byte
byte-Grown bn b addrs addrs' s t cn j f g low = elim (ℕ_discrete cn bn) [
  | no ne ↦
      (let e = g.others cn low ne in
        let u = ap (λ h. h j) (g.bytes (lookup addrs s cn) (f.used cn low)) in ground (arith, e, u))
  | yes e ↦ rw e (elim g.blank [
    | inl same ↦
        (let u = ap (λ h. h j) (g.bytes (lookup addrs s bn) (f.used bn (omega arith))) in
          ground (arith, same, g.here, u))
    | inr (none, zeros) ↦ ground (arith, none, g.here, zeros j)
  ])
]
