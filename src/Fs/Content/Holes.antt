-- ===== src/Fs/Content/Holes.antt =====
-- The blocks that a file has not (kernel/fs.c, `bmap` in the loops of `readi` and `writei`).
use io_scheduling.Prelude.{
  ℕ, ◌+◌, ◌-◌, ◌/◌, ◌%◌, ◌≤◌, ◌<◌, ◌≡◌, ◌≢◌, ◌∙◌, sym, ap, arith, ℕ_discrete,
}
use io_scheduling.Fs.{Fs, Addrs}
use io_scheduling.Fs.Content.{bsize}
use io_scheduling.Fs.Content.Count.{free_blocks, missing}
use io_scheduling.Fs.Content.Layout.{blocks, lookup, Grown}

-- the largest size of a file
abbrev pub span : ℕ
span = 274432

-- how many blocks the `left` bytes from `off` on lie in
abbrev pub touched : ℕ → ℕ → ℕ
touched off left = (off % bsize + left + bsize - 1) / bsize

-- The file has no block for one of the `left` bytes from `off` on, and fewer blocks are free than these
-- bytes lie in, or not more than that where the file has no indirect block.
unfoldable pub Short : ℕ → ℕ → Addrs → Fs → Type 0
Short off left addrs s =
    (free_blocks s < touched off left + missing addrs)
    × ((p : ℕ) × (off ≤ p) × (p < off + left) × (lookup addrs s (p / bsize) ≡ 0))

-- The file has block `bn`, for which at most one block and the indirect block were taken.
pub record Filled (bn : ℕ) (addrs : Addrs) (s : Fs) (addrs' : Addrs) (t : Fs) : Type 0 where
  pub here : lookup addrs' t bn ≢ 0
  pub holes : (cn : ℕ) → cn < blocks → lookup addrs' t cn ≡ 0 → lookup addrs s cn ≡ 0
  pub free : free_blocks s + missing addrs' ≤ free_blocks t + 1 + missing addrs

pub Grown-Filled :
    (bn b : ℕ) (addrs addrs' : Addrs) (s t : Fs)
    → Grown bn b addrs s addrs' t
    → Filled bn addrs s addrs' t
Grown-Filled bn b addrs addrs' s t g = record {
  here = λ z. g.there (sym g.here ∙ z);
  holes = λ cn l z. elim (ℕ_discrete cn bn) [
    | yes e ↦ absurd (g.there (sym g.here ∙ sym (ap (lookup addrs' t) e) ∙ z))
    | no ne ↦ sym (g.others cn l ne) ∙ z
  ];
  free = g.free;
}

-- the first block of the bytes is missing
pub Short-first :
    (off left : ℕ) (addrs : Addrs) (s : Fs)
    → 0 < left
    → free_blocks s < 1 + missing addrs
    → lookup addrs s (off / bsize) ≡ 0
    → Short off left addrs s
unfolding Short
Short-first off left addrs s more few hole = (omega arith, (off, omega arith, omega arith, hole))

-- a block of the rest of the bytes is missing, after a round for the first `m` of them
pub Short-later :
    (off left m bn : ℕ) (addrs a' : Addrs) (s u : Fs)
    → off + left ≤ span
    → m ≤ left
    → (m < left → off % bsize + m ≡ bsize)
    → Filled bn addrs s a' u
    → Short (off + m) (left - m) a' u
    → Short off left addrs s
unfolding Short
Short-later off left m bn addrs a' s u fits short edge f (few, (p, low, high, hole)) =
    let full = edge (omega arith) in
    let free = f.free in
    let one_less : touched (off + m) (left - m) + 1 ≤ touched off left = omega arith in
    (omega arith, (p, omega arith, omega arith, f.holes (p / bsize) (omega arith) hole))
