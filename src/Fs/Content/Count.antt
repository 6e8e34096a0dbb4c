-- ===== src/Fs/Content/Count.antt =====
-- How many blocks are free on the disk, for what `bmap` (kernel/fs.c) takes of them.
use io_scheduling.Prelude.{
  ℕ, ◌+◌, ◌<◌, ◌≡◌, ◌∙◌, ap, arith, Bool, true, update, ◌==◌, if◌then◌else◌, ℕ_discrete, total,
  total-ext, total-update, total_pos,
}
use io_scheduling.Fs.{Fs, Addrs, ndirect}
use io_scheduling.Fs.Bitmap.{is_used, Taken}

abbrev counted : Bool → ℕ
counted used = if used then 0 else 1

-- the number of the blocks that are free in the map
pub free_blocks : Fs → ℕ
free_blocks s = total counted 0 s.size (is_used s)

-- 1 where the file has no indirect block
abbrev pub missing : Addrs → ℕ
missing addrs = if addrs ndirect == 0 then 1 else 0

-- balloc takes one block.
pub free_blocks-Taken : (b : ℕ) (s t : Fs) → Taken b s t → free_blocks t + 1 ≡ free_blocks s
unfolding free_blocks
free_blocks-Taken b s t k =
    let same : total counted 0 s.size (is_used t)
        ≡ total counted 0 s.size (update (is_used s) b true) =
      total-ext counted 0 s.size (is_used t) (update (is_used s) b true)
        (λ i p q. ground (arith, k.used i)) in
    let one =
      total-update counted 0 s.size (is_used s) b true (omega arith) (omega (arith, k.inside)) in
    rw k.size (ground (arith, same, one, k.free))

-- no block is free where all are in use
pub free_blocks-all : (s : Fs) → ((a : ℕ) → a < s.size → is_used s a ≡ true) → free_blocks s ≡ 0
unfolding free_blocks
free_blocks-all s h = elim (ℕ_discrete (free_blocks s) 0) [
  | yes e ↦ e
  | no ne ↦
      (let (i, low, high, one) = total_pos counted 0 s.size (is_used s) (omega arith) in
        absurd (ground (arith, h i (omega (arith, high)), one)))
]

pub free_blocks_same :
    (t u : Fs)
    → ((a : ℕ) → is_used u a ≡ is_used t a)
    → u.size ≡ t.size
    → free_blocks u ≡ free_blocks t
unfolding free_blocks
free_blocks_same t u h e =
    total-ext counted 0 u.size (is_used u) (is_used t) (λ i p q. h i)
    ∙ ap (λ n. total counted 0 n (is_used t)) e
