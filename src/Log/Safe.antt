-- ===== src/Log/Safe.antt =====
-- What a disk holds for certain: the contents that recovery of kernel/log.c goes by.
use io_scheduling.Prelude.{ℕ, ◌+◌, ◌≤◌, ◌<◌, ◌≡◌, ◌⊎◌}
use io_scheduling.Log.{Block}

module _ (start size : ℕ) where
  -- blocks outside the log
  abbrev pub IsHome : ℕ → Type 0
  IsHome b = (b < start) ⊎ (start + size ≤ b)

  -- the header on the disk `d` lists block `b`
  abbrev pub IsLogged : (ℕ → Block) → ℕ → Type 0
  IsLogged d b = (i : ℕ) × (i < d start 0) × (d start (i + 1) ≡ b)

  -- Recovery of the disk `d` gives the contents `t`: the log holds them for the blocks that its
  -- header lists, and all other blocks have them already.
  pub record IsSafe (t d : ℕ → Block) : Type 0 where
    pub fits : d start 0 < size
    pub homes : (i : ℕ) → i < d start 0 → IsHome (d start (i + 1))
    pub copies : (i : ℕ) → i < d start 0 → d (start + i + 1) ≡ t (d start (i + 1))
    pub rest : (b : ℕ) → IsHome b → (d b ≡ t b) ⊎ IsLogged d b
