-- ===== src/Prelude/Array.antt =====
-- C arrays as functions of the index, with their accesses checked against a length. A sum over an
-- array compares two arrays as multisets.
use Prim.Native.Nat.{ℕ, zero, suc, ◌+◌, ◌≤◌, ◌<◌}
use mathlib.Core.Path.{◌≡◌, refl}
use native.Mathlib.Decide.{dec_lt}
use native.Mathlib.Omega.{arith}
use io_scheduling.Prelude.Tests.{ltb, ◌==◌, if◌then◌else◌}
use io_scheduling.Prelude.Outcome.{Run, ok, stop, fault}

module _ {ℓ} {A : Type ℓ} where
  abbrev pub update : (ℕ → A) → ℕ → A → ℕ → A
  update a i v j = if i == j then v else a j

  -- `a[i]` and `a[i] = v` of an array of `n` items
  abbrev pub load : ℕ → (ℕ → A) → ℕ → Run A
  load n a i = if ltb i n then ok (a i) else stop fault

  abbrev pub store : ℕ → (ℕ → A) → ℕ → A → Run (ℕ → A)
  store n a i v = if ltb i n then ok (update a i v) else stop fault

  module _ (w : A → ℕ) where
    -- the weights of `a[lo]`, ..., `a[lo + n - 1]`, added up
    pub total : ℕ → ℕ → (ℕ → A) → ℕ
    total lo zero a = 0
    total lo (suc n) a = total lo n a + w (a (lo + n))

    pub total-ext :
        (lo n : ℕ) (a b : ℕ → A)
        → ((i : ℕ) → lo ≤ i → i < lo + n → a i ≡ b i)
        → total lo n a ≡ total lo n b
    unfolding total
    total-ext lo zero a b h = refl
    total-ext lo (suc n) a b h = ground (
      arith,
      total-ext lo n a b (λ i p q. h i p (omega arith)),
      h (lo + n) (omega arith) (omega arith),
    )

    pub total-update_outside :
        (lo n : ℕ) (a : ℕ → A) (i : ℕ) (v : A)
        → lo + n ≤ i
        → total lo n (update a i v) ≡ total lo n a
    unfolding total
    total-update_outside lo zero a i v h = refl
    total-update_outside lo (suc n) a i v h = ground (arith, total-update_outside lo n a i v)

    pub total-update :
        (lo n : ℕ) (a : ℕ → A) (i : ℕ) (v : A)
        → lo ≤ i
        → i < lo + n
        → total lo n (update a i v) + w (a i) ≡ total lo n a + w v
    unfolding total
    total-update lo zero a i v h p = absurd (omega arith)
    total-update lo (suc n) a i v h p = elim (dec_lt i (lo + n)) [
      | yes below ↦ ground (arith, total-update lo n a i v h below)
      | no last ↦ ground (arith, total-update_outside lo n a i v)
    ]

    pub total_push :
        (lo n : ℕ) (a : ℕ → A) (i : ℕ) (v : A)
        → i ≡ lo + n
        → total lo (n + 1) (update a i v) ≡ total lo n a + w v
    unfolding total
    total_push lo n a i v h =
        let e : n + 1 ≡ suc n = omega arith in
        rw e (ground (arith, total-update_outside lo n a i v))

    pub total_zero : (lo : ℕ) (a : ℕ → A) → total lo 0 a ≡ 0
    unfolding total
    total_zero lo a = refl

    pub total_last :
        (lo n : ℕ) (a : ℕ → A) (i : ℕ) → i ≡ lo + n → total lo (n + 1) a ≡ total lo n a + w (a i)
    unfolding total
    total_last lo n a i h = let e : n + 1 ≡ suc n = omega arith in rw (e, h)

    pub total-swap :
        (lo n : ℕ) (a : ℕ → A) (i j : ℕ)
        → lo ≤ i
        → i < lo + n
        → lo ≤ j
        → j < lo + n
        → total lo n (update (update a i (a j)) j (a i)) ≡ total lo n a
    total-swap lo n a i j p q r s =
        ground
          (arith, total-update lo n (update a i (a j)) j (a i) r s, total-update lo n a i (a j) p q)

    pub total-shift :
        (lo n : ℕ) (a : ℕ → A) → total lo (suc n) a ≡ w (a lo) + total lo n (λ j. a (j + 1))
    unfolding total
    total-shift lo zero a = let e : lo + 0 ≡ lo = omega arith in rw e (omega arith)
    total-shift lo (suc n) a =
        let e : lo + suc n ≡ lo + n + 1 = omega arith in ground (arith, e, total-shift lo n a)

    pub total_first :
        (lo n : ℕ) (a : ℕ → A) → total lo (n + 1) a ≡ w (a lo) + total lo n (λ j. a (j + 1))
    total_first lo n a = let e : n + 1 ≡ suc n = omega arith in rw e (total-shift lo n a)

    pub le-total : (lo n : ℕ) (a : ℕ → A) (i : ℕ) → lo ≤ i → i < lo + n → w (a i) ≤ total lo n a
    unfolding total
    le-total lo zero a i p q = absurd (omega arith)
    le-total lo (suc n) a i p q = elim (dec_lt i (lo + n)) [
      | yes below ↦ omega (arith, le-total lo n a i p below)
      | no last ↦ (let e : i ≡ lo + n = omega arith in rw e (omega arith))
    ]

    -- a sum that is not 0 has a part that is not
    pub total_pos :
        (lo n : ℕ) (a : ℕ → A)
        → 0 < total lo n a
        → (i : ℕ) × (lo ≤ i) × (i < lo + n) × (0 < w (a i))
    unfolding total
    total_pos lo zero a h = absurd (omega arith)
    total_pos lo (suc n) a h = elim (dec_lt 0 (total lo n a)) [
      | yes p ↦ (let (i, low, high, q) = total_pos lo n a p in (i, low, omega arith, q))
      | no p ↦ (lo + n, omega arith, omega arith, omega arith)
    ]

-- `a[lo .. lo + n)` and `b[lo' .. lo' + n')` hold the same items, each as often: every weighting of
-- the items gives the same sum.
abbrev pub SameItems {ℓ} : {A : Type ℓ} → ℕ → ℕ → (ℕ → A) → ℕ → ℕ → (ℕ → A) → Type ℓ
SameItems {A} lo n a lo' n' b = (w : A → ℕ) → total w lo n a ≡ total w lo' n' b
