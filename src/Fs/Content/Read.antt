-- ===== src/Fs/Content/Read.antt =====
-- `readi` (kernel/fs.c) on the bytes of a file.
use io_scheduling.Prelude.{
  ℕ, zero, suc, ◌+◌, ◌-◌, ◌/◌, ◌%◌, ◌≤◌, ◌<◌, ◌≡◌, ◌∙◌, sym, ap, subst, refl, arith, Bool, true,
  ltb, leb, ◌&&◌, if◌then◌else◌, update, dec_lt, Run, ok, stop, panic, ◌>>=◌, some,
}
use io_scheduling.Fs.{Fs, Addrs, bmap}
use io_scheduling.Fs.Content.{bsize, min, copy_out, ReadOut, read_step, read_loop}
use io_scheduling.Fs.Content.Layout.{blocks, lookup, byte, IsFile, Extends, byte-Grown, byte-here}
use io_scheduling.Fs.Content.Holes.{span, Short, Short-first, Short-later, Filled, Grown-Filled}
use io_scheduling.Fs.Content.Given.{Extends-trans}
use io_scheduling.Fs.Content.Grow.{Grows, bmap-Grows}
use io_scheduling.Fs.Content.Write.{at}

-- `got` with `n` bytes at `i`, which are the bytes of `from` that start at `d`
abbrev pub received : ℕ → ℕ → ℕ → (ℕ → ℕ) → (ℕ → ℕ) → ℕ → ℕ
received i n d from got p = if leb i p && ltb p (i + n) then from (d + (p - i)) else got p

copy_out_lem :
    (mapped : ℕ → Bool) (m i d : ℕ) (block got : ℕ → ℕ)
    → ((j : ℕ) → j < m → mapped (i + j) ≡ true)
    → ((copy_out mapped m i d block got).0 ≡ true)
      × ((p : ℕ) → (copy_out mapped m i d block got).1 p ≡ received i m d block got p)
unfolding copy_out
copy_out_lem mapped zero i d block got all = (refl, λ p. ground arith)
copy_out_lem mapped (suc m) i d block got all =
    let first : mapped i ≡ true = ground (arith, all 0 (omega arith)) in
    let (good, same) =
      copy_out_lem mapped m (i + 1) (d + 1) block (update got i (block d))
        (λ j l. ground (arith, all (j + 1) (omega arith))) in
    rw first (
      good,
      λ p. same p ∙ elim (dec_lt i p) [
        | yes l ↦
            (let place : d + 1 + (p - (i + 1)) ≡ d + (p - i) = omega arith in
              ground (arith, ap block place))
        | no n ↦ (let place : d + (p - i) ≡ d = omega arith in ground (arith, ap block place))
      ],
    )

-- what the loop answers that has `left` bytes still to read from `off` on
unfoldable pub Got : ℕ → ℕ → ℕ → (ℕ → ℕ) → Addrs → Fs → Run ReadOut → Type 0
Got tot off left got addrs s (ok (r, got', a', t)) =
    (r ≡ some (tot + left))
    × ((i : ℕ) → got' i ≡ received tot left off (at addrs s) got i)
    × IsFile a' t
    × Extends s t
    × ((p : ℕ) → p < span → at a' t p ≡ at addrs s p)
    × ((cn : ℕ) → cn < blocks → lookup a' t cn ≡ 0 → lookup addrs s cn ≡ 0)
Got tot off left got addrs s (stop e) = (e ≡ panic) × Short off left addrs s

Got-none :
    (tot off left : ℕ) (got : ℕ → ℕ) (addrs : Addrs) (s : Fs)
    → IsFile addrs s
    → left ≡ 0
    → Got tot off left got addrs s (ok (some tot, got, addrs, s))
unfolding Got
Got-none tot off left got addrs s f e = (
  ap some (omega arith),
  λ i. ground arith,
  f,
  record { size = refl; used = λ a u. u },
  λ p l. refl,
  λ cn l z. z,
)

-- one round of the loop, and what the rounds after it give
module _ (tot off left m : ℕ) (got now : ℕ → ℕ) (addrs : Addrs) (s : Fs) (a' : Addrs) (u : Fs)
    (short : m ≤ left) (fits : off + left ≤ span) (edge : m < left → off % bsize + m ≡ bsize)
    (ext : Extends s u) (filled : Filled (off / bsize) addrs s a' u)
    (same : (p : ℕ) → p < span → at a' u p ≡ at addrs s p)
    (read : (i : ℕ) → now i ≡ received tot m off (at addrs s) got i) where
  received_round :
      (i : ℕ)
      → now i ≡ received tot m off (at addrs s) got i
      → received (tot + m) (left - m) (off + m) (at a' u) now i
        ≡ received tot left off (at addrs s) got i
  received_round i now_i = elim (dec_lt i (tot + m)) [
    | yes l ↦ ground (arith, now_i)
    | no n ↦ (elim (dec_lt i (tot + left)) [
      | no over ↦ ground (arith, now_i)
      | yes l ↦
          (let place : off + m + (i - (tot + m)) ≡ off + (i - tot) = omega arith in
            let here : at a' u (off + m + (i - (tot + m))) ≡ at addrs s (off + (i - tot)) =
              ap (at a' u) place ∙ same (off + (i - tot)) (omega arith) in
            ground (arith, here))
    ])
  ]

  Got-round :
      (r : Run ReadOut)
      → Got (tot + m) (off + m) (left - m) now a' u r
      → Got tot off left got addrs s r
  unfolding Got
  Got-round (stop e) (p, h) =
      (p, Short-later off left m (off / bsize) addrs a' s u fits short edge filled h)
  Got-round (ok (r, got', a2, t)) (x, h, file, ext', k, holes) = (
    x ∙ ap some (omega arith),
    λ i. h i ∙ received_round i (read i),
    file,
    Extends-trans s u t ext ext',
    λ p l. k p l ∙ same p l,
    λ cn l z. filled.holes cn l (holes cn l z),
  )

-- the bytes of the file that come from one of its blocks
in_block :
    (off m tot b : ℕ) (got : ℕ → ℕ) (addrs a' : Addrs) (s t : Fs) (i : ℕ)
    → off % bsize + m ≤ bsize
    → ((j : ℕ) → t.bytes b j ≡ byte addrs s (off / bsize) j)
    → received tot m (off % bsize) (t.bytes b) got i ≡ received tot m off (at addrs s) got i
in_block off m tot b got addrs a' s t i inside h = elim (dec_lt i tot) [
  | yes l ↦ ground arith
  | no n ↦ (elim (dec_lt i (tot + m)) [
    | no over ↦ ground arith
    | yes l ↦
        (let q = off + (i - tot) in
          let block : q / bsize ≡ off / bsize = omega arith in
          let place : q % bsize ≡ off % bsize + (i - tot) = omega arith in
          let here : t.bytes b (off % bsize + (i - tot)) ≡ at addrs s q =
            ap (t.bytes b) (sym place)
            ∙ h (q % bsize)
            ∙ ap (λ x. byte addrs s x (q % bsize)) (sym block) in
          ground (arith, here))
  ])
]

read_step-Got :
    (mapped : ℕ → Bool) (m tot off left : ℕ) (got : ℕ → ℕ) (addrs : Addrs) (s : Fs)
    (next : (ℕ → ℕ) → Addrs → Fs → Run ReadOut) (r : Run (ℕ × Addrs × Fs))
    → IsFile addrs s
    → m ≤ left
    → 0 < left
    → (m < left → off % bsize + m ≡ bsize)
    → off % bsize + m ≤ bsize
    → off + left ≤ span
    → off / bsize < blocks
    → ((j : ℕ) → j < m → mapped (tot + j) ≡ true)
    → ((now : ℕ → ℕ) (a' : Addrs) (u : Fs)
        → IsFile a' u
        → Got (tot + m) (off + m) (left - m) now a' u (next now a' u))
    → Grows (off / bsize) addrs s r
    → Got tot off left got addrs s (r >>= read_step mapped m tot off got next)
unfolding Got Grows read_step
read_step-Got mapped m tot off left got addrs s next (stop e) f short more edge inside fits low all
      rec (p, few, hole) =
    (p, Short-first off left addrs s more few hole)
read_step-Got mapped m tot off left got addrs s next (ok (b, a', t)) f short more edge inside fits
      low all rec h =
    let bn = off / bsize in
    let (good, same) = copy_out_lem mapped m tot (off % bsize) (t.bytes b) got all in
    let now = (copy_out mapped m tot (off % bsize) (t.bytes b) got).1 in
    rw (good, ◌>>=◌, read_step)
      (Got-round tot off left m got now addrs s a' t short fits edge h.extends
        (Grown-Filled bn b addrs a' s t h)
        (λ p l. byte-Grown bn b addrs a' s t (p / bsize) (p % bsize) f h (omega arith))
        (λ i.
          same i
          ∙ in_block off m tot b got addrs a' s t i inside (λ j.
            sym (byte-here bn b addrs a' s t j h) ∙ byte-Grown bn b addrs a' s t bn j f h low))
        (next now a' t) (rec now a' t h.file))

pub read_loop-Got :
    (mapped : ℕ → Bool) (k tot off n : ℕ) (got : ℕ → ℕ) (addrs : Addrs) (s : Fs)
    → IsFile addrs s
    → tot ≤ n
    → n - tot < k
    → off + (n - tot) ≤ span
    → ((j : ℕ) → j < n → mapped j ≡ true)
    → Got tot off (n - tot) got addrs s (read_loop mapped k tot off n got addrs s)
unfolding read_loop
read_loop-Got mapped zero tot off n got addrs s f le fuel fits all = absurd (omega arith)
read_loop-Got mapped (suc k) tot off n got addrs s f le fuel fits all = elim (dec_lt tot n) [
  | no over ↦
      (let r : read_loop mapped (suc k) tot off n got addrs s ≡ ok (some tot, got, addrs, s) =
          ground arith in
        subst (Got tot off (n - tot) got addrs s) (sym r)
          (Got-none tot off (n - tot) got addrs s f (omega arith)))
  | yes more ↦
      (let m = min (n - tot) (bsize - off % bsize) in
        let short : m ≤ n - tot = ground arith in
        let some_left : 0 < m = ground arith in
        let left : n - (tot + m) ≡ n - tot - m = omega arith in
        let next =
          λ (g : ℕ → ℕ) (a : Addrs) (u : Fs). read_loop mapped k (tot + m) (off + m) n g a u in
        let r : read_loop mapped (suc k) tot off n got addrs s
            ≡ (bmap addrs (off / bsize) s >>= read_step mapped m tot off got next) =
          ground arith in
        subst (Got tot off (n - tot) got addrs s) (sym r) (
          read_step-Got mapped m tot off (n - tot) got addrs s next (bmap addrs (off / bsize) s) f
            short (omega arith) (λ l. ground arith) (ground arith) fits (omega arith)
            (λ j l. all (tot + j) (omega arith))
            (λ now a' u f'.
              subst (λ x. Got (tot + m) (off + m) x now a' u (next now a' u)) left
                (read_loop-Got mapped k (tot + m) (off + m) n now a' u f' (omega arith)
                  (omega arith) (omega arith) all))
            (bmap-Grows addrs (off / bsize) s f (omega arith))))
]
