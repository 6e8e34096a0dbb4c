-- ===== src/Bcache/Search.antt =====
-- The two loops of `bget` (kernel/bio.c), along the list and against it.
use io_scheduling.Prelude.{
  ℕ, zero, suc, ◌+◌, ◌-◌, ◌≤◌, ◌<◌, ◌≡◌, ◌≢◌, ◌∙◌, sym, subst, refl, arith, Bool, true, false, ◌==◌,
  ℕ_discrete, if_elim, ap, Option, none, some,
}
use io_scheduling.Bcache.{Bcache, nbuf, head, search}
use io_scheduling.Bcache.Order.{IsOrder}

-- The first place from `lo` to `hi - 1` whose buffer passes the test, or there is none.
unfoldable pub FirstOf : (ℕ → ℕ) → (ℕ → Bool) → ℕ → ℕ → Option ℕ → Type 0
FirstOf o test lo hi none = (j : ℕ) → lo ≤ j → j < hi → test (o j) ≡ false
FirstOf o test lo hi (some b) =
    (p : ℕ) × (lo ≤ p)
    × (p < hi)
    × (o p ≡ b)
    × (test b ≡ true)
    × ((j : ℕ) → lo ≤ j → j < p → test (o j) ≡ false)

FirstOf-extend :
    (o : ℕ → ℕ) (test : ℕ → Bool) (i hi : ℕ) (r : Option ℕ)
    → test (o i) ≡ false
    → FirstOf o test (i + 1) hi r
    → FirstOf o test i hi r
unfolding FirstOf
FirstOf-extend o test i hi none miss all =
    λ j f t. elim (ℕ_discrete j i) [ yes e ↦ rw e miss | no ne ↦ all j (omega arith) t ]
FirstOf-extend o test i hi (some b) miss (p, from, to, e, hit, before) = (
  p,
  omega arith,
  to,
  e,
  hit,
  λ j f t. elim (ℕ_discrete j i) [ yes e ↦ rw e miss | no ne ↦ before j (omega arith) t ],
)

-- Along a path `o i`, `o (i + 1)`, ... of the links that meets the head first at place `hi`
pub search_lem :
    (follow o : ℕ → ℕ) (test : ℕ → Bool) (k i hi : ℕ)
    → hi ≡ i + k
    → ((j : ℕ) → i ≤ j → j < hi → follow (o j) ≡ o (j + 1))
    → ((j : ℕ) → i ≤ j → j < hi → o j ≢ head)
    → o hi ≡ head
    → FirstOf o test i hi (search (suc k) follow test (o i))
unfolding search FirstOf
search_lem follow o test zero i hi e step inside last =
    if_elim (FirstOf o test i hi) (o i == head) (λ h. λ j f t. absurd (omega arith))
      (λ ne. absurd (let e' : hi ≡ i = omega arith in ground (arith, last, e')))
search_lem follow o test (suc k) i hi e step inside last =
    let rest =
      search_lem follow o test k (i + 1) hi (omega arith) (λ j f t. step j (omega arith) t)
        (λ j f t. inside j (omega arith) t) last in
    let link : o (i + 1) ≡ follow (o i) = sym (step i (omega arith) (omega arith)) in
    if_elim (FirstOf o test i hi) (o i == head)
      (λ h. absurd (inside i (omega arith) (omega arith) (ground arith)))
      (λ ne.
        if_elim (FirstOf o test i hi) (test (o i))
          (λ hit. (i, omega arith, omega arith, refl, hit, λ j f t. absurd (omega arith)))
          (λ miss.
            FirstOf-extend o test i hi (search (suc k) follow test (follow (o i))) miss
              (subst (λ b. FirstOf o test (i + 1) hi (search (suc k) follow test b)) link rest)))

module _ (o : ℕ → ℕ) (s : Bcache) (h : IsOrder nbuf o s) where
  IsOrder-inside : (j : ℕ) → 1 ≤ j → j < nbuf + 1 → o j ≢ head
  IsOrder-inside j f t e = absurd (omega (arith, h.inside j f (omega arith), e))

  -- along `next` from the front
  pub search_next :
      (test : ℕ → Bool) → FirstOf o test 1 (nbuf + 1) (search (nbuf + 1) s.next test (s.next head))
  search_next test =
      let start : o 1 ≡ s.next head = sym (h.forward 0 (omega arith)) ∙ ap s.next h.first in
      subst (λ b. FirstOf o test 1 (nbuf + 1) (search (nbuf + 1) s.next test b)) start
        (search_lem s.next o test nbuf 1 (nbuf + 1) refl (λ j f t. h.forward j (omega arith))
          IsOrder-inside h.last)

  -- along `prev` from the back: place `j` of the way is place `31 - j` of the order
  pub search_prev :
      (test : ℕ → Bool)
      → FirstOf
          (λ j. o (nbuf + 1 - j))
          test
          1
          (nbuf + 1)
          (search (nbuf + 1) s.prev test (s.prev head))
  search_prev test =
      let start : o nbuf ≡ s.prev head = sym (h.backward nbuf (omega arith)) ∙ ap s.prev h.last in
      subst
        (λ b. FirstOf (λ j. o (nbuf + 1 - j)) test 1 (nbuf + 1) (search (nbuf + 1) s.prev test b))
        start
        (search_lem s.prev (λ j. o (nbuf + 1 - j)) test nbuf 1 (nbuf + 1) refl
          (λ j f t. ground (arith, h.backward (nbuf - j) (omega arith)))
          (λ j f t. IsOrder-inside (nbuf + 1 - j) (omega arith) (omega arith)) h.first)
