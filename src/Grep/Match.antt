-- ===== src/Grep/Match.antt =====
-- What a pattern of user/grep.c means, and the matcher.
use io_scheduling.Prelude.{
  ℕ, subst, ◌≡◌, ◌↔◌, ◌∙◌, sym, ap, refl, arith, Bool, true, false, ◌==◌, if◌then◌else◌, List, [],
  ◌∷◌, ◌++◌, Bool-cases, inl, inr, ℕ_discrete,
}
use io_scheduling.Grep.{
  star_sign, dollar, caret, is_end, accepts, matchstar, match_one, matchhere, match_loop, match,
}

-- one byte, or any number of bytes that the byte takes
pub data Item : Type 0 where
  one star : ℕ → Item

-- the items of a pattern, and whether it ends in `$`
pub items : List ℕ → List Item × Bool
items [] = ([], false)
items (c ∷ []) = if c == dollar then ([], true) else (one c ∷ [], false)
items (c ∷ d ∷ re) =
    let (rest, tied) = items re in
    let (rest', tied') = items (d ∷ re) in
    if d == star_sign then (star c ∷ rest, tied) else (one c ∷ rest', tied')

pub All : ℕ → List ℕ → Type 0
All c [] = Unit
All c (t ∷ ts) = (accepts c t ≡ true) × All c ts

-- the items take the start of `text`, and `rest` is left
unfoldable pub Takes : List Item → List ℕ → List ℕ → Type 0
Takes [] text rest = text ≡ rest
Takes (one c ∷ its) text rest =
    (t : ℕ) × (more : List ℕ) × (text ≡ t ∷ more) × (accepts c t ≡ true) × Takes its more rest
Takes (star c ∷ its) text rest =
    (run : List ℕ) × (more : List ℕ) × (text ≡ run ++ more) × All c run × Takes its more rest

abbrev pub Ends : Bool → List ℕ → Type 0
Ends true rest = rest ≡ []
Ends false rest = Unit

-- the items match at the start of `text`, and up to its end where they are tied to it
abbrev pub Starts : List Item × Bool → List ℕ → Type 0
Starts (its, tied) text = (rest : List ℕ) × Takes its text rest × Ends tied rest

matchstar_sound :
    (here : List ℕ → Bool) (c : ℕ) (text : List ℕ)
    → matchstar here c text ≡ true
    → (run : List ℕ) × (more : List ℕ) × (text ≡ run ++ more) × All c run × (here more ≡ true)
unfolding matchstar All
matchstar_sound here c [] h = ([], [], refl, tt, h)
matchstar_sound here c (t ∷ text) h = elim (Bool-cases (here (t ∷ text))) [
  | inl now ↦ ([], t ∷ text, refl, tt, now)
  | inr later ↦
      (let first : accepts c t ≡ true = ground (arith, h, later) in
        let (run, more, e, all, good) = matchstar_sound here c text (ground (arith, h, later)) in
        (t ∷ run, more, ap (λ x. t ∷ x) e, (first, all), good))
]

matchstar_complete :
    (here : List ℕ → Bool) (c : ℕ) (run more : List ℕ)
    → All c run
    → here more ≡ true
    → matchstar here c (run ++ more) ≡ true
unfolding matchstar All
matchstar_complete here c [] [] all good = good
matchstar_complete here c [] (t ∷ more) all good = ground (arith, good)
matchstar_complete here c (t ∷ run) more (first, all) good =
    let rest = matchstar_complete here c run more all good in ground (arith, first, rest)

-- `here` decides whether `p` matches at the start of a text.
abbrev pub Decides : (List ℕ → Bool) → List Item × Bool → Type 0
Decides here p = (text : List ℕ) → (here text ≡ true) ↔ Starts p text

module _ (here : List ℕ → Bool) (p : List Item × Bool) (d : Decides here p) (c : ℕ) where
  one_sound : (text : List ℕ) → match_one here c text ≡ true → Starts (one c ∷ p.0, p.1) text
  unfolding match_one Takes
  one_sound [] h = absurd (ground (arith, h))
  one_sound (t ∷ text) h =
      let (rest, takes, ends) = (d text).0 (ground (arith, h)) in
      (rest, (t, text, refl, ground (arith, h), takes), ends)

  one_complete : (text : List ℕ) → Starts (one c ∷ p.0, p.1) text → match_one here c text ≡ true
  unfolding match_one Takes
  one_complete text (rest, (t, more, e, a, takes), ends) =
      let h = (d more).1 (rest, takes, ends) in rw (e, match_one) (ground (arith, a, h))

  one-Decides : Decides (match_one here c) (one c ∷ p.0, p.1)
  one-Decides text = (one_sound text, one_complete text)

  star_sound : (text : List ℕ) → matchstar here c text ≡ true → Starts (star c ∷ p.0, p.1) text
  unfolding Takes
  star_sound text h =
      let (run, more, e, all, good) = matchstar_sound here c text h in
      let (rest, takes, ends) = (d more).0 good in (rest, (run, more, e, all, takes), ends)

  star_complete : (text : List ℕ) → Starts (star c ∷ p.0, p.1) text → matchstar here c text ≡ true
  unfolding Takes
  star_complete text (rest, (run, more, e, all, takes), ends) =
      rw e (matchstar_complete here c run more all ((d more).1 (rest, takes, ends)))

  star-Decides : Decides (matchstar here c) (star c ∷ p.0, p.1)
  star-Decides text = (star_sound text, star_complete text)

nothing-Decides : Decides (λ text. true) ([], false)
unfolding Takes
nothing-Decides text = (λ h. (text, refl, tt), λ h. refl)

end-Decides : Decides is_end ([], true)
unfolding Takes
end-Decides [] = (λ h. ([], refl, refl), λ h. refl)
end-Decides (t ∷ text) =
    (λ h. absurd (ground (arith, h)), λ (rest, e, z). absurd (ground (arith, e ∙ z)))

-- at the branch that is taken
taken :
    (here here' : List ℕ → Bool) (p p' : List Item × Bool)
    → ((text : List ℕ) → here' text ≡ here text)
    → p' ≡ p
    → Decides here p
    → Decides here' p'
taken here here' p p' e i d text =
    subst (λ q. (here' text ≡ true) ↔ Starts q text) (sym i)
      (subst (λ b. (b ≡ true) ↔ Starts p text) (sym (e text)) (d text))

pub matchhere-Decides : (re : List ℕ) → Decides (matchhere re) (items re)
unfolding matchhere items
matchhere-Decides [] = nothing-Decides
matchhere-Decides (c ∷ []) = elim (ℕ_discrete c dollar) [
  | yes e ↦
      taken is_end (matchhere (c ∷ [])) ([], true) (items (c ∷ [])) (λ text. ground arith)
        (ground arith) end-Decides
  | no ne ↦
      taken (match_one (matchhere []) c) (matchhere (c ∷ [])) (one c ∷ [], false) (items (c ∷ []))
        (λ text. ground arith) (ground arith)
        (one-Decides (matchhere []) ([], false) (matchhere-Decides []) c)
]
matchhere-Decides (c ∷ d ∷ re) = elim (ℕ_discrete d star_sign) [
  | yes e ↦
      taken (matchstar (matchhere re) c) (matchhere (c ∷ d ∷ re))
        (star c ∷ (items re).0, (items re).1) (items (c ∷ d ∷ re)) (λ text. ground arith)
        (ground arith) (star-Decides (matchhere re) (items re) (matchhere-Decides re) c)
  | no ne ↦
      taken (match_one (matchhere (d ∷ re)) c) (matchhere (c ∷ d ∷ re))
        (one c ∷ (items (d ∷ re)).0, (items (d ∷ re)).1) (items (c ∷ d ∷ re)) (λ text. ground arith)
        (ground arith)
        (one-Decides (matchhere (d ∷ re)) (items (d ∷ re)) (matchhere-Decides (d ∷ re)) c)
]

-- a pattern without its `^`, and whether it had one
abbrev pub body : List ℕ → List ℕ
body [] = []
body (c ∷ re) = if c == caret then re else c ∷ re

abbrev pub is_tied : List ℕ → Bool
is_tied [] = false
is_tied (c ∷ re) = c == caret

-- The items match somewhere in the text, after `before`, which is empty for a pattern with a `^`.
abbrev pub Somewhere : Bool → List Item × Bool → List ℕ → Type 0
Somewhere tied p text =
    (before : List ℕ) × (more : List ℕ) × (text ≡ before ++ more) × Ends tied before × Starts p more

unfoldable pub Matches : List ℕ → List ℕ → Type 0
Matches re text = Somewhere (is_tied re) (items (body re)) text

loop_sound :
    (re text : List ℕ)
    → match_loop re text ≡ true
    → (before : List ℕ) × (more : List ℕ) × (text ≡ before ++ more) × Starts (items re) more
unfolding match_loop
loop_sound re [] h = ([], [], refl, (matchhere-Decides re []).0 h)
loop_sound re (t ∷ text) h = elim (Bool-cases (matchhere re (t ∷ text))) [
  | inl now ↦ ([], t ∷ text, refl, (matchhere-Decides re (t ∷ text)).0 now)
  | inr later ↦
      (let (before, more, e, starts) = loop_sound re text (ground (arith, h, later)) in
        (t ∷ before, more, ap (λ x. t ∷ x) e, starts))
]

loop_complete :
    (re before more : List ℕ) → Starts (items re) more → match_loop re (before ++ more) ≡ true
unfolding match_loop
loop_complete re [] [] starts = (matchhere-Decides re []).1 starts
loop_complete re [] (t ∷ more) starts =
    let h = (matchhere-Decides re (t ∷ more)).1 starts in ground (arith, h)
loop_complete re (t ∷ before) more starts =
    let h = loop_complete re before more starts in ground (arith, h)

loop-Somewhere : (re text : List ℕ) → (match_loop re text ≡ true) ↔ Somewhere false (items re) text
loop-Somewhere re text = (
  λ h. let (before, more, e, starts) = loop_sound re text h in (before, more, e, tt, starts),
  λ (before, more, e, free, starts). rw e (loop_complete re before more starts),
)

by_caret :
    (tied : Bool) (c : ℕ) (re text : List ℕ)
    → ((if tied then matchhere re text else match_loop (c ∷ re) text) ≡ true)
      ↔ Somewhere tied (items (if tied then re else c ∷ re)) text
by_caret false c re text = loop-Somewhere (c ∷ re) text
by_caret true c re text = (
  λ h. ([], text, refl, refl, (matchhere-Decides re text).0 h),
  λ (before, more, e, z, starts).
      let same : text ≡ more = e ∙ ap (λ x. x ++ more) z in
      rw same ((matchhere-Decides re more).1 starts),
)

-- match answers true exactly where the text has a part that the pattern describes: item by item a
-- byte, any byte for a dot, or a run of such bytes before a star, from the start of the text after a
-- caret, up to its end before a dollar sign.
pub match-Matches : (re text : List ℕ) → (match re text ≡ true) ↔ Matches re text
unfolding match Matches
match-Matches [] text = loop-Somewhere [] text
match-Matches (c ∷ re) text = by_caret (c == caret) c re text
