-- ===== src/Grep.antt =====
-- The pattern matcher of grep (user/grep.c).
-- A string is the list of its bytes before the NUL.
pub mod Match
mod Tests
use io_scheduling.Prelude.{ℕ, Bool, true, false, ◌==◌, ◌&&◌, ◌||◌, if◌then◌else◌, List, [], ◌∷◌}

-- `.`, `*`, `$` and `^`
abbrev pub dot : ℕ
dot = 46

abbrev pub star_sign : ℕ
star_sign = 42

abbrev pub dollar : ℕ
dollar = 36

abbrev pub caret : ℕ
caret = 94

abbrev pub is_end : List ℕ → Bool
is_end [] = true
is_end (_ ∷ _) = false

-- byte `c` of a pattern takes byte `t`
abbrev pub accepts : ℕ → ℕ → Bool
accepts c t = c == dot || c == t

-- `here` is matchhere at the rest of the pattern
pub matchstar : (List ℕ → Bool) → ℕ → List ℕ → Bool
matchstar here c [] = here []
matchstar here c (t ∷ text) = here (t ∷ text) || (accepts c t && matchstar here c text)

-- the last `if` of matchhere
pub match_one : (List ℕ → Bool) → ℕ → List ℕ → Bool
match_one here c [] = false
match_one here c (t ∷ text) = accepts c t && here text

pub matchhere : List ℕ → List ℕ → Bool
matchhere [] text = true
matchhere (c ∷ []) text = if c == dollar then is_end text else match_one (matchhere []) c text
matchhere (c ∷ d ∷ re) text =
    let starred = matchstar (matchhere re) c text in
    let plain = match_one (matchhere (d ∷ re)) c text in if d == star_sign then starred else plain

-- the loop of match
pub match_loop : List ℕ → List ℕ → Bool
match_loop re [] = matchhere re []
match_loop re (t ∷ text) = matchhere re (t ∷ text) || match_loop re text

pub match : List ℕ → List ℕ → Bool
match [] text = match_loop [] text
match (c ∷ re) text = if c == caret then matchhere re text else match_loop (c ∷ re) text
