-- ===== src/Grep/Tests.antt =====
-- The matcher on "a.*b$", "^ab" and "*".
use io_scheduling.Prelude.{ℕ, ◌≡◌, ◌↔◌, refl, true, false, List, [], ◌∷◌}
use io_scheduling.Grep.{match, match_loop, matchhere, match_one, matchstar}
use io_scheduling.Grep.Match.{Matches, match-Matches}

-- "a.*b$"
abbrev pattern_ab : List ℕ
pattern_ab = 97 ∷ 46 ∷ 42 ∷ 98 ∷ 36 ∷ []

-- "xaxxb"
abbrev line : List ℕ
line = 120 ∷ 97 ∷ 120 ∷ 120 ∷ 98 ∷ []

test_one : match pattern_ab line ≡ true
unfolding match match_loop matchhere match_one matchstar
test_one = refl

test_two : match pattern_ab (98 ∷ line) ≡ true
unfolding match match_loop matchhere match_one matchstar
test_two = refl

test_three : match (94 ∷ 97 ∷ []) line ≡ false
unfolding match match_loop matchhere match_one matchstar
test_three = refl

test_four : match (42 ∷ []) line ≡ false
unfolding match match_loop matchhere match_one matchstar
test_four = refl

match-Matches_example : (match pattern_ab line ≡ true) ↔ Matches pattern_ab line
match-Matches_example = match-Matches pattern_ab line
