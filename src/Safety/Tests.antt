-- ===== src/Safety/Tests.antt =====
-- Runs of checker.go.
use chrysalis.Base.{◌≡◌, refl, false, not, any, [], ◌∷◌, ◌++◌, ◌&&◌, inl, inr, codes}
use chrysalis.Strings.{has_prefix, contains}
use chrysalis.Safety.{
  imports, check, is_blocked, top_level, is_word, is_space, words, skip_spaces, blocked_builtins,
  scan, match_here, keyword, after_keyword, module_name,
}
use chrysalis.Safety.Verdict.{check-safe, call_caught}
use chrysalis.Safety.Scan.{beginning, behind_comma, hidden_import}

finds_imports :
    imports (codes "x = 1\nimport os.path, sys\nfrom numpy import dot")
    ≡ codes "os.path" ∷ codes "numpy" ∷ codes "dot" ∷ []
unfolding imports scan match_here keyword after_keyword module_name is_word is_space words
    skip_spaces has_prefix
finds_imports = refl

check-safe_example : (check (codes "import math")).safe ≡ (
    not (any (λ m. is_blocked (top_level m)) (imports (codes "import math")))
    && not (any (contains (codes "import math")) blocked_builtins))
check-safe_example = check-safe (codes "import math")

call_caught_example : (check (codes "x = " ++ (codes "exec(" ++ codes "y)"))).safe ≡ false
call_caught_example = call_caught (codes "x = ") (codes "exec(") (codes "y)") (inr (inl refl))

hidden_import_example :
    (check (beginning behind_comma ++ codes "os")).safe
    ≡ not (any (contains (beginning behind_comma ++ codes "os")) blocked_builtins)
unfolding is_word
hidden_import_example = hidden_import behind_comma (codes "os") (refl, (refl, tt))
