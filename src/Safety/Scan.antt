-- ===== src/Safety/Scan.antt =====
-- What the regular expression finds: an import that the code begins with, and one that it misses.
use chrysalis.Base.{
  ℕ, zero, suc, ◌≡◌, refl, ap, ◌∙◌, true, false, not, List, [], ◌∷◌, ◌++◌, any, Bool-cases, inl,
  inr, arith, Text, text_eq, All, codes, drop, length, drop-length-append, none, some, ◌==◌,
}
use chrysalis.Strings.{has_prefix, contains, before}
use chrysalis.Safety.{
  is_space, is_word, skip_spaces, words, captured, module_name, after_keyword, keyword, match_here,
  go_on, scan, imports, is_blocked, top_level, check, blocked_builtins,
}
use chrysalis.Safety.Verdict.{check-safe}

-- A text of characters of module names.
abbrev pub IsName : Text → Type 0
IsName = All (λ c. is_word c ≡ true)

space-word : (c : ℕ) → is_word c ≡ true → is_space c ≡ false
unfolding is_word is_space
space-word c h = ground arith

words-append : (m rest : Text) → IsName m → words rest ≡ [] → words (m ++ rest) ≡ m
unfolding words
words-append [] rest h e = e
words-append (c ∷ m) rest (h, hs) e = rw h (ap (◌∷◌ c) (words-append m rest hs e))

-- A name that is not empty is captured as a whole.
module_name-append :
    (c : ℕ) (m rest : Text)
    → IsName (c ∷ m)
    → words rest ≡ []
    → module_name (skip_spaces ((c ∷ m) ++ rest)) ≡ some (c ∷ m, rest)
unfolding module_name skip_spaces captured
module_name-append c m rest (h, hs) e =
    rw (space-word c h, words-append (c ∷ m) rest (h, hs) e, drop-length-append (c ∷ m) rest) refl

-- The import at the start of the code is the first that the scan finds.
imports-first :
    (c : ℕ) (m rest : Text)
    → IsName (c ∷ m)
    → words rest ≡ []
    → (l : List Text) × (imports (codes "import " ++ ((c ∷ m) ++ rest)) ≡ (c ∷ m) ∷ l)
unfolding imports scan go_on match_here keyword after_keyword
imports-first c m rest name e = (
  scan (suc (suc (suc (suc (suc (suc (length ((c ∷ m) ++ rest)))))))) false rest,
  rw (module_name-append c m rest name e) refl,
)

first_blocked :
    (code m : Text) (l : List Text)
    → imports code ≡ m ∷ l
    → is_blocked (top_level m) ≡ true
    → (check code).safe ≡ false
first_blocked code m l e bad = rw (check-safe code, e, bad) refl

-- Code that begins with the import of a module, of which the part before the first dot is blocked,
-- is not safe.
pub first_import_caught :
    (c : ℕ) (m rest : Text)
    → IsName (c ∷ m)
    → words rest ≡ []
    → is_blocked (top_level (c ∷ m)) ≡ true
    → (check (codes "import " ++ ((c ∷ m) ++ rest))).safe ≡ false
first_import_caught c m rest name e bad =
    let (l, found) = imports-first c m rest name e in
    first_blocked (codes "import " ++ ((c ∷ m) ++ rest)) (c ∷ m) l found bad

after_keyword-IsName : (s : Text) → IsName s → after_keyword s ≡ none
unfolding after_keyword
after_keyword-IsName [] h = refl
after_keyword-IsName (c ∷ s) (h, hs) = rw (space-word c h) refl

IsName-drop : (n : ℕ) (s : Text) → IsName s → IsName (drop n s)
IsName-drop zero s h = h
IsName-drop (suc n) [] h = h
IsName-drop (suc n) (c ∷ s) (h, hs) = IsName-drop n s hs

keyword-IsName : (s : Text) → IsName s → keyword s ≡ none
unfolding keyword
keyword-IsName s h = elim (Bool-cases (has_prefix s (codes "import"))) [
  | inl i ↦ rw i (after_keyword-IsName (drop 6 s) (IsName-drop 6 s h))
  | inr n ↦ elim (Bool-cases (has_prefix s (codes "from"))) [
    | inl f ↦ rw (n, f) (after_keyword-IsName (drop 4 s) (IsName-drop 4 s h))
    | inr k ↦ rw (n, k) refl
  ]
]

word-newline : (c : ℕ) → is_word c ≡ true → (c == b'\n') ≡ false
unfolding is_word
word-newline c h = ground arith

scan-IsName : (fuel : ℕ) (s : Text) → IsName s → scan fuel false s ≡ []
unfolding scan go_on match_here
scan-IsName zero s h = refl
scan-IsName (suc fuel) [] h = refl
scan-IsName (suc fuel) (c ∷ s) (h, hs) =
    rw (space-word c h, word-newline c h) (scan-IsName fuel s hs)

-- After a keyword at the end of a line, the scan takes the keyword of the next line for the name.
imports-hidden :
    (m : Text) → IsName m → imports (codes "# from\nimport " ++ m) ≡ codes "import" ∷ []
unfolding imports scan go_on match_here keyword after_keyword module_name words skip_spaces captured
    is_word is_space has_prefix
imports-hidden m h = rw (keyword-IsName m h) (
    ap (◌∷◌ (codes "import")) (
      scan-IsName (suc (suc (suc (suc (suc (suc (suc (suc (suc (suc (suc (length m)))))))))))) m h))

-- Of a list of modules only the first is captured.
imports-second : (m : Text) → IsName m → imports (codes "import math, " ++ m) ≡ codes "math" ∷ []
unfolding imports scan go_on match_here keyword after_keyword module_name words skip_spaces captured
    is_word is_space has_prefix
imports-second m h = rw (keyword-IsName m h) (
    ap (◌∷◌ (codes "math"))
      (scan-IsName (suc (suc (suc (suc (suc (suc (suc (suc (suc (suc (length m))))))))))) m h))

-- What can stand before the name of a module that the scan does not find.
pub data Hiding : Type 0 where
  behind_from behind_comma : Hiding

unfoldable pub beginning : Hiding → Text
beginning behind_from = codes "# from\nimport "
beginning behind_comma = codes "import math, "

keyword_allowed : is_blocked (top_level (codes "import")) ≡ false
unfolding is_blocked top_level text_eq before
keyword_allowed = refl

math_allowed : is_blocked (top_level (codes "math")) ≡ false
unfolding is_blocked top_level text_eq before
math_allowed = refl

-- Two ways to import any module unseen: on the second line, when the first is a comment that ends in
-- "from", and after a comma, behind the import of a harmless module. Such code is safe exactly if no
-- blocked call occurs in it.
pub hidden_import :
    (way : Hiding) (m : Text)
    → IsName m
    → (check (beginning way ++ m)).safe ≡ not (any (contains (beginning way ++ m)) blocked_builtins)
unfolding beginning
hidden_import behind_from m h =
    check-safe (codes "# from\nimport " ++ m) ∙ rw (imports-hidden m h, keyword_allowed) refl
hidden_import behind_comma m h =
    check-safe (codes "import math, " ++ m) ∙ rw (imports-second m h, math_allowed) refl
