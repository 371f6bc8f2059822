-- ===== src/Strings/Search.antt =====
-- Substrings, and the first occurrence of a separator.
use chrysalis.Base.{
  ℕ, ◌≡◌, refl, ap, inl, inr, Bool-cases, ◌≢◌, true, false, [], ◌∷◌, ◌++◌, arith, length, drop, All,
  Text,
}
use chrysalis.Strings.{has_prefix, contains, before, after}
use chrysalis.Strings.Affix.{has_prefix-append, eq_of_has_prefix}

pub contains-append : (a t b : Text) → contains (a ++ (t ++ b)) t ≡ true
unfolding contains
contains-append [] [] [] = refl
contains-append [] [] (c ∷ b) = refl
contains-append [] (d ∷ t) b = ground (arith, has_prefix-append (d ∷ t) b)
contains-append (c ∷ a) t b = ground (arith, contains-append a t b)

pub eq_of_contains :
    (s t : Text) → contains s t ≡ true → (a : Text) × (b : Text) × (s ≡ a ++ (t ++ b))
unfolding contains
eq_of_contains [] [] h = ([], [], refl)
eq_of_contains [] (d ∷ t) h = cc
eq_of_contains (c ∷ s) t h = elim (Bool-cases (has_prefix (c ∷ s) t)) [
  | inl here ↦ ([], drop (length t) (c ∷ s), eq_of_has_prefix (c ∷ s) t here)
  | inr later ↦ let (a, b, e) = eq_of_contains s t (ground arith) in (c ∷ a, b, ap (◌∷◌ c) e)
]

-- A text that holds no separator.
abbrev pub Lacks : ℕ → Text → Type 0
Lacks sep = All (λ c. c ≢ sep)

pub Lacks-of_contains : (sep : ℕ) (s : Text) → contains s (sep ∷ []) ≡ false → Lacks sep s
unfolding contains has_prefix
Lacks-of_contains sep [] h = tt
Lacks-of_contains sep (c ∷ s) h = ground (arith, Lacks-of_contains sep s)

pub contains_of_Lacks : (sep : ℕ) (s : Text) → Lacks sep s → contains s (sep ∷ []) ≡ false
unfolding contains has_prefix
contains_of_Lacks sep [] h = refl
contains_of_Lacks sep (c ∷ s) h = ground (arith, contains_of_Lacks sep s)

-- A separator that occurs is followed by `after` and preceded by `before`, which lacks it.
pub eq_before-after :
    (sep : ℕ) (s : Text) → contains s (sep ∷ []) ≡ true → s ≡ before sep s ++ sep ∷ after sep s
unfolding contains has_prefix before after
eq_before-after sep [] h = cc
eq_before-after sep (c ∷ s) h = ground (arith, eq_before-after sep s)

pub before-Lacks : (sep : ℕ) (s : Text) → Lacks sep (before sep s)
unfolding before
before-Lacks sep [] = tt
before-Lacks sep (c ∷ s) = ground (arith, before-Lacks sep s)

pub before-append : (sep : ℕ) (p t : Text) → Lacks sep p → before sep (p ++ sep ∷ t) ≡ p
unfolding before
before-append sep [] t h = ground arith
before-append sep (c ∷ p) t h = ground (arith, before-append sep p t)

pub before_of_Lacks : (sep : ℕ) (p : Text) → Lacks sep p → before sep p ≡ p
unfolding before
before_of_Lacks sep [] h = refl
before_of_Lacks sep (c ∷ p) h = ground (arith, before_of_Lacks sep p)

pub after-append : (sep : ℕ) (p t : Text) → Lacks sep p → after sep (p ++ sep ∷ t) ≡ t
unfolding after
after-append sep [] t h = ground arith
after-append sep (c ∷ p) t h = ground (arith, after-append sep p t)
