-- ===== src/Safety/Fuel.antt =====
-- The scan of the code has fuel enough.
use chrysalis.Base.{
  ℕ, zero, suc, ◌+◌, ◌-◌, ◌≤◌, ◌≡◌, refl, ap, Bool, true, false, List, [], ◌∷◌, Bool-cases, inl,
  inr, arith, Text, codes, drop, length, length-drop, Option, none, some, ◌==◌,
}
use chrysalis.Strings.{has_prefix}
use chrysalis.Safety.{
  is_space, skip_spaces, words, captured, module_name, after_keyword, keyword, match_here, go_on,
  scan, imports,
}

-- What follows a match is no longer than `n`.
abbrev Within : ℕ → Option (Text × Text) → Type 0
Within n none = Unit
Within n (some (m, rest)) = length rest ≤ n

weaken : (n k : ℕ) (o : Option (Text × Text)) → n ≤ k → Within n o → Within k o
weaken n k none le w = tt
weaken n k (some (m, rest)) le w = omega arith

captured-Within : (w s : Text) → Within (length s) (captured w s)
unfolding captured
captured-Within [] s = tt
captured-Within (c ∷ w) s = omega (arith, length-drop (length (c ∷ w)) s)

length-skip_spaces : (s : Text) → length (skip_spaces s) ≤ length s
unfolding skip_spaces
length-skip_spaces [] = omega arith
length-skip_spaces (c ∷ s) = elim (Bool-cases (is_space c)) [
  | inl y ↦ rw y (omega (arith, length-skip_spaces s))
  | inr n ↦ rw n (omega arith)
]

after_keyword-Within : (s : Text) → Within (length s) (after_keyword s)
unfolding after_keyword module_name
after_keyword-Within [] = tt
after_keyword-Within (c ∷ s) = elim (Bool-cases (is_space c)) [
  | inl y ↦ rw y (
      weaken _ _ (captured (words (skip_spaces s)) (skip_spaces s))
        (omega (arith, length-skip_spaces s))
        (captured-Within (words (skip_spaces s)) (skip_spaces s)))
  | inr n ↦ rw n tt
]

keyword-Within : (s : Text) → Within (length s - 4) (keyword s)
unfolding keyword
keyword-Within s = elim (Bool-cases (has_prefix s (codes "import"))) [
  | inl i ↦ rw i (
      weaken _ _ (after_keyword (drop 6 s)) (omega (arith, length-drop 6 s))
        (after_keyword-Within (drop 6 s)))
  | inr n ↦ elim (Bool-cases (has_prefix s (codes "from"))) [
    | inl f ↦
        rw (n, f)
          (weaken _ _ (after_keyword (drop 4 s)) (omega (arith, length-drop 4 s))
            (after_keyword-Within (drop 4 s)))
    | inr k ↦ rw (n, k) tt
  ]
]

match_here-Within : (b : Bool) (c : ℕ) (s : Text) → Within (length s) (match_here b (c ∷ s))
unfolding match_here
match_here-Within b c s = elim (Bool-cases (is_space c)) [
  | inl y ↦ rw y (weaken _ _ (keyword s) (omega arith) (keyword-Within s))
  | inr n ↦ elim (Bool-cases b) [
    | inl t ↦ rw (n, t) (weaken _ _ (keyword (c ∷ s)) (omega arith) (keyword-Within (c ∷ s)))
    | inr f ↦ rw (n, f) tt
  ]
]

go_on-more :
    (f g : Bool → Text → List Text) (c : ℕ) (s : Text) (o : Option (Text × Text))
    → Within (length s) o
    → ((b : Bool) (r : Text) → length r ≤ length s → f b r ≡ g b r)
    → go_on f c s o ≡ go_on g c s o
unfolding go_on
go_on-more f g c s none w same = same (c == b'\n') s (omega arith)
go_on-more f g c s (some (m, r)) w same = ap (◌∷◌ m) (same false r w)

scan-nil : (fuel : ℕ) (b : Bool) → scan fuel b [] ≡ []
unfolding scan
scan-nil zero b = refl
scan-nil (suc fuel) b = refl

scan-more :
    (fuel more : ℕ) (b : Bool) (s : Text)
    → length s ≤ fuel
    → fuel ≤ more
    → scan more b s ≡ scan fuel b s
unfolding scan
scan-more zero more b [] small le = scan-nil more b
scan-more zero more b (c ∷ s) small le = ground arith
scan-more (suc fuel) zero b s small le = ground arith
scan-more (suc fuel) (suc more) b [] small le = refl
scan-more (suc fuel) (suc more) b (c ∷ s) small le =
    go_on-more (scan more) (scan fuel) c s (match_here b (c ∷ s)) (match_here-Within b c s)
      λ d r w. scan-more fuel more d r (omega arith) (omega arith)

-- More fuel than the length of the code finds no other imports.
pub imports_complete : (code : Text) (k : ℕ) → scan (length code + k) true code ≡ imports code
unfolding imports
imports_complete code k =
    scan-more (length code) (length code + k) true code (omega arith) (omega arith)
