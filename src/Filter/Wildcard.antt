-- ===== src/Filter/Wildcard.antt =====
-- Which names matchWildcard accepts: only the last star of a pattern stretches.
use chrysalis.Base.{
  ℕ, zero, suc, ◌-◌, ◌<◌, ◌≡◌, refl, sym, ap, subst, ◌↔◌, ◌⊎◌, inl, inr, Bool, true, false, not,
  ◌&&◌, ◌||◌, [], ◌∷◌, ◌++◌, append-nil, append_assoc, ◌==◌, if◌then◌else◌, Bool-cases, arith,
  length, take, drop, length-append, drop-length-append, Text, text_eq, text_eq_iff, text_eq_refl,
  All-append_inv, ◌≢◌,
}
use chrysalis.Strings.{has_prefix, has_suffix, contains, before, after}
use chrysalis.Strings.Affix.{
  has_prefix-append, eq_of_has_prefix, has_suffix-append, eq_of_has_suffix,
}
use chrysalis.Strings.Search.{
  Lacks, Lacks-of_contains, contains_of_Lacks, contains-append, eq_before-after, before-Lacks,
  before-append, after-append,
}
use chrysalis.Filter.{star, match_rounds, match_wildcard}

unfoldable pub remove_stars : Text → Text
remove_stars [] = []
remove_stars (c ∷ s) = if c == star then remove_stars s else c ∷ remove_stars s

pub remove_stars_of_Lacks : (s : Text) → Lacks star s → remove_stars s ≡ s
unfolding remove_stars
remove_stars_of_Lacks [] h = refl
remove_stars_of_Lacks (c ∷ s) h = ground (arith, remove_stars_of_Lacks s)

pub remove_stars-append : (s t : Text) → remove_stars (s ++ t) ≡ remove_stars s ++ remove_stars t
unfolding remove_stars
remove_stars-append [] t = refl
remove_stars-append (c ∷ s) t = ground (arith, remove_stars-append s t)

pub remove_stars-star : (t : Text) → remove_stars (star ∷ t) ≡ remove_stars t
unfolding remove_stars
remove_stars-star t = refl

-- The name has the pattern's text, with any text in place of the last star and none in place of
-- the others.
pub data Stretches (pattern name : Text) : Type 0 where
  literal : Lacks star pattern → name ≡ pattern → Stretches pattern name
  last :
      (pre w suf : Text)
      → pattern ≡ pre ++ star ∷ suf
      → Lacks star suf
      → name ≡ remove_stars pre ++ (w ++ suf)
      → Stretches pattern name

-- A pattern has no star, or a first one.
pub star_cases :
    (p : Text) → Lacks star p ⊎ ((a : Text) × (b : Text) × (p ≡ a ++ star ∷ b) × Lacks star a)
star_cases p = elim (Bool-cases (contains p (star ∷ []))) [
  | inl h ↦ inr (before star p, after star p, eq_before-after star p h, before-Lacks star p)
  | inr h ↦ inl (Lacks-of_contains star p h)
]

not-Lacks-star : (a b : Text) → ¬ Lacks star (a ++ star ∷ b)
not-Lacks-star a b h = (All-append_inv (λ c. c ≢ star) a (star ∷ b) h).1.0 refl

match_rounds-literal : (f : ℕ) (p n : Text) → Lacks star p → match_rounds (suc f) p n ≡ text_eq p n
unfolding match_rounds
match_rounds-literal f p n h = rw (contains_of_Lacks star p h)

match_rounds-cut :
    (f : ℕ) (a b n : Text)
    → Lacks star a
    → match_rounds (suc f) (a ++ star ∷ b) n ≡ (
        if has_prefix n a
        then (if text_eq b []
            then true
            else match_rounds f b (drop (length a) n)
              || (has_suffix (drop (length a) n) b && not (contains b (star ∷ []))))
        else false)
unfolding match_rounds
match_rounds-cut f a b n h =
    rw (contains-append a (star ∷ []) b, before-append star a b h, after-append star a b h)
      (ground arith)

-- Stretching the rest of the pattern over the rest of the name.
Stretches-cons :
    {b n : Text} (a : Text) → Lacks star a → Stretches b n → Stretches (a ++ star ∷ b) (a ++ n)
Stretches-cons {b} {n} a h (literal bare e) =
    last a [] b refl bare (rw (remove_stars_of_Lacks a h, e))
Stretches-cons a h (last pre w suf e bare e') =
    last (a ++ star ∷ pre) w suf (rw (e, append_assoc)) bare
      (rw (e', remove_stars-append a, remove_stars-star, remove_stars_of_Lacks a h, append_assoc))

-- The last round: no further star, and the name ends in the suffix.
Stretches-last :
    (a b rest : Text)
    → Lacks star a
    → Lacks star b
    → has_suffix rest b ≡ true
    → Stretches (a ++ star ∷ b) (a ++ rest)
Stretches-last a b rest h bare e =
    last a (take (length rest - length b) rest) b refl bare
      (rw (remove_stars_of_Lacks a h) (ap (◌++◌ a) (eq_of_has_suffix rest b e)))

-- What a round that accepts has seen.
cut_tests :
    (p e d s c : Bool)
    → (if p then (if e then true else d || (s && not c)) else false) ≡ true
    → (p ≡ true) × ((e ≡ true) ⊎ (d ≡ true) ⊎ ((s ≡ true) × (c ≡ false)))
cut_tests p e d s c h = ground arith

cut→Stretches :
    (f : ℕ) (a b n : Text)
    → Lacks star a
    → ((n' : Text) → match_rounds f b n' ≡ true → Stretches b n')
    → match_rounds (suc f) (a ++ star ∷ b) n ≡ true
    → Stretches (a ++ star ∷ b) n
cut→Stretches f a b n lacks ih h =
    let rest = drop (length a) n in
    let (start, ends) = cut_tests _ _ _ _ _ (rw (match_rounds-cut f a b n lacks) at h) in
    subst (Stretches (a ++ star ∷ b)) (sym (eq_of_has_prefix n a start)) (elim ends [
      | inl empty ↦
          rw ((text_eq_iff b []).0 empty)
            (last a rest [] refl tt (rw (remove_stars_of_Lacks a lacks, append-nil)))
      | inr (inl deep) ↦ Stretches-cons a lacks (ih rest deep)
      | inr (inr (fits, bare)) ↦ Stretches-last a b rest lacks (Lacks-of_contains star b bare) fits
    ])

match_rounds→Stretches : (f : ℕ) (p n : Text) → match_rounds f p n ≡ true → Stretches p n
match_rounds→Stretches zero p n h = unfold match_rounds in cc
match_rounds→Stretches (suc f) p n h = elim (star_cases p) [
  | inl bare ↦ literal bare (sym ((text_eq_iff p n).0 (rw (match_rounds-literal f p n bare) at h)))
  | inr (a, b, e, lacks) ↦
      rw e (cut→Stretches f a b n lacks (match_rounds→Stretches f b) (rw e at h))
]

-- The last star stands in this round, or in a later one.
Stretches→match_rounds :
    (f : ℕ) (p n : Text) → length p < f → Stretches p n → match_rounds f p n ≡ true
Stretches→match_rounds zero p n h s = absurd (omega arith)
Stretches→match_rounds (suc f) p n h (literal bare e) =
    rw (match_rounds-literal f p n bare, e) (text_eq_refl p)
Stretches→match_rounds (suc f) p n h (last pre w suf e bare e') = elim (star_cases pre) [
  | inl lacks ↦
      rw
        (
          e,
          e',
          remove_stars_of_Lacks pre lacks,
          match_rounds-cut f pre suf (pre ++ (w ++ suf)) lacks,
          has_prefix-append pre (w ++ suf),
          drop-length-append pre (w ++ suf),
          has_suffix-append w suf,
          contains_of_Lacks star suf bare,
        )
        (ground arith)
  | inr (a, b, ea, lacks) ↦
      let later = b ++ star ∷ suf in
      let rest = remove_stars b ++ (w ++ suf) in
      let ep : p ≡ a ++ star ∷ later = rw (e, ea) (append_assoc a (star ∷ b) (star ∷ suf)) in
      let en : n ≡ a ++ rest =
        rw (e', ea, remove_stars-append a, remove_stars-star, remove_stars_of_Lacks a lacks)
          (append_assoc a (remove_stars b) (w ++ suf)) in
      let short : length later < f = omega (arith, ap length ep, length-append a (star ∷ later)) in
      let deep = Stretches→match_rounds f later rest short (last b w suf refl bare refl) in
      rw
        (
          ep,
          en,
          match_rounds-cut f a later (a ++ rest) lacks,
          has_prefix-append a rest,
          drop-length-append a rest,
          deep,
        )
        (ground arith)
]

pub match_wildcard_iff : (p n : Text) → (match_wildcard p n ≡ true) ↔ Stretches p n
unfolding match_wildcard
match_wildcard_iff p n = (match_rounds→Stretches _ p n, Stretches→match_rounds _ p n (omega arith))
