-- ===== src/Filter/Glob.antt =====
-- What the comment of matchWildcard says of a pattern: `*` stands for any text. matchWildcard is
-- compared with it.
use chrysalis.Base.{
  ℕ, ◌≡◌, refl, ap, subst, ◌↔◌, ◌≢◌, ◌⊎◌, inl, inr, true, false, append-nil, [], ◌∷◌, ◌++◌, ◌==◌,
  arith, Text,
}
use native.Mathlib.Decide.{ℕ_discrete}
use chrysalis.Strings.Search.{Lacks}
use chrysalis.Filter.{star, match_wildcard}
use chrysalis.Filter.Wildcard.{
  Stretches, literal, last, match_wildcard_iff, remove_stars, remove_stars_of_Lacks,
}

pub data Glob : Text → Text → Type 0 where
  nothing : Glob [] []
  char : {c : ℕ} {p n : Text} → c ≢ star → Glob p n → Glob (c ∷ p) (c ∷ n)
  leave : {s : ℕ} {p n : Text} → s ≡ star → Glob p n → Glob (s ∷ p) n
  absorb : {s c : ℕ} {p n : Text} → s ≡ star → Glob (s ∷ p) n → Glob (s ∷ p) (c ∷ n)

pub Glob-literal : (s : Text) → Lacks star s → Glob s s
Glob-literal [] h = nothing
Glob-literal (c ∷ s) h = char h.0 (Glob-literal s h.1)

Glob-absorb : (w : Text) {p n : Text} → Glob p n → Glob (star ∷ p) (w ++ n)
Glob-absorb [] g = leave refl g
Glob-absorb (c ∷ w) g = absorb refl (Glob-absorb w g)

Glob-remove_stars : (pre : Text) {p n : Text} → Glob p n → Glob (pre ++ p) (remove_stars pre ++ n)
unfolding remove_stars
Glob-remove_stars [] g = g
Glob-remove_stars (c ∷ pre) {p} {n} g = elim (ℕ_discrete c star) [
  | yes e ↦ rw e (leave refl (Glob-remove_stars pre g))
  | no ne ↦
      let skip : (c == star) ≡ false = ground arith in rw skip (char ne (Glob-remove_stars pre g))
]

Stretches→Glob : {p n : Text} → Stretches p n → Glob p n
Stretches→Glob {p} {n} (literal bare e) = rw e (Glob-literal p bare)
Stretches→Glob (last pre w suf e bare e') =
    rw (e, e') (Glob-remove_stars pre (Glob-absorb w (Glob-literal suf bare)))

-- Nothing is accepted that the pattern, read as a glob, does not match.
pub match_wildcard→Glob : (p n : Text) → match_wildcard p n ≡ true → Glob p n
match_wildcard→Glob p n h = Stretches→Glob ((match_wildcard_iff p n).0 h)

Glob-of_Lacks : {p n : Text} → Glob p n → Lacks star p → n ≡ p
Glob-of_Lacks nothing h = refl
Glob-of_Lacks (char {c = c} ne g) h = ap (◌∷◌ c) (Glob-of_Lacks g h.1)
Glob-of_Lacks (leave e g) h = absurd (h.0 e)
Glob-of_Lacks (absorb e g) h = absurd (h.0 e)

Glob-of_suffix :
    {s : ℕ} {b n : Text} → Glob (s ∷ b) n → s ≡ star → Lacks star b → (w : Text) × (n ≡ w ++ b)
Glob-of_suffix (char ne g) e h = absurd (ne e)
Glob-of_suffix (leave _ g) e h = ([], Glob-of_Lacks g h)
Glob-of_suffix (absorb {c = c} _ g) e h = let (w, r) = Glob-of_suffix g e h in (c ∷ w, ap (◌∷◌ c) r)

Glob-of_one_star :
    (a b n : Text)
    → Lacks star a
    → Lacks star b
    → Glob (a ++ star ∷ b) n
    → (w : Text) × (n ≡ a ++ (w ++ b))
Glob-of_one_star [] b n ha hb g = Glob-of_suffix g refl hb
Glob-of_one_star (c ∷ a) b n ha hb (char {n = m} ne g) =
    let (w, r) = Glob-of_one_star a b m ha.1 hb g in (w, ap (◌∷◌ c) r)
Glob-of_one_star (c ∷ a) b n ha hb (leave e g) = absurd (ha.0 e)
Glob-of_one_star (c ∷ a) b n ha hb (absorb e g) = absurd (ha.0 e)

-- At most one star.
abbrev pub HasOneStar : Text → Type 0
HasOneStar p =
    Lacks star p ⊎ ((a : Text) × (b : Text) × (p ≡ a ++ star ∷ b) × Lacks star a × Lacks star b)

Glob→match_wildcard : (p n : Text) → HasOneStar p → Glob p n → match_wildcard p n ≡ true
Glob→match_wildcard p n (inl bare) g =
    (match_wildcard_iff p n).1 (literal bare (Glob-of_Lacks g bare))
Glob→match_wildcard p n (inr (a, b, e, ha, hb)) g =
    let (w, r) = Glob-of_one_star a b n ha hb (subst (λ t. Glob t n) e g) in
    (match_wildcard_iff p n).1 (last a w b e hb (rw (remove_stars_of_Lacks a ha) r))

-- A pattern with at most one star accepts exactly what it matches as a glob.
pub match_wildcard-Glob_iff : (p n : Text) → HasOneStar p → (match_wildcard p n ≡ true) ↔ Glob p n
match_wildcard-Glob_iff p n h = (match_wildcard→Glob p n, Glob→match_wildcard p n h)

-- A star before another star does not stretch: `*x*` matches a text with `x` in its middle as a
-- glob, and is refused.
pub match_wildcard_misses :
    (x y : ℕ) (t : Text)
    → x ≢ star
    → y ≢ x
    → Glob (star ∷ x ∷ star ∷ []) (y ∷ x ∷ t)
      × (match_wildcard (star ∷ x ∷ star ∷ []) (y ∷ x ∷ t) ≡ false)
unfolding match_wildcard
match_wildcard_misses x y t hx hy = (
  absorb refl
      (leave refl (char hx (subst (Glob (star ∷ [])) (append-nil t) (Glob-absorb t nothing)))),
  ground arith,
)
