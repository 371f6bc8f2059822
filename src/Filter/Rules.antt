-- ===== src/Filter/Rules.antt =====
-- What a loaded profile permits, read off its lists.
use mathlib.Core.List.{foldl}
use chrysalis.Base.{
  ◌≡◌, refl, sym, ◌∙◌, subst, inl, inr, Bool, true, false, not, ◌&&◌, ◌||◌, List, [], ◌∷◌, ◌++◌,
  if◌then◌else◌, Bool-cases, arith, Text, text_eq, text_eq_iff, text_eq_refl, some, any, Some,
  Some-of_any, text_key, lookup, lookup-insert, codes,
}
use chrysalis.Strings.{contains}
use chrysalis.Strings.Search.{Lacks, Lacks-of_contains, contains_of_Lacks}
use chrysalis.Filter.{
  FilterConfig, Filter, star, match_wildcard, any_match, allow, add_allow, add_deny, fresh, compile,
  to_lower,
}
use chrysalis.Filter.Glob.{Glob, Glob-literal, match_wildcard→Glob}

-- An entry without a star names one function; an entry with one names what it matches.
unfoldable pub names_exactly : Text → Text → Bool
names_exactly fn entry = not (contains entry (star ∷ [])) && text_eq entry fn

unfoldable pub names_by_star : Text → Text → Bool
names_by_star fn entry = contains entry (star ∷ []) && match_wildcard entry fn

-- The order of evaluation that the README gives: exact deny, exact allow, wildcard deny, wildcard
-- allow, default.
unfoldable pub verdict : FilterConfig → Text → Bool
verdict cfg fn =
    if any (names_exactly fn) cfg.deny
    then false
    else if any (names_exactly fn) cfg.allow
    then true
    else if any (names_by_star fn) cfg.deny
    then false
    else if any (names_by_star fn) cfg.allow
    then true
    else text_eq (to_lower cfg.default) (codes "allow")

module _ (fn : Text) where
  any_match-append :
      (xs ys : List Text) → any_match (xs ++ ys) fn ≡ (any_match xs fn || any_match ys fn)
  unfolding any_match
  any_match-append [] ys = refl
  any_match-append (x ∷ xs) ys = ground (arith, any_match-append xs ys)

  any_match_one : (pat : Text) → any_match (pat ∷ []) fn ≡ match_wildcard pat fn
  unfolding any_match
  any_match_one pat = ground arith

  -- The loop over the allow list: each field of the filter that it builds.
  exact-allow :
      (f : Filter) (l : List Text)
      → lookup fn (foldl add_allow f l).exact
        ≡ (if any (names_exactly fn) l then some true else lookup fn f.exact)
  unfolding add_allow names_exactly
  exact-allow f [] = refl
  exact-allow f (e ∷ l) =
      ground (arith, exact-allow (add_allow f e) l, lookup-insert e fn true f.exact)

  allow_patterns-allow :
      (f : Filter) (l : List Text)
      → any_match (foldl add_allow f l).allow_patterns fn
        ≡ (any_match f.allow_patterns fn || any (names_by_star fn) l)
  unfolding add_allow names_by_star
  allow_patterns-allow f [] = ground arith
  allow_patterns-allow f (e ∷ l) = ground (
    arith,
    allow_patterns-allow (add_allow f e) l,
    any_match-append f.allow_patterns (e ∷ []),
    any_match_one e,
  )

  exact-deny :
      (f : Filter) (l : List Text)
      → lookup fn (foldl add_deny f l).exact
        ≡ (if any (names_exactly fn) l then some false else lookup fn f.exact)
  unfolding add_deny names_exactly
  exact-deny f [] = refl
  exact-deny f (e ∷ l) =
      ground (arith, exact-deny (add_deny f e) l, lookup-insert e fn false f.exact)

  deny_patterns-deny :
      (f : Filter) (l : List Text)
      → any_match (foldl add_deny f l).deny_patterns fn
        ≡ (any_match f.deny_patterns fn || any (names_by_star fn) l)
  unfolding add_deny names_by_star
  deny_patterns-deny f [] = ground arith
  deny_patterns-deny f (e ∷ l) = ground (
    arith,
    deny_patterns-deny (add_deny f e) l,
    any_match-append f.deny_patterns (e ∷ []),
    any_match_one e,
  )

-- Each loop leaves the other fields alone.
allow_keeps :
    (f : Filter) (l : List Text)
    → ((foldl add_allow f l).deny_patterns ≡ f.deny_patterns)
      × ((foldl add_allow f l).default_allow ≡ f.default_allow)
      × ((foldl add_allow f l).profile_name ≡ f.profile_name)
unfolding add_allow
allow_keeps f [] = (refl, refl, refl)
allow_keeps f (e ∷ l) = ground (arith, allow_keeps (add_allow f e) l)

deny_keeps :
    (f : Filter) (l : List Text)
    → ((foldl add_deny f l).allow_patterns ≡ f.allow_patterns)
      × ((foldl add_deny f l).default_allow ≡ f.default_allow)
      × ((foldl add_deny f l).profile_name ≡ f.profile_name)
unfolding add_deny
deny_keeps f [] = (refl, refl, refl)
deny_keeps f (e ∷ l) = ground (arith, deny_keeps (add_deny f e) l)

-- The compiled filter decides as the lists of the profile say.
pub allow-compile :
    (profile : Text) (cfg : FilterConfig) (fn : Text)
    → allow (compile profile cfg) fn ≡ verdict cfg fn
unfolding allow compile verdict any_match lookup
allow-compile profile cfg fn =
    let f = fresh profile cfg in
    let g = foldl add_allow f cfg.allow in
    ground (
      arith,
      exact-deny fn g cfg.deny,
      exact-allow fn f cfg.allow,
      deny_patterns-deny fn g cfg.deny,
      allow_patterns-allow fn f cfg.allow,
      allow_keeps f cfg.allow,
      deny_keeps g cfg.deny,
    )

pub profile_name-compile :
    (profile : Text) (cfg : FilterConfig) → (compile profile cfg).profile_name ≡ profile
unfolding compile
profile_name-compile profile cfg =
    let f = fresh profile cfg in
    ground (arith, allow_keeps f cfg.allow, deny_keeps (foldl add_allow f cfg.allow) cfg.deny)

names_exactly→Glob : (fn entry : Text) → names_exactly fn entry ≡ true → Glob entry fn
unfolding names_exactly
names_exactly→Glob fn entry h =
    let e : entry ≡ fn = ground (arith, text_eq_iff entry fn) in
    let bare : contains entry (star ∷ []) ≡ false = ground arith in
    subst (Glob entry) e (Glob-literal entry (Lacks-of_contains star entry bare))

names_by_star→Glob : (fn entry : Text) → names_by_star fn entry ≡ true → Glob entry fn
unfolding names_by_star
names_by_star→Glob fn entry h = match_wildcard→Glob entry fn (ground arith)

-- A profile with any default but "allow" permits a function only if an entry of its allow list
-- matches it as a glob.
pub allow_needs_entry :
    (profile : Text) (cfg : FilterConfig) (fn : Text)
    → text_eq (to_lower cfg.default) (codes "allow") ≡ false
    → allow (compile profile cfg) fn ≡ true
    → Some (λ entry. Glob entry fn) cfg.allow
unfolding verdict
allow_needs_entry profile cfg fn default_deny permitted =
    let v : verdict cfg fn ≡ true = sym (allow-compile profile cfg fn) ∙ permitted in
    elim (Bool-cases (any (names_exactly fn) cfg.allow)) [
      | inl by_name ↦
          Some-of_any (names_exactly fn) (λ e. Glob e fn) (names_exactly→Glob fn) cfg.allow by_name
      | inr other ↦
          Some-of_any (names_by_star fn) (λ e. Glob e fn) (names_by_star→Glob fn) cfg.allow
            (ground arith)
    ]

names_exactly_self : (fn : Text) → Lacks star fn → names_exactly fn fn ≡ true
unfolding names_exactly
names_exactly_self fn h = rw (contains_of_Lacks star fn h, text_eq_refl fn)

any_of_Some :
    (fn : Text) (l : List Text)
    → Lacks star fn
    → Some (λ entry. entry ≡ fn) l
    → any (names_exactly fn) l ≡ true
any_of_Some fn [] h s = absurd s
any_of_Some fn (x ∷ l) h (inl e) = rw (e, names_exactly_self fn h)
any_of_Some fn (x ∷ l) h (inr s) = ground (arith, any_of_Some fn l h s)

-- A function in the deny list is refused whatever else the profile says.
pub deny_wins :
    (profile : Text) (cfg : FilterConfig) (fn : Text)
    → Lacks star fn
    → Some (λ entry. entry ≡ fn) cfg.deny
    → allow (compile profile cfg) fn ≡ false
unfolding verdict
deny_wins profile cfg fn bare listed =
    allow-compile profile cfg fn ∙ rw (any_of_Some fn cfg.deny bare listed)
