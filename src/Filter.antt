-- ===== src/Filter.antt =====
-- internal/filter/filter.go: allow and deny lists of functions, read from YAML profiles.
pub mod Glob
pub mod Wildcard
pub mod Rules
pub mod Load
mod Tests
use mathlib.Core.List.{foldl}
use chrysalis.Base.{
  ℕ, zero, suc, ◌-◌, ◌+◌, leb, Bool, true, false, not, ◌&&◌, ◌||◌, Option, none, some, List, [],
  ◌∷◌, ◌++◌, ◌==◌, if◌then◌else◌, map, length, drop, Text, codes, text_eq, text_key, lookup, insert,
  Result, ok, err, ◌>>=◌, map_err,
}
use chrysalis.Strings.{has_prefix, has_suffix, contains, before, after}
use chrysalis.FilePath.{join}

-- The YAML form of a profile.
pub record FilterConfig : Type 0 where
  pub name : Text
  pub description : Text
  pub default : Text
  pub allow : List Text
  pub deny : List Text

-- The compiled rules. `exact` holds true for an allowed name and false for a denied one.
pub record Filter : Type 0 where
  pub exact : List (Text × Bool)
  pub allow_patterns : List Text
  pub deny_patterns : List Text
  pub default_allow : Bool
  pub profile_name : Text

abbrev pub star : ℕ
star = b'*'

-- Each round cuts the pattern at its first star, so its length is fuel enough.
unfoldable pub match_rounds : ℕ → Text → Text → Bool
unfolding has_prefix has_suffix contains before after text_eq
match_rounds zero pattern name = false
match_rounds (suc f) pattern name =
    let prefix = before star pattern in
    let suffix = after star pattern in
    let rest = drop (length prefix) name in
    let deeper = match_rounds f suffix rest in
    if not (contains pattern (star ∷ []))
    then text_eq pattern name
    else if not (has_prefix name prefix)
    then false
    else if text_eq suffix []
    then true
    else deeper || (has_suffix rest suffix && not (contains suffix (star ∷ [])))

unfoldable pub match_wildcard : Text → Text → Bool
unfolding match_rounds
match_wildcard pattern name = match_rounds (length pattern + 1) pattern name

-- `for _, pat := range patterns { if matchWildcard(pat, fnName) { return … } }`
unfoldable pub any_match : List Text → Text → Bool
unfolding match_wildcard
any_match [] fn = false
any_match (pat ∷ pats) fn = if match_wildcard pat fn then true else any_match pats fn

-- `allowed, ok := f.exact[fnName]; ok && !allowed`, and the same with `ok && allowed`.
unfoldable pub is_denied : Option Bool → Bool
is_denied (some allowed) = not allowed
is_denied none = false

unfoldable pub is_allowed : Option Bool → Bool
is_allowed (some allowed) = allowed
is_allowed none = false

unfoldable pub allow : Filter → Text → Bool
unfolding is_denied is_allowed
allow f fn =
    if is_denied (lookup fn f.exact)
    then false
    else if is_allowed (lookup fn f.exact)
    then true
    else if any_match f.deny_patterns fn
    then false
    else if any_match f.allow_patterns fn
    then true
    else f.default_allow

-- ToLower, for texts whose lower case is compared with an ASCII word.
unfoldable pub to_lower : Text → Text
to_lower [] = []
to_lower (c ∷ s) = (if leb b'A' c && leb c b'Z' then c + 32 else c) ∷ to_lower s

-- The two loops of LoadFilter.
unfoldable pub add_allow : Filter → Text → Filter
add_allow f pat =
    if contains pat (star ∷ [])
    then record f { allow_patterns = f.allow_patterns ++ pat ∷ [] }
    else record f { exact = insert pat true f.exact }

unfoldable pub add_deny : Filter → Text → Filter
add_deny f pat =
    if contains pat (star ∷ [])
    then record f { deny_patterns = f.deny_patterns ++ pat ∷ [] }
    else record f { exact = insert pat false f.exact }

unfoldable pub fresh : Text → FilterConfig → Filter
fresh profile cfg = record {
  exact = [];
  allow_patterns = [];
  deny_patterns = [];
  default_allow = text_eq (to_lower cfg.default) (codes "allow");
  profile_name = profile;
}

unfoldable pub compile : Text → FilterConfig → Filter
unfolding fresh
compile profile cfg = foldl add_deny (foldl add_allow (fresh profile cfg) cfg.allow) cfg.deny

-- The two errors of LoadFilter, each with the cause that it wraps.
pub data LoadError : Type 0 where
  not_found : Text → Text → LoadError
  invalid : Text → Text → LoadError

-- What LoadFilter takes from outside: ReadFile, and Unmarshal of package yaml.
pub record Profiles : Type 0 where
  pub read_file : Text → Result Text Text
  pub unmarshal : Text → Result Text FilterConfig

unfoldable pub profile_path : Text → Text → Text
unfolding join
profile_path filter_dir profile = join filter_dir (profile ++ codes ".yaml")

unfoldable pub load_filter : Profiles → Text → Text → Result LoadError Filter
load_filter io filter_dir profile = do
  content ← map_err (not_found profile) (io.read_file (profile_path filter_dir profile))
  cfg ← map_err (invalid profile) (io.unmarshal content)
  ok (compile profile cfg)

unfoldable pub allow_all : Filter
allow_all = record {
  exact = [];
  allow_patterns = [];
  deny_patterns = [];
  default_allow = true;
  profile_name = codes "allow-all";
}
