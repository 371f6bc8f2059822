-- ===== src/Filter/Tests.antt =====
-- Runs of filter.go on small profiles.
use chrysalis.Base.{
  ◌≡◌, refl, ◌↔◌, inr, true, false, [], ◌∷◌, if◌then◌else◌, arith, Text, codes, text_eq, text_key,
  lookup, insert, ok, err,
}
use chrysalis.Strings.{contains}
use chrysalis.FilePath.Plain.{IsPlain}
use chrysalis.Filter.{
  match_wildcard, allow, FilterConfig, add_allow, add_deny, any_match, to_lower, compile,
  profile_path, Profiles, load_filter, not_found,
}
use chrysalis.Filter.Wildcard.{Stretches, match_wildcard_iff}
use chrysalis.Filter.Glob.{Glob, match_wildcard-Glob_iff, match_wildcard_misses}
use chrysalis.Filter.Rules.{verdict, allow-compile}
use chrysalis.Filter.Load.{load_filter-verdict, profile_path_escapes}

middle_star : match_wildcard (codes "numpy.*.__probe__") (codes "numpy.fft.__probe__") ≡ true
unfolding match_wildcard
middle_star = refl

two_stars : match_wildcard (codes "*x*") (codes "yx") ≡ false
unfolding match_wildcard
two_stars = refl

abbrev config : FilterConfig
config = record {
  name = codes "t";
  description = [];
  default = codes "Deny";
  allow = codes "numpy.*" ∷ codes "scipy.a" ∷ codes "numpy.load" ∷ [];
  deny = codes "numpy.load" ∷ codes "scipy.*" ∷ [];
}

exact_deny : allow (compile (codes "t") config) (codes "numpy.load") ≡ false
unfolding allow compile add_allow add_deny any_match lookup insert contains to_lower text_eq
exact_deny = refl

exact_allow : allow (compile (codes "t") config) (codes "scipy.a") ≡ true
unfolding allow compile add_allow add_deny any_match lookup insert contains to_lower text_eq
exact_allow = refl

goes_up : profile_path (codes "filters/x") (codes "../../etc/./p") ≡ codes "etc/p.yaml"
unfolding profile_path
goes_up = refl

abbrev sandbox : Profiles
sandbox = record {
  read_file = λ path. if text_eq path (codes "filters/t.yaml") then ok [] else err (codes "ENOENT");
  unmarshal = λ content. ok config;
}

missing :
    load_filter sandbox (codes "filters") (codes "u") ≡ err (not_found (codes "u") (codes "ENOENT"))
unfolding load_filter profile_path text_eq
missing = refl

allow-compile_example :
    allow (compile (codes "t") config) (codes "numpy.sin") ≡ verdict config (codes "numpy.sin")
allow-compile_example = allow-compile (codes "t") config (codes "numpy.sin")

match_wildcard_iff_example :
    (match_wildcard (codes "a*b*") (codes "abc") ≡ true) ↔ Stretches (codes "a*b*") (codes "abc")
match_wildcard_iff_example = match_wildcard_iff (codes "a*b*") (codes "abc")

match_wildcard-Glob_iff_example :
    (match_wildcard (codes "a.*") (codes "a.b") ≡ true) ↔ Glob (codes "a.*") (codes "a.b")
match_wildcard-Glob_iff_example =
    match_wildcard-Glob_iff (codes "a.*") (codes "a.b")
      (inr (codes "a.", [], refl, omega arith, tt))

match_wildcard_misses_example :
    Glob (codes "*x*") (codes "yxz") × (match_wildcard (codes "*x*") (codes "yxz") ≡ false)
match_wildcard_misses_example =
    match_wildcard_misses b'x' b'y' (codes "z") (omega arith) (omega arith)

load_filter-verdict_example :
    (content : Text) × (cfg : FilterConfig) × (sandbox.read_file
        (profile_path (codes "filters") (codes "t"))
      ≡ ok content)
    × (sandbox.unmarshal content ≡ ok cfg)
    × (allow (compile (codes "t") config) (codes "numpy.e") ≡ verdict cfg (codes "numpy.e"))
    × ((compile (codes "t") config).profile_name ≡ codes "t")
unfolding load_filter profile_path text_eq
load_filter-verdict_example =
    load_filter-verdict sandbox (codes "filters") (codes "t") (codes "numpy.e") refl

filters_IsPlain : IsPlain (codes "filters")
unfolding text_eq
filters_IsPlain = record { no_slash = omega arith; not_empty = refl; not_dot = refl; not_up = refl }

profile_path_escapes_example : profile_path (codes "filters") (codes "../evil") ≡ codes "evil.yaml"
profile_path_escapes_example =
    profile_path_escapes (codes "filters") (codes "evil") filters_IsPlain (omega arith)
