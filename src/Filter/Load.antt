-- ===== src/Filter/Load.antt =====
-- LoadFilter: which file a profile is read from, and what the filter then decides.
use chrysalis.Base.{
  ◌≡◌, ◌<◌, length, length-append, Bool-cases, inl, inr, ap, ◌≢◌, false, [], ◌∷◌, ◌++◌, arith, Text,
  codes, text_eq, text_eq_iff, ok, map_err, bind-ok, map_err-eq-ok, All-append,
}
use chrysalis.Strings.Search.{Lacks}
use chrysalis.FilePath.{slash}
use chrysalis.FilePath.Plain.{IsPlain, join-IsPlain, join-up}
use chrysalis.Filter.{FilterConfig, Filter, Profiles, allow, compile, profile_path, load_filter}
use chrysalis.Filter.Rules.{verdict, allow-compile, profile_name-compile}

-- A filter that is loaded comes from the profile's file, and decides as the file's lists say.
pub load_filter-verdict :
    (io : Profiles) (dir profile fn : Text) {f : Filter}
    → load_filter io dir profile ≡ ok f
    → (content : Text) × (cfg : FilterConfig) × (io.read_file (profile_path dir profile)
        ≡ ok content)
      × (io.unmarshal content ≡ ok cfg)
      × (allow f fn ≡ verdict cfg fn)
      × (f.profile_name ≡ profile)
unfolding load_filter
load_filter-verdict io dir profile fn {f} h =
    let (content, rest, read) = bind-ok _ (map_err _ (io.read_file _)) h in
    let (cfg, done, parsed) = bind-ok _ (map_err _ (io.unmarshal content)) rest in
    let e : f ≡ compile profile cfg = cc in
    (
      content,
      cfg,
      map_err-eq-ok _ _ read,
      map_err-eq-ok _ _ parsed,
      rw e (allow-compile profile cfg fn),
      rw e (profile_name-compile profile cfg),
    )

longer : (q t : Text) → length t < 5 → text_eq (q ++ codes ".yaml") t ≡ false
longer q t h = elim (Bool-cases (text_eq (q ++ codes ".yaml") t)) [
  | inl same ↦
      let e = ap length ((text_eq_iff (q ++ codes ".yaml") t).0 same) in
      absurd (omega (arith, e, length-append q (codes ".yaml")))
  | inr other ↦ other
]

-- With its extension every name without a slash is plain.
yaml-IsPlain : (q : Text) → Lacks slash q → IsPlain (q ++ codes ".yaml")
unfolding text_eq
yaml-IsPlain q h = record {
  no_slash = All-append (λ c. c ≢ slash) q (codes ".yaml") h (omega arith);
  not_empty = longer q [] (omega arith);
  not_dot = longer q (codes ".") (omega arith);
  not_up = longer q (codes "..") (omega arith);
}

-- The file of a plain profile name lies in the filter directory.
pub profile_path_plain :
    (dir profile : Text)
    → IsPlain dir
    → Lacks slash profile
    → profile_path dir profile ≡ dir ++ slash ∷ (profile ++ codes ".yaml")
unfolding profile_path
profile_path_plain dir profile d p =
    join-IsPlain dir (profile ++ codes ".yaml") d (yaml-IsPlain profile p)

-- A profile name that begins with `../` leaves it.
pub profile_path_escapes :
    (dir profile : Text)
    → IsPlain dir
    → Lacks slash profile
    → profile_path dir (codes "../" ++ profile) ≡ profile ++ codes ".yaml"
unfolding profile_path
profile_path_escapes dir profile d p =
    join-up dir (profile ++ codes ".yaml") d (yaml-IsPlain profile p)
