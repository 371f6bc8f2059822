-- ===== src/Flags/Settings.antt =====
-- Settings of flags on the command line: which flag gets which value.
use chrysalis.Base.{
  ◌≡◌, refl, sym, All, ◌||◌, ◌⊎◌, ap, ◌∙◌, true, false, Bool, List, [], ◌∷◌, ◌++◌, append_assoc,
  append-nil, Bool-cases, inl, inr, if◌then◌else◌, Text, codes, text_eq, Option, none, some, Result,
  ok, err, ◌>>=◌,
}
use chrysalis.Base.Int.{ℤ, pos}
use chrysalis.Strings.{contains, before, after, has_prefix}
use chrysalis.Flags.{
  Flag, Flags, FlagError, wasm, filter_dir, port, sock, worker, shim, workers, default_flags,
  as_int, word_of, named, names, after_dashes, flag_of, set, with_value, on_word, parse,
}

unfoldable pub name_of : Flag → Text
name_of wasm = codes "wasm"
name_of filter_dir = codes "filter-dir"
name_of port = codes "port"
name_of sock = codes "sock"
name_of worker = codes "worker"
name_of shim = codes "shim"
name_of workers = codes "workers"

-- A flag with a value: in the next argument or after an `=`, with one dash or two.
pub record Setting : Type 0 where
  pub two_dashes : Bool
  pub joined : Bool
  pub flag : Flag
  pub value : Text

unfoldable pub dashed : Bool → Text → Text
dashed true s = b'-' ∷ b'-' ∷ s
dashed false s = b'-' ∷ s

unfoldable pub words : Setting → List Text
unfolding dashed name_of
words s =
    if s.joined
    then dashed s.two_dashes (name_of s.flag ++ b'=' ∷ s.value) ∷ []
    else dashed s.two_dashes (name_of s.flag) ∷ s.value ∷ []

unfoldable pub words_of : List Setting → List Text
unfolding words
words_of [] = []
words_of (s ∷ ss) = words s ++ words_of ss

flag_of-name_of : (f : Flag) → flag_of (name_of f) ≡ some f
unfolding flag_of name_of text_eq
flag_of-name_of wasm = refl
flag_of-name_of filter_dir = refl
flag_of-name_of port = refl
flag_of-name_of sock = refl
flag_of-name_of worker = refl
flag_of-name_of shim = refl
flag_of-name_of workers = refl

named-spaced : (w : Text) (f : Flag) → named w (name_of f) ≡ names (name_of f) none
unfolding named name_of contains has_prefix
named-spaced w wasm = refl
named-spaced w filter_dir = refl
named-spaced w port = refl
named-spaced w sock = refl
named-spaced w worker = refl
named-spaced w shim = refl
named-spaced w workers = refl

named-joined :
    (w : Text) (f : Flag) (v : Text) → named w (name_of f ++ b'=' ∷ v) ≡ names (name_of f) (some v)
unfolding named name_of contains has_prefix before after
named-joined w wasm v = refl
named-joined w filter_dir v = refl
named-joined w port v = refl
named-joined w sock v = refl
named-joined w worker v = refl
named-joined w shim v = refl
named-joined w workers v = refl

-- A text after one dash or two is the name, if it begins like one.
word_of-dashed :
    (two : Bool) (f : Flag) (rest : Text)
    → word_of (dashed two (name_of f ++ rest))
      ≡ named (dashed two (name_of f ++ rest)) (name_of f ++ rest)
unfolding word_of dashed name_of after_dashes
word_of-dashed true wasm rest = refl
word_of-dashed true filter_dir rest = refl
word_of-dashed true port rest = refl
word_of-dashed true sock rest = refl
word_of-dashed true worker rest = refl
word_of-dashed true shim rest = refl
word_of-dashed true workers rest = refl
word_of-dashed false wasm rest = refl
word_of-dashed false filter_dir rest = refl
word_of-dashed false port rest = refl
word_of-dashed false sock rest = refl
word_of-dashed false worker rest = refl
word_of-dashed false shim rest = refl
word_of-dashed false workers rest = refl

word_of-name : (two : Bool) (f : Flag) → word_of (dashed two (name_of f)) ≡ names (name_of f) none
word_of-name two f =
    let e : name_of f ++ [] ≡ name_of f = append-nil (name_of f) in
    rw e at (word_of-dashed two f []) ∙ named-spaced (dashed two (name_of f)) f

module _ (parse_int : Text → Option ℤ) where
  -- The settings one after the other; the first bad value ends it.
  unfoldable pub sets : List Setting → Flags → Result FlagError Flags
  sets [] fl = ok fl
  sets (s ∷ ss) fl = set parse_int s.flag s.value fl >>= sets ss

  on_word-names :
      (go : Option Flag → Flags → Result FlagError Flags) (f : Flag) (v : Option Text) (fl : Flags)
      → on_word parse_int go (names (name_of f) v) fl
        ≡ with_value parse_int go (name_of f) v (some f) fl
  unfolding on_word
  on_word-names go f v fl = rw (flag_of-name_of f) refl

  parse-joined :
      (two : Bool) (f : Flag) (v : Text) (rest : List Text) (fl : Flags)
      → parse parse_int (dashed two (name_of f ++ b'=' ∷ v) ∷ rest) none fl
        ≡ (set parse_int f v fl >>= parse parse_int rest none)
  unfolding parse with_value
  parse-joined two f v rest fl =
      rw (word_of-dashed two f (b'=' ∷ v), named-joined (dashed two (name_of f ++ b'=' ∷ v)) f v)
        (on_word-names (parse parse_int rest) f (some v) fl)

  parse-spaced :
      (two : Bool) (f : Flag) (v : Text) (rest : List Text) (fl : Flags)
      → parse parse_int (dashed two (name_of f) ∷ v ∷ rest) none fl
        ≡ (set parse_int f v fl >>= parse parse_int rest none)
  unfolding parse with_value
  parse-spaced two f v rest fl =
      rw (word_of-name two f) (on_word-names (parse parse_int (v ∷ rest)) f none fl)

  parse-words :
      (s : Setting) (rest : List Text) (fl : Flags)
      → parse parse_int (words s ++ rest) none fl
        ≡ (set parse_int s.flag s.value fl >>= parse parse_int rest none)
  unfolding words
  parse-words s rest fl = elim (Bool-cases s.joined) [
    | inl e ↦ rw e (parse-joined s.two_dashes s.flag s.value rest fl)
    | inr e ↦ rw e (parse-spaced s.two_dashes s.flag s.value rest fl)
  ]

  bind_ext :
      (r : Result FlagError Flags) (g h : Flags → Result FlagError Flags)
      → ((fl : Flags) → g fl ≡ h fl)
      → (r >>= g) ≡ (r >>= h)
  bind_ext (ok fl) g h e = e fl
  bind_ext (err x) g h e = refl

  bind_assoc :
      (r : Result FlagError Flags) (g h : Flags → Result FlagError Flags)
      → (r >>= λ fl. g fl >>= h) ≡ ((r >>= g) >>= h)
  bind_assoc (ok fl) g h = refl
  bind_assoc (err x) g h = refl

  -- Settings at the beginning of a command line are applied one after the other, and the rest is read
  -- from there.
  parse-words_of :
      (ss : List Setting) (rest : List Text) (fl : Flags)
      → parse parse_int (words_of ss ++ rest) none fl ≡ (sets ss fl >>= parse parse_int rest none)
  unfolding words_of sets
  parse-words_of [] rest fl = refl
  parse-words_of (s ∷ ss) rest fl =
      ap (λ l. parse parse_int l none fl) (append_assoc (words s) (words_of ss) rest)
      ∙ parse-words s (words_of ss ++ rest) fl
      ∙ bind_ext (set parse_int s.flag s.value fl) _ _ (parse-words_of ss rest)
      ∙ bind_assoc (set parse_int s.flag s.value fl) (sets ss) (parse parse_int rest none)

  -- The last value that the settings give under a name, or what there was before.
  unfoldable pub last_value : Text → List Setting → Text → Text
  unfolding name_of
  last_value name [] v = v
  last_value name (s ∷ ss) v =
      last_value name ss (if text_eq (name_of s.flag) name then s.value else v)

  unfoldable pub number_or : ℤ → Option ℤ → ℤ
  number_or n none = n
  number_or n (some k) = k

  unfoldable pub last_number : Text → List Setting → ℤ → ℤ
  unfolding name_of number_or
  last_number name [] n = n
  last_number name (s ∷ ss) n =
      last_number name ss
        (if text_eq (name_of s.flag) name then number_or n (parse_int s.value) else n)

  -- The flags by their names.
  abbrev pub by_name : List Setting → Flags → Flags
  by_name ss fl = record {
    wasm_path = last_value (codes "wasm") ss fl.wasm_path;
    filter_dir = last_value (codes "filter-dir") ss fl.filter_dir;
    port = last_number (codes "port") ss fl.port;
    sock_path = last_value (codes "sock") ss fl.sock_path;
    worker_script = last_value (codes "worker") ss fl.worker_script;
    shim_script = last_value (codes "shim") ss fl.shim_script;
    workers = last_number (codes "workers") ss fl.workers;
  }

  -- The value of a numeric flag is a number.
  abbrev pub IsValid : Setting → Type 0
  IsValid s =
      (text_eq (name_of s.flag) (codes "port") || text_eq (name_of s.flag) (codes "workers")
        ≡ false)
      ⊎ ((n : ℤ) × (parse_int s.value ≡ some n))

  set-by_name :
      (two joined : Bool) (f : Flag) (v : Text) (fl : Flags)
      → IsValid (record { two_dashes = two; joined = joined; flag = f; value = v })
      → set parse_int f v fl
        ≡ ok (by_name (record { two_dashes = two; joined = joined; flag = f; value = v } ∷ []) fl)
  unfolding set as_int last_value last_number number_or name_of text_eq
  set-by_name two joined wasm v fl valid = refl
  set-by_name two joined filter_dir v fl valid = refl
  set-by_name two joined sock v fl valid = refl
  set-by_name two joined worker v fl valid = refl
  set-by_name two joined shim v fl valid = refl
  set-by_name two joined port v fl (inl no_number) = absurd cc
  set-by_name two joined port v fl (inr (n, e)) = rw e refl
  set-by_name two joined workers v fl (inl no_number) = absurd cc
  set-by_name two joined workers v fl (inr (n, e)) = rw e refl

  sets-by_name : (ss : List Setting) (fl : Flags) → All IsValid ss → sets ss fl ≡ ok (by_name ss fl)
  unfolding sets last_value last_number
  sets-by_name [] fl valid = refl
  sets-by_name (s ∷ ss) fl (v, valid) =
      ap (λ r. r >>= sets ss) (set-by_name s.two_dashes s.joined s.flag s.value fl v)
      ∙ sets-by_name ss (by_name (s ∷ []) fl) valid

  -- On a command line of settings of known flags, each with its value in the next argument or after an
  -- equals sign and with one dash or two, whatever the values are, as long as those of --port and
  -- --workers are numbers: every flag has the value that is given last under its name, or its
  -- default when there is none.
  pub parse-settings :
      (ss : List Setting)
      → All IsValid ss
      → parse parse_int (words_of ss) none default_flags
        ≡ ok (
            by_name ss (record {
              wasm_path = codes "wasm/python.wasm";
              filter_dir = codes "filters";
              port = pos 8080;
              sock_path = codes "/tmp/chrysalis_worker.sock";
              worker_script = codes "shim/worker.py";
              shim_script = codes "shim/bootstrap.py";
              workers = pos 4;
            }))
  unfolding default_flags parse
  parse-settings ss valid =
      ap (λ l. parse parse_int l none default_flags) (sym (append-nil (words_of ss)))
      ∙ parse-words_of ss [] default_flags
      ∙ ap (λ r. r >>= parse parse_int [] none) (sets-by_name ss default_flags valid)
