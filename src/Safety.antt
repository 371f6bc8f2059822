-- ===== src/Safety.antt =====
-- internal/safety/checker.go: the static check of submitted code before it is run.
pub mod Verdict
pub mod Scan
pub mod Fuel
mod Tests
use chrysalis.Base.{
  ℕ, zero, suc, Bool, true, false, ◌||◌, ◌&&◌, List, [], ◌∷◌, ◌++◌, map, ◌==◌, leb, if◌then◌else◌,
  any, length, drop, Text, codes, text_eq, Option, none, some,
}
use chrysalis.Strings.{has_prefix, contains, before}

abbrev pub blocked_modules : List Text
blocked_modules =
    codes "os"
    ∷ codes "sys"
    ∷ codes "socket"
    ∷ codes "subprocess"
    ∷ codes "ctypes"
    ∷ codes "importlib"
    ∷ codes "pickle"
    ∷ codes "marshal"
    ∷ codes "shutil"
    ∷ codes "pathlib"
    ∷ codes "threading"
    ∷ codes "multiprocessing"
    ∷ codes "asyncio"
    ∷ codes "signal"
    ∷ codes "resource"
    ∷ codes "pty"
    ∷ codes "io"
    ∷ codes "tempfile"
    ∷ codes "builtins"
    ∷ codes "gc"
    ∷ codes "weakref"
    ∷ codes "inspect"
    ∷ codes "types"
    ∷ codes "traceback"
    ∷ []

abbrev pub blocked_builtins : List Text
blocked_builtins =
    codes "eval("
    ∷ codes "exec("
    ∷ codes "compile("
    ∷ codes "__import__("
    ∷ codes "open("
    ∷ codes "breakpoint("
    ∷ codes "globals("
    ∷ codes "locals("
    ∷ codes "vars("
    ∷ codes "getattr("
    ∷ codes "setattr("
    ∷ codes "delattr("
    ∷ []

-- What an entry of Blocked is formatted from.
pub data Finding : Type 0 where
  blocked_import : Text → Finding
  blocked_call : Text → Finding

pub record Result : Type 0 where
  pub safe : Bool
  pub blocked : List Finding

-- The classes `\s` and `[\w.]` of the regular expression.
unfoldable pub is_space : ℕ → Bool
is_space c = (c == b'\t') || (c == b'\n') || (c == 12) || (c == b'\r') || (c == b' ')

unfoldable pub is_word : ℕ → Bool
is_word c =
    (leb b'0' c && leb c b'9')
    || (leb b'A' c && leb c b'Z')
    || (leb b'a' c && leb c b'z')
    || (c == b'_')
    || (c == b'.')

unfoldable pub skip_spaces : Text → Text
skip_spaces [] = []
skip_spaces (c ∷ s) = if is_space c then skip_spaces s else c ∷ s

unfoldable pub words : Text → Text
words [] = []
words (c ∷ s) = if is_word c then c ∷ words s else []

-- `([\w.]+)`: what it captures, and what follows.
captured : Text → Text → Option (Text × Text)
captured [] s = none
captured (c ∷ w) s = some (c ∷ w, drop (length (c ∷ w)) s)

unfoldable pub module_name : Text → Option (Text × Text)
unfolding captured words
module_name s = captured (words s) s

-- `\s+([\w.]+)`
unfoldable pub after_keyword : Text → Option (Text × Text)
unfolding module_name is_space skip_spaces
after_keyword [] = none
after_keyword (c ∷ s) = if is_space c then module_name (skip_spaces s) else none

-- `(?:import|from)\s+([\w.]+)`
unfoldable pub keyword : Text → Option (Text × Text)
unfolding after_keyword has_prefix
keyword s =
    if has_prefix s (codes "import")
    then after_keyword (drop 6 s)
    else if has_prefix s (codes "from")
    then after_keyword (drop 4 s)
    else none

-- The match at one place, where `line_start` tells whether `^` holds there.
unfoldable pub match_here : Bool → Text → Option (Text × Text)
unfolding keyword
match_here line_start [] = none
match_here line_start (c ∷ s) =
    if is_space c then keyword s else if line_start then keyword (c ∷ s) else none

go_on : (Bool → Text → List Text) → ℕ → Text → Option (Text × Text) → List Text
go_on scan c s none = scan (c == b'\n') s
go_on scan c s (some (name, rest)) = name ∷ scan false rest

-- `FindAllStringSubmatch(code, -1)`: the leftmost match, then the leftmost one in what follows it.
unfoldable pub scan : ℕ → Bool → Text → List Text
unfolding go_on match_here
scan zero line_start s = []
scan (suc fuel) line_start [] = []
scan (suc fuel) line_start (c ∷ s) = go_on (scan fuel) c s (match_here line_start (c ∷ s))

-- A step of the scan moves on by a character or more, so that the length is fuel enough.
unfoldable pub imports : Text → List Text
unfolding scan
imports code = scan (length code) true code

-- `strings.SplitN(m, ".", 2)[0]`
unfoldable pub top_level : Text → Text
top_level m = before b'.' m

unfoldable pub is_blocked : Text → Bool
is_blocked name = any (λ m. text_eq m name) blocked_modules

unfoldable pub check_imports : List Text → List Finding
check_imports [] = []
check_imports (m ∷ ms) =
    if is_blocked (top_level m)
    then blocked_import (top_level m) ∷ check_imports ms
    else check_imports ms

unfoldable pub check_calls : Text → List Text → List Finding
unfolding contains
check_calls code [] = []
check_calls code (b ∷ bs) =
    if contains code b then blocked_call b ∷ check_calls code bs else check_calls code bs

-- Safe starts as true and each finding makes it false.
unfoldable pub is_nil : List Finding → Bool
is_nil [] = true
is_nil (x ∷ xs) = false

unfoldable pub check : Text → Result
unfolding check_imports check_calls imports is_nil
check code =
    let found = check_imports (imports code) ++ check_calls code blocked_builtins in
    record { safe = is_nil found; blocked = found }
