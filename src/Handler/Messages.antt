-- ===== src/Handler/Messages.antt =====
-- The message of a failed run.
use chrysalis.Base.{
  ℕ, ◌≡◌, ◌≢◌, refl, Bool, true, false, [], ◌∷◌, ◌==◌, Bool-cases, inl, inr, arith, Text, codes,
  text_eq,
}
use chrysalis.Strings.{contains, has_prefix}
use chrysalis.Strings.Search.{Lacks, Lacks-of_contains}
use chrysalis.Handler.{
  keep_unless, trim_left, trim_right, is_space, trim_space, after_last, line_end, last_line,
  translate_exec_error,
}

trim_left-Lacks : (p : ℕ → Bool) (sep : ℕ) (s : Text) → Lacks sep s → Lacks sep (trim_left p s)
unfolding trim_left
trim_left-Lacks p sep [] h = tt
trim_left-Lacks p sep (c ∷ s) (h, hs) = elim (Bool-cases (p c)) [
  | inl y ↦ rw y (trim_left-Lacks p sep s hs)
  | inr n ↦ rw n (h, hs)
]

keep_unless-Lacks :
    (b : Bool) (c sep : ℕ) (s : Text) → c ≢ sep → Lacks sep s → Lacks sep (keep_unless b c s)
unfolding keep_unless
keep_unless-Lacks true c sep [] h hs = tt
keep_unless-Lacks false c sep [] h hs = (h, tt)
keep_unless-Lacks b c sep (d ∷ s) h hs = (h, hs)

trim_right-Lacks : (p : ℕ → Bool) (sep : ℕ) (s : Text) → Lacks sep s → Lacks sep (trim_right p s)
unfolding trim_right
trim_right-Lacks p sep [] h = tt
trim_right-Lacks p sep (c ∷ s) (h, hs) =
    keep_unless-Lacks (p c) c sep (trim_right p s) h (trim_right-Lacks p sep s hs)

after_last-Lacks : (sep : ℕ) (s : Text) → Lacks sep (after_last sep s)
unfolding after_last
after_last-Lacks sep [] = tt
after_last-Lacks sep (c ∷ s) = elim (Bool-cases (contains s (sep ∷ []))) [
  | inl y ↦ rw y (after_last-Lacks sep s)
  | inr n ↦ elim (Bool-cases (c == sep)) [
    | inl here ↦ rw (n, here) (Lacks-of_contains sep s n)
    | inr other ↦ rw (n, other) (ground arith, Lacks-of_contains sep s n)
  ]
]

last_line-Lacks : (s : Text) → Lacks b'\n' (last_line s)
unfolding last_line trim_space
last_line-Lacks s =
    trim_right-Lacks is_space b'\n' _
      (trim_left-Lacks is_space b'\n' _ (after_last-Lacks b'\n' (trim_right line_end s)))

exited-IsLine : Lacks b'\n' (codes "Python user code exited with a non-zero status")
unfolding contains has_prefix
exited-IsLine =
    Lacks-of_contains b'\n' (codes "Python user code exited with a non-zero status") refl

timed_out-IsLine : Lacks b'\n' (codes "execution timed out")
unfolding contains has_prefix
timed_out-IsLine = Lacks-of_contains b'\n' (codes "execution timed out") refl

-- For an error that is not empty and has no line break, the message is a single line and not empty.
pub translate_exec_error-IsLine :
    (raw stderr : Text)
    → Lacks b'\n' raw
    → text_eq raw [] ≡ false
    → Lacks b'\n' (translate_exec_error raw stderr)
      × (text_eq (translate_exec_error raw stderr) [] ≡ false)
unfolding translate_exec_error text_eq
translate_exec_error-IsLine raw stderr one_line not_empty =
    elim (Bool-cases (text_eq (last_line stderr) [])) [
      | inr line ↦ rw line (last_line-Lacks stderr, line)
      | inl nothing ↦ elim (Bool-cases (contains raw (codes "exit_code"))) [
        | inl exit ↦ rw (nothing, exit) (exited-IsLine, refl)
        | inr other ↦ elim (Bool-cases (contains raw (codes "context deadline exceeded"))) [
          | inl late ↦ rw (nothing, other, late) (timed_out-IsLine, refl)
          | inr unknown ↦ rw (nothing, other, unknown) (one_line, not_empty)
        ]
      ]
    ]
