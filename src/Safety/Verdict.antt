-- ===== src/Safety/Verdict.antt =====
-- What decides the verdict of Check.
use chrysalis.Base.{
  ◌≡◌, refl, Bool, true, false, not, ◌&&◌, List, [], ◌∷◌, ◌++◌, any, Bool-cases, inl, inr, arith,
  Text, Some,
}
use chrysalis.Strings.{contains}
use chrysalis.Strings.Search.{contains-append}
use chrysalis.Safety.{
  Finding, is_nil, is_blocked, top_level, imports, check_imports, check_calls, check,
  blocked_builtins,
}

is_nil-append : (a b : List Finding) → is_nil (a ++ b) ≡ (is_nil a && is_nil b)
unfolding is_nil
is_nil-append [] b = refl
is_nil-append (x ∷ a) b = refl

is_nil-check_imports :
    (ms : List Text) → is_nil (check_imports ms) ≡ not (any (λ m. is_blocked (top_level m)) ms)
unfolding is_nil check_imports
is_nil-check_imports [] = refl
is_nil-check_imports (m ∷ ms) = elim (Bool-cases (is_blocked (top_level m))) [
  | inl bad ↦ rw bad refl
  | inr good ↦ rw good (is_nil-check_imports ms)
]

is_nil-check_calls :
    (code : Text) (bs : List Text) → is_nil (check_calls code bs) ≡ not (any (contains code) bs)
unfolding is_nil check_calls
is_nil-check_calls code [] = refl
is_nil-check_calls code (b ∷ bs) = ground (arith, is_nil-check_calls code bs)

-- The code is safe exactly if no import that the scan finds is of a blocked module and no blocked
-- call occurs in it as a substring.
pub check-safe :
    (code : Text)
    → (check code).safe ≡ (
        not (any (λ m. is_blocked (top_level m)) (imports code))
        && not (any (contains code) blocked_builtins))
unfolding check
check-safe code = ground (
  arith,
  is_nil-append (check_imports (imports code)) (check_calls code blocked_builtins),
  is_nil-check_imports (imports code),
  is_nil-check_calls code blocked_builtins,
)

and_false : (b : Bool) → (b && false) ≡ false
and_false true = refl
and_false false = refl

any-Some :
    (code t : Text) (bs : List Text)
    → Some (λ b. b ≡ t) bs
    → contains code t ≡ true
    → any (contains code) bs ≡ true
any-Some code t [] s h = elim s [ ]
any-Some code t (b ∷ bs) (inl e) h = rw (e, h)
any-Some code t (b ∷ bs) (inr s) h = ground (arith, any-Some code t bs s)

-- Code in which a blocked call occurs is not safe, wherever it occurs.
pub call_caught :
    (a t b : Text) → Some (λ c. c ≡ t) blocked_builtins → (check (a ++ (t ++ b))).safe ≡ false
call_caught a t b listed =
    rw
      (
        check-safe (a ++ (t ++ b)),
        any-Some (a ++ (t ++ b)) t blocked_builtins listed (contains-append a t b),
      )
      (and_false (not (any (λ m. is_blocked (top_level m)) (imports (a ++ (t ++ b))))))
