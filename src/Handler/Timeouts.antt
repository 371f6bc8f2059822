-- ===== src/Handler/Timeouts.antt =====
-- The durations of the contexts, on 64 bits.
use chrysalis.Base.{ℕ, zero, suc, ◌+◌, ◌*◌, ◌^◌, ◌≤◌, ◌<◌, ◌≡◌, refl, true, false, Bool, arith}
use chrysalis.Base.Int.{ℤ, pos, negsuc}
use chrysalis.Handler.{RunRequest, run_of, seconds, wrap64, timeout_or_30}

pub is_negative : ℤ → Bool
is_negative (pos n) = false
is_negative (negsuc n) = true

wrap64-small : (n : ℕ) → n < 2 ^ 63 → wrap64 n ≡ pos n
unfolding wrap64
wrap64-small n h = ground arith

wrap64-large : (n : ℕ) → 2 ^ 63 ≤ n → n < 2 ^ 64 → is_negative (wrap64 n) ≡ true
unfolding wrap64 is_negative
wrap64-large n h k = ground arith

timeout_or_30-pos : (n : ℕ) → 0 < n → timeout_or_30 (pos n) ≡ n
unfolding timeout_or_30
timeout_or_30-pos zero h = ground arith
timeout_or_30-pos (suc n) h = refl

-- A requested timeout of 1 to 9223372031 seconds gives the engine that many seconds and the handler
-- five more; one of 9223372037 to 18446744068 seconds gives both contexts a negative duration, so
-- that they have expired before the run begins.
pub run_of-durations :
    (req : RunRequest) (n : ℕ)
    → req.timeout_sec ≡ pos n
    → 0 < n
    → (n ≤ 9223372031
        → ((run_of req).inner ≡ pos (n * 10 ^ 9)) × ((run_of req).outer ≡ pos ((n + 5) * 10 ^ 9)))
      × (9223372037 ≤ n
          → n ≤ 18446744068
          → (is_negative (run_of req).inner ≡ true) × (is_negative (run_of req).outer ≡ true))
unfolding run_of seconds
run_of-durations req n e positive =
    rw (e, timeout_or_30-pos n positive)
      (
        λ small. (
          wrap64-small (n * 10 ^ 9) (omega arith),
          wrap64-small ((n + 5) * 10 ^ 9) (omega arith),
        ),
        λ large fits. (
          wrap64-large (n * 10 ^ 9) (omega arith) (omega arith),
          wrap64-large ((n + 5) * 10 ^ 9) (omega arith) (omega arith),
        ),
      )
