-- ===== src/Decimal/Digits.antt =====
-- The characters of a printed number.
use chrysalis.Base.{ℕ, zero, suc, ◌/◌, ◌<◌, Bool-cases, inl, inr, ltb, All-append, arith}
use chrysalis.Strings.Search.{Lacks}
use chrysalis.Decimal.{digits, show}

Lacks-digits : (sep f n : ℕ) → sep < b'0' → Lacks sep (digits f n)
unfolding digits
Lacks-digits sep zero n h = (omega arith, tt)
Lacks-digits sep (suc f) n h = elim (Bool-cases (ltb n 10)) [
  | inl small ↦ rw small (omega arith, tt)
  | inr large ↦
      rw large
        (All-append _ (digits f (n / 10)) _ (Lacks-digits sep f (n / 10) h) (omega arith, tt))
]

-- A character below the digits does not occur.
pub Lacks-show : (sep n : ℕ) → sep < b'0' → Lacks sep (show n)
unfolding show
Lacks-show sep n h = Lacks-digits sep n n h
