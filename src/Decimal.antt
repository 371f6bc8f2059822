-- ===== src/Decimal.antt =====
-- Numbers as text: `%d` of Go's package fmt.
pub mod Digits
use mathlib.Core.List.{foldl, foldl-append}
use chrysalis.Base.{
  ℕ, zero, suc, ◌+◌, ◌-◌, ◌*◌, ◌/◌, ◌%◌, ◌≤◌, ◌≡◌, sym, ap, ◌∙◌, [], ◌∷◌, ◌++◌, ltb, if◌then◌else◌,
  arith, Text,
}

-- The last digit is `n % 10`. A number has no more digits than its value, so `n` is fuel enough.
unfoldable pub digits : ℕ → ℕ → Text
digits zero n = (b'0' + n % 10) ∷ []
digits (suc f) n =
    let more = digits f (n / 10) ++ (b'0' + n % 10) ∷ [] in
    if ltb n 10 then (b'0' + n) ∷ [] else more

unfoldable pub show : ℕ → Text
unfolding digits
show n = digits n n

-- The number that digits stand for.
abbrev add_digit : ℕ → ℕ → ℕ
add_digit v d = v * 10 + (d - b'0')

value : Text → ℕ
value = foldl add_digit 0

value-snoc : (s : Text) (d : ℕ) → value (s ++ d ∷ []) ≡ value s * 10 + (d - b'0')
unfolding value
value-snoc s d = rw foldl-append

value-digits : (f n : ℕ) → n ≤ f → value (digits f n) ≡ n
unfolding digits value
value-digits zero n h = omega arith
value-digits (suc f) n h =
    ground (arith, value-digits f (n / 10), value-snoc (digits f (n / 10)) (b'0' + n % 10))

value-show : (n : ℕ) → value (show n) ≡ n
unfolding show
value-show n = value-digits n n (omega arith)

-- Different numbers have different texts.
pub show_injective : (m n : ℕ) → show m ≡ show n → m ≡ n
show_injective m n e = sym (value-show m) ∙ ap value e ∙ value-show n
