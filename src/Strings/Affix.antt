-- ===== src/Strings/Affix.antt =====
-- Prefixes and suffixes of texts.
use chrysalis.Base.{
  ◌-◌, ◌≡◌, refl, ap, sym, ◌∙◌, true, [], ◌∷◌, ◌++◌, arith, length, take, drop, length-append,
  take-append-drop, drop-length-append, take-length-append, Text, text_eq_iff, text_eq_refl,
}
use chrysalis.Strings.{has_prefix, has_suffix, trim_suffix}

pub has_prefix-append : (p t : Text) → has_prefix (p ++ t) p ≡ true
unfolding has_prefix
has_prefix-append [] t = refl
has_prefix-append (c ∷ p) t = ground (arith, has_prefix-append p t)

pub eq_of_has_prefix : (s p : Text) → has_prefix s p ≡ true → s ≡ p ++ drop (length p) s
unfolding has_prefix
eq_of_has_prefix s [] h = refl
eq_of_has_prefix [] (c ∷ p) h = cc
eq_of_has_prefix (d ∷ s) (c ∷ p) h = ground (arith, eq_of_has_prefix s p)

pub has_suffix-append : (w t : Text) → has_suffix (w ++ t) t ≡ true
unfolding has_suffix
has_suffix-append w t =
    let n : length (w ++ t) - length t ≡ length w = omega (arith, length-append {0} w t) in
    rw (n, drop-length-append w t, text_eq_refl t) (ground (arith, length-append w t))

pub eq_of_has_suffix : (s t : Text) → has_suffix s t ≡ true → s ≡ take (length s - length t) s ++ t
unfolding has_suffix
eq_of_has_suffix s t h =
    let e : drop (length s - length t) s ≡ t =
      ground (arith, text_eq_iff (drop (length s - length t) s) t) in
    sym (take-append-drop (length s - length t) s) ∙ ap (◌++◌ (take (length s - length t) s)) e

pub trim_suffix-append : (w t : Text) → trim_suffix (w ++ t) t ≡ w
unfolding trim_suffix
trim_suffix-append w t =
    let n : length (w ++ t) - length t ≡ length w = omega (arith, length-append {0} w t) in
    rw (has_suffix-append w t, n) (take-length-append w t)
