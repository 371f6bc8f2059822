-- ===== src/FilePath/Plain.antt =====
-- Join on elements that cleaning leaves alone.
use mathlib.Core.List.{foldl}
use chrysalis.Base.{
  ℕ, ◌≡◌, refl, ◌∙◌, ◌≢◌, Bool, false, List, [], ◌∷◌, ◌++◌, arith, Text, codes, text_eq,
}
use chrysalis.Strings.Search.{Lacks}
use chrysalis.FilePath.{slash, elements, walk, up, render, or_dot, clean, join}

-- A path element that stands for itself: not empty, with no slash, and neither `.` nor `..`.
pub record IsPlain (name : Text) : Type 0 where
  pub no_slash : Lacks slash name
  pub not_empty : text_eq name [] ≡ false
  pub not_dot : text_eq name (codes ".") ≡ false
  pub not_up : text_eq name (codes "..") ≡ false

pub elements_of_Lacks : (s : Text) → Lacks slash s → elements s ≡ s ∷ []
unfolding elements
elements_of_Lacks [] h = refl
elements_of_Lacks (c ∷ s) h = ground (arith, elements_of_Lacks s)

elements-append : (s t : Text) → Lacks slash s → elements (s ++ slash ∷ t) ≡ s ∷ elements t
unfolding elements
elements-append [] t h = ground arith
elements-append (c ∷ s) t h = ground (arith, elements-append s t)

pub walk-IsPlain :
    (rooted : Bool) (stack : List Text) (e : Text) → IsPlain e → walk rooted stack e ≡ e ∷ stack
unfolding walk
walk-IsPlain rooted stack e h = rw (h.not_empty, h.not_dot, h.not_up)

-- `..` after a plain element.
pop_plain : (e : Text) → IsPlain e → up false (e ∷ []) ≡ []
unfolding up
pop_plain e h = rw h.not_up

or_dot-IsPlain : (e : Text) → IsPlain e → or_dot e ≡ e
unfolding or_dot text_eq
or_dot-IsPlain [] h = cc h.not_empty
or_dot-IsPlain (c ∷ e) h = refl

clean-relative :
    (c : ℕ) (s : Text)
    → c ≢ slash
    → clean (c ∷ s) ≡ or_dot (render (foldl (walk false) [] (elements (c ∷ s))))
unfolding clean
clean-relative c s h = ground arith

-- Two plain elements stay.
pub join-IsPlain : (dir e : Text) → IsPlain dir → IsPlain e → join dir e ≡ dir ++ slash ∷ e
unfolding join
join-IsPlain [] e d h = cc d.not_empty
join-IsPlain (c ∷ dir) e d h =
    clean-relative c (dir ++ slash ∷ e) d.no_slash.0
    ∙ rw (
      elements-append (c ∷ dir) e d.no_slash,
      elements_of_Lacks e h.no_slash,
      walk-IsPlain false [] (c ∷ dir) d,
      walk-IsPlain false ((c ∷ dir) ∷ []) e h,
    )

-- A `..` takes the directory away.
pub join-up : (dir e : Text) → IsPlain dir → IsPlain e → join dir (codes ".." ++ slash ∷ e) ≡ e
unfolding join
join-up [] e d h = cc d.not_empty
join-up (c ∷ dir) e d h =
    clean-relative c (dir ++ slash ∷ (codes ".." ++ slash ∷ e)) d.no_slash.0
    ∙ rw
        (
          elements-append (c ∷ dir) (codes ".." ++ slash ∷ e) d.no_slash,
          elements_of_Lacks e h.no_slash,
          walk-IsPlain false [] (c ∷ dir) d,
        )
        (rw (pop_plain (c ∷ dir) d, walk-IsPlain false [] e h) (or_dot-IsPlain e h))
