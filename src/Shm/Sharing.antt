-- ===== src/Shm/Sharing.antt =====
-- Managers of different requests over one file system, as concurrent dispatches use them: an operation
-- of one leaves the files of the others alone.
mod Effects
use chrysalis.Base.{
  ℕ, ◌≡◌, ◌≢◌, refl, ap, ◌∙◌, sym, Bool, true, false, List, [], ◌∷◌, ◌==◌, ==_iff, if◌then◌else◌,
  All, Bool-cases, inl, inr, ◌⊎◌, arith, Text, Option, none, some, lookup, text_key,
}
use chrysalis.Wire.{Bytes}
use chrysalis.Shm.{System, Shm, ShmManager, new_manager, exists, alloc, fill, free_all, shm_dir}
use Effects.{owns_in, Effect, alloc-Effect, fill-Effect, free_all-Effect}

-- The files, and the manager of each request; those that have not begun are new.
pub record Shared : Type 0 where
  pub sys : System
  pub mgrs : ℕ → ShmManager

-- One operation of the manager with a number.
pub data Operation : Type 0 where
  allocates : ℕ → Operation
  copies : ℕ → Bytes → Operation
  frees_all : Operation

unfoldable pub operate : Operation → Shm → Shm
operate (allocates n) s = (alloc n s).0
operate (copies h raw) s = fill h raw s
operate frees_all s = free_all s

operate-Effect : (o : Operation) (s : Shm) → Effect s (operate o s)
unfolding operate
operate-Effect (allocates n) s = alloc-Effect n s
operate-Effect (copies h raw) s = fill-Effect h raw s
operate-Effect frees_all s = free_all-Effect s

abbrev pub shm_of : Shared → ℕ → Shm
shm_of g i = record { sys = g.sys; mgr = g.mgrs i }

unfoldable pub act : Shared → ℕ × Operation → Shared
act g (k, o) =
    let s = operate o (shm_of g k) in
    record { sys = s.sys; mgrs = λ i. if k == i then s.mgr else g.mgrs i }

unfoldable pub acts : Shared → List (ℕ × Operation) → Shared
acts g [] = g
acts g (a ∷ rest) = acts (act g a) rest

abbrev pub Owns : Shared → ℕ → Text → Type 0
Owns g i p = owns_in (shm_dir g.sys) (g.mgrs i) p ≡ true

-- Every block has its file, and no two managers have a block at the same path.
pub record IsApart (g : Shared) : Type 0 where
  pub has_file : (i : ℕ) (p : Text) → Owns g i p → exists (lookup p g.sys.files) ≡ true
  pub one_owner : (i j : ℕ) (p : Text) → Owns g i p → Owns g j p → i ≡ j

exists_none : (o : Option Bytes) → o ≡ none → exists o ≡ true → ⊥
unfolding exists
exists_none o e h = cc

false_of_not : (b : Bool) → (b ≡ true → ⊥) → b ≡ false
false_of_not b h = ground (arith, h)

module _ (g : Shared) (k : ℕ) (t : Shm) (apart : IsApart g) (eff : Effect (shm_of g k) t) where
  not_before :
      (i : ℕ) (p : Text) → i ≢ k → Owns g i p → owns_in (shm_dir g.sys) (g.mgrs k) p ≡ false
  not_before i p other own = false_of_not _ λ mine. other (apart.one_owner i k p own mine)

  -- What belongs to another manager is not the acting manager's, after its operation either.
  not_after : (i : ℕ) (p : Text) → i ≢ k → Owns g i p → owns_in (shm_dir t.sys) t.mgr p ≡ false
  not_after i p other own =
      false_of_not _
        λ mine. exists_none _ (eff.fresh p (not_before i p other own) mine) (apart.has_file i p own)

  others_kept :
      (i : ℕ) (p : Text) → i ≢ k → Owns g i p → lookup p t.sys.files ≡ lookup p g.sys.files
  others_kept i p other own = eff.untouched p (not_before i p other own) (not_after i p other own)

abbrev after_act : Shared → ℕ → Shm → Shared
after_act g k t = record { sys = t.sys; mgrs = λ i. if k == i then t.mgr else g.mgrs i }

-- Who owns a path after an operation: the acting manager by its new blocks, another one as before.
Owns-after :
    (g : Shared) (k : ℕ) (t : Shm)
    → shm_dir t.sys ≡ shm_dir g.sys
    → (i : ℕ) (p : Text) → Owns (after_act g k t) i p
    → ((i ≡ k) × (owns_in (shm_dir t.sys) t.mgr p ≡ true)) ⊎ ((i ≢ k) × Owns g i p)
Owns-after g k t dir i p own = elim (Bool-cases (k == i)) [
  | inl e ↦ inl (sym ((==_iff k i).0 e), rw e at own)
  | inr n ↦ inr (λ eq. cc ((==_iff k i).1 (sym eq), n), rw dir at (rw n at own))
]

Owns-kept :
    (g : Shared) (k : ℕ) (t : Shm)
    → shm_dir t.sys ≡ shm_dir g.sys
    → (i : ℕ) (p : Text) → i ≢ k
    → Owns g i p
    → Owns (after_act g k t) i p
Owns-kept g k t dir i p other own = elim (Bool-cases (k == i)) [
  | inl e ↦ absurd (other (sym ((==_iff k i).0 e)))
  | inr n ↦ rw (n, dir) own
]

after_act-IsApart :
    (g : Shared) (k : ℕ) (t : Shm) → IsApart g → Effect (shm_of g k) t → IsApart (after_act g k t)
after_act-IsApart g k t apart eff = record {
  has_file = λ i p own. elim (Owns-after g k t eff.same_dir i p own) [
    | inl (same, now) ↦ eff.backed p (apart.has_file k p) now
    | inr (other, old) ↦ rw (others_kept g k t apart eff i p other old) (apart.has_file i p old)
  ];
  one_owner = λ i j p own_i own_j. elim (Owns-after g k t eff.same_dir i p own_i) [
    | inl (same_i, now_i) ↦ elim (Owns-after g k t eff.same_dir j p own_j) [
      | inl (same_j, now_j) ↦ same_i ∙ sym same_j
      | inr (other_j, old_j) ↦ cc (not_after g k t apart eff j p other_j old_j, now_i)
    ]
    | inr (other_i, old_i) ↦ elim (Owns-after g k t eff.same_dir j p own_j) [
      | inl (same_j, now_j) ↦ cc (not_after g k t apart eff i p other_i old_i, now_j)
      | inr (other_j, old_j) ↦ apart.one_owner i j p old_i old_j
    ]
  ];
}

pub acts-IsApart : (g : Shared) (l : List (ℕ × Operation)) → IsApart g → IsApart (acts g l)
unfolding acts act
acts-IsApart g [] apart = apart
acts-IsApart g ((k, o) ∷ l) apart =
    acts-IsApart (act g (k, o)) l
      (after_act-IsApart g k (operate o (shm_of g k)) apart (operate-Effect o (shm_of g k)))

-- Before any request.
abbrev pub no_blocks : System → Shared
no_blocks sys = record { sys = sys; mgrs = λ i. new_manager }

pub no_blocks-IsApart : (sys : System) → IsApart (no_blocks sys)
unfolding new_manager
no_blocks-IsApart sys = record { has_file = λ i p own. cc; one_owner = λ i j p own. cc }

pub others_act :
    (g : Shared) (l : List (ℕ × Operation)) (i : ℕ) (p : Text)
    → IsApart g
    → Owns g i p
    → All (λ a. i ≢ a.0) l
    → (lookup p (acts g l).sys.files ≡ lookup p g.sys.files) × Owns (acts g l) i p
unfolding acts act
others_act g [] i p apart own others = (refl, own)
others_act g ((k, o) ∷ l) i p apart own (other, others) =
    let t = operate o (shm_of g k) in
    let eff = operate-Effect o (shm_of g k) in
    let (same, still) =
      others_act (act g (k, o)) l i p (after_act-IsApart g k t apart eff)
        (Owns-kept g k t eff.same_dir i p other own) others in
    (same ∙ others_kept g k t apart eff i p other own, still)

-- Managers of any number of requests over one file system, whichever allocations fail: after any
-- history of their operations, what the others do next leaves the file of a block as it is, and the
-- block with its manager.
pub others-keep_blocks :
    (sys : System) (history later : List (ℕ × Operation)) (i : ℕ) (p : Text)
    → Owns (acts (no_blocks sys) history) i p
    → All (λ a. i ≢ a.0) later
    → (lookup p (acts (acts (no_blocks sys) history) later).sys.files
        ≡ lookup p (acts (no_blocks sys) history).sys.files)
      × Owns (acts (acts (no_blocks sys) history) later) i p
others-keep_blocks sys history later i p own others =
    others_act (acts (no_blocks sys) history) later i p
      (acts-IsApart (no_blocks sys) history (no_blocks-IsApart sys)) own others
