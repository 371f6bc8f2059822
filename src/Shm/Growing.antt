-- ===== src/Shm/Growing.antt =====
-- While a request sets up its blocks, no file goes away and every block has its file.
use mathlib.Core.Option.{some-injective}
use chrysalis.Base.{
  ℕ, ◌≡◌, refl, sym, subst, ◌∙◌, inl, inr, Bool-cases, ◌==◌, Text, text_eq, text_eq_refl, Option,
  none, some, Option-cases, Result, ok, err, nat_key, text_key, lookup, insert, lookup-insert,
}
use chrysalis.Wire.{Bytes}
use chrysalis.Shm.{
  System, AllocOutcome, allocates, open_fails, truncate_fails, mmap_fails, ShmBlock, ShmError, Shm,
  shm_dir, shm_name, next_counter, path_of, zeros, opened, exists, alloc_shm, register, alloc,
  new_manager, pop_outcome, later_outcomes, fill, fill_found, copied, get,
}
use chrysalis.Shm.Blocks.{Fate, alloc_shm-Fate}

abbrev pub HasFile : Text → System → Type 0
HasFile p sys = (b : Bytes) × (lookup p sys.files ≡ some b)

-- From `s` to `t` the system stays in place and no file goes away.
pub record Grows (s t : System) : Type 0 where
  pub same_dev : t.dev_shm ≡ s.dev_shm
  pub same_temp : t.temp_dir ≡ s.temp_dir
  pub keeps : (p : Text) → HasFile p s → HasFile p t

pub Grows-refl : (s : System) → Grows s s
Grows-refl s = record { same_dev = refl; same_temp = refl; keeps = λ p h. h }

pub Grows-trans : {s t u : System} → Grows s t → Grows t u → Grows s u
Grows-trans a b = record {
  same_dev = b.same_dev ∙ a.same_dev;
  same_temp = b.same_temp ∙ a.same_temp;
  keeps = λ p h. b.keeps p (a.keeps p h);
}

pub path_of-Grows : (s t : System) (name : Text) → Grows s t → path_of t name ≡ path_of s name
unfolding path_of shm_dir
path_of-Grows s t name g = rw (g.same_dev, g.same_temp) refl

-- Every block has its file.
pub record IsBacked (s : Shm) : Type 0 where
  pub backed :
      (h : ℕ) (blk : ShmBlock) → get s.mgr h ≡ some blk → HasFile (path_of s.sys blk.name) s.sys

pub new_manager-IsBacked : (sys : System) → IsBacked (record { sys = sys; mgr = new_manager })
unfolding new_manager get lookup
new_manager-IsBacked sys = record { backed = λ h blk e. absurd cc }

opened-place :
    (sys : System) (name path : Text) (n : ℕ) (o : AllocOutcome)
    → ((opened sys name path n o).0.dev_shm ≡ sys.dev_shm)
      × ((opened sys name path n o).0.temp_dir ≡ sys.temp_dir)
unfolding opened
opened-place sys name path n (open_fails e) = (refl, refl)
opened-place sys name path n (truncate_fails e) = (refl, refl)
opened-place sys name path n (mmap_fails e) = (refl, refl)
opened-place sys name path n allocates = elim (Bool-cases (n == 0)) [
  | inl z ↦ rw z (refl, refl)
  | inr z ↦ rw z (refl, refl)
]

alloc_shm-place :
    (n : ℕ) (sys : System)
    → ((alloc_shm n sys).0.dev_shm ≡ sys.dev_shm) × ((alloc_shm n sys).0.temp_dir ≡ sys.temp_dir)
unfolding alloc_shm exists
alloc_shm-place n sys =
    let k = next_counter sys in
    let name = shm_name sys.pid_tag k in
    let next = record sys { shm_counter = k; outcomes = later_outcomes sys.outcomes } in
    elim (Option-cases (lookup (path_of sys name) sys.files)) [
      | inl e ↦ rw e (opened-place next name (path_of sys name) n (pop_outcome sys.outcomes))
      | inr (b, e) ↦ rw e (refl, refl)
    ]

-- What a step that may fail does, when it does not.
abbrev pub Well : {A E : Type 0} → (A → Shm → Type 0) → Shm → Shm × Result E A → Type 0
Well P s (t, ok a) = Grows s.sys t.sys × IsBacked t × P a t
Well P s (t, err e) = Unit {0}

pub Well-Grows :
    {A E : Type 0} (P : A → Shm → Type 0) (s t : Shm) (r : Shm × Result E A)
    → Grows s.sys t.sys
    → Well P t r
    → Well P s r
Well-Grows P s t (u, ok a) g (h, v, p) = (Grows-trans g h, v, p)
Well-Grows P s t (u, err e) g w = tt

register-Well :
    (n : ℕ) (s : Shm) (r : System × Result ShmError Text)
    → IsBacked s
    → Fate n s.sys r
    → (r.0.dev_shm ≡ s.sys.dev_shm) × (r.0.temp_dir ≡ s.sys.temp_dir)
    → Well (λ h t. Unit {0}) s (register n s.mgr r)
unfolding register get
register-Well n s (sys', err e) v fate place = tt
register-Well n s (sys', ok name) v (fresh, same, _) (dev, temp) =
    let path = path_of s.sys name in
    let g : Grows s.sys sys' = record {
      same_dev = dev;
      same_temp = temp;
      keeps = λ p (b, e). elim (Bool-cases (text_eq path p)) [
        | inl is ↦ (zeros n, same p ∙ rw is refl)
        | inr is ↦ (b, same p ∙ rw is e)
      ];
    } in
    let blk : ShmBlock = record { name = name; size = n } in
    let made : HasFile (path_of sys' name) sys' =
      subst (λ p. HasFile p sys') (sym (path_of-Grows s.sys sys' name g))
        (zeros n, same path ∙ rw (text_eq_refl path) refl) in
    (
      g,
      record {
        backed = λ h b e.
            let found = sym (lookup-insert s.mgr.next_h h blk s.mgr.blocks) ∙ e in
            elim (Bool-cases (s.mgr.next_h == h)) [
              | inl is ↦
                  subst (λ c. HasFile (path_of sys' c.name) sys')
                    (some-injective blk b (rw is at found)) made
              | inr is ↦
                  subst (λ p. HasFile p sys') (sym (path_of-Grows s.sys sys' b.name g))
                    (g.keeps (path_of s.sys b.name) (v.backed h b (rw is at found)))
            ];
      },
      tt,
    )

-- Alloc takes no file away, and its block has a file.
pub alloc-Well : (n : ℕ) (s : Shm) → IsBacked s → Well (λ h t. Unit {0}) s (alloc n s)
unfolding alloc
alloc-Well n s v =
    register-Well n s (alloc_shm n s.sys) v (alloc_shm-Fate n s.sys) (alloc_shm-place n s.sys)

fill_found-Grows :
    (raw : Bytes) (s : Shm) (o : Option ShmBlock)
    → IsBacked s
    → Grows s.sys (fill_found raw s o).sys × IsBacked (fill_found raw s o)
unfolding fill_found
fill_found-Grows raw s none v = (Grows-refl s.sys, v)
fill_found-Grows raw s (some blk) v =
    let path = path_of s.sys blk.name in
    let content = copied raw (lookup path s.sys.files) in
    let t : System = record s.sys { files = insert path content s.sys.files } in
    let keeps : (p : Text) → HasFile p s.sys → HasFile p t = λ p (b, e).
      let same = lookup-insert path p content s.sys.files in
      elim (Bool-cases (text_eq path p)) [
        | inl is ↦ (content, same ∙ rw is refl)
        | inr is ↦ (b, same ∙ rw is e)
      ] in
    let g : Grows s.sys t = record { same_dev = refl; same_temp = refl; keeps = keeps } in
    (
      g,
      record {
        backed = λ h b e.
            subst (λ p. HasFile p t) (sym (path_of-Grows s.sys t b.name g))
              (keeps (path_of s.sys b.name) (v.backed h b e));
      },
    )

-- Neither does a copy into a block.
pub fill-Grows :
    (h : ℕ) (raw : Bytes) (s : Shm)
    → IsBacked s
    → Grows s.sys (fill h raw s).sys × IsBacked (fill h raw s)
unfolding fill
fill-Grows h raw s v = fill_found-Grows raw s (get s.mgr h) v
