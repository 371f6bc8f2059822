-- ===== src/Dispatch/Arrays.antt =====
-- An array that the sandbox sends inline, on its way into shared memory.
use chrysalis.Base.{
  ℕ, ◌≡◌, refl, sym, ap, ◌∙◌, true, false, [], ◌∷◌, ◌++◌, length, All, Text, codes, text_eq,
  text_key, text_eq_refl, text_eq_iff, some, Result, ok, err, lookup,
}
use chrysalis.Base.Int.{ℤ, pos}
use chrysalis.Strings.Search.{Lacks}
use chrysalis.FilePath.{slash, join}
use chrysalis.FilePath.Plain.{IsPlain}
use chrysalis.Wire.{Bytes}
use chrysalis.Base64.{encode, decode}
use chrysalis.Base64.RoundTrip.{IsByte, decode-encode}
use chrysalis.Worker.Protocol.{Arg, string, kind_ndarray}
use chrysalis.Shm.{
  System, dir, Shm, new_manager, path_of, shm_dir, shm_dir_at, get, alloc, fill, next_counter,
}
use chrysalis.Shm.Paths.{shm_name-IsPlain, join-dev_shm}
use chrysalis.Shm.Contents.{IsReady, Holds, next_name, next_path, next_block, alloc-fill}
use chrysalis.Dispatch.{
  DispatchError, no_block, unknown_handle, located, stored, unpacked, resolve_arg, shm_file_path,
  file_dir,
}

file_path-dir :
    (sys : System) (name : Text)
    → sys.dev_shm ≡ dir
    → shm_file_path sys name ≡ codes "/dev/shm/" ++ name
unfolding shm_file_path file_dir
file_path-dir sys name e = ap (λ d. file_dir d sys.temp_dir ++ codes "/" ++ name) e

path_of-dir :
    (sys : System) (name : Text)
    → sys.dev_shm ≡ dir
    → IsPlain name
    → path_of sys name ≡ codes "/dev/shm/" ++ name
unfolding path_of shm_dir
path_of-dir sys name e plain =
    ap (λ d. join (shm_dir_at d sys.temp_dir) name) e ∙ join-dev_shm name plain

-- What resolveArg makes of the array `a` that holds `raw`, with the file at `path`.
pub record Delivers (raw : Bytes) (a : Arg) (path : Text) (r : Shm × Result DispatchError Arg)
    : Type 0 where
  pub sent : Arg
  pub succeeds : r.1 ≡ ok sent
  pub names_file : sent.value ≡ string path
  pub file_content : lookup path r.0.sys.files ≡ some raw
  pub same_kind : sent.kind ≡ kind_ndarray
  pub same_shape : sent.shape ≡ a.shape
  pub same_dtype : sent.dtype ≡ a.dtype

located-Holds :
    (raw : Bytes) (a : Arg) (h : ℤ) (s t : Shm)
    → Holds raw s t
    → s.sys.dev_shm ≡ dir
    → Lacks slash s.sys.pid_tag
    → Delivers raw a
        (next_path s.sys)
        (located no_block a h t (some (next_block (length raw) s.sys)))
unfolding located
located-Holds raw a h s t holds e plain = record {
  sent = _;
  succeeds = refl;
  names_file =
      let name = next_name s.sys in
      let is_plain = shm_name-IsPlain s.sys.pid_tag (next_counter s.sys) plain in
      ap string
        (file_path-dir t.sys name (holds.same_dev ∙ e) ∙ sym (path_of-dir s.sys name e is_plain));
  file_content = holds.content;
  same_kind = refl;
  same_shape = refl;
  same_dtype = refl;
}

encode-not_empty : (x : ℕ) (xs : Bytes) → text_eq (encode (x ∷ xs)) [] ≡ false
unfolding encode text_eq
encode-not_empty x [] = refl
encode-not_empty x (y ∷ []) = refl
encode-not_empty x (y ∷ z ∷ xs) = refl

is_array : (a : Arg) → a.kind ≡ kind_ndarray → text_eq a.kind kind_ndarray ≡ true
is_array a kind = (text_eq_iff a.kind kind_ndarray).1 kind

-- When /dev/shm is a directory and the next allocation goes well: an array with the Base64 text of
-- some bytes, not none, becomes an argument with the path of a file that holds exactly those bytes,
-- the next one of shared memory, with the same shape and element type.
pub resolve_arg-Delivers :
    (a : Arg) (x : ℕ) (xs : Bytes) (s : Shm)
    → a.kind ≡ kind_ndarray
    → a.b64 ≡ encode (x ∷ xs)
    → All IsByte (x ∷ xs)
    → s.sys.dev_shm ≡ dir
    → Lacks slash s.sys.pid_tag
    → IsReady s.sys
    → Delivers (x ∷ xs) a (next_path s.sys) (resolve_arg a s)
unfolding resolve_arg unpacked stored
resolve_arg-Delivers a x xs s kind b64 bytes e plain ready =
    let (t, went, holds) = alloc-fill x xs s ready in
    rw
      (
        is_array a kind,
        ap (λ c. text_eq c []) b64 ∙ encode-not_empty x xs,
        ap decode b64 ∙ decode-encode (x ∷ xs) bytes,
        went,
        holds.registered,
      )
      (located-Holds (x ∷ xs) a (pos s.mgr.next_h) s _ holds e plain)

-- It does so by an allocation and a copy.
pub resolve_arg-state :
    (a : Arg) (x : ℕ) (xs : Bytes) (s : Shm)
    → a.kind ≡ kind_ndarray
    → a.b64 ≡ encode (x ∷ xs)
    → All IsByte (x ∷ xs)
    → IsReady s.sys
    → (resolve_arg a s).0 ≡ fill s.mgr.next_h (x ∷ xs) (alloc (length (x ∷ xs)) s).0
unfolding resolve_arg unpacked stored located
resolve_arg-state a x xs s kind b64 bytes ready =
    let (t, went, holds) = alloc-fill x xs s ready in
    rw
      (
        is_array a kind,
        ap (λ c. text_eq c []) b64 ∙ encode-not_empty x xs,
        ap decode b64 ∙ decode-encode (x ∷ xs) bytes,
        went,
        holds.registered,
      )
      refl

-- An array that is not sent inline is refused when no block is allocated yet, whatever its handle
-- and its other fields.
pub resolve_arg-new_manager :
    (a : Arg) (sys : System)
    → a.kind ≡ kind_ndarray
    → a.b64 ≡ []
    → (resolve_arg a (record { sys = sys; mgr = new_manager })).1
      ≡ err (unknown_handle a.shm_handle)
unfolding resolve_arg located get new_manager lookup
resolve_arg-new_manager a sys kind b64 =
    rw (is_array a kind, ap (λ c. text_eq c []) b64 ∙ text_eq_refl []) refl
