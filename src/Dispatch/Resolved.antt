-- ===== src/Dispatch/Resolved.antt =====
-- The shape of the arguments that a worker receives.
use chrysalis.Base.{◌≡◌, true, false, List, [], ◌∷◌, Text, text_eq, Result, ok, err}
use chrysalis.Worker.Protocol.{Arg, string, kind_ndarray}
use chrysalis.Shm.{System, Shm, path_of}
use chrysalis.Shm.Growing.{HasFile}
use chrysalis.Dispatch.{BridgeRequest, DispatchError, shm_file_path}

-- An argument of the request, and what becomes of it on a system.
pub data Resolves (a b : Arg) (sys : System) : Type 0 where
  same : text_eq a.kind kind_ndarray ≡ false → b ≡ a → Resolves a b sys
  -- an array goes by the path of a block's file, its bytes left out
  by_file :
      (name : Text)
      → text_eq a.kind kind_ndarray ≡ true
      → b.kind ≡ kind_ndarray
      → b.value ≡ string (shm_file_path sys name)
      → HasFile (path_of sys name) sys
      → b.b64 ≡ []
      → b.shape ≡ a.shape
      → b.dtype ≡ a.dtype
      → Resolves a b sys

pub data AllResolve (sys : System) : List Arg → List Arg → Type 0 where
  nothing : AllResolve sys [] []
  and_arg :
      {a b : Arg} {as_ bs : List Arg}
      → Resolves a b sys
      → AllResolve sys as_ bs
      → AllResolve sys (a ∷ as_) (b ∷ bs)

pub data AllResolveNamed (sys : System) : List (Text × Arg) → List (Text × Arg) → Type 0 where
  nothing : AllResolveNamed sys [] []
  and_arg :
      {k : Text} {a b : Arg} {as_ bs : List (Text × Arg)}
      → Resolves a b sys
      → AllResolveNamed sys as_ bs
      → AllResolveNamed sys ((k, a) ∷ as_) ((k, b) ∷ bs)

-- The arguments that a request leads to, for the worker to see, and the files then.
abbrev pub AllTyped :
    BridgeRequest → Shm × Result DispatchError (List Arg × List (Text × Arg)) → Type 0
AllTyped req (t, ok (args, kwargs)) =
    AllResolve t.sys req.args args × AllResolveNamed t.sys req.kwargs kwargs
AllTyped req (t, err e) = Unit {0}
