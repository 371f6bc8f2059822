-- ===== src/Command/Tests.antt =====
-- The process from its command line to its end.
use mathlib.Core.List.Perm
use chrysalis.Base.{
  ◌≡◌, refl, All, inl, inr, true, false, List, [], ◌∷◌, Text, codes, text_eq, none, some, ok,
  if◌then◌else◌,
}
use chrysalis.Base.Int.{pos, negsuc}
use chrysalis.FilePath.{clean}
use chrysalis.Strings.{has_suffix}
use chrysalis.Engine.Tests.{outside, made, one_worker}
use chrysalis.Flags.{wasm, workers, default_flags, parse}
use chrysalis.Flags.Settings.{Setting, words_of, name_of, by_name, IsValid, parse-settings}
use chrysalis.Command.{Setup, Request, Life, server_closed, clean_path, main, answer}
use chrysalis.Command.Routes.{Answered, answer-Answered}
use chrysalis.Command.Exits.{EndsAs, main-EndsAs}

-- Only the number 1 is understood, and the body of a request is its code.
abbrev setup : Setup
setup = record {
  outside = outside;
  error_text = λ x. codes "failed";
  decode = λ body. ok (record { code = body; filter = codes "allow-all"; timeout_sec = negsuc 0 });
  parse_int = λ v. if text_eq v (codes "1") then some (pos 1) else none;
}

abbrev post : Request
post = record {
  method = codes "POST";
  path = codes "/run";
  body = codes "print(1)";
  random = 1 ∷ 2 ∷ 254 ∷ 0 ∷ 0 ∷ 16 ∷ [];
  within = λ d. record { done = false; takes_done = false };
  instantiate = λ d m args. record { requests = []; stderr = []; exec_error = none };
  elapsed = 2500000;
}

abbrev settings : List Setting
settings =
    record { two_dashes = true; joined = true; flag = wasm; value = codes "-p=q" }
    ∷ record { two_dashes = false; joined = false; flag = workers; value = codes "1" }
    ∷ []

settings-IsValid : All (IsValid setup.parse_int) settings
unfolding name_of text_eq
settings-IsValid = (inl refl, (inr (pos 1, refl), tt))

parse-settings_example :
    parse setup.parse_int (words_of settings) none default_flags
    ≡ ok (
        by_name setup.parse_int settings (record {
          wasm_path = codes "wasm/python.wasm";
          filter_dir = codes "filters";
          port = pos 8080;
          sock_path = codes "/tmp/chrysalis_worker.sock";
          worker_script = codes "shim/worker.py";
          shim_script = codes "shim/bootstrap.py";
          workers = pos 4;
        }))
parse-settings_example = parse-settings setup.parse_int settings settings-IsValid

answer-Answered_example :
    Answered setup post (made one_worker) (answer setup post (made one_worker))
answer-Answered_example = answer-Answered setup post (made one_worker)

abbrev life : Life
life = record {
  requests = post ∷ record post { path = codes "/health" } ∷ [];
  server_end = server_closed;
}

abbrev command_line : List Text
command_line = codes "chrysalis" ∷ codes "serve" ∷ words_of settings

main-EndsAs_example :
    EndsAs setup life command_line
      (main setup life command_line)
      (main setup life command_line).reason
main-EndsAs_example = main-EndsAs setup life command_line Perm.refl

not_clean : clean_path (codes "run//") ≡ codes "/run/"
unfolding clean_path has_suffix clean
not_clean = refl
