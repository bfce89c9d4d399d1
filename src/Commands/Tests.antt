-- ===== src/Commands/Tests.antt =====
-- A restart whose storage nodes fail, and payloads.
use ydbops.Base.{
  ◌≡◌, refl, false, String, Option, none, some, [], ◌∷◌, text_comparable, num_comparable,
}
use ydbops.Restarters.{Restarter, storage_ssh}
use ydbops.Commands.{
  prepare_restarters, run_in_order, restart_run, file_mode, not_readable, executable,
  not_executable, nil_file_info, check_payload,
}

abbrev storage_fails : Restarter → Option String
storage_fails (storage_ssh unit ssh_args) = some "down"
storage_fails _ = none

storage_only_run :
    restart_run storage_fails false false "" [] "unit" ≡ (storage_ssh "unit" [] ∷ [], some "down")
unfolding restart_run run_in_order prepare_restarters
storage_only_run = refl

script : check_payload (λ path. file_mode 0o755) "script.sh" ≡ executable
unfolding check_payload
script = refl

text_file : check_payload (λ path. file_mode 0o644) "text" ≡ not_executable
unfolding check_payload
text_file = refl

-- An error of `os.Stat` but that the file does not exist leaves a nil `fileInfo`.
unreadable : check_payload (λ path. not_readable) "secret.sh" ≡ nil_file_info
unfolding check_payload
unreadable = refl
