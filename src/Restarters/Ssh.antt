-- ===== src/Restarters/Ssh.antt =====
-- common_ssh.go, with the unit names of storage_ssh.go and tenant_ssh.go: the command line that is
-- handed to `bash -c`. Looking up bash and running the command are the operating system's.
use Prim.Native.String
use ydbops.Base.{
  String, Bool, ◌||◌, Option, none, some, List, [], ◌∷◌, ◌++◌, ◌==◌, if◌then◌else◌, text_comparable,
}

abbrev pub is_ssh_bin : String → Bool
is_ssh_bin arg = arg == "ssh" || arg == "pssh" || arg == "nssh"

-- The loop, from a command found so far; the last one wins.
unfoldable pub strip_from : String → List String → String × List String
strip_from command [] = (command, [])
strip_from command (arg ∷ args) =
    let (found, remaining) = strip_from (if is_ssh_bin arg then arg else command) args in
    (found, (if is_ssh_bin arg then remaining else arg ∷ remaining))

unfoldable pub strip_command_from_args : List String → String × List String
strip_command_from_args args = strip_from "ssh" args

-- `strings.Join(_, " ")`
unfoldable pub join_words : List String → String
join_words [] = ""
join_words (word ∷ []) = word
join_words (word ∷ next ∷ words) = String.◌++◌ word (String.◌++◌ " " (join_words (next ∷ words)))

abbrev pub remote_restart_command : String → String
remote_restart_command unit_name =
    String.◌++◌ "\"(test -x /bin/systemctl && sudo systemctl restart " (String.◌++◌ unit_name ")\"")

-- The arguments behind the command; `none` is the error for another command.
unfoldable pub full_ssh_args : String → List String → String → String → Option (List String)
full_ssh_args ssh_command remaining host remote =
    if ssh_command == "ssh"
    then some (remaining ++ (host ∷ remote ∷ []))
    else if ssh_command == "nssh" || ssh_command == "pssh"
    then some (remaining ++ ("run" ∷ remote ∷ host ∷ []))
    else none

-- The text that `restartNodeBySystemdUnit` gives to `bash -c`.
unfoldable pub ssh_command_line : String → String → List String → Option String
unfolding strip_command_from_args full_ssh_args
ssh_command_line host unit_name ssh_args =
    let (ssh_command, remaining) = strip_command_from_args ssh_args in
    elim (full_ssh_args ssh_command remaining host (remote_restart_command unit_name)) [
      | none ↦ none
      | some args ↦ some (String.◌++◌ ssh_command (String.◌++◌ " " (join_words args)))
    ]
