-- ===== src/Policy/Commands.antt =====
-- The command tables of internal/policy/engine.go: which commands are read-only, destructive,
-- nested interpreters, downloaders and shells.
pub mod Tables
use ops_terminator.Base.{
  Bool, true, false, not, ◌&&◌, ◌||◌, List, [], ◌∷◌, ◌++◌, ◌==◌, text_eq, if◌then◌else◌, is_empty,
}
use ops_terminator.Base.Text.{Text, bytes, has_prefix, contains, to_lower, equal_fold, one_of}

-- `hasArg`.
unfoldable pub has_arg : List Text → Text → Bool
has_arg [] target = false
has_arg (a ∷ rest) target = equal_fold a target || has_arg rest target

-- `hasArgWithPrefix`.
unfoldable pub has_arg_with_prefix : List Text → Text → Bool
has_arg_with_prefix [] prefix = false
has_arg_with_prefix (a ∷ rest) prefix =
    has_prefix (to_lower prefix) (to_lower a) || has_arg_with_prefix rest prefix

-- `containsEquals`.
unfoldable pub contains_equals : List Text → Bool
contains_equals [] = false
contains_equals (a ∷ rest) = contains (bytes "=") a || contains_equals rest

-- `len(args) > 0 && test(args[0])`.
abbrev first_arg : List Text → (Text → Bool) → Bool
first_arg [] test = false
first_arg (a ∷ _) test = test a

-- `len(args) >= 2 && test(args[1])`.
abbrev second_arg : List Text → (Text → Bool) → Bool
second_arg (_ ∷ b ∷ _) test = test b
second_arg _ test = false

-- The commands that are read-only with any arguments.
abbrev pub read_only_names : List Text
read_only_names =
    bytes "hostname"
    ∷ bytes "uname"
    ∷ bytes "whoami"
    ∷ bytes "pwd"
    ∷ bytes "date"
    ∷ bytes "df"
    ∷ bytes "du"
    ∷ bytes "free"
    ∷ bytes "vm_stat"
    ∷ bytes "swapon"
    ∷ bytes "swapinfo"
    ∷ bytes "lsblk"
    ∷ bytes "mount"
    ∷ bytes "ps"
    ∷ bytes "pgrep"
    ∷ bytes "top"
    ∷ bytes "vmstat"
    ∷ bytes "iostat"
    ∷ bytes "sar"
    ∷ bytes "ss"
    ∷ bytes "netstat"
    ∷ bytes "lsof"
    ∷ bytes "cat"
    ∷ bytes "less"
    ∷ bytes "more"
    ∷ bytes "tail"
    ∷ bytes "head"
    ∷ bytes "grep"
    ∷ bytes "egrep"
    ∷ bytes "fgrep"
    ∷ bytes "awk"
    ∷ bytes "find"
    ∷ bytes "ls"
    ∷ bytes "stat"
    ∷ bytes "file"
    ∷ bytes "readlink"
    ∷ bytes "realpath"
    ∷ bytes "id"
    ∷ bytes "getent"
    ∷ bytes "groups"
    ∷ bytes "journalctl"
    ∷ bytes "dmesg"
    ∷ bytes "printenv"
    ∷ bytes "which"
    ∷ bytes "type"
    ∷ bytes "wc"
    ∷ bytes "sort"
    ∷ bytes "uniq"
    ∷ bytes "cut"
    ∷ bytes "tr"
    ∷ bytes "basename"
    ∷ bytes "dirname"
    ∷ bytes "uptime"
    ∷ bytes "echo"
    ∷ bytes "printf"
    ∷ []

-- `readOnlySystemctlArgs`, `readOnlyLaunchctlArgs`, `readOnlyAptArgs` and `readOnlyDnfArgs`.
abbrev read_only_systemctl_args : List Text
read_only_systemctl_args =
    bytes "status" ∷ bytes "show" ∷ bytes "list-units" ∷ bytes "list-unit-files" ∷ bytes "cat" ∷ []

abbrev read_only_launchctl_args : List Text
read_only_launchctl_args = bytes "list" ∷ bytes "print" ∷ []

abbrev read_only_apt_args : List Text
read_only_apt_args = bytes "list" ∷ bytes "show" ∷ bytes "policy" ∷ []

abbrev read_only_dnf_args : List Text
read_only_dnf_args = bytes "list" ∷ bytes "info" ∷ bytes "repolist" ∷ []

-- The cases of the `switch` that look at the arguments.
unfoldable pub is_read_only_with : Text → List Text → Bool
is_read_only_with command args =
    if command == bytes "env"
    then is_empty args
    else if command == bytes "sed"
    then has_arg args (bytes "-n") && not (has_arg_with_prefix args (bytes "-i"))
    else if command == bytes "sysctl"
    then not (contains_equals args)
    else if command == bytes "systemctl"
    then first_arg args (λ a. one_of (to_lower a) read_only_systemctl_args)
    else if command == bytes "service"
    then second_arg args (λ a. equal_fold a (bytes "status"))
    else if command == bytes "launchctl"
    then first_arg args (λ a. one_of (to_lower a) read_only_launchctl_args)
    else if command == bytes "apt-cache"
    then true
    else if command == bytes "apt"
    then first_arg args (λ a. one_of (to_lower a) read_only_apt_args)
    else if command == bytes "dnf" || command == bytes "yum"
    then first_arg args (λ a. one_of (to_lower a) read_only_dnf_args)
    else if command == bytes "rpm"
    then first_arg args (λ a. a == bytes "-q")
    else if command == bytes "dpkg"
    then first_arg args (λ a. a == bytes "-s")
    else if command == bytes "zypper"
    then first_arg args (λ a. equal_fold a (bytes "search"))
    else if command == bytes "pacman"
    then first_arg args (λ a. a == bytes "-Q")
    else if command == bytes "command"
    then first_arg args (λ a. a == bytes "-v" || a == bytes "-V")
    else if command == bytes "dscl"
    then second_arg args (λ a. a == bytes "-read")
    else false

-- `isReadOnlyCommand`.
unfoldable pub is_read_only_command : Text → List Text → Bool
unfolding is_read_only_with
is_read_only_command command args =
    if one_of command read_only_names then true else is_read_only_with command args

-- The commands that are destructive with any arguments, before and by `destructiveCommandPattern`.
abbrev pub destructive_names : List Text
destructive_names =
    bytes "mkfs"
    ∷ bytes "shutdown"
    ∷ bytes "reboot"
    ∷ bytes "poweroff"
    ∷ bytes "halt"
    ∷ bytes "init"
    ∷ bytes "fsck"
    ∷ bytes "dd"
    ∷ []

abbrev pub destructive_pattern_names : List Text
destructive_pattern_names =
    bytes "wipefs" ∷ bytes "sfdisk" ∷ bytes "fdisk" ∷ bytes "parted" ∷ bytes "cryptsetup" ∷ []

-- The case "rm".
is_destructive_rm : List Text → Text → Bool
is_destructive_rm args raw =
    let normalized = bytes " " ++ (to_lower raw ++ bytes " ") in
    contains (bytes " rm -rf /") normalized
    || contains (bytes " rm -fr /") normalized
    || has_arg args (bytes "/")
    || has_arg args (bytes "/*")

-- `isDestructiveCommand`.
unfoldable pub is_destructive_command : Text → List Text → Text → Bool
unfolding is_destructive_rm
is_destructive_command command args raw =
    if one_of command destructive_names
    then true
    else if command == bytes "rm"
    then is_destructive_rm args raw
    else if one_of command (bytes "curl" ∷ bytes "wget" ∷ [])
    then false
    else one_of command destructive_pattern_names

-- `isRemoteFetchCommand`.
unfoldable pub is_remote_fetch_command : Text → Bool
is_remote_fetch_command command = command == bytes "curl" || command == bytes "wget"

-- `isShellProgram`.
unfoldable pub is_shell_program : Text → Bool
is_shell_program command =
    command == bytes "sh" || command == bytes "bash" || command == bytes "zsh"

-- `isNestedInterpreter`.
unfoldable pub is_nested_interpreter : Text → List Text → Bool
is_nested_interpreter command args =
    if one_of command (bytes "sh" ∷ bytes "bash" ∷ bytes "zsh" ∷ [])
    then has_arg args (bytes "-c")
    else if one_of command
        (bytes "python" ∷ bytes "python3" ∷ bytes "perl" ∷ bytes "ruby" ∷ bytes "node" ∷ [])
    then has_arg args (bytes "-c") || has_arg args (bytes "-e")
    else false
