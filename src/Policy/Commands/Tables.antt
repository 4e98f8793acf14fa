-- ===== src/Policy/Commands/Tables.antt =====
-- The tables of read-only and of dangerous commands have no command in common.
use ops_terminator.Base.{
  Bool, true, false, not, ◌&&◌, List, [], ◌∷◌, ◌≡◌, refl, arith, ◌==◌, text_eq, text_beq, inl, inr,
  Bool-cases, all_true,
}
use ops_terminator.Base.Text.{Text, bytes, one_of, one_of-all_true}
use ops_terminator.Policy.Commands.{
  read_only_names, destructive_names, destructive_pattern_names, is_read_only_with,
  is_read_only_command, is_destructive_command, is_remote_fetch_command, is_nested_interpreter,
}

-- The commands that are read-only with some arguments only.
abbrev conditional_names : List Text
conditional_names =
    bytes "env"
    ∷ bytes "sed"
    ∷ bytes "sysctl"
    ∷ bytes "systemctl"
    ∷ bytes "service"
    ∷ bytes "launchctl"
    ∷ bytes "apt-cache"
    ∷ bytes "apt"
    ∷ bytes "dnf"
    ∷ bytes "yum"
    ∷ bytes "rpm"
    ∷ bytes "dpkg"
    ∷ bytes "zypper"
    ∷ bytes "pacman"
    ∷ bytes "command"
    ∷ bytes "dscl"
    ∷ []

is_read_only_with-one_of :
    (command : Text) (args : List Text)
    → is_read_only_with command args ≡ true
    → one_of command conditional_names ≡ true
unfolding is_read_only_with one_of
is_read_only_with-one_of command args h = ground arith

shells : List Text
shells = bytes "sh" ∷ bytes "bash" ∷ bytes "zsh" ∷ []

interpreters : List Text
interpreters = bytes "python" ∷ bytes "python3" ∷ bytes "perl" ∷ bytes "ruby" ∷ bytes "node" ∷ []

-- None of the dangerous tables has the command.
harmless : Text → Bool
harmless c =
    not (c == [])
    && not (one_of c shells)
    && not (one_of c interpreters)
    && not (one_of c destructive_names)
    && not (c == bytes "rm")
    && not (one_of c destructive_pattern_names)
    && not (is_remote_fetch_command c)

read_only_names-harmless : all_true harmless read_only_names ≡ true
unfolding all_true harmless shells interpreters one_of is_remote_fetch_command bytes text_beq
read_only_names-harmless = refl

conditional_names-harmless : all_true harmless conditional_names ≡ true
unfolding all_true harmless shells interpreters one_of is_remote_fetch_command bytes text_beq
conditional_names-harmless = refl

is_read_only_command-harmless :
    (command : Text) (args : List Text)
    → is_read_only_command command args ≡ true
    → harmless command ≡ true
unfolding is_read_only_command
is_read_only_command-harmless command args h = elim (Bool-cases (one_of command read_only_names)) [
  | inl e ↦ one_of-all_true harmless command read_only_names read_only_names-harmless e
  | inr e ↦
      one_of-all_true harmless command conditional_names conditional_names-harmless
        (is_read_only_with-one_of command args (rw e at h))
]

-- What the other tests of the assessment say of a read-only command.
pub record IsHarmless (command : Text) (args : List Text) : Type 0 where
  pub not_empty : (command == []) ≡ false
  pub not_nested : is_nested_interpreter command args ≡ false
  pub not_destructive : (raw : Text) → is_destructive_command command args raw ≡ false
  pub not_fetch : is_remote_fetch_command command ≡ false

-- A read-only command is not empty, no nested interpreter, not destructive and no download.
pub is_read_only_command-IsHarmless :
    (command : Text) (args : List Text)
    → is_read_only_command command args ≡ true
    → IsHarmless command args
unfolding is_nested_interpreter is_destructive_command harmless shells interpreters
is_read_only_command-IsHarmless command args h =
    let k = is_read_only_command-harmless command args h in
    record {
      not_empty = ground arith;
      not_nested = ground arith;
      not_destructive = λ raw. ground arith;
      not_fetch = ground arith;
    }
