-- ===== src/Examples/ToolRuns.antt =====
-- Runs of the previews of internal/builtin/registry.go.
use ops_terminator.Base.{true, false, [], ◌∷◌, ◌++◌, ok, ◌≡◌, ◌==◌, text_eq, refl, text_beq}
use ops_terminator.Base.Int.{pos}
use ops_terminator.Base.Text.{bytes, trim_space, is_space}
use ops_terminator.Models.{ActionPreview}
use ops_terminator.Policy.Engine.{check}
use ops_terminator.Builtin.{shell_quote}
use ops_terminator.Builtin.Tools.{
  Decoder, changes, arguments_of, string_arg, preview_mutating, preview, validate_shell_command,
  unix_lines, has_nul,
}
use ops_terminator.Builtin.Registry.{registry_tools, find_tool, preview_found, preview_call}
use ops_terminator.Builtin.Registry.Named.{rule_of, check-preview_call}
use ops_terminator.Examples.{default_engine}

-- A decoder that takes the arguments for the value.
abbrev plain : Decoder
plain = record {
  any_string = λ arguments key. ok arguments;
  two_strings = λ arguments a b. ok (arguments, []);
  string_and_int = λ arguments a b. ok (arguments, pos 10);
  string_and_flag = λ arguments a b. ok (arguments, true);
}

abbrev restart : ActionPreview
restart =
    changes (bytes "restart_service")
      (bytes "systemctl restart "
        ++ (shell_quote (bytes "nginx")
            ++ (bytes " || service " ++ (shell_quote (bytes "nginx") ++ bytes " restart"))))
      (bytes "Service restart may affect availability; requires approval.")

restarts : preview_call plain (bytes "restart_service") (bytes "nginx") ≡ ok restart
unfolding preview_call preview_found find_tool registry_tools preview preview_mutating string_arg
    arguments_of bytes trim_space is_space text_beq
restarts = refl

-- The line ends are normalised before the command is checked.
lines_run : validate_shell_command (b'a' ∷ 13 ∷ 10 ∷ b'b' ∷ 10 ∷ []) ≡ ok (b'a' ∷ 10 ∷ b'b' ∷ [])
unfolding validate_shell_command unix_lines has_nul trim_space is_space text_beq
lines_run = refl

not_shell : (bytes "restart_service" == bytes "run_shell") ≡ false
unfolding bytes text_beq
not_shell = refl

check-preview_call_example :
    (check default_engine restart).rule_id ≡ rule_of (bytes "restart_service")
check-preview_call_example =
    check-preview_call default_engine plain (bytes "restart_service") (bytes "nginx") restarts
      not_shell
