-- ===== src/Builtin/Tools.antt =====
-- The tools of internal/builtin/registry.go and the commands they preview. The decoding of JSON
-- arguments is a parameter.
use ops_terminator.Base.{
  ◌>>=◌, Bool, true, false, [], ◌∷◌, ◌++◌, Result, ok, err, ◌==◌, text_eq, nat_eq, if◌then◌else◌,
  ltb,
}
use ops_terminator.Base.Int.{ℤ, pos, is_positive}
use ops_terminator.Base.Text.{Text, bytes, trim_space, length}
use ops_terminator.Base.Text.Decimal.{decimal}
use ops_terminator.Models.{ActionPreview}
use ops_terminator.Builtin.{shell_quote}

-- What `json.Unmarshal` reads from an object, a string that is missing as the empty one: a string of a
-- map of any values, two strings, a string and an `int`, a string and a flag.
pub record Decoder : Type 0 where
  pub any_string : Text → Text → Result Text Text
  pub two_strings : Text → Text → Text → Result Text (Text × Text)
  pub string_and_int : Text → Text → Text → Result Text (Text × ℤ)
  pub string_and_flag : Text → Text → Text → Result Text (Text × Bool)

-- The kinds of tools, with the fields that the previews use.
pub data Tool : Type 0 where
  static_tool process_search_tool service_status_tool file_log_search_tool directory_usage_tool
        journal_log_search_tool :
      Tool
  package_manager_inspect_tool user_inspect_tool delete_user_tool shell_tool : Tool
  read_only_command_tool : Text → Text → Tool
  parameterized_read_tool : Text → Text → Text → Tool
  mutating_tool : Text → Text → Tool

-- `trimmed`, in `decodeArguments`.
unfoldable pub arguments_of : Text → Text
arguments_of arguments =
    let trimmed = trim_space arguments in if trimmed == [] then bytes "{}" else trimmed

abbrev pub inspects : Text → Text → ActionPreview
inspects name command = record {
  tool_name = name;
  read_only = true;
  command_preview = command;
  risk_hint = [];
}

abbrev pub changes : Text → Text → Text → ActionPreview
changes name command hint = record {
  tool_name = name;
  read_only = false;
  command_preview = command;
  risk_hint = hint;
}

-- `strings.ReplaceAll(command, "\r\n", "\n")`.
unfoldable pub unix_lines : Text → Text
unix_lines [] = []
unix_lines (c ∷ []) = c ∷ []
unix_lines (c ∷ d ∷ s) =
    let rest = unix_lines (d ∷ s) in
    if c == 13 then (if d == 10 then rest else c ∷ rest) else c ∷ rest

unfoldable pub has_nul : Text → Bool
has_nul [] = false
has_nul (c ∷ s) = if c == 0 then true else has_nul s

-- `validateShellCommand`.
unfoldable pub validate_shell_command : Text → Result Text Text
unfolding unix_lines has_nul
validate_shell_command command =
    let normalized = trim_space (unix_lines command) in
    if normalized == []
    then err (bytes "command is required")
    else if has_nul normalized
    then err (bytes "command contains invalid NUL byte")
    else if ltb 4096 (length normalized)
    then err (bytes "command exceeds 4096 characters")
    else ok normalized

abbrev pub given_or_80 : ℤ → ℤ
given_or_80 lines = if is_positive lines then lines else pos 80

-- `%d` of a positive number.
abbrev pub digits_of : ℤ → Text
digits_of (pos n) = decimal n
digits_of _ = []

abbrev pub required : Text → Text → Result Text Text
required key value = if trim_space value == [] then err (key ++ bytes " is required") else ok value

module _ (json : Decoder) where
  -- `stringArg`.
  unfoldable pub string_arg : Text → Text → Result Text Text
  string_arg arguments key = do
    value ← json.any_string (arguments_of arguments) key
    required key value

  -- The filter of a parameterized tool, and of the package tool: an error is no error.
  unfoldable pub with_filter : Text → (Text → Text) → Result Text Text → Text
  with_filter base suffix (ok filter) = base ++ suffix filter
  with_filter base suffix (err _) = base

  unfoldable pub create_user_command : Text → Text → Text
  create_user_command username shell =
      bytes "id "
      ++ (shell_quote username
          ++ (bytes " >/dev/null 2>&1 || useradd"
              ++ ((if trim_space shell == [] then [] else bytes " -s " ++ shell_quote shell)
                  ++ (bytes " " ++ shell_quote username))))

  unfoldable pub journal_command : Text → ℤ → Text
  journal_command service lines =
      let unit = shell_quote service in
      let count = digits_of lines in
      bytes "journalctl -u "
      ++ (unit
          ++ (bytes " -n "
              ++ (count
                  ++ (bytes " --no-pager 2>/dev/null || grep -i -- "
                      ++ (unit
                          ++ (bytes " /var/log/system.log 2>/dev/null | tail -n "
                              ++ (count
                                  ++ (bytes " || grep -i -- "
                                      ++ (unit
                                          ++ (bytes " /var/log/messages 2>/dev/null | tail -n "
                                              ++ count))))))))))

  -- `Preview` of a mutating tool.
  unfoldable pub preview_mutating : Text → Text → Text → Result Text ActionPreview
  unfolding string_arg create_user_command
  preview_mutating name hint arguments =
      if name == bytes "create_user"
      then (do
        (username, shell) ←
            json.two_strings (arguments_of arguments) (bytes "username") (bytes "shell")
        ok (changes name (create_user_command username shell) hint))
      else if name == bytes "restart_service"
      then (do
        service ← string_arg arguments (bytes "service")
        ok (
            changes name
              (bytes "systemctl restart "
                ++ (shell_quote service
                    ++ (bytes " || service " ++ (shell_quote service ++ bytes " restart"))))
              hint))
      else err (bytes "unsupported mutating tool")

  -- `Preview` of `staticTool`.
  unfoldable pub preview_static : Text → Result Text ActionPreview
  preview_static arguments = ok (inspects (bytes "hello_capability") [])

  -- `Preview` of `readOnlyCommandTool`.
  unfoldable pub preview_read_only_command : Text → Text → Text → Result Text ActionPreview
  preview_read_only_command name command arguments = ok (inspects name command)

  -- `Preview` of `parameterizedReadTool`.
  unfoldable pub preview_parameterized_read : Text → Text → Text → Text → Result Text ActionPreview
  unfolding string_arg with_filter
  preview_parameterized_read name base key arguments = ok (
      inspects name (
        with_filter base (λ filter. bytes " | grep -n -- " ++ shell_quote filter)
          (string_arg arguments key)))

  -- `Preview` of `processSearchTool`.
  unfoldable pub preview_process_search : Text → Result Text ActionPreview
  unfolding string_arg
  preview_process_search arguments = do
    keyword ← string_arg arguments (bytes "keyword")
    ok (
        inspects (bytes "process_search")
          (bytes "ps -ef | grep -i -- " ++ (shell_quote keyword ++ bytes " | grep -v grep")))

  -- `Preview` of `serviceStatusTool`.
  unfoldable pub preview_service_status : Text → Result Text ActionPreview
  unfolding string_arg
  preview_service_status arguments = do
    service ← string_arg arguments (bytes "service")
    ok (
        inspects (bytes "service_status_inspect") (
          bytes "systemctl status --no-pager "
          ++ (shell_quote service
              ++ (bytes " 2>/dev/null || service "
                  ++ (shell_quote service
                      ++ (bytes " status 2>/dev/null || launchctl list | grep -i -- "
                          ++ shell_quote service))))))

  -- `Preview` of `fileLogSearchTool`.
  unfoldable pub preview_file_log_search : Text → Result Text ActionPreview
  preview_file_log_search arguments = do
    (path, pattern_text) ←
        json.two_strings (arguments_of arguments) (bytes "path") (bytes "pattern")
    ok (
        inspects (bytes "file_log_search") (
          bytes "grep -n -C 2 -- "
          ++ (shell_quote pattern_text
              ++ (bytes " " ++ (shell_quote path ++ bytes " | tail -n 80")))))

  -- `Preview` of `directoryUsageTool`.
  unfoldable pub preview_directory_usage : Text → Result Text ActionPreview
  unfolding string_arg
  preview_directory_usage arguments = do
    path ← string_arg arguments (bytes "path")
    ok (
        inspects (bytes "directory_usage_inspect") (
          bytes "du -xh -d 1 "
          ++ (shell_quote path
              ++ (bytes " 2>/dev/null || du -xh -d 1 "
                  ++ (shell_quote path ++ (bytes " || du -sh " ++ shell_quote path))))))

  -- `Preview` of `journalLogSearchTool`.
  unfoldable pub preview_journal_log_search : Text → Result Text ActionPreview
  unfolding journal_command
  preview_journal_log_search arguments = do
    (service, lines) ←
        json.string_and_int (arguments_of arguments) (bytes "service") (bytes "lines")
    checked ← required (bytes "service") service
    ok (inspects (bytes "journal_log_search") (journal_command checked (given_or_80 lines)))

  -- `Preview` of `packageManagerInspectTool`.
  unfoldable pub preview_package_manager_inspect : Text → Result Text ActionPreview
  unfolding string_arg with_filter
  preview_package_manager_inspect arguments = ok (
      inspects (bytes "package_manager_inspect") (
        with_filter
          (bytes
            "command -v apt || true; command -v dnf || true; command -v yum || true; command -v zypper || true; command -v pacman || true")
          (λ pkg.
            bytes "; dpkg -s "
            ++ (shell_quote pkg
                ++ (bytes " 2>/dev/null || rpm -qi "
                    ++ (shell_quote pkg
                        ++ (bytes " 2>/dev/null || pacman -Qi "
                            ++ (shell_quote pkg ++ bytes " 2>/dev/null || true"))))))
          (string_arg arguments (bytes "package"))))

  -- `Preview` of `userInspectTool`.
  unfoldable pub preview_user_inspect : Text → Result Text ActionPreview
  unfolding string_arg
  preview_user_inspect arguments = do
    username ← string_arg arguments (bytes "username")
    ok (
        inspects (bytes "user_inspect") (
          bytes "id "
          ++ (shell_quote username
              ++ (bytes " 2>/dev/null; getent passwd "
                  ++ (shell_quote username
                      ++ (bytes " 2>/dev/null || dscl . -read /Users/"
                          ++ (shell_quote username ++ bytes " 2>/dev/null || true")))))))

  -- `Preview` of `deleteUserTool`.
  unfoldable pub preview_delete_user : Text → Result Text ActionPreview
  preview_delete_user arguments = do
    (username, remove_home) ←
        json.string_and_flag (arguments_of arguments) (bytes "username") (bytes "remove_home")
    ok (
        changes (bytes "delete_user")
          (bytes "userdel"
            ++ ((if remove_home then bytes " -r" else []) ++ (bytes " " ++ shell_quote username)))
          (bytes "User deletion changes identity state; requires approval."))

  -- `Preview` of `shellTool`.
  unfoldable pub preview_shell : Text → Result Text ActionPreview
  unfolding string_arg validate_shell_command
  preview_shell arguments = do
    given ← string_arg arguments (bytes "command")
    command ← validate_shell_command given
    ok (
        changes (bytes "run_shell") command
          (bytes "Custom shell execution can be dangerous; requires policy review."))

  -- `tool.Preview`.
  unfoldable pub preview : Tool → Text → Result Text ActionPreview
  unfolding preview_mutating preview_static preview_read_only_command preview_parameterized_read
      preview_process_search preview_service_status preview_file_log_search preview_directory_usage
      preview_journal_log_search preview_package_manager_inspect preview_user_inspect
      preview_delete_user preview_shell
  preview static_tool arguments = preview_static arguments
  preview (read_only_command_tool name command) arguments =
      preview_read_only_command name command arguments
  preview (parameterized_read_tool name base key) arguments =
      preview_parameterized_read name base key arguments
  preview process_search_tool arguments = preview_process_search arguments
  preview service_status_tool arguments = preview_service_status arguments
  preview file_log_search_tool arguments = preview_file_log_search arguments
  preview directory_usage_tool arguments = preview_directory_usage arguments
  preview journal_log_search_tool arguments = preview_journal_log_search arguments
  preview package_manager_inspect_tool arguments = preview_package_manager_inspect arguments
  preview user_inspect_tool arguments = preview_user_inspect arguments
  preview (mutating_tool name hint) arguments = preview_mutating name hint arguments
  preview delete_user_tool arguments = preview_delete_user arguments
  preview shell_tool arguments = preview_shell arguments
