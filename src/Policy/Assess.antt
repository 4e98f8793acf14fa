-- ===== src/Policy/Assess.antt =====
-- `assessShellCommand` of internal/policy/engine.go.
pub mod Verdict
pub mod Quoted
pub mod ReadOnly
use ops_terminator.Base.{
  Bool, true, false, not, ◌&&◌, List, [], ◌∷◌, ◌++◌, Option, none, some, Result, ok, err, ◌>>=◌,
  ◌==◌, text_eq, if◌then◌else◌,
}
use ops_terminator.Base.Text.{Text, bytes, first_non_empty}
use ops_terminator.Models.{policy_decision_allow, policy_decision_ask, policy_decision_deny}
use ops_terminator.Policy.Segments.{
  Segment, Separator, pipe, and_if, or_if, semicolon, end_of_command, SplitError,
  split_shell_segments,
}
use ops_terminator.Policy.Words.{split_shell_words, extract_command}
use ops_terminator.Policy.Redirect.{has_write_redirect}
use ops_terminator.Policy.Commands.{
  is_read_only_command, is_destructive_command, is_remote_fetch_command, is_shell_program,
  is_nested_interpreter,
}

-- `shellAssessment`.
pub record Assessment : Type 0 where
  pub decision : Text
  pub rule_id : Text
  pub category : Text
  pub severity : Text
  pub reason : Text
  pub safer_alternative : Text
  pub override_allowed : Bool

-- An assessment of category "shell".
abbrev shell_assessment : Text → Text → Text → Text → Text → Bool → Assessment
shell_assessment decision rule_id severity reason safer override = record {
  decision = decision;
  rule_id = rule_id;
  category = bytes "shell";
  severity = severity;
  reason = reason;
  safer_alternative = safer;
  override_allowed = override;
}

abbrev deny : Text → Text → Text → Text → Assessment
deny rule_id severity reason safer =
    shell_assessment policy_decision_deny rule_id severity reason safer false

-- The assessments that the function returns, in their order.
abbrev pub complex_syntax_denied : Assessment
complex_syntax_denied =
    deny (bytes "complex_shell_syntax_deny") (bytes "high") (bytes "命令包含未支持或不安全的 shell 语法，已拒绝执行。")
      (bytes "请改成显式、扁平的命令，不要使用命令替换、后台执行、here-doc 或嵌套解释器。")

abbrev pub empty_denied : Assessment
empty_denied =
    deny (bytes "empty_shell_deny") (bytes "medium") (bytes "命令为空，已拒绝执行。") (bytes "请提供明确的命令。")

abbrev pub parse_error_denied : Assessment
parse_error_denied =
    deny (bytes "shell_parse_error_deny") (bytes "medium") (bytes "命令解析失败，已拒绝执行。")
      (bytes "请改用更直接的命令表达，避免复杂转义。")

abbrev pub missing_executable_denied : Assessment
missing_executable_denied =
    deny (bytes "missing_executable_deny") (bytes "medium") (bytes "命令缺少可执行程序，已拒绝执行。")
      (bytes "请提供显式命令，不要只传环境变量或残缺片段。")

-- The reason shows the command as `to_lower` gives it, which leaves the letters beyond ASCII as they
-- are.
abbrev pub nested_interpreter_denied : Text → Assessment
nested_interpreter_denied cmd =
    deny (bytes "nested_interpreter_deny") (bytes "high")
      (bytes "命令尝试通过 " ++ (cmd ++ bytes " 再次嵌套解释执行，已拒绝执行。"))
      (bytes "请直接把要执行的命令展开成显式 run_shell，而不是再包一层解释器。")

abbrev pub remote_pipe_denied : Assessment
remote_pipe_denied =
    deny (bytes "remote_download_pipe_shell_deny") (bytes "critical")
      (bytes "检测到远程下载内容直接通过管道交给 shell，已拒绝执行。") (bytes "请先单独下载并检查内容，再执行明确命令。")

abbrev pub destructive_denied : Text → Assessment
destructive_denied cmd =
    deny (bytes "destructive_command_deny") (bytes "critical")
      (bytes "命令包含高危或破坏性操作（" ++ (cmd ++ bytes "），已拒绝执行。"))
      (bytes "请先执行只读诊断命令缩小影响范围，再用审批内置动作或更小范围命令处理。")

abbrev pub read_only_allowed : Assessment
read_only_allowed =
    shell_assessment policy_decision_allow (bytes "readonly_shell_allow") (bytes "low")
      (bytes "命令经安全解析后仅包含显式只读诊断步骤，允许直接执行。") [] false

abbrev pub mutating_asked : Text → Assessment
mutating_asked mutation =
    shell_assessment policy_decision_ask (bytes "mutating_shell_ask") (bytes "high")
      (bytes "命令包含可能修改系统状态的步骤（" ++ (mutation ++ bytes "），需人工确认后执行。"))
      (bytes "优先拆成更小的只读 run_shell 诊断；若确需变更，请走审批执行。") true

-- The tests of one round of the first loop, on the command and its arguments.
unfoldable pub accept_command : Segment → Text × List Text → Result Assessment Segment
accept_command segment (cmd, args) =
    if cmd == []
    then err missing_executable_denied
    else if is_nested_interpreter cmd args
    then err (nested_interpreter_denied cmd)
    else ok (record segment { command = cmd; args = args })

parse_words : Segment → Result SplitError (List Text) → Result Assessment Segment
unfolding accept_command
parse_words segment (err _) = err parse_error_denied
parse_words segment (ok words) = accept_command segment (extract_command words)

-- One round of the first loop; `err` is a `return`.
unfoldable pub parse_segment : Segment → Result Assessment Segment
unfolding parse_words
parse_segment segment = parse_words segment (split_shell_words segment.raw)

-- The first loop.
unfoldable pub parse_segments : List Segment → Result Assessment (List Segment)
parse_segments [] = ok []
parse_segments (segment ∷ segments) = do
  parsed ← parse_segment segment
  rest ← parse_segments segments
  ok (parsed ∷ rest)

-- `segments[i].Separator == "|"`.
is_pipe : Separator → Bool
is_pipe pipe = true
is_pipe and_if = false
is_pipe or_if = false
is_pipe semicolon = false
is_pipe end_of_command = false

-- The second loop: a download piped into a shell.
unfoldable pub pipes_download_to_shell : List Segment → Bool
unfolding is_pipe
pipes_download_to_shell [] = false
pipes_download_to_shell (a ∷ []) = false
pipes_download_to_shell (a ∷ b ∷ rest) =
    if is_pipe a.separator && is_remote_fetch_command a.command && is_shell_program b.command
    then true
    else pipes_download_to_shell (b ∷ rest)

-- The third loop: the command of the first destructive segment, if there is one.
unfoldable pub first_destructive : List Segment → Option Text
first_destructive [] = none
first_destructive (segment ∷ segments) =
    if is_destructive_command segment.command segment.args segment.raw
    then some segment.command
    else first_destructive segments

-- The fourth loop: `allReadOnly`.
unfoldable pub all_read_only : List Segment → Bool
all_read_only [] = true
all_read_only (segment ∷ segments) =
    not (has_write_redirect segment.raw)
    && is_read_only_command segment.command segment.args
    && all_read_only segments

-- The fifth loop: `firstMutation`.
unfoldable pub first_mutation : List Segment → Text
first_mutation [] = []
first_mutation (segment ∷ segments) =
    if has_write_redirect segment.raw
    then first_non_empty ([] ∷ bytes "shell redirection" ∷ [])
    else if not (is_read_only_command segment.command segment.args)
    then first_non_empty ([] ∷ segment.command ∷ [])
    else first_mutation segments

-- The second half, behind the third loop.
unfoldable pub grade : List Segment → Assessment
grade segments =
    if all_read_only segments then read_only_allowed else mutating_asked (first_mutation segments)

after_destructive : List Segment → Option Text → Assessment
unfolding grade
after_destructive segments (some cmd) = destructive_denied cmd
after_destructive segments none = grade segments

-- What follows the first loop.
unfoldable pub assess_parsed : Result Assessment (List Segment) → Assessment
unfolding after_destructive
assess_parsed (err assessment) = assessment
assess_parsed (ok segments) =
    if pipes_download_to_shell segments
    then remote_pipe_denied
    else after_destructive segments (first_destructive segments)

unfoldable pub assess_segments : Result SplitError (List Segment) → Assessment
unfolding assess_parsed
assess_segments (err _) = complex_syntax_denied
assess_segments (ok []) = empty_denied
assess_segments (ok (segment ∷ segments)) = assess_parsed (parse_segments (segment ∷ segments))

-- `assessShellCommand`.
unfoldable pub assess_shell_command : Text → Assessment
unfolding assess_segments
assess_shell_command command = assess_segments (split_shell_segments command)
