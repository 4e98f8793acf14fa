-- ===== src/Gateway/Metrics.antt =====
-- The metrics and conditions of internal/gateway/automation.go. The executor that runs a command on a
-- host, and the parsing, comparison and printing of floating-point numbers, are parameters.
use ops_terminator.Base.{
  ℕ, Bool, false, ◌||◌, [], ◌∷◌, ◌++◌, Option, none, some, Result, ok, err, ◌==◌, text_eq,
  if◌then◌else◌,
}
use ops_terminator.Base.Int.{ℤ, minutes, before_after}
use ops_terminator.Base.Text.{Text, bytes, trim_space, one_of, first_non_empty}
use ops_terminator.Models.Hosts.{Host}
use ops_terminator.Models.Sessions.{Float64}
use ops_terminator.Models.Automations.{AutomationRule}

-- What is called: `executor.Run`, with the two outputs, `strconv.ParseFloat`, which gives a value with
-- its error too, `<` and `<=`, and `%.2f`.
pub record Sampler : Type 0 where
  pub run_command : Host → Text → Result Text (Text × Text)
  pub parse_float : Text → Float64 × Option Text
  pub is_less : Float64 → Float64 → Bool
  pub is_at_most : Float64 → Float64 → Bool
  pub two_decimals : Float64 → Text

-- `automationMetricCommand`.
unfoldable pub automation_metric_command : Text → Option Text
automation_metric_command metric =
    let name = trim_space metric in
    if name == bytes "cpu_usage"
    then some (
        bytes
          "(top -bn1 2>/dev/null | awk '/Cpu\\(s\\)|^%Cpu/ {for (i=1;i<=NF;i++) if ($i ~ /id,|id$/) {gsub(/,/, \"\", $(i-1)); print 100-$(i-1); exit}}') || (top -l 1 -n 0 2>/dev/null | awk -F'[:,%]' '/CPU usage/ {print $2+$4; exit}')")
    else if name == bytes "memory_usage"
    then some (
        bytes
          "(free 2>/dev/null | awk '/Mem:/ {print ($3/$2)*100; exit}') || (memory_pressure 2>/dev/null | awk -F': ' '/System-wide memory free percentage/ {gsub(/%/, \"\", $2); print 100-$2; exit}')")
    else if name == bytes "disk_usage"
    then some (bytes "df -Pk / | awk 'NR==2 {gsub(/%/, \"\", $5); print $5; exit}'")
    else if name == bytes "inode_usage"
    then some (bytes "df -Pi / 2>/dev/null | awk 'NR==2 {gsub(/%/, \"\", $5); print $5; exit}'")
    else none

-- `isSupportedAutomationOperator`.
unfoldable pub is_supported_automation_operator : Text → Bool
is_supported_automation_operator operator = one_of (trim_space operator) (
    bytes ">"
    ∷ bytes "gt"
    ∷ bytes ">="
    ∷ bytes "gte"
    ∷ bytes "<"
    ∷ bytes "lt"
    ∷ bytes "<="
    ∷ bytes "lte"
    ∷ [])

-- `isAutomationCooldownBlocked`; `now.Sub(last)` is a number of nanoseconds that fits an `int64`.
unfoldable pub is_blocked_since : Option ℕ → ℤ → ℕ → Bool
is_blocked_since none cooldown now = false
is_blocked_since (some last) cooldown now = before_after now last (minutes cooldown)

unfoldable pub is_automation_cooldown_blocked : AutomationRule → ℕ → Bool
unfolding is_blocked_since
is_automation_cooldown_blocked rule now =
    is_blocked_since rule.last_triggered_at rule.cooldown_minutes now

module _ (s : Sampler) where
  -- `automationThresholdMatched`.
  unfoldable pub automation_threshold_matched : Float64 → Text → Float64 → Bool
  automation_threshold_matched value operator threshold =
      let op = trim_space operator in
      if op == bytes ">" || op == bytes "gt"
      then s.is_less threshold value
      else if op == bytes ">=" || op == bytes "gte"
      then s.is_at_most threshold value
      else if op == bytes "<" || op == bytes "lt"
      then s.is_less value threshold
      else if op == bytes "<=" || op == bytes "lte"
      then s.is_at_most value threshold
      else false

  -- `parseMetricValue`.
  unfoldable pub parse_metric_value : Text → Float64 × Option Text
  parse_metric_value output =
      let t = trim_space output in
      if t == [] then (0, some (bytes "empty metric output")) else s.parse_float t

  -- What follows the command.
  unfoldable pub read_metric : Result Text (Text × Text) → Float64 × Option Text
  unfolding parse_metric_value
  read_metric (err why) = (0, some why)
  read_metric (ok (stdout, stderr)) = parse_metric_value (first_non_empty (stdout ∷ stderr ∷ []))

  -- What follows the choice of the command.
  unfoldable pub run_metric : Host → Text → Option Text → Float64 × Option Text
  unfolding read_metric
  run_metric host metric none = (0, some (bytes "unsupported automation metric: " ++ metric))
  run_metric host metric (some command) = read_metric (s.run_command host command)

  -- `sampleAutomationMetric`: the value, and the error if there is one.
  unfoldable pub sample_automation_metric : Host → Text → Float64 × Option Text
  unfolding run_metric
  sample_automation_metric host metric = run_metric host metric (automation_metric_command metric)

  -- `buildAutomationPrompt`.
  unfoldable pub build_automation_prompt : AutomationRule → Float64 → Text → Text
  build_automation_prompt rule value requested_by =
      let base = trim_space rule.prompt_template in
      (if base == [] then bytes "阈值触发，请检查并处理当前异常。" else base)
      ++ (bytes "\n\n触发信息:\n- automation_id: "
          ++ (rule.id
              ++ (bytes "\n- automation_name: "
                  ++ (rule.name
                      ++ (bytes "\n- requested_by: "
                          ++ (requested_by
                              ++ (bytes "\n- metric: "
                                  ++ (rule.metric
                                      ++ (bytes "\n- operator: "
                                          ++ (rule.operator
                                              ++ (bytes "\n- threshold: "
                                                  ++ (s.two_decimals rule.threshold
                                                      ++ (bytes "\n- observed_value: "
                                                          ++ (s.two_decimals value
                                                            ++ (bytes "\n- trigger_type: "
                                                            ++ (rule.trigger_type
                                                            ++ bytes
                                                            "\n\n请明确这是自动化触发，不是人工即时输入；先诊断再给出可审计的处理步骤。"))))))))))))))))
