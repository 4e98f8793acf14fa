-- ===== src/Builtin/Registry.antt =====
-- `NewRegistry` and `Registry.Preview` of internal/builtin/registry.go.
pub mod Named
use ops_terminator.Base.{
  List, [], ◌∷◌, ◌++◌, Option, none, some, Result, err, ◌==◌, text_eq, if◌then◌else◌,
}
use ops_terminator.Base.Text.{Text, bytes}
use ops_terminator.Models.{ActionPreview}
use ops_terminator.Builtin.Tools.{
  Decoder, Tool, static_tool, process_search_tool, service_status_tool, file_log_search_tool,
  directory_usage_tool, journal_log_search_tool, package_manager_inspect_tool, user_inspect_tool,
  delete_user_tool, shell_tool, read_only_command_tool, parameterized_read_tool, mutating_tool,
  preview,
}

abbrev host_probe_command : Text
host_probe_command =
    bytes
      "hostname; printf '\\n'; uname -a; printf '\\n'; if [ -f /etc/os-release ]; then cat /etc/os-release; elif command -v sw_vers >/dev/null 2>&1; then sw_vers; fi; printf '\\n'; ps -p 1 -o comm=; printf '\\n'; command -v systemctl || true; command -v service || true; command -v ss || true; command -v netstat || true; command -v journalctl || true; command -v apt || true; command -v dnf || true; command -v yum || true; command -v zypper || true"

abbrev memory_inspect_command : Text
memory_inspect_command =
    bytes
      "free -h 2>/dev/null || vm_stat; printf '\\n'; cat /proc/meminfo 2>/dev/null | head -n 20 || sysctl vm.swapusage 2>/dev/null || true"

-- The tools of `NewRegistry`, by their names.
unfoldable pub registry_tools : List (Text × Tool)
registry_tools =
    (bytes "hello_capability", static_tool)
    ∷ (bytes "host_probe", read_only_command_tool (bytes "host_probe") host_probe_command)
    ∷ (
      bytes "memory_inspect",
      read_only_command_tool (bytes "memory_inspect") memory_inspect_command,
    )
    ∷ (
      bytes "disk_inspect",
      read_only_command_tool (bytes "disk_inspect") (bytes "df -h; printf '\\n'; df -i"),
    )
    ∷ (
      bytes "port_inspect",
      parameterized_read_tool (bytes "port_inspect")
          (bytes "ss -ltnp 2>/dev/null || netstat -ltnp 2>/dev/null") (bytes "port"),
    )
    ∷ (bytes "process_search", process_search_tool)
    ∷ (bytes "service_status_inspect", service_status_tool)
    ∷ (bytes "file_log_search", file_log_search_tool)
    ∷ (bytes "directory_usage_inspect", directory_usage_tool)
    ∷ (bytes "journal_log_search", journal_log_search_tool)
    ∷ (bytes "package_manager_inspect", package_manager_inspect_tool)
    ∷ (bytes "user_inspect", user_inspect_tool)
    ∷ (
      bytes "create_user",
      mutating_tool (bytes "create_user") (bytes "High-risk identity change; requires approval."),
    )
    ∷ (bytes "delete_user", delete_user_tool)
    ∷ (
      bytes "restart_service",
      mutating_tool (bytes "restart_service")
          (bytes "Service restart may affect availability; requires approval."),
    )
    ∷ (bytes "run_shell", shell_tool)
    ∷ []

unfoldable pub find_tool : Text → List (Text × Tool) → Option Tool
find_tool name [] = none
find_tool name ((n, tool) ∷ tools) = if n == name then some tool else find_tool name tools

-- What follows the lookup. Bytes of the name that `%q` writes as escapes are left as they are.
unfoldable pub preview_found : Decoder → Text → Text → Option Tool → Result Text ActionPreview
preview_found json name arguments none =
    err (bytes "unknown tool " ++ (b'"' ∷ (name ++ (b'"' ∷ []))))
preview_found json name arguments (some tool) = preview json tool arguments

-- `Registry.Preview`.
unfoldable pub preview_call : Decoder → Text → Text → Result Text ActionPreview
unfolding registry_tools find_tool preview_found
preview_call json name arguments = preview_found json name arguments (find_tool name registry_tools)
