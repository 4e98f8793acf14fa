-- ===== src/Store/Log.antt =====
-- The event files and the audit file of internal/store/json_store.go: one file for each run, a line for each event. A
-- line holds the event that was encoded into it. An append writes its line whole or fails; which files
-- can be opened, and which encoded events the line scanner takes with its buffer of 1 MiB, are
-- parameters.
pub mod Appended
use ops_terminator.Base.{
  Bool, List, [], ◌∷◌, ◌++◌, Option, none, some, Result, ok, err, if◌then◌else◌,
}
use ops_terminator.Base.Text.{Text, bytes}
use ops_terminator.Models.{AuditEntry, Event}
use ops_terminator.Store.{Disk, StoreError, write_failed, read_failed, Table, lookup, write_file}

-- The lines of a file, none if there is no file.
abbrev pub lines_of : Option (List Event) → List Event
lines_of none = []
lines_of (some events) = events

-- `AppendEvent`.
unfoldable pub append_event :
    Disk → Event → Table (List Event) → Result StoreError (Table (List Event))
append_event d event logs =
    if d.writable (bytes "events") event.run_id
    then ok (write_file event.run_id (lines_of (lookup event.run_id logs) ++ (event ∷ [])) logs)
    else err (write_failed (bytes "events") event.run_id)

-- The loop of the scanner: the events up to the first line that it does not take, and the error.
unfoldable pub scan_events : (Event → Bool) → Text → List Event → List Event × Option StoreError
scan_events takes run_id [] = ([], none)
scan_events takes run_id (event ∷ events) =
    let rest = scan_events takes run_id events in
    if takes event
    then (event ∷ rest.0, rest.1)
    else ([], some (read_failed (bytes "events") run_id))

-- `ListEventsByRun` on what was found; the events and the error.
unfoldable pub list_found :
    Disk → (Event → Bool) → Text → Option (List Event) → List Event × Option StoreError
unfolding scan_events
list_found d takes run_id none = ([], none)
list_found d takes run_id (some events) =
    if d.readable (bytes "events") run_id
    then scan_events takes run_id events
    else ([], some (read_failed (bytes "events") run_id))

-- `ListEventsByRun`.
unfoldable pub list_events_by_run :
    Disk → (Event → Bool) → Text → Table (List Event) → List Event × Option StoreError
unfolding list_found
list_events_by_run d takes run_id logs = list_found d takes run_id (lookup run_id logs)

-- `AppendAudit`, on the one file of all audit entries.
unfoldable pub append_audit :
    Disk → AuditEntry → List AuditEntry → Result StoreError (List AuditEntry)
append_audit d entry entries =
    if d.writable [] (bytes "audit.jsonl")
    then ok (entries ++ (entry ∷ []))
    else err (write_failed [] (bytes "audit.jsonl"))
