-- ===== src/Store/Log/Appended.antt =====
-- What a listing of a run's events sees of an append.
use ops_terminator.Base.{
  Bool, true, false, List, [], ◌∷◌, ◌++◌, Option, none, some, ok, ◌≡◌, inl, inr, refl, ap, ◌∙◌,
  subst, Bool-cases, text_eq, ==-refl, ok-injective, if◌then◌else◌, All, All-append,
}
use ops_terminator.Base.Text.{Text, bytes}
use ops_terminator.Models.{Event}
use ops_terminator.Store.{Disk, StoreError, read_failed, Table, lookup}
use ops_terminator.Store.Lookup.{lookup-write_file}
use ops_terminator.Store.Log.{lines_of, append_event, scan_events, list_found, list_events_by_run}

-- The scanner takes every line.
abbrev pub IsTaken : (Event → Bool) → List Event → Type 0
IsTaken takes = All (λ e. takes e ≡ true)

scan_events-IsTaken :
    (takes : Event → Bool) (run_id : Text) (events : List Event)
    → IsTaken takes events
    → scan_events takes run_id events ≡ (events, none)
unfolding scan_events
scan_events-IsTaken takes run_id [] h = refl
scan_events-IsTaken takes run_id (e ∷ events) h = rw h.0 (
    ap (λ (r : List Event × Option StoreError). (e ∷ r.0, r.1))
      (scan_events-IsTaken takes run_id events h.1))

append_event-lookup :
    (d : Disk) (event : Event) (logs : Table (List Event)) {logs' : Table (List Event)}
    → append_event d event logs ≡ ok logs'
    → lookup event.run_id logs' ≡ some (lines_of (lookup event.run_id logs) ++ (event ∷ []))
unfolding append_event
append_event-lookup d event logs {logs'} h =
    elim (Bool-cases (d.writable (bytes "events") event.run_id)) [
      | inl w ↦
          subst
            (λ t.
              lookup event.run_id t ≡ some (lines_of (lookup event.run_id logs) ++ (event ∷ [])))
            (ok-injective (rw w at h))
            (lookup-write_file event.run_id event.run_id _ logs ∙ rw (==-refl event.run_id) refl)
      | inr n ↦ (let e = rw n at h in cc)
    ]

-- An event that was appended is listed last, behind those that the run had, if the file can be read and
-- the scanner takes all of their lines.
pub list_events_by_run-append_event :
    (d : Disk) (takes : Event → Bool) (event : Event) (logs : Table (List Event))
    {logs' : Table (List Event)}
    → d.readable (bytes "events") event.run_id ≡ true
    → IsTaken takes (lines_of (lookup event.run_id logs))
    → takes event ≡ true
    → append_event d event logs ≡ ok logs'
    → list_events_by_run d takes event.run_id logs'
      ≡ (lines_of (lookup event.run_id logs) ++ (event ∷ []), none)
unfolding list_events_by_run list_found
list_events_by_run-append_event d takes event logs r h t a =
    rw (append_event-lookup d event logs a, r)
      (scan_events-IsTaken takes event.run_id _
        (All-append (λ e. takes e ≡ true) _ (event ∷ []) h (t, tt)))

scan_events-append :
    (takes : Event → Bool) (run_id : Text) (before after : List Event) (e : Event)
    → takes e ≡ false
    → scan_events takes run_id (before ++ (e ∷ after))
      ≡ scan_events takes run_id (before ++ (e ∷ []))
unfolding scan_events
scan_events-append takes run_id [] after e h = rw h refl
scan_events-append takes run_id (b ∷ before) after e h =
    ap
      (λ (r : List Event × Option StoreError).
        if takes b then (b ∷ r.0, r.1) else ([], some (read_failed (bytes "events") run_id)))
      (scan_events-append takes run_id before after e h)

-- Behind an event whose line the scanner does not take no event of the run is listed, however many are
-- appended: the listing stays what it was.
pub list_events_by_run-not_taken :
    (d : Disk) (takes : Event → Bool) (run_id : Text) (before after : List Event) (e : Event)
    (logs logs' : Table (List Event))
    → takes e ≡ false
    → lookup run_id logs ≡ some (before ++ (e ∷ []))
    → lookup run_id logs' ≡ some (before ++ (e ∷ after))
    → list_events_by_run d takes run_id logs' ≡ list_events_by_run d takes run_id logs
unfolding list_events_by_run list_found
list_events_by_run-not_taken d takes run_id before after e logs logs' n l l' =
    rw (l, l', scan_events-append takes run_id before after e n) refl
