-- ===== src/Gateway/Service/Frame.antt =====
-- What the operations on the stores read and write, and what they leave alone.
use ops_terminator.Base.{
  ℕ, suc, Bool, true, false, not, List, Option, none, some, Result, ok, err, ◌≡◌, inl, inr, refl,
  sym, ap, ◌∙◌, subst, arith, ◌==◌, text_eq, nat_eq, ==-refl, Bool-cases, ok-injective,
  if◌then◌else◌,
}
use ops_terminator.Base.Text.{Text, bytes}
use ops_terminator.Models.{Run, Event, PayloadValue}
use ops_terminator.Models.Hosts.{Host}
use ops_terminator.Models.Automations.{AutomationRule}
use ops_terminator.Models.Sessions.{Session, Turn, OperatorProfile}
use ops_terminator.Store.{Disk, StoreError, Table, lookup, write_file, get_object, read_file}
use ops_terminator.Store.Lookup.{lookup-write_file, save_object-eq-ok}
use ops_terminator.Store.Log.{append_event}
use ops_terminator.Gateway.Service.{
  World, GatewayError, M, ignore, and_then, ◌>>=◌, lift, commit, get_operator_profile, get_host,
  get_session, get_turn, get_run, save_host, save_session, save_turn, save_run, save_automation,
  record_timed, record_event, announce, announce_now,
}

-- A first operation whose second one succeeded has succeeded.
and_then-eq-ok :
    {A B : Type 0} (f : A → M B) (r : World × Result GatewayError A) {w' : World} {b : B}
    → and_then f r ≡ (w', ok b)
    → (w1 : World) × (a : A) × (r ≡ (w1, ok a)) × (f a w1 ≡ (w', ok b))
unfolding and_then
and_then-eq-ok f (w1, ok a) h = (w1, a, refl, h)
and_then-eq-ok f (w1, err e) h = cc

-- What follows from the success of both.
pub after_both :
    {A B P : Type 0} (m : M A) (f : A → M B) (w : World) {w' : World} {b : B}
    → (m >>= f) w ≡ (w', ok b)
    → ((w1 : World) → (a : A) → m w ≡ (w1, ok a) → f a w1 ≡ (w', ok b) → P)
    → P
unfolding ◌>>=◌
after_both m f w h k = let (w1, a, first, rest) = and_then-eq-ok f (m w) h in k w1 a first rest

read_file-eq-ok :
    {A : Type 0} (d : Disk) (dir id : Text) (found : Option A) {o : Option A}
    → read_file d dir id found ≡ ok o
    → found ≡ o
unfolding read_file
read_file-eq-ok d dir id none h = ok-injective h
read_file-eq-ok d dir id (some v) h = elim (Bool-cases (d.readable dir id)) [
  | inl r ↦ ok-injective (rw r at h)
  | inr n ↦ (let e = rw n at h in cc)
]

lift-eq-ok :
    {A : Type 0} (r : Result StoreError A) (w : World) {w' : World} {a : A}
    → lift r w ≡ (w', ok a)
    → (w' ≡ w) × (r ≡ ok a)
lift-eq-ok (ok b) w h = (cc, cc)
lift-eq-ok (err e) w h = cc

-- A read that succeeds changes nothing and gives what the table holds.
pub get_run-eq-ok :
    (disk : Disk) (id : Text) (w : World) {w' : World} {o : Option Run}
    → get_run disk id w ≡ (w', ok o)
    → (w' ≡ w) × (lookup id w.runs ≡ o)
unfolding get_run get_object
get_run-eq-ok disk id w h =
    let (same, r) = lift-eq-ok _ w h in (same, read_file-eq-ok disk (bytes "runs") id _ r)

pub get_turn-eq-ok :
    (disk : Disk) (id : Text) (w : World) {w' : World} {o : Option Turn}
    → get_turn disk id w ≡ (w', ok o)
    → (w' ≡ w) × (lookup id w.turns ≡ o)
unfolding get_turn get_object
get_turn-eq-ok disk id w h =
    let (same, r) = lift-eq-ok _ w h in (same, read_file-eq-ok disk (bytes "turns") id _ r)

pub get_session-eq-ok :
    (disk : Disk) (id : Text) (w : World) {w' : World} {o : Option Session}
    → get_session disk id w ≡ (w', ok o)
    → (w' ≡ w) × (lookup id w.sessions ≡ o)
unfolding get_session get_object
get_session-eq-ok disk id w h =
    let (same, r) = lift-eq-ok _ w h in (same, read_file-eq-ok disk (bytes "sessions") id _ r)

pub get_host-eq-ok :
    (disk : Disk) (id : Text) (w : World) {w' : World} {o : Option Host}
    → get_host disk id w ≡ (w', ok o)
    → (w' ≡ w) × (lookup id w.hosts ≡ o)
unfolding get_host get_object
get_host-eq-ok disk id w h =
    let (same, r) = lift-eq-ok _ w h in (same, read_file-eq-ok disk (bytes "hosts") id _ r)

pub get_operator_profile-eq-ok :
    (disk : Disk) (w : World) {w' : World} {o : Option OperatorProfile}
    → get_operator_profile disk w ≡ (w', ok o)
    → o ≡ w.operator_profile
unfolding get_operator_profile
get_operator_profile-eq-ok disk w h = ground arith

-- A chain of checks that found nothing.
pub passed_check :
    (x : GatewayError) (rest : Option GatewayError) (b : Bool)
    → (if b then some x else rest) ≡ none
    → (b ≡ false) × (rest ≡ none)
passed_check x rest true h = cc
passed_check x rest false h = (refl, h)

-- The branch that a test chooses.
pub chosen : {A : Type 0} (b : Bool) (x y : A) → b ≡ true → (if b then x else y) ≡ x
chosen true x y h = refl
chosen false x y h = cc

pub not_chosen : {A : Type 0} (b : Bool) (x y : A) → b ≡ false → (if b then x else y) ≡ y
not_chosen true x y h = cc
not_chosen false x y h = refl

pub passed_not : (b : Bool) → not b ≡ false → b ≡ true
passed_not true h = refl
passed_not false h = cc

commit-eq-ok :
    {T : Type 0} (put : T → World) (w : World) (r : Result StoreError T) {w' : World} {u : Unit {0}}
    → commit put w r ≡ (w', ok u)
    → (t : T) × (r ≡ ok t) × (w' ≡ put t)
commit-eq-ok put w (ok t) h = (t, refl, cc)
commit-eq-ok put w (err e) h = cc

pub lookup-write_file_self :
    {A : Type 0} (id : Text) (v : A) (t : Table A) → lookup id (write_file id v t) ≡ some v
lookup-write_file_self id v t = lookup-write_file id id v t ∙ rw (==-refl id) refl

-- A save that succeeds has put the value under its id.
pub save_run-eq-ok :
    (disk : Disk) (r : Run) (w : World) {w' : World} {u : Unit {0}}
    → save_run disk r w ≡ (w', ok u)
    → lookup r.id w'.runs ≡ some r
unfolding save_run
save_run-eq-ok disk r w h =
    let (t, saved, same) = commit-eq-ok (λ (t : Table Run). record w { runs = t }) w _ h in
    ap (λ (x : World). lookup r.id x.runs) same
    ∙ (ap (lookup r.id) (save_object-eq-ok disk (bytes "runs") r.id r w.runs saved)
        ∙ lookup-write_file_self r.id r w.runs)

pub save_turn-eq-ok :
    (disk : Disk) (t : Turn) (w : World) {w' : World} {u : Unit {0}}
    → save_turn disk t w ≡ (w', ok u)
    → lookup t.id w'.turns ≡ some t
unfolding save_turn
save_turn-eq-ok disk t w h =
    let (ts, saved, same) = commit-eq-ok (λ (ts : Table Turn). record w { turns = ts }) w _ h in
    ap (λ (x : World). lookup t.id x.turns) same
    ∙ (ap (lookup t.id) (save_object-eq-ok disk (bytes "turns") t.id t w.turns saved)
        ∙ lookup-write_file_self t.id t w.turns)

pub save_session-eq-ok :
    (disk : Disk) (s : Session) (w : World) {w' : World} {u : Unit {0}}
    → save_session disk s w ≡ (w', ok u)
    → lookup s.id w'.sessions ≡ some s
unfolding save_session
save_session-eq-ok disk s w h =
    let (t, saved, same) = commit-eq-ok (λ (t : Table Session). record w { sessions = t }) w _ h in
    ap (λ (x : World). lookup s.id x.sessions) same
    ∙ (ap (lookup s.id) (save_object-eq-ok disk (bytes "sessions") s.id s w.sessions saved)
        ∙ lookup-write_file_self s.id s w.sessions)

pub save_automation-eq-ok :
    (disk : Disk) (r : AutomationRule) (w : World) {w' : World} {u : Unit {0}}
    → save_automation disk r w ≡ (w', ok u)
    → lookup r.id w'.automations ≡ some r
unfolding save_automation
save_automation-eq-ok disk r w h =
    let (t, saved, same) =
      commit-eq-ok (λ (t : Table AutomationRule). record w { automations = t }) w _ h in
    ap (λ (x : World). lookup r.id x.automations) same
    ∙ (ap (lookup r.id) (save_object-eq-ok disk (bytes "automations") r.id r w.automations saved)
        ∙ lookup-write_file_self r.id r w.automations)

pub save_host-eq-ok :
    (disk : Disk) (h : Host) (w : World) {w' : World} {u : Unit {0}}
    → save_host disk h w ≡ (w', ok u)
    → lookup h.id w'.hosts ≡ some h
unfolding save_host
save_host-eq-ok disk h w e =
    let (t, saved, same) = commit-eq-ok (λ (t : Table Host). record w { hosts = t }) w _ e in
    ap (λ (x : World). lookup h.id x.hosts) same
    ∙ (ap (lookup h.id) (save_object-eq-ok disk (bytes "hosts") h.id h w.hosts saved)
        ∙ lookup-write_file_self h.id h w.hosts)

-- A read changes nothing.
lift-world : {A : Type 0} (r : Result StoreError A) (w : World) → lift r w ≡ (w, (lift r w).1)
lift-world (ok a) w = refl
lift-world (err e) w = refl

pub get_host-world :
    (disk : Disk) (id : Text) (w : World) → get_host disk id w ≡ (w, (get_host disk id w).1)
unfolding get_host
get_host-world disk id w = lift-world (get_object disk (bytes "hosts") id w.hosts) w

-- The tables of runs, turns and sessions are the same.
pub record SameTables (w w' : World) : Type 0 where
  pub runs : w'.runs ≡ w.runs
  pub turns : w'.turns ≡ w.turns
  pub sessions : w'.sessions ≡ w.sessions

pub commit-SameTables :
    {T : Type 0} (put : T → World) (w : World) (r : Result StoreError T)
    → ((t : T) → SameTables w (put t))
    → SameTables w (commit put w r).0
commit-SameTables put w (ok t) h = h t
commit-SameTables put w (err e) h = record { runs = refl; turns = refl; sessions = refl }

record_timed-SameTables :
    (disk : Disk) (e : Event) (w : World) → SameTables w (record_timed disk e w).0
unfolding record_timed
record_timed-SameTables disk e w =
    commit-SameTables _ w (append_event disk e w.logs)
      (λ t. record { runs = refl; turns = refl; sessions = refl })

pub record_event-SameTables :
    (clock : ℕ → ℕ) (disk : Disk) (e : Event) (w : World)
    → SameTables w (record_event clock disk e w).0
unfolding record_event
record_event-SameTables clock disk e w = elim (Bool-cases (e.timestamp == 0)) [
  | inl z ↦
      let s =
        record_timed-SameTables disk (record e { timestamp = clock w.readings })
          (record w { readings = suc w.readings }) in
      rw z (record { runs = s.runs; turns = s.turns; sessions = s.sessions })
  | inr n ↦ rw n (record_timed-SameTables disk e w)
]

pub announce-SameTables :
    (clock : ℕ → ℕ) (disk : Disk) (run_id type_name message : Text)
    (payload : List (Text × PayloadValue)) (at : ℕ) (w : World)
    → SameTables w (announce clock disk run_id type_name message payload at w).0
unfolding announce ignore ◌>>=◌ and_then
announce-SameTables clock disk run_id type_name message payload at w =
    let s = record_event-SameTables clock disk _ (record w { readings = suc w.readings }) in
    record { runs = s.runs; turns = s.turns; sessions = s.sessions }

pub announce_now-SameTables :
    (clock : ℕ → ℕ) (disk : Disk) (run_id type_name message : Text)
    (payload : List (Text × PayloadValue)) (w : World)
    → SameTables w (announce_now clock disk run_id type_name message payload w).0
unfolding announce_now ignore ◌>>=◌ and_then
announce_now-SameTables clock disk run_id type_name message payload w =
    let s = record_event-SameTables clock disk _ (record w { readings = suc (suc w.readings) }) in
    record { runs = s.runs; turns = s.turns; sessions = s.sessions }

-- A save of one table keeps the others.
pub save_run-turns : (disk : Disk) (r : Run) (w : World) → (save_run disk r w).0.turns ≡ w.turns
unfolding save_run
save_run-turns disk r w = ground arith

-- The same of a success, by its equation.
pub after_save_run-turns :
    (disk : Disk) (r : Run) (w : World) {w' : World} {u : Unit {0}}
    → save_run disk r w ≡ (w', ok u)
    → w'.turns ≡ w.turns
after_save_run-turns disk r w h =
    sym (ap (λ (p : World × Result GatewayError (Unit {0})). p.0.turns) h) ∙ save_run-turns disk r w

pub after_announce-SameTables :
    (clock : ℕ → ℕ) (disk : Disk) (run_id type_name message : Text)
    (payload : List (Text × PayloadValue)) (at : ℕ) (w : World) {w' : World} {u : Unit {0}}
    → announce clock disk run_id type_name message payload at w ≡ (w', ok u)
    → SameTables w w'
after_announce-SameTables clock disk run_id type_name message payload at w h =
    subst (SameTables w) (ap (λ (p : World × Result GatewayError (Unit {0})). p.0) h)
      (announce-SameTables clock disk run_id type_name message payload at w)

pub return-eq-ok :
    {A : Type 0} {w w' : World} {a b : A}
    → ◌≡◌ {A = World × Result GatewayError A} (w, ok a) (w', ok b)
    → (w ≡ w') × (a ≡ b)
return-eq-ok h = (cc, cc)
