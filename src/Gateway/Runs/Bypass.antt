-- ===== src/Gateway/Runs/Bypass.antt =====
-- The approvals that a run may bypass: from `CreateRun`, which stores the run and its turn, to the
-- settings `processRun` gives to `Execute`.
use ops_terminator.Base.{
  ℕ, Bool, true, false, ◌&&◌, List, Option, none, some, Result, ok, ◌≡◌, refl, sym, ap, ◌∙◌, subst,
  if◌then◌else◌,
}
use mathlib.Core.Option.{some-injective}
use ops_terminator.Base.Int.{ℤ}
use ops_terminator.Base.Text.{Text}
use ops_terminator.Models.{Run}
use ops_terminator.Models.Hosts.{Host}
use ops_terminator.Models.Sessions.{Session, Turn, OperatorProfile, KnowledgeItem}
use ops_terminator.Store.{Disk, lookup}
use ops_terminator.Agent.Settings.{RuntimeSettings, normalize_runtime_settings}
use ops_terminator.Gateway.Context.{Builder, build}
use ops_terminator.Gateway.Service.{
  World, GatewayError, run_not_found, found_or, save_turn, save_run, get_run, get_turn,
}
use ops_terminator.Gateway.Service.Frame.{
  SameTables, after_both, get_operator_profile-eq-ok, get_run-eq-ok, get_turn-eq-ok, get_host-eq-ok,
  save_run-eq-ok, save_turn-eq-ok, after_save_run-turns, after_announce-SameTables, return-eq-ok,
}
use ops_terminator.Gateway.Runs.{
  RunRequest, ExecutionInput, normalize_operator_profile, merge_run_mode_into_settings,
  operator_profile, profile_found, store_run, create_run,
}
use ops_terminator.Gateway.Process.{run_settings, prepare_run}
use ops_terminator.Gateway.Zero.{or_zero, no_turn}

-- The run is stored, and so is its turn, with what the profile says of bypassing approvals.
pub record StoredUnder (allowed : Bool) (run : Run) (w : World) : Type 0 where
  pub stored : lookup run.id w.runs ≡ some run
  pub turn : Turn
  pub turn_stored : lookup run.turn_id w.turns ≡ some turn
  pub turn_allows : turn.context_snapshot.operator_profile.allow_bypass_approvals ≡ allowed

saved-StoredUnder :
    (disk : Disk) (run : Run) (turn : Turn) (w4 : World) {w5 w6 w7 : World} {u v : Unit {0}}
    → run.turn_id ≡ turn.id
    → save_turn disk turn w4 ≡ (w5, ok u)
    → save_run disk run w5 ≡ (w6, ok v)
    → SameTables w6 w7
    → StoredUnder turn.context_snapshot.operator_profile.allow_bypass_approvals run w7
saved-StoredUnder disk run turn w4 {w5 = w5} {w6 = w6} {w7 = w7} same s5 s6 frame = record {
  stored = ap (lookup run.id) frame.runs ∙ save_run-eq-ok disk run w5 s6;
  turn = turn;
  turn_stored =
      ap (lookup run.turn_id) (frame.turns ∙ after_save_run-turns disk run w5 s6)
      ∙ (ap (λ id. lookup id w5.turns) same ∙ save_turn-eq-ok disk turn w4 s5);
  turn_allows = refl;
}

moved-StoredUnder :
    {allowed : Bool} {run run' : Run} {w w' : World}
    → StoredUnder allowed run w
    → ◌≡◌ {A = World × Result GatewayError Run} (w, ok run) (w', ok run')
    → StoredUnder allowed run' w'
moved-StoredUnder {allowed} {run} {w' = w'} h e =
    let (same_world, same_run) = return-eq-ok e in
    subst (λ r. StoredUnder allowed r w') same_run (subst (StoredUnder allowed run) same_world h)

pub found_or-eq-ok :
    {A : Type 0} (e : GatewayError) (o : Option A) (w : World) {w' : World} {a : A}
    → found_or e o w ≡ (w', ok a)
    → (w' ≡ w) × (o ≡ some a)
found_or-eq-ok e none w h = cc
found_or-eq-ok e (some x) w h = (cc, cc)

pub operator_profile-allows :
    (clock : ℕ → ℕ) (disk : Disk) (p : OperatorProfile) (w : World) {w' : World}
    {profile : OperatorProfile}
    → w.operator_profile ≡ some p
    → operator_profile clock disk w ≡ (w', ok profile)
    → profile.allow_bypass_approvals ≡ p.allow_bypass_approvals
unfolding operator_profile profile_found normalize_operator_profile
operator_profile-allows clock disk p w {w' = w'} {profile = profile} stored h =
    after_both _ _ _ h (λ w1 found s1 h1.
      let known = get_operator_profile-eq-ok disk w s1 ∙ stored in
      sym (
        ap (λ q. q.allow_bypass_approvals)
          (return-eq-ok
            (subst (λ o. profile_found clock disk o w1 ≡ (w', ok profile)) known h1)).1))

module _ (clock : ℕ → ℕ) (disk : Disk) (b : Builder)
    (select_knowledge : Text → ℤ → World → Result Text (List KnowledgeItem))
    (request : RunRequest) where
  store_run-StoredUnder :
      (host : Host) (profile : OperatorProfile) (session : Session) (knowledge : List KnowledgeItem)
      (w : World) {w' : World} {run : Run}
      → store_run clock disk b select_knowledge request host profile session knowledge w
        ≡ (w', ok run)
      → StoredUnder profile.allow_bypass_approvals run w'
  unfolding store_run build
  store_run-StoredUnder host profile session knowledge w h = after_both _ _ _ h (λ w1 at s1 h1.
      after_both _ _ _ h1 (λ w2 turn_id s2 h2. after_both _ _ _ h2 (λ w3 run_id s3 h3.
        after_both _ _ _ h3 (λ w4 _ s4 h4. after_both _ _ _ h4 (λ w5 _ s5 h5.
          after_both _ _ _ h5 (λ w6 _ s6 h6. after_both _ _ _ h6 (λ w7 _ s7 h7.
            moved-StoredUnder
              (saved-StoredUnder disk _ _ w4 refl s5 s6
                (after_announce-SameTables clock disk _ _ _ _ _ w6 s7))
              h7)))))))

  create_run-StoredUnder :
      (p : OperatorProfile) (w : World) {w' : World} {run : Run}
      → w.operator_profile ≡ some p
      → create_run clock disk b select_knowledge request w ≡ (w', ok run)
      → StoredUnder p.allow_bypass_approvals run w'
  unfolding create_run
  create_run-StoredUnder p w {w' = w'} {run = run} stored h = after_both _ _ _ h (λ w1 found s1 h1.
      after_both _ _ _ h1 (λ w2 host s2 h2. after_both _ _ _ h2 (λ w3 profile s3 h3.
        after_both _ _ _ h3 (λ w4 settings s4 h4. after_both _ _ _ h4 (λ w5 session s5 h5.
          after_both _ _ _ h5 (λ w6 at s6 h6. after_both _ _ _ h6 (λ w7 memory s7 h7.
            after_both _ _ _ h7 (λ w8 knowledge s8 h8.
              let same : w2 ≡ w =
                (found_or-eq-ok _ found w1 s2).0 ∙ (get_host-eq-ok disk request.host_id w s1).0 in
              subst (λ a. StoredUnder a run w')
                (operator_profile-allows clock disk p w2
                  (ap (λ (x : World). x.operator_profile) same ∙ stored) s3)
                (store_run-StoredUnder host profile _ knowledge w8 h8)))))))))

-- What a run's settings say, by its flag and the profile's.
settings-bypass :
    (bypass allowed : Bool) (settings : RuntimeSettings)
    → (if allowed
        then record settings { bypass_approvals = bypass }
        else record settings { bypass_approvals = false }).bypass_approvals
      ≡ (bypass && allowed)
settings-bypass false false settings = refl
settings-bypass false true settings = refl
settings-bypass true false settings = refl
settings-bypass true true settings = refl

run_settings-bypass :
    (settings : RuntimeSettings) (bypass : Bool) (profile : OperatorProfile)
    → (run_settings settings bypass profile).bypass_approvals
      ≡ (bypass && profile.allow_bypass_approvals)
unfolding run_settings merge_run_mode_into_settings
run_settings-bypass settings bypass profile =
    settings-bypass bypass profile.allow_bypass_approvals (normalize_runtime_settings settings)

module _ (clock : ℕ → ℕ) (disk : Disk) where
  -- What `processRun` reads first, of a run that is stored with its turn.
  read-same :
      (allowed : Bool) (run : Run) (w : World) {w1 w2 w3 : World} {found : Option Run} {r : Run}
      {found_turn : Option Turn}
      → (there : StoredUnder allowed run w) → get_run disk run.id w ≡ (w1, ok found)
      → found_or (run_not_found run.id) found w1 ≡ (w2, ok r)
      → get_turn disk r.turn_id w2 ≡ (w3, ok found_turn)
      → (r ≡ run) × (found_turn ≡ some there.turn)
  read-same allowed run w {w2 = w2} {found = found} {r = r} {found_turn = found_turn} there s1 s2
        s3 =
      let (back, read) = get_run-eq-ok disk run.id w s1 in
      let (kept, present) = found_or-eq-ok _ found _ s2 in
      let same : r ≡ run = some-injective r run (sym present ∙ (sym read ∙ there.stored)) in
      let (_, read_turn) = get_turn-eq-ok disk r.turn_id w2 s3 in
      (
        same,
        sym read_turn
            ∙ (ap (λ (x : World). lookup r.turn_id x.turns) (kept ∙ back)
                ∙ (ap (λ (x : Run). lookup x.turn_id w.turns) same ∙ there.turn_stored)),
      )

  -- The settings of a run that is stored under a profile.
  prepare_run-bypass :
      (allowed : Bool) (run : Run) (w : World) {w' : World} {input : ExecutionInput}
      → StoredUnder allowed run w
      → prepare_run clock disk run.id w ≡ (w', ok input)
      → input.runtime_settings.bypass_approvals ≡ (run.bypass_approvals && allowed)
  unfolding prepare_run
  prepare_run-bypass allowed run w {w' = w'} {input = input} there h =
      after_both _ _ _ h (λ w1 found s1 h1. after_both _ _ _ h1 (λ w2 r s2 h2.
        after_both _ _ _ h2 (λ w3 found_turn s3 h3. after_both _ _ _ h3 (λ w4 found_session s4 h4.
          after_both _ _ _ h4 (λ w5 found_host s5 h5. after_both _ _ _ h5 (λ w6 at s6 h6.
            after_both _ _ _ h6 (λ w7 _ s7 h7. after_both _ _ _ h7 (λ w8 turns s8 h8.
              let (same, present) = read-same allowed run w there s1 s2 s3 in
              sym (
                ap (λ (i : ExecutionInput). i.runtime_settings.bypass_approvals)
                  (return-eq-ok h8).1)
              ∙ (run_settings-bypass w8.settings r.bypass_approvals
                    (or_zero no_turn found_turn).context_snapshot.operator_profile
                  ∙ (ap
                        (λ (x : Run).
                          x.bypass_approvals
                          && (or_zero no_turn
                              found_turn).context_snapshot.operator_profile.allow_bypass_approvals)
                        same
                      ∙ (ap
                            (λ o.
                              run.bypass_approvals
                              && (or_zero no_turn
                                  o).context_snapshot.operator_profile.allow_bypass_approvals)
                            present
                          ∙ ap (λ a. run.bypass_approvals && a) there.turn_allows)))))))))))

-- A run that `CreateRun` creates when the operator profile `p` is stored is executed with approvals
-- bypassed exactly if the run has the mode and `p` allows it, whatever is done to the profile, the
-- sessions and the hosts before `processRun` starts it.
pub prepare_run-create_run :
    (clock : ℕ → ℕ) (disk : Disk) (b : Builder)
    (select_knowledge : Text → ℤ → World → Result Text (List KnowledgeItem)) (request : RunRequest)
    (p : OperatorProfile) (w w1 w2 w3 : World) (run : Run) (input : ExecutionInput)
    → w.operator_profile ≡ some p
    → create_run clock disk b select_knowledge request w ≡ (w1, ok run)
    → w2.runs ≡ w1.runs
    → w2.turns ≡ w1.turns
    → prepare_run clock disk run.id w2 ≡ (w3, ok input)
    → input.runtime_settings.bypass_approvals ≡ (run.bypass_approvals && p.allow_bypass_approvals)
prepare_run-create_run clock disk b select_knowledge request p w w1 w2 w3 run input stored created
      runs turns prepared =
    let s = create_run-StoredUnder clock disk b select_knowledge request p w stored created in
    prepare_run-bypass clock disk p.allow_bypass_approvals run w2
      (record {
        stored = ap (lookup run.id) runs ∙ s.stored;
        turn = s.turn;
        turn_stored = ap (lookup run.turn_id) turns ∙ s.turn_stored;
        turn_allows = s.turn_allows;
      })
      prepared
