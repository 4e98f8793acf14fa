-- ===== src/Gateway/Runs/Refused.antt =====
-- The requests that `CreateRun` refuses for their mode.
use ops_terminator.Base.{
  ℕ, Bool, true, false, List, [], Option, none, some, Result, ok, err, ◌≡◌, refl, sym, ap, ◌∙◌,
  subst, inl, inr, Bool-cases, arith,
}
use ops_terminator.Base.Int.{ℤ}
use ops_terminator.Base.Text.{Text, bytes}
use ops_terminator.Models.Sessions.{OperatorProfile, KnowledgeItem}
use ops_terminator.Store.{Disk}
use ops_terminator.Agent.Settings.{RuntimeSettings, normalize_runtime_settings}
use ops_terminator.Gateway.Context.{Builder}
use ops_terminator.Gateway.Service.{
  World, GatewayError, bypass_not_allowed, M, and_then, ◌>>=◌, found_or, get_operator_profile,
  save_operator_profile,
}
use ops_terminator.Gateway.Service.Frame.{SameTables, get_host-world, get_host-eq-ok}
use ops_terminator.Gateway.Process.Frame.{same, then-SameTables, bind-SameTables}
use ops_terminator.Gateway.Runs.{
  RunRequest, operator_profile, profile_found, allowed_settings, create_run,
}
use ops_terminator.Gateway.Runs.Bypass.{operator_profile-allows, found_or-eq-ok}

-- An error, with the runs, turns and sessions as they were.
pub record IsRefused {A : Type 0} (w : World) (r : World × Result GatewayError A) : Type 0 where
  pub unchanged : SameTables w r.0
  pub error : GatewayError
  pub refused : r.1 ≡ err error

and_then-IsRefused :
    {A B : Type 0} (w : World) (f : A → M B) (r : World × Result GatewayError A)
    → SameTables w r.0
    → ((a : A) (w1 : World) → r ≡ (w1, ok a) → IsRefused w1 (f a w1))
    → IsRefused w (and_then f r)
unfolding and_then
and_then-IsRefused w f (w1, ok a) p q =
    let h = q a w1 refl in
    record { unchanged = then-SameTables p h.unchanged; error = h.error; refused = h.refused }
and_then-IsRefused w f (w1, err e) p q = record { unchanged = p; error = e; refused = refl }

bind-IsRefused :
    {A B : Type 0} (m : M A) (f : A → M B) (w : World)
    → SameTables w (m w).0
    → ((a : A) (w1 : World) → m w ≡ (w1, ok a) → IsRefused w1 (f a w1))
    → IsRefused w ((m >>= f) w)
unfolding ◌>>=◌
bind-IsRefused m f w p q = and_then-IsRefused w f (m w) p q

found_or-SameTables :
    {A : Type 0} (e : GatewayError) (o : Option A) (w : World) → SameTables w (found_or e o w).0
found_or-SameTables e none w = same w
found_or-SameTables e (some a) w = same w

get_operator_profile-world : (disk : Disk) (w : World) → (get_operator_profile disk w).0 ≡ w
unfolding get_operator_profile
get_operator_profile-world disk w = ground arith

save_operator_profile-SameTables :
    (disk : Disk) (p : OperatorProfile) (w : World)
    → SameTables w (save_operator_profile disk p w).0
unfolding save_operator_profile
save_operator_profile-SameTables disk p w =
    elim (Bool-cases (disk.writable [] (bytes "operator_profile.json"))) [
      | inl e ↦ rw e (record { runs = refl; turns = refl; sessions = refl })
      | inr e ↦ rw e (same w)
    ]

profile_found-SameTables :
    (clock : ℕ → ℕ) (disk : Disk) (o : Option OperatorProfile) (w : World)
    → SameTables w (profile_found clock disk o w).0
unfolding profile_found
profile_found-SameTables clock disk (some p) w = same w
profile_found-SameTables clock disk none w =
    bind-SameTables _ _ w (record { runs = refl; turns = refl; sessions = refl })
      (λ at w1.
        bind-SameTables _ _ w1 (save_operator_profile-SameTables disk _ w1) (λ _ w2. same w2))

operator_profile-SameTables :
    (clock : ℕ → ℕ) (disk : Disk) (w : World) → SameTables w (operator_profile clock disk w).0
unfolding operator_profile
operator_profile-SameTables clock disk w =
    bind-SameTables _ _ w (subst (SameTables w) (sym (get_operator_profile-world disk w)) (same w))
      (λ o w1. profile_found-SameTables clock disk o w1)

not_allowed-IsRefused :
    (clock : ℕ → ℕ) (disk : Disk) (profile : OperatorProfile) (override : Option Bool)
    (settings : RuntimeSettings) (w : World)
    → profile.allow_bypass_approvals ≡ false
    → override ≡ some true
    → IsRefused w (allowed_settings clock disk profile override settings w)
unfolding allowed_settings
not_allowed-IsRefused clock disk profile none settings w p o = cc
not_allowed-IsRefused clock disk profile (some false) settings w p o = cc
not_allowed-IsRefused clock disk profile (some true) settings w p o =
    rw p (record { unchanged = same w; error = bypass_not_allowed; refused = refl })

-- What follows an error is not done.
bind-IsRefused_left :
    {A B : Type 0} (m : M A) (f : A → M B) (w : World)
    → IsRefused w (m w)
    → IsRefused w ((m >>= f) w)
bind-IsRefused_left {A = A} m f w h =
    bind-IsRefused m f w h.unchanged
      (λ a w1 e. let d = sym h.refused ∙ ap (λ (r : World × Result GatewayError A). r.1) e in cc)

-- A request to bypass approvals under a stored profile that does not allow it gives an error, and no
-- run, turn or session is stored or changed.
pub create_run-IsRefused :
    (clock : ℕ → ℕ) (disk : Disk) (b : Builder)
    (select_knowledge : Text → ℤ → World → Result Text (List KnowledgeItem)) (request : RunRequest)
    (p : OperatorProfile) (w : World)
    → w.operator_profile ≡ some p
    → p.allow_bypass_approvals ≡ false
    → request.bypass_approvals ≡ some true
    → IsRefused w (create_run clock disk b select_knowledge request w)
unfolding create_run
create_run-IsRefused clock disk b select_knowledge request p w stored closed wanted =
    bind-IsRefused _ _ w
      (subst (λ r. SameTables w r.0) (sym (get_host-world disk request.host_id w)) (same w))
      (λ found w1 s1. bind-IsRefused _ _ w1 (found_or-SameTables _ found w1) (λ host w2 s2.
        bind-IsRefused _ _ w2 (operator_profile-SameTables clock disk w2) (λ profile w3 s3.
          let back : w2 ≡ w =
            (found_or-eq-ok _ found w1 s2).0 ∙ (get_host-eq-ok disk request.host_id w s1).0 in
          let denied =
            operator_profile-allows clock disk p w2
              (ap (λ (x : World). x.operator_profile) back ∙ stored) s3
            ∙ closed in
          let refusal =
            not_allowed-IsRefused clock disk profile request.bypass_approvals
              (normalize_runtime_settings w3.settings) w3 denied wanted in
          bind-IsRefused_left _ _ w3 refusal)))
