-- ===== src/Gateway/Process/Frame.antt =====
-- What the end of `processRun` leaves alone: the tables of runs, turns and sessions.
use ops_terminator.Base.{
  ℕ, List, [], Option, none, some, Result, ok, err, refl, ◌∙◌, inl, inr, Bool-cases, ◌==◌, text_eq,
}
use ops_terminator.Base.Text.{Text, bytes, trim_space}
use ops_terminator.Models.{Run, AuditEntry}
use ops_terminator.Models.Sessions.{Float64, Turn, KnowledgeItem, ExecutionResult}
use ops_terminator.Store.{Disk, save_object}
use ops_terminator.Store.Log.{append_audit}
use ops_terminator.Gateway.Service.{
  World, GatewayError, M, and_then, ◌>>=◌, ignore, save_knowledge, audit_entry,
}
use ops_terminator.Gateway.Service.Frame.{SameTables, commit-SameTables, announce_now-SameTables}
use ops_terminator.Gateway.Capture.{
  embedded, embed_candidate, candidate_saved, capture_knowledge_candidate,
}

pub same : (w : World) → SameTables w w
same w = record { runs = refl; turns = refl; sessions = refl }

pub then-SameTables : {w0 w1 w2 : World} → SameTables w0 w1 → SameTables w1 w2 → SameTables w0 w2
then-SameTables p q = record {
  runs = q.runs ∙ p.runs;
  turns = q.turns ∙ p.turns;
  sessions = q.sessions ∙ p.sessions;
}

pub and_then-SameTables :
    {A B : Type 0} (w : World) (f : A → M B) (r : World × Result GatewayError A)
    → SameTables w r.0
    → ((a : A) (w1 : World) → SameTables w1 (f a w1).0)
    → SameTables w (and_then f r).0
unfolding and_then
and_then-SameTables w f (w1, ok a) p q = then-SameTables p (q a w1)
and_then-SameTables w f (w1, err e) p q = p

pub bind-SameTables :
    {A B : Type 0} (m : M A) (f : A → M B) (w : World)
    → SameTables w (m w).0
    → ((a : A) (w1 : World) → SameTables w1 (f a w1).0)
    → SameTables w ((m >>= f) w).0
unfolding ◌>>=◌
bind-SameTables m f w p q = and_then-SameTables w f (m w) p q

pub save_knowledge-SameTables :
    (disk : Disk) (k : KnowledgeItem) (w : World) → SameTables w (save_knowledge disk k w).0
unfolding save_knowledge
save_knowledge-SameTables disk k w =
    commit-SameTables _ w (save_object disk (bytes "knowledge") k.id k w.knowledge)
      (λ t. record { runs = refl; turns = refl; sessions = refl })

pub audit_entry-SameTables :
    (disk : Disk) (e : AuditEntry) (w : World) → SameTables w (audit_entry disk e w).0
unfolding audit_entry
audit_entry-SameTables disk e w =
    commit-SameTables _ w (append_audit disk e w.audit)
      (λ t. record { runs = refl; turns = refl; sessions = refl })

module _ (clock : ℕ → ℕ) (disk : Disk)
    (embed : Option (Text → Text → Result Text (List Float64))) where
  pub embedded-SameTables :
      (k : KnowledgeItem) (r : Result Text (List Float64)) (w : World)
      → SameTables w (embedded clock disk k r w).0
  unfolding embedded
  embedded-SameTables k (ok v) w = same w
  embedded-SameTables k (err why) w =
      bind-SameTables _ _ w (announce_now-SameTables clock disk _ _ _ _ w) (λ _ w1. same w1)

  pub embed_candidate-SameTables :
      (e : Option (Text → Text → Result Text (List Float64))) (k : KnowledgeItem) (w : World)
      → SameTables w (embed_candidate clock disk e k w).0
  unfolding embed_candidate
  embed_candidate-SameTables none k w = same w
  embed_candidate-SameTables (some f) k w = elim (Bool-cases (k.embedding_model == [])) [
    | inl h ↦ rw h (same w)
    | inr h ↦ rw h (embedded-SameTables k _ w)
  ]

  pub candidate_saved-SameTables :
      (k : KnowledgeItem) (r : World × Result GatewayError (Unit {0}))
      → SameTables r.0 (candidate_saved clock disk k r).0
  unfolding candidate_saved ignore
  candidate_saved-SameTables k (w, err e) = announce_now-SameTables clock disk _ _ _ _ w
  candidate_saved-SameTables k (w, ok u) =
      bind-SameTables _ _ w (record { runs = refl; turns = refl; sessions = refl })
        (λ id w1.
          bind-SameTables _ _ w1 (record { runs = refl; turns = refl; sessions = refl })
            (λ at w2. audit_entry-SameTables disk _ w2))

  pub capture-SameTables :
      (run : Run) (turn : Turn) (result : ExecutionResult) (w : World)
      → SameTables w (capture_knowledge_candidate clock disk embed run turn result w).0
  unfolding capture_knowledge_candidate
  capture-SameTables run turn result w =
      elim (Bool-cases (trim_space result.final_response == [])) [
        | inl h ↦ rw h (same w)
        | inr h ↦ rw h (
            bind-SameTables _ _ w (record { runs = refl; turns = refl; sessions = refl })
              (λ id w1.
                bind-SameTables _ _ w1 (record { runs = refl; turns = refl; sessions = refl })
                  (λ created w2.
                    bind-SameTables _ _ w2 (record { runs = refl; turns = refl; sessions = refl })
                      (λ updated w3.
                        bind-SameTables _ _ w3 (embed_candidate-SameTables embed _ w3) (λ item w4.
                          then-SameTables (save_knowledge-SameTables disk item w4)
                            (candidate_saved-SameTables item (save_knowledge disk item w4)))))))
      ]
