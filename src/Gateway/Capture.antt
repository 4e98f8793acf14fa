-- ===== src/Gateway/Capture.antt =====
-- `captureKnowledgeCandidate` of internal/gateway/service.go.
use ops_terminator.Base.{
  ℕ, List, [], ◌∷◌, ◌++◌, Option, none, some, Result, ok, err, ◌==◌, text_eq, nat_eq, if◌then◌else◌,
  ltb,
}
use ops_terminator.Base.Text.{Text, bytes, trim_space, length, take}
use ops_terminator.Models.{Run, text}
use ops_terminator.Models.Sessions.{Float64, Turn, KnowledgeItem, ExecutionResult}
use ops_terminator.Store.{Disk}
use ops_terminator.Gateway.Service.{
  ◌>>=◌, World, GatewayError, M, return, ignore, now, fresh_id, save_knowledge, audit_entry,
  announce_now,
}

-- `title[:96]`.
unfoldable pub title_of : Text → Text
title_of input =
    let title = trim_space input in if ltb 96 (length title) then take 96 title else title

-- 0.5, as its bits.
abbrev one_half : Float64
one_half = 0x3fe0000000000000

module _ (clock : ℕ → ℕ) (disk : Disk) where
  -- What the embedding of a candidate gave: the item, and an event if it failed.
  unfoldable pub embedded : KnowledgeItem → Result Text (List Float64) → M KnowledgeItem
  embedded item (ok vector) =
      return (record item { embedding = vector; embedding_status = bytes "ok" })
  embedded item (err why) = do
    _ ← announce_now clock disk item.source_run_id (bytes "knowledge.embedding_failed") why (
        (bytes "knowledge_id", text item.id)
        ∷ (bytes "embedding_model", text item.embedding_model)
        ∷ [])
    return (record item { embedding_status = bytes "failed"; embedding_error = why })

  -- The embedding of a candidate, if there is a client and a model.
  unfoldable pub embed_candidate :
      Option (Text → Text → Result Text (List Float64)) → KnowledgeItem → M KnowledgeItem
  unfolding embedded
  embed_candidate none item = return item
  embed_candidate (some embed) item =
      if item.embedding_model == []
      then return item
      else embedded item (embed (item.title ++ (b'\n' ∷ item.body)) item.embedding_model)

  -- The save of a candidate: an audit entry, or an event if the store refuses it.
  unfoldable pub candidate_saved :
      KnowledgeItem
      → World × Result GatewayError (Unit {0})
      → World × Result GatewayError (Unit {0})
  candidate_saved item (w, err e) =
      announce_now clock disk item.source_run_id (bytes "knowledge.capture_failed") (bytes "store")
        [] w
  candidate_saved item (w, ok _) =
      ignore
        (do
          id ← fresh_id clock (bytes "audit")
          at ← now clock
          audit_entry disk (record {
            id = id;
            run_id = item.source_run_id;
            kind = bytes "knowledge_candidate_created";
            summary = item.title;
            payload =
                (bytes "knowledge_id", text item.id)
                ∷ (bytes "status", text item.status)
                ∷ (bytes "embedding_status", text item.embedding_status)
                ∷ [];
            created_at = at;
          }))
        w

  -- `captureKnowledgeCandidate`. The message of an error of the store is not modelled.
  unfoldable pub capture_knowledge_candidate :
      Option (Text → Text → Result Text (List Float64))
      → Run
      → Turn
      → ExecutionResult
      → M (Unit {0})
  unfolding embed_candidate candidate_saved title_of
  capture_knowledge_candidate embed run turn result =
      let body = trim_space result.final_response in
      if body == [] then return tt else (do
        id ← fresh_id clock (bytes "knowledge")
        created ← now clock
        updated ← now clock
        item ← (λ w.
            embed_candidate embed
              (record {
                id = id;
                kind = bytes "memory";
                status = bytes "pending";
                scope = run.host_id;
                title = title_of turn.user_input;
                body = body;
                source_run_id = run.id;
                source_turn_id = turn.id;
                source_event_id = [];
                source_sop_id = [];
                confidence = one_half;
                embedding = [];
                embedding_model = trim_space w.embedding_model;
                embedding_status = [];
                embedding_error = [];
                tags = bytes "candidate" ∷ bytes "run_completed" ∷ [];
                created_at = created;
                updated_at = updated;
                approved_at = none;
                approved_by = [];
              })
              w)
        λ w. candidate_saved item (save_knowledge disk item w))
