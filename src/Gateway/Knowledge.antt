-- ===== src/Gateway/Knowledge.antt =====
-- `SaveKnowledge` and `SelectKnowledge` of internal/gateway/service.go. `strings.ToLower` and
-- `strings.Fields`, which work on Unicode's tables, are parameters.
pub mod Selected
use ops_terminator.Base.{
  ℕ, zero, suc, ◌+◌, Bool, ◌&&◌, ◌||◌, List, [], ◌∷◌, ◌++◌, Option, none, some, ok, err, ◌==◌,
  text_eq, nat_eq, if◌then◌else◌, ltb,
}
use ops_terminator.Base.Int.{ℤ, pos, negsuc, is_positive}
use ops_terminator.Base.Text.{Text, bytes, trim_space, first_non_empty, length, contains}
use ops_terminator.Models.{text}
use ops_terminator.Models.Sessions.{KnowledgeItem}
use ops_terminator.Store.{Disk, list_objects}
use ops_terminator.Agent.Settings.{default_runtime_settings}
use ops_terminator.Gateway.Service.{
  ◌>>=◌, text_required, M, return, fail, ignore, now, fresh_id, lift, save_knowledge, audit_entry,
}

abbrev pub knowledge_status_pending : Text
knowledge_status_pending = bytes "pending"

abbrev pub knowledge_status_active : Text
knowledge_status_active = bytes "active"

abbrev pub knowledge_kind_memory : Text
knowledge_kind_memory = bytes "memory"

abbrev pub knowledge_kind_sop : Text
knowledge_kind_sop = bytes "sop"

-- The trimming and the defaults of `SaveKnowledge`, behind the id.
unfoldable pub trim_item : KnowledgeItem → KnowledgeItem
trim_item item = record item {
  kind = first_non_empty (trim_space item.kind ∷ knowledge_kind_memory ∷ []);
  status = first_non_empty (trim_space item.status ∷ knowledge_status_pending ∷ []);
  scope = first_non_empty (trim_space item.scope ∷ bytes "global" ∷ []);
  title = trim_space item.title;
  body = trim_space item.body;
}

-- The approval of an item that is active.
unfoldable pub approve_item : ℕ → Option ℕ → KnowledgeItem → KnowledgeItem
approve_item at (some _) item = item
approve_item at none item =
    if item.status == knowledge_status_active
    then record item {
      approved_at = some at;
      approved_by = first_non_empty (item.approved_by ∷ bytes "api" ∷ []);
    }
    else item

-- The times of an item.
unfoldable pub stamp_item : ℕ → KnowledgeItem → KnowledgeItem
unfolding approve_item
stamp_item at item =
    let stamped = record item {
      created_at = if item.created_at == 0 then at else item.created_at;
      updated_at = at;
    } in
    approve_item at stamped.approved_at stamped

module _ (clock : ℕ → ℕ) (disk : Disk) where
  -- The id of an item, a new one where it has none.
  unfoldable pub identified : KnowledgeItem → M KnowledgeItem
  identified item =
      let id = trim_space item.id in
      if id == []
      then (do fresh ← fresh_id clock (bytes "knowledge"); return (record item { id = fresh }))
      else return (record item { id = id })

  -- `SaveKnowledge` of the service, behind the checks.
  unfoldable pub store_item : KnowledgeItem → M KnowledgeItem
  unfolding stamp_item
  store_item trimmed = do
    at ← now clock
    let item = stamp_item at trimmed
    _ ← save_knowledge disk item
    id ← fresh_id clock (bytes "audit")
    _ ← ignore (
        audit_entry disk (record {
          id = id;
          run_id = [];
          kind = bytes "knowledge_saved";
          summary = item.title;
          payload =
              (bytes "knowledge_id", text item.id)
              ∷ (bytes "kind", text item.kind)
              ∷ (bytes "status", text item.status)
              ∷ (bytes "scope", text item.scope)
              ∷ [];
          created_at = at;
        }))
    return item

  unfoldable pub check_item : KnowledgeItem → M KnowledgeItem
  unfolding store_item
  check_item trimmed =
      if trimmed.title == [] || trimmed.body == [] then fail text_required else store_item trimmed

  -- `SaveKnowledge` of the service.
  unfoldable pub save_knowledge_item : KnowledgeItem → M KnowledgeItem
  unfolding identified trim_item check_item
  save_knowledge_item given = do item ← identified given; check_item (trim_item item)

-- How many of the tokens a text has, but for those of one byte.
unfoldable pub count_tokens : Text → List Text → ℕ
count_tokens body [] = 0
count_tokens body (token ∷ tokens) =
    let rest = count_tokens body tokens in
    if ltb 1 (length token) && contains token body then suc rest else rest

-- `strings.Join(tags, " ")`.
unfoldable pub join_tags : List Text → Text
join_tags [] = []
join_tags (tag ∷ []) = tag
join_tags (tag ∷ next ∷ tags) = tag ++ (b' ' ∷ join_tags (next ∷ tags))

-- Whether an item can be selected.
unfoldable pub is_selectable : KnowledgeItem → Bool
is_selectable item = item.status == knowledge_status_active || item.kind == knowledge_kind_sop

-- The order of `sort.SliceStable`.
unfoldable pub ranks_before : ℕ × KnowledgeItem → ℕ × KnowledgeItem → Bool
ranks_before (s, i) (t, j) = if s == t then ltb j.updated_at i.updated_at else ltb t s

unfoldable pub insert_ranked :
    ℕ × KnowledgeItem → List (ℕ × KnowledgeItem) → List (ℕ × KnowledgeItem)
insert_ranked x [] = x ∷ []
insert_ranked x (y ∷ ys) =
    let later = insert_ranked x ys in if ranks_before y x then y ∷ later else x ∷ y ∷ ys

unfoldable pub sort_ranked : List (ℕ × KnowledgeItem) → List (ℕ × KnowledgeItem)
unfolding insert_ranked
sort_ranked [] = []
sort_ranked (x ∷ xs) = insert_ranked x (sort_ranked xs)

-- The loop that fills the result.
unfoldable pub first_items : ℕ → List (ℕ × KnowledgeItem) → List KnowledgeItem
first_items zero entries = []
first_items (suc n) [] = []
first_items (suc n) ((_, item) ∷ entries) = record item { embedding = [] } ∷ first_items n entries

abbrev count_of : ℤ → ℕ
count_of (pos n) = n
count_of (negsuc n) = 0

-- The limit, the default one where it is not positive.
unfoldable pub limit_of : ℤ → ℕ
limit_of limit =
    count_of (if is_positive limit then limit else default_runtime_settings.sop_retrieval_limit)

module _ (lower : Text → Text) (fields : Text → List Text) where
  -- The score of an item.
  unfoldable pub score_of : List Text → KnowledgeItem → ℕ
  unfolding count_tokens join_tags
  score_of tokens item =
      let found =
        count_tokens (lower (item.title ++ (b' ' ∷ item.body ++ (b' ' ∷ join_tags item.tags))))
          tokens in
      if item.kind == knowledge_kind_sop then suc found else found

  -- The loop over the items.
  unfoldable pub score_items : List Text → List KnowledgeItem → List (ℕ × KnowledgeItem)
  unfolding is_selectable score_of
  score_items tokens [] = []
  score_items tokens (item ∷ items) =
      let rest = score_items tokens items in
      if is_selectable item && ltb 0 (score_of tokens item)
      then (score_of tokens item, item) ∷ rest
      else rest

  -- `SelectKnowledge`, on what `ListKnowledge` returned.
  unfoldable pub select_items : Text → ℤ → List KnowledgeItem → List KnowledgeItem
  unfolding score_items sort_ranked first_items limit_of
  select_items input limit items =
      first_items (limit_of limit) (sort_ranked (score_items (fields (lower input)) items))

  -- `SelectKnowledge`.
  unfoldable pub select_knowledge : Disk → Text → ℤ → M (List KnowledgeItem)
  unfolding select_items
  select_knowledge disk input limit = do
    items ← (λ w. lift (list_objects disk (bytes "knowledge") w.knowledge) w)
    return (select_items input limit items)
