-- ===== src/Ids.antt =====
-- Tool-call ids, batches and results: the helpers of cursoragentv1/state.go,
-- cursoragentv1/segment.go and cursoragentv1/manager.go.
pub mod Batch
pub mod Results
pub mod Selection
pub mod Whole
pub mod Tests
use cursor_agent2api.Base.{
  ℕ, ◌+◌, ◌^◌, ◌*◌, Bool, true, false, not, ◌&&◌, ◌||◌, List, [], ◌∷◌, ◌++◌, map, Option, none,
  some, ltb, eqb, if◌then◌else◌, length, Text, text, ◌==◌, before, trim_space, has_prefix, member,
  sort, sort_by, reverse, spaces,
}
use cursor_agent2api.Types.{MediaPart, ToolResult}

abbrev pub max_pending_tools : ℕ
max_pending_tools = 256

-- 256 << 20
abbrev pub max_pending_tool_bytes : ℕ
max_pending_tool_bytes = 256 * 2 ^ 20

-- The errors of the state store and of the session manager. `failed` stands for any other, such as
-- an error of the file system.
pub data Error : Type 0 where
  retired_owner credential_mismatch state_lease_held state_pending pending_ambiguous : Error
  tool_result_conflict session_active session_pending session_not_pending not_exist : Error
  mixed_tool_follow_up caller_tools_disabled : Error
  failed : Text → Error

pub data Result {ℓ} (A : Type ℓ) : Type ℓ where
  ok : A → Result A
  err : Error → Result A

-- An early return on an error.
infixl 5 ◌>>=◌
abbrev pub ◌>>=◌ {ℓ ℓ'} : {A : Type ℓ} {B : Type ℓ'} → Result A → (A → Result B) → Result B
err e >>= next = err e
ok value >>= next = next value

-- `len(list) == 0`
abbrev pub is_empty {ℓ} : {A : Type ℓ} → List A → Bool
is_empty [] = true
is_empty (x ∷ xs) = false

-- The loop of `normalizeToolIDs`: trimmed ids, without empty ones and repetitions.
unfoldable pub collect_ids : List Text → List Text → List Text
unfolding trim_space member
collect_ids seen [] = []
collect_ids seen (i ∷ is) =
    let id = trim_space i in
    let skip = collect_ids seen is in
    let keep = id ∷ collect_ids (id ∷ seen) is in
    if (id == []) || member id seen then skip else keep

unfoldable pub normalize_tool_ids : List Text → List Text
unfolding collect_ids sort
normalize_tool_ids ids = sort (collect_ids [] ids)

-- Whether all the ids are in the set.
unfoldable pub all_in : List Text → List Text → Bool
unfolding member
all_in [] set = true
all_in (i ∷ is) set = member i set && all_in is set

unfoldable pub batch_subset_of : List Text → List Text → Bool
unfolding normalize_tool_ids all_in
batch_subset_of batch submitted =
    let b = normalize_tool_ids batch in
    if is_empty b then false else all_in b (normalize_tool_ids submitted)

pub record PendingTool : Type 0 where
  pub message_id : ℕ
  pub exec_id : Text
  pub tool_call_id : Text
  pub upstream_tool_call_id : Text
  pub name : Text
  pub arguments : Text

unfoldable pub pending_tool_ids : List PendingTool → List Text
unfolding sort trim_space
pending_tool_ids pending = sort (map (λ (t : PendingTool). trim_space t.tool_call_id) pending)

pub record CompletedToolResult : Type 0 where
  pub tool_call_id : Text
  pub content : Text
  pub is_error : Bool
  pub media : List MediaPart

unfoldable pub media_size : List MediaPart → ℕ
media_size [] = 0
media_size (m ∷ ms) = length m.content + media_size ms

-- The loop of `canonicalToolResults` over the results, with the ids seen and the size so far.
unfoldable pub canonical_loop : List Text → ℕ → List ToolResult → Result (List CompletedToolResult)
unfolding trim_space member media_size
canonical_loop seen total [] = ok []
canonical_loop seen total (r ∷ rs) =
    let id = trim_space r.tool_call_id in
    let size = total + (length id + length r.content) + media_size r.media in
    let item : CompletedToolResult = record {
      tool_call_id = id;
      content = r.content;
      is_error = r.is_error;
      media = r.media;
    } in
    let rest = canonical_loop (id ∷ seen) size rs >>= λ items. ok (item ∷ items) in
    if (id == []) || member id seen
    then err session_not_pending
    else if ltb max_pending_tool_bytes size
    then err (failed (text "completed tool data"))
    else rest

unfoldable pub canonical_tool_results : List ToolResult → Result (List CompletedToolResult)
unfolding canonical_loop sort_by
canonical_tool_results rs = do
  items ←
      if eqb (length rs) 0 || ltb max_pending_tools (length rs)
      then err session_not_pending
      else canonical_loop [] 0 rs
  ok (sort_by (λ (c : CompletedToolResult). c.tool_call_id) items)

abbrev pub result_ids : List CompletedToolResult → List Text
result_ids = map λ c. c.tool_call_id

unfoldable pub completed_batch_ids : List CompletedToolResult → List Text
unfolding normalize_tool_ids
completed_batch_ids rs = normalize_tool_ids (result_ids rs)

unfoldable pub remove : Text → List Text → List Text
remove a [] = []
remove a (x ∷ xs) = let rest = remove a xs in if a == x then rest else x ∷ rest

-- The loop of `completedResultsForBatch`: the results whose id is wanted, each id once, and the ids
-- for which no result was found.
unfoldable pub select : List Text → List CompletedToolResult → List CompletedToolResult × List Text
unfolding member remove
select wanted [] = ([], wanted)
select wanted (r ∷ rs) =
    let skip = select wanted rs in
    let found = select (remove r.tool_call_id wanted) rs in
    if member r.tool_call_id wanted then (r ∷ found.0, found.1) else skip

-- `none` where the source returns `nil, false`.
unfoldable pub completed_results_for_batch :
    List CompletedToolResult → List Text → Option (List CompletedToolResult)
unfolding select normalize_tool_ids sort_by
completed_results_for_batch rs batch =
    let wanted = normalize_tool_ids batch in
    let found = select wanted rs in
    if is_empty wanted
    then none
    else if not (is_empty found.1)
    then none
    else some (sort_by (λ (c : CompletedToolResult). c.tool_call_id) found.0)

abbrev pub to_tool_result : CompletedToolResult → ToolResult
to_tool_result c = record {
  tool_call_id = c.tool_call_id;
  content = c.content;
  is_error = c.is_error;
  media = c.media;
}

unfoldable pub tool_results_for_batch : List ToolResult → List Text → Option (List ToolResult)
unfolding canonical_tool_results completed_results_for_batch
tool_results_for_batch rs batch = elim (canonical_tool_results rs) [
  | err e ↦ none
  | ok canonical ↦ elim (completed_results_for_batch canonical batch) [
    | none ↦ none
    | some filtered ↦ some (map to_tool_result filtered)
  ]
]
