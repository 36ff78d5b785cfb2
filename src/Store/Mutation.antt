-- ===== src/Store/Mutation.antt =====
-- What the operations of cursoragentv1/state.go do to a snapshot, and what they check first.
use Prim.Native.Nat.{◌*◌}
use cursor_agent2api.Base.{
  ℕ, ◌+◌, ◌^◌, Bool, true, false, not, ◌&&◌, ◌||◌, List, [], ◌∷◌, ltb, if◌then◌else◌, Text, text,
  ◌==◌, trim_space, has_prefix, member, length,
}
use cursor_agent2api.Connect.{max_connect_payload_size}
use cursor_agent2api.Types.{Event, Blobs, EventType}
use cursor_agent2api.Types.{
  usage, usage_observation, hosted_search_call, hosted_search_started, hosted_search_completed,
  thinking_completed, clone_event,
}
use cursor_agent2api.Ids.{
  Result, ok, err, failed, PendingTool, max_pending_tools, max_pending_tool_bytes, pending_tool_ids,
  is_empty,
}
use cursor_agent2api.Store.{StateSnapshot}

-- `validatePendingTools` from the tools seen so far: their ids, upstream ids and bytes.
unfoldable pub validate_pending : List Text → List Text → ℕ → List PendingTool → Result (Unit {0})
unfolding trim_space member has_prefix
validate_pending seen upstreams total [] = ok tt
validate_pending seen upstreams total (t ∷ ts) =
    let id = trim_space t.tool_call_id in
    let upstream = trim_space t.upstream_tool_call_id in
    let size =
      total
      + (length t.exec_id + length id + length upstream + length t.name + length t.arguments) in
    let rest =
      validate_pending (id ∷ seen) (if upstream == [] then upstreams else upstream ∷ upstreams) size
        ts in
    if id == []
    then err (failed (text "pending tool id is required"))
    else if member id seen
    then err (failed (text "pending tool id is duplicated"))
    else if has_prefix (text "toolu_bf_agentv1_") id && (upstream == [])
    then err (failed (text "routed pending tool is missing its upstream id"))
    else if not (upstream == []) && member upstream upstreams
    then err (failed (text "upstream pending tool id is duplicated"))
    else if ltb max_pending_tool_bytes size
    then err (failed (text "pending tool data exceeds the limit"))
    else rest

unfoldable pub validate_pending_tools : List PendingTool → Result (Unit {0})
unfolding validate_pending
validate_pending_tools ts =
    if ltb max_pending_tools (length ts)
    then err (failed (text "pending tools exceed the limit"))
    else validate_pending [] [] 0 ts

-- 16 << 20 and 32 << 20
abbrev pub max_blob_size : ℕ
max_blob_size = 16 * 2 ^ 20

abbrev pub max_blob_store_size : ℕ
max_blob_store_size = 32 * 2 ^ 20

-- `validateBlobStore`, from the bytes so far.
unfoldable pub validate_blobs : ℕ → Blobs → Result ℕ
validate_blobs total [] = ok total
validate_blobs total ((k, v) ∷ bs) =
    let rest = validate_blobs (total + length v) bs in
    if ltb max_blob_size (length v)
    then err (failed (text "KV blob exceeds the limit"))
    else if ltb max_blob_store_size (total + length v)
    then err (failed (text "KV blob store exceeds the limit"))
    else rest

-- The events that are evidence of usage (`usageEvidenceEvents` of cursoragentv1/segment.go).
abbrev pub is_evidence : EventType → Bool
is_evidence usage = true
is_evidence usage_observation = true
is_evidence hosted_search_call = true
is_evidence hosted_search_started = true
is_evidence hosted_search_completed = true
is_evidence thinking_completed = true
is_evidence _ = false

unfoldable pub usage_evidence_events : List Event → List Event
unfolding clone_event
usage_evidence_events [] = []
usage_evidence_events (e ∷ es) =
    let rest = usage_evidence_events es in if is_evidence e.type then clone_event e ∷ rest else rest

-- What an operation does to the snapshot.
abbrev pub Mutation : Type 0
Mutation = StateSnapshot → Result StateSnapshot

unfoldable pub set_checkpoint : List ℕ → Blobs → Mutation
unfolding validate_blobs
set_checkpoint checkpoint blobs x =
    if ltb max_connect_payload_size (length checkpoint)
    then err (failed (text "checkpoint exceeds the limit"))
    else elim (validate_blobs 0 blobs) [
      | err e ↦ err e
      | ok _ ↦ ok (record x { checkpoint = checkpoint; blobs = blobs })
    ]

-- The batch of a session that has these tools pending now.
unfoldable pub next_batch : StateSnapshot → List PendingTool → List Text
unfolding pending_tool_ids
next_batch x pending =
    if is_empty pending
    then []
    else if is_empty x.pending_batch_ids || ltb (length x.pending_tools) (length pending)
    then pending_tool_ids pending
    else x.pending_batch_ids

unfoldable pub set_pending : List PendingTool → Mutation
unfolding validate_pending_tools next_batch
set_pending pending x = elim (validate_pending_tools pending) [
  | err e ↦ err e
  | ok _ ↦ ok (record x { pending_tools = pending; pending_batch_ids = next_batch x pending })
]

unfoldable pub set_follow_up : Text → Mutation
unfolding trim_space
set_follow_up text x = ok (record x { follow_up_text = trim_space text })

unfoldable pub set_usage_carry : List Event → Mutation
unfolding usage_evidence_events
set_usage_carry events x = ok (record x { usage_carry = usage_evidence_events events })

-- `cloneSnapshot`, which keeps only the evidence of the usage carried over.
unfoldable pub clone_snapshot : StateSnapshot → StateSnapshot
unfolding usage_evidence_events
clone_snapshot x = record x { usage_carry = usage_evidence_events x.usage_carry }
