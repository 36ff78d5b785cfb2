-- ===== src/Manager/Calls/Routes.antt =====
-- Public ids of tool calls and those of the upstream: `upstreamToolResult` and
-- `publicToolCallIDForUpstream` of cursoragentv1/manager.go.
use cursor_agent2api.Base.{
  ◌≡◌, ap, ◌∙◌, true, List, [], ◌∷◌, some, Text, arith, map, trim_space, member, Distinct,
}
use cursor_agent2api.Types.{ToolResult}
use cursor_agent2api.Ids.{PendingTool}
use cursor_agent2api.Store.Directory.{lookup}
use cursor_agent2api.Manager.Calls.{
  Pending, upstream_of, find_upstream, find_public_tool_call_id, public_tool_call_id_for_upstream,
  upstream_tool_result,
}

-- The ids by which the upstream knows the calls.
abbrev pub upstream_ids : Pending → List Text
upstream_ids = map upstream_of

member-upstream :
    (id : Text) (tool : PendingTool) (pending : Pending)
    → lookup id pending ≡ some tool
    → member (upstream_of (id, tool)) (upstream_ids pending) ≡ true
unfolding lookup member
member-upstream id tool [] h = cc
member-upstream id tool (e ∷ pending) h = ground (arith, member-upstream id tool pending)

-- The upstream id of a call leads to the call, if the upstream ids are all different.
find_upstream-found :
    (id : Text) (tool : PendingTool) (pending : Pending)
    → lookup id pending ≡ some tool
    → Distinct (upstream_ids pending)
    → find_upstream (upstream_of (id, tool)) pending ≡ some id
unfolding lookup find_upstream
find_upstream-found id tool [] h d = cc
find_upstream-found id tool (e ∷ pending) h d =
    ground (arith, find_upstream-found id tool pending, member-upstream id tool pending)

sent :
    (pending : Pending) (r : ToolResult) (tool : PendingTool)
    → lookup r.tool_call_id pending ≡ some tool
    → trim_space r.tool_call_id ≡ r.tool_call_id
    → trim_space (upstream_tool_result pending r).tool_call_id ≡ upstream_of (r.tool_call_id, tool)
unfolding upstream_tool_result
sent pending r tool h trimmed = ground (arith, h, trimmed)

returned :
    (pending : Pending) (id public_id : Text)
    → find_upstream (trim_space id) pending ≡ some public_id
    → public_tool_call_id_for_upstream pending id ≡ public_id
unfolding public_tool_call_id_for_upstream find_public_tool_call_id
returned pending id public_id h = ground (arith, h)

-- A result goes to the upstream under the id that the upstream gave the call, and the upstream's
-- acceptance of that id leads back to the call: where the upstream ids of the pending calls are all
-- different, and the public id has no space around it.
pub upstream_round_trip :
    (pending : Pending) (r : ToolResult) (tool : PendingTool)
    → lookup r.tool_call_id pending ≡ some tool
    → Distinct (upstream_ids pending)
    → trim_space r.tool_call_id ≡ r.tool_call_id
    → public_tool_call_id_for_upstream pending (upstream_tool_result pending r).tool_call_id
      ≡ r.tool_call_id
upstream_round_trip pending r tool found distinct trimmed =
    returned pending (upstream_tool_result pending r).tool_call_id r.tool_call_id (
      ap (λ id. find_upstream id pending) (sent pending r tool found trimmed)
      ∙ find_upstream-found r.tool_call_id tool pending found distinct)
