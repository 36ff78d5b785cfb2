-- ===== src/Manager/Calls.antt =====
-- The tool calls that a live session waits for: the helpers of cursoragentv1/manager.go on its map of
-- pending tools and on submitted results.
pub mod Routes
pub mod Filter
use cursor_agent2api.Base.{
  ℕ, Bool, true, false, ◌||◌, List, [], ◌∷◌, ◌++◌, map, Option, none, some, if◌then◌else◌, Text,
  ◌==◌, trim_space, sort_by, member,
}
use cursor_agent2api.Types.{ToolResult}
use cursor_agent2api.Ids.{PendingTool, canonical_tool_results, completed_batch_ids, ok, err}
use cursor_agent2api.Store.Directory.{Files, lookup, insert, delete}

-- `map[string]PendingTool`, in the order in which a range statement visits it.
abbrev pub Pending : Type 0
Pending = Files PendingTool

-- The id by which the upstream knows a call.
abbrev pub upstream_of : Text × PendingTool → Text
upstream_of (public_id, tool) =
    let candidate = trim_space tool.upstream_tool_call_id in
    if candidate == [] then public_id else candidate

-- The loop of `findPublicToolCallID`.
unfoldable pub find_upstream : Text → Pending → Option Text
find_upstream upstream [] = none
find_upstream upstream (entry ∷ pending) =
    if upstream_of entry == upstream then some entry.0 else find_upstream upstream pending

unfoldable pub find_public_tool_call_id : Pending → Text → Option Text
unfolding find_upstream trim_space
find_public_tool_call_id pending upstream = find_upstream (trim_space upstream) pending

unfoldable pub public_tool_call_id_for_upstream : Pending → Text → Text
unfolding find_public_tool_call_id trim_space
public_tool_call_id_for_upstream pending upstream =
    elim (find_public_tool_call_id pending upstream) [
      | some public_id ↦ public_id
      | none ↦ trim_space upstream
    ]

unfoldable pub upstream_tool_result : Pending → ToolResult → ToolResult
unfolding lookup trim_space
upstream_tool_result pending result = elim (lookup result.tool_call_id pending) [
  | none ↦ result
  | some tool ↦
      if trim_space tool.upstream_tool_call_id == []
      then result
      else record result { tool_call_id = tool.upstream_tool_call_id }
]

-- The first loop of `filterPendingMapResults`: the results by their id; `none` for a repeated id.
unfoldable pub index_results : Files ToolResult → List ToolResult → Option (Files ToolResult)
unfolding lookup insert
index_results seen [] = some seen
index_results seen (r ∷ rs) =
    let rest = index_results (insert r.tool_call_id r seen) rs in
    elim (lookup r.tool_call_id seen) [ some _ ↦ none | none ↦ rest ]

-- The second loop: the result of each pending call; `none` where one is missing.
unfoldable pub take_results : Files ToolResult → Pending → Option (List ToolResult)
unfolding lookup
take_results seen [] = some []
take_results seen ((id, tool) ∷ pending) =
    let rest = take_results seen pending in
    elim (lookup id seen) [
      | none ↦ none
      | some result ↦ elim rest [ none ↦ none | some results ↦ some (result ∷ results) ]
    ]

abbrev pub result_id : ToolResult → Text
result_id r = r.tool_call_id

-- `none` where the source returns `nil, false`.
unfoldable pub filter_pending_map_results : Pending → List ToolResult → Option (List ToolResult)
unfolding index_results take_results sort_by
filter_pending_map_results pending results = elim (index_results [] results) [
  | none ↦ none
  | some seen ↦ elim (take_results seen pending) [
    | none ↦ none
    | some filtered ↦ some (sort_by result_id filtered)
  ]
]

-- The map of a list of pending tools, where a later tool replaces an earlier one with its id.
unfoldable pub pending_map : Pending → List PendingTool → Pending
unfolding insert
pending_map pending [] = pending
pending_map pending (t ∷ ts) = pending_map (insert t.tool_call_id t pending) ts

unfoldable pub filter_pending_results :
    List PendingTool → List ToolResult → Option (List ToolResult)
unfolding filter_pending_map_results pending_map
filter_pending_results pending results = filter_pending_map_results (pending_map [] pending) results

unfoldable pub pending_values : Pending → List PendingTool
unfolding sort_by
pending_values pending = sort_by (λ (t : PendingTool). t.tool_call_id) (map (λ e. e.1) pending)

unfoldable pub completed_batch_ids_from_results : List ToolResult → List Text
unfolding canonical_tool_results completed_batch_ids
completed_batch_ids_from_results results = elim (canonical_tool_results results) [
  | err e ↦ []
  | ok canonical ↦ completed_batch_ids canonical
]
