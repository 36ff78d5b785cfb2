-- ===== src/Manager/Resumption.antt =====
-- What `ResumeTools` of cursoragentv1/manager.go works out of a request before it acts.
use cursor_agent2api.Base.{
  Bool, true, false, ◌||◌, List, [], ◌∷◌, map, none, some, if◌then◌else◌, Text, ◌==◌, trim_space,
}
use cursor_agent2api.Types.{ToolResult}
use cursor_agent2api.Ids.{
  Result, ok, err, session_not_pending, is_empty, canonical_tool_results, completed_batch_ids,
  completed_results_for_batch, CompletedToolResult,
}
use cursor_agent2api.Snapshot.{Encoder}
use cursor_agent2api.Store.{Platform, StateSnapshot, OwnerLease}
use cursor_agent2api.Store.Directory.{lookup}
use cursor_agent2api.Store.Resolve.{original_pending_batch}
use cursor_agent2api.Store.Claim.{normalize_runtime_profile}
use cursor_agent2api.Manager.World.{RunRequest, World, put_session}
use cursor_agent2api.Manager.Replays.{ManagedRequest}
use cursor_agent2api.Manager.Start.{fingerprint_of}

-- What `ResumeTools` works out of a request and its results.
pub record Resumption : Type 0 where
  pub request : ManagedRequest
  pub fingerprint : Text
  pub results : List ToolResult
  pub submitted_ids : List Text
  pub original_batch : List Text
  pub accepted : List CompletedToolResult
  pub follow_up : Text

abbrev pub trim_id : ToolResult → ToolResult
trim_id r = record r { tool_call_id = trim_space r.tool_call_id }

unfoldable pub any_empty_id : List ToolResult → Bool
any_empty_id [] = false
any_empty_id (r ∷ rs) = (r.tool_call_id == []) || any_empty_id rs

-- The request with what a claim says, and with the saved catalog, if there is one.
unfoldable pub with_claim : ManagedRequest → StateSnapshot → OwnerLease → ManagedRequest
unfolding normalize_runtime_profile
with_claim r x o =
    let run = record r.run {
      conversation_id = o.conversation_id;
      runtime_profile = normalize_runtime_profile x.runtime_profile;
    } in
    if is_empty x.tool_catalog
    then record r { run = run }
    else record r { run = record run { tools = [] }; tool_catalog_digest = [] }

-- The run of a saved checkpoint.
abbrev pub resume_run : RunRequest → StateSnapshot → RunRequest
resume_run run x = record run {
  user_text = [];
  resume = true;
  initial_checkpoint = x.checkpoint;
  initial_blobs = x.blobs;
}

-- The follow-up stays with the session, for `Park`.
unfoldable pub keep_follow_up : Text → Text → World → World
unfolding lookup
keep_follow_up session_id follow_up w =
    if follow_up == [] then w else elim (lookup session_id w.active) [
      | none ↦ w
      | some i ↦ put_session i (record (w.sessions i) { pending_follow_up = follow_up }) w
    ]

module _ (p : Platform) (encoder : Encoder) where
  -- The start of `ResumeTools`: the results are accepted, and brought to the batch they answer.
  unfoldable pub resumption : ManagedRequest → List ToolResult → World → Result Resumption
  unfolding any_empty_id canonical_tool_results completed_batch_ids original_pending_batch
      completed_results_for_batch trim_space
  resumption r submitted w =
      let results = map trim_id submitted in
      if is_empty results || any_empty_id results
      then err session_not_pending
      else elim (canonical_tool_results results) [
        | err e ↦ err e
        | ok canonical ↦ elim ((fingerprint_of p encoder r w).1) [
          | err e ↦ err e
          | ok fingerprint ↦
              let ids = completed_batch_ids canonical in
              elim (original_pending_batch p fingerprint ids w.store) [
                | err e ↦ err e
                | ok batch ↦
                    let whole = completed_results_for_batch canonical batch in
                    ok (record {
                      request = r;
                      fingerprint = fingerprint;
                      results = results;
                      submitted_ids = ids;
                      original_batch = elim whole [ none ↦ ids | some _ ↦ batch ];
                      accepted = elim whole [ none ↦ canonical | some filtered ↦ filtered ];
                      follow_up = trim_space r.follow_up_text;
                    })
              ]
        ]
      ]
