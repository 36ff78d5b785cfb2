-- ===== src/Manager/Replays.antt =====
-- Replays of finished turns, and the helpers of cursoragentv1/manager.go on requests:
-- `emitCompletedReplay`, `lookupRequestReplay`, `lookupFollowUpReplay`, `applyCallerToolCatalog`; the
-- identifiers of cursoragentv1/segment.go, and `historySessionID` of
-- cursoragentv1/manager_history.go.
use cursor_agent2api.Base.{
  ℕ, ◌+◌, Bool, true, not, ◌&&◌, ◌||◌, List, [], ◌∷◌, ◌++◌, Option, none, some, if◌then◌else◌, Text,
  text, ◌==◌, trim_space,
}
use cursor_agent2api.Types.{Event, ToolResult, ToolDefinition}
use cursor_agent2api.Ids.{
  Error, Result, ok, err, failed, session_not_pending, is_empty, normalize_tool_ids,
  CompletedToolResult,
}
use cursor_agent2api.Snapshot.{Encoder}
use cursor_agent2api.Store.{Platform}
use cursor_agent2api.Store.Claim.{is_metered_turn}
use cursor_agent2api.Store.Index.{join_nul}
use cursor_agent2api.Store.Tombstone.{CompletedReplay}
use cursor_agent2api.Store.Completed.{tool_result_digest}
use cursor_agent2api.Store.Covering.{lookup_completed}
use cursor_agent2api.Manager.Output.{new_snapshot_output}
use cursor_agent2api.Manager.World.{RunRequest, World, Moment, W, at, on_store}
use cursor_agent2api.Manager.Turns.{ManagedOutput, public_output}

pub record ManagedRequest : Type 0 where
  pub turn_metering : Bool
  pub request_segment_id : Text
  pub session_id : Text
  pub billing_run_id : Text
  pub credential_scope : Text
  pub account_key : Text
  pub tool_catalog_digest : Text
  pub follow_up_text : Text
  pub active_results : List ToolResult
  pub carry_usage : List Event
  pub require_existing : Bool
  pub reuse_billing_run : Bool
  pub cancelled : Bool  -- whether its context was cancelled before the call
  pub run : RunRequest
  pub disable_caller_tools : Bool

-- `meteringVersionError`
abbrev pub metering_version_error : Error
metering_version_error = failed (text "continuation requires an updated gateway")

-- A continuation of a metered turn by a gateway that does not meter turns.
unfoldable pub unmetered : Text → Bool → Bool
unfolding is_metered_turn
unmetered billing metering = is_metered_turn billing && not metering

unfoldable pub metered_turn_id : Text → Text → Text
unfolding is_metered_turn trim_space
metered_turn_id billing fresh =
    let id = trim_space billing in
    if is_metered_turn id then id else text "turn2:" ++ (if id == [] then fresh else id)

unfoldable pub billing_id_for_request : ManagedRequest → Moment → Text
unfolding metered_turn_id
billing_id_for_request r m =
    if r.turn_metering then metered_turn_id r.billing_run_id m.turn_id else r.billing_run_id

-- `applyCallerToolCatalog`: the tools that the run gets; the saved catalog where the request says
-- nothing.
unfoldable pub apply_caller_tool_catalog :
    ManagedRequest → List ToolDefinition → Bool → Result ManagedRequest
unfolding trim_space
apply_caller_tool_catalog r catalog require =
    let with_tools =
      λ (tools : List ToolDefinition). record r { run = record r.run { tools = tools } } in
    if r.disable_caller_tools
    then ok (with_tools [])
    else if not (is_empty r.run.tools) || not (trim_space r.tool_catalog_digest == [])
    then ok r
    else if is_empty catalog && require
    then err session_not_pending
    else ok (with_tools catalog)

-- `emitCompletedReplay`
unfoldable pub emit_completed_replay : Encoder → CompletedReplay → World → World × ManagedOutput
unfolding new_snapshot_output public_output trim_space
emit_completed_replay encoder replay w = (
  record w {
    outputs = at w.next (new_snapshot_output encoder replay.events) w.outputs;
    next = w.next + 1;
  },
  record (public_output w.next replay.session_id replay.billing_run_id) {
    request_segment_id = replay.request_segment_id;
    replay = true;
    conversation_id = replay.conversation_id;
    original_batch = replay.original_batch;
    has_pending = replay.has_pending;
    follow_up_applied = not (trim_space replay.follow_up_text == []);
  },
)

module _ (p : Platform) where
  open p use {sha256}

  unfoldable pub generation_segment_id : Text → List Text → List CompletedToolResult → Text → Text
  unfolding normalize_tool_ids join_nul tool_result_digest trim_space
  generation_segment_id fingerprint batch accepted follow_up = sha256 (
      trim_space fingerprint
      ++ (0
          ∷ (join_nul (normalize_tool_ids batch)
              ++ (0 ∷ (tool_result_digest p accepted ++ (0 ∷ trim_space follow_up))))))

  unfoldable pub history_session_id : Text → Text → Text
  history_session_id fingerprint key = text "history_" ++ sha256 (fingerprint ++ (0 ∷ key))

  -- `lookupRequestReplay`: the replay with the follow-up, or else the one without it, on which the
  -- follow-up is still to be run.
  unfoldable pub lookup_request_replay : Text → List ToolResult → Text → ℕ → W CompletedReplay
  unfolding lookup_completed trim_space
  lookup_request_replay fingerprint results follow_up now w =
      let (first, found) = on_store (lookup_completed p fingerprint results follow_up now) w in
      elim found [
        | ok replay ↦ (first, ok replay)
        | err session_not_pending ↦
            if trim_space follow_up == []
            then (first, err session_not_pending)
            else let (second, original) =
                on_store (lookup_completed p fingerprint results [] now) first in
              elim original [
                | ok replay ↦ (second, ok (record replay { follow_up_text = [] }))
                | err _ ↦ (second, err session_not_pending)
              ]
        | err e ↦ (first, err e)
      ]

  -- `lookupFollowUpReplay`: `none` where there is no replay of this follow-up.
  unfoldable pub lookup_follow_up_replay :
      Encoder → Text → List ToolResult → Text → ℕ → W (Option ManagedOutput)
  unfolding lookup_completed emit_completed_replay trim_space
  lookup_follow_up_replay encoder fingerprint covering follow_up now w =
      if is_empty covering
      then (w, ok none)
      else let (looked, found) =
          on_store (lookup_completed p fingerprint covering follow_up now) w in
        elim found [
          | err session_not_pending ↦ (looked, ok none)
          | err e ↦ (looked, err e)
          | ok replay ↦
              if not (trim_space replay.follow_up_text == trim_space follow_up)
                || (replay.follow_up_text == [])
              then (looked, ok none)
              else let (shown, output) = emit_completed_replay encoder replay looked in
                (shown, ok (some output))
        ]
