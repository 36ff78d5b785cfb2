-- ===== src/Manager/Turns.antt =====
-- The turns of a live session: `startClaimed`, `resume` and `Park` of cursoragentv1/manager.go.
pub mod Handed
use cursor_agent2api.Base.{
  ℕ, ◌+◌, Bool, true, false, not, ◌&&◌, ◌||◌, List, [], ◌∷◌, ◌++◌, map, none, some, ltb,
  if◌then◌else◌, length, Text, text, ◌==◌, trim_space,
}
use cursor_agent2api.Types.{Event, ToolResult}
use cursor_agent2api.Ids.{
  Error, ok, err, failed, session_active, session_not_pending, is_empty, PendingTool,
  pending_tool_ids, max_pending_tools,
}
use cursor_agent2api.Snapshot.{Encoder, no_events}
use cursor_agent2api.Store.{Platform, OwnerLease, release}
use cursor_agent2api.Store.Mutation.{usage_evidence_events}
use cursor_agent2api.Store.Update.{set_billing_run_id}
use cursor_agent2api.Store.Claim.{is_metered_turn}
use cursor_agent2api.Store.Directory.{lookup, insert}
use cursor_agent2api.Manager.Calls.{
  pending_map, pending_values, filter_pending_map_results, upstream_tool_result,
}
use cursor_agent2api.Manager.Output.{new_managed_output, close}
use cursor_agent2api.Manager.World.{
  RunRequest, Session, Moment, W, ◌>>◌, give, at, put_session, put_output, put_store, on_store,
}
use cursor_agent2api.Manager.Events.{emit_all}

-- `ManagedOutput`; its channels are those of the output at the address.
pub record ManagedOutput : Type 0 where
  pub request_segment_id : Text
  pub output : ℕ
  pub session_id : Text
  pub billing_run_id : Text
  pub conversation_id : Text
  pub original_batch : List Text
  pub replay : Bool
  pub has_pending : Bool
  pub follow_up_applied : Bool

-- `(*managedOutput).public`
unfoldable pub public_output : ℕ → Text → Text → ManagedOutput
public_output address session_id billing_run_id = record {
  request_segment_id = [];
  output = address;
  session_id = session_id;
  billing_run_id = billing_run_id;
  conversation_id = [];
  original_batch = [];
  replay = false;
  has_pending = false;
  follow_up_applied = false;
}

abbrev pub or_else {ℓ} : {A : Type ℓ} → List A → List A → List A
or_else xs ys = if is_empty xs then ys else xs

unfoldable pub completed_follow_up : RunRequest → Text
unfolding trim_space
completed_follow_up r = if r.resume then [] else trim_space r.follow_up_text

-- The session that `startClaimed` makes, with its output at an address.
unfoldable pub new_session :
    RunRequest
    → OwnerLease
    → List PendingTool
    → List ToolResult
    → List ToolResult
    → List Text
    → List Event
    → Bool
    → ℕ
    → Session
unfolding pending_map upstream_tool_result usage_evidence_events completed_follow_up trim_space
new_session r o restored initial covering batch carry disable address =
    let pending = pending_map [] restored in
    record {
      owner = o;
      request = r;
      cancelled = false;
      tool_results = map (upstream_tool_result pending) initial;
      output = some address;
      pending = pending;
      state_err = none;
      closed = false;
      capturing =
          not (r.history_request_key == []) || (not (is_empty covering) || not (is_empty carry));
      pending_batch = batch;
      segment_batch = batch;
      segment_results = covering;
      segment_snapshot = no_events;
      snapshot_follow_up = completed_follow_up r;
      terminal_event = none;
      flight = none;
      flight_fingerprint = [];
      flight_batch = [];
      pending_follow_up = trim_space r.follow_up_text;
      billing_carry = usage_evidence_events carry;
      disable_caller_tools = disable;
    }

-- `delete(m.starting, id)`
unfoldable pub drop_name : Text → List Text → List Text
drop_name id [] = []
drop_name id (x ∷ xs) = let rest = drop_name id xs in if x == id then rest else x ∷ rest

-- `startClaimed` up to the start of its goroutine, which emits the usage carried over (`emit_all`)
-- and then runs.
unfoldable pub start_claimed :
    RunRequest
    → OwnerLease
    → List PendingTool
    → List ToolResult
    → List ToolResult
    → List Text
    → List Event
    → Bool
    → W ManagedOutput
unfolding lookup insert release new_session drop_name public_output new_managed_output
    pending_tool_ids
start_claimed r o restored initial covering original_batch carry disable w =
    let batch = or_else original_batch (pending_tool_ids restored) in
    elim (lookup o.session_id w.active) [
      | some _ ↦ (put_store (release o w.store) w, err session_active)
      | none ↦ (
        record w {
          active = insert o.session_id (w.next + 1) w.active;
          starting = drop_name o.session_id w.starting;
          sessions =
              at (w.next + 1) (new_session r o restored initial covering batch carry disable w.next)
                w.sessions;
          outputs = at w.next new_managed_output w.outputs;
          next = w.next + 2;
        },
        ok (record (public_output w.next o.session_id o.billing_run_id) {
          request_segment_id = o.request_segment_id;
          conversation_id = o.conversation_id;
          original_batch = batch;
        }),
      )
    ]

abbrev pub queue_full : Error
queue_full = failed (text "tool result queue is full")

-- A session that takes no results now: it is closed, or a client still listens.
abbrev pub is_busy : Session → Bool
is_busy s = s.closed || (elim s.output [ none ↦ false | some _ ↦ true ])

-- The session of a resumed turn, with its output at an address.
unfoldable pub resumed :
    Text → Text → Bool → List Text → List ToolResult → List ToolResult → ℕ → Session → Session
unfolding pending_values pending_tool_ids trim_space
resumed segment_id request_segment_id disable original_batch segment_results results address s =
    record s {
      owner = record s.owner {
        request_segment_id = request_segment_id;
        billing_run_id =
            (if trim_space segment_id == [] then s.owner.billing_run_id else segment_id);
      };
      disable_caller_tools = disable;
      output = some address;
      capturing = true;
      snapshot_follow_up = [];
      segment_snapshot = no_events;
      segment_batch =
          or_else original_batch
            (or_else s.pending_batch (pending_tool_ids (pending_values s.pending)));
      segment_results = or_else segment_results results;
    }

-- The loop of `resume` that queues the results for the runner: the queue, which holds
-- `maxPendingTools`, and whether all of them found room.
unfoldable pub queue_results : List ToolResult → List ToolResult → List ToolResult × Bool
queue_results queue [] = (queue, true)
queue_results queue (r ∷ rs) =
    let rest = queue_results (queue ++ r ∷ []) rs in
    if ltb (length queue) max_pending_tools then rest else (queue, false)

module _ (p : Platform) (encoder : Encoder) where
  -- The end of `resume`: the usage carried over, then the results, in the queue of the runner.
  unfoldable pub hand_over : ℕ → ℕ → List Event → List ToolResult → W (Unit {0})
  unfolding emit_all queue_results close
  hand_over i address carry results w =
      let emitted = emit_all encoder i carry w in
      let s = emitted.sessions i in
      let (queue, complete) = queue_results s.tool_results results in
      let queued = record s { tool_results = queue } in
      if complete then (put_session i queued emitted, ok tt) else (
        put_output address (close (some queue_full) (emitted.outputs address))
            (put_session i (record queued { output = none }) emitted),
        err queue_full,
      )

  unfoldable pub update_billing : OwnerLease → Text → Moment → W (Unit {0})
  unfolding set_billing_run_id trim_space
  update_billing o segment_id m =
      if not (trim_space segment_id == []) && not (segment_id == o.billing_run_id)
      then on_store (set_billing_run_id p o segment_id m.now)
      else give tt

  -- The part of `resume` under the second lock, and what follows it.
  unfoldable pub resume_with :
      ℕ
      → List ToolResult
      → List ToolResult
      → List Text
      → List ToolResult
      → Text
      → Text
      → Bool
      → W ManagedOutput
  unfolding resumed hand_over new_managed_output public_output upstream_tool_result
      usage_evidence_events
  resume_with i filtered results original_batch segment_results segment_id request_segment_id
        disable w =
      let s =
        resumed segment_id request_segment_id disable original_batch segment_results results w.next
          (w.sessions i) in
      if is_busy (w.sessions i)
      then (w, err session_active)
      else (do
        hand_over i w.next (usage_evidence_events s.billing_carry)
            (map (upstream_tool_result s.pending) filtered)
        give (record (public_output w.next s.owner.session_id s.owner.billing_run_id) {
          request_segment_id = request_segment_id;
          original_batch = s.segment_batch;
        }))
          (record w {
            sessions = at i s w.sessions;
            outputs = at w.next new_managed_output w.outputs;
            next = w.next + 1;
          })

  -- `(*managedSession).resume`
  unfoldable pub resume_session :
      ℕ → List ToolResult → List Text → List ToolResult → Text → Bool → Moment → W ManagedOutput
  unfolding filter_pending_map_results update_billing resume_with is_metered_turn
  resume_session i results original_batch segment_results segment_id disable m w =
      let s = w.sessions i in
      let billing =
        if is_metered_turn s.owner.billing_run_id then s.owner.billing_run_id else segment_id in
      if is_busy s
      then (w, err session_active)
      else elim (filter_pending_map_results s.pending results) [
        | none ↦ (w, err session_not_pending)
        | some filtered ↦
            (update_billing s.owner billing m
                >> resume_with i filtered results original_batch segment_results billing segment_id
                    disable)
              w
      ]
