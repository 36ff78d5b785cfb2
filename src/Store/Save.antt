-- ===== src/Store/Save.antt =====
-- What an owner saves of a finished run: `SaveCompleted` of cursoragentv1/completed_state.go and
-- `SaveHistory` of cursoragentv1/completed_request.go; and `CredentialFingerprint` of
-- cursoragentv1/state.go.
use cursor_agent2api.Base.{
  ℕ, Bool, true, false, not, ◌&&◌, ◌||◌, List, [], ◌∷◌, ◌++◌, if◌then◌else◌, Text, text, ◌==◌,
  trim_space,
}
use cursor_agent2api.Types.{
  ToolResult, Event, EventType, text_event, tool_call, hosted_search_completed,
}
use cursor_agent2api.Ids.{Result, ok, err, retired_owner, not_exist, failed, is_empty}
use cursor_agent2api.Snapshot.{Encoder, persist_events, is_none}
use cursor_agent2api.Store.{
  Store, Platform, StateSnapshot, OwnerLease, M, ◌>>=◌, ◌>>◌, done, read_state, write_state,
  owner_matches, state_version,
}
use cursor_agent2api.Store.Directory.{insert}
use cursor_agent2api.Store.Index.{state_name}
use cursor_agent2api.Store.Update.{with_owner}
use cursor_agent2api.Store.Tombstone.{CompletedTombstone}
use cursor_agent2api.Store.Prune.{read_tombstone, tombstone_expired}
use cursor_agent2api.Store.Claim.Run.{history_name}
use cursor_agent2api.Store.Completed.{new_tombstone, write_completed_tombstone}

-- `visibleHistoryOutput` of cursoragentv1/full_history.go: what a client can see of an event.
unfoldable pub visible_as : EventType → Event → Bool
unfolding trim_space
visible_as text_event e = not (trim_space e.text == [])
visible_as tool_call e = not (is_none e.tool_call)
visible_as hosted_search_completed e = not (is_none e.hosted_search)
visible_as _ e = false

unfoldable pub visible_history_output : List Event → Bool
unfolding visible_as
visible_history_output [] = false
visible_history_output (e ∷ es) = visible_as e.type e || visible_history_output es

abbrev pub is_tool_call : EventType → Bool
is_tool_call tool_call = true
is_tool_call _ = false

unfoldable pub hands_off : List Event → Bool
hands_off [] = false
hands_off (e ∷ es) = is_tool_call e.type || hands_off es

-- The completed snapshot with what the state of the session says at the time of the update.
unfoldable pub complete_from : OwnerLease → StateSnapshot → CompletedTombstone → CompletedTombstone
complete_from o current x = record x {
  conversation_id = current.conversation_id;
  billing_run_id = if o.billing_run_id == [] then current.billing_run_id else o.billing_run_id;
  has_pending = not (is_empty current.pending_tools);
}

unfoldable pub history_tombstone :
    OwnerLease → Text → List Event → List Event → ℕ → CompletedTombstone
unfolding hands_off
history_tombstone o key events persisted now = record {
  request_key = key;
  request_segment_id = o.request_segment_id;
  version = state_version;
  credential_fingerprint = o.credential_hash;
  batch_ids = [];
  result_digest = [];
  results = [];
  events = persisted;
  billing_run_id = o.billing_run_id;
  session_id = o.session_id;
  conversation_id = o.conversation_id;
  has_pending = hands_off events;
  follow_up_text = [];
  ephemeral = true;
  updated_at = now;
}

-- The state of a full-history request that has completed.
unfoldable pub complete_history : ℕ → StateSnapshot → StateSnapshot
complete_history at x = record x {
  checkpoint = [];
  blobs = [];
  pending_tools = [];
  pending_batch_ids = [];
  ephemeral_complete = true;
  completed_at = at;
}

module _ (p : Platform) where
  open p use {sha256}

  unfoldable pub credential_fingerprint : Text → Text → Result Text
  unfolding trim_space
  credential_fingerprint scope account =
      let s = trim_space scope in
      let a = trim_space account in
      if (s == []) || (a == [])
      then err (failed (text "credential scope and stable account key are required"))
      else ok (text "sha256:" ++ sha256 (text "scope:" ++ (s ++ (0 ∷ (text "account:" ++ a)))))

  -- The body of `update` with a mutation that writes files of its own.
  unfoldable pub update_state_with :
      OwnerLease → (StateSnapshot → M StateSnapshot) → ℕ → M (Unit {0})
  unfolding read_state write_state owner_matches state_name
  update_state_with o mutate now s = elim (read_state p (state_name p o.session_id) s) [
    | err not_exist ↦ (s, err retired_owner)
    | err e ↦ (s, err e)
    | ok x ↦
        if owner_matches x o
        then (mutate x >>= λ y t.
              (write_state (state_name p o.session_id) (record y { updated_at = now }) t, ok tt))
            s
        else (s, err retired_owner)
  ]

  unfoldable pub update_with : OwnerLease → (StateSnapshot → M StateSnapshot) → ℕ → M (Unit {0})
  unfolding with_owner update_state_with trim_space
  update_with o mutate now s =
      if (trim_space o.session_id == []) || (trim_space o.token == [])
      then (s, err retired_owner)
      else with_owner o (update_state_with o mutate now) s

  -- The mutation of `SaveCompleted`.
  unfoldable pub complete_state :
      OwnerLease → CompletedTombstone → Bool → Text → ℕ → StateSnapshot → M StateSnapshot
  unfolding complete_from write_completed_tombstone
  complete_state o completed ephemeral follow_up now current =
      let x = complete_from o current completed in
      let followed =
        if follow_up == [] then current else record current { follow_up_text = follow_up } in
      write_completed_tombstone p x now
      >> done (
          if ephemeral && not x.has_pending
          then record followed { ephemeral_complete = true; completed_at = x.updated_at }
          else followed)

  unfoldable pub save_completed :
      Encoder → OwnerLease → List ToolResult → List Event → Bool → Text → ℕ → M (Unit {0})
  unfolding new_tombstone update_with complete_state
  save_completed encoder o results events ephemeral follow_up now s =
      elim (new_tombstone p encoder o results events ephemeral follow_up now) [
        | err e ↦ (s, err e)
        | ok completed ↦ update_with o (complete_state o completed ephemeral follow_up now) now s
      ]

  -- The mutation of `SaveHistory`: a snapshot that is there and alive is kept.
  unfoldable pub save_history_state :
      OwnerLease → Text → CompletedTombstone → ℕ → StateSnapshot → M StateSnapshot
  unfolding history_name read_tombstone tombstone_expired complete_history insert
  save_history_state o key x now current s =
      let name = history_name p o.credential_hash key in
      let written : Store × Result StateSnapshot = (
        record s { completed = insert name x s.completed },
        ok (complete_history x.updated_at current),
      ) in
      elim (read_tombstone name s) [
        | err not_exist ↦ written
        | err e ↦ (s, err e)
        | ok previous ↦
            if tombstone_expired previous now s.ttl
            then written
            else if not (previous.request_key == key)
                || not (previous.credential_fingerprint == o.credential_hash)
            then (s, err (failed (text "history replay identity mismatch")))
            else (s, ok current)
      ]

  unfoldable pub save_history : Encoder → OwnerLease → Text → List Event → ℕ → M (Unit {0})
  unfolding visible_history_output persist_events history_tombstone update_with save_history_state
  save_history encoder o key events now s =
      if not (visible_history_output events)
      then (s, err (failed (text "completed without visible output or a tool handoff")))
      else elim (persist_events encoder events) [
        | err e ↦ (s, err e)
        | ok persisted ↦
            update_with o
              (save_history_state o key (history_tombstone o key events persisted now) now) now s
      ]
