-- ===== src/Manager/Ends/Frame.antt =====
-- What the end of a run leaves alone: the operations that cursoragentv1/manager.go calls there.
use cursor_agent2api.Base.{
  ℕ, ◌≡◌, refl, ap, ◌∙◌, Bool, true, false, List, [], Option, none, some, Text, arith, not, reverse,
}
use cursor_agent2api.Types.{Event, ToolResult}
use cursor_agent2api.Ids.{Error, Result, ok, err, normalize_tool_ids, is_empty}
use cursor_agent2api.Snapshot.{Encoder}
use cursor_agent2api.Store.{
  Store, Platform, StateSnapshot, OwnerLease, release, release_handle, read_state,
}
use cursor_agent2api.Store.Index.{mutate_pending_index, sync_pending_index, state_name}
use cursor_agent2api.Store.Update.{remove_state, delete_owned, delete_state, with_owner}
use cursor_agent2api.Store.Directory.{delete}
use cursor_agent2api.Store.Tombstone.{CompletedReplay}
use cursor_agent2api.Manager.World.{Session, World, Moment, put_store, put_session}
use cursor_agent2api.Manager.Flights.{finish_flight, end_resume_flight, session_replay, unbind}
use cursor_agent2api.Manager.Ends.{
  delete_finished, leave_active, conclude_output, run_results, settle,
}

-- Two stores with the same completed snapshots and lifetime.
abbrev pub SameCompleted : Store → Store → Type 0
SameCompleted s t =
    (t.completed ≡ s.completed) × (t.completed_pointers ≡ s.completed_pointers) × (t.ttl ≡ s.ttl)

release-same : (o : OwnerLease) (s : Store) → SameCompleted s (release o s)
unfolding release release_handle
release-same o s = ground arith

module _ (p : Platform) where
  mutate-same :
      (fingerprint : Text) (batch : List Text) (session : Text) (add : Bool) (now : ℕ) (s : Store)
      → SameCompleted s (mutate_pending_index p fingerprint batch session add now s).0
  unfolding mutate_pending_index
  mutate-same fingerprint batch session add now s = ground arith

  sync-same :
      (fingerprint session : Text) (previous next : List Text) (now : ℕ) (s : Store)
      → SameCompleted s (sync_pending_index p fingerprint session previous next now s).0
  unfolding sync_pending_index
  sync-same fingerprint session previous next now s =
      let old = normalize_tool_ids previous in
      let new = normalize_tool_ids next in
      ground (
        arith,
        mutate-same fingerprint old session false now s,
        mutate-same fingerprint new session true now s,
        mutate-same fingerprint new session true now
            (mutate_pending_index p fingerprint old session false now s).0,
      )

  remove-same :
      (x : StateSnapshot) (name : Text) (now : ℕ) (s : Store)
      → SameCompleted s (remove_state p x name now s).0
  unfolding remove_state
  remove-same x name now s =
      sync-same x.credential_fingerprint x.session_id x.pending_batch_ids [] now
        (record s { states = delete name s.states })

  deleted-same :
      (o : OwnerLease) (now : ℕ) (s : Store) (r : Result StateSnapshot)
      → read_state p (state_name p o.session_id) s ≡ r
      → SameCompleted s (delete_owned p o now s).0
  unfolding delete_owned
  deleted-same o now s (err e) h = ground (arith, h)
  deleted-same o now s (ok x) h = ground (arith, h, remove-same x (state_name p o.session_id) now s)

  delete_state-same :
      (o : OwnerLease) (now : ℕ) (s : Store) → SameCompleted s (delete_state p o now s).0
  unfolding delete_state with_owner
  delete_state-same o now s =
      ground (arith, deleted-same o now s (read_state p (state_name p o.session_id) s) refl)

end_flight-same :
    (fingerprint : Text) (batch : List Text) (a : ℕ) (replay : Option CompletedReplay)
    (e : Option Error) (w : World)
    → let t = end_resume_flight fingerprint batch a replay e w in
      (t.outputs ≡ w.outputs) × (t.store ≡ w.store)
unfolding end_resume_flight
end_flight-same fingerprint batch a replay e w = ground arith

finish_flight-same :
    (i : ℕ) (e : Option Error) (results : List ToolResult) (events : List Event) (more : Bool)
    (follow_up : Text) (w : World)
    → let t = finish_flight i e results events more follow_up w in
      (t.outputs ≡ w.outputs) × (t.store ≡ w.store)
unfolding finish_flight
finish_flight-same i e results events more follow_up w = by_flight (w.sessions i).flight refl
  where
    by_flight :
        (f : Option ℕ)
        → (w.sessions i).flight ≡ f
        → let t = finish_flight i e results events more follow_up w in
          (t.outputs ≡ w.outputs) × (t.store ≡ w.store)
    by_flight none h = ground (arith, h)
    by_flight (some a) h = ground (
      arith,
      h,
      end_flight-same (w.sessions i).flight_fingerprint (w.sessions i).flight_batch a
          (session_replay (w.sessions i) e results events more follow_up) e
          (put_session i (unbind (w.sessions i)) w),
    )

leave_active-same :
    (i : ℕ) (session_id : Text) (w : World)
    → ((leave_active i session_id w).outputs ≡ w.outputs)
      × ((leave_active i session_id w).store ≡ w.store)
unfolding leave_active
leave_active-same i session_id w = ground arith

conclude-same :
    (s : Session) (e : Option Error) (w t : World)
    → t.outputs ≡ w.outputs
    → ((conclude_output s e t).outputs ≡ (conclude_output s e w).outputs)
      × ((conclude_output s e t).store ≡ t.store)
unfolding conclude_output
conclude-same s e w t h = ground (arith, h)

module _ (p : Platform) (encoder : Encoder) where
  -- The end of a run changes no completed snapshot after it saved its own.
  pub delete_finished-same :
      (s : Session) (e : Option Error) (m : Moment) (w : World)
      → ((delete_finished p encoder s e m w).outputs ≡ w.outputs)
        × SameCompleted w.store (delete_finished p encoder s e m w).store
  unfolding delete_finished
  delete_finished-same s (some e) m w = (refl, (refl, refl, refl))
  delete_finished-same s none m w = ground (arith, delete_state-same p s.owner m.now w.store)

  -- The end of a run does to the client's output what its conclusion says, and keeps the completed
  -- snapshots.
  pub settle-same :
      (i : ℕ) (s : Session) (e : Option Error) (m : Moment) (w : World)
      → ((settle p encoder i s e m w).outputs ≡ (conclude_output s e w).outputs)
        × SameCompleted w.store (settle p encoder i s e m w).store
  unfolding settle
  settle-same i s e m w =
      let landed =
        finish_flight i e (run_results s) (reverse s.segment_snapshot.events)
          (not (is_empty s.pending)) s.snapshot_follow_up w in
      let (same, kept) =
        finish_flight-same i e (run_results s) (reverse s.segment_snapshot.events)
          (not (is_empty s.pending)) s.snapshot_follow_up w in
      let deleted = delete_finished p encoder s e m landed in
      let (outputs, completed) = delete_finished-same s e m landed in
      let freed = put_store (release s.owner deleted.store) deleted in
      let (left, idle) = leave_active-same i s.owner.session_id freed in
      let (concluded, store) =
        conclude-same s e w (leave_active i s.owner.session_id freed) (left ∙ outputs ∙ same) in
      let freed_same = release-same s.owner deleted.store in
      let all = store ∙ idle in
      (
        concluded,
        (
          ap (λ t. t.completed) all ∙ freed_same.0 ∙ completed.0 ∙ ap (λ t. t.completed) kept,
          ap (λ t. t.completed_pointers) all
              ∙ freed_same.1
              ∙ completed.1
              ∙ ap (λ t. t.completed_pointers) kept,
          ap (λ t. t.ttl) all ∙ freed_same.2 ∙ completed.2 ∙ ap (λ t. t.ttl) kept,
        ),
      )
