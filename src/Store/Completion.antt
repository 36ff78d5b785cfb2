-- ===== src/Store/Completion.antt =====
-- A finished run can be replayed: `SaveCompleted` and `LookupCompleted` of
-- cursoragentv1/completed_state.go.
use cursor_agent2api.Base.{
  ℕ, ◌≡◌, ◌≢◌, refl, sym, ap, subst, ◌∙◌, Bool, true, false, not, ◌&&◌, List, [], if◌then◌else◌,
  Text, ◌==◌, arith, trim_space, trim_space_idem, map,
}
use cursor_agent2api.Types.{Event, ToolResult}
use cursor_agent2api.Ids.{
  ok, err, not_exist, CompletedToolResult, normalize_tool_ids, canonical_tool_results,
  completed_batch_ids, is_empty,
}
use cursor_agent2api.Ids.Batch.{normalize_idem}
use cursor_agent2api.Snapshot.{Encoder, persist_events}
use cursor_agent2api.Store.{Store, Platform, StateSnapshot, OwnerLease, state_version, write_state}
use cursor_agent2api.Store.Tombstone.{CompletedTombstone, events_from_persisted}
use cursor_agent2api.Store.Index.{state_name}
use cursor_agent2api.Store.Prune.{read_tombstone, tombstone_expired, prune_completed}
use cursor_agent2api.Store.Completed.{
  tool_result_digest, completed_name, name_of, new_tombstone, put_tombstone,
}
use cursor_agent2api.Store.Replay.{wrote-new, read-put}
use cursor_agent2api.Store.Covering.{replay_of, lookup_completed}
use cursor_agent2api.Store.Lookup.{lookup-found}
use cursor_agent2api.Store.Owner.{IsOwner}
use cursor_agent2api.Store.Save.{complete_from, complete_state, save_completed}
use cursor_agent2api.Store.History.{update_with-IsOwner}

read-write_state :
    (name file : Text) (x : StateSnapshot) (s : Store)
    → read_tombstone name (write_state file x s) ≡ read_tombstone name s
unfolding read_tombstone write_state
read-write_state name file x s = refl

ttl-written :
    (p : Platform) (name file : Text) (x : StateSnapshot) (y : CompletedTombstone) (now : ℕ)
    (s : Store)
    → (write_state file x (put_tombstone p name y now s)).ttl ≡ s.ttl
unfolding write_state put_tombstone
ttl-written p name file x y now s = refl

completed_name-trim :
    (p : Platform) (fingerprint : Text) (batch : List Text) (follow_up : Text)
    → completed_name p fingerprint batch (trim_space follow_up)
      ≡ completed_name p fingerprint batch follow_up
unfolding completed_name
completed_name-trim p fingerprint batch follow_up = ground (arith, trim_space_idem follow_up)

batch-fixed :
    (canonical : List CompletedToolResult)
    → normalize_tool_ids (completed_batch_ids canonical) ≡ completed_batch_ids canonical
unfolding completed_batch_ids
batch-fixed canonical = normalize_idem (map (λ c. c.tool_call_id) canonical)

module _ (p : Platform) (o : OwnerLease) where
  -- The snapshot that a run leaves, from the state of its session.
  abbrev pub completion :
      List CompletedToolResult → List Event → Bool → Text → ℕ → StateSnapshot → CompletedTombstone
  completion canonical persisted ephemeral follow_up now x = record {
    request_key = [];
    request_segment_id = o.request_segment_id;
    version = state_version;
    credential_fingerprint = o.credential_hash;
    batch_ids = completed_batch_ids canonical;
    result_digest = tool_result_digest p canonical;
    results = canonical;
    events = persisted;
    billing_run_id = if o.billing_run_id == [] then x.billing_run_id else o.billing_run_id;
    session_id = o.session_id;
    conversation_id = x.conversation_id;
    has_pending = not (is_empty x.pending_tools);
    follow_up_text = trim_space follow_up;
    ephemeral = ephemeral;
    updated_at = now;
  }

  -- The state of the session behind it.
  abbrev behind : Bool → Text → ℕ → StateSnapshot → StateSnapshot
  behind ephemeral follow_up now x =
      let followed : StateSnapshot =
        if follow_up == [] then x else record x { follow_up_text = follow_up } in
      if ephemeral && not (not (is_empty x.pending_tools))
      then record followed { ephemeral_complete = true; completed_at = now }
      else followed

  module _ (encoder : Encoder) (results : List ToolResult) (events persisted : List Event)
      (canonical : List CompletedToolResult) (ephemeral : Bool) (follow_up : Text) (now : ℕ)
      (s : Store) (x : StateSnapshot) where
    abbrev prepared : CompletedTombstone
    prepared = record (completion canonical persisted ephemeral follow_up now x) {
      billing_run_id = o.billing_run_id;
      conversation_id = o.conversation_id;
      has_pending = false;
    }

    abbrev saved : CompletedTombstone
    saved = completion canonical persisted ephemeral follow_up now x

    new_tombstone-ok :
        canonical_tool_results results ≡ ok canonical
        → persist_events encoder events ≡ ok persisted
        → new_tombstone p encoder o results events ephemeral follow_up now ≡ ok prepared
    unfolding new_tombstone
    new_tombstone-ok accepted kept = ground (arith, accepted, kept)

    complete_from-prepared : complete_from o x prepared ≡ saved
    unfolding complete_from
    complete_from-prepared = refl

    complete_state-new :
        read_tombstone (name_of p saved) s ≡ err not_exist
        → complete_state p o prepared ephemeral follow_up now x s
          ≡ (put_tombstone p (name_of p saved) saved now s, ok (behind ephemeral follow_up now x))
    unfolding complete_state complete_from
    complete_state-new absent = ground (arith, wrote-new p saved now s absent)

    abbrev written : Store
    written =
        write_state (state_name p o.session_id)
          (record (behind ephemeral follow_up now x) { updated_at = now })
          (put_tombstone p (name_of p saved) saved now s)

    save_completed-new :
        IsOwner p o x s
        → canonical_tool_results results ≡ ok canonical
        → persist_events encoder events ≡ ok persisted
        → read_tombstone (name_of p saved) s ≡ err not_exist
        → save_completed p encoder o results events ephemeral follow_up now s ≡ (written, ok tt)
    unfolding save_completed
    save_completed-new owns accepted kept absent = ground (
      arith,
      new_tombstone-ok accepted kept,
      update_with-IsOwner p o (complete_state p o prepared ephemeral follow_up now) now s
          (put_tombstone p (name_of p saved) saved now s) x (behind ephemeral follow_up now x) owns
          (complete_state-new absent),
    )

    read-written :
        read_tombstone
          (completed_name p o.credential_hash (completed_batch_ids canonical) follow_up)
          written
        ≡ ok saved
    read-written =
        ap (λ name. read_tombstone name written)
          (sym (completed_name-trim p o.credential_hash (completed_batch_ids canonical) follow_up))
        ∙ read-write_state (name_of p saved) (state_name p o.session_id)
            (record (behind ephemeral follow_up now x) { updated_at = now })
            (put_tombstone p (name_of p saved) saved now s)
        ∙ read-put p (name_of p saved) saved now s
        ∙ ap (λ ids. ok (record saved { batch_ids = ids })) (batch-fixed canonical)

    -- What an owner with a trimmed credential that is not empty saves with `SaveCompleted` of a run
    -- under a new key, its results acceptable and its events all with a type, `LookupCompleted` gives
    -- back to the same results, in whatever order and spelling they are submitted, with the same
    -- follow-up: the events, the receipt and the conversation of the run, and whether it handed tool
    -- calls on; until the snapshot expires, if the removal of expired files before it succeeds.
    pub lookup-save_completed :
        (later : ℕ) (submitted : List ToolResult)
        → IsOwner p o x s
        → canonical_tool_results results ≡ ok canonical
        → canonical_tool_results submitted ≡ ok canonical
        → persist_events encoder events ≡ ok persisted
        → events_from_persisted persisted ≡ ok persisted
        → read_tombstone (name_of p saved) s ≡ err not_exist
        → trim_space o.credential_hash ≡ o.credential_hash
        → o.credential_hash ≢ []
        → tombstone_expired saved later s.ttl ≡ false
        → (prune_completed p false later
            (save_completed p encoder o results events ephemeral follow_up now s).0).1
          ≡ ok tt
        → let r = save_completed p encoder o results events ephemeral follow_up now s in
          (r.1 ≡ ok tt)
          × ((lookup_completed p o.credential_hash submitted follow_up later r.0).1
              ≡ ok (replay_of saved))
    lookup-save_completed later submitted owns accepted again kept typed absent trimmed filled alive
          pruned =
        let wrote = save_completed-new owns accepted kept absent in
        (
          ap (λ r. r.1) wrote,
          ap (λ r. (lookup_completed p o.credential_hash submitted follow_up later r.0).1) wrote
              ∙ lookup-found p o.credential_hash follow_up submitted canonical later written saved
                  again trimmed filled
                  (ap (λ r. (prune_completed p false later r.0).1) (sym wrote) ∙ pruned)
                  read-written (refl, refl, trim_space_idem follow_up)
                  (subst (λ (n : ℕ). tombstone_expired saved later n ≡ false)
                    (sym (
                      ttl-written p (name_of p saved) (state_name p o.session_id)
                        (record (behind ephemeral follow_up now x) { updated_at = now }) saved now
                        s))
                    alive)
                  refl typed,
        )
