-- ===== src/Store/History.antt =====
-- A full-history request is run once: `SaveHistory` and `LookupHistory` of
-- cursoragentv1/completed_request.go, and `Claim` of cursoragentv1/state.go, which asks the latter.
use cursor_agent2api.Base.{ℕ, ◌≡◌, ◌+◌, ◌∷◌, [], Text, arith}
use cursor_agent2api.Ids.{ok}
use cursor_agent2api.Store.{
  Store, Platform, StateSnapshot, OwnerLease, M, write_state, read_state, migrate_record_version,
}
use cursor_agent2api.Store.Directory.{insert}
use cursor_agent2api.Store.Tombstone.{CompletedTombstone, CompletedReplay}
use cursor_agent2api.Store.Index.{state_name}
use cursor_agent2api.Store.Update.{with_owner}
use cursor_agent2api.Store.Claim.Run.{history_name}
use cursor_agent2api.Store.Owner.{IsOwner}
use cursor_agent2api.Store.Save.{update_with, update_state_with, complete_history}

-- The replay of a full-history request.
abbrev pub history_replay : CompletedTombstone → CompletedReplay
history_replay x = record {
  session_id = x.session_id;
  conversation_id = x.conversation_id;
  billing_run_id = x.billing_run_id;
  request_segment_id = x.request_segment_id;
  original_batch = [];
  events = x.events;
  has_pending = x.has_pending;
  follow_up_text = [];
}

module _ (p : Platform) where
  -- An owner's mutation, with the files that it writes.
  pub update_with-IsOwner :
      (o : OwnerLease) (mutate : StateSnapshot → M StateSnapshot) (now : ℕ) (s t : Store)
      (x y : StateSnapshot)
      → IsOwner p o x s
      → mutate x s ≡ (t, ok y)
      → update_with p o mutate now s
        ≡ (write_state (state_name p o.session_id) (record y { updated_at = now }) t, ok tt)
  unfolding update_with with_owner update_state_with read_state migrate_record_version
  update_with-IsOwner o mutate now s t x y owns accepted = ground (arith, owns, accepted)

  -- The store after the first snapshot of a request.
  abbrev with_history : OwnerLease → Text → CompletedTombstone → ℕ → StateSnapshot → Store → Store
  with_history o key y now x s =
      write_state (state_name p o.session_id)
        (record (complete_history y.updated_at x) { updated_at = now })
        (record s { completed = insert (history_name p o.credential_hash key) y s.completed })

  -- The store in which the lease of a claim is held.
  abbrev leased : Text → Store → Store
  leased session u = record u {
    locks = record { handle = u.next_handle; name = state_name p session } ∷ u.locks;
    next_handle = u.next_handle + 1;
  }
