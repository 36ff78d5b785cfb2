-- ===== src/Store/Update.antt =====
-- The operations of an owner on its snapshot: cursoragentv1/state.go, `withOwner`, `update` and the
-- functions that call them.
use cursor_agent2api.Base.{
  ℕ, ◌||◌, List, [], none, some, if◌then◌else◌, Text, text, ◌==◌, trim_space,
}
use cursor_agent2api.Types.{Event, Blobs}
use cursor_agent2api.Ids.{
  ok, err, retired_owner, not_exist, credential_mismatch, failed, PendingTool,
}
use cursor_agent2api.Store.{
  Platform, StateSnapshot, OwnerLease, M, ◌>>=◌, done, fail, read_state, write_state, owner_matches,
  handle_live, acquire_lease, release_handle,
}
use cursor_agent2api.Store.Mutation.{
  Mutation, set_checkpoint, next_batch, set_pending, set_follow_up, set_usage_carry,
}
use cursor_agent2api.Store.Directory.{delete}
use cursor_agent2api.Store.Index.{state_name, sync_pending_index}

-- `withOwner`: the lease of the owner is still its own.
unfoldable pub with_owner : {A : Type 0} → OwnerLease → M A → M A
unfolding handle_live
with_owner o f s = elim o.handle [
  | none ↦ (s, err retired_owner)
  | some h ↦ if handle_live h s.locks then f s else (s, err retired_owner)
]

-- A body under the lease of a name, which is released behind it.
unfoldable pub with_lease : {A : Type 0} → Text → M A → M A
unfolding acquire_lease release_handle
with_lease name f s =
    let (held, lease) = acquire_lease name s in
    elim lease [ err e ↦ (held, err e) | ok h ↦ let r = f held in (release_handle h r.0, r.1) ]

module _ (p : Platform) where
  -- The body of `update`.
  unfoldable pub update_state : OwnerLease → Mutation → ℕ → M StateSnapshot
  unfolding read_state write_state owner_matches state_name
  update_state o mutate now s = elim (read_state p (state_name p o.session_id) s) [
    | err not_exist ↦ (s, err retired_owner)
    | err e ↦ (s, err e)
    | ok x ↦
        if owner_matches x o
        then elim (mutate x) [
          | err e ↦ (s, err e)
          | ok y ↦ (write_state (state_name p o.session_id) (record y { updated_at = now }) s, ok x)
        ]
        else (s, err retired_owner)
  ]

  -- `update`, which hands on the snapshot as it was before.
  unfoldable pub update : OwnerLease → Mutation → ℕ → M StateSnapshot
  unfolding with_owner update_state trim_space
  update o mutate now s =
      if (trim_space o.session_id == []) || (trim_space o.token == [])
      then (s, err retired_owner)
      else with_owner o (update_state o mutate now) s

  unfoldable pub save_checkpoint : OwnerLease → List ℕ → Blobs → ℕ → M (Unit {0})
  unfolding update set_checkpoint
  save_checkpoint o checkpoint blobs now = do
    _ ← update o (set_checkpoint checkpoint blobs) now
    done tt

  unfoldable pub save_pending : OwnerLease → List PendingTool → ℕ → M (Unit {0})
  unfolding update set_pending sync_pending_index
  save_pending o pending now = do
    x ← update o (set_pending pending) now
    sync_pending_index p o.credential_hash o.session_id x.pending_batch_ids (next_batch x pending)
        now

  unfoldable pub save_follow_up : OwnerLease → Text → ℕ → M (Unit {0})
  unfolding update set_follow_up
  save_follow_up o follow_up now = do _ ← update o (set_follow_up follow_up) now; done tt

  unfoldable pub save_usage_carry : OwnerLease → List Event → ℕ → M (Unit {0})
  unfolding update set_usage_carry
  save_usage_carry o events now = do _ ← update o (set_usage_carry events) now; done tt

  unfoldable pub set_billing_run_id : OwnerLease → Text → ℕ → M (Unit {0})
  unfolding update trim_space
  set_billing_run_id o billing now =
      let id = trim_space billing in
      if id == []
      then fail (failed (text "billing segment id is required"))
      else do _ ← update o (λ x. ok (record x { billing_run_id = id })) now; done tt

  -- The removal of a state and of its place in the index.
  unfoldable pub remove_state : StateSnapshot → Text → ℕ → M (Unit {0})
  unfolding delete sync_pending_index
  remove_state x name now s =
      sync_pending_index p x.credential_fingerprint x.session_id x.pending_batch_ids [] now
        (record s { states = delete name s.states })

  -- The body of `Delete`.
  unfoldable pub delete_owned : OwnerLease → ℕ → M (Unit {0})
  unfolding read_state owner_matches remove_state state_name
  delete_owned o now s = elim (read_state p (state_name p o.session_id) s) [
    | err not_exist ↦ (s, ok tt)
    | err e ↦ (s, err e)
    | ok x ↦
        if owner_matches x o
        then remove_state x (state_name p o.session_id) now s
        else (s, err retired_owner)
  ]

  unfoldable pub delete_state : OwnerLease → ℕ → M (Unit {0})
  unfolding with_owner delete_owned
  delete_state o now = with_owner o (delete_owned o now)

  -- The body of `DeleteSession`, under the lease.
  unfoldable pub delete_if_owned_by : Text → Text → ℕ → M (Unit {0})
  unfolding read_state remove_state
  delete_if_owned_by name fingerprint now s = elim (read_state p name s) [
    | err not_exist ↦ (s, ok tt)
    | err e ↦ (s, err e)
    | ok x ↦
        if x.credential_fingerprint == fingerprint
        then remove_state x name now s
        else (s, err credential_mismatch)
  ]

  unfoldable pub delete_session : Text → Text → ℕ → M (Unit {0})
  unfolding with_lease delete_if_owned_by trim_space state_name
  delete_session session fingerprint now =
      let id = trim_space session in
      let owner = trim_space fingerprint in
      if (id == []) || (owner == [])
      then fail credential_mismatch
      else with_lease (state_name p id) (delete_if_owned_by (state_name p id) owner now)
