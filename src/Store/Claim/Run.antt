-- ===== src/Store/Claim/Run.antt =====
-- `Claim` of cursoragentv1/state.go as a whole, and `LookupHistory` of
-- cursoragentv1/completed_request.go, which it asks first.
use cursor_agent2api.Base.{
  ℕ, Bool, true, false, not, ◌&&◌, ◌||◌, List, [], ◌∷◌, ◌++◌, some, if◌then◌else◌, Text, text, ◌==◌,
  trim_space,
}
use cursor_agent2api.Types.{ToolDefinition}
use cursor_agent2api.Ids.{
  Result, ok, err, not_exist, state_pending, session_not_pending, credential_mismatch, failed,
  is_empty, normalize_tool_ids,
}
use cursor_agent2api.Store.{
  Store, Platform, StateSnapshot, OwnerLease, M, ◌>>=◌, ◌>>◌, done, fail, read_state, write_state,
  state_expired, acquire_lease, release_handle,
}
use cursor_agent2api.Store.Tombstone.{CompletedReplay, events_from_persisted}
use cursor_agent2api.Store.Index.{state_name, sync_pending_index, names_equal}
use cursor_agent2api.Store.Mutation.{clone_snapshot}
use cursor_agent2api.Store.Update.{remove_state}
use cursor_agent2api.Store.Prune.{read_tombstone, tombstone_expired, prune_expired}
use cursor_agent2api.Store.Claim.{
  ClaimOptions, Fresh, ClaimResult, granted, replayed, empty_snapshot, with_profile,
  catalog_mismatch, is_cold, reset_history, reset_cold, set_billing, set_catalog, take_over,
}
use cursor_agent2api.Store.Claim.Catalog.{validate_tool_catalog}

module _ (p : Platform) where
  open p use {sha256}

  -- `requestCompletedPaths`
  unfoldable pub history_name : Text → Text → Text
  history_name fingerprint key = sha256 (text "history-request" ++ (0 ∷ (fingerprint ++ (0 ∷ key))))

  unfoldable pub lookup_history : Text → Text → ℕ → Store → Result CompletedReplay
  unfolding history_name read_tombstone tombstone_expired events_from_persisted
  lookup_history fingerprint key now s = elim (read_tombstone (history_name fingerprint key) s) [
    | err not_exist ↦ err session_not_pending
    | err e ↦ err e
    | ok x ↦
        if not (x.request_key == key) || not (x.credential_fingerprint == fingerprint)
        then err (failed (text "history replay identity mismatch"))
        else if tombstone_expired x now s.ttl
        then err session_not_pending
        else elim (events_from_persisted x.events) [
          | err e ↦ err e
          | ok events ↦ ok (record {
            session_id = x.session_id;
            conversation_id = x.conversation_id;
            billing_run_id = x.billing_run_id;
            request_segment_id = x.request_segment_id;
            original_batch = [];
            events = events;
            has_pending = x.has_pending;
            follow_up_text = [];
          })
        ]
  ]

  module _ (session conversation fingerprint : Text) (o : ClaimOptions) (f : Fresh) where
    unfoldable pub new_state : M (Bool × StateSnapshot)
    new_state =
        if o.require_existing
        then fail not_exist
        else done (true, empty_snapshot session conversation)

    -- The snapshot to take over, and whether it is new; an expired one is removed first.
    unfoldable pub open_from : Result StateSnapshot → M (Bool × StateSnapshot)
    unfolding new_state state_name state_expired remove_state
    open_from (err not_exist) s = new_state s
    open_from (err e) s = (s, err e)
    open_from (ok x) s =
        if state_expired x f.now s.ttl
        then (remove_state p x (state_name p session) f.now >> new_state) s
        else (s, ok (false, x))

    unfoldable pub open_state : M (Bool × StateSnapshot)
    unfolding open_from read_state state_name
    open_state s = open_from (read_state p (state_name p session) s) s

    -- The checks before anything is written: the catalog to save.
    unfoldable pub admit : StateSnapshot → Result (List ToolDefinition)
    unfolding validate_tool_catalog catalog_mismatch is_cold trim_space
    admit x =
        if not o.allow_pending && not (is_empty x.pending_tools)
        then err state_pending
        else elim (validate_tool_catalog p o.tool_catalog) [
          | err e ↦ err e
          | ok catalog ↦
              if o.require_tool_catalog && catalog_mismatch x (trim_space o.tool_catalog_digest)
              then err session_not_pending
              else if is_cold x fingerprint && not o.allow_credential_change
              then err credential_mismatch
              else ok catalog
        ]

    -- What the claim makes of the snapshot.
    unfoldable pub prepare : List ToolDefinition → StateSnapshot → StateSnapshot
    unfolding reset_history reset_cold set_billing set_catalog take_over is_cold trim_space
    prepare catalog x = take_over session conversation fingerprint f (
        set_catalog o (trim_space o.tool_catalog_digest) catalog (
          set_billing o f.billing (
            reset_cold (is_cold x fingerprint) conversation
              (reset_history (not (o.history_request_key == [])) conversation x))))

    -- The index after a claim turned `x` into `y`.
    unfoldable pub sync_claim : StateSnapshot → StateSnapshot → M (Unit {0})
    unfolding sync_pending_index normalize_tool_ids
    sync_claim x y =
        (if not (is_empty x.pending_batch_ids)
            && (not (x.credential_fingerprint == y.credential_fingerprint)
                || not (
                    names_equal (normalize_tool_ids x.pending_batch_ids)
                      (normalize_tool_ids y.pending_batch_ids)))
          then sync_pending_index p x.credential_fingerprint y.session_id x.pending_batch_ids []
              f.now
          else done tt)
        >> (if not (is_empty y.pending_batch_ids)
            then sync_pending_index p y.credential_fingerprint y.session_id [] y.pending_batch_ids
                f.now
            else done tt)

    abbrev pub owner_of : StateSnapshot → ℕ → OwnerLease
    owner_of y h = record {
      request_segment_id = [];
      session_id = session;
      generation = y.owner_generation;
      token = y.owner_token;
      credential_hash = fingerprint;
      conversation_id = y.conversation_id;
      billing_run_id = y.billing_run_id;
      handle = some h;
    }

    -- From the write on: nothing is refused any more, but the index can fail.
    unfoldable pub save_claim : ℕ → StateSnapshot → List ToolDefinition → M ClaimResult
    unfolding prepare sync_claim write_state state_name is_cold clone_snapshot
    save_claim h x catalog s =
        let y = prepare catalog x in
        (sync_claim x y >> done (granted (owner_of y h) (clone_snapshot y) (is_cold x fingerprint)))
          (write_state (state_name p session) y s)

    unfoldable pub grant : ℕ → StateSnapshot → M ClaimResult
    unfolding admit save_claim
    grant h x s = elim (admit x) [ err e ↦ (s, err e) | ok catalog ↦ save_claim h x catalog s ]

    unfoldable pub claim_state : ℕ → M ClaimResult
    unfolding open_state with_profile grant
    claim_state h = do (created, x) ← open_state; grant h (with_profile created o.runtime_profile x)

    unfoldable pub claim_leased : ℕ → M ClaimResult
    unfolding lookup_history claim_state
    claim_leased h s =
        if o.history_request_key == []
        then claim_state h s
        else elim (lookup_history fingerprint o.history_request_key f.now s) [
          | ok replay ↦ (s, ok (replayed replay))
          | err session_not_pending ↦ claim_state h s
          | err e ↦ (s, err e)
        ]

    -- The lease stays with the owner; without an owner it is released.
    unfoldable pub claim_session : M ClaimResult
    unfolding claim_leased acquire_lease release_handle state_name
    claim_session s =
        let (held, lease) = acquire_lease (state_name p session) s in
        elim lease [
          | err e ↦ (held, err e)
          | ok h ↦
              let r = claim_leased h held in
              elim r.1 [
                | ok (granted owner x cold) ↦ (r.0, ok (granted owner x cold))
                | ok (replayed replay) ↦ (release_handle h r.0, ok (replayed replay))
                | err e ↦ (release_handle h r.0, err e)
              ]
        ]

  unfoldable pub claim : Text → Text → Text → ClaimOptions → Fresh → M ClaimResult
  unfolding prune_expired claim_session trim_space
  claim session conversation fingerprint o f =
      let id = trim_space session in
      let talk = trim_space conversation in
      let owner = trim_space fingerprint in
      prune_expired p false f.now
      >> (if (id == []) || ((talk == []) || (owner == []))
          then fail (failed (text "claim requires session, conversation and credential"))
          else claim_session id talk owner o f)
