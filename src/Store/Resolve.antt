-- ===== src/Store/Resolve.antt =====
-- From tool calls to the session that waits for their results: cursoragentv1/state.go,
-- `ResolvePending`, `OriginalPendingBatch` and what they call.
use cursor_agent2api.Base.{
  ℕ, Bool, false, not, ◌&&◌, ◌||◌, List, [], ◌∷◌, if◌then◌else◌, Text, ◌==◌, trim_space, member,
}
use cursor_agent2api.Ids.{
  Result, ok, err, not_exist, session_not_pending, pending_ambiguous, is_empty, normalize_tool_ids,
  pending_tool_ids, batch_subset_of,
}
use cursor_agent2api.Store.{
  Store, Platform, ToolBatchPointer, StateSnapshot, M, ◌>>◌, done, fail, lift, read_state,
}
use cursor_agent2api.Store.Index.{
  state_name, pointer_name, names_equal, read_index, read_pointer, mutate_pending_index,
}
use cursor_agent2api.Store.Prune.{prune_expired}

-- The batch that a session waits for, if it waits.
abbrev pub state_batch : StateSnapshot → List Text
state_batch x =
    if is_empty x.pending_batch_ids then pending_tool_ids x.pending_tools else x.pending_batch_ids

unfoldable pub waits_for : Text → List Text → StateSnapshot → Bool
unfolding normalize_tool_ids pending_tool_ids
waits_for fingerprint batch x =
    (x.credential_fingerprint == fingerprint)
    && (not (is_empty x.pending_tools) && names_equal (normalize_tool_ids (state_batch x)) batch)

-- What `ResolvePending` makes of the sessions that match.
unfoldable pub the_only : List Text → Result Text
the_only [] = err session_not_pending
the_only (x ∷ []) = ok x
the_only (x ∷ y ∷ ys) = err pending_ambiguous

module _ (p : Platform) where
  -- The first loop of `resolvePendingExact`: the sessions that wait for the batch.
  unfoldable pub waiting : Text → List Text → List Text → Store → Result (List Text)
  unfolding read_state state_name waits_for
  waiting fingerprint batch [] s = ok []
  waiting fingerprint batch (id ∷ ids) s =
      let rest = waiting fingerprint batch ids s in
      elim (read_state p (state_name p id) s) [
        | err not_exist ↦ rest
        | err e ↦ err e
        | ok x ↦
            if waits_for fingerprint batch x
            then elim rest [ ok more ↦ ok (x.session_id ∷ more) | err e ↦ err e ]
            else rest
      ]

  -- The second loop: the index forgets the other sessions.
  unfoldable pub forget_stale : Text → List Text → List Text → ℕ → List Text → M (Unit {0})
  unfolding mutate_pending_index member
  forget_stale fingerprint batch valid now [] = done tt
  forget_stale fingerprint batch valid now (id ∷ ids) =
      (if member id valid then done tt else mutate_pending_index p fingerprint batch id false now)
      >> forget_stale fingerprint batch valid now ids

  unfoldable pub resolve_pending_exact : Text → List Text → ℕ → M Text
  unfolding waiting forget_stale the_only read_index
  resolve_pending_exact fingerprint batch now s = elim (read_index p fingerprint batch s) [
    | err not_exist ↦ (s, err session_not_pending)
    | err e ↦ (s, err e)
    | ok x ↦
        if not (x.credential_fingerprint == fingerprint)
          || (not (names_equal x.batch_ids batch) || is_empty x.session_ids)
        then (s, err session_not_pending)
        else elim (waiting fingerprint batch x.session_ids s) [
          | err e ↦ (s, err e)
          | ok valid ↦
              (forget_stale fingerprint batch valid now x.session_ids >> lift (the_only valid)) s
        ]
  ]

  -- The candidate of `pendingCoveringBatch` after the pointer of one call.
  unfoldable pub covering_step :
      Text → List Text → List Text → Result ToolBatchPointer → Result (List Text)
  unfolding batch_subset_of
  covering_step fingerprint submitted candidate (err not_exist) = ok candidate
  covering_step fingerprint submitted candidate (err e) = err e
  covering_step fingerprint submitted candidate (ok x) =
      if not (x.credential_fingerprint == fingerprint)
        || not (batch_subset_of x.batch_ids submitted)
      then ok candidate
      else if is_empty candidate
      then ok x.batch_ids
      else if names_equal candidate x.batch_ids
      then ok candidate
      else err pending_ambiguous

  -- The loop of `pendingCoveringBatch`, from a candidate.
  unfoldable pub covering_loop :
      Text → List Text → List Text → List Text → Store → Result (List Text)
  unfolding read_pointer pointer_name covering_step
  covering_loop fingerprint submitted candidate [] s = ok candidate
  covering_loop fingerprint submitted candidate (id ∷ ids) s =
      elim (covering_step fingerprint submitted candidate
        (read_pointer (pointer_name p fingerprint id) s.pointers)) [
          | err e ↦ err e
          | ok c ↦ covering_loop fingerprint submitted c ids s
        ]

  unfoldable pub pending_covering_batch : Text → List Text → Store → Result (List Text)
  unfolding covering_loop normalize_tool_ids
  pending_covering_batch fingerprint submitted s =
      covering_loop fingerprint submitted [] (normalize_tool_ids submitted) s

  -- The part of `ResolvePending` after the pruning.
  unfoldable pub resolve_batch : Text → List Text → ℕ → M Text
  unfolding resolve_pending_exact pending_covering_batch
  resolve_batch fingerprint batch now s =
      let (t, exact) = resolve_pending_exact fingerprint batch now s in
      elim exact [
        | ok session ↦ (t, ok session)
        | err session_not_pending ↦ elim (pending_covering_batch fingerprint batch t) [
          | err e ↦ (t, err e)
          | ok covering ↦
              if is_empty covering || names_equal covering batch
              then (t, err session_not_pending)
              else resolve_pending_exact fingerprint covering now t
        ]
        | err e ↦ (t, err e)
      ]

  unfoldable pub resolve_pending : Text → List Text → ℕ → M Text
  unfolding resolve_batch prune_expired normalize_tool_ids trim_space
  resolve_pending fingerprint ids now =
      let owner = trim_space fingerprint in
      let batch = normalize_tool_ids ids in
      if (owner == []) || is_empty batch
      then fail session_not_pending
      else prune_expired p false now >> resolve_batch owner batch now

  unfoldable pub original_pending_batch : Text → List Text → Store → Result (List Text)
  unfolding pending_covering_batch normalize_tool_ids
  original_pending_batch fingerprint ids s =
      let submitted = normalize_tool_ids ids in
      if is_empty submitted
      then err session_not_pending
      else elim (pending_covering_batch fingerprint submitted s) [
        | err e ↦ err e
        | ok covering ↦ ok (if is_empty covering then submitted else covering)
      ]
