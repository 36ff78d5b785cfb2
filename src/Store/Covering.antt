-- ===== src/Store/Covering.antt =====
-- The lookup of completed snapshots: cursoragentv1/completed_state.go, `LookupCompleted` and
-- `lookupCompletedCovering`.
pub mod Newest
pub mod Rounds
pub mod Sound
use cursor_agent2api.Base.{
  ℕ, Bool, true, false, not, ◌&&◌, ◌||◌, List, [], ◌∷◌, ◌++◌, Option, none, some, ltb,
  if◌then◌else◌, Text, ◌==◌, trim_space, member,
}
use cursor_agent2api.Types.{ToolResult}
use cursor_agent2api.Ids.{
  Error, Result, ok, err, not_exist, session_not_pending, tool_result_conflict, pending_ambiguous,
  is_empty, normalize_tool_ids, batch_subset_of, CompletedToolResult, canonical_tool_results,
  completed_batch_ids,
}
use cursor_agent2api.Store.{Store, Platform, M, ◌>>=◌, ◌>>◌, fail, lift, ToolBatchPointer}
use cursor_agent2api.Store.Directory.{lookup}
use cursor_agent2api.Store.Index.{join_nul, read_pointer}
use cursor_agent2api.Store.Tombstone.{CompletedTombstone, CompletedReplay, events_from_persisted}
use cursor_agent2api.Store.Prune.{completed_pointer_name, prune_completed}
use cursor_agent2api.Store.Completed.{match_completed_tombstone}

-- What the loop over the submitted ids has found: the batches it tried, whether results conflicted,
-- and the snapshots that match, in the order of the loop.
pub record Found : Type 0 where
  pub seen : List Text
  pub conflict : Bool
  pub matches : List CompletedTombstone

abbrev pub nothing_found : Found
nothing_found = record { seen = []; conflict = false; matches = [] }

-- The sessions of `matchesBySession`.
unfoldable pub match_sessions : List CompletedTombstone → List Text
unfolding member
match_sessions [] = []
match_sessions (x ∷ xs) =
    let rest = match_sessions xs in if member x.session_id rest then rest else x.session_id ∷ rest

-- The newest of the matches; of two that are as new, the one found first.
unfoldable pub newest : CompletedTombstone → List CompletedTombstone → CompletedTombstone
newest x [] = x
newest x (y ∷ ys) = newest (if ltb x.updated_at y.updated_at then y else x) ys

-- What the lookup makes of the matches and their sessions.
unfoldable pub pick : List Text → List CompletedTombstone → Result CompletedTombstone
unfolding newest
pick (id ∷ []) (x ∷ xs) = ok (newest x xs)
pick (id ∷ other ∷ ids) xs = err pending_ambiguous
pick _ _ = err session_not_pending

unfoldable pub choose : Found → Result CompletedTombstone
unfolding match_sessions pick
choose f =
    if f.conflict then err tool_result_conflict else pick (match_sessions f.matches) f.matches

-- What one match adds to the finds; `none` where the loop returns with the error.
unfoldable pub record_match : Result CompletedTombstone → Found → Result Found
record_match (ok x) f = ok (record f { matches = f.matches ++ x ∷ [] })
record_match (err session_not_pending) f = ok f
record_match (err tool_result_conflict) f = ok (record f { conflict = true })
record_match (err e) f = err e

-- The replay that a completed snapshot gives.
abbrev pub replay_of : CompletedTombstone → CompletedReplay
replay_of x = record {
  session_id = x.session_id;
  conversation_id = x.conversation_id;
  billing_run_id = x.billing_run_id;
  request_segment_id = x.request_segment_id;
  original_batch = x.batch_ids;
  events = x.events;
  has_pending = x.has_pending;
  follow_up_text = x.follow_up_text;
}

-- The end of `LookupCompleted`.
unfoldable pub replayed_by : CompletedTombstone → Result CompletedReplay
unfolding events_from_persisted
replayed_by x = elim (events_from_persisted x.events) [
  | err e ↦ err e
  | ok events ↦ ok (record (replay_of x) { events = events })
]

module _ (p : Platform) where
  -- The batch that the pointer of a call names, if the submitted ids cover it.
  unfoldable pub covered_batch : Text → List Text → Text → Store → Result (Option (List Text))
  unfolding read_pointer completed_pointer_name batch_subset_of
  covered_batch fingerprint submitted id s =
      elim (read_pointer (completed_pointer_name p fingerprint id) s.completed_pointers) [
        | err not_exist ↦ ok none
        | err e ↦ err e
        | ok x ↦ ok (
            if not (x.credential_fingerprint == fingerprint)
              || not (batch_subset_of x.batch_ids submitted)
            then none
            else some x.batch_ids)
      ]

  module _ (fingerprint : Text) (canonical : List CompletedToolResult) (follow_up : Text)
      (now : ℕ) where
    -- One round of the loop.
    unfoldable pub find_covering : Text → Found → M Found
    unfolding covered_batch completed_batch_ids join_nul member record_match
        match_completed_tombstone
    find_covering id f s = elim (covered_batch fingerprint (completed_batch_ids canonical) id s) [
      | err e ↦ (s, err e)
      | ok none ↦ (s, ok f)
      | ok (some batch) ↦
          if member (join_nul batch) f.seen
          then (s, ok f)
          else let (t, r) =
              match_completed_tombstone p fingerprint batch canonical follow_up now s in
            (t, record_match r (record f { seen = join_nul batch ∷ f.seen }))
    ]

    unfoldable pub find_all : List Text → Found → M Found
    unfolding find_covering
    find_all [] f s = (s, ok f)
    find_all (id ∷ ids) f s = (find_covering id f >>= find_all ids) s

    unfoldable pub lookup_completed_covering : M CompletedTombstone
    unfolding find_all choose completed_batch_ids
    lookup_completed_covering = do
      f ← find_all (completed_batch_ids canonical) nothing_found
      lift (choose f)

    -- `lookupCompletedTombstone`: the batch of all ids first, then the batches they cover.
    unfoldable pub lookup_completed_tombstone : M CompletedTombstone
    unfolding lookup_completed_covering match_completed_tombstone completed_batch_ids
    lookup_completed_tombstone s =
        let (t, exact) =
          match_completed_tombstone p fingerprint (completed_batch_ids canonical) canonical
            follow_up now s in
        elim exact [
          | ok x ↦ (t, ok x)
          | err session_not_pending ↦ lookup_completed_covering t
          | err e ↦ (t, err e)
        ]

  unfoldable pub lookup_completed : Text → List ToolResult → Text → ℕ → M CompletedReplay
  unfolding canonical_tool_results completed_batch_ids trim_space lookup_completed_tombstone
      prune_completed replayed_by
  lookup_completed fingerprint results follow_up now s =
      let owner = trim_space fingerprint in
      elim (canonical_tool_results results) [
        | err e ↦ (s, err e)
        | ok canonical ↦
            if (owner == []) || is_empty (completed_batch_ids canonical)
            then (s, err session_not_pending)
            else (do
              prune_completed p false now
              x ← lookup_completed_tombstone owner canonical follow_up now
              lift (replayed_by x))
                s
      ]
