-- ===== src/Store/Completed.antt =====
-- Completed snapshots by batch: cursoragentv1/completed_state.go, `writeCompletedTombstone`,
-- `readCompletedTombstone`, `matchCompletedTombstone` and `newCompletedTombstone`, and
-- `toolResultDigest` of cursoragentv1/state.go.
use cursor_agent2api.Base.{
  ℕ, Bool, false, not, ◌&&◌, ◌||◌, List, [], ◌∷◌, ◌++◌, none, some, if◌then◌else◌, Text, text, ◌==◌,
  trim_space,
}
use cursor_agent2api.Types.{ToolResult, Event}
use cursor_agent2api.Ids.{
  Result, ok, err, not_exist, session_not_pending, tool_result_conflict, failed, normalize_tool_ids,
  CompletedToolResult, canonical_tool_results, completed_batch_ids, completed_results_for_batch,
}
use cursor_agent2api.Snapshot.{Encoder, persist_events}
use cursor_agent2api.Store.{Store, Platform, OwnerLease, M, ◌>>◌, fail, state_version}
use cursor_agent2api.Store.Tombstone.{CompletedTombstone}
use cursor_agent2api.Store.Directory.{insert}
use cursor_agent2api.Store.Index.{names_equal, join_nul, write_pointers}
use cursor_agent2api.Store.Prune.{
  read_tombstone, tombstone_expired, completed_pointer_name, remove_tombstone,
}

-- The bytes that `toolResultDigest` hashes; the media are not among them.
unfoldable pub digest_material : List CompletedToolResult → Text
digest_material [] = []
digest_material (r ∷ rs) =
    r.tool_call_id
    ++ (0
        ∷ (r.content
            ++ (0 ∷ ((if r.is_error then text "1" else text "0") ++ (0 ∷ digest_material rs)))))

-- What a second write takes over from the file that is there.
unfoldable pub keep_first : CompletedTombstone → CompletedTombstone → CompletedTombstone
keep_first old x = record x {
  events = old.events;
  follow_up_text = old.follow_up_text;
  results = old.results;
  billing_run_id = old.billing_run_id;
  session_id = old.session_id;
  conversation_id = old.conversation_id;
  ephemeral = x.ephemeral || old.ephemeral;
}

unfoldable pub same_identity : CompletedTombstone → CompletedTombstone → Bool
unfolding trim_space
same_identity old x =
    (old.credential_fingerprint == x.credential_fingerprint)
    && (names_equal old.batch_ids x.batch_ids
        && (trim_space old.follow_up_text == trim_space x.follow_up_text))

module _ (p : Platform) where
  open p use {sha256}

  unfoldable pub tool_result_digest : List CompletedToolResult → Text
  unfolding digest_material
  tool_result_digest rs = text "sha256:" ++ sha256 (digest_material rs)

  -- `completedIndexPaths`
  unfoldable pub completed_name : Text → List Text → Text → Text
  unfolding trim_space join_nul normalize_tool_ids
  completed_name fingerprint batch follow_up =
      let extra = trim_space follow_up in
      let base = trim_space fingerprint ++ (0 ∷ join_nul (normalize_tool_ids batch)) in
      sha256 (if extra == [] then base else base ++ (0 ∷ extra))

  -- `newCompletedTombstone`
  unfoldable pub new_tombstone :
      Encoder
      → OwnerLease
      → List ToolResult
      → List Event
      → Bool
      → Text
      → ℕ
      → Result CompletedTombstone
  unfolding canonical_tool_results persist_events completed_batch_ids tool_result_digest trim_space
  new_tombstone encoder o results events ephemeral follow_up now =
      elim (canonical_tool_results results) [
        | err e ↦ err e
        | ok canonical ↦ elim (persist_events encoder events) [
          | err e ↦ err e
          | ok persisted ↦ ok (record {
            request_key = [];
            request_segment_id = o.request_segment_id;
            version = state_version;
            credential_fingerprint = o.credential_hash;
            batch_ids = completed_batch_ids canonical;
            result_digest = tool_result_digest canonical;
            results = canonical;
            events = persisted;
            billing_run_id = o.billing_run_id;
            session_id = o.session_id;
            conversation_id = o.conversation_id;
            has_pending = false;
            follow_up_text = trim_space follow_up;
            ephemeral = ephemeral;
            updated_at = now;
          })
        ]
      ]

  -- The file, and without a follow-up the pointers of its batch.
  unfoldable pub put_tombstone : Text → CompletedTombstone → ℕ → Store → Store
  unfolding insert write_pointers completed_pointer_name normalize_tool_ids trim_space
  put_tombstone name x now s =
      let ids = normalize_tool_ids x.batch_ids in
      record s {
        completed = insert name (record x { version = state_version }) s.completed;
        completed_pointers =
            (if trim_space x.follow_up_text == []
              then write_pointers (completed_pointer_name p x.credential_fingerprint)
                  x.credential_fingerprint ids now ids s.completed_pointers
              else s.completed_pointers);
      }

  -- The name under which `writeCompletedTombstone` stores a snapshot.
  abbrev pub name_of : CompletedTombstone → Text
  name_of x = completed_name x.credential_fingerprint x.batch_ids x.follow_up_text

  unfoldable pub write_completed_tombstone : CompletedTombstone → ℕ → M (Unit {0})
  unfolding read_tombstone completed_name same_identity keep_first put_tombstone
  write_completed_tombstone x now s = elim (read_tombstone (name_of x) s) [
    | err not_exist ↦ (put_tombstone (name_of x) x now s, ok tt)
    | err e ↦ (s, err e)
    | ok old ↦
        if not (same_identity old x)
        then (s, err (failed (text "completed index identity mismatch")))
        else if not (old.result_digest == x.result_digest)
        then (s, err tool_result_conflict)
        else (put_tombstone (name_of x) (keep_first old x) now s, ok tt)
  ]

  -- `readCompletedTombstone`: a follow-up may be stored under the name without it.
  unfoldable pub read_completed : Text → List Text → Text → Store → Result CompletedTombstone
  unfolding read_tombstone completed_name trim_space
  read_completed fingerprint batch follow_up s =
      elim (read_tombstone (completed_name fingerprint batch follow_up) s) [
        | err not_exist ↦
            if trim_space follow_up == []
            then err not_exist
            else read_tombstone (completed_name fingerprint batch []) s
        | err e ↦ err e
        | ok x ↦ ok x
      ]

  -- `removeExpiredCompletedTombstone`
  unfoldable pub remove_expired : Text → List Text → Text → ℕ → M (Unit {0})
  unfolding read_tombstone completed_name tombstone_expired remove_tombstone
  remove_expired fingerprint batch follow_up now s =
      let name = completed_name fingerprint batch follow_up in
      elim (read_tombstone name s) [
        | err not_exist ↦ (s, ok tt)
        | err e ↦ (s, err e)
        | ok x ↦
            if tombstone_expired x now s.ttl
            then (
              remove_tombstone p name
                  (record x { credential_fingerprint = fingerprint; batch_ids = batch }) s,
              ok tt,
            )
            else (s, ok tt)
      ]

  -- The checks on the snapshot that was read.
  unfoldable pub match_found :
      Text
      → List Text
      → List CompletedToolResult
      → Text
      → ℕ
      → CompletedTombstone
      → M CompletedTombstone
  unfolding tombstone_expired remove_expired completed_results_for_batch tool_result_digest
      trim_space
  match_found fingerprint batch canonical follow_up now x s =
      if not (x.credential_fingerprint == fingerprint) || not (names_equal x.batch_ids batch)
      then (s, err session_not_pending)
      else if not (trim_space x.follow_up_text == trim_space follow_up)
      then (s, err session_not_pending)
      else if tombstone_expired x now s.ttl
      then (remove_expired fingerprint batch follow_up now >> fail session_not_pending) s
      else elim (completed_results_for_batch canonical batch) [
        | none ↦ (s, err session_not_pending)
        | some matched ↦
            if x.result_digest == tool_result_digest matched
            then (s, ok x)
            else (s, err tool_result_conflict)
      ]

  unfoldable pub match_completed_tombstone :
      Text → List Text → List CompletedToolResult → Text → ℕ → M CompletedTombstone
  unfolding read_completed match_found
  match_completed_tombstone fingerprint batch canonical follow_up now s =
      elim (read_completed fingerprint batch follow_up s) [
        | err not_exist ↦ (s, err session_not_pending)
        | err e ↦ (s, err e)
        | ok x ↦ match_found fingerprint batch canonical follow_up now x s
      ]
