-- ===== src/Store/Twice.antt =====
-- Two writes of completed snapshots for one key: `writeCompletedTombstone` of
-- cursoragentv1/completed_state.go.
use cursor_agent2api.Base.{
  ℕ, ◌≡◌, ◌≢◌, refl, sym, ap, ◌∙◌, true, false, List, some, arith, trim_space,
}
use cursor_agent2api.Ids.{
  ok, err, not_exist, tool_result_conflict, normalize_tool_ids, CompletedToolResult,
  completed_results_for_batch,
}
use cursor_agent2api.Store.{Store, Platform, state_version}
use cursor_agent2api.Store.Tombstone.{CompletedTombstone}
use cursor_agent2api.Store.Index.{names_equal_refl}
use cursor_agent2api.Store.Prune.{read_tombstone, tombstone_expired}
use cursor_agent2api.Store.Completed.{
  tool_result_digest, completed_name, name_of, same_identity, keep_first, put_tombstone,
  write_completed_tombstone, match_completed_tombstone,
}
use cursor_agent2api.Store.Replay.{
  refused, wrote-new, wrote-over, read-put, read_completed-found, matched-found,
}

-- A second snapshot for the credential, the batch and the follow-up of a first one.
abbrev pub IsSecond : CompletedTombstone → CompletedTombstone → Type 0
IsSecond x z =
    (z.credential_fingerprint ≡ x.credential_fingerprint)
    × (z.batch_ids ≡ x.batch_ids)
    × (trim_space z.follow_up_text ≡ trim_space x.follow_up_text)

-- What the store gives back after two writes: the first one's run, with what the second one says of
-- the request.
pub record IsMerged (x z r : CompletedTombstone) : Type 0 where
  pub events : r.events ≡ x.events
  pub results : r.results ≡ x.results
  pub billing_run_id : r.billing_run_id ≡ x.billing_run_id
  pub session_id : r.session_id ≡ x.session_id
  pub conversation_id : r.conversation_id ≡ x.conversation_id
  pub follow_up_text : r.follow_up_text ≡ x.follow_up_text
  pub has_pending : r.has_pending ≡ z.has_pending
  pub request_segment_id : r.request_segment_id ≡ z.request_segment_id
  pub updated_at : r.updated_at ≡ z.updated_at

-- The snapshot after a second write of the same results.
abbrev pub merged : CompletedTombstone → CompletedTombstone → CompletedTombstone
merged x z = record (keep_first x z) { version = state_version }

merged-IsMerged : (x z : CompletedTombstone) → IsMerged x z (merged x z)
unfolding keep_first
merged-IsMerged x z = record {
  events = refl;
  results = refl;
  billing_run_id = refl;
  session_id = refl;
  conversation_id = refl;
  follow_up_text = refl;
  has_pending = refl;
  request_segment_id = refl;
  updated_at = refl;
}

module _ (p : Platform) where
  second-name : (x z : CompletedTombstone) → IsSecond x z → name_of p z ≡ name_of p x
  unfolding completed_name
  second-name x z second = ground (arith, second)

  second-same :
      (x z : CompletedTombstone)
      → IsSecond x z
      → same_identity (record x { version = state_version }) z ≡ true
  unfolding same_identity
  second-same x z second = ground (arith, second, names_equal_refl x.batch_ids)

  -- What a first write leaves to be read under the name of a second one.
  first-read :
      (x z : CompletedTombstone) (now : ℕ) (s : Store)
      → read_tombstone (name_of p x) s ≡ err not_exist
      → normalize_tool_ids x.batch_ids ≡ x.batch_ids
      → IsSecond x z
      → read_tombstone (name_of p z) (write_completed_tombstone p x now s).0
        ≡ ok (record x { version = state_version })
  first-read x z now s absent normal second =
      ap (λ name. read_tombstone name (write_completed_tombstone p x now s).0)
        (second-name x z second)
      ∙ ap (λ r. read_tombstone (name_of p x) r.0) (wrote-new p x now s absent)
      ∙ read-put p (name_of p x) x now s
      ∙ ap (λ ids. ok (record x { version = state_version; batch_ids = ids })) normal

  -- Once a snapshot, its batch in normal form, was written where there was none, a second one for
  -- its credential, batch and follow-up that was made of other results, by their digest, is refused
  -- and changes nothing.
  pub write-write_conflict :
      (x z : CompletedTombstone) (now again : ℕ) (s : Store)
      → read_tombstone (name_of p x) s ≡ err not_exist
      → normalize_tool_ids x.batch_ids ≡ x.batch_ids
      → IsSecond x z
      → x.result_digest ≢ z.result_digest
      → let t = (write_completed_tombstone p x now s).0 in
        write_completed_tombstone p z again t ≡ (t, err tool_result_conflict)
  write-write_conflict x z now again s absent normal second differ =
      refused p z (record x { version = state_version }) again
        (write_completed_tombstone p x now s).0 (first-read x z now s absent normal second)
        (second-same x z second) differ

  -- The store after both writes, where the second one was made of the same results.
  both-written :
      (x z : CompletedTombstone) (now again : ℕ) (s : Store)
      → read_tombstone (name_of p x) s ≡ err not_exist
      → normalize_tool_ids x.batch_ids ≡ x.batch_ids
      → IsSecond x z
      → x.result_digest ≡ z.result_digest
      → let t = (write_completed_tombstone p x now s).0 in
        write_completed_tombstone p z again t ≡ (
          put_tombstone p
              (name_of p z)
              (keep_first (record x { version = state_version }) z)
              again
              t,
          ok tt,
        )
  both-written x z now again s absent normal second alike =
      wrote-over p z (record x { version = state_version }) again
        (write_completed_tombstone p x now s).0 (first-read x z now s absent normal second)
        (second-same x z second) alike

  merged-read :
      (x z : CompletedTombstone) (now : ℕ) (s : Store)
      → normalize_tool_ids x.batch_ids ≡ x.batch_ids
      → IsSecond x z
      → read_tombstone (name_of p x) (
          put_tombstone p (name_of p z) (keep_first (record x { version = state_version }) z) now s)
        ≡ ok (merged x z)
  unfolding keep_first
  merged-read x z now s normal second =
      let y = keep_first (record x { version = state_version }) z in
      ap (λ name. read_tombstone name (put_tombstone p (name_of p z) y now s))
        (sym (second-name x z second))
      ∙ read-put p (name_of p z) y now s
      ∙ ap (λ ids. ok (record y { version = state_version; batch_ids = ids }))
          (ap normalize_tool_ids second.1 ∙ normal ∙ sym second.1)

  merged-key :
      (x z : CompletedTombstone)
      → IsSecond x z
      → ((merged x z).credential_fingerprint ≡ x.credential_fingerprint)
        × ((merged x z).batch_ids ≡ x.batch_ids)
        × (trim_space (merged x z).follow_up_text ≡ trim_space x.follow_up_text)
  unfolding keep_first
  merged-key x z second = (second.0, second.1, refl)

  merged-digest :
      (x z : CompletedTombstone)
      → x.result_digest ≡ z.result_digest
      → (merged x z).result_digest ≡ x.result_digest
  unfolding keep_first
  merged-digest x z alike = sym alike

  same-ttl :
      (x z : CompletedTombstone) (now again : ℕ) (s : Store)
      → (put_tombstone p
          (name_of p z)
          (keep_first (record x { version = state_version }) z)
          again
          (put_tombstone p (name_of p x) x now s)).ttl
        ≡ s.ttl
  unfolding put_tombstone
  same-ttl x z now again s = refl

  -- Once a snapshot, its batch in normal form, was written where there was none, a second one for
  -- its credential, batch and follow-up with the same digest of results is accepted. Until it expires,
  -- a match with results that contain those of that digest then gives back the events, the results,
  -- the receipt, the session, the conversation and the follow-up of the first one, with the pending
  -- mark, the request segment and the time of the second one.
  pub match-write_write :
      (x z : CompletedTombstone) (now again later : ℕ) (s : Store)
      (canonical results : List CompletedToolResult)
      → read_tombstone (name_of p x) s ≡ err not_exist
      → normalize_tool_ids x.batch_ids ≡ x.batch_ids
      → IsSecond x z
      → x.result_digest ≡ z.result_digest
      → completed_results_for_batch canonical x.batch_ids ≡ some results
      → x.result_digest ≡ tool_result_digest p results
      → tombstone_expired (merged x z) later s.ttl ≡ false
      → let t = (write_completed_tombstone p x now s).0 in
        let r = write_completed_tombstone p z again t in
        (r.1 ≡ ok tt)
        × ((y : CompletedTombstone) × (match_completed_tombstone p x.credential_fingerprint
                x.batch_ids canonical x.follow_up_text later r.0
              ≡ (r.0, ok y))
            × IsMerged x z y)
  match-write_write x z now again later s canonical results absent normal second alike covered
        digest alive =
      let t = (write_completed_tombstone p x now s).0 in
      let y = keep_first (record x { version = state_version }) z in
      let u = put_tombstone p (name_of p z) y again t in
      let wrote = both-written x z now again s absent normal second alike in
      let ttl : u.ttl ≡ s.ttl =
        ap (λ r. (put_tombstone p (name_of p z) y again r.0).ttl) (wrote-new p x now s absent)
        ∙ same-ttl x z now again s in
      let found =
        matched-found p x.credential_fingerprint x.batch_ids canonical x.follow_up_text later u
          (merged x z) results
          (read_completed-found p x.credential_fingerprint x.batch_ids x.follow_up_text u
            (merged x z) (merged-read x z again t normal second))
          (merged-key x z second) (ap (λ n. tombstone_expired (merged x z) later n) ttl ∙ alive)
          covered (merged-digest x z alike ∙ digest) in
      (
        ap (λ r. r.1) wrote,
        (
          merged x z,
          ap
                (λ r.
                  match_completed_tombstone p x.credential_fingerprint x.batch_ids canonical
                    x.follow_up_text later r.0)
                wrote
              ∙ found
              ∙ ap (λ r. (r.0, ok (merged x z))) (sym wrote),
          merged-IsMerged x z,
        ),
      )
