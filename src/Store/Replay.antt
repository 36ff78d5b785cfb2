-- ===== src/Store/Replay.antt =====
-- What a replay of a completed snapshot of cursoragentv1/completed_state.go gives back.
use cursor_agent2api.Base.{
  ℕ, ◌≡◌, ◌≢◌, refl, sym, ap, ◌∙◌, true, false, List, some, Text, arith, trim_space,
}
use cursor_agent2api.Ids.{
  ok, err, not_exist, tool_result_conflict, normalize_tool_ids, CompletedToolResult,
  completed_results_for_batch,
}
use cursor_agent2api.Store.{Store, Platform, state_version, migrate_record_version}
use cursor_agent2api.Store.Tombstone.{CompletedTombstone}
use cursor_agent2api.Store.Directory.{lookup-insert}
use cursor_agent2api.Store.Prune.{read_tombstone, tombstone_expired}
use cursor_agent2api.Store.Completed.{
  tool_result_digest, completed_name, name_of, same_identity, keep_first, put_tombstone,
  write_completed_tombstone, read_completed, match_found, match_completed_tombstone,
}

module _ (p : Platform) where
  pub read-put :
      (name : Text) (x : CompletedTombstone) (now : ℕ) (s : Store)
      → read_tombstone name (put_tombstone p name x now s)
        ≡ ok (record x { version = state_version; batch_ids = normalize_tool_ids x.batch_ids })
  unfolding read_tombstone put_tombstone migrate_record_version
  read-put name x now s =
      ground (arith, lookup-insert name name (record x { version = state_version }) s.completed)

  pub refused :
      (x old : CompletedTombstone) (now : ℕ) (s : Store)
      → read_tombstone (name_of p x) s ≡ ok old
      → same_identity old x ≡ true
      → old.result_digest ≢ x.result_digest
      → write_completed_tombstone p x now s ≡ (s, err tool_result_conflict)
  unfolding write_completed_tombstone
  refused x old now s found same differ = ground (arith, found, same, differ)

  pub wrote-over :
      (x old : CompletedTombstone) (now : ℕ) (s : Store)
      → read_tombstone (name_of p x) s ≡ ok old
      → same_identity old x ≡ true
      → old.result_digest ≡ x.result_digest
      → write_completed_tombstone p x now s
        ≡ (put_tombstone p (name_of p x) (keep_first old x) now s, ok tt)
  unfolding write_completed_tombstone
  wrote-over x old now s found same alike = ground (arith, found, same, alike)

  pub still-alive :
      (name : Text) (x : CompletedTombstone) (now later : ℕ) (s : Store)
      → tombstone_expired x later s.ttl ≡ false
      → tombstone_expired
          (record x { version = state_version })
          later
          (put_tombstone p name x now s).ttl
        ≡ false
  unfolding tombstone_expired put_tombstone
  still-alive name x now later s alive = alive

  pub wrote-new :
      (x : CompletedTombstone) (now : ℕ) (s : Store)
      → read_tombstone (name_of p x) s ≡ err not_exist
      → write_completed_tombstone p x now s ≡ (put_tombstone p (name_of p x) x now s, ok tt)
  unfolding write_completed_tombstone
  wrote-new x now s absent = ground (arith, absent)

  pub read_completed-found :
      (fingerprint : Text) (batch : List Text) (follow_up : Text) (s : Store)
      (y : CompletedTombstone)
      → read_tombstone (completed_name p fingerprint batch follow_up) s ≡ ok y
      → read_completed p fingerprint batch follow_up s ≡ ok y
  unfolding read_completed
  read_completed-found fingerprint batch follow_up s y found = ground (arith, found)

  pub matched-found :
      (fingerprint : Text) (batch : List Text) (canonical : List CompletedToolResult)
      (follow_up : Text) (now : ℕ) (s : Store) (y : CompletedTombstone)
      (matched : List CompletedToolResult)
      → read_completed p fingerprint batch follow_up s ≡ ok y
      → (y.credential_fingerprint ≡ fingerprint)
        × (y.batch_ids ≡ batch)
        × (trim_space y.follow_up_text ≡ trim_space follow_up)
      → tombstone_expired y now s.ttl ≡ false
      → completed_results_for_batch canonical batch ≡ some matched
      → y.result_digest ≡ tool_result_digest p matched
      → match_completed_tombstone p fingerprint batch canonical follow_up now s ≡ (s, ok y)
  unfolding match_completed_tombstone match_found
  matched-found fingerprint batch canonical follow_up now s y matched read same alive covered
        alike =
      ground (arith, read, same, alive, covered, alike)

  -- A snapshot, its batch in normal form, that is written where there was none is given back for the
  -- same credential, batch and follow-up, as long as it has not expired, if the results at hand
  -- contain those it was made of.
  pub match-write_completed_tombstone :
      (x : CompletedTombstone) (now later : ℕ) (s : Store)
      (canonical matched : List CompletedToolResult)
      → read_tombstone (name_of p x) s ≡ err not_exist
      → normalize_tool_ids x.batch_ids ≡ x.batch_ids
      → tombstone_expired x later s.ttl ≡ false
      → completed_results_for_batch canonical x.batch_ids ≡ some matched
      → x.result_digest ≡ tool_result_digest p matched
      → let t = (write_completed_tombstone p x now s).0 in
        match_completed_tombstone p x.credential_fingerprint x.batch_ids canonical x.follow_up_text
          later t
        ≡ (t, ok (record x { version = state_version }))
  match-write_completed_tombstone x now later s canonical matched absent normal alive covered
        alike =
      let put = put_tombstone p (name_of p x) x now s in
      let y = record x { version = state_version } in
      let wrote = wrote-new x now s absent in
      let alive_put = still-alive (name_of p x) x now later s alive in
      let read : read_completed p x.credential_fingerprint x.batch_ids x.follow_up_text put ≡ ok y =
        read_completed-found x.credential_fingerprint x.batch_ids x.follow_up_text put y
          (read-put (name_of p x) x now s ∙ ap (λ ids. ok (record y { batch_ids = ids })) normal) in
      ap
        (λ r.
          match_completed_tombstone p x.credential_fingerprint x.batch_ids canonical
            x.follow_up_text later r.0)
        wrote
      ∙ matched-found x.credential_fingerprint x.batch_ids canonical x.follow_up_text later put y
          matched read (refl, refl, refl) alive_put covered alike
      ∙ ap (λ r. (r.0, ok y)) (sym wrote)
