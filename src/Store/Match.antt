-- ===== src/Store/Match.antt =====
-- To whom a completed snapshot is given back: `matchCompletedTombstone` of
-- cursoragentv1/completed_state.go.
use cursor_agent2api.Base.{
  ℕ, ◌≡◌, refl, Bool, true, false, not, ◌||◌, List, Option, none, some, if◌then◌else◌, Text, ◌==◌,
  trim_space, arith, subst,
}
use cursor_agent2api.Ids.{
  Result, ok, err, not_exist, session_not_pending, tool_result_conflict, CompletedToolResult,
  completed_results_for_batch,
}
use cursor_agent2api.Store.{Store, Platform, M, ◌>>◌, fail}
use cursor_agent2api.Store.Tombstone.{CompletedTombstone}
use cursor_agent2api.Store.Index.{names_equal}
use cursor_agent2api.Store.Prune.{tombstone_expired}
use cursor_agent2api.Store.Completed.{
  tool_result_digest, read_completed, remove_expired, match_found, match_completed_tombstone,
}

-- The guards of a match, when it gives a snapshot.
guards-pass :
    (a b c d : Bool) (s : Store) (w : Store × Result CompletedTombstone) (x y : CompletedTombstone)
    → ¬ (w.1 ≡ ok x)
    → (if a
        then (s, err session_not_pending)
        else if b
        then (s, err session_not_pending)
        else if c
        then w
        else if d
        then (s, ok y)
        else (s, err tool_result_conflict)).1
      ≡ ok x
    → (a ≡ false) × (b ≡ false) × (c ≡ false) × (d ≡ true) × (y ≡ x)
guards-pass a b c d s w x y never done = ground (arith, never, done)

guards-fail :
    (a b c : Bool) (s : Store) (w : Store × Result CompletedTombstone) (x : CompletedTombstone)
    → ¬ (w.1 ≡ ok x)
    → ¬ (
        (if a
          then (s, err session_not_pending)
          else if b
          then (s, err session_not_pending)
          else if c
          then w
          else (s, err session_not_pending)).1
        ≡ ok x)
guards-fail a b c s w x never done = ground (arith, never, done)

same-parts :
    (fingerprint other : Text) (batch ids : List Text)
    → (not (other == fingerprint) || not (names_equal ids batch)) ≡ false
    → (other ≡ fingerprint) × (ids ≡ batch)
same-parts fingerprint other batch ids h = ground (arith, h)

same-text : (a b : Text) → not (a == b) ≡ false → a ≡ b
same-text a b h = ground (arith, h)

same-digest : (a b : Text) → (a == b) ≡ true → a ≡ b
same-digest a b h = ground (arith, h)

removed-fails :
    (m : M (Unit {0})) (s : Store) (x : CompletedTombstone)
    → ¬ (((m >> fail {A = CompletedTombstone} session_not_pending) s).1 ≡ ok x)
removed-fails m s x done = ground (arith, done)

module _ (p : Platform) where
  -- The snapshot is the one that was asked for, and the results are covered by its digest.
  abbrev pub Matches :
      Text → List Text → List CompletedToolResult → Text → ℕ → Store → CompletedTombstone → Type 0
  Matches fingerprint batch canonical follow_up now s x =
      (x.credential_fingerprint ≡ fingerprint)
      × (x.batch_ids ≡ batch)
      × (trim_space x.follow_up_text ≡ trim_space follow_up)
      × (tombstone_expired x now s.ttl ≡ false)
      × ((matched : List CompletedToolResult) × (completed_results_for_batch canonical batch
            ≡ some matched)
          × (x.result_digest ≡ tool_result_digest p matched))

  match_found_sound :
      (fingerprint : Text) (batch : List Text) (canonical : List CompletedToolResult)
      (follow_up : Text) (now : ℕ) (s : Store) (x y : CompletedTombstone)
      → (match_found p fingerprint batch canonical follow_up now y s).1 ≡ ok x
      → Matches fingerprint batch canonical follow_up now s x
  unfolding match_found
  match_found_sound fingerprint batch canonical follow_up now s x y given =
      by_cover (completed_results_for_batch canonical batch) refl given
    where
      by_cover :
          (c : Option (List CompletedToolResult))
          → completed_results_for_batch canonical batch ≡ c
          → (if not (y.credential_fingerprint == fingerprint) || not (names_equal y.batch_ids batch)
              then (s, err session_not_pending)
              else if not (trim_space y.follow_up_text == trim_space follow_up)
              then (s, err session_not_pending)
              else if tombstone_expired y now s.ttl
              then (remove_expired p fingerprint batch follow_up now >> fail session_not_pending) s
              else elim c as (λ _. Store × Result CompletedTombstone) [
                | none ↦ (s, err session_not_pending)
                | some matched ↦
                    if y.result_digest == tool_result_digest p matched
                    then (s, ok y)
                    else (s, err tool_result_conflict)
              ]).1
            ≡ ok x
          → Matches fingerprint batch canonical follow_up now s x
      by_cover none covers done = absurd (
          guards-fail
            (not (y.credential_fingerprint == fingerprint) || not (names_equal y.batch_ids batch))
            (not (trim_space y.follow_up_text == trim_space follow_up))
            (tombstone_expired y now s.ttl) s
            ((remove_expired p fingerprint batch follow_up now >> fail session_not_pending) s) x
            (removed-fails (remove_expired p fingerprint batch follow_up now) s x) done)
      by_cover (some matched) covers done =
          let all =
            guards-pass
              (not (y.credential_fingerprint == fingerprint) || not (names_equal y.batch_ids batch))
              (not (trim_space y.follow_up_text == trim_space follow_up))
              (tombstone_expired y now s.ttl) (y.result_digest == tool_result_digest p matched) s
              ((remove_expired p fingerprint batch follow_up now >> fail session_not_pending) s) x y
              (removed-fails (remove_expired p fingerprint batch follow_up now) s x) done in
          subst (Matches fingerprint batch canonical follow_up now s) all.4 (
            (same-parts fingerprint y.credential_fingerprint batch y.batch_ids all.0).0,
            (same-parts fingerprint y.credential_fingerprint batch y.batch_ids all.0).1,
            same-text (trim_space y.follow_up_text) (trim_space follow_up) all.1,
            all.2,
            (matched, covers, same-digest y.result_digest (tool_result_digest p matched) all.3),
          )

  -- A replay is given only to the credential, the batch and the follow-up of the snapshot, before it
  -- expires, and only for results with the digest of those it was made of.
  pub match_completed_tombstone_sound :
      (fingerprint : Text) (batch : List Text) (canonical : List CompletedToolResult)
      (follow_up : Text) (now : ℕ) (s : Store) (x : CompletedTombstone)
      → (match_completed_tombstone p fingerprint batch canonical follow_up now s).1 ≡ ok x
      → Matches fingerprint batch canonical follow_up now s x
  unfolding match_completed_tombstone
  match_completed_tombstone_sound fingerprint batch canonical follow_up now s x given =
      by_read (read_completed p fingerprint batch follow_up s) given
    where
      by_read :
          (r : Result CompletedTombstone)
          → (elim r as (λ _. Store × Result CompletedTombstone) [
            | err not_exist ↦ (s, err session_not_pending)
            | err e ↦ (s, err e)
            | ok y ↦ match_found p fingerprint batch canonical follow_up now y s
          ]).1
            ≡ ok x
          → Matches fingerprint batch canonical follow_up now s x
      by_read (err e) done = ground (arith, done)
      by_read (ok y) done = match_found_sound fingerprint batch canonical follow_up now s x y done
