-- ===== src/Store/Lookup.antt =====
-- What a lookup finds: `LookupCompleted` of cursoragentv1/completed_state.go, behind the pruning of
-- expired snapshots.
use cursor_agent2api.Base.{
  ℕ, ◌≡◌, ◌≢◌, refl, sym, ap, subst, ◌∙◌, true, false, List, [], ◌∷◌, if◌then◌else◌, Text, arith,
  trim_space, map, Bool-cases, inl, inr,
}
use cursor_agent2api.Types.{ToolResult}
use cursor_agent2api.Ids.{
  Result, ok, err, not_exist, CompletedToolResult, canonical_tool_results, completed_batch_ids,
  is_empty,
}
use cursor_agent2api.Ids.Results.{canonical_tool_results-IsCanonical}
use cursor_agent2api.Ids.Whole.{
  completed_results-whole, completed_batch-fixed, filled-ids, canonical_tool_results-ne,
}
use cursor_agent2api.Store.{Store, Platform}
use cursor_agent2api.Store.Directory.{lookup-delete}
use cursor_agent2api.Store.Tombstone.{CompletedTombstone, events_from_persisted}
use cursor_agent2api.Store.Prune.{
  read_tombstone, tombstone_expired, remove_tombstone, prune_tombstones, prune_completed,
}
use cursor_agent2api.Store.Completed.{tool_result_digest, completed_name, match_completed_tombstone}
use cursor_agent2api.Store.Replay.{matched-found, read_completed-found}
use cursor_agent2api.Store.Covering.{
  replay_of, replayed_by, lookup_completed_tombstone, lookup_completed,
}

ids-filled :
    (results : List ToolResult) (canonical : List CompletedToolResult)
    → canonical_tool_results results ≡ ok canonical
    → is_empty (completed_batch_ids canonical) ≡ false
ids-filled results canonical accepted =
    let whole = (canonical_tool_results-IsCanonical results canonical accepted).0 in
    ap is_empty (completed_batch-fixed canonical whole)
    ∙ filled-ids canonical (canonical_tool_results-ne results canonical accepted)

prod : (r : Store × Result (Unit {0})) → r.1 ≡ ok tt → r ≡ (r.0, ok tt)
prod (t, o) h = ap (λ (q : Result (Unit {0})). (t, q)) h

replayed_by-typed :
    (x : CompletedTombstone)
    → events_from_persisted x.events ≡ ok x.events
    → replayed_by x ≡ ok (replay_of x)
unfolding replayed_by
replayed_by-typed x typed = ground (arith, typed)

module _ (p : Platform) where
  remove_tombstone-other :
      (name other : Text) (x y : CompletedTombstone) (now : ℕ) (s : Store)
      → read_tombstone name s ≡ ok x
      → tombstone_expired x now s.ttl ≡ false
      → read_tombstone other s ≡ ok y
      → tombstone_expired y now s.ttl ≡ true
      → (read_tombstone name (remove_tombstone p other y s) ≡ ok x)
        × ((remove_tombstone p other y s).ttl ≡ s.ttl)
  unfolding read_tombstone remove_tombstone
  remove_tombstone-other name other x y now s found alive read expired =
      (ground (arith, lookup-delete other name s.completed, found, alive, read, expired), refl)

  -- The pruning keeps what has not expired.
  prune_tombstones-keeps :
      (name : Text) (x : CompletedTombstone) (now : ℕ) (names : List Text) (s : Store)
      → read_tombstone name s ≡ ok x
      → tombstone_expired x now s.ttl ≡ false
      → (read_tombstone name (prune_tombstones p now names s).0 ≡ ok x)
        × ((prune_tombstones p now names s).0.ttl ≡ s.ttl)
  unfolding prune_tombstones
  prune_tombstones-keeps name x now [] s found alive = (found, refl)
  prune_tombstones-keeps name x now (other ∷ names) s found alive =
      by_read (read_tombstone other s) refl (λ t. prune_tombstones-keeps name x now names t)
    where
      by_read :
          (r : Result CompletedTombstone)
          → read_tombstone other s ≡ r
          → ((t : Store)
              → read_tombstone name t ≡ ok x
              → tombstone_expired x now t.ttl ≡ false
              → (read_tombstone name (prune_tombstones p now names t).0 ≡ ok x)
                × ((prune_tombstones p now names t).0.ttl ≡ t.ttl))
          → let t =
              (elim r as (λ _. Store × Result (Unit {0})) [
                | err not_exist ↦ prune_tombstones p now names s
                | err e ↦ (s, err e)
                | ok y ↦
                    prune_tombstones p now names
                      (if tombstone_expired y now s.ttl then remove_tombstone p other y s else s)
              ]).0 in
            (read_tombstone name t ≡ ok x) × (t.ttl ≡ s.ttl)
      by_read (err not_exist) read rest = rest s found alive
      by_read (err e) read rest = ground (arith, found, rest s found alive)
      by_read (ok y) read rest = elim (Bool-cases (tombstone_expired y now s.ttl)) [
        | inl expired ↦
            let (kept, same) =
              remove_tombstone-other name other x y now s found alive read expired in
            let (still, ttl) =
              rest (remove_tombstone p other y s) kept
                (subst (λ (n : ℕ). tombstone_expired x now n ≡ false) (sym same) alive) in
            rw expired (still, ttl ∙ same)
        | inr fresh ↦ rw fresh (rest s found alive)
      ]

  prune_completed-keeps :
      (name : Text) (x : CompletedTombstone) (now : ℕ) (s : Store)
      → read_tombstone name s ≡ ok x
      → tombstone_expired x now s.ttl ≡ false
      → (read_tombstone name (prune_completed p false now s).0 ≡ ok x)
        × ((prune_completed p false now s).0.ttl ≡ s.ttl)
  unfolding prune_completed
  prune_completed-keeps name x now s found alive = ground (
    arith,
    found,
    alive,
    prune_tombstones-keeps name x now (map (λ f. f.0) s.completed) s found alive,
  )

  looked_tombstone :
      (fingerprint : Text) (canonical : List CompletedToolResult) (follow_up : Text) (now : ℕ)
      (t : Store) (y : CompletedTombstone)
      → match_completed_tombstone p fingerprint
          (completed_batch_ids canonical)
          canonical
          follow_up
          now
          t
        ≡ (t, ok y)
      → lookup_completed_tombstone p fingerprint canonical follow_up now t ≡ (t, ok y)
  unfolding lookup_completed_tombstone
  looked_tombstone fingerprint canonical follow_up now t y matched = ground (arith, matched)

  looked :
      (fingerprint follow_up : Text) (results : List ToolResult)
      (canonical : List CompletedToolResult) (now : ℕ) (s t : Store) (y : CompletedTombstone)
      → canonical_tool_results results ≡ ok canonical
      → trim_space fingerprint ≡ fingerprint
      → fingerprint ≢ []
      → is_empty (completed_batch_ids canonical) ≡ false
      → prune_completed p false now s ≡ (t, ok tt)
      → lookup_completed_tombstone p fingerprint canonical follow_up now t ≡ (t, ok y)
      → replayed_by y ≡ ok (replay_of y)
      → (lookup_completed p fingerprint results follow_up now s).1 ≡ ok (replay_of y)
  unfolding lookup_completed
  looked fingerprint follow_up results canonical now s t y accepted trimmed filled batch pruned
        found typed =
      ground (arith, accepted, trimmed, filled, batch, pruned, found, typed)

  -- The lookup of results whose snapshot is at hand.
  pub lookup-found :
      (fingerprint follow_up : Text) (results : List ToolResult)
      (canonical : List CompletedToolResult) (now : ℕ) (s : Store) (y : CompletedTombstone)
      → canonical_tool_results results ≡ ok canonical
      → trim_space fingerprint ≡ fingerprint
      → fingerprint ≢ []
      → (prune_completed p false now s).1 ≡ ok tt
      → read_tombstone (completed_name p fingerprint (completed_batch_ids canonical) follow_up) s
        ≡ ok y
      → (y.credential_fingerprint ≡ fingerprint)
        × (y.batch_ids ≡ completed_batch_ids canonical)
        × (trim_space y.follow_up_text ≡ trim_space follow_up)
      → tombstone_expired y now s.ttl ≡ false
      → y.result_digest ≡ tool_result_digest p canonical
      → events_from_persisted y.events ≡ ok y.events
      → (lookup_completed p fingerprint results follow_up now s).1 ≡ ok (replay_of y)
  lookup-found fingerprint follow_up results canonical now s y accepted trimmed filled pruned found
        same alive digest typed =
      let ids = completed_batch_ids canonical in
      let t = (prune_completed p false now s).0 in
      let (kept, ttl) =
        prune_completed-keeps (completed_name p fingerprint ids follow_up) y now s found alive in
      let matched : match_completed_tombstone p fingerprint ids canonical follow_up now t
          ≡ (t, ok y) =
        matched-found p fingerprint ids canonical follow_up now t y canonical
          (read_completed-found p fingerprint ids follow_up t y kept) same
          (subst (λ (n : ℕ). tombstone_expired y now n ≡ false) (sym ttl) alive)
          (completed_results-whole canonical
            (canonical_tool_results-IsCanonical results canonical accepted).0
            (canonical_tool_results-ne results canonical accepted))
          digest in
      looked fingerprint follow_up results canonical now s t y accepted trimmed filled
        (ids-filled results canonical accepted) (prod (prune_completed p false now s) pruned)
        (looked_tombstone fingerprint canonical follow_up now t y matched)
        (replayed_by-typed y typed)
