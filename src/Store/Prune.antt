-- ===== src/Store/Prune.antt =====
-- The removal of expired files: cursoragentv1/state.go, `pruneExpired`, and
-- cursoragentv1/completed_state.go, `pruneExpiredCompleted`.
use Prim.Native.Nat.{◌-◌}
use cursor_agent2api.Base.{
  ℕ, ◌+◌, Bool, not, ◌&&◌, ◌||◌, List, [], ◌∷◌, ◌++◌, map, none, some, ltb, eqb, if◌then◌else◌,
  Text, text, ◌==◌, trim_space,
}
use cursor_agent2api.Ids.{Result, ok, err, not_exist, normalize_tool_ids}
use cursor_agent2api.Store.{
  Store, Platform, M, ◌>>◌, done, read_state, state_expired, lock_held, migrate_record_version,
  completed_tombstone_ttl, state_gc_interval,
}
use cursor_agent2api.Store.Tombstone.{CompletedTombstone}
use cursor_agent2api.Store.Directory.{lookup, delete}
use cursor_agent2api.Store.Index.{remove_pointers}
use cursor_agent2api.Store.Update.{with_lease, remove_state}

-- `readCompletedTombstoneFile`
unfoldable pub read_tombstone : Text → Store → Result CompletedTombstone
unfolding lookup migrate_record_version normalize_tool_ids
read_tombstone name s = elim (lookup name s.completed) [
  | none ↦ err not_exist
  | some x ↦ elim (migrate_record_version x.version) [
    | err e ↦ err e
    | ok v ↦ ok (record x { version = v; batch_ids = normalize_tool_ids x.batch_ids })
  ]
]

-- `completedTombstoneExpired`
unfoldable pub tombstone_expired : CompletedTombstone → ℕ → ℕ → Bool
tombstone_expired x now ttl =
    let limit = if x.ephemeral then completed_tombstone_ttl else ttl in
    not (eqb x.updated_at 0) && (ltb 0 limit && ltb (x.updated_at + limit) now)

module _ (p : Platform) where
  open p use {sha256}

  -- `completedToolPointerPaths`
  unfoldable pub completed_pointer_name : Text → Text → Text
  unfolding trim_space
  completed_pointer_name fingerprint id =
      sha256 (trim_space fingerprint ++ (0 ∷ (text "completed-tool" ++ (0 ∷ trim_space id))))

  -- The removal of a completed snapshot, with the pointers of its batch.
  unfoldable pub remove_tombstone : Text → CompletedTombstone → Store → Store
  unfolding delete remove_pointers completed_pointer_name normalize_tool_ids trim_space
  remove_tombstone name x s =
      let ids = normalize_tool_ids x.batch_ids in
      record s {
        completed = delete name s.completed;
        completed_pointers =
            (if trim_space x.follow_up_text == []
              then remove_pointers (completed_pointer_name x.credential_fingerprint)
                  x.credential_fingerprint ids ids s.completed_pointers
              else s.completed_pointers);
      }

  -- The loop of `pruneExpiredCompleted`.
  unfoldable pub prune_tombstones : ℕ → List Text → M (Unit {0})
  unfolding read_tombstone tombstone_expired remove_tombstone
  prune_tombstones now [] s = (s, ok tt)
  prune_tombstones now (name ∷ names) s = elim (read_tombstone name s) [
    | err not_exist ↦ prune_tombstones now names s
    | err e ↦ (s, err e)
    | ok x ↦
        prune_tombstones now names
          (if tombstone_expired x now s.ttl then remove_tombstone name x s else s)
  ]

  -- `pruneExpiredCompleted`: not within an interval of the last collection, unless forced.
  unfoldable pub prune_completed : Bool → ℕ → M (Unit {0})
  unfolding prune_tombstones
  prune_completed force now s =
      if not force && (not (eqb s.last_gc 0) && ltb (now - s.last_gc) state_gc_interval)
      then (s, ok tt)
      else prune_tombstones now (map (λ f. f.0) s.completed) s

  -- The removal of one expired state, under its lock.
  unfoldable pub prune_state : ℕ → Text → M (Unit {0})
  unfolding read_state state_expired with_lease remove_state lock_held
  prune_state now name s = elim (read_state p name s) [
    | err e ↦ (s, err e)
    | ok x ↦
        if not (state_expired x now s.ttl) || lock_held name s.locks
        then (s, ok tt)
        else with_lease name (remove_state p x name now) s
  ]

  unfoldable pub prune_states : ℕ → List Text → M (Unit {0})
  unfolding prune_state
  prune_states now [] = done tt
  prune_states now (name ∷ names) = prune_state now name >> prune_states now names

  -- `pruneExpired`, at most once in an interval.
  unfoldable pub prune_expired : Bool → ℕ → M (Unit {0})
  unfolding prune_states prune_tombstones
  prune_expired force now s =
      if eqb s.ttl 0
        || (not force && (not (eqb s.last_gc 0) && ltb (now - s.last_gc) state_gc_interval))
      then (s, ok tt)
      else (prune_states now (map (λ f. f.0) s.states) >> (λ t.
            prune_tombstones now (map (λ f. f.0) t.completed) (record t { last_gc = now })))
          s
