-- ===== src/Store/Waiting.antt =====
-- From `SavePending` to `ResolvePending`: cursoragentv1/state.go.
use cursor_agent2api.Base.{ℕ, List, [], ◌∷◌, Text}
use cursor_agent2api.Ids.{PendingTool, pending_tool_ids}
use cursor_agent2api.Store.{
  Store, Platform, StateSnapshot, migrate_record_version, state_version, migrate_record_version,
}
use cursor_agent2api.Store.Directory.{insert}
use cursor_agent2api.Store.Index.{pending_index_name, pointer_name, write_pointers}

-- The snapshot once the tools are pending.
abbrev pub waiting_for : StateSnapshot → List PendingTool → ℕ → StateSnapshot
waiting_for x pending now = record x {
  pending_tools = pending;
  pending_batch_ids = pending_tool_ids pending;
  updated_at = now;
}

module _ (p : Platform) where
  -- The store once a session waits alone for a batch.
  abbrev with_index : Text → List Text → Text → ℕ → Store → Store
  with_index fingerprint batch session now s = record s {
    pointers = write_pointers (pointer_name p fingerprint) fingerprint batch now batch s.pointers;
    pending_index =
        insert (pending_index_name p fingerprint batch)
          (record {
            version = state_version;
            credential_fingerprint = fingerprint;
            batch_ids = batch;
            session_ids = session ∷ [];
            updated_at = now;
          })
          s.pending_index;
  }
