-- ===== src/Store/Frame.antt =====
-- What the operations on the pending index of cursoragentv1/state.go leave alone.
use cursor_agent2api.Base.{ℕ, ◌≡◌, Bool, true, false, List, [], Text, arith}
use cursor_agent2api.Ids.{normalize_tool_ids}
use cursor_agent2api.Store.{Store, Platform, StateSnapshot}
use cursor_agent2api.Store.Index.{mutate_pending_index, sync_pending_index}
use cursor_agent2api.Store.Update.{remove_state}
use cursor_agent2api.Store.Directory.{delete}

-- Two stores with the same states, locks and lifetime.
abbrev pub SameStates : Store → Store → Type 0
SameStates s t =
    (t.states ≡ s.states) × (t.locks ≡ s.locks) × (t.next_handle ≡ s.next_handle) × (t.ttl ≡ s.ttl)

module _ (p : Platform) where
  pub mutate_pending_index-same :
      (fingerprint : Text) (batch : List Text) (session : Text) (add : Bool) (now : ℕ) (s : Store)
      → SameStates s (mutate_pending_index p fingerprint batch session add now s).0
  unfolding mutate_pending_index
  mutate_pending_index-same fingerprint batch session add now s = ground arith

  pub sync_pending_index-same :
      (fingerprint session : Text) (previous next : List Text) (now : ℕ) (s : Store)
      → SameStates s (sync_pending_index p fingerprint session previous next now s).0
  unfolding sync_pending_index
  sync_pending_index-same fingerprint session previous next now s =
      let old = normalize_tool_ids previous in
      let new = normalize_tool_ids next in
      ground (
        arith,
        mutate_pending_index-same fingerprint old session false now s,
        mutate_pending_index-same fingerprint new session true now s,
        mutate_pending_index-same fingerprint new session true now
            (mutate_pending_index p fingerprint old session false now s).0,
      )

  pub remove_state-same :
      (x : StateSnapshot) (name : Text) (now : ℕ) (s : Store)
      → SameStates (record s { states = delete name s.states }) (remove_state p x name now s).0
  unfolding remove_state
  remove_state-same x name now s =
      sync_pending_index-same x.credential_fingerprint x.session_id x.pending_batch_ids [] now
        (record s { states = delete name s.states })
