-- ===== src/Store/Owner.antt =====
-- The owner of a session as cursoragentv1/state.go sees it, and what `update` does for it.
use cursor_agent2api.Base.{
  ℕ, ◌≡◌, ◌≢◌, Bool, true, false, List, [], Option, none, some, arith, trim_space,
}
use cursor_agent2api.Ids.{ok}
use cursor_agent2api.Store.{
  Store, Platform, Lock, StateSnapshot, OwnerLease, state_version, write_state, handle_live,
  owner_matches, read_state, fits, migrate_record_version,
}
use cursor_agent2api.Store.Directory.{lookup}
use cursor_agent2api.Store.Index.{state_name}
use cursor_agent2api.Store.Mutation.{Mutation}
use cursor_agent2api.Store.Update.{update, update_state, with_owner}

-- Whether the owner's lease is live.
abbrev pub is_live : Option ℕ → List Lock → Bool
is_live none locks = false
is_live (some h) locks = handle_live h locks

-- The owner holds its lease, and the snapshot of its session is `x`, which can be read.
abbrev pub IsOwner : Platform → OwnerLease → StateSnapshot → Store → Type 0
IsOwner p o x s =
    (is_live o.handle s.locks ≡ true)
    × (lookup (state_name p o.session_id) s.states ≡ some x)
    × (x.version ≡ state_version)
    × (owner_matches x o ≡ true)
    × (trim_space o.session_id ≢ [])
    × (trim_space o.token ≢ [])
    × (fits p x ≡ true)

pub update-IsOwner :
    (p : Platform) (o : OwnerLease) (mutate : Mutation) (now : ℕ) (s : Store) (x y : StateSnapshot)
    → IsOwner p o x s
    → mutate x ≡ ok y
    → update p o mutate now s
      ≡ (write_state (state_name p o.session_id) (record y { updated_at = now }) s, ok x)
unfolding update with_owner update_state read_state migrate_record_version
update-IsOwner p o mutate now s x y owns accepted = ground (arith, owns, accepted)
