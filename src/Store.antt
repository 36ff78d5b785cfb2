-- ===== src/Store.antt =====
-- The state store of cursoragentv1/state.go: snapshots, leases and the errors that its operations
-- share. The operations are in the child modules.
pub mod Directory
pub mod Tombstone
pub mod Index
pub mod Mutation
pub mod Update
pub mod Prune
pub mod Claim
pub mod Resolve
pub mod Frame
pub mod Granted
pub mod Fencing
pub mod Origin
pub mod Credential
pub mod Pending
pub mod Owner
pub mod Waiting
pub mod Locks
pub mod Safe
pub mod Reach
pub mod Completed
pub mod Match
pub mod Covering
pub mod Save
pub mod History
pub mod Lookup
pub mod Completion
pub mod Replay
pub mod Twice
pub mod Tests
use Prim.Native.Nat.{◌*◌}
use cursor_agent2api.Base.{
  ℕ, ◌+◌, ◌^◌, Bool, true, false, not, ◌&&◌, ◌||◌, List, [], ◌∷◌, ◌++◌, Option, none, some, ltb,
  eqb, if◌then◌else◌, Text, text, ◌==◌, trim_space,
}
use cursor_agent2api.Types.{Event, Blobs, ToolDefinition}
use cursor_agent2api.Ids
use cursor_agent2api.Ids.{
  Error, Result, ok, err, state_lease_held, not_exist, retired_owner, failed, PendingTool,
  CompletedToolResult,
}
use Directory.{Files, lookup, insert, delete}
use Tombstone.{CompletedTombstone}

-- Instants and durations in nanoseconds; 0 is the zero `time.Time`.
abbrev pub default_state_ttl : ℕ
default_state_ttl = 30 * 24 * 3600 * 10 ^ 9

abbrev pub completed_tombstone_ttl : ℕ
completed_tombstone_ttl = 300 * 10 ^ 9

abbrev pub state_gc_interval : ℕ
state_gc_interval = 3600 * 10 ^ 9

abbrev pub state_version : ℕ
state_version = 2

-- 256 << 20
abbrev pub max_state_file_size : ℕ
max_state_file_size = 256 * 2 ^ 20

abbrev pub runtime_agent_v1 : Text
runtime_agent_v1 = text "agent_v1"

abbrev pub runtime_sand : Text
runtime_sand = text "sand"

pub record StateSnapshot : Type 0 where
  pub version : ℕ
  pub runtime_profile : Text
  pub session_id : Text
  pub conversation_id : Text
  pub credential_fingerprint : Text
  pub tool_catalog_digest : Text
  pub tool_catalog : List ToolDefinition
  pub billing_run_id : Text
  pub usage_carry : List Event
  pub owner_generation : ℕ
  pub owner_token : Text
  pub checkpoint : List ℕ
  pub blobs : Blobs
  pub pending_tools : List PendingTool
  pub pending_batch_ids : List Text
  pub follow_up_text : Text
  pub ephemeral_complete : Bool
  pub completed_at : ℕ
  pub updated_at : ℕ

pub record PendingIndex : Type 0 where
  pub version : ℕ
  pub credential_fingerprint : Text
  pub batch_ids : List Text
  pub session_ids : List Text
  pub updated_at : ℕ

pub record ToolBatchPointer : Type 0 where
  pub version : ℕ
  pub credential_fingerprint : Text
  pub tool_call_id : Text
  pub batch_ids : List Text
  pub updated_at : ℕ

-- The lease handle is shared by all copies of an owner, so it is a number; `none` is nil.
pub record OwnerLease : Type 0 where
  pub request_segment_id : Text
  pub session_id : Text
  pub generation : ℕ
  pub token : Text
  pub credential_hash : Text
  pub conversation_id : Text
  pub billing_run_id : Text
  pub handle : Option ℕ

-- A lock on a `.lock` file, from `acquireLease` to `releaseHandle`.
pub record Lock : Type 0 where
  pub handle : ℕ
  pub name : Text

-- The directories of a `FileStateStore`, by file name, with the locks that any process holds.
pub record Store : Type 0 where
  pub states : Files StateSnapshot
  pub pending_index : Files PendingIndex
  pub pointers : Files ToolBatchPointer
  pub completed : Files CompletedTombstone
  pub completed_pointers : Files ToolBatchPointer
  pub locks : List Lock
  pub next_handle : ℕ
  pub max_files : ℕ
  pub ttl : ℕ
  pub last_gc : ℕ

-- What is not in the repository: SHA-256 in hex, `json.Marshal` after `json.Unmarshal` of a schema
-- into an object (`none` if that fails, or gives nil), and the bytes of the JSON text of a state.
pub record Platform : Type 0 where
  pub sha256 : Text → Text
  pub canonical_schema : Text → Option Text
  pub state_size : StateSnapshot → ℕ

-- An operation returns the new store, also with an error.
abbrev pub M : Type 0 → Type 0
M A = Store → Store × Result A

infixl 5 ◌>>=◌ ◌>>◌
abbrev pub ◌>>=◌ : {A B : Type 0} → M A → (A → M B) → M B
◌>>=◌ m f s = elim (m s).1 [ ok a ↦ f a (m s).0 | err e ↦ ((m s).0, err e) ]

abbrev pub ◌>>◌ : {B : Type 0} → M (Unit {0}) → M B → M B
m >> k = m >>= λ _. k

abbrev pub done : {A : Type 0} → A → M A
done a s = (s, ok a)

abbrev pub fail : {A : Type 0} → Error → M A
fail e s = (s, err e)

abbrev pub lift : {A : Type 0} → Result A → M A
lift r s = (s, r)

unfoldable pub lock_held : Text → List Lock → Bool
lock_held name [] = false
lock_held name (l ∷ ls) = (l.name == name) || lock_held name ls

unfoldable pub handle_live : ℕ → List Lock → Bool
handle_live h [] = false
handle_live h (l ∷ ls) = eqb l.handle h || handle_live h ls

unfoldable pub drop_handle : ℕ → List Lock → List Lock
drop_handle h [] = []
drop_handle h (l ∷ ls) = let rest = drop_handle h ls in if eqb l.handle h then rest else l ∷ rest

-- `acquireLease`: an exclusive lock that does not wait.
unfoldable pub acquire_lease : Text → M ℕ
unfolding lock_held
acquire_lease name s = if lock_held name s.locks then (s, err state_lease_held) else (
  record s {
    locks = record { handle = s.next_handle; name = name } ∷ s.locks;
    next_handle = s.next_handle + 1;
  },
  ok s.next_handle,
)

-- `releaseHandle`, which does nothing the second time.
unfoldable pub release_handle : ℕ → Store → Store
unfolding drop_handle
release_handle h s = record s { locks = drop_handle h s.locks }

-- `(*FileStateStore).Release`
unfoldable pub release : OwnerLease → Store → Store
unfolding release_handle
release o s = elim o.handle [ none ↦ s | some h ↦ release_handle h s ]

unfoldable pub migrate_record_version : ℕ → Result ℕ
migrate_record_version v =
    if eqb v 1 || eqb v state_version then ok state_version else err (failed (text "version"))

-- Whether the file of a state can be read back.
abbrev pub fits : Platform → StateSnapshot → Bool
fits p x = not (ltb max_state_file_size (p.state_size x))

abbrev pub state_too_large : Error
state_too_large = failed (text "state exceeds the file size")

-- `readState`
unfoldable pub read_state : Platform → Text → Store → Result StateSnapshot
unfolding migrate_record_version lookup
read_state p name s = elim (lookup name s.states) [
  | none ↦ err not_exist
  | some x ↦
      if not (fits p x) then err state_too_large else elim (migrate_record_version x.version) [
        | err e ↦ err e
        | ok v ↦ ok (record x { version = v })
      ]
]

-- `writeStateAtomic`
unfoldable pub write_state : Text → StateSnapshot → Store → Store
unfolding insert
write_state name x s = record s { states = insert name x s.states }

unfoldable pub owner_matches : StateSnapshot → OwnerLease → Bool
owner_matches x o =
    (x.session_id == o.session_id)
    && (eqb x.owner_generation o.generation
        && ((x.owner_token == o.token)
            && ((x.credential_fingerprint == o.credential_hash)
                && (x.conversation_id == o.conversation_id))))

-- `stateExpired`
unfoldable pub state_expired : StateSnapshot → ℕ → ℕ → Bool
state_expired x now ttl =
    if eqb x.updated_at 0
    then false
    else if x.ephemeral_complete && Ids.is_empty x.pending_tools
    then ltb
        ((if eqb x.completed_at 0 then x.updated_at else x.completed_at) + completed_tombstone_ttl)
        now
    else ltb 0 ttl && ltb (x.updated_at + ttl) now
