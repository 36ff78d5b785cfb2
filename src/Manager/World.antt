-- ===== src/Manager/World.antt =====
-- The state of a process: the `SessionManager` of cursoragentv1/manager.go with the sessions, outputs
-- and flights that it points to. What Go shares by pointer stands at an address.
use cursor_agent2api.Base.{ℕ, ℤ, Bool, true, false, List, Option, eqb, if◌then◌else◌, Text}
use cursor_agent2api.Types.{Event, ToolResult, ToolDefinition, Blobs}
use cursor_agent2api.Ids.{Error, Result, ok, err}
use cursor_agent2api.Snapshot.{EventSnapshot}
use cursor_agent2api.Store.{Store, OwnerLease}
use cursor_agent2api.Store.Tombstone.{CompletedReplay}
use cursor_agent2api.Store.Directory.{Files}
use cursor_agent2api.Manager.Calls.{Pending}
use cursor_agent2api.Manager.Output.{Output}

-- `RunRequest` of cursoragentv1/runner.go, in the fields that the manager reads or sets; it hands
-- the others on to the runner as they are.
pub record RunRequest : Type 0 where
  pub runtime_profile : Text
  pub history_request_key : Text
  pub route_user_id : ℤ
  pub route_channel_id : ℤ
  pub conversation_id : Text
  pub user_text : Text
  pub tools : List ToolDefinition
  pub delete_completed_state : Bool
  pub follow_up_text : Text
  pub initial_checkpoint : List ℕ
  pub initial_blobs : Blobs
  pub resume : Bool

-- `managedSession`; `cancelled` says that its context was cancelled, and `tool_results` is the
-- buffered channel from which the runner takes them.
pub record Session : Type 0 where
  pub owner : OwnerLease
  pub request : RunRequest
  pub cancelled : Bool
  pub tool_results : List ToolResult
  pub output : Option ℕ
  pub pending : Pending
  pub state_err : Option Error
  pub closed : Bool
  pub capturing : Bool
  pub pending_batch : List Text
  pub segment_batch : List Text
  pub segment_results : List ToolResult
  pub segment_snapshot : EventSnapshot
  pub snapshot_follow_up : Text
  pub terminal_event : Option Event
  pub flight : Option ℕ
  pub flight_fingerprint : Text
  pub flight_batch : List Text
  pub pending_follow_up : Text
  pub billing_carry : List Event
  pub disable_caller_tools : Bool

-- `resumeFlight`
pub record Flight : Type 0 where
  pub key : Text
  pub digest : Text
  pub done : Bool
  pub replay : Option CompletedReplay
  pub err : Option Error

pub record World : Type 0 where
  pub store : Store
  pub active : Files ℕ
  pub starting : List Text
  pub flights : Files ℕ
  pub sessions : ℕ → Session
  pub outputs : ℕ → Output
  pub flight_at : ℕ → Flight
  pub next : ℕ  -- the next address that is not in use

-- What an operation takes from outside: the time, and the results of `uuid.NewString` for a routed
-- tool call, a conversation, an owner token, a billing run and a metered turn.
pub record Moment : Type 0 where
  pub now : ℕ
  pub call_id : Text
  pub conversation_id : Text
  pub owner_token : Text
  pub billing_id : Text
  pub turn_id : Text

-- An operation returns the new world, also with an error.
abbrev pub W : Type 0 → Type 0
W A = World → World × Result A

infixl 5 ◌>>=◌ ◌>>◌
abbrev pub ◌>>=◌ : {A B : Type 0} → W A → (A → W B) → W B
◌>>=◌ m f w = elim (m w).1 [ ok a ↦ f a (m w).0 | err e ↦ ((m w).0, err e) ]

abbrev pub ◌>>◌ : {B : Type 0} → W (Unit {0}) → W B → W B
m >> k = m >>= λ _. k

abbrev pub fail : {A : Type 0} → Error → W A
fail e w = (w, err e)

abbrev pub give : {A : Type 0} → A → W A
give a w = (w, ok a)

-- A check that returns early with an error.
abbrev pub require : Bool → Error → W (Unit {0})
require true e = give tt
require false e = fail e

abbrev pub at {ℓ} : {A : Type ℓ} → ℕ → A → (ℕ → A) → ℕ → A
at i new f j = if eqb i j then new else f j

abbrev pub put_session : ℕ → Session → World → World
put_session i s w = record w { sessions = at i s w.sessions }

abbrev pub put_output : ℕ → Output → World → World
put_output i o w = record w { outputs = at i o w.outputs }

abbrev pub put_store : Store → World → World
put_store s w = record w { store = s }

-- An operation of the store.
abbrev pub on_store : {A : Type 0} → (Store → Store × Result A) → W A
on_store m w = (put_store (m w.store).0 w, (m w.store).1)
