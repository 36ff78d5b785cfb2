-- ===== src/Store/Tests.antt =====
-- Runs of the store of cursoragentv1/state.go on concrete sessions, with names for SHA-256 digests
-- that are the texts themselves.
pub mod Replay
pub mod Completion
use cursor_agent2api.Base.{
  ℕ, length, ◌≡◌, ◌≢◌, Text-discrete, refl, true, false, List, [], ◌∷◌, some, Text, text,
  trim_space, arith,
}
use cursor_agent2api.Ids.{ok, err, retired_owner, PendingTool}
use cursor_agent2api.Store.{
  Store, Platform, StateSnapshot, OwnerLease, write_state, runtime_agent_v1, handle_live,
  owner_matches, release, max_state_file_size, fits,
}
use cursor_agent2api.Store.Directory.{lookup}
use cursor_agent2api.Store.Index.{state_name}
use cursor_agent2api.Store.Mutation.{clone_snapshot, set_follow_up}
use cursor_agent2api.Store.Update.{update, delete_state}
use cursor_agent2api.Store.Claim.{ClaimOptions, Fresh, granted, empty_snapshot}
use cursor_agent2api.Store.Claim.Run.{claim, claim_session}
use cursor_agent2api.Store.Owner.{IsOwner}
use cursor_agent2api.Store.Fencing.{release-retires, IsRefused, claim-fences, claim-owner_updates}
use cursor_agent2api.Store.Credential.{claim-cold_rebuild, IsRebuilt}
use cursor_agent2api.Store.Pending.{pending_tool_ids-fixed}
use cursor_agent2api.Store.Reach.{starts, goes, claims, holds, Run-exclusive}

abbrev pub plain : Platform
plain = record {
  sha256 = λ t. t;
  canonical_schema = λ t. some t;
  state_size = λ x. length x.checkpoint;
}

abbrev options : ClaimOptions
options = record {
  runtime_profile = [];
  history_request_key = [];
  allow_pending = false;
  require_existing = false;
  allow_credential_change = true;
  tool_catalog_digest = [];
  tool_catalog = [];
  require_tool_catalog = false;
  new_billing_run_id = text "run";
  reuse_billing_run = false;
}

abbrev at_ten : Fresh
at_ten = record { now = 10; token = text "token-2"; billing = text "billing-2" }

-- The snapshot of a session that another credential left behind.
abbrev left_behind : StateSnapshot
left_behind = record (empty_snapshot (text "session") (text "talk-1")) {
  runtime_profile = runtime_agent_v1;
  credential_fingerprint = text "key-1";
  owner_generation = 4;
  owner_token = text "token-1";
  checkpoint = 7 ∷ 8 ∷ [];
  blobs = (text "blob", 9 ∷ []) ∷ [];
  updated_at = 5;
}

abbrev old_owner : OwnerLease
old_owner = record {
  request_segment_id = [];
  session_id = text "session";
  generation = 4;
  token = text "token-1";
  credential_hash = text "key-1";
  conversation_id = text "talk-1";
  billing_run_id = [];
  handle = some 2;
}

abbrev before_claim : Store
before_claim = record {
  states = (text "session", left_behind) ∷ [];
  pending_index = [];
  pointers = [];
  completed = [];
  completed_pointers = [];
  locks = record { handle = 2; name = text "other" } ∷ [];
  next_handle = 3;
  max_files = 4;
  ttl = 1000;
  last_gc = 1;
}

abbrev pub new_snapshot : StateSnapshot
new_snapshot = record (empty_snapshot (text "session") (text "talk-2")) {
  runtime_profile = runtime_agent_v1;
  credential_fingerprint = text "key-2";
  billing_run_id = text "run";
  owner_generation = 5;
  owner_token = text "token-2";
  updated_at = 10;
}

abbrev pub new_owner : OwnerLease
new_owner = record {
  request_segment_id = [];
  session_id = text "session";
  generation = 5;
  token = text "token-2";
  credential_hash = text "key-2";
  conversation_id = text "talk-2";
  billing_run_id = text "run";
  handle = some 3;
}

claim_succeeds :
    (claim plain (text " session") (text "talk-2") (text "key-2") options at_ten before_claim).1
    ≡ ok (granted new_owner new_snapshot true)
unfolding claim Text-discrete
claim_succeeds = refl

abbrev after_claim : Store
after_claim =
    (claim plain (text " session") (text "talk-2") (text "key-2") options at_ten before_claim).0

tokens_differ : text "token-2" ≢ text "token-1"
tokens_differ = ground arith

trimmed_session : text "session" ≡ trim_space (text " session")
unfolding trim_space
trimmed_session = refl

token_filled : trim_space (text "token-2") ≢ []
unfolding trim_space
token_filled = ground arith

new_stored : lookup (state_name plain (text "session")) after_claim.states ≡ some new_snapshot
unfolding claim lookup Text-discrete
new_stored = refl

claim-fences_example :
    (x : StateSnapshot) × (lookup
        (state_name plain (trim_space (text " session")))
        after_claim.states
      ≡ some x)
    × IsRefused plain x after_claim
        (update plain old_owner (set_follow_up (text "late")) 11 after_claim)
claim-fences_example =
    claim-fences plain (text " session") (text "talk-2") (text "key-2") options at_ten before_claim
      new_owner new_snapshot true old_owner (set_follow_up (text "late")) 11 claim_succeeds
      trimmed_session tokens_differ

claim-owner_updates_example :
    (new_snapshot ≡ clone_snapshot new_snapshot)
    × (update plain new_owner (set_follow_up (text "more")) 11 after_claim ≡ (
      write_state
          (text "session")
          (record new_snapshot { follow_up_text = text "more"; updated_at = 11 })
          after_claim,
      ok new_snapshot,
    ))
unfolding state_name trim_space set_follow_up
claim-owner_updates_example =
    claim-owner_updates plain (text " session") (text "talk-2") (text "key-2") options at_ten
      before_claim new_owner new_snapshot new_snapshot
      (record new_snapshot { follow_up_text = text "more" }) true (set_follow_up (text "more")) 11
      claim_succeeds new_stored refl token_filled refl

claim-cold_rebuild_example :
    (true ≡ true) × IsRebuilt (trim_space (text "talk-2")) (trim_space (text "key-2")) new_snapshot
claim-cold_rebuild_example =
    claim-cold_rebuild plain (text " session") (text "talk-2") (text "key-2") options at_ten
      before_claim new_owner new_snapshot claim_succeeds

abbrev after_session : Store
after_session =
    (claim_session plain (text "session") (text "talk-2") (text "key-2") options at_ten
      before_claim).0

release-retires_example :
    let t = release new_owner after_session in
    (update plain new_owner (set_follow_up (text "late")) 12 t ≡ (t, err retired_owner))
    × (delete_state plain new_owner 12 t ≡ (t, err retired_owner))
release-retires_example =
    release-retires plain new_owner (set_follow_up (text "late")) 12 after_session

abbrev unlocked : Store
unlocked = record before_claim { locks = [] }

abbrev granted_handle : ℕ
granted_handle = 3

Run-exclusive_example : granted_handle ≡ 3
unfolding holds claim Text-discrete
Run-exclusive_example =
    Run-exclusive plain unlocked
      (claim plain (text "session") (text "talk-2") (text "key-2") options at_ten unlocked).0
      (goes starts (claims (text "session") (text "talk-2") (text "key-2") options at_ten unlocked))
      refl (text "session") granted_handle 3 refl refl

abbrev tool : Text → PendingTool
tool id = record {
  message_id = 1;
  exec_id = text "exec";
  tool_call_id = id;
  upstream_tool_call_id = [];
  name = text "read";
  arguments = text "{}";
}

abbrev two_tools : List PendingTool
two_tools = tool (text "b") ∷ tool (text " a ") ∷ []

abbrev pub owned_store : Store
owned_store = record before_claim {
  states = (text "session", new_snapshot) ∷ [];
  locks = record { handle = 3; name = text "session" } ∷ [];
  next_handle = 4;
}

pub owned_store-IsOwner : IsOwner plain new_owner new_snapshot owned_store
unfolding state_name lookup owner_matches trim_space Text-discrete handle_live
owned_store-IsOwner = (refl, refl, refl, refl, ground arith, ground arith, refl)
