-- ===== src/Store/Claim.antt =====
-- `Claim` of cursoragentv1/state.go: a request takes over a session.
pub mod Catalog
pub mod Run
use Prim.Native.Nat.{◌%◌}
use cursor_agent2api.Base.{
  ℕ, suc, ◌+◌, ◌^◌, Bool, true, false, not, ◌&&◌, ◌||◌, List, [], ◌∷◌, ◌++◌, Option, none, some,
  ltb, eqb, if◌then◌else◌, Text, text, ◌==◌, trim_space, has_prefix,
}
use cursor_agent2api.Types.{ToolDefinition}
use cursor_agent2api.Ids.{
  Error, Result, ok, err, not_exist, state_pending, session_not_pending, credential_mismatch,
  failed, is_empty, normalize_tool_ids, PendingTool,
}
use cursor_agent2api.Store.{
  Store, Platform, StateSnapshot, OwnerLease, M, ◌>>=◌, ◌>>◌, done, fail, lift, read_state,
  write_state, state_expired, state_version, runtime_agent_v1, runtime_sand, acquire_lease,
  release_handle, lock_held,
}
use cursor_agent2api.Store.Directory.{delete, Files}
use cursor_agent2api.Store.Index.{state_name, sync_pending_index, names_equal}
use cursor_agent2api.Store.Tombstone.{CompletedReplay}

pub record ClaimOptions : Type 0 where
  pub runtime_profile : Text
  pub history_request_key : Text
  pub allow_pending : Bool
  pub require_existing : Bool
  pub allow_credential_change : Bool
  pub tool_catalog_digest : Text
  pub tool_catalog : List ToolDefinition
  pub require_tool_catalog : Bool
  pub new_billing_run_id : Text
  pub reuse_billing_run : Bool

-- What a claim takes from outside: the time, and the results of `uuid.NewString`.
pub record Fresh : Type 0 where
  pub now : ℕ
  pub token : Text
  pub billing : Text

-- A claim owns the session, or finds the replay of a full-history request.
pub data ClaimResult : Type 0 where
  granted : OwnerLease → StateSnapshot → Bool → ClaimResult
  replayed : CompletedReplay → ClaimResult

-- `isMeteredTurn` of cursoragentv1/segment.go
unfoldable pub is_metered_turn : Text → Bool
unfolding has_prefix
is_metered_turn id = has_prefix (text "turn2:") id

-- A snapshot before anything was saved.
abbrev pub empty_snapshot : Text → Text → StateSnapshot
empty_snapshot session conversation = record {
  version = state_version;
  runtime_profile = [];
  session_id = session;
  conversation_id = conversation;
  credential_fingerprint = [];
  tool_catalog_digest = [];
  tool_catalog = [];
  billing_run_id = [];
  usage_carry = [];
  owner_generation = 0;
  owner_token = [];
  checkpoint = [];
  blobs = [];
  pending_tools = [];
  pending_batch_ids = [];
  follow_up_text = [];
  ephemeral_complete = false;
  completed_at = 0;
  updated_at = 0;
}

-- `strings.EqualFold` against "sand": the ASCII letters, and the long s of two bytes, which folds
-- to an s as well.
abbrev pub fold_byte : ℕ → ℕ
fold_byte c = if ltb 64 c && ltb c 91 then c + 32 else c

unfoldable pub fold : Text → Text
fold [] = []
fold (c ∷ []) = fold_byte c ∷ []
fold (c ∷ d ∷ cs) =
    let rest = fold (d ∷ cs) in
    let long = fold cs in if eqb c 0xc5 && eqb d 0xbf then b's' ∷ long else fold_byte c ∷ rest

-- `normalizeRuntimeProfile` of cursoragentv1/profile_runner.go
unfoldable pub normalize_runtime_profile : Text → Text
unfolding trim_space fold
normalize_runtime_profile profile =
    if fold (trim_space profile) == runtime_sand then runtime_sand else runtime_agent_v1

-- The snapshot with its runtime profile filled in; a new one takes the profile asked for.
unfoldable pub with_profile : Bool → Text → StateSnapshot → StateSnapshot
unfolding normalize_runtime_profile trim_space
with_profile created profile x =
    if trim_space x.runtime_profile == []
    then record x {
      runtime_profile = if created then normalize_runtime_profile profile else runtime_agent_v1;
    }
    else x

-- Whether the saved catalog does not serve a claim that requires it.
unfoldable pub catalog_mismatch : StateSnapshot → Text → Bool
catalog_mismatch x digest =
    (x.tool_catalog_digest == [])
    || (is_empty x.tool_catalog && (not (digest == []) && not (x.tool_catalog_digest == digest)))

-- Whether the snapshot belongs to another credential.
unfoldable pub is_cold : StateSnapshot → Text → Bool
is_cold x fingerprint =
    not (x.credential_fingerprint == []) && not (x.credential_fingerprint == fingerprint)

-- What a full-history request resets.
unfoldable pub reset_history : Bool → Text → StateSnapshot → StateSnapshot
reset_history false conversation x = x
reset_history true conversation x = record x {
  checkpoint = [];
  blobs = [];
  pending_tools = [];
  pending_batch_ids = [];
  conversation_id = conversation;
  ephemeral_complete = false;
  completed_at = 0;
}

-- What a claim by another credential resets.
unfoldable pub reset_cold : Bool → Text → StateSnapshot → StateSnapshot
reset_cold false conversation x = x
reset_cold true conversation x = record x {
  checkpoint = [];
  blobs = [];
  pending_tools = [];
  pending_batch_ids = [];
  tool_catalog = [];
  billing_run_id = [];
  conversation_id = conversation;
}

abbrev pub or_fresh : Text → Text → Text
or_fresh id fresh = if id == [] then fresh else id

unfoldable pub set_billing : ClaimOptions → Text → StateSnapshot → StateSnapshot
unfolding is_metered_turn trim_space
set_billing o fresh x =
    if o.reuse_billing_run || (o.allow_pending && is_metered_turn x.billing_run_id)
    then (if trim_space x.billing_run_id == [] then record x { billing_run_id = fresh } else x)
    else record x {
      usage_carry = [];
      billing_run_id = or_fresh (trim_space o.new_billing_run_id) fresh;
    }

unfoldable pub set_catalog :
    ClaimOptions → Text → List ToolDefinition → StateSnapshot → StateSnapshot
set_catalog o digest catalog x =
    if not o.require_tool_catalog && is_empty x.pending_tools
    then record x { tool_catalog_digest = digest; tool_catalog = catalog }
    else x

-- The last assignments: a new generation, which is a uint64, and a new token.
unfoldable pub take_over : Text → Text → Text → Fresh → StateSnapshot → StateSnapshot
take_over session conversation fingerprint f x = record x {
  version = state_version;
  session_id = session;
  conversation_id = or_fresh x.conversation_id conversation;
  credential_fingerprint = fingerprint;
  owner_generation = (x.owner_generation + 1) % 2 ^ 64;
  owner_token = f.token;
  updated_at = f.now;
}
