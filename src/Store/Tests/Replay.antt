-- ===== src/Store/Tests/Replay.antt =====
-- A completed snapshot of cursoragentv1/completed_state.go, written and given back.
use cursor_agent2api.Base.{
  ◌≡◌, ◌≢◌, refl, true, false, List, [], ◌∷◌, some, Text, text, Text-discrete, arith,
}
use cursor_agent2api.Ids.{
  ok, err, not_exist, tool_result_conflict, CompletedToolResult, normalize_tool_ids,
  completed_results_for_batch,
}
use cursor_agent2api.Store.{Store, state_version}
use cursor_agent2api.Store.Index.{Names-discrete}
use cursor_agent2api.Store.Tombstone.{CompletedTombstone}
use cursor_agent2api.Store.Prune.{read_tombstone, tombstone_expired}
use cursor_agent2api.Store.Completed.{
  tool_result_digest, completed_name, name_of, keep_first, write_completed_tombstone,
  match_completed_tombstone,
}
use cursor_agent2api.Store.Match.{Matches, match_completed_tombstone_sound}
use cursor_agent2api.Store.Replay.{match-write_completed_tombstone}
use cursor_agent2api.Store.Twice.{
  IsSecond, IsMerged, merged, write-write_conflict, match-write_write,
}
use cursor_agent2api.Store.Tests.{plain, before_claim}

abbrev pub result : Text → Text → CompletedToolResult
result id content = record { tool_call_id = id; content = content; is_error = false; media = [] }

abbrev pub batch : List Text
batch = text "a" ∷ text "b" ∷ []

abbrev pub both_results : List CompletedToolResult
both_results = result (text "a") (text "1") ∷ result (text "b") (text "2") ∷ []

abbrev pub three_results : List CompletedToolResult
three_results =
    result (text "a") (text "1") ∷ result (text "b") (text "2") ∷ result (text "c") [] ∷ []

abbrev pub snapshot : Text → CompletedTombstone
snapshot run = record {
  request_key = [];
  request_segment_id = text "segment";
  version = state_version;
  credential_fingerprint = text "key";
  batch_ids = batch;
  result_digest = tool_result_digest plain both_results;
  results = both_results;
  events = [];
  billing_run_id = run;
  session_id = text "session";
  conversation_id = text "talk";
  has_pending = false;
  follow_up_text = [];
  ephemeral = true;
  updated_at = 10;
}

absent : read_tombstone (name_of plain (snapshot (text "run"))) before_claim ≡ err not_exist
unfolding read_tombstone completed_name Text-discrete
absent = refl

batch-fixed : normalize_tool_ids batch ≡ batch
unfolding normalize_tool_ids Text-discrete
batch-fixed = refl

alive : tombstone_expired (snapshot (text "run")) 20 1000 ≡ false
unfolding tombstone_expired
alive = refl

covered : completed_results_for_batch three_results batch ≡ some both_results
unfolding completed_results_for_batch Text-discrete
covered = refl

abbrev pub written : Store
written = (write_completed_tombstone plain (snapshot (text "run")) 10 before_claim).0

match-write_completed_tombstone_example :
    match_completed_tombstone plain (text "key") batch three_results [] 20 written
    ≡ (written, ok (snapshot (text "run")))
match-write_completed_tombstone_example =
    match-write_completed_tombstone plain (snapshot (text "run")) 10 20 before_claim three_results
      both_results absent batch-fixed alive covered refl

-- Another run of the same batch and results that ended later, with tool calls to wait for.
abbrev second : CompletedTombstone
second = record (snapshot (text "again")) { has_pending = true; updated_at = 15 }

second-IsSecond : IsSecond (snapshot (text "run")) second
second-IsSecond = (refl, refl, refl)

merged-alive : tombstone_expired (merged (snapshot (text "run")) second) 20 1000 ≡ false
unfolding tombstone_expired keep_first
merged-alive = refl

match-write_write_example :
    let r = write_completed_tombstone plain second 15 written in
    (r.1 ≡ ok tt)
    × ((y : CompletedTombstone) × (match_completed_tombstone plain
            (text "key")
            batch
            three_results
            []
            20
            r.0
          ≡ (r.0, ok y))
        × IsMerged (snapshot (text "run")) second y)
match-write_write_example =
    match-write_write plain (snapshot (text "run")) second 10 15 20 before_claim three_results
      both_results absent batch-fixed second-IsSecond refl covered refl merged-alive

abbrev other_snapshot : CompletedTombstone
other_snapshot = record (snapshot (text "again")) { result_digest = text "sha256:other" }

other-IsSecond : IsSecond (snapshot (text "run")) other_snapshot
other-IsSecond = (refl, refl, refl)

digests_differ : tool_result_digest plain both_results ≢ text "sha256:other"
unfolding tool_result_digest
digests_differ = ground arith

write-write_conflict_example :
    write_completed_tombstone plain other_snapshot 15 written ≡ (written, err tool_result_conflict)
write-write_conflict_example =
    write-write_conflict plain (snapshot (text "run")) other_snapshot 10 15 before_claim absent
      batch-fixed other-IsSecond digests_differ

matched :
    (match_completed_tombstone plain (text "key") batch three_results [] 20 written).1
    ≡ ok (snapshot (text "run"))
unfolding match_completed_tombstone write_completed_tombstone Text-discrete Names-discrete
matched = refl

match_completed_tombstone_sound_example :
    Matches plain (text "key") batch three_results [] 20 written (snapshot (text "run"))
match_completed_tombstone_sound_example =
    match_completed_tombstone_sound plain (text "key") batch three_results [] 20 written
      (snapshot (text "run")) matched
