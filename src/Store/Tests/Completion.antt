-- ===== src/Store/Tests/Completion.antt =====
-- Finished runs of cursoragentv1/completed_state.go and cursoragentv1/completed_request.go on
-- concrete sessions: saved, looked up and replayed.
use cursor_agent2api.Base.{
  ◌≡◌, ◌≤◌, refl, false, List, [], ◌∷◌, none, text, Text-discrete, arith, trim_space,
}
use cursor_agent2api.Types.{Event, ToolResult, text_event}
use cursor_agent2api.Ids.{ok, err, not_exist, canonical_tool_results}
use cursor_agent2api.Snapshot.{persist_events}
use cursor_agent2api.Snapshot.Tests.{sizes, event}
use cursor_agent2api.Store.{Store, release}
use cursor_agent2api.Store.Index.{Names-discrete}
use cursor_agent2api.Store.Tombstone.{CompletedTombstone, events_from_persisted}
use cursor_agent2api.Store.Prune.{read_tombstone, tombstone_expired, prune_completed}
use cursor_agent2api.Store.Completed.{name_of, completed_name, write_completed_tombstone}
use cursor_agent2api.Store.Claim.{ClaimOptions, Fresh}
use cursor_agent2api.Store.Covering.{
  Found, choose, replay_of, lookup_completed, lookup_completed_tombstone,
}
use cursor_agent2api.Store.Covering.Newest.{IsIn, choose-newest}
use cursor_agent2api.Store.Covering.Rounds.{IsGiven}
use cursor_agent2api.Store.Covering.Sound.{lookup_completed_sound}
use cursor_agent2api.Store.Save.{save_history, save_completed}
use cursor_agent2api.Store.Completion.{completion, lookup-save_completed}
use cursor_agent2api.Store.Tests.{
  plain, options, at_ten, new_owner, new_snapshot, owned_store, owned_store-IsOwner,
}
use cursor_agent2api.Store.Tests.Replay.{snapshot, three_results, both_results, written}

-- Two snapshots of one session; the second is newer.
abbrev newer : CompletedTombstone
newer = record (snapshot (text "run")) { updated_at = 12 }

abbrev two_found : Found
two_found = record { seen = []; conflict = false; matches = snapshot (text "run") ∷ newer ∷ [] }

chosen : choose two_found ≡ ok newer
unfolding choose Text-discrete
chosen = refl

choose-newest_example :
    (two_found.conflict ≡ false)
    × IsIn newer two_found.matches
    × ((z : CompletedTombstone)
        → IsIn z two_found.matches
        → (z.updated_at ≤ newer.updated_at) × (z.session_id ≡ newer.session_id))
choose-newest_example = choose-newest two_found newer chosen

looked_up :
    (lookup_completed_tombstone plain (text "key") three_results [] 20 written).1
    ≡ ok (snapshot (text "run"))
unfolding lookup_completed_tombstone write_completed_tombstone Text-discrete Names-discrete
looked_up = refl

lookup_completed_sound_example :
    IsGiven plain (text "key") three_results [] 20 written (snapshot (text "run"))
lookup_completed_sound_example =
    lookup_completed_sound plain (text "key") three_results [] 20 written (snapshot (text "run"))
      looked_up

abbrev answer : List Event
answer = event text_event (text "done") 0 none ∷ []

answer-persisted : persist_events sizes answer ≡ ok answer
unfolding persist_events Text-discrete
answer-persisted = refl

answer-typed : events_from_persisted answer ≡ ok answer
unfolding events_from_persisted
answer-typed = refl

abbrev keyed : ClaimOptions
keyed = record options { history_request_key = text "request" }

abbrev at_twenty : Fresh
at_twenty = record at_ten { now = 20 }

abbrev after_history : Store
after_history =
    release new_owner (save_history plain sizes new_owner (text "request") answer 11 owned_store).0

abbrev submitted : List ToolResult
submitted =
    record { tool_call_id = text " b"; content = text "2"; is_error = false; media = [] }
    ∷ record { tool_call_id = text "a"; content = text "1"; is_error = false; media = [] }
    ∷ []

submitted-accepted : canonical_tool_results submitted ≡ ok both_results
unfolding canonical_tool_results Text-discrete
submitted-accepted = refl

-- The same results in another order.
abbrev reordered : List ToolResult
reordered =
    record { tool_call_id = text "a "; content = text "1"; is_error = false; media = [] }
    ∷ record { tool_call_id = text "b"; content = text "2"; is_error = false; media = [] }
    ∷ []

reordered-accepted : canonical_tool_results reordered ≡ ok both_results
unfolding canonical_tool_results Text-discrete
reordered-accepted = refl

abbrev left : CompletedTombstone
left = completion plain new_owner both_results answer false (text "go on") 11 new_snapshot

no_completed : read_tombstone (name_of plain left) owned_store ≡ err not_exist
unfolding read_tombstone completed_name
no_completed = refl

completed_alive : tombstone_expired left 20 1000 ≡ false
unfolding tombstone_expired
completed_alive = refl

completed_pruned :
    (prune_completed plain false 20
      (save_completed plain sizes new_owner submitted answer false
        (text "go on")
        11
        owned_store).0).1
    ≡ ok tt
unfolding prune_completed save_completed Text-discrete
completed_pruned = refl

trimmed_key : trim_space (text "key-2") ≡ text "key-2"
unfolding trim_space
trimmed_key = refl

lookup-save_completed_example :
    let r =
      save_completed plain sizes new_owner submitted answer false (text "go on") 11 owned_store in
    (r.1 ≡ ok tt)
    × ((lookup_completed plain (text "key-2") reordered (text "go on") 20 r.0).1
        ≡ ok (replay_of left))
lookup-save_completed_example =
    lookup-save_completed plain new_owner sizes submitted answer answer both_results false
      (text "go on") 11 owned_store new_snapshot 20 reordered owned_store-IsOwner submitted-accepted
      reordered-accepted answer-persisted answer-typed no_completed trimmed_key (ground arith)
      completed_alive completed_pruned
