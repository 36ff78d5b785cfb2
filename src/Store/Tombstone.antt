-- ===== src/Store/Tombstone.antt =====
-- The completed snapshots of cursoragentv1/completed_state.go, and what a replay takes from them.
use cursor_agent2api.Base.{ℕ, Bool, true, false, List, [], ◌∷◌, Text, text, if◌then◌else◌}
use cursor_agent2api.Types.{Event, EventType, no_type}
use cursor_agent2api.Ids.{Result, ok, err, failed, CompletedToolResult}

pub record CompletedTombstone : Type 0 where
  pub request_key : Text
  pub request_segment_id : Text
  pub version : ℕ
  pub credential_fingerprint : Text
  pub batch_ids : List Text
  pub result_digest : Text
  pub results : List CompletedToolResult
  pub events : List Event
  pub billing_run_id : Text
  pub session_id : Text
  pub conversation_id : Text
  pub has_pending : Bool
  pub follow_up_text : Text
  pub ephemeral : Bool
  pub updated_at : ℕ

pub record CompletedReplay : Type 0 where
  pub session_id : Text
  pub conversation_id : Text
  pub billing_run_id : Text
  pub request_segment_id : Text
  pub original_batch : List Text
  pub events : List Event
  pub has_pending : Bool
  pub follow_up_text : Text

abbrev pub has_type : EventType → Bool
has_type no_type = false
has_type _ = true

-- `eventsFromPersisted`, which refuses an event without a type.
unfoldable pub events_from_persisted : List Event → Result (List Event)
events_from_persisted [] = ok []
events_from_persisted (e ∷ es) =
    let rest = events_from_persisted es in
    if has_type e.type
    then elim rest [ ok events ↦ ok (e ∷ events) | err x ↦ err x ]
    else err (failed (text "completed snapshot event is invalid"))
