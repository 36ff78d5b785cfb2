-- ===== src/Types.antt =====
-- The data that the components share: cursoragentv1/runner.go, cursoragentv1/media.go,
-- cursoragentv1/usage_observation.go and the records of cursoragentv1/state.go.
use cursor_agent2api.Base.{ℕ, ℤ, Bool, List, Option, Text}

pub record MediaPart : Type 0 where
  pub kind : Text
  pub mime_type : Text
  pub content : Text
  pub filename : Text

pub record ToolDefinition : Type 0 where
  pub name : Text
  pub description : Text
  pub input_schema : Text

pub record ToolCall : Type 0 where
  pub message_id : ℕ
  pub exec_id : Text
  pub tool_call_id : Text
  pub name : Text
  pub arguments : Text

pub record ToolResult : Type 0 where
  pub tool_call_id : Text
  pub content : Text
  pub is_error : Bool
  pub media : List MediaPart

pub data UsageKind : Type 0 where
  unknown token_delta turn_ended : UsageKind

-- Whether the counter was on the wire, whether it was malformed, and its int64.
pub record ObservedCount : Type 0 where
  pub present : Bool
  pub malformed : Bool
  pub value : ℤ

pub record UsageObservation : Type 0 where
  pub carried : Bool
  pub kind : UsageKind
  pub token_delta : ObservedCount
  pub input : ObservedCount
  pub output : ObservedCount
  pub cache_read : ObservedCount
  pub cache_write : ObservedCount
  pub reasoning : ObservedCount

pub record HostedSearchReference : Type 0 where
  pub title : Text
  pub url : Text
  pub chunk : Text

pub record HostedSearch : Type 0 where
  pub call_id : Text
  pub kind : Text
  pub query : Text
  pub url : Text
  pub args_json : Text
  pub references : List HostedSearchReference
  pub content : Text
  pub error : Text

-- `EventType`, with its zero value `none`.
pub data EventType : Type 0 where
  no_type text_event thinking usage checkpoint tool_call tool_result_accepted : EventType
  turn_ended_event hosted_search_call done hosted_search_started : EventType
  hosted_search_completed thinking_completed usage_observation : EventType

-- A blob store: `map[string][]byte` as its pairs.
abbrev pub Blobs : Type 0
Blobs = List (Text × List ℕ)

pub record Event : Type 0 where
  pub type : EventType
  pub text : Text
  pub signature : Text
  pub progress_events : ℕ
  pub tokens : ℤ
  pub usage : Option UsageObservation
  pub checkpoint : List ℕ
  pub blobs : Blobs
  pub tool_call : Option ToolCall
  pub tool_result : Option ToolResult
  pub hosted_search : Option HostedSearch

-- `cloneEvent`: what a kept copy of an event drops. The other fields are copied, and values here
-- share nothing.
unfoldable pub clone_event : Event → Event
clone_event e = record e { checkpoint = List.[]; blobs = List.[] }
