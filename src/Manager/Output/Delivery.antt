-- ===== src/Manager/Output/Delivery.antt =====
-- What a client receives: the channel of a `managedOutput` of cursoragentv1/manager.go against a log
-- of the events that were accepted.
use cursor_agent2api.Base.{
  ◌≤◌, ◌≡◌, refl, ◌∙◌, true, List, [], ◌∷◌, ◌++◌, Option, none, some, length, length-append, arith,
}
use mathlib.Core.List.{append_assoc}
use cursor_agent2api.Types.{Event}
use cursor_agent2api.Ids.{Error}
use cursor_agent2api.Manager.Output.{Output, SendResult, send_ok, send, close, receive_event}

-- What the session and the client do with an output.
pub data Use : Type 0 where
  put : Event → Use
  shut : Option Error → Use
  take : Use

-- The output with the events that it accepted and those that it handed out, so far.
pub record Traffic : Type 0 where
  pub output : Output
  pub accepted : List Event
  pub handed : List Event

abbrev accept : SendResult → Event → List Event → List Event
accept send_ok e es = es ++ e ∷ []
accept _ e es = es

abbrev hand : Option Event → List Event → List Event
hand none es = es
hand (some e) es = es ++ e ∷ []

unfoldable pub use_output : Use → Traffic → Traffic
unfolding send close receive_event
use_output (put e) t =
    let (o, r) = send e t.output in record t { output = o; accepted = accept r e t.accepted }
use_output (shut e) t = record t { output = close e t.output }
use_output take t =
    let (o, r) = receive_event t.output in record t { output = o; handed = hand r t.handed }

unfoldable pub use_all : List Use → Traffic → Traffic
unfolding use_output
use_all [] t = t
use_all (u ∷ us) t = use_all us (use_output u t)

-- The client gets the accepted events in their order, each once: those it has and those that wait
-- for it are all that was accepted. No more than the capacity waits.
pub record IsFaithful (t : Traffic) : Type 0 where
  pub log : t.handed ++ t.output.buffered ≡ t.accepted
  pub bound : length t.output.buffered ≤ t.output.capacity

put-IsFaithful : (e : Event) (t : Traffic) → IsFaithful t → IsFaithful (use_output (put e) t)
unfolding use_output send
put-IsFaithful e t v = ground (
  arith,
  v.log,
  v.bound,
  length-append t.output.buffered (e ∷ []),
  append_assoc t.handed t.output.buffered (e ∷ []),
)

taken :
    (t : Traffic) (b : List Event)
    → t.output.buffered ≡ b
    → IsFaithful t
    → IsFaithful (use_output take t)
unfolding use_output receive_event
taken t [] e v = ground (arith, v.log, v.bound)
taken t (x ∷ b) e v = ground (arith, v.log, v.bound, append_assoc t.handed (x ∷ []) b)

use-IsFaithful : (u : Use) (t : Traffic) → IsFaithful t → IsFaithful (use_output u t)
unfolding use_output close
use-IsFaithful (put e) t v = put-IsFaithful e t v
use-IsFaithful (shut e) t v = ground (arith, v.log, v.bound)
use-IsFaithful take t v = taken t t.output.buffered refl v

-- The client receives the events that the output accepted, in their order and each once: those it
-- has and those that wait for it are all that was accepted, whatever the session and the client do
-- in whatever order. Never do more events wait than the capacity.
pub use_all-IsFaithful : (us : List Use) (t : Traffic) → IsFaithful t → IsFaithful (use_all us t)
unfolding use_all
use_all-IsFaithful [] t v = v
use_all-IsFaithful (u ∷ us) t v = use_all-IsFaithful us (use_output u t) (use-IsFaithful u t v)

use-closed :
    (u : Use) (t : Traffic)
    → t.output.closed ≡ true
    → ((use_output u t).output.closed ≡ true)
      × ((use_output u t).accepted ≡ t.accepted)
      × ((use_output u t).output.result ≡ t.output.result)
unfolding use_output send close receive_event
use-closed (put e) t h = ground (arith, h)
use-closed (shut e) t h = ground (arith, h)
use-closed take t h = ground (arith, h)

-- A closed output accepts nothing more and keeps its result, whatever is done with it.
pub use_all-closed :
    (us : List Use) (t : Traffic)
    → t.output.closed ≡ true
    → ((use_all us t).accepted ≡ t.accepted) × ((use_all us t).output.result ≡ t.output.result)
unfolding use_all
use_all-closed [] t h = (refl, refl)
use_all-closed (u ∷ us) t h =
    let (still, same, result) = use-closed u t h in
    let (later, end) = use_all-closed us (use_output u t) still in (later ∙ same, end ∙ result)
