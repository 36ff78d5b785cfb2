-- ===== src/Manager/Flights/Run.antt =====
-- Flights over time: requests that begin, join and end flights of cursoragentv1/manager.go in any
-- order, with whatever else the process does between them.
use cursor_agent2api.Base.{
  ℕ, ◌<◌, ◌≤◌, ◌≡◌, ◌≢◌, ◌⊎◌, refl, true, false, List, Option, none, some, Text, ◌==◌, arith,
  if◌then◌else◌,
}
use cursor_agent2api.Ids.{Error, ok, err, tool_result_conflict}
use cursor_agent2api.Store.Tombstone.{CompletedReplay}
use cursor_agent2api.Store.Directory.{lookup, lookup-insert}
use cursor_agent2api.Manager.World.{Flight, World}
use cursor_agent2api.Manager.Flights.{
  resume_flight_key, begin_resume_flight, wait_resume_flight, land, end_resume_flight,
}
use cursor_agent2api.Manager.Flights.Single.{
  IsSound, begin-IsSound, end-IsSound, end-same, end-flights, land-parts,
}

-- What may happen: a request begins or joins a flight, a flight in use ends, or something that leaves
-- the flights alone.
pub data Step (w : World) : World → Type 0 where
  begins :
      (fingerprint : Text) (batch : List Text) (digest follow_up : Text)
      → Step w (begin_resume_flight fingerprint batch digest follow_up w).0
  ends :
      (fingerprint : Text) (batch : List Text) (a : ℕ) (replay : Option CompletedReplay)
      (e : Option Error)
      → a < w.next
      → Step w (end_resume_flight fingerprint batch a replay e w)
  elsewhere :
      (t : World) → t.flights ≡ w.flights → t.flight_at ≡ w.flight_at → w.next ≤ t.next → Step w t

pub data Run (w : World) : World → Type 0 where
  here : Run w w
  after : {t u : World} → Run w t → Step t u → Run w u

Step-IsSound : {w t : World} → Step w t → IsSound w → IsSound t
Step-IsSound (begins fingerprint batch digest follow_up) v =
    begin-IsSound fingerprint batch digest follow_up _ v
Step-IsSound (ends fingerprint batch a replay e used) v =
    end-IsSound fingerprint batch a replay e _ v
Step-IsSound (elsewhere t same cells more) v = record {
  keyed = λ k a h. ground (arith, same, cells, v.keyed k a);
  filled = λ k a h. ground (arith, same, cells, v.filled k a);
  under_way = λ k a h. ground (arith, same, cells, v.under_way k a);
  used = λ k a h. ground (arith, same, more, v.used k a);
}

pub Run-IsSound : {w t : World} → IsSound w → Run w t → IsSound t
Run-IsSound v here = v
Run-IsSound v (after r s) = Step-IsSound s (Run-IsSound v r)

-- The flight of a leader: its digest, and that it stays registered until it is done.
pub record Leads (key digest : Text) (a : ℕ) (w : World) : Type 0 where
  pub in_use : a < w.next
  pub digest_kept : (w.flight_at a).digest ≡ digest
  pub registered : ((w.flight_at a).done ≡ true) ⊎ (lookup key w.flights ≡ some a)

begin-Leads :
    (key digest : Text) (a : ℕ) (w : World) (fingerprint : Text) (batch : List Text)
    (other follow_up : Text)
    → Leads key digest a w
    → Leads key digest a (begin_resume_flight fingerprint batch other follow_up w).0
unfolding begin_resume_flight
begin-Leads key digest a w fingerprint batch other follow_up l =
    let new = resume_flight_key fingerprint batch follow_up in
    record {
      in_use = ground (arith, l.in_use);
      digest_kept = ground (arith, l.in_use, l.digest_kept);
      registered = ground (arith, l.in_use, l.registered, lookup-insert new key w.next w.flights);
    }

end-Leads :
    (key digest : Text) (a : ℕ) (w : World) (fingerprint : Text) (batch : List Text) (b : ℕ)
    (replay : Option CompletedReplay) (e : Option Error)
    → IsSound w
    → Leads key digest a w
    → Leads key digest a (end_resume_flight fingerprint batch b replay e w)
end-Leads key digest a w fingerprint batch b replay e v l =
    let (landed, same) = end-same fingerprint batch b replay e w in
    let f = w.flight_at b in
    record {
      in_use = ground (arith, l.in_use, same);
      digest_kept = ground (arith, l.digest_kept, landed, land-parts replay e f);
      registered = ground (
        arith,
        l.registered,
        landed,
        land-parts replay e f,
        end-flights fingerprint batch b replay e w key,
      );
    }

Step-Leads :
    (key digest : Text) (a : ℕ) {w t : World}
    → Step w t
    → IsSound w
    → Leads key digest a w
    → Leads key digest a t
Step-Leads key digest a (begins fingerprint batch other follow_up) v l =
    begin-Leads key digest a _ fingerprint batch other follow_up l
Step-Leads key digest a (ends fingerprint batch b replay e used) v l =
    end-Leads key digest a _ fingerprint batch b replay e v l
Step-Leads key digest a (elsewhere t same cells more) v l = record {
  in_use = omega (arith, l.in_use);
  digest_kept = ground (arith, cells, l.digest_kept);
  registered = ground (arith, same, cells, l.registered);
}

Run-Leads :
    (key digest : Text) (a : ℕ) {w t : World}
    → IsSound w
    → Leads key digest a w
    → Run w t
    → Leads key digest a t
Run-Leads key digest a v l here = l
Run-Leads key digest a v l (after r s) =
    Step-Leads key digest a s (Run-IsSound v r) (Run-Leads key digest a v l r)

leads :
    (fingerprint : Text) (batch : List Text) (digest follow_up : Text) (a : ℕ) (w : World)
    → (begin_resume_flight fingerprint batch digest follow_up w).1
      ≡ ok (record { flight = a; leader = true })
    → Leads
        (resume_flight_key fingerprint batch follow_up)
        digest
        a
        (begin_resume_flight fingerprint batch digest follow_up w).0
unfolding begin_resume_flight
leads fingerprint batch digest follow_up a w h =
    let key = resume_flight_key fingerprint batch follow_up in
    record {
      in_use = ground (arith, h);
      digest_kept = ground (arith, h);
      registered = ground (arith, h, lookup-insert key key w.next w.flights);
    }

joins :
    (fingerprint : Text) (batch : List Text) (digest follow_up : Text) (a : ℕ) (w : World)
    → lookup (resume_flight_key fingerprint batch follow_up) w.flights ≡ some a
    → begin_resume_flight fingerprint batch digest follow_up w ≡ (
      w,
      (if (w.flight_at a).digest == digest
          then ok (record { flight = a; leader = false })
          else err tool_result_conflict),
    )
unfolding begin_resume_flight
joins fingerprint batch digest follow_up a w h = ground (arith, h)

-- Where the flights of a process are sound: while a leader's flight is under way, no other request for
-- the same results, in whatever order of requests, leads a flight: one that brings results with the
-- same digest joins the leader's flight, and one with another digest is refused.
pub one_leader :
    (fingerprint : Text) (batch : List Text) (digest other follow_up : Text) (a : ℕ) (w t : World)
    → IsSound w
    → (begin_resume_flight fingerprint batch digest follow_up w).1
      ≡ ok (record { flight = a; leader = true })
    → Run (begin_resume_flight fingerprint batch digest follow_up w).0 t
    → (t.flight_at a).done ≡ false
    → begin_resume_flight fingerprint batch other follow_up t ≡ (
      t,
      (if digest == other
          then ok (record { flight = a; leader = false })
          else err tool_result_conflict),
    )
one_leader fingerprint batch digest other follow_up a w t v led r open_ =
    let l =
      Run-Leads (resume_flight_key fingerprint batch follow_up) digest a
        (begin-IsSound fingerprint batch digest follow_up w v)
        (leads fingerprint batch digest follow_up a w led) r in
    ground (arith, l.digest_kept, l.registered, open_, joins fingerprint batch other follow_up a t)

-- A flight that has ended.
record HasLanded (a : ℕ) (f : Flight) (w : World) : Type 0 where
  in_use : a < w.next
  cell : w.flight_at a ≡ f

land-done :
    (replay : Option CompletedReplay) (e : Option Error) (f : Flight)
    → f.done ≡ true
    → land replay e f ≡ f
unfolding land
land-done replay e f h = ground (arith, h)

Step-HasLanded :
    (a : ℕ) (f : Flight) {w t : World}
    → Step w t
    → f.done ≡ true
    → HasLanded a f w
    → HasLanded a f t
unfolding begin_resume_flight
Step-HasLanded a f (begins fingerprint batch other follow_up) landed l = record {
  in_use = ground (arith, l.in_use);
  cell = ground (arith, l.in_use, l.cell);
}
Step-HasLanded a f {w} (ends fingerprint batch b replay e used) landed l =
    let (cells, same) = end-same fingerprint batch b replay e w in
    record {
      in_use = ground (arith, l.in_use, same);
      cell = ground (arith, l.cell, cells, land-done replay e f landed);
    }
Step-HasLanded a f (elsewhere t same cells more) landed l = record {
  in_use = omega (arith, l.in_use);
  cell = ground (arith, cells, l.cell);
}

Run-HasLanded :
    (a : ℕ) (f : Flight) {w t : World} → f.done ≡ true → HasLanded a f w → Run w t → HasLanded a f t
Run-HasLanded a f landed l here = l
Run-HasLanded a f landed l (after r s) = Step-HasLanded a f s landed (Run-HasLanded a f landed l r)

-- Once a flight has ended, every request that waits for it gets an answer, and all get the same one,
-- whatever happens in between.
pub landed_answer :
    (a : ℕ) (w t : World)
    → a < w.next
    → (w.flight_at a).done ≡ true
    → Run w t
    → (wait_resume_flight a w ≢ none) × (wait_resume_flight a t ≡ wait_resume_flight a w)
unfolding wait_resume_flight
landed_answer a w t used landed r =
    let l = Run-HasLanded a (w.flight_at a) landed (record { in_use = used; cell = refl }) r in
    (ground (arith, landed), ground (arith, l.cell, landed))
