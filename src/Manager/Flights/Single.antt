-- ===== src/Manager/Flights/Single.antt =====
-- One leader at a time: the flights of cursoragentv1/manager.go in every order of requests.
use cursor_agent2api.Base.{
  ℕ, ◌<◌, ◌≡◌, ◌≢◌, true, false, List, [], ◌∷◌, ◌++◌, trim_space, Option, none, some, eqb,
  if◌then◌else◌, Text, ◌==◌, arith,
}
use cursor_agent2api.Ids.{Error}
use cursor_agent2api.Store.Tombstone.{CompletedReplay}
use cursor_agent2api.Store.Directory.{lookup, lookup-insert, lookup-delete}
use cursor_agent2api.Manager.World.{Flight, World, at}
use cursor_agent2api.Manager.Flights.{
  resume_flight_key, begin_resume_flight, land, end_resume_flight,
}

cons-ne : (xs : Text) (y : ℕ) (ys : Text) → xs ++ (y ∷ ys) ≢ []
cons-ne [] y ys h = cc
cons-ne (x ∷ xs) y ys h = cc

-- The flights under way are registered under their own keys, at addresses in use.
pub record IsSound (w : World) : Type 0 where
  pub keyed : (key : Text) (a : ℕ) → lookup key w.flights ≡ some a → (w.flight_at a).key ≡ key
  pub filled : (key : Text) (a : ℕ) → lookup key w.flights ≡ some a → key ≢ []
  pub under_way :
      (key : Text) (a : ℕ) → lookup key w.flights ≡ some a → (w.flight_at a).done ≡ false
  pub used : (key : Text) (a : ℕ) → lookup key w.flights ≡ some a → a < w.next

key_filled :
    (fingerprint : Text) (batch : List Text) (follow_up : Text)
    → resume_flight_key fingerprint batch follow_up ≢ []
unfolding resume_flight_key
key_filled fingerprint batch follow_up = cons-ne (trim_space fingerprint) 0 _

pub begin-IsSound :
    (fingerprint : Text) (batch : List Text) (digest follow_up : Text) (w : World)
    → IsSound w
    → IsSound (begin_resume_flight fingerprint batch digest follow_up w).0
unfolding begin_resume_flight
begin-IsSound fingerprint batch digest follow_up w v =
    let key = resume_flight_key fingerprint batch follow_up in
    record {
      keyed =
          λ k a h. ground (arith, lookup-insert key k w.next w.flights, v.keyed k a, v.used k a);
      filled = λ k a h. ground (
        arith,
        lookup-insert key k w.next w.flights,
        v.filled k a,
        key_filled fingerprint batch follow_up,
      );
      under_way = λ k a h.
          ground (arith, lookup-insert key k w.next w.flights, v.under_way k a, v.used k a);
      used = λ k a h. ground (arith, lookup-insert key k w.next w.flights, v.used k a);
    }

pub land-parts :
    (replay : Option CompletedReplay) (e : Option Error) (f : Flight)
    → ((land replay e f).key ≡ f.key)
      × ((land replay e f).digest ≡ f.digest)
      × ((land replay e f).done ≡ true)
unfolding land
land-parts replay e f = ground arith

-- The key under which the end of a flight looks for it.
abbrev pub end_key : Text → List Text → Flight → Text
end_key fingerprint batch f = if f.key == [] then resume_flight_key fingerprint batch [] else f.key

pub end-same :
    (fingerprint : Text) (batch : List Text) (a : ℕ) (replay : Option CompletedReplay)
    (e : Option Error) (w : World)
    → let t = end_resume_flight fingerprint batch a replay e w in
      (t.flight_at ≡ at a (land replay e (w.flight_at a)) w.flight_at) × (t.next ≡ w.next)
unfolding end_resume_flight
end-same fingerprint batch a replay e w = (ground arith, ground arith)

-- What the end of a flight leaves registered: all but its own key.
pub end-flights :
    (fingerprint : Text) (batch : List Text) (a : ℕ) (replay : Option CompletedReplay)
    (e : Option Error) (w : World) (k : Text)
    → lookup k (end_resume_flight fingerprint batch a replay e w).flights
      ≡ elim (lookup (end_key fingerprint batch (w.flight_at a)) w.flights) as (λ _. Option ℕ) [
        | none ↦ lookup k w.flights
        | some c ↦
            if eqb c a
            then (if end_key fingerprint batch (w.flight_at a) == k
                then none
                else lookup k w.flights)
            else lookup k w.flights
      ]
unfolding end_resume_flight
end-flights fingerprint batch a replay e w k =
    ground (arith, lookup-delete (end_key fingerprint batch (w.flight_at a)) k w.flights)

-- What is registered after the end of a flight was registered before, and is another flight.
end-found :
    (fingerprint : Text) (batch : List Text) (a : ℕ) (replay : Option CompletedReplay)
    (e : Option Error) (w : World) (k : Text) (b : ℕ)
    → IsSound w
    → lookup k (end_resume_flight fingerprint batch a replay e w).flights ≡ some b
    → (lookup k w.flights ≡ some b) × (b ≢ a)
end-found fingerprint batch a replay e w k b v h = (
  ground (arith, end-flights fingerprint batch a replay e w k, h),
  λ q. ground (arith, end-flights fingerprint batch a replay e w k, h, v.keyed k b, v.filled k b),
)

pub end-IsSound :
    (fingerprint : Text) (batch : List Text) (a : ℕ) (replay : Option CompletedReplay)
    (e : Option Error) (w : World)
    → IsSound w
    → IsSound (end_resume_flight fingerprint batch a replay e w)
end-IsSound fingerprint batch a replay e w v =
    let found =
      λ (k : Text) (b : ℕ)
          (h : lookup k (end_resume_flight fingerprint batch a replay e w).flights ≡ some b).
        end-found fingerprint batch a replay e w k b v h in
    let (landed, same) = end-same fingerprint batch a replay e w in
    record {
      keyed = λ k b h.
          ground (arith, found k b, v.keyed k b, land-parts replay e (w.flight_at a), landed);
      filled = λ k b h. v.filled k b (found k b h).0;
      under_way = λ k b h. ground (arith, found k b, v.under_way k b, landed);
      used = λ k b h. ground (arith, found k b, v.used k b, same);
    }
