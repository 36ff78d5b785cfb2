-- ===== src/Store/Safe.antt =====
-- The locks of cursoragentv1/state.go under a pruning and a claim.
use cursor_agent2api.Base.{ℕ, refl, Bool, not, ◌||◌, List, [], ◌∷◌, Text, if◌then◌else◌, arith, map}
use cursor_agent2api.Types.{ToolDefinition}
use cursor_agent2api.Ids.{Result, ok, err, not_exist}
use cursor_agent2api.Store.{
  Store, Platform, StateSnapshot, M, read_state, write_state, acquire_lease, release_handle,
  lock_held, state_expired,
}
use cursor_agent2api.Store.Tombstone.{CompletedTombstone}
use cursor_agent2api.Store.Index.{state_name}
use cursor_agent2api.Store.Update.{with_lease, remove_state}
use cursor_agent2api.Store.Prune.{
  prune_state, prune_states, prune_tombstones, prune_expired, remove_tombstone, read_tombstone,
  tombstone_expired,
}
use cursor_agent2api.Store.Claim.{ClaimOptions, Fresh, ClaimResult, granted, replayed, with_profile}
use cursor_agent2api.Store.Claim.Run.{
  new_state, open_from, open_state, save_claim, grant, claim_state, claim_leased, claim_session,
  admit, prepare,
}
use cursor_agent2api.Store.Granted.{sync_claim-same}
use cursor_agent2api.Store.Locks.{
  IsLocked, Safe, SameLocks, SameLocks-IsLocked, bind-Safe, with_lease-Safe, remove_state-Safe,
  release_handle-IsLocked, acquire_lease-IsLocked,
}

module _ (p : Platform) where
  prune_state-Safe : (now : ℕ) (name : Text) → Safe (prune_state p now name)
  unfolding prune_state
  prune_state-Safe now name s locked = by_read (read_state p name s)
    where
      by_read :
          (r : Result StateSnapshot)
          → IsLocked
              (elim r as (λ _. Store × Result (Unit {0})) [
                | err e ↦ (s, err e)
                | ok x ↦
                    if not (state_expired x now s.ttl) || lock_held name s.locks
                    then (s, ok tt)
                    else with_lease name (remove_state p x name now) s
              ]).0
      by_read (err e) = locked
      by_read (ok x) = ground (
        arith,
        locked,
        with_lease-Safe name (remove_state p x name now) (remove_state-Safe p x name now) s locked,
      )

  prune_states-Safe : (now : ℕ) (names : List Text) → Safe (prune_states p now names)
  unfolding prune_states
  prune_states-Safe now [] = λ s locked. locked
  prune_states-Safe now (name ∷ names) =
      bind-Safe (prune_state p now name) (λ _. prune_states p now names) (prune_state-Safe now name)
        λ _. prune_states-Safe now names

  prune_tombstones-same :
      (now : ℕ) (names : List Text) (s : Store) → SameLocks s (prune_tombstones p now names s).0
  unfolding prune_tombstones remove_tombstone
  prune_tombstones-same now [] s = (refl, refl)
  prune_tombstones-same now (name ∷ names) s =
      by_read (read_tombstone name s) λ t. prune_tombstones-same now names t
    where
      by_read :
          (r : Result CompletedTombstone)
          → ((t : Store) → SameLocks t (prune_tombstones p now names t).0)
          → SameLocks s
              (elim r as (λ _. Store × Result (Unit {0})) [
                | err not_exist ↦ prune_tombstones p now names s
                | err e ↦ (s, err e)
                | ok x ↦
                    prune_tombstones p now names
                      (if tombstone_expired x now s.ttl then remove_tombstone p name x s else s)
              ]).0
      by_read (err e) again = ground (arith, again s)
      by_read (ok x) again = ground (arith, again s, again (remove_tombstone p name x s))

  -- The second half of a pruning.
  abbrev prune_rest : ℕ → M (Unit {0})
  prune_rest now t =
      prune_tombstones p now (map (λ f. f.0) t.completed) (record t { last_gc = now })

  prune_rest-Safe : (now : ℕ) → Safe (prune_rest now)
  prune_rest-Safe now s locked =
      SameLocks-IsLocked (record s { last_gc = now }) (prune_rest now s).0
        (prune_tombstones-same now (map (λ f. f.0) s.completed) (record s { last_gc = now })) locked

  pub prune_expired-Safe : (force : Bool) (now : ℕ) → Safe (prune_expired p force now)
  unfolding prune_expired
  prune_expired-Safe force now s locked =
      let names = map (λ f. f.0) s.states in
      ground (
        arith,
        locked,
        bind-Safe (prune_states p now names) (λ _. prune_rest now) (prune_states-Safe now names)
            (λ _. prune_rest-Safe now) s locked,
      )

  module _ (session conversation fingerprint : Text) (o : ClaimOptions) (f : Fresh) where
    save_claim-Safe :
        (h : ℕ) (x : StateSnapshot) (catalog : List ToolDefinition)
        → Safe (save_claim p session conversation fingerprint o f h x catalog)
    unfolding save_claim write_state
    save_claim-Safe h x catalog s locked =
        let y = prepare p session conversation fingerprint o f catalog x in
        let t = write_state (state_name p session) y s in
        SameLocks-IsLocked s (save_claim p session conversation fingerprint o f h x catalog s).0
          (ground (arith, sync_claim-same p session conversation fingerprint o f x y t)) locked

    grant-Safe :
        (h : ℕ) (x : StateSnapshot) → Safe (grant p session conversation fingerprint o f h x)
    unfolding grant
    grant-Safe h x s locked = by_admission (admit p session conversation fingerprint o f x)
      where
        by_admission :
            (r : Result (List ToolDefinition))
            → IsLocked
                (elim r as (λ _. Store × Result ClaimResult) [
                  | err e ↦ (s, err e)
                  | ok catalog ↦ save_claim p session conversation fingerprint o f h x catalog s
                ]).0
        by_admission (err e) = locked
        by_admission (ok catalog) = save_claim-Safe h x catalog s locked

    open_from-locked :
        (r : Result StateSnapshot) → Safe (open_from p session conversation fingerprint o f r)
    unfolding open_from new_state
    open_from-locked (ok x) s locked =
        ground (arith, remove_state-Safe p x (state_name p session) f.now s locked, locked)
    open_from-locked (err e) s locked = ground (arith, locked)

    open_state-Safe : Safe (open_state p session conversation fingerprint o f)
    unfolding open_state
    open_state-Safe s locked = open_from-locked (read_state p (state_name p session) s) s locked

    claim_state-Safe : (h : ℕ) → Safe (claim_state p session conversation fingerprint o f h)
    unfolding claim_state
    claim_state-Safe h =
        bind-Safe (open_state p session conversation fingerprint o f)
          (λ c.
            grant p session conversation fingerprint o f h (with_profile c.0 o.runtime_profile c.1))
          open_state-Safe λ c. grant-Safe h (with_profile c.0 o.runtime_profile c.1)

    claim_leased-Safe : (h : ℕ) → Safe (claim_leased p session conversation fingerprint o f h)
    unfolding claim_leased
    claim_leased-Safe h s locked = ground (arith, claim_state-Safe h s locked, locked)

    pub claim_session-Safe : Safe (claim_session p session conversation fingerprint o f)
    unfolding claim_session
    claim_session-Safe s locked =
        by_lease (acquire_lease (state_name p session) s)
          (acquire_lease-IsLocked (state_name p session) s locked)
      where
        released : (r : Store × Result ClaimResult) → ℕ → Store × Result ClaimResult
        released r h = elim r.1 as (λ _. Store × Result ClaimResult) [
          | ok (granted owner x cold) ↦ (r.0, ok (granted owner x cold))
          | ok (replayed replay) ↦ (release_handle h r.0, ok (replayed replay))
          | err e ↦ (release_handle h r.0, err e)
        ]

        released-locked :
            (r : Store × Result ClaimResult) (h : ℕ) → IsLocked r.0 → IsLocked (released r h).0
        released-locked (t, ok (granted owner x cold)) h held = held
        released-locked (t, ok (replayed replay)) h held = release_handle-IsLocked h t held
        released-locked (t, err e) h held = release_handle-IsLocked h t held

        by_lease :
            (r : Store × Result ℕ)
            → IsLocked r.0
            → IsLocked
                (elim r.1 as (λ _. Store × Result ClaimResult) [
                  | err e ↦ (r.0, err e)
                  | ok h ↦ released (claim_leased p session conversation fingerprint o f h r.0) h
                ]).0
        by_lease (t, err e) held = held
        by_lease (t, ok h) held =
            released-locked (claim_leased p session conversation fingerprint o f h t) h
              (claim_leased-Safe h t held)
