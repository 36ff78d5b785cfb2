-- ===== src/Store/Fencing.antt =====
-- The fencing of owners: cursoragentv1/state.go, `Claim`, `Release`, `withOwner` and `ownerMatches`.
use cursor_agent2api.Base.{
  ℕ, ◌≡◌, refl, sym, ◌∙◌, ap, Bool, true, false, subst, ◌⊎◌, List, [], ◌∷◌, Option, none, some,
  Text, ◌==◌, arith, trim_space, trim_space_idem,
}
use cursor_agent2api.Ids.{Result, ok, err, retired_owner}
use cursor_agent2api.Store.{
  Store, Platform, Lock, StateSnapshot, OwnerLease, M, state_version, write_state, handle_live,
  lock_held, drop_handle, release, release_handle, owner_matches, read_state,
  migrate_record_version, fits, state_too_large,
}
use cursor_agent2api.Store.Directory.{lookup}
use cursor_agent2api.Store.Index.{state_name}
use cursor_agent2api.Store.Mutation.{Mutation, clone_snapshot}
use cursor_agent2api.Store.Update.{update, update_state, with_owner, delete_state, delete_owned}
use cursor_agent2api.Store.Prune.{prune_expired}
use cursor_agent2api.Store.Claim.{ClaimOptions, Fresh, granted}
use cursor_agent2api.Store.Claim.Run.{claim, owner_of}
use cursor_agent2api.Store.Granted.{claim_session-Granted, claim-runs}

the_same : (x z : StateSnapshot) → Option.some x ≡ some z → (P : StateSnapshot → Type 0) → P z → P x
the_same x z e P h = let same : z ≡ x = ground (arith, e) in subst P same h

drop_handle-live : (h : ℕ) (ls : List Lock) → handle_live h (drop_handle h ls) ≡ false
unfolding handle_live drop_handle
drop_handle-live h [] = refl
drop_handle-live h (l ∷ ls) = ground (arith, drop_handle-live h ls)

drop_handle-held :
    (h : ℕ) (name : Text) (ls : List Lock)
    → lock_held name ls ≡ false
    → lock_held name (drop_handle h ls) ≡ false
unfolding lock_held drop_handle
drop_handle-held h name [] free = refl
drop_handle-held h name (l ∷ ls) free = ground (arith, drop_handle-held h name ls)

-- Whether the owner's lease is live.
abbrev is_live : Option ℕ → List Lock → Bool
is_live none locks = false
is_live (some h) locks = handle_live h locks

-- The update is refused, and changes nothing.
abbrev pub IsRefused : Platform → StateSnapshot → Store → Store × Result StateSnapshot → Type 0
IsRefused p x s r =
    (r.0 ≡ s) × ((r.1 ≡ err retired_owner) ⊎ ((fits p x ≡ false) × (r.1 ≡ err state_too_large)))

stale-retired :
    (p : Platform) (o : OwnerLease) (mutate : Mutation) (now : ℕ) (s : Store) (x : StateSnapshot)
    → lookup (state_name p o.session_id) s.states ≡ some x
    → ¬ (x.owner_token ≡ o.token)
    → x.version ≡ state_version
    → IsRefused p x s (update p o mutate now s)
unfolding update with_owner update_state read_state migrate_record_version owner_matches
stale-retired p o mutate now s x found stale current = ground (arith, found, stale, current)

owner-updates :
    (p : Platform) (session conversation fingerprint : Text) (o : ClaimOptions) (f : Fresh)
    (mutate : Mutation) (now h : ℕ) (name : Text) (locks : List Lock) (s : Store)
    (y z : StateSnapshot)
    → s.locks ≡ record { handle = h; name = name } ∷ locks
    → lookup (state_name p session) s.states ≡ some y
    → (y.version ≡ state_version)
      × (y.session_id ≡ session)
      × (y.credential_fingerprint ≡ fingerprint)
    → (trim_space session == []) ≡ false
    → ¬ (trim_space y.owner_token ≡ [])
    → fits p y ≡ true
    → mutate y ≡ ok z
    → update p (owner_of p session conversation fingerprint o f y h) mutate now s
      ≡ (write_state (state_name p session) (record z { updated_at = now }) s, ok y)
unfolding update with_owner update_state read_state migrate_record_version owner_matches handle_live
owner-updates p session conversation fingerprint o f mutate now h name locks s y z live found named
      id token small accepted =
    ground (arith, live, found, named, id, token, small, accepted)

release-is_live : (o : OwnerLease) (s : Store) → is_live o.handle (release o s).locks ≡ false
unfolding release release_handle
release-is_live o s =
    elim o.handle
      as (λ h.
        is_live h (elim h as (λ _. Store) [ none ↦ s | some i ↦ release_handle i s ]).locks
        ≡ false) [ none ↦ refl | some h ↦ drop_handle-live h s.locks ]

with_owner-retired :
    {A : Type 0} (o : OwnerLease) (m : M A) (s : Store)
    → is_live o.handle s.locks ≡ false
    → with_owner o m s ≡ (s, err retired_owner)
unfolding with_owner
with_owner-retired o m s dead = ground (arith, dead)

module _ (p : Platform) where
  -- After an owner released its lease, its updates and its deletion are refused and change
  -- nothing.
  pub release-retires :
      (o : OwnerLease) (mutate : Mutation) (now : ℕ) (s : Store)
      → let t = release o s in
        (update p o mutate now t ≡ (t, err retired_owner))
        × (delete_state p o now t ≡ (t, err retired_owner))
  unfolding update delete_state
  release-retires o mutate now s =
      let dead = release-is_live o s in
      ground (
        arith,
        with_owner-retired o (update_state p o mutate now) (release o s) dead,
        with_owner-retired o (delete_owned p o now) (release o s) dead,
      )

  module _ (session conversation fingerprint : Text) (o : ClaimOptions) (f : Fresh) where
    -- The state behind a claim that succeeded.
    claimed :
        (s : Store) (owner : OwnerLease) (x y : StateSnapshot) (cold : Bool)
        → (claim p session conversation fingerprint o f s).1 ≡ ok (granted owner y cold)
        → let t = (claim p session conversation fingerprint o f s).0 in
          lookup (state_name p (trim_space session)) t.states ≡ some x
          → (y ≡ clone_snapshot x)
            × (x.version ≡ state_version)
            × (x.session_id ≡ trim_space session)
            × (x.credential_fingerprint ≡ trim_space fingerprint)
            × (x.owner_token ≡ f.token)
            × (owner
                ≡ owner_of p
                    (trim_space session)
                    (trim_space conversation)
                    (trim_space fingerprint)
                    o
                    f
                    x
                    (prune_expired p false f.now s).0.next_handle)
    claimed s owner x y cold given found =
        let runs =
          claim-runs p session conversation fingerprint o f s (granted owner y cold) given in
        let state =
          claim_session-Granted p (trim_space session) (trim_space conversation)
            (trim_space fingerprint) o f (prune_expired p false f.now s).0 owner y cold
            (ap (λ r. r.1) (sym runs.0) ∙ given) in
        let stored =
          ap (λ r. lookup (state_name p (trim_space session)) r.0.states) runs.0 ∙ state.0.1 in
        the_same x state.0.0 (sym found ∙ stored)
          (λ z.
            (y ≡ clone_snapshot z)
            × (z.version ≡ state_version)
            × (z.session_id ≡ trim_space session)
            × (z.credential_fingerprint ≡ trim_space fingerprint)
            × (z.owner_token ≡ f.token)
            × (owner
                ≡ owner_of p (trim_space session) (trim_space conversation) (trim_space fingerprint)
                    o f z (prune_expired p false f.now s).0.next_handle))
          (state.0.2, state.0.3, state.0.4, state.0.5, state.0.6, state.0.7)

    -- The state that a granted claim left in the store.
    claim-stored :
        (s : Store) (owner : OwnerLease) (y : StateSnapshot) (cold : Bool)
        → (claim p session conversation fingerprint o f s).1 ≡ ok (granted owner y cold)
        → (x : StateSnapshot) × (lookup
              (state_name p (trim_space session))
              (claim p session conversation fingerprint o f s).0.states
            ≡ some x)
    claim-stored s owner y cold given =
        let runs =
          claim-runs p session conversation fingerprint o f s (granted owner y cold) given in
        let state =
          claim_session-Granted p (trim_space session) (trim_space conversation)
            (trim_space fingerprint) o f (prune_expired p false f.now s).0 owner y cold
            (ap (λ r. r.1) (sym runs.0) ∙ given) in
        (
          state.0.0,
          ap (λ r. lookup (state_name p (trim_space session)) r.0.states) runs.0 ∙ state.0.1,
        )

    -- After a claim succeeded, an owner of the same session from before, whose token is not the
    -- new one, has every update refused with the store unchanged: it is retired, or the state that
    -- the claim left is larger than a state file may be.
    pub claim-fences :
        (s : Store) (owner : OwnerLease) (y : StateSnapshot) (cold : Bool) (old : OwnerLease)
        (mutate : Mutation) (now : ℕ)
        → (claim p session conversation fingerprint o f s).1 ≡ ok (granted owner y cold)
        → old.session_id ≡ trim_space session
        → ¬ (f.token ≡ old.token)
        → let t = (claim p session conversation fingerprint o f s).0 in
          (x : StateSnapshot) × (lookup (state_name p (trim_space session)) t.states ≡ some x)
          × IsRefused p x t (update p old mutate now t)
    claim-fences s owner y cold old mutate now given same stale =
        let t = (claim p session conversation fingerprint o f s).0 in
        let stored = claim-stored s owner y cold given in
        let x = stored.0 in
        let state = claimed s owner x y cold given stored.1 in
        (
          x,
          stored.1,
          stale-retired p old mutate now t x
              (ap (λ id. lookup (state_name p id) t.states) same ∙ stored.1)
              (λ same_token. stale (sym state.4 ∙ same_token)) state.1,
        )

    -- The owner that a claim granted, its token not empty, updates the session if the state can be
    -- read back: a mutation that accepts the state is written, and the update hands on that state, of
    -- which the claim handed out a copy.
    pub claim-owner_updates :
        (s : Store) (owner : OwnerLease) (x y z : StateSnapshot) (cold : Bool) (mutate : Mutation)
        (now : ℕ)
        → (claim p session conversation fingerprint o f s).1 ≡ ok (granted owner y cold)
        → lookup
            (state_name p (trim_space session))
            (claim p session conversation fingerprint o f s).0.states
          ≡ some x
        → fits p x ≡ true
        → ¬ (trim_space f.token ≡ [])
        → mutate x ≡ ok z
        → let t = (claim p session conversation fingerprint o f s).0 in
          (y ≡ clone_snapshot x)
          × (update p owner mutate now t ≡ (
            write_state (state_name p (trim_space session)) (record z { updated_at = now }) t,
            ok x,
          ))
    claim-owner_updates s owner x y z cold mutate now given found small token accepted =
        let runs =
          claim-runs p session conversation fingerprint o f s (granted owner y cold) given in
        let t = (claim p session conversation fingerprint o f s).0 in
        let id = trim_space session in
        let pruned = (prune_expired p false f.now s).0 in
        let locks =
          claim_session-Granted p id (trim_space conversation) (trim_space fingerprint) o f pruned
            owner y cold (ap (λ r. r.1) (sym runs.0) ∙ given) in
        let state = claimed s owner x y cold given found in
        (
          state.0,
          ap (λ w. update p w mutate now t) state.5
              ∙ owner-updates p id (trim_space conversation) (trim_space fingerprint) o f mutate now
                  pruned.next_handle (state_name p id) pruned.locks t x z
                  (ap (λ r. r.0.locks) runs.0 ∙ locks.1) found (state.1, state.2, state.3)
                  (ap (λ a. a == []) (trim_space_idem session) ∙ runs.1)
                  (λ empty. token (ap trim_space (sym state.4) ∙ empty)) small accepted,
        )
