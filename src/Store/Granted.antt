-- ===== src/Store/Granted.antt =====
-- What a claim that succeeds leaves behind: cursoragentv1/state.go, `Claim`.
use cursor_agent2api.Base.{
  ℕ, ◌≡◌, refl, sym, subst, ◌∙◌, Bool, true, false, List, [], ◌∷◌, some, Text, ◌==◌, arith,
  trim_space, ◌+◌,
}
use cursor_agent2api.Types.{ToolDefinition}
use cursor_agent2api.Ids.{Error, Result, ok, err}
use cursor_agent2api.Store.{
  Store, Platform, Lock, StateSnapshot, OwnerLease, state_version, write_state, acquire_lease,
  release_handle, lock_held, read_state,
}
use cursor_agent2api.Store.Directory.{lookup, lookup-insert}
use cursor_agent2api.Store.Index.{state_name, sync_pending_index}
use cursor_agent2api.Store.Mutation.{clone_snapshot}
use cursor_agent2api.Store.Prune.{prune_expired}
use cursor_agent2api.Store.Frame.{SameStates, remove_state-same, sync_pending_index-same}
use cursor_agent2api.Store.Claim.{
  with_profile, ClaimOptions, Fresh, ClaimResult, granted, replayed, take_over,
}
use cursor_agent2api.Store.Claim.Run.{
  sync_claim, new_state, open_from, open_state, prepare, admit, owner_of, save_claim, grant,
  claim_state, claim_leased, claim_session, claim,
}

module _ (p : Platform) (session conversation fingerprint : Text) (o : ClaimOptions)
    (f : Fresh) where
  pub sync_claim-same :
      (x y : StateSnapshot) (s : Store)
      → SameStates s (sync_claim p session conversation fingerprint o f x y s).0
  unfolding sync_claim
  sync_claim-same x y s =
      let gone =
        sync_pending_index-same p x.credential_fingerprint y.session_id x.pending_batch_ids [] f.now
          s in
      let first =
        sync_pending_index p x.credential_fingerprint y.session_id x.pending_batch_ids [] f.now s in
      ground (
        arith,
        gone,
        sync_pending_index-same p y.credential_fingerprint y.session_id [] y.pending_batch_ids f.now
            s,
        sync_pending_index-same p y.credential_fingerprint y.session_id [] y.pending_batch_ids f.now
            first.0,
      )

  -- A store after a claim that hands out `y`: the state, of which `y` is a copy, is that of the new
  -- owner.
  abbrev pub Granted : OwnerLease → StateSnapshot → ℕ → Store → Type 0
  Granted owner y h t =
      (x : StateSnapshot) × (lookup (state_name p session) t.states ≡ some x)
      × (y ≡ clone_snapshot x)
      × (x.version ≡ state_version)
      × (x.session_id ≡ session)
      × (x.credential_fingerprint ≡ fingerprint)
      × (x.owner_token ≡ f.token)
      × (owner ≡ owner_of p session conversation fingerprint o f x h)

  prepare-fields :
      (catalog : List ToolDefinition) (x : StateSnapshot)
      → let y = prepare p session conversation fingerprint o f catalog x in
        (y.version ≡ state_version)
        × (y.session_id ≡ session)
        × (y.credential_fingerprint ≡ fingerprint)
        × (y.owner_token ≡ f.token)
  unfolding prepare take_over
  prepare-fields catalog x = (refl, refl, refl, refl)

  save_claim-Granted :
      (h : ℕ) (x y : StateSnapshot) (catalog : List ToolDefinition) (owner : OwnerLease)
      (cold : Bool) (s : Store)
      → (save_claim p session conversation fingerprint o f h x catalog s).1
        ≡ ok (granted owner y cold)
      → Granted owner y h (save_claim p session conversation fingerprint o f h x catalog s).0
        × ((save_claim p session conversation fingerprint o f h x catalog s).0.locks ≡ s.locks)
  unfolding save_claim write_state
  save_claim-Granted h x y catalog owner cold s given =
      let z = prepare p session conversation fingerprint o f catalog x in
      let name = state_name p session in
      let same = sync_claim-same x z (write_state name z s) in
      let (version, id, credential, token) = prepare-fields catalog x in
      (
        (
          z,
          ground (arith, same, lookup-insert name name z s.states),
          ground (arith, given),
          version,
          id,
          credential,
          token,
          ground (arith, given),
        ),
        ground (arith, same),
      )

  -- A result from the store `s` that, if it grants the session, leaves it to the new owner.
  abbrev Grants : ℕ → Store → Store × Result ClaimResult → Type 0
  Grants h s r =
      (owner : OwnerLease) (y : StateSnapshot) (cold : Bool)
      → r.1 ≡ ok (granted owner y cold)
      → Granted owner y h r.0 × (r.0.locks ≡ s.locks)

  refused-Grants : (h : ℕ) (s t : Store) (e : Error) → Grants h s (t, err e)
  refused-Grants h s t e owner y cold given = ground arith

  grant-Grants :
      (h : ℕ) (x : StateSnapshot) (s : Store)
      → Grants h s (grant p session conversation fingerprint o f h x s)
  unfolding grant
  grant-Grants h x s =
      elim (admit p session conversation fingerprint o f x)
        as (λ r. Grants h s (elim r [
          | err e ↦ (s, err e)
          | ok catalog ↦ save_claim p session conversation fingerprint o f h x catalog s
        ])) [
          | err e ↦ refused-Grants h s s e
          | ok catalog ↦ λ owner y cold. save_claim-Granted h x y catalog owner cold s
        ]

  open_from-locks :
      (r : Result StateSnapshot) (s : Store)
      → (open_from p session conversation fingerprint o f r s).0.locks ≡ s.locks
  unfolding open_from new_state
  open_from-locks (ok x) s = ground (arith, remove_state-same p x (state_name p session) f.now s)
  open_from-locks (err e) s = ground arith

  open_state-locks :
      (s : Store) → (open_state p session conversation fingerprint o f s).0.locks ≡ s.locks
  unfolding open_state
  open_state-locks s = open_from-locks (read_state p (state_name p session) s) s

  claim_state-Grants :
      (h : ℕ) (s : Store) → Grants h s (claim_state p session conversation fingerprint o f h s)
  unfolding claim_state
  claim_state-Grants h s =
      let opened = open_state p session conversation fingerprint o f s in
      elim opened.1
        as (λ r. Grants h s (elim r [
          | ok c ↦
              grant p session conversation fingerprint o f h
                (with_profile c.0 o.runtime_profile c.1) opened.0
          | err e ↦ (opened.0, err e)
        ])) [
          | ok c ↦ λ owner y cold given.
              let granted =
                grant-Grants h (with_profile c.0 o.runtime_profile c.1) opened.0 owner y cold
                  given in
              (granted.0, granted.1 ∙ open_state-locks s)
          | err e ↦ refused-Grants h s opened.0 e
        ]

  claim_leased-Grants :
      (h : ℕ) (s : Store) → Grants h s (claim_leased p session conversation fingerprint o f h s)
  unfolding claim_leased
  claim_leased-Grants h s owner y cold = ground (arith, claim_state-Grants h s owner y cold)

  -- The lock that a claim takes.
  abbrev pub new_lock : Store → Lock
  new_lock s = record { handle = s.next_handle; name = state_name p session }

  -- What a claim makes of the result under its lease.
  kept-Grants :
      (h : ℕ) (s : Store) (r : Store × Result ClaimResult)
      → Grants h s r
      → Grants h s (elim r.1 as (λ _. Store × Result ClaimResult) [
        | ok (granted owner x cold) ↦ (r.0, ok (granted owner x cold))
        | ok (replayed replay) ↦ (release_handle h r.0, ok (replayed replay))
        | err e ↦ (release_handle h r.0, err e)
      ])
  kept-Grants h s (t, ok (granted w x c)) held owner y cold given = held owner y cold given
  kept-Grants h s (t, ok (replayed replay)) held owner y cold given = absurd (ground (arith, given))
  kept-Grants h s (t, err e) held owner y cold given = absurd (ground (arith, given))

  claim_session-free :
      (s : Store)
      → lock_held (state_name p session) s.locks ≡ false
      → let held = record s { locks = new_lock s ∷ s.locks; next_handle = s.next_handle + 1 } in
        let r = claim_leased p session conversation fingerprint o f s.next_handle held in
        claim_session p session conversation fingerprint o f s
        ≡ elim r.1 as (λ _. Store × Result ClaimResult) [
          | ok (granted owner x cold) ↦ (r.0, ok (granted owner x cold))
          | ok (replayed replay) ↦ (release_handle s.next_handle r.0, ok (replayed replay))
          | err e ↦ (release_handle s.next_handle r.0, err e)
        ]
  unfolding claim_session acquire_lease
  claim_session-free s free = ground (arith, free)

  pub claim_session-Granted :
      (s : Store) (owner : OwnerLease) (y : StateSnapshot) (cold : Bool)
      → (claim_session p session conversation fingerprint o f s).1 ≡ ok (granted owner y cold)
      → Granted owner y s.next_handle (claim_session p session conversation fingerprint o f s).0
        × ((claim_session p session conversation fingerprint o f s).0.locks ≡ new_lock s ∷ s.locks)
  unfolding claim_session acquire_lease
  claim_session-Granted s owner y cold = by_lock (lock_held (state_name p session) s.locks) refl
    where
      held : Store
      held = record s { locks = new_lock s ∷ s.locks; next_handle = s.next_handle + 1 }

      by_lock :
          (b : Bool)
          → lock_held (state_name p session) s.locks ≡ b
          → (claim_session p session conversation fingerprint o f s).1 ≡ ok (granted owner y cold)
          → Granted owner y s.next_handle (claim_session p session conversation fingerprint o f s).0
            × ((claim_session p session conversation fingerprint o f s).0.locks
                ≡ new_lock s ∷ s.locks)
      by_lock true taken given = absurd (ground (arith, taken, given))
      by_lock false free given =
          subst (Grants s.next_handle held) (sym (claim_session-free s free))
            (kept-Grants s.next_handle held
              (claim_leased p session conversation fingerprint o f s.next_handle held)
              (claim_leased-Grants s.next_handle held))
            owner y cold given

-- A claim that grants a session is a claim of the session after the pruning.
pub claim-runs :
    (p : Platform) (session conversation fingerprint : Text) (o : ClaimOptions) (f : Fresh)
    (s : Store) (r : ClaimResult)
    → (claim p session conversation fingerprint o f s).1 ≡ ok r
    → (claim p session conversation fingerprint o f s
        ≡ claim_session p
            (trim_space session)
            (trim_space conversation)
            (trim_space fingerprint)
            o
            f
            (prune_expired p false f.now s).0)
      × ((trim_space session == []) ≡ false)
unfolding claim
claim-runs p session conversation fingerprint o f s r given = ground (arith, given)
