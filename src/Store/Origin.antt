-- ===== src/Store/Origin.antt =====
-- Where the snapshot of a claim comes from: cursoragentv1/state.go, `Claim`.
use cursor_agent2api.Base.{ℕ, ◌≡◌, refl, Bool, List, ◌∷◌, Text, arith, ◌+◌}
use cursor_agent2api.Types.{ToolDefinition}
use cursor_agent2api.Ids.{Error, Result, ok, err}
use cursor_agent2api.Store.{Store, Platform, StateSnapshot, OwnerLease, acquire_lease}
use cursor_agent2api.Store.Index.{state_name}
use cursor_agent2api.Store.Mutation.{clone_snapshot}
use cursor_agent2api.Store.Claim.{ClaimOptions, Fresh, ClaimResult, granted, with_profile, is_cold}
use cursor_agent2api.Store.Claim.Run.{
  open_state, prepare, admit, owner_of, save_claim, grant, claim_state, claim_leased, claim_session,
}

module _ (p : Platform) (session conversation fingerprint : Text) (o : ClaimOptions) (f : Fresh)
    (P : OwnerLease → StateSnapshot → Bool → Type 0) where
  -- Whatever is granted by a result satisfies `P`.
  abbrev All : Store × Result ClaimResult → Type 0
  All r =
      (owner : OwnerLease) (y : StateSnapshot) (cold : Bool)
      → r.1 ≡ ok (granted owner y cold)
      → P owner y cold

  -- What a claim makes of a snapshot that it admits satisfies `P`.
  abbrev Admitted : ℕ → StateSnapshot → Type 0
  Admitted h x =
      (catalog : List ToolDefinition)
      → admit p session conversation fingerprint o f x ≡ ok catalog
      → let y = prepare p session conversation fingerprint o f catalog x in
        P (owner_of p session conversation fingerprint o f y h) (clone_snapshot y)
          (is_cold x fingerprint)

  refused-All : (t : Store) (e : Error) → All (t, err e)
  refused-All t e owner y cold given = ground arith

  save_claim-All :
      (h : ℕ) (x : StateSnapshot) (catalog : List ToolDefinition) (s : Store)
      → (let y = prepare p session conversation fingerprint o f catalog x in
          P
            (owner_of p session conversation fingerprint o f y h)
            (clone_snapshot y)
            (is_cold x fingerprint))
      → All (save_claim p session conversation fingerprint o f h x catalog s)
  unfolding save_claim
  save_claim-All h x catalog s holds owner y cold given = ground (arith, holds, given)

  grant-All :
      (h : ℕ) (x : StateSnapshot) (s : Store)
      → Admitted h x
      → All (grant p session conversation fingerprint o f h x s)
  unfolding grant
  grant-All h x s holds = by_admission (admit p session conversation fingerprint o f x) holds
    where
      by_admission :
          (r : Result (List ToolDefinition))
          → ((catalog : List ToolDefinition)
              → r ≡ ok catalog
              → let y = prepare p session conversation fingerprint o f catalog x in
                P
                  (owner_of p session conversation fingerprint o f y h)
                  (clone_snapshot y)
                  (is_cold x fingerprint))
          → All (elim r as (λ _. Store × Result ClaimResult) [
            | err e ↦ (s, err e)
            | ok catalog ↦ save_claim p session conversation fingerprint o f h x catalog s
          ])
      by_admission (err e) each = refused-All s e
      by_admission (ok catalog) each = save_claim-All h x catalog s (each catalog refl)

  -- Every snapshot that a claim can open satisfies what is asked.
  abbrev Opened : ℕ → Store → Type 0
  Opened h s =
      (created : Bool) (x : StateSnapshot)
      → (open_state p session conversation fingerprint o f s).1 ≡ ok (created, x)
      → Admitted h (with_profile created o.runtime_profile x)

  claim_state-All :
      (h : ℕ) (s : Store)
      → Opened h s
      → All (claim_state p session conversation fingerprint o f h s)
  unfolding claim_state
  claim_state-All h s holds = by_opening (open_state p session conversation fingerprint o f s) holds
    where
      by_opening :
          (r : Store × Result (Bool × StateSnapshot))
          → ((created : Bool) (x : StateSnapshot)
              → r.1 ≡ ok (created, x)
              → Admitted h (with_profile created o.runtime_profile x))
          → All (elim r.1 as (λ _. Store × Result ClaimResult) [
            | ok c ↦
                grant p session conversation fingerprint o f h
                  (with_profile c.0 o.runtime_profile c.1)
                  r.0
            | err e ↦ (r.0, err e)
          ])
      by_opening (t, ok (created, x)) each =
          grant-All h (with_profile created o.runtime_profile x) t (each created x refl)
      by_opening (t, err e) each = refused-All t e

  claim_leased-All :
      (h : ℕ) (s : Store)
      → Opened h s
      → All (claim_leased p session conversation fingerprint o f h s)
  unfolding claim_leased
  claim_leased-All h s holds owner y cold given =
      ground (arith, claim_state-All h s holds owner y cold, given)

  -- The store once the claim holds the lease.
  abbrev pub leased : Store → Store
  leased s = record s {
    locks = record { handle = s.next_handle; name = state_name p session } ∷ s.locks;
    next_handle = s.next_handle + 1;
  }

  pub claim_session-All :
      (s : Store)
      → Opened s.next_handle (leased s)
      → All (claim_session p session conversation fingerprint o f s)
  unfolding claim_session acquire_lease
  claim_session-All s holds owner y cold given =
      ground (arith, claim_leased-All s.next_handle (leased s) holds owner y cold, given)
