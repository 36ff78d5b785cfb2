-- ===== src/Store/Credential.antt =====
-- What a claim by another credential hands out: cursoragentv1/state.go, `Claim`.
use cursor_agent2api.Base.{◌≡◌, refl, sym, ◌∙◌, ap, true, false, List, [], Text, arith, trim_space}
use cursor_agent2api.Types.{ToolDefinition}
use cursor_agent2api.Ids.{ok}
use cursor_agent2api.Store.{Store, Platform, StateSnapshot, OwnerLease}
use cursor_agent2api.Store.Mutation.{clone_snapshot}
use cursor_agent2api.Store.Prune.{prune_expired}
use cursor_agent2api.Store.Claim.{
  ClaimOptions, Fresh, granted, with_profile, is_cold, reset_history, reset_cold, set_billing,
  set_catalog, take_over,
}
use cursor_agent2api.Store.Claim.Run.{prepare, admit, claim}
use cursor_agent2api.Store.Granted.{claim-runs}
use cursor_agent2api.Store.Origin.{claim_session-All}

-- A snapshot without the checkpoint, the blobs and the pending tools of the credential before.
abbrev pub IsRebuilt : Text → Text → StateSnapshot → Type 0
IsRebuilt conversation fingerprint y =
    (y.checkpoint ≡ [])
    × (y.blobs ≡ [])
    × (y.pending_tools ≡ [])
    × (y.pending_batch_ids ≡ [])
    × (y.credential_fingerprint ≡ fingerprint)
    × (y.conversation_id ≡ conversation)

admit-cold :
    (p : Platform) (session conversation fingerprint : Text) (o : ClaimOptions) (f : Fresh)
    (x : StateSnapshot) (catalog : List ToolDefinition)
    → admit p session conversation fingerprint o f x ≡ ok catalog
    → is_cold x fingerprint ≡ true
    → o.allow_credential_change ≡ true
unfolding admit
admit-cold p session conversation fingerprint o f x catalog admitted cold =
    ground (arith, admitted, cold)

prepare-cold :
    (p : Platform) (session conversation fingerprint : Text) (o : ClaimOptions) (f : Fresh)
    (x : StateSnapshot) (catalog : List ToolDefinition)
    → is_cold x fingerprint ≡ true
    → IsRebuilt conversation fingerprint
        (clone_snapshot (prepare p session conversation fingerprint o f catalog x))
unfolding prepare reset_history reset_cold set_billing set_catalog take_over clone_snapshot
prepare-cold p session conversation fingerprint o f x catalog cold = ground (arith, cold)

module _ (p : Platform) (session conversation fingerprint : Text) (o : ClaimOptions)
    (f : Fresh) where
  -- If a claim reports a cold rebuild, the change of the credential was allowed, and the snapshot
  -- that it hands out has the new conversation and credential, and no checkpoint, blob, pending tool
  -- or pending batch.
  pub claim-cold_rebuild :
      (s : Store) (owner : OwnerLease) (y : StateSnapshot)
      → (claim p session conversation fingerprint o f s).1 ≡ ok (granted owner y true)
      → (o.allow_credential_change ≡ true)
        × IsRebuilt (trim_space conversation) (trim_space fingerprint) y
  claim-cold_rebuild s owner y given =
      let id = trim_space session in
      let talk = trim_space conversation in
      let credential = trim_space fingerprint in
      let runs = claim-runs p session conversation fingerprint o f s (granted owner y true) given in
      claim_session-All p id talk credential o f
        (λ w z cold. cold ≡ true → (o.allow_credential_change ≡ true) × IsRebuilt talk credential z)
        (prune_expired p false f.now s).0
        (λ created x opened catalog admitted cold. (
          admit-cold p id talk credential o f (with_profile created o.runtime_profile x) catalog
              admitted cold,
          prepare-cold p id talk credential o f (with_profile created o.runtime_profile x) catalog
              cold,
        ))
        owner y true (ap (λ r. r.1) (sym runs.0) ∙ given) refl
