-- ===== src/Store/Reach.antt =====
-- Runs of the store of cursoragentv1/state.go: its operations as steps, and the locks in every
-- store that they reach.
use cursor_agent2api.Base.{
  ℕ, ◌≡◌, sym, Bool, true, false, ◌&&◌, ◌||◌, List, [], ◌∷◌, Text, ◌==◌, if◌then◌else◌, arith,
  trim_space, eqb, subst, text,
}
use cursor_agent2api.Ids.{PendingTool, failed}
use cursor_agent2api.Store.{Store, Platform, Lock, OwnerLease, M, fail, lock_held, release}
use cursor_agent2api.Store.Mutation.{Mutation}
use cursor_agent2api.Store.Update.{update, delete_state, delete_session, save_pending}
use cursor_agent2api.Store.Prune.{prune_expired}
use cursor_agent2api.Store.Claim.{ClaimOptions, Fresh, ClaimResult}
use cursor_agent2api.Store.Claim.Run.{claim_session, claim}
use cursor_agent2api.Store.Locks.{
  IsLocked, AreLocks, Safe, bind-Safe, update-Safe, save_pending-Safe, delete_state-Safe,
  delete_session-Safe, release-IsLocked,
}
use cursor_agent2api.Store.Safe.{prune_expired-Safe, claim_session-Safe}

-- One operation, by any process that shares the directory.
pub data Step (p : Platform) : Store → Store → Type 0 where
  claims :
      (session conversation fingerprint : Text) (o : ClaimOptions) (f : Fresh) (s : Store)
      → Step p s (claim p session conversation fingerprint o f s).0
  updates :
      (o : OwnerLease) (mutate : Mutation) (now : ℕ) (s : Store)
      → Step p s (update p o mutate now s).0
  saves_pending :
      (o : OwnerLease) (pending : List PendingTool) (now : ℕ) (s : Store)
      → Step p s (save_pending p o pending now s).0
  deletes : (o : OwnerLease) (now : ℕ) (s : Store) → Step p s (delete_state p o now s).0
  deletes_session :
      (session fingerprint : Text) (now : ℕ) (s : Store)
      → Step p s (delete_session p session fingerprint now s).0
  releases : (o : OwnerLease) (s : Store) → Step p s (release o s)
  prunes : (force : Bool) (now : ℕ) (s : Store) → Step p s (prune_expired p force now s).0

pub data Run (p : Platform) (s : Store) : Store → Type 0 where
  starts : Run p s s
  goes : {t u : Store} → Run p s t → Step p t u → Run p s u

claim-Safe :
    (p : Platform) (session conversation fingerprint : Text) (o : ClaimOptions) (f : Fresh)
    → Safe (claim p session conversation fingerprint o f)
unfolding claim
claim-Safe p session conversation fingerprint o f =
    let id = trim_space session in
    let talk = trim_space conversation in
    let owner = trim_space fingerprint in
    let rest : M ClaimResult =
      if (id == []) || ((talk == []) || (owner == []))
      then fail (failed (text "claim requires session, conversation and credential"))
      else claim_session p id talk owner o f in
    bind-Safe (prune_expired p false f.now) (λ _. rest) (prune_expired-Safe p false f.now)
      λ _ s locked. ground (arith, locked, claim_session-Safe p id talk owner o f s locked)

Step-IsLocked : (p : Platform) (s t : Store) → Step p s t → IsLocked s → IsLocked t
Step-IsLocked p _ _ (claims session conversation fingerprint o f s) =
    claim-Safe p session conversation fingerprint o f s
Step-IsLocked p _ _ (updates o mutate now s) = update-Safe p o mutate now s
Step-IsLocked p _ _ (saves_pending o pending now s) = save_pending-Safe p o pending now s
Step-IsLocked p _ _ (deletes o now s) = delete_state-Safe p o now s
Step-IsLocked p _ _ (deletes_session session fingerprint now s) =
    delete_session-Safe p session fingerprint now s
Step-IsLocked p _ _ (releases o s) = release-IsLocked o s
Step-IsLocked p _ _ (prunes force now s) = prune_expired-Safe p force now s

Run-IsLocked : (p : Platform) (s t : Store) → Run p s t → IsLocked s → IsLocked t
Run-IsLocked p s _ starts locked = locked
Run-IsLocked p s _ (goes {t} {u} run step) locked =
    Step-IsLocked p t u step (Run-IsLocked p s t run locked)

-- Whether a lock with the handle is on the name.
unfoldable pub holds : ℕ → Text → List Lock → Bool
holds h name [] = false
holds h name (l ∷ ls) = (eqb l.handle h && (l.name == name)) || holds h name ls

holds-held :
    (h : ℕ) (name : Text) (ls : List Lock) → holds h name ls ≡ true → lock_held name ls ≡ true
unfolding holds lock_held
holds-held h name [] held = ground (arith, held)
holds-held h name (l ∷ ls) held = ground (arith, held, holds-held h name ls)

holds_unique :
    (n h k : ℕ) (name : Text) (ls : List Lock)
    → AreLocks n ls
    → holds h name ls ≡ true
    → holds k name ls ≡ true
    → h ≡ k
unfolding holds
holds_unique n h k name [] locked first second = ground (arith, first)
holds_unique n h k name (l ∷ ls) locked first second = ground (
  arith,
  first,
  second,
  locked,
  holds_unique n h k name ls locked.3,
  holds-held h name ls,
  holds-held k name ls,
)

-- In every store that the operations reach from one without locks, by whatever sequence of claims,
-- updates, deletions, releases and prunings, two leases on one session are the same lease.
pub Run-exclusive :
    (p : Platform) (s t : Store)
    → Run p s t
    → s.locks ≡ []
    → (name : Text) (h k : ℕ) → holds h name t.locks ≡ true
    → holds k name t.locks ≡ true
    → h ≡ k
Run-exclusive p s t run free name h k =
    holds_unique t.next_handle h k name t.locks
      (Run-IsLocked p s t run (subst (AreLocks s.next_handle) (sym free) tt))
