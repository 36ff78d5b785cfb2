-- ===== src/Store/Locks.antt =====
-- The locks of cursoragentv1/state.go: what each operation does to them.
use cursor_agent2api.Base.{
  ℕ, ◌≡◌, refl, sym, false, List, [], ◌∷◌, none, some, Text, ◌==◌, if◌then◌else◌, arith, trim_space,
  ◌+◌, ◌<◌, subst,
}
use cursor_agent2api.Ids.{
  Result, ok, err, PendingTool, not_exist, retired_owner, credential_mismatch,
}
use cursor_agent2api.Store.{
  Store, Platform, Lock, StateSnapshot, OwnerLease, M, ◌>>=◌, read_state, write_state, handle_live,
  lock_held, drop_handle, acquire_lease, owner_matches, release, release_handle,
}
use cursor_agent2api.Store.Index.{state_name, sync_pending_index}
use cursor_agent2api.Store.Mutation.{Mutation, set_pending, next_batch}
use cursor_agent2api.Store.Update.{
  update, update_state, with_owner, delete_state, delete_owned, delete_session, delete_if_owned_by,
  with_lease, remove_state, save_pending,
}
use cursor_agent2api.Store.Frame.{remove_state-same, sync_pending_index-same}

-- Every lock has a handle of its own below the next one, and no two locks have one name.
abbrev pub AreLocks : ℕ → List Lock → Type 0
AreLocks n [] = Unit {0}
AreLocks n (l ∷ ls) =
    (l.handle < n)
    × (lock_held l.name ls ≡ false)
    × (handle_live l.handle ls ≡ false)
    × AreLocks n ls

abbrev pub IsLocked : Store → Type 0
IsLocked s = AreLocks s.next_handle s.locks

AreLocks-next :
    (n : ℕ) (ls : List Lock) → AreLocks n ls → AreLocks (n + 1) ls × (handle_live n ls ≡ false)
unfolding handle_live
AreLocks-next n [] h = (tt, refl)
AreLocks-next n (l ∷ ls) h = ground (arith, AreLocks-next n ls h.3)

drop_handle-keeps :
    (h k : ℕ) (name : Text) (ls : List Lock)
    → ((lock_held name ls ≡ false) → lock_held name (drop_handle h ls) ≡ false)
      × ((handle_live k ls ≡ false) → handle_live k (drop_handle h ls) ≡ false)
unfolding lock_held handle_live drop_handle
drop_handle-keeps h k name [] = (λ e. e, λ e. e)
drop_handle-keeps h k name (l ∷ ls) = ground (arith, drop_handle-keeps h k name ls)

AreLocks-drop : (n h : ℕ) (ls : List Lock) → AreLocks n ls → AreLocks n (drop_handle h ls)
unfolding drop_handle
AreLocks-drop n h [] all = tt
AreLocks-drop n h (l ∷ ls) all =
    ground (arith, AreLocks-drop n h ls all.3, drop_handle-keeps h l.handle l.name ls, all)

-- Two stores with the same locks.
abbrev pub SameLocks : Store → Store → Type 0
SameLocks s t = (t.locks ≡ s.locks) × (t.next_handle ≡ s.next_handle)

pub SameLocks-IsLocked : (s t : Store) → SameLocks s t → IsLocked s → IsLocked t
SameLocks-IsLocked s t same locked =
    subst (λ n. AreLocks n t.locks) (sym same.1)
      (subst (AreLocks s.next_handle) (sym same.0) locked)

pub release_handle-IsLocked : (h : ℕ) (s : Store) → IsLocked s → IsLocked (release_handle h s)
unfolding release_handle
release_handle-IsLocked h s = AreLocks-drop s.next_handle h s.locks

pub release-IsLocked : (o : OwnerLease) (s : Store) → IsLocked s → IsLocked (release o s)
unfolding release
release-IsLocked o s locked =
    elim o.handle
      as (λ h. IsLocked (elim h as (λ _. Store) [ none ↦ s | some i ↦ release_handle i s ])) [
        | none ↦ locked
        | some h ↦ release_handle-IsLocked h s locked
      ]

pub acquire_lease-IsLocked :
    (name : Text) (s : Store) → IsLocked s → IsLocked (acquire_lease name s).0
unfolding acquire_lease
acquire_lease-IsLocked name s locked =
    ground (arith, locked, AreLocks-next s.next_handle s.locks locked)

-- An operation that keeps the locks in order.
abbrev pub Safe : {A : Type 0} → M A → Type 0
Safe m = (s : Store) → IsLocked s → IsLocked (m s).0

pub bind-Safe :
    {A B : Type 0} (m : M A) (f : A → M B) → Safe m → ((a : A) → Safe (f a)) → Safe (m >>= f)
bind-Safe {A} {B} m f first next s locked = by_result (m s) (first s locked)
  where
    by_result :
        (r : Store × Result A)
        → IsLocked r.0
        → IsLocked (elim r.1 as (λ _. Store × Result B) [ ok a ↦ f a r.0 | err e ↦ (r.0, err e) ]).0
    by_result (t, ok a) held = next a t held
    by_result (t, err e) held = held

pub with_lease-Safe : {A : Type 0} (name : Text) (m : M A) → Safe m → Safe (with_lease name m)
unfolding with_lease
with_lease-Safe {A} name m keeps s locked =
    by_lease (acquire_lease name s) (acquire_lease-IsLocked name s locked)
  where
    by_lease :
        (r : Store × Result ℕ)
        → IsLocked r.0
        → IsLocked
            (elim r.1 as (λ _. Store × Result A) [
              | err e ↦ (r.0, err e)
              | ok h ↦ (release_handle h (m r.0).0, (m r.0).1)
            ]).0
    by_lease (t, err e) held = held
    by_lease (t, ok h) held = release_handle-IsLocked h (m t).0 (keeps t held)

module _ (p : Platform) where
  pub update-Safe : (o : OwnerLease) (mutate : Mutation) (now : ℕ) → Safe (update p o mutate now)
  unfolding update with_owner update_state write_state
  update-Safe o mutate now s locked = ground (arith, locked)

  pub sync-Safe :
      (fingerprint session : Text) (previous next : List Text) (now : ℕ)
      → Safe (sync_pending_index p fingerprint session previous next now)
  sync-Safe fingerprint session previous next now s locked =
      let same = sync_pending_index-same p fingerprint session previous next now s in
      SameLocks-IsLocked s (sync_pending_index p fingerprint session previous next now s).0
        (same.1, same.2) locked

  pub remove_state-Safe :
      (x : StateSnapshot) (name : Text) (now : ℕ) → Safe (remove_state p x name now)
  remove_state-Safe x name now s locked =
      let same = remove_state-same p x name now s in
      SameLocks-IsLocked s (remove_state p x name now s).0 (same.1, same.2) locked

  pub save_pending-Safe :
      (o : OwnerLease) (pending : List PendingTool) (now : ℕ) → Safe (save_pending p o pending now)
  unfolding save_pending
  save_pending-Safe o pending now =
      bind-Safe (update p o (set_pending pending) now)
        (λ x.
          sync_pending_index p o.credential_hash o.session_id x.pending_batch_ids
            (next_batch x pending) now)
        (update-Safe o (set_pending pending) now)
        λ x. sync-Safe o.credential_hash o.session_id x.pending_batch_ids (next_batch x pending) now

  delete_owned-Safe : (o : OwnerLease) (now : ℕ) → Safe (delete_owned p o now)
  unfolding delete_owned
  delete_owned-Safe o now s locked = by_read (read_state p (state_name p o.session_id) s)
    where
      by_read :
          (r : Result StateSnapshot)
          → IsLocked
              (elim r as (λ _. Store × Result (Unit {0})) [
                | err not_exist ↦ (s, ok tt)
                | err e ↦ (s, err e)
                | ok x ↦
                    if owner_matches x o
                    then remove_state p x (state_name p o.session_id) now s
                    else (s, err retired_owner)
              ]).0
      by_read (ok x) =
          ground (arith, remove_state-Safe x (state_name p o.session_id) now s locked, locked)
      by_read (err e) = ground (arith, locked)

  pub delete_state-Safe : (o : OwnerLease) (now : ℕ) → Safe (delete_state p o now)
  unfolding delete_state with_owner
  delete_state-Safe o now s locked = ground (arith, delete_owned-Safe o now s locked, locked)

  delete_if_owned_by-Safe :
      (name fingerprint : Text) (now : ℕ) → Safe (delete_if_owned_by p name fingerprint now)
  unfolding delete_if_owned_by
  delete_if_owned_by-Safe name fingerprint now s locked = by_read (read_state p name s)
    where
      by_read :
          (r : Result StateSnapshot)
          → IsLocked
              (elim r as (λ _. Store × Result (Unit {0})) [
                | err not_exist ↦ (s, ok tt)
                | err e ↦ (s, err e)
                | ok x ↦
                    if x.credential_fingerprint == fingerprint
                    then remove_state p x name now s
                    else (s, err credential_mismatch)
              ]).0
      by_read (ok x) = ground (arith, remove_state-Safe x name now s locked, locked)
      by_read (err e) = ground (arith, locked)

  pub delete_session-Safe :
      (session fingerprint : Text) (now : ℕ) → Safe (delete_session p session fingerprint now)
  unfolding delete_session
  delete_session-Safe session fingerprint now s locked =
      let name = state_name p (trim_space session) in
      let owner = trim_space fingerprint in
      ground (
        arith,
        with_lease-Safe name (delete_if_owned_by p name owner now)
            (delete_if_owned_by-Safe name owner now) s locked,
        locked,
      )
