-- ===== src/Store/Pending.antt =====
-- What `validatePendingTools` of cursoragentv1/state.go lets through.
use cursor_agent2api.Base.{
  ℕ, ◌≡◌, ◌≢◌, refl, ◌∙◌, Bool, true, false, not, ◌&&◌, List, [], ◌∷◌, map, Text, ◌==◌,
  if◌then◌else◌, arith, trim_space, trim_space_idem, member, Distinct, sort, sort-Ascending,
  member-sort, has_prefix, length, ltb, ◌+◌, text,
}
use cursor_agent2api.Ids.{
  max_pending_tool_bytes, failed, Error, Result, ok, err, PendingTool, pending_tool_ids,
  normalize_tool_ids, is_empty,
}
use cursor_agent2api.Ids.Batch.{AreIds, sort-AreIds, normalize-fixed}
use cursor_agent2api.Ids.Results.{Unseen, Unseen-tail}
use cursor_agent2api.Store.Mutation.{validate_pending, validate_pending_tools}

abbrev ids_of : List PendingTool → List Text
ids_of ts = map (λ (t : PendingTool). trim_space t.tool_call_id) ts

-- Five guards in a row that all let through.
guards-pass :
    (a b c d e : Bool) (p q r s t : Error) (rest : Result (Unit {0}))
    → (if a
        then err p
        else if b
        then err q
        else if c
        then err r
        else if d
        then err s
        else if e
        then err t
        else rest)
      ≡ ok tt
    → (a ≡ false) × (b ≡ false) × (rest ≡ ok tt)
guards-pass a b c d e p q r s t rest valid = ground (arith, valid)

filled : (x : Text) → (x == []) ≡ false → x ≢ []
filled x h = ground (arith, h)

validate_pending-ids :
    (seen upstreams : List Text) (total : ℕ) (ts : List PendingTool)
    → validate_pending seen upstreams total ts ≡ ok tt
    → AreIds (ids_of ts) × Distinct (ids_of ts) × Unseen seen (ids_of ts)
unfolding validate_pending
validate_pending-ids seen upstreams total [] valid = (tt, tt, tt)
validate_pending-ids seen upstreams total (t ∷ ts) valid =
    let id = trim_space t.tool_call_id in
    let upstream = trim_space t.upstream_tool_call_id in
    let size =
      total
      + (length t.exec_id + length id + length upstream + length t.name + length t.arguments) in
    let others = if upstream == [] then upstreams else upstream ∷ upstreams in
    let rest = validate_pending-ids (id ∷ seen) others size ts in
    let first =
      guards-pass (id == []) (member id seen)
        (has_prefix (text "toolu_bf_agentv1_") id && (upstream == []))
        (not (upstream == []) && member upstream upstreams) (ltb max_pending_tool_bytes size)
        (failed (text "pending tool id is required"))
        (failed (text "pending tool id is duplicated"))
        (failed (text "routed pending tool is missing its upstream id"))
        (failed (text "upstream pending tool id is duplicated"))
        (failed (text "pending tool data exceeds the limit"))
        (validate_pending (id ∷ seen) others size ts) valid in
    let tail = rest first.2 in
    let unseen = Unseen-tail id seen (ids_of ts) tail.2 in
    (
      (trim_space_idem t.tool_call_id, filled id first.0, tail.0),
      (unseen.1, tail.1),
      (first.1, unseen.0),
    )

validate_pending_tools-ids :
    (ts : List PendingTool)
    → validate_pending_tools ts ≡ ok tt
    → AreIds (ids_of ts) × Distinct (ids_of ts)
unfolding validate_pending_tools
validate_pending_tools-ids ts valid =
    let all = validate_pending-ids [] [] 0 ts (ground (arith, valid)) in (all.0, all.1)

-- The batch of pending tools that the store accepts is its own normal form: trimmed, in order and
-- without repetitions.
pub pending_tool_ids-fixed :
    (ts : List PendingTool)
    → validate_pending_tools ts ≡ ok tt
    → normalize_tool_ids (pending_tool_ids ts) ≡ pending_tool_ids ts
unfolding pending_tool_ids
pending_tool_ids-fixed ts valid =
    let ids = validate_pending_tools-ids ts valid in
    normalize-fixed (sort (ids_of ts)) (sort-AreIds (ids_of ts) ids.0)
      (sort-Ascending (ids_of ts) ids.1)

has_member : (x : Text) (xs : List Text) → member x xs ≡ true → is_empty xs ≡ false
unfolding member
has_member x [] m = ground (arith, m)
has_member x (y ∷ ys) m = refl

member-first : (x : Text) (xs : List Text) → member x (x ∷ xs) ≡ true
unfolding member
member-first x xs = ground arith

pub pending_tool_ids-filled :
    (ts : List PendingTool) → is_empty ts ≡ false → is_empty (pending_tool_ids ts) ≡ false
unfolding pending_tool_ids member
pending_tool_ids-filled [] filled = ground (arith, filled)
pending_tool_ids-filled (t ∷ ts) filled =
    let id = trim_space t.tool_call_id in
    has_member id (sort (ids_of (t ∷ ts)))
      (member-sort id (ids_of (t ∷ ts)) ∙ member-first id (ids_of ts))
