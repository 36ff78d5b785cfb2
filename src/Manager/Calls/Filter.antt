-- ===== src/Manager/Calls/Filter.antt =====
-- The results of all pending calls among those submitted: `filterPendingMapResults` of
-- cursoragentv1/manager.go.
use cursor_agent2api.Base.{
  ◌≡◌, ◌↔◌, refl, sym, ap, ap₂, ◌∙◌, Bool, true, false, ◌||◌, List, [], ◌∷◌, Option, none, some,
  Text, arith, map, member, Distinct, sort, sort_by, map-sort_by, inl, inr, Option-cases,
}
use cursor_agent2api.Types.{ToolResult}
use cursor_agent2api.Ids.{PendingTool}
use cursor_agent2api.Store.Directory.{Files, lookup, insert, lookup-insert}
use cursor_agent2api.Manager.Calls.{
  Pending, index_results, take_results, result_id, filter_pending_map_results,
}

abbrev pub pending_keys : Pending → List Text
pending_keys = map λ e. e.0

abbrev is_some : Option ToolResult → Bool
is_some none = false
is_some (some r) = true

-- Every result stands under its own id.
abbrev Keyed : Files ToolResult → Type 0
Keyed fs = (x : Text) (r : ToolResult) → lookup x fs ≡ some r → r.tool_call_id ≡ x

Keyed-insert :
    (r : ToolResult) (fs : Files ToolResult) → Keyed fs → Keyed (insert r.tool_call_id r fs)
Keyed-insert r fs k x q h = ground (arith, lookup-insert r.tool_call_id x r fs, k x q)

-- The results that none of the earlier ones repeats.
abbrev Apart : Files ToolResult → List ToolResult → Type 0
Apart seen rs = (x : Text) → member x (map result_id rs) ≡ true → lookup x seen ≡ none

index_results-none :
    (seen : Files ToolResult) (r : ToolResult) (rs : List ToolResult) (fs : Files ToolResult)
    → index_results seen (r ∷ rs) ≡ some fs
    → (lookup r.tool_call_id seen ≡ none)
      × (index_results (insert r.tool_call_id r seen) rs ≡ some fs)
unfolding index_results
index_results-none seen r rs fs h = ground arith

index_results-Keyed :
    (seen : Files ToolResult) (rs : List ToolResult) (fs : Files ToolResult)
    → index_results seen rs ≡ some fs
    → Keyed seen
    → Keyed fs
unfolding index_results
index_results-Keyed seen [] fs h k = λ x r found. ground (arith, k x r)
index_results-Keyed seen (r ∷ rs) fs h k =
    index_results-Keyed (insert r.tool_call_id r seen) rs fs (index_results-none seen r rs fs h).1
      (Keyed-insert r seen k)

index_results-known :
    (seen : Files ToolResult) (rs : List ToolResult) (fs : Files ToolResult) (x : Text)
    → index_results seen rs ≡ some fs
    → is_some (lookup x fs) ≡ (is_some (lookup x seen) || member x (map result_id rs))
unfolding index_results member
index_results-known seen [] fs x h = ground arith
index_results-known seen (r ∷ rs) fs x h = ground (
  arith,
  index_results-known (insert r.tool_call_id r seen) rs fs x (index_results-none seen r rs fs h).1,
  lookup-insert r.tool_call_id x r seen,
)

index_results-Distinct :
    (seen : Files ToolResult) (rs : List ToolResult) (fs : Files ToolResult)
    → index_results seen rs ≡ some fs
    → Distinct (map result_id rs) × Apart seen rs
unfolding member
index_results-Distinct seen [] fs h = (tt, λ x m. cc)
index_results-Distinct seen (r ∷ rs) fs h =
    let (new, more) = index_results-none seen r rs fs h in
    let (distinct, apart) = index_results-Distinct (insert r.tool_call_id r seen) rs fs more in
    (
      (
        ground (arith, apart r.tool_call_id, lookup-insert r.tool_call_id r.tool_call_id r seen),
        distinct,
      ),
      λ x m. ground (arith, new, apart x, lookup-insert r.tool_call_id x r seen),
    )

index_results-exists :
    (seen : Files ToolResult) (rs : List ToolResult)
    → Distinct (map result_id rs)
    → Apart seen rs
    → (fs : Files ToolResult) × (index_results seen rs ≡ some fs)
unfolding index_results member
index_results-exists seen [] d a = (seen, refl)
index_results-exists seen (r ∷ rs) d a =
    let (fs, rest) =
      index_results-exists (insert r.tool_call_id r seen) rs d.1
        (λ x m. ground (arith, a x, d.0, lookup-insert r.tool_call_id x r seen)) in
    (fs, ground (arith, rest, a r.tool_call_id))

take_results-parts :
    (seen : Files ToolResult) (e : Text × PendingTool) (pending : Pending) (xs : List ToolResult)
    → take_results seen (e ∷ pending) ≡ some xs
    → (r : ToolResult) × (ys : List ToolResult) × (lookup e.0 seen ≡ some r)
      × (take_results seen pending ≡ some ys)
      × (r ∷ ys ≡ xs)
unfolding take_results
take_results-parts seen e pending xs h = elim (Option-cases (lookup e.0 seen)) [
  | inl missing ↦ absurd (ground (arith, missing, h))
  | inr (r, found) ↦ elim (Option-cases (take_results seen pending)) [
    | inl missing ↦ absurd (ground (arith, found, missing, h))
    | inr (ys, rest) ↦ (r, ys, found, rest, ground (arith, found, rest, h))
  ]
]

take_results-ids :
    (seen : Files ToolResult) (pending : Pending) (xs : List ToolResult)
    → take_results seen pending ≡ some xs
    → Keyed seen
    → map result_id xs ≡ pending_keys pending
unfolding take_results
take_results-ids seen [] xs h k = ground arith
take_results-ids seen (e ∷ pending) xs h k =
    let (r, ys, found, rest, whole) = take_results-parts seen e pending xs h in
    ap (map result_id) (sym whole)
    ∙ ap₂ ◌∷◌ (k e.0 r found) (take_results-ids seen pending ys rest k)

take_results-known :
    (seen : Files ToolResult) (pending : Pending) (xs : List ToolResult) (x : Text)
    → take_results seen pending ≡ some xs
    → member x (pending_keys pending) ≡ true
    → is_some (lookup x seen) ≡ true
unfolding member
take_results-known seen [] xs x h m = cc
take_results-known seen (e ∷ pending) xs x h m =
    let (r, ys, found, rest, whole) = take_results-parts seen e pending xs h in
    ground (arith, found, take_results-known seen pending ys x rest)

is_some-found : (o : Option ToolResult) → is_some o ≡ true → (r : ToolResult) × (o ≡ some r)
is_some-found none h = cc
is_some-found (some r) h = (r, refl)

take_results-exists :
    (seen : Files ToolResult) (pending : Pending)
    → ((x : Text) → member x (pending_keys pending) ≡ true → is_some (lookup x seen) ≡ true)
    → (xs : List ToolResult) × (take_results seen pending ≡ some xs)
unfolding take_results member
take_results-exists seen [] known = ([], refl)
take_results-exists seen (e ∷ pending) known =
    let (ys, rest) = take_results-exists seen pending (λ x m. known x (ground (arith, m))) in
    let (r, found) = is_some-found (lookup e.0 seen) (known e.0 (ground arith)) in
    (r ∷ ys, ground (arith, found, rest))

filter-parts :
    (pending : Pending) (results xs : List ToolResult)
    → filter_pending_map_results pending results ≡ some xs
    → (seen : Files ToolResult) × (ys : List ToolResult) × (index_results [] results ≡ some seen)
      × (take_results seen pending ≡ some ys)
      × (sort_by result_id ys ≡ xs)
unfolding filter_pending_map_results
filter-parts pending results xs h = elim (Option-cases (index_results [] results)) [
  | inl missing ↦ absurd (ground (arith, missing, h))
  | inr (seen, indexed) ↦ elim (Option-cases (take_results seen pending)) [
    | inl missing ↦ absurd (ground (arith, indexed, missing, h))
    | inr (ys, taken) ↦ (seen, ys, indexed, taken, ground (arith, indexed, taken, h))
  ]
]

no_results-Keyed : Keyed []
unfolding lookup
no_results-Keyed = λ x r h. cc

no_results-Apart : (rs : List ToolResult) → Apart [] rs
unfolding lookup
no_results-Apart rs = λ x m. refl

-- The results that resume a session are one for each pending call, in ascending order of their ids.
pub filter_pending-ids :
    (pending : Pending) (results xs : List ToolResult)
    → filter_pending_map_results pending results ≡ some xs
    → map result_id xs ≡ sort (pending_keys pending)
filter_pending-ids pending results xs h =
    let (seen, ys, indexed, taken, sorted) = filter-parts pending results xs h in
    ap (map result_id) (sym sorted)
    ∙ map-sort_by result_id ys
    ∙ ap sort (
        take_results-ids seen pending ys taken
          (index_results-Keyed [] results seen indexed no_results-Keyed))

filter-exists :
    (pending : Pending) (results : List ToolResult) (seen : Files ToolResult) (ys : List ToolResult)
    → index_results [] results ≡ some seen
    → take_results seen pending ≡ some ys
    → filter_pending_map_results pending results ≡ some (sort_by result_id ys)
unfolding filter_pending_map_results
filter-exists pending results seen ys indexed taken = ground (arith, indexed, taken)

known-indexed :
    (results : List ToolResult) (seen : Files ToolResult) (x : Text)
    → index_results [] results ≡ some seen
    → is_some (lookup x seen) ≡ member x (map result_id results)
unfolding lookup
known-indexed results seen x h = ground (arith, index_results-known [] results seen x h)

-- Results resume a session exactly when no id stands twice among them and every pending call has
-- one; other results may stand beside them.
pub filter_pending_iff :
    (pending : Pending) (results : List ToolResult)
    → ((xs : List ToolResult) × (filter_pending_map_results pending results ≡ some xs)) ↔ (
        Distinct (map result_id results)
        × ((x : Text)
            → member x (pending_keys pending) ≡ true
            → member x (map result_id results) ≡ true))
filter_pending_iff pending results = (
  λ (xs, h).
      let (seen, ys, indexed, taken, sorted) = filter-parts pending results xs h in
      (
        (index_results-Distinct [] results seen indexed).0,
        λ x m.
            sym (known-indexed results seen x indexed)
            ∙ take_results-known seen pending ys x taken m,
      ),
  λ (distinct, covered).
      let (seen, indexed) = index_results-exists [] results distinct (no_results-Apart results) in
      let (ys, taken) =
        take_results-exists seen pending
          (λ x m. known-indexed results seen x indexed ∙ covered x m) in
      (sort_by result_id ys, filter-exists pending results seen ys indexed taken),
)
