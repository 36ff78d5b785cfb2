-- ===== src/Ids/Whole.antt =====
-- The results of a whole batch: `completedResultsForBatch` of cursoragentv1/segment.go on the ids of
-- the results themselves, in the form of `canonicalToolResults`.
use cursor_agent2api.Base.{
  ◌≡◌, ◌≢◌, refl, sym, sort, member-sort, trim_space, inl, inr, Above-member, Above-Ascending, ap,
  ◌∙◌, true, false, List, [], ◌∷◌, some, Text, arith, member, before, before_irrefl, before_trans,
  insert_by, sort_by, Above, Ascending, Bool-cases,
}
use cursor_agent2api.Types.{ToolResult}
use cursor_agent2api.Ids.{
  CompletedToolResult, result_ids, completed_batch_ids, normalize_tool_ids, remove, select,
  completed_results_for_batch, is_empty, canonical_tool_results, ok,
}
use cursor_agent2api.Ids.Batch.{normalize-fixed}
use cursor_agent2api.Ids.Results.{IsCanonical, trimmed_ids, canonical_tool_results-IsCanonical}

abbrev key : CompletedToolResult → Text
key c = c.tool_call_id

before_asym : (a b : Text) → before a b ≡ true → before b a ≡ false
before_asym a b h = elim (Bool-cases (before b a)) [
  | inl e ↦ absurd (cc (before_irrefl a, before_trans a b a h e))
  | inr e ↦ e
]

insert-first :
    (c : CompletedToolResult) (cs : List CompletedToolResult)
    → Above (key c) (result_ids cs)
    → insert_by key c cs ≡ c ∷ cs
unfolding insert_by
insert-first c [] s = refl
insert-first c (d ∷ ds) s = ground (arith, before_asym (key c) (key d) s.0)

-- Sorted results are left as they are.
sort-fixed : (cs : List CompletedToolResult) → Ascending (result_ids cs) → sort_by key cs ≡ cs
unfolding sort_by
sort-fixed [] s = refl
sort-fixed (c ∷ cs) s =
    ap (insert_by key c) (sort-fixed cs (Above-Ascending (key c) (result_ids cs) s))
    ∙ insert-first c cs s

remove-new : (a : Text) (xs : List Text) → member a xs ≡ false → remove a xs ≡ xs
unfolding member remove
remove-new a [] h = refl
remove-new a (x ∷ xs) h = ground (arith, remove-new a xs)

remove-head : (a : Text) (xs : List Text) → member a xs ≡ false → remove a (a ∷ xs) ≡ xs
unfolding remove
remove-head a xs h = ground (arith, remove-new a xs h)

select-whole :
    (cs : List CompletedToolResult)
    → Ascending (result_ids cs)
    → select (result_ids cs) cs ≡ (cs, [])
unfolding select member
select-whole [] s = refl
select-whole (c ∷ cs) s = ground (
  arith,
  remove-head (key c) (result_ids cs) (Above-member (key c) (result_ids cs) s),
  select-whole cs (Above-Ascending (key c) (result_ids cs) s),
)

-- Canonical results are their own batch.
pub completed_batch-fixed :
    (cs : List CompletedToolResult) → IsCanonical cs → completed_batch_ids cs ≡ result_ids cs
unfolding completed_batch_ids
completed_batch-fixed cs h = normalize-fixed (result_ids cs) h.are_ids h.ascending

all-found :
    (batch wanted : List Text) (cs : List CompletedToolResult)
    → normalize_tool_ids batch ≡ wanted
    → is_empty wanted ≡ false
    → select wanted cs ≡ (cs, [])
    → completed_results_for_batch cs batch ≡ some (sort_by key cs)
unfolding completed_results_for_batch
all-found batch wanted cs e filled found = ground (arith, e, filled, found)

pub filled-ids : (cs : List CompletedToolResult) → cs ≢ [] → is_empty (result_ids cs) ≡ false
filled-ids [] h = absurd (h refl)
filled-ids (c ∷ cs) h = refl

-- All of canonical results are found for the batch of their ids.
pub completed_results-whole :
    (cs : List CompletedToolResult)
    → IsCanonical cs
    → cs ≢ []
    → completed_results_for_batch cs (completed_batch_ids cs) ≡ some cs
completed_results-whole cs h filled =
    all-found (completed_batch_ids cs) (result_ids cs) cs
      (ap normalize_tool_ids (completed_batch-fixed cs h)
        ∙ normalize-fixed (result_ids cs) h.are_ids h.ascending)
      (filled-ids cs filled) (select-whole cs h.ascending)
    ∙ ap some (sort-fixed cs h.ascending)

first-in : (a : Text) (xs : List Text) → member a (sort (a ∷ xs)) ≡ true
unfolding member
first-in a xs = ground (arith, member-sort a (a ∷ xs))

-- Accepted results are not empty.
pub canonical_tool_results-ne :
    (rs : List ToolResult) (cs : List CompletedToolResult)
    → canonical_tool_results rs ≡ ok cs
    → cs ≢ []
unfolding member
canonical_tool_results-ne [] cs h = absurd ((canonical_tool_results-IsCanonical [] cs h).3 refl)
canonical_tool_results-ne (r ∷ rs) cs h =
    let ids = (canonical_tool_results-IsCanonical (r ∷ rs) cs h).1 in
    λ e. absurd (
      cc (
        first-in (trim_space r.tool_call_id) (trimmed_ids rs),
        ap (member (trim_space r.tool_call_id)) (ap result_ids (sym e) ∙ ids),
      ))
