-- ===== src/Ids/Batch.antt =====
-- The set of ids that a batch stands for (`normalizeToolIDs`, `batchSubsetOf`).
use cursor_agent2api.Base.{
  ◌≡◌, ◌≢◌, ◌↔◌, refl, sym, ap, ◌∙◌, Bool, true, false, not, ◌&&◌, List, [], ◌∷◌, map, arith, Text,
  ◌==◌, trim_space, trim_space_idem, member, sort, sort_by, insert_by, member-sort, sort-Ascending,
  Distinct, Ascending, Ascending-unique,
}
use cursor_agent2api.Ids.{collect_ids, normalize_tool_ids, all_in, batch_subset_of}

member-collect_ids :
    (x : Text) (seen ids : List Text)
    → member x (collect_ids seen ids)
      ≡ (not (x == []) && (not (member x seen) && member x (map trim_space ids)))
unfolding member collect_ids
member-collect_ids x seen [] = ground arith
member-collect_ids x seen (i ∷ is) =
    ground (arith, member-collect_ids x seen is, member-collect_ids x (trim_space i ∷ seen) is)

Distinct-collect_ids : (seen ids : List Text) → Distinct (collect_ids seen ids)
unfolding member collect_ids
Distinct-collect_ids seen [] = tt
Distinct-collect_ids seen (i ∷ is) = ground (
  arith,
  member-collect_ids (trim_space i) (trim_space i ∷ seen) is,
  Distinct-collect_ids seen is,
  Distinct-collect_ids (trim_space i ∷ seen) is,
)

-- The ids of a batch are the trimmed ids that are not empty.
pub member-normalize :
    (x : Text) (ids : List Text)
    → member x (normalize_tool_ids ids) ≡ (not (x == []) && member x (map trim_space ids))
unfolding normalize_tool_ids member
member-normalize x ids = member-sort x (collect_ids [] ids) ∙ member-collect_ids x [] ids

pub normalize-Ascending : (ids : List Text) → Ascending (normalize_tool_ids ids)
unfolding normalize_tool_ids
normalize-Ascending ids = sort-Ascending (collect_ids [] ids) (Distinct-collect_ids [] ids)

-- Two lists have the same normal form exactly when they hold the same trimmed, non-empty ids, in
-- whatever order and however often. So file names and flight keys depend on the set of ids alone.
pub normalize_iff :
    (xs ys : List Text)
    → (normalize_tool_ids xs ≡ normalize_tool_ids ys)
      ↔ ((x : Text) → x ≢ [] → member x (map trim_space xs) ≡ member x (map trim_space ys))
normalize_iff xs ys = (forth, back)
  where
    forth :
        normalize_tool_ids xs ≡ normalize_tool_ids ys
        → (x : Text) → x ≢ []
        → member x (map trim_space xs) ≡ member x (map trim_space ys)
    forth e x filled = ground (arith, member-normalize x xs, member-normalize x ys, ap (member x) e)

    back :
        ((x : Text) → x ≢ [] → member x (map trim_space xs) ≡ member x (map trim_space ys))
        → normalize_tool_ids xs ≡ normalize_tool_ids ys
    back same =
        Ascending-unique (normalize_tool_ids xs) (normalize_tool_ids ys) (normalize-Ascending xs)
          (normalize-Ascending ys)
          λ x. ground (arith, member-normalize x xs, member-normalize x ys, same x)

-- Trimmed ids, none of them empty.
abbrev pub AreIds : List Text → Type 0
AreIds [] = Unit
AreIds (i ∷ is) = (trim_space i ≡ i) × (i ≢ []) × AreIds is

pub member-fixed :
    (x : Text) (ids : List Text)
    → AreIds ids
    → (member x (map trim_space ids) ≡ member x ids) × (member [] ids ≡ false)
unfolding member
member-fixed x [] h = (refl, refl)
member-fixed x (i ∷ is) (e, filled, h) = ground (arith, member-fixed x is h)

-- A list that ascends and holds ids only is its own normal form.
pub normalize-fixed : (ids : List Text) → AreIds ids → Ascending ids → normalize_tool_ids ids ≡ ids
normalize-fixed ids h s =
    Ascending-unique (normalize_tool_ids ids) ids (normalize-Ascending ids) s
      λ x. ground (arith, member-normalize x ids, member-fixed x ids h)

collect_ids-AreIds : (seen ids : List Text) → AreIds (collect_ids seen ids)
unfolding collect_ids
collect_ids-AreIds seen [] = tt
collect_ids-AreIds seen (i ∷ is) = ground (
  arith,
  trim_space_idem i,
  collect_ids-AreIds seen is,
  collect_ids-AreIds (trim_space i ∷ seen) is,
)

insert-AreIds : (i : Text) (is : List Text) → AreIds (i ∷ is) → AreIds (insert_by (λ x. x) i is)
unfolding insert_by
insert-AreIds i [] h = h
insert-AreIds i (j ∷ is) (e, filled, h) = ground (arith, insert-AreIds i is (e, filled, h.2))

pub sort-AreIds : (ids : List Text) → AreIds ids → AreIds (sort ids)
unfolding sort sort_by
sort-AreIds [] h = tt
sort-AreIds (i ∷ is) (e, filled, h) = insert-AreIds i (sort is) (e, filled, sort-AreIds is h)

pub normalize-AreIds : (ids : List Text) → AreIds (normalize_tool_ids ids)
unfolding normalize_tool_ids
normalize-AreIds ids = sort-AreIds (collect_ids [] ids) (collect_ids-AreIds [] ids)

pub normalize_idem :
    (ids : List Text) → normalize_tool_ids (normalize_tool_ids ids) ≡ normalize_tool_ids ids
normalize_idem ids =
    normalize-fixed (normalize_tool_ids ids) (normalize-AreIds ids) (normalize-Ascending ids)

pub all_in-true :
    (is set : List Text) (x : Text)
    → all_in is set ≡ true
    → member x is ≡ true
    → member x set ≡ true
unfolding all_in member
all_in-true [] set x h m = cc
all_in-true (i ∷ is) set x h m = ground (arith, all_in-true is set x)

pub all_in-intro :
    (is set : List Text)
    → ((x : Text) → member x is ≡ true → member x set ≡ true)
    → all_in is set ≡ true
unfolding all_in member
all_in-intro [] set h = refl
all_in-intro (i ∷ is) set h =
    let rest = all_in-intro is set (λ x m. h x (ground arith)) in ground (arith, h i)

-- A batch is covered by the submitted ids exactly when it is not empty and each of its ids is
-- among them.
pub batch_subset_of_iff :
    (batch submitted : List Text)
    → (batch_subset_of batch submitted ≡ true) ↔ (
        (normalize_tool_ids batch ≢ [])
        × ((x : Text)
            → member x (normalize_tool_ids batch) ≡ true
            → member x (normalize_tool_ids submitted) ≡ true))
unfolding batch_subset_of
batch_subset_of_iff batch submitted = (forth, back)
  where
    forth :
        batch_subset_of batch submitted ≡ true
        → (normalize_tool_ids batch ≢ [])
          × ((x : Text)
              → member x (normalize_tool_ids batch) ≡ true
              → member x (normalize_tool_ids submitted) ≡ true)
    forth h = (
      ground arith,
      λ x m.
          all_in-true (normalize_tool_ids batch) (normalize_tool_ids submitted) x (ground arith) m,
    )

    back :
        (normalize_tool_ids batch ≢ [])
          × ((x : Text)
              → member x (normalize_tool_ids batch) ≡ true
              → member x (normalize_tool_ids submitted) ≡ true)
        → batch_subset_of batch submitted ≡ true
    back (filled, sub) =
        let every = all_in-intro (normalize_tool_ids batch) (normalize_tool_ids submitted) sub in
        ground arith

both : (a b : Bool) → (a ≡ true → b ≡ true) → (b ≡ true → a ≡ true) → a ≡ b
both true b f g = sym (f refl)
both false true f g = g refl
both false false f g = refl

-- Two batches that cover each other are the same batch.
pub batch_subset_of_antisym :
    (xs ys : List Text)
    → batch_subset_of xs ys ≡ true
    → batch_subset_of ys xs ≡ true
    → normalize_tool_ids xs ≡ normalize_tool_ids ys
batch_subset_of_antisym xs ys h k =
    Ascending-unique (normalize_tool_ids xs) (normalize_tool_ids ys) (normalize-Ascending xs)
      (normalize-Ascending ys)
      λ x.
        both (member x (normalize_tool_ids xs)) (member x (normalize_tool_ids ys))
          (((batch_subset_of_iff xs ys).0 h).1 x) (((batch_subset_of_iff ys xs).0 k).1 x)
