-- ===== src/Store/Directory.antt =====
-- A directory: files by name, with the laws of reading after a write or a removal.
use cursor_agent2api.Base.{
  ◌≡◌, refl, List, [], ◌∷◌, Option, none, some, if◌then◌else◌, Text, ◌==◌, arith,
}

abbrev pub Files : Type 0 → Type 0
Files A = List (Text × A)

module _ {A : Type 0} where
  unfoldable pub lookup : Text → Files A → Option A
  lookup name [] = none
  lookup name ((other, content) ∷ files) = if other == name then some content else lookup name files

  unfoldable pub insert : Text → A → Files A → Files A
  insert name new [] = (name, new) ∷ []
  insert name new ((other, content) ∷ files) =
      if other == name then (name, new) ∷ files else (other, content) ∷ insert name new files

  unfoldable pub delete : Text → Files A → Files A
  delete name [] = []
  delete name ((other, content) ∷ files) =
      let rest = delete name files in if other == name then rest else (other, content) ∷ rest

  pub lookup-insert :
      (name read : Text) (new : A) (files : Files A)
      → lookup read (insert name new files) ≡ (if name == read then some new else lookup read files)
  unfolding lookup insert
  lookup-insert name read new [] = refl
  lookup-insert name read new ((other, content) ∷ files) =
      ground (arith, lookup-insert name read new files)

  pub lookup-delete :
      (name read : Text) (files : Files A)
      → lookup read (delete name files) ≡ (if name == read then none else lookup read files)
  unfolding lookup delete
  lookup-delete name read [] = ground arith
  lookup-delete name read ((other, content) ∷ files) = ground (arith, lookup-delete name read files)
