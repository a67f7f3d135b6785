-- ===== src/KernelList.antt =====
-- pintos/src/lib/kernel/list.c: the ordered operations, on the sequence of elements that the links
-- of a list stand for.
pub mod Ordered
pub mod Extreme
pub mod Sort
mod Tests
use spring_os.Prelude.{
  Bool, true, false, not, ◌&&◌, Option, none, some, List, [], ◌∷◌, if◌then◌else◌,
}

module _ {ℓ} {A : Type ℓ} (less : A → A → Bool) where
  -- `list_insert_ordered`: the first element that `elem` is less than decides the place.
  unfoldable pub list_insert_ordered : A → List A → List A
  list_insert_ordered elem [] = elem ∷ []
  list_insert_ordered elem (e ∷ es) =
      if less elem e then elem ∷ e ∷ es else e ∷ list_insert_ordered elem es

  -- The loop of `list_unique` at `elem`: what stays behind it, and the duplicates.
  unfoldable pub unique_loop : A → List A → List A × List A
  unique_loop elem [] = ([], [])
  unique_loop elem (next ∷ es) = elim (not (less elem next) && not (less next elem)) [
    | true ↦ let (kept, dups) = unique_loop elem es in (kept, next ∷ dups)
    | false ↦ let (kept, dups) = unique_loop next es in (next ∷ kept, dups)
  ]

  unfoldable pub list_unique : List A → List A × List A
  unfolding unique_loop
  list_unique [] = ([], [])
  list_unique (e ∷ es) = let (kept, dups) = unique_loop e es in (e ∷ kept, dups)

  unfoldable pub max_loop : A → List A → A
  max_loop max [] = max
  max_loop max (e ∷ es) = max_loop (if less max e then e else max) es

  -- `none` is the tail that the code returns for an empty list.
  unfoldable pub list_max : List A → Option A
  unfolding max_loop
  list_max [] = none
  list_max (e ∷ es) = some (max_loop e es)

  unfoldable pub min_loop : A → List A → A
  min_loop min [] = min
  min_loop min (e ∷ es) = min_loop (if less e min then e else min) es

  unfoldable pub list_min : List A → Option A
  unfolding min_loop
  list_min [] = none
  list_min (e ∷ es) = some (min_loop e es)
