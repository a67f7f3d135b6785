-- ===== src/KernelList/Sort.antt =====
-- pintos/src/lib/kernel/list.c: `list_sort`, a natural merge sort, on the sequence of elements. A
-- range between two elements of the list is the sequence of the elements in it.
pub mod Merge
pub mod Runs
pub mod Passes
use spring_os.Prelude.{
  ℕ, zero, suc, ◌+◌, Bool, true, false, ◌&&◌, List, [], ◌∷◌, ◌++◌, ltb, if◌then◌else◌, length,
}
use spring_os.Prelude.Outcome.{Outcome, done, panic, ◌>>=◌}

module _ {ℓ} {A : Type ℓ} (less : A → A → Bool) where
  -- `is_sorted` behind the element `a`, and from the first element on.
  abbrev pub sorted_from : A → List A → Bool
  sorted_from a [] = true
  sorted_from a (b ∷ rs) = if less b a then false else sorted_from b rs

  abbrev pub is_sorted : List A → Bool
  is_sorted [] = true
  is_sorted (a ∷ ls) = sorted_from a ls

  -- The loop of `find_end_of_run` behind `a`: the rest of the run, and what follows it.
  unfoldable pub end_of_run : A → List A → List A × List A
  end_of_run a [] = ([], [])
  end_of_run a (b ∷ rs) = elim (less b a) [
    | true ↦ ([], b ∷ rs)
    | false ↦ let (run, rest) = end_of_run b rs in (b ∷ run, rest)
  ]

  -- The loop of `inplace_merge`: `a0` moves on, or the element at `a1b0` moves in front of it.
  unfoldable pub merge_loop : List A → List A → List A
  merge_loop [] rs = rs
  merge_loop (a ∷ ls) [] = a ∷ ls
  merge_loop (a ∷ ls) (b ∷ rs) = elim (less b a) [
    | false ↦ a ∷ merge_loop ls (b ∷ rs)
    | true ↦ b ∷ merge_loop (a ∷ ls) rs
  ]

  unfoldable pub inplace_merge : List A → List A → Outcome (List A)
  unfolding merge_loop
  inplace_merge ls rs = if is_sorted ls && is_sorted rs then done (merge_loop ls rs) else panic

  -- The `for` of `list_sort` from `a0` on, with `output_run_cnt` counted from there: the number of
  -- output runs, and the elements.
  unfoldable pub sort_pass : ℕ → List A → Outcome (ℕ × List A)
  unfolding end_of_run inplace_merge
  sort_pass n [] = done (0, [])
  sort_pass zero (a0 ∷ ls) = panic
  sort_pass (suc n) (a0 ∷ ls) =
      let (first, a1b0) = end_of_run a0 ls in
      elim a1b0 [
        | [] ↦ done (1, a0 ∷ ls)
        | b ∷ rest ↦
            let (second, b1) = end_of_run b rest in
            inplace_merge (a0 ∷ first) (b ∷ second) >>= λ merged.
            sort_pass n b1 >>= λ (output_run_cnt, others).
            done (output_run_cnt + 1, merged ++ others)
      ]

  -- The `do` loop: at most `n` passes. A pass has no more rounds than there are elements.
  unfoldable pub sort_loop : ℕ → List A → Outcome (List A)
  unfolding sort_pass
  sort_loop zero xs = panic
  sort_loop (suc n) xs = do
    (output_run_cnt, ys) ← sort_pass (length xs) xs
    elim (ltb 1 output_run_cnt) [
      | true ↦ sort_loop n ys
      | false ↦ if is_sorted ys then done ys else panic
    ]

  unfoldable pub list_sort : List A → Outcome (List A)
  unfolding sort_loop
  list_sort xs = sort_loop (length xs + 1) xs
